-- ===== src/Ir/Event/Valid.antt =====
-- What `EventValidator` of src/ir/event.rs keeps over one step of an accepted event.
use mathlib.Core.Path.{subst}
use agent_response_gateway.Base.{
  ℕ, ◌+◌, ◌≤◌, ◌≡◌, refl, arith, Text, Bool, true, false, none, some, [], length, length-append, ok,
  ◌<◌, ◌++◌, nat_eq,
}
use agent_response_gateway.Base.Tables.{
  get, insert, contains, sum_by, any_value, get-ne_nil, Values, Values-insert, Values-get,
  sum_by-insert_new, sum_by-insert_old, length-insert_new, length-insert_old, length-add_new,
}
use agent_response_gateway.Ir.{item_id_eq, call_id_eq, ItemId}
use agent_response_gateway.Ir.Event.Steps.{
  Carries-not_tool, Step, begin, add_item, open_part, forward_text, close_part, add_arguments,
  close_item, merge_usage, finish, item_added,
}
use agent_response_gateway.Ir.Event.Types.{
  EventValidator, EventIr, EventLimits, ItemState, OutputKind, completed, new, is_tool, is_function,
}
use agent_response_gateway.Ir.Event.Handlers.{fresh_item}

abbrev part_count : ItemState → ℕ
part_count i = length i.parts

abbrev argument_count : ItemState → ℕ
argument_count i = length i.arguments

abbrev initial : EventLimits → EventValidator
initial limits = record {
  started = false;
  terminal = none;
  terminal_reason = none;
  items = [];
  indices = [];
  calls = [];
  parts = 0;
  argument_bytes = 0;
  usage = none;
  limits = limits;
}

new_lem : (limits : EventLimits) (v : EventValidator) → new limits ≡ ok v → initial limits ≡ v
unfolding new
new_lem limits v h = ground arith

module _ (parses_json : Text → Bool) where
  -- An item that is closed has no open part, and its arguments parse if it is a function call; only
  -- tool items have arguments, and they have no parts.
  pub record ItemIsValid (i : ItemState) : Type 0 where
    pub parts_closed : i.is_open ≡ false → any_value (λ p. p.is_open) i.parts ≡ false
    pub parsed : i.is_open ≡ false → is_function i.kind ≡ true → parses_json i.arguments ≡ true
    pub arguments_of_tools : is_tool i.kind ≡ false → i.arguments ≡ []
    pub parts_of_others : is_tool i.kind ≡ true → i.parts ≡ []

  pub record IsValid (v : EventValidator) : Type 0 where
    pub one_index_each : length v.items ≡ length v.indices
    pub items_bounded : length v.items ≤ v.limits.max_items
    pub parts_counted : v.parts ≡ sum_by part_count v.items
    pub parts_bounded : v.parts ≤ v.limits.max_parts
    pub arguments_counted : v.argument_bytes ≡ sum_by argument_count v.items
    pub arguments_bounded : v.argument_bytes ≤ v.limits.max_argument_bytes
    pub nothing_before_start : v.started ≡ false → (v.items ≡ []) × (v.terminal ≡ none)
    pub items_valid : Values ItemIsValid v.items
    pub complete : v.terminal ≡ some completed → any_value (λ i. i.is_open) v.items ≡ false

  new_state-IsValid : (limits : EventLimits) → IsValid (initial limits)
  new_state-IsValid limits = record {
    one_index_each = refl;
    items_bounded = omega arith;
    parts_counted = refl;
    parts_bounded = omega arith;
    arguments_counted = refl;
    arguments_bounded = omega arith;
    nothing_before_start = λ _. (refl, refl);
    items_valid = tt;
    complete = λ c. absurd (cc);
  }

  pub new-IsValid : (limits : EventLimits) (v : EventValidator) → new limits ≡ ok v → IsValid v
  unfolding new
  new-IsValid limits v h = subst IsValid (new_lem limits v h) (new_state-IsValid limits)

  fresh-ItemIsValid : (kind : OutputKind) → ItemIsValid (fresh_item kind)
  fresh-ItemIsValid kind = ground arith

  module _ (v : EventValidator) (t : v.terminal ≡ none) (h : IsValid v) where
    -- One item is replaced.
    module _ (item : ItemId) (w : ItemState) (s : v.started ≡ true)
        (g : get item v.items ≡ some w) where
      old-ItemIsValid : ItemIsValid w
      old-ItemIsValid = Values-get ItemIsValid item w v.items h.items_valid g

      replaced-IsValid :
          (u : ItemState) (parts argument_bytes : ℕ)
          → ItemIsValid u
          → parts + part_count w ≡ v.parts + part_count u
          → argument_bytes + argument_count w ≡ v.argument_bytes + argument_count u
          → parts ≤ v.limits.max_parts
          → argument_bytes ≤ v.limits.max_argument_bytes
          → IsValid (record v {
            items = insert item u v.items;
            parts = parts;
            argument_bytes = argument_bytes;
          })
      replaced-IsValid u parts argument_bytes valid p a pb ab = record {
        one_index_each = omega (arith, length-insert_old item u w v.items g, h.one_index_each);
        items_bounded = omega (arith, length-insert_old item u w v.items g, h.items_bounded);
        parts_counted =
            omega (arith, sum_by-insert_old part_count item u w v.items g, h.parts_counted);
        parts_bounded = pb;
        arguments_counted =
            omega (arith, sum_by-insert_old argument_count item u w v.items g, h.arguments_counted);
        arguments_bounded = ab;
        nothing_before_start = λ f. absurd (cc);
        items_valid = Values-insert ItemIsValid item u v.items valid h.items_valid;
        complete = λ c. absurd (cc);
      }

    added-IsValid :
        (item : ItemId) (index : ℕ) (kind : OutputKind)
        → v.started ≡ true
        → length v.items < v.limits.max_items
        → get item v.items ≡ none
        → contains index v.indices ≡ false
        → IsValid (item_added v item index kind)
    added-IsValid item index kind s room fresh unused =
        let u = fresh_item kind in
        record {
          one_index_each = omega (
            arith,
            length-insert_new item u v.items fresh,
            length-add_new index v.indices unused,
            h.one_index_each,
          );
          items_bounded = omega (arith, length-insert_new item u v.items fresh);
          parts_counted =
              omega (arith, sum_by-insert_new part_count item u v.items fresh, h.parts_counted);
          parts_bounded = h.parts_bounded;
          arguments_counted =
              omega
                (arith, sum_by-insert_new argument_count item u v.items fresh, h.arguments_counted);
          arguments_bounded = h.arguments_bounded;
          nothing_before_start = λ f. absurd (cc);
          items_valid =
              Values-insert ItemIsValid item u v.items (fresh-ItemIsValid kind) h.items_valid;
          complete = λ c. absurd (cc);
        }

    pub Step-IsValid : (e : EventIr) {v' : EventValidator} → Step parses_json v e v' → IsValid v'
    Step-IsValid e (begin s) = record {
      one_index_each = h.one_index_each;
      items_bounded = h.items_bounded;
      parts_counted = h.parts_counted;
      parts_bounded = h.parts_bounded;
      arguments_counted = h.arguments_counted;
      arguments_bounded = h.arguments_bounded;
      nothing_before_start = λ f. absurd (cc);
      items_valid = h.items_valid;
      complete = λ c. absurd (cc);
    }
    Step-IsValid e (add_item s room fresh unused _ called) = added-IsValid _ _ _ s room fresh unused
    Step-IsValid e (open_part {item = item} {index = index} w s room g o k unused) =
        let old = old-ItemIsValid item w s g in
        let not_tool = Carries-not_tool k in
        let u : ItemState = record w { parts = insert index (record { is_open = true }) w.parts } in
        replaced-IsValid item w s g u (v.parts + 1) v.argument_bytes
          (record {
            parts_closed = λ c. absurd (cc);
            parsed = λ c. absurd (cc);
            arguments_of_tools = old.arguments_of_tools;
            parts_of_others = λ c. absurd (cc);
          })
          (omega (arith, length-insert_new index (record { is_open = true }) w.parts unused))
          (omega arith) (omega arith) h.arguments_bounded
    Step-IsValid e (forward_text w s g o p d) = h
    Step-IsValid e (close_part {item = item} {index = index} w p s g o k _) =
        let old = old-ItemIsValid item w s g in
        let u : ItemState = record w {
          parts = insert index (record { is_open = false }) w.parts;
        } in
        replaced-IsValid item w s g u v.parts v.argument_bytes
          (record {
            parts_closed = λ c. absurd (cc);
            parsed = λ c. absurd (cc);
            arguments_of_tools = old.arguments_of_tools;
            parts_of_others = λ c. absurd (get-ne_nil index p w.parts k (old.parts_of_others c));
          })
          (omega (arith, length-insert_old index (record { is_open = false }) p w.parts k))
          (omega arith) h.parts_bounded h.arguments_bounded
    Step-IsValid e (add_arguments {item = item} {delta = delta} w s _ room g o k) =
        let old = old-ItemIsValid item w s g in
        replaced-IsValid item w s g (record w { arguments = w.arguments ++ delta }) v.parts
          (v.argument_bytes + length delta)
          (record {
            parts_closed = λ c. absurd (cc);
            parsed = λ c. absurd (cc);
            arguments_of_tools = λ c. absurd (cc);
            parts_of_others = old.parts_of_others;
          })
          (omega arith) (omega (arith, length-append w.arguments delta)) h.parts_bounded
          (omega (arith, h.arguments_bounded))
    Step-IsValid e (close_item {item = item} w s g o p j) =
        let old = old-ItemIsValid item w s g in
        replaced-IsValid item w s g (record w { is_open = false }) v.parts v.argument_bytes
          (record {
            parts_closed = λ c. p;
            parsed = λ c. j;
            arguments_of_tools = old.arguments_of_tools;
            parts_of_others = old.parts_of_others;
          })
          (omega arith) (omega arith) h.parts_bounded h.arguments_bounded
    Step-IsValid e (merge_usage s i o) = record {
      one_index_each = h.one_index_each;
      items_bounded = h.items_bounded;
      parts_counted = h.parts_counted;
      parts_bounded = h.parts_bounded;
      arguments_counted = h.arguments_counted;
      arguments_bounded = h.arguments_bounded;
      nothing_before_start = λ f. absurd (cc);
      items_valid = h.items_valid;
      complete = λ c. absurd (cc);
    }
    Step-IsValid e (finish s _ c) = record {
      one_index_each = h.one_index_each;
      items_bounded = h.items_bounded;
      parts_counted = h.parts_counted;
      parts_bounded = h.parts_bounded;
      arguments_counted = h.arguments_counted;
      arguments_bounded = h.arguments_bounded;
      nothing_before_start = λ f. absurd (cc);
      items_valid = h.items_valid;
      complete = λ done. c (cc);
    }
