-- ===== src/Ir/Event/Traces.antt =====
-- What a sequence of events leaves behind in the validator of src/ir/event.rs.
use mathlib.Core.List.{append_assoc, append-nil}
use agent_response_gateway.Base.{
  ℕ, ◌≤◌, ◌≡◌, inl, inr, refl, sym, ap, ◌∙◌, arith, Text, Bool, false, Option, none, some, List, [],
  ◌∷◌, ◌++◌, is_ok, Result-cases, if◌then◌else◌, ◌==◌,
}
use agent_response_gateway.Base.Tables.{get, insert, get-insert, Table}
use agent_response_gateway.Ir.{item_id_eq, ItemId}
use agent_response_gateway.Ir.Event.Types.{EventValidator, EventIr, ItemState}
use agent_response_gateway.Ir.Event.Handlers.{
  apply, feed, fresh_item, input_of, output_of, or_known, decreased,
}
use agent_response_gateway.Ir.Event.Steps.{
  Step, begin, add_item, open_part, forward_text, close_part, add_arguments, close_item,
  merge_usage, finish,
}
use agent_response_gateway.Ir.Event.Accepts.{apply-Step}
use agent_response_gateway.Ir.Event.Rejects.{apply-rejects}

abbrev text_of : Option ItemState → Text
text_of none = []
text_of (some i) = i.arguments

-- The arguments held for an item, none before it has started.
pub held : EventValidator → ItemId → Text
held v id = text_of (get id v.items)

-- What one event adds to an item's arguments if it is accepted.
abbrev pub delta_for : ItemId → EventIr → Text
delta_for id (EventIr.arguments_delta item delta) = if item == id then delta else []
delta_for id _ = []

-- The deltas for an item that were accepted, in order.
pub accepted_deltas : (Text → Bool) → ItemId → EventValidator → List EventIr → Text
accepted_deltas parses_json id v [] = []
accepted_deltas parses_json id v (e ∷ es) =
    (if is_ok (apply parses_json v e).1 then delta_for id e else [])
    ++ accepted_deltas parses_json id (apply parses_json v e).0 es

-- The arguments of the item that is written, and of every other.
held-insert :
    (id item : ItemId) (u : ItemState) (o : Option ItemState) (t : Table ItemId ItemState)
    → get item t ≡ o
    → u.arguments ≡ text_of o
    → text_of (get id (insert item u t)) ≡ text_of (get id t)
held-insert id item u o t g same = ground (arith, get-insert item id u t)

held-insert_added :
    (id item : ItemId) (u : ItemState) (delta : Text) (w : ItemState) (t : Table ItemId ItemState)
    → get item t ≡ some w
    → u.arguments ≡ w.arguments ++ delta
    → text_of (get id (insert item u t)) ≡ text_of (get id t) ++ (if item == id then delta else [])
held-insert_added id item u delta w t g same =
    ground (arith, get-insert item id u t, append-nil (text_of (get id t)))

module _ (parses_json : Text → Bool) (id : ItemId) where
  Step-held :
      (v : EventValidator) (e : EventIr) {v' : EventValidator}
      → Step parses_json v e v'
      → held v' id ≡ held v id ++ delta_for id e
  unfolding held
  Step-held v e (begin s) = sym (append-nil _)
  Step-held v e (add_item {id = item} {kind = kind} s room fresh unused _ called) =
      held-insert id item (fresh_item kind) none v.items fresh refl ∙ sym (append-nil _)
  Step-held v e (open_part {item = item} w s room g o k unused) =
      held-insert id item _ (some w) v.items g refl ∙ sym (append-nil _)
  Step-held v e (forward_text w s g o p d) = sym (append-nil _)
  Step-held v e (close_part {item = item} w p s g o k _) =
      held-insert id item _ (some w) v.items g refl ∙ sym (append-nil _)
  Step-held v e (add_arguments {item = item} {delta = delta} w s _ room g o k) =
      held-insert_added id item _ delta w v.items g refl
  Step-held v e (close_item {item = item} w s g o p j) =
      held-insert id item _ (some w) v.items g refl ∙ sym (append-nil _)
  Step-held v e (merge_usage s a b) = sym (append-nil _)
  Step-held v e (finish s _ d) = sym (append-nil _)

  apply-held :
      (v : EventValidator) (e : EventIr)
      → held (apply parses_json v e).0 id
        ≡ held v id ++ (if is_ok (apply parses_json v e).1 then delta_for id e else [])
  apply-held v e = elim (Result-cases (apply parses_json v e).1) [
    | inl accepted ↦ rw accepted (Step-held v e (apply-Step parses_json v e accepted).1)
    | inr (x, refused) ↦ rw (refused, apply-rejects parses_json v e x refused) (sym (append-nil _))
  ]

  -- After any events the arguments of an item are those that it had, followed by the text of every
  -- accepted delta for it, in order; rejected deltas and those of other items add nothing.
  pub held-feed :
      (v : EventValidator) (es : List EventIr)
      → held (feed parses_json v es) id ≡ held v id ++ accepted_deltas parses_json id v es
  unfolding feed accepted_deltas
  held-feed v [] = sym (append-nil _)
  held-feed v (e ∷ es) =
      held-feed (apply parses_json v e).0 es
      ∙ ap (λ before. before ++ accepted_deltas parses_json id (apply parses_json v e).0 es)
          (apply-held v e)
      ∙ append_assoc (held v id) (if is_ok (apply parses_json v e).1 then delta_for id e else [])
          (accepted_deltas parses_json id (apply parses_json v e).0 es)

-- A count that is known stays known and does not fall.
abbrev pub NotBelow : Option ℕ → Option ℕ → Type 0
NotBelow none new = Unit
NotBelow (some a) none = ⊥
NotBelow (some a) (some b) = a ≤ b

NotBelow-refl : (a : Option ℕ) → NotBelow a a
NotBelow-refl none = tt
NotBelow-refl (some a) = omega arith

NotBelow-trans : (a b c : Option ℕ) → NotBelow a b → NotBelow b c → NotBelow a c
NotBelow-trans none b c h k = tt
NotBelow-trans (some a) none c h k = absurd h
NotBelow-trans (some a) (some b) none h k = absurd k
NotBelow-trans (some a) (some b) (some c) h k = omega arith

NotBelow-or_known : (a b : Option ℕ) → decreased a b ≡ false → NotBelow a (or_known b a)
NotBelow-or_known none b h = tt
NotBelow-or_known (some a) none h = omega arith
NotBelow-or_known (some a) (some b) h = ground arith

pub record UsageGrows (v v' : EventValidator) : Type 0 where
  pub input : NotBelow (input_of v.usage) (input_of v'.usage)
  pub output : NotBelow (output_of v.usage) (output_of v'.usage)

UsageGrows-refl : (v : EventValidator) → UsageGrows v v
UsageGrows-refl v = record { input = NotBelow-refl _; output = NotBelow-refl _ }

module _ (parses_json : Text → Bool) where
  Step-usage :
      (v : EventValidator) (e : EventIr) {v' : EventValidator}
      → Step parses_json v e v'
      → UsageGrows v v'
  Step-usage v e (merge_usage s a b) = record {
    input = NotBelow-or_known _ _ a;
    output = NotBelow-or_known _ _ b;
  }
  Step-usage v e _ = record { input = NotBelow-refl _; output = NotBelow-refl _ }

  apply-usage : (v : EventValidator) (e : EventIr) → UsageGrows v (apply parses_json v e).0
  apply-usage v e = elim (Result-cases (apply parses_json v e).1) [
    | inl accepted ↦ Step-usage v e (apply-Step parses_json v e accepted).1
    | inr (x, refused) ↦ rw (apply-rejects parses_json v e x refused) (UsageGrows-refl v)
  ]

  -- Over any events, a reported token count that is known stays known and never falls.
  pub feed-usage : (v : EventValidator) (es : List EventIr) → UsageGrows v (feed parses_json v es)
  unfolding feed
  feed-usage v [] = UsageGrows-refl v
  feed-usage v (e ∷ es) =
      let first = apply-usage v e in
      let rest = feed-usage (apply parses_json v e).0 es in
      record {
        input = NotBelow-trans _ _ _ first.input rest.input;
        output = NotBelow-trans _ _ _ first.output rest.output;
      }
