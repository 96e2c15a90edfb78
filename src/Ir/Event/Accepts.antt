-- ===== src/Ir/Event/Accepts.antt =====
-- The accepting branches of the handlers of src/ir/event.rs, and the step relation.
use agent_response_gateway.Base.{
  ℕ, ◌-◌, ◌≤◌, ◌<◌, ◌≡◌, inl, inr, refl, arith, if◌then◌else◌, Text, Bool, true, false, not, Option,
  none, some, length, ok, nat_eq, Option-cases, is_some_and,
}
use agent_response_gateway.Base.Tables.{get, contains, contains_key, any_value}
use agent_response_gateway.Ir.{item_id_eq, call_id_eq, invalid_event_order, ResponseId, ItemId}
use agent_response_gateway.Ir.Event.Types.{
  EventValidator, EventIr, ItemState, PartState, OutputKind, tool, PartKind, Terminal, completed,
  Usage, reject, accept, Outcome, is_tool, is_function,
}
use agent_response_gateway.Ir.Event.Handlers.{
  register_call, on_item_started, on_part_started, on_text_delta, on_part_finished,
  on_arguments_delta, on_item_finished, on_usage_updated, on_finished, handle, apply,
  start_or_handle, accepts_part, decreased, input_of, output_of,
}
use agent_response_gateway.Ir.Event.Steps.{
  registered, call_is_new, item_added, part_opened, part_closed, arguments_added, item_closed,
  usage_merged, Step, begin, add_item, open_part, forward_text, close_part, add_arguments,
  close_item, merge_usage, finish, Carries, message_text, reasoning_text, HasIdentity,
  ReasonIsShort,
}

accepts_part-Carries :
    (kind : OutputKind) (part : PartKind) → accepts_part kind part ≡ true → Carries kind part
accepts_part-Carries OutputKind.message PartKind.text h = message_text
accepts_part-Carries OutputKind.message PartKind.reasoning_text h = absurd (cc)
accepts_part-Carries OutputKind.reasoning PartKind.reasoning_text h = reasoning_text
accepts_part-Carries OutputKind.reasoning PartKind.text h = absurd (cc)
accepts_part-Carries (tool _ _ _) part h = absurd (cc)

-- One inversion for each handler.
register_call_lem :
    (v : EventValidator) (kind : OutputKind)
    → (register_call v kind).1 ≡ ok tt
    → HasIdentity kind
      × (call_is_new v kind ≡ true)
      × ((register_call v kind).0 ≡ record v { calls = registered v kind })
unfolding register_call
register_call_lem v (tool identity call_id kind) h = ground arith
register_call_lem v _ h = ground arith

module _ (v : EventValidator) (item : ItemId) where
  item_started_lem :
      (index : ℕ) (kind : OutputKind)
      → (on_item_started v item index kind).1 ≡ ok tt
      → (length v.items < v.limits.max_items)
        × (get item v.items ≡ none)
        × (contains index v.indices ≡ false)
        × HasIdentity kind
        × (call_is_new v kind ≡ true)
        × ((on_item_started v item index kind).0 ≡ item_added v item index kind)
  unfolding on_item_started contains_key
  item_started_lem index kind h = ground (arith, register_call_lem v kind)

module _ (v : EventValidator) (item : ItemId) (w : ItemState) (g : get item v.items ≡ some w) where
  part_started_lem :
      (index : ℕ) (kind : PartKind)
      → (on_part_started v item index kind).1 ≡ ok tt
      → (v.parts < v.limits.max_parts)
        × (w.is_open ≡ true)
        × (accepts_part w.kind kind ≡ true)
        × (get index w.parts ≡ none)
        × ((on_part_started v item index kind).0 ≡ part_opened v item w index)
  unfolding on_part_started contains_key
  part_started_lem index kind h = ground arith

  text_delta_lem :
      (index : ℕ) (delta : Text)
      → (on_text_delta v item index delta).1 ≡ ok tt
      → (w.is_open ≡ true)
        × (is_some_and (get index w.parts) (λ p. p.is_open) ≡ true)
        × (length delta ≤ v.limits.max_delta_bytes)
        × ((on_text_delta v item index delta).0 ≡ v)
  unfolding on_text_delta
  text_delta_lem index delta h = ground arith

  part_finished_lem :
      (index : ℕ)
      → (on_part_finished v item index).1 ≡ ok tt
      → (p : PartState) × (w.is_open ≡ true)
        × (get index w.parts ≡ some p)
        × (p.is_open ≡ true)
        × ((on_part_finished v item index).0 ≡ part_closed v item w index)
  unfolding on_part_finished
  part_finished_lem index h = ground arith

  arguments_delta_lem :
      (delta : Text)
      → (on_arguments_delta v item delta).1 ≡ ok tt
      → (length delta ≤ v.limits.max_delta_bytes)
        × (length delta ≤ v.limits.max_argument_bytes - v.argument_bytes)
        × (w.is_open ≡ true)
        × (is_tool w.kind ≡ true)
        × ((on_arguments_delta v item delta).0 ≡ arguments_added v item w delta)
  unfolding on_arguments_delta
  arguments_delta_lem delta h = ground arith

  item_finished_lem :
      (parses_json : Text → Bool)
      → (on_item_finished parses_json v item).1 ≡ ok tt
      → (w.is_open ≡ true)
        × (any_value (λ p. p.is_open) w.parts ≡ false)
        × (is_function w.kind ≡ true → parses_json w.arguments ≡ true)
        × ((on_item_finished parses_json v item).0 ≡ item_closed v item w)
  unfolding on_item_finished
  item_finished_lem parses_json h = ground arith

finished_lem :
    (v : EventValidator) (status : Terminal) (reason : Option Text)
    → (on_finished v status reason).1 ≡ ok tt
    → ReasonIsShort reason
      × (status ≡ completed → any_value (λ i. i.is_open) v.items ≡ false)
      × ((on_finished v status reason).0
          ≡ record v { terminal = some status; terminal_reason = reason })
unfolding on_finished
finished_lem v status reason h = ground arith

usage_updated_lem :
    (v : EventValidator) (u : Usage)
    → (on_usage_updated v u).1 ≡ ok tt
    → (decreased (input_of v.usage) u.input_tokens ≡ false)
      × (decreased (output_of v.usage) u.output_tokens ≡ false)
      × ((on_usage_updated v u).0 ≡ usage_merged v u)
unfolding on_usage_updated
usage_updated_lem v u h = ground arith

module _ (parses_json : Text → Bool) (v : EventValidator) where
  abbrev Stepped : EventIr → Type 0
  Stepped e = (handle parses_json v e).1 ≡ ok tt → Step parses_json v e (handle parses_json v e).0

  module _ (s : v.started ≡ true) where
    item_started-Step :
        (item : ItemId) (index : ℕ) (kind : OutputKind)
        → Stepped (EventIr.item_started item index kind)
    unfolding handle
    item_started-Step item index kind h =
        let (room, fresh, unused, valid, called, e) = item_started_lem v item index kind h in
        rw e (add_item s room fresh unused valid called)

    part_started-Step :
        (item : ItemId) (index : ℕ) (kind : PartKind)
        → Stepped (EventIr.part_started item index kind)
    unfolding handle
    part_started-Step item index kind h = elim (Option-cases (get item v.items)) [
      | inl absent ↦ absurd (unfold on_part_started in ground arith)
      | inr (w, g) ↦
          let (room, is_open, of_text, unused, e) = part_started_lem v item w g index kind h in
          rw e (open_part w s room g is_open (accepts_part-Carries w.kind kind of_text) unused)
    ]

    text_delta-Step :
        (item : ItemId) (index : ℕ) (delta : Text) → Stepped (EventIr.text_delta item index delta)
    unfolding handle
    text_delta-Step item index delta h = elim (Option-cases (get item v.items)) [
      | inl absent ↦ absurd (unfold on_text_delta in ground arith)
      | inr (w, g) ↦
          let (is_open, part, short, e) = text_delta_lem v item w g index delta h in
          rw e (forward_text w s g is_open part short)
    ]

    part_finished-Step : (item : ItemId) (index : ℕ) → Stepped (EventIr.part_finished item index)
    unfolding handle
    part_finished-Step item index h = elim (Option-cases (get item v.items)) [
      | inl absent ↦ absurd (unfold on_part_finished in ground arith)
      | inr (w, g) ↦
          let (p, is_open, part, part_open, e) = part_finished_lem v item w g index h in
          rw e (close_part w p s g is_open part part_open)
    ]

    arguments_delta-Step :
        (item : ItemId) (delta : Text) → Stepped (EventIr.arguments_delta item delta)
    unfolding handle
    arguments_delta-Step item delta h = elim (Option-cases (get item v.items)) [
      | inl absent ↦ absurd (unfold on_arguments_delta in ground arith)
      | inr (w, g) ↦
          let (short, room, is_open, of_tool, e) = arguments_delta_lem v item w g delta h in
          rw e (add_arguments w s short room g is_open of_tool)
    ]

    item_finished-Step : (item : ItemId) → Stepped (EventIr.item_finished item)
    unfolding handle
    item_finished-Step item h = elim (Option-cases (get item v.items)) [
      | inl absent ↦ absurd (unfold on_item_finished in ground arith)
      | inr (w, g) ↦
          let (is_open, parts, parsed, e) = item_finished_lem v item w g parses_json h in
          rw e (close_item w s g is_open parts parsed)
    ]

    handle-Step : (e : EventIr) → Stepped e
    handle-Step (EventIr.started id) h = absurd (unfold handle in cc)
    handle-Step (EventIr.item_started item index kind) h = item_started-Step item index kind h
    handle-Step (EventIr.part_started item index kind) h = part_started-Step item index kind h
    handle-Step (EventIr.text_delta item index delta) h = text_delta-Step item index delta h
    handle-Step (EventIr.part_finished item index) h = part_finished-Step item index h
    handle-Step (EventIr.arguments_delta item delta) h = arguments_delta-Step item delta h
    handle-Step (EventIr.item_finished item) h = item_finished-Step item h
    handle-Step (EventIr.usage_updated u) h =
        unfold handle in
        let (input, output, e) = usage_updated_lem v u h in rw e (merge_usage s input output)
    handle-Step (EventIr.finished status reason) h =
        unfold handle in
        let (short, all_closed, e) = finished_lem v status reason h in
        rw e (finish s short all_closed)

  apply-not_terminal :
      (e : EventIr)
      → (apply parses_json v e).1 ≡ ok tt
      → (v.terminal ≡ none) × (apply parses_json v e ≡ start_or_handle parses_json v e)
  unfolding apply
  apply-not_terminal e h = ground arith

  begin_lem :
      (id : ResponseId)
      → (start_or_handle parses_json v (EventIr.started id)).1 ≡ ok tt
      → (v.started ≡ false)
        × (start_or_handle parses_json v (EventIr.started id)
            ≡ accept (record v { started = true }))
  begin_lem id h = ground arith

  handled :
      (e : EventIr) (r : Outcome)
      → r ≡ (if not v.started then reject v invalid_event_order else handle parses_json v e)
      → r.1 ≡ ok tt
      → (v.started ≡ true) × (r ≡ handle parses_json v e)
  handled e r q h = ground arith

  start_or_handle-Step :
      (e : EventIr)
      → (start_or_handle parses_json v e).1 ≡ ok tt
      → Step parses_json v e (start_or_handle parses_json v e).0
  start_or_handle-Step (EventIr.started id) h = let (s, e) = begin_lem id h in rw e (begin s)
  start_or_handle-Step e h = let (s, q) = handled e _ refl h in rw q (handle-Step s e (rw (← q) h))

  -- Every accepted event is a step of the relation, from a validator with no terminal event.
  pub apply-Step :
      (e : EventIr)
      → (apply parses_json v e).1 ≡ ok tt
      → (v.terminal ≡ none) × Step parses_json v e (apply parses_json v e).0
  apply-Step e h =
      let (t, q) = apply-not_terminal e h in (t, rw q (start_or_handle-Step e (rw (← q) h)))
