-- ===== src/Ir/Event/Rejects.antt =====
-- What a rejected event does to the validator of src/ir/event.rs.
use agent_response_gateway.Base.{◌≡◌, err, arith, Text, Bool, some}
use agent_response_gateway.Ir.{IrError, invalid_event_order}
use agent_response_gateway.Ir.Event.Types.{EventValidator, EventIr, OutputKind, Terminal}
use agent_response_gateway.Ir.Event.Handlers.{
  register_call, on_item_started, on_part_started, on_text_delta, on_part_finished,
  on_arguments_delta, on_item_finished, on_usage_updated, on_finished, handle, apply,
}

register_call-rejects :
    (v : EventValidator) (k : OutputKind) {e : IrError}
    → (register_call v k).1 ≡ err e
    → (register_call v k).0 ≡ v
unfolding register_call
register_call-rejects v k h = ground arith

module _ (parses_json : Text → Bool) (v : EventValidator) where
  handle-rejects :
      (event : EventIr) (e : IrError)
      → (handle parses_json v event).1 ≡ err e
      → (handle parses_json v event).0 ≡ v
  unfolding handle on_item_started on_part_started on_text_delta on_part_finished on_arguments_delta
      on_item_finished on_usage_updated on_finished
  handle-rejects (EventIr.item_started id index kind) e h =
      ground (arith, register_call-rejects v kind)
  handle-rejects _ e h = ground arith

  -- An event that is rejected leaves every field of the validator as it was.
  pub apply-rejects :
      (event : EventIr) (e : IrError)
      → (apply parses_json v event).1 ≡ err e
      → (apply parses_json v event).0 ≡ v
  unfolding apply
  apply-rejects (EventIr.started id) e h = ground arith
  apply-rejects event e h = ground (arith, handle-rejects event e)

  -- After the terminal event, every event is rejected as out of order, and nothing changes.
  pub apply_after_terminal :
      (event : EventIr) {t : Terminal}
      → v.terminal ≡ some t
      → apply parses_json v event ≡ (v, err invalid_event_order)
  unfolding apply
  apply_after_terminal event h = ground arith
