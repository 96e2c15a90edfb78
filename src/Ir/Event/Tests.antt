-- ===== src/Ir/Event/Tests.antt =====
-- A stream of one function call, and the theorems at it.
use agent_response_gateway.Base.{
  ◌↔◌, ◌≡◌, refl, Bool, true, false, none, some, List, [], ◌∷◌, ◌++◌, ok, Text, ◌==◌, text_eq,
  Text-discrete, ℕ_discrete,
}
use agent_response_gateway.Base.Tables.{get, insert, contains, contains_key, add}
use agent_response_gateway.Ir.{
  invalid_event_order, ItemId, function, ItemId-discrete, CallId-discrete, validate_tool,
  item_id_eq,
}
use agent_response_gateway.Ir.Event.Types.{
  accept, EventValidator, EventIr, OutputKind, ItemState, started, completed, item_started,
  arguments_delta, item_finished, finished, tool, new, default_limits, arguments, is_function,
}
use agent_response_gateway.Ir.Event.Handlers.{
  apply, feed, handle, on_item_started, on_arguments_delta, on_item_finished, on_finished,
}
use agent_response_gateway.Ir.Event.Rejects.{apply-rejects}
use agent_response_gateway.Ir.Event.Bounds.{feed-IsValid, completed_calls}
use agent_response_gateway.Ir.Event.Valid.{IsValid}
use agent_response_gateway.Ir.Event.Steps.{Step}
use agent_response_gateway.Ir.Event.Exact.{apply_exactly}
use agent_response_gateway.Ir.Event.Frozen.{feed-frozen, arguments-feed}
use agent_response_gateway.Ir.Event.Traces.{
  held, held-feed, accepted_deltas, feed-usage, UsageGrows,
}

abbrev call : ItemId
call = record { value = 0x61 ∷ [] }

-- Only "{}" parses.
abbrev braces : Text → Bool
braces t = t == 0x7b ∷ 0x7d ∷ []

abbrev call_kind : OutputKind
call_kind =
    tool (record { namespace = none; name = 0x66 ∷ [] }) (record { value = 0x63 ∷ [] }) function

abbrev idle : EventValidator
idle = record {
  started = false;
  terminal = none;
  terminal_reason = none;
  items = [];
  indices = [];
  calls = [];
  parts = 0;
  argument_bytes = 0;
  usage = none;
  limits = default_limits;
}

abbrev stream : List EventIr
stream =
    started (record { value = 0x72 ∷ [] })
    ∷ item_started call 0 call_kind
    ∷ arguments_delta call (0x7b ∷ [])
    ∷ arguments_delta call (0x7d ∷ [])
    ∷ item_finished call
    ∷ finished completed none
    ∷ []

abbrev closed_call : ItemState
closed_call = record { kind = call_kind; is_open = false; parts = []; arguments = 0x7b ∷ 0x7d ∷ [] }

stream_items : (feed braces idle stream).items ≡ (call, closed_call) ∷ []
unfolding feed apply handle on_item_started on_arguments_delta on_item_finished on_finished get
    insert contains contains_key add validate_tool Text-discrete ItemId-discrete CallId-discrete
    ℕ_discrete
stream_items = refl

-- The theorems of Ir.Event at this stream.
feed-IsValid_example : IsValid braces (feed braces idle stream)
unfolding new ℕ_discrete
feed-IsValid_example = feed-IsValid braces default_limits idle stream refl

stream_terminal : (feed braces idle stream).terminal ≡ some completed
unfolding feed apply handle on_item_started on_arguments_delta on_item_finished on_finished get
    insert contains contains_key add validate_tool Text-discrete ItemId-discrete CallId-discrete
    ℕ_discrete
stream_terminal = refl

stream-call : get call (feed braces idle stream).items ≡ some closed_call
unfolding get ItemId-discrete Text-discrete ℕ_discrete
stream-call = rw stream_items refl

completed_calls_example :
    (closed_call.is_open ≡ false)
    × (is_function closed_call.kind ≡ true → braces closed_call.arguments ≡ true)
unfolding new ℕ_discrete
completed_calls_example =
    completed_calls braces default_limits idle stream call closed_call refl stream_terminal
      stream-call

apply-rejects_example : (apply braces idle (item_finished call)).0 ≡ idle
unfolding apply
apply-rejects_example = apply-rejects braces idle (item_finished call) invalid_event_order refl

abbrev done : EventValidator
done = feed braces idle stream

stream_arguments : arguments done call ≡ ok (0x7b ∷ 0x7d ∷ [])
unfolding arguments
stream_arguments = rw (stream-call, arguments) refl

arguments-feed_example : arguments (feed braces done stream) call ≡ ok (0x7b ∷ 0x7d ∷ [])
arguments-feed_example = arguments-feed braces done stream call (0x7b ∷ 0x7d ∷ []) stream_arguments

feed-frozen_example : get call (feed braces done stream).items ≡ some closed_call
feed-frozen_example = feed-frozen braces call closed_call refl done stream stream-call

held-feed_example :
    held (feed braces idle stream) call ≡ held idle call ++ accepted_deltas braces call idle stream
held-feed_example = held-feed braces call idle stream

feed-usage_example : UsageGrows idle (feed braces idle stream)
feed-usage_example = feed-usage braces idle stream

abbrev opened : EventValidator
opened =
    feed braces idle (started (record { value = 0x72 ∷ [] }) ∷ item_started call 0 call_kind ∷ [])

opened_accepts : (apply braces opened (arguments_delta call (0x7b ∷ []))).1 ≡ ok tt
unfolding feed apply handle on_item_started on_arguments_delta on_item_finished on_finished get
    insert contains contains_key add validate_tool Text-discrete ItemId-discrete CallId-discrete
    ℕ_discrete
opened_accepts = refl

abbrev delta_added : EventValidator
delta_added = (apply braces opened (arguments_delta call (0x7b ∷ []))).0

apply_exactly_example :
    (apply braces opened (arguments_delta call (0x7b ∷ [])) ≡ accept delta_added)
    ↔ ((opened.terminal ≡ none) × Step braces opened (arguments_delta call (0x7b ∷ [])) delta_added)
apply_exactly_example = apply_exactly braces opened delta_added (arguments_delta call (0x7b ∷ []))
