-- ===== src/Ir/Event/Handlers.antt =====
-- src/ir/event.rs: `EventValidator::apply`. It returns the state beside its result, an error
-- included, so what was written before an early return would show.
use agent_response_gateway.Base.{
  ℕ, ◌+◌, ◌-◌, Bool, true, false, not, ◌&&◌, ◌||◌, Option, none, some, List, [], ◌∷◌, ◌++◌, ltb,
  leb, if◌then◌else◌, Text, length, is_some, is_some_and, ok, err, nat_eq,
}
use agent_response_gateway.Base.Tables.{get, contains_key, insert, contains, add, any_value}
use agent_response_gateway.Ir.{
  invalid_json_arguments, invalid_event_order, duplicate_id, unknown_item, size_limit, ItemId,
  validate_tool, item_id_eq, call_id_eq,
}
use agent_response_gateway.Ir.Event.Types.{
  OutputKind, message, reasoning, tool, PartKind, text, reasoning_text, Terminal, completed, Usage,
  EventIr, ItemState, EventValidator, started, item_started, part_started, text_delta,
  part_finished, arguments_delta, item_finished, usage_updated, finished, is_tool, is_function,
  Outcome, reject, accept,
}

-- The tool of a new item: its identity is checked and its call is recorded.
unfoldable pub register_call : EventValidator → OutputKind → Outcome
register_call v (tool identity call_id kind) = elim (validate_tool identity) [
  | err e ↦ reject v e
  | ok _ ↦
      if contains call_id v.calls
      then reject v duplicate_id
      else accept (record v { calls = add call_id v.calls })
]
register_call v _ = accept v

abbrev pub fresh_item : OutputKind → ItemState
fresh_item kind = record { kind = kind; is_open = true; parts = []; arguments = [] }

abbrev pub add_item : ItemId → ℕ → OutputKind → Outcome → Outcome
add_item id index kind (v, err e) = (v, err e)
add_item id index kind (v, ok _) =
    accept (record v { indices = add index v.indices; items = insert id (fresh_item kind) v.items })

unfoldable pub on_item_started : EventValidator → ItemId → ℕ → OutputKind → Outcome
unfolding register_call
on_item_started v id index kind =
    if leb v.limits.max_items (length v.items)
    then reject v size_limit
    else if contains_key id v.items || contains index v.indices
    then reject v duplicate_id
    else add_item id index kind (register_call v kind)

abbrev pub accepts_part : OutputKind → PartKind → Bool
accepts_part message text = true
accepts_part reasoning reasoning_text = true
accepts_part _ _ = false

unfoldable pub on_part_started : EventValidator → ItemId → ℕ → PartKind → Outcome
on_part_started v item index kind =
    if leb v.limits.max_parts v.parts then reject v size_limit else elim (get item v.items) [
      | none ↦ reject v unknown_item
      | some state ↦
          if not state.is_open || not (accepts_part state.kind kind)
          then reject v invalid_event_order
          else if contains_key index state.parts
          then reject v duplicate_id
          else accept (record v {
            items =
                insert item
                  (record state { parts = insert index (record { is_open = true }) state.parts })
                  v.items;
            parts = v.parts + 1;
          })
    ]

unfoldable pub on_text_delta : EventValidator → ItemId → ℕ → Text → Outcome
on_text_delta v item index delta =
    if ltb v.limits.max_delta_bytes (length delta)
    then reject v size_limit
    else elim (get item v.items) [
      | none ↦ reject v unknown_item
      | some state ↦
          if not state.is_open || not (is_some_and (get index state.parts) (λ p. p.is_open))
          then reject v invalid_event_order
          else accept v
    ]

unfoldable pub on_part_finished : EventValidator → ItemId → ℕ → Outcome
on_part_finished v item index = elim (get item v.items) [
  | none ↦ reject v unknown_item
  | some state ↦ elim (get index state.parts) [
    | none ↦ reject v invalid_event_order
    | some part ↦
        if not state.is_open || not part.is_open
        then reject v invalid_event_order
        else accept (record v {
          items =
              insert item
                (record state { parts = insert index (record { is_open = false }) state.parts })
                v.items;
        })
  ]
]

unfoldable pub on_arguments_delta : EventValidator → ItemId → Text → Outcome
on_arguments_delta v item delta =
    if ltb v.limits.max_delta_bytes (length delta)
      || ltb (v.limits.max_argument_bytes - v.argument_bytes) (length delta)
    then reject v size_limit
    else elim (get item v.items) [
      | none ↦ reject v unknown_item
      | some state ↦
          if not state.is_open || not (is_tool state.kind)
          then reject v invalid_event_order
          else accept (record v {
            items = insert item (record state { arguments = state.arguments ++ delta }) v.items;
            argument_bytes = v.argument_bytes + length delta;
          })
    ]

-- `serde_json::from_str::<Value>` succeeds on a text: the JSON parser is a parameter.
unfoldable pub on_item_finished : (Text → Bool) → EventValidator → ItemId → Outcome
on_item_finished parses_json v item = elim (get item v.items) [
  | none ↦ reject v unknown_item
  | some state ↦
      if not state.is_open || any_value (λ p. p.is_open) state.parts
      then reject v invalid_event_order
      else if is_function state.kind && not (parses_json state.arguments)
      then reject v invalid_json_arguments
      else accept (record v { items = insert item (record state { is_open = false }) v.items })
]

-- A reported count is below the one known before.
abbrev pub decreased : Option ℕ → Option ℕ → Bool
decreased (some old) (some new) = ltb new old
decreased _ _ = false

-- `Option::or`
abbrev pub or_known : Option ℕ → Option ℕ → Option ℕ
or_known (some n) _ = some n
or_known none known = known

abbrev pub input_of : Option Usage → Option ℕ
input_of none = none
input_of (some u) = u.input_tokens

abbrev pub output_of : Option Usage → Option ℕ
output_of none = none
output_of (some u) = u.output_tokens

unfoldable pub on_usage_updated : EventValidator → Usage → Outcome
on_usage_updated v u =
    if decreased (input_of v.usage) u.input_tokens || decreased (output_of v.usage) u.output_tokens
    then reject v invalid_event_order
    else accept (record v {
      usage = some (record {
        input_tokens = or_known u.input_tokens (input_of v.usage);
        output_tokens = or_known u.output_tokens (output_of v.usage);
      });
    })

abbrev pub is_completed : Terminal → Bool
is_completed completed = true
is_completed _ = false

unfoldable pub on_finished : EventValidator → Terminal → Option Text → Outcome
on_finished v status reason =
    if is_some_and reason (λ r. ltb 1024 (length r))
    then reject v size_limit
    else if is_completed status && any_value (λ i. i.is_open) v.items
    then reject v invalid_event_order
    else accept (record v { terminal = some status; terminal_reason = reason })

module _ (parses_json : Text → Bool) where
  -- The `match` of `apply`, for a validator that has started.
  unfoldable pub handle : EventValidator → EventIr → Outcome
  handle v (started _) = reject v invalid_event_order
  handle v (item_started id index kind) = on_item_started v id index kind
  handle v (part_started item index kind) = on_part_started v item index kind
  handle v (text_delta item index delta) = on_text_delta v item index delta
  handle v (part_finished item index) = on_part_finished v item index
  handle v (arguments_delta item delta) = on_arguments_delta v item delta
  handle v (item_finished item) = on_item_finished parses_json v item
  handle v (usage_updated u) = on_usage_updated v u
  handle v (finished status reason) = on_finished v status reason

  abbrev pub start_or_handle : EventValidator → EventIr → Outcome
  start_or_handle v (started id) =
      if v.started then reject v invalid_event_order else accept (record v { started = true })
  start_or_handle v event = if not v.started then reject v invalid_event_order else handle v event

  unfoldable pub apply : EventValidator → EventIr → Outcome
  apply v event =
      if is_some v.terminal then reject v invalid_event_order else start_or_handle v event

-- Any sequence of events, whatever the caller does about the rejected ones.
unfoldable pub feed : (Text → Bool) → EventValidator → List EventIr → EventValidator
feed parses_json v [] = v
feed parses_json v (e ∷ es) = feed parses_json (apply parses_json v e).0 es
