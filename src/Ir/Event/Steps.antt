-- ===== src/Ir/Event/Steps.antt =====
-- The accepted events of src/ir/event.rs as a step relation: what each one needs and changes.
use agent_response_gateway.Base.{
  ℕ, ◌+◌, ◌-◌, ◌≤◌, ◌<◌, ◌≡◌, refl, Text, Bool, true, false, not, Option, none, some, List, ◌++◌,
  length, nat_eq, is_some_and, ok,
}
use agent_response_gateway.Base.Tables.{get, insert, add, contains, any_value}
use agent_response_gateway.Ir.{item_id_eq, call_id_eq, ItemId, CallId, validate_tool}
use agent_response_gateway.Ir.Event.Types.{
  EventValidator, EventIr, ItemState, PartState, OutputKind, tool, PartKind, Terminal, completed,
  Usage, is_tool, is_function,
}
use agent_response_gateway.Ir.Event.Handlers.{fresh_item, decreased, or_known, input_of, output_of}

-- The calls after a new item.
abbrev pub registered : EventValidator → OutputKind → List CallId
registered v (tool _ call_id _) = add call_id v.calls
registered v _ = v.calls

abbrev pub call_is_new : EventValidator → OutputKind → Bool
call_is_new v (tool _ call_id _) = not (contains call_id v.calls)
call_is_new v _ = true

abbrev pub item_added : EventValidator → ItemId → ℕ → OutputKind → EventValidator
item_added v item index kind = record v {
  calls = registered v kind;
  indices = add index v.indices;
  items = insert item (fresh_item kind) v.items;
}

abbrev pub part_opened : EventValidator → ItemId → ItemState → ℕ → EventValidator
part_opened v item w index = record v {
  items =
      insert item (record w { parts = insert index (record { is_open = true }) w.parts }) v.items;
  parts = v.parts + 1;
}

abbrev pub part_closed : EventValidator → ItemId → ItemState → ℕ → EventValidator
part_closed v item w index = record v {
  items =
      insert item (record w { parts = insert index (record { is_open = false }) w.parts }) v.items;
}

abbrev pub arguments_added : EventValidator → ItemId → ItemState → Text → EventValidator
arguments_added v item w delta = record v {
  items = insert item (record w { arguments = w.arguments ++ delta }) v.items;
  argument_bytes = v.argument_bytes + length delta;
}

abbrev pub item_closed : EventValidator → ItemId → ItemState → EventValidator
item_closed v item w = record v { items = insert item (record w { is_open = false }) v.items }

abbrev pub usage_merged : EventValidator → Usage → EventValidator
usage_merged v u = record v {
  usage = some (record {
    input_tokens = or_known u.input_tokens (input_of v.usage);
    output_tokens = or_known u.output_tokens (output_of v.usage);
  });
}

-- Messages have parts of text, and reasoning has parts of its own text.
pub data Carries : OutputKind → PartKind → Type 0 where
  message_text : Carries OutputKind.message PartKind.text
  reasoning_text : Carries OutputKind.reasoning PartKind.reasoning_text

abbrev pub HasIdentity : OutputKind → Type 0
HasIdentity (tool identity _ _) = validate_tool identity ≡ ok tt
HasIdentity _ = Unit

abbrev pub ReasonIsShort : Option Text → Type 0
ReasonIsShort none = Unit
ReasonIsShort (some reason) = length reason ≤ 1024

pub Carries-not_tool :
    {kind : OutputKind} {part : PartKind} → Carries kind part → is_tool kind ≡ false
Carries-not_tool message_text = refl
Carries-not_tool reasoning_text = refl

module _ (parses_json : Text → Bool) where
  pub data Step (v : EventValidator) : EventIr → EventValidator → Type 0 where
    begin : {id : _} → v.started ≡ false → Step v (EventIr.started id) (record v { started = true })
    add_item :
        {id : ItemId} {index : ℕ} {kind : OutputKind}
        → v.started ≡ true
        → length v.items < v.limits.max_items
        → get id v.items ≡ none
        → contains index v.indices ≡ false
        → HasIdentity kind
        → call_is_new v kind ≡ true
        → Step v (EventIr.item_started id index kind) (item_added v id index kind)
    open_part :
        {item : ItemId} {index : ℕ} {kind : PartKind} (w : ItemState)
        → v.started ≡ true
        → v.parts < v.limits.max_parts
        → get item v.items ≡ some w
        → w.is_open ≡ true
        → Carries w.kind kind
        → get index w.parts ≡ none
        → Step v (EventIr.part_started item index kind) (part_opened v item w index)
    forward_text :
        {item : ItemId} {index : ℕ} {delta : Text} (w : ItemState)
        → v.started ≡ true
        → get item v.items ≡ some w
        → w.is_open ≡ true
        → is_some_and (get index w.parts) (λ p. p.is_open) ≡ true
        → length delta ≤ v.limits.max_delta_bytes
        → Step v (EventIr.text_delta item index delta) v
    close_part :
        {item : ItemId} {index : ℕ} (w : ItemState) (p : PartState)
        → v.started ≡ true
        → get item v.items ≡ some w
        → w.is_open ≡ true
        → get index w.parts ≡ some p
        → p.is_open ≡ true
        → Step v (EventIr.part_finished item index) (part_closed v item w index)
    add_arguments :
        {item : ItemId} {delta : Text} (w : ItemState)
        → v.started ≡ true
        → length delta ≤ v.limits.max_delta_bytes
        → length delta ≤ v.limits.max_argument_bytes - v.argument_bytes
        → get item v.items ≡ some w
        → w.is_open ≡ true
        → is_tool w.kind ≡ true
        → Step v (EventIr.arguments_delta item delta) (arguments_added v item w delta)
    close_item :
        {item : ItemId} (w : ItemState)
        → v.started ≡ true
        → get item v.items ≡ some w
        → w.is_open ≡ true
        → any_value (λ p. p.is_open) w.parts ≡ false
        → (is_function w.kind ≡ true → parses_json w.arguments ≡ true)
        → Step v (EventIr.item_finished item) (item_closed v item w)
    merge_usage :
        {u : Usage}
        → v.started ≡ true
        → decreased (input_of v.usage) u.input_tokens ≡ false
        → decreased (output_of v.usage) u.output_tokens ≡ false
        → Step v (EventIr.usage_updated u) (usage_merged v u)
    finish :
        {status : Terminal} {reason : Option Text}
        → v.started ≡ true
        → ReasonIsShort reason
        → (status ≡ completed → any_value (λ i. i.is_open) v.items ≡ false)
        → Step v
            (EventIr.finished status reason)
            (record v { terminal = some status; terminal_reason = reason })
