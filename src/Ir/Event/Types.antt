-- ===== src/Ir/Event/Types.antt =====
-- src/ir/event.rs: the events, the validator's state and its limits.
use agent_response_gateway.Base.{
  ℕ, Bool, true, false, not, ◌||◌, Option, none, some, List, [], if◌then◌else◌, Text, Result, ok,
  err, ◌==◌, nat_eq,
}
use agent_response_gateway.Base.Tables.{Table, get}
use agent_response_gateway.Ir.{
  IrError, invalid_event_order, unknown_item, size_limit, ItemId, CallId, ResponseId, ToolIdentity,
  ToolKind, function, item_id_eq, call_id_eq,
}

pub data OutputKind : Type 0 where
  message reasoning : OutputKind
  tool : ToolIdentity → CallId → ToolKind → OutputKind

pub data PartKind : Type 0 where
  text reasoning_text : PartKind

pub data Terminal : Type 0 where
  completed incomplete failed cancelled transport_lost : Terminal

pub record Usage : Type 0 where
  pub input_tokens : Option ℕ
  pub output_tokens : Option ℕ

pub data EventIr : Type 0 where
  started : ResponseId → EventIr
  item_started : ItemId → ℕ → OutputKind → EventIr
  part_started : ItemId → ℕ → PartKind → EventIr
  text_delta : ItemId → ℕ → Text → EventIr
  part_finished : ItemId → ℕ → EventIr
  arguments_delta : ItemId → Text → EventIr
  item_finished : ItemId → EventIr
  usage_updated : Usage → EventIr
  finished : Terminal → Option Text → EventIr

pub record PartState : Type 0 where
  pub is_open : Bool

pub record ItemState : Type 0 where
  pub kind : OutputKind
  pub is_open : Bool
  pub parts : Table ℕ PartState
  pub arguments : Text

pub record EventLimits : Type 0 where
  pub max_items : ℕ
  pub max_parts : ℕ
  pub max_delta_bytes : ℕ
  pub max_argument_bytes : ℕ

abbrev pub default_limits : EventLimits
default_limits = record {
  max_items = 4096;
  max_parts = 16384;
  max_delta_bytes = 1048576;
  max_argument_bytes = 8388608;
}

pub record EventValidator : Type 0 where
  pub started : Bool
  pub terminal : Option Terminal
  pub terminal_reason : Option Text
  pub items : Table ItemId ItemState
  pub indices : List ℕ
  pub calls : List CallId
  pub parts : ℕ
  pub argument_bytes : ℕ
  pub usage : Option Usage
  pub limits : EventLimits

unfoldable pub new : EventLimits → Result IrError EventValidator
new limits =
    if limits.max_items == 0
      || limits.max_parts == 0
      || limits.max_delta_bytes == 0
      || limits.max_argument_bytes == 0
    then err size_limit
    else ok (record {
      started = false;
      terminal = none;
      terminal_reason = none;
      items = [];
      indices = [];
      calls = [];
      parts = 0;
      argument_bytes = 0;
      usage = none;
      limits = limits;
    })

abbrev pub is_tool : OutputKind → Bool
is_tool (tool _ _ _) = true
is_tool _ = false

abbrev pub is_function : OutputKind → Bool
is_function (tool _ _ function) = true
is_function _ = false

-- `EventValidator::arguments`
unfoldable pub arguments : EventValidator → ItemId → Result IrError Text
arguments v item = elim (get item v.items) [
  | none ↦ err unknown_item
  | some state ↦
      if state.is_open || not (is_tool state.kind)
      then err invalid_event_order
      else ok state.arguments
]

abbrev pub Outcome : Type 0
Outcome = EventValidator × Result IrError (Unit {0})

abbrev pub reject : EventValidator → IrError → Outcome
reject v e = (v, err e)

abbrev pub accept : EventValidator → Outcome
accept v = (v, ok tt)
