-- ===== src/Base/Json.antt =====
-- JSON texts as serde_json's `Value`, and its `is_object`, `get` and `as_u64`.
use agent_response_gateway.Base.Tests.{Text, text_eq, Text-discrete, Eq, ◌==◌, ltb, if◌then◌else◌}
use native.Mathlib.Decide.{ℕ_discrete}
use Prim.Native.Nat.{ℕ, ◌^◌}
use mathlib.Core.Bool.{Bool, true, false}
use mathlib.Core.Option.{Option, none, some}

-- `serde_json::Value`
mutual
  pub data Value : Type 0 where
    null : Value
    boolean : Bool → Value
    number : ℕ → Value
    other_number : Text → Value
    string : Text → Value
    array : Elements → Value
    object : Fields → Value

  pub data Elements : Type 0 where
    no_elements : Elements
    element : Value → Elements → Elements

  pub data Fields : Type 0 where
    no_fields : Fields
    field : Text → Value → Fields → Fields

abbrev pub is_object : Value → Bool
is_object (object _) = true
is_object _ = false

unfoldable pub field_of : Text → Fields → Option Value
field_of key no_fields = none
field_of key (field name value fields) = if name == key then some value else field_of key fields

abbrev pub member : Text → Value → Option Value
member key (object fields) = field_of key fields
member key _ = none

abbrev pub as_u64 : Value → Option ℕ
as_u64 (number n) = if ltb n (2 ^ 64) then some n else none
as_u64 _ = none

unfoldable pub Value-discrete : Discrete Value
Value-discrete = hlevel (Text-discrete, ℕ_discrete)

instance abbrev pub value_eq : Eq Value
value_eq = record { dec = Value-discrete }
