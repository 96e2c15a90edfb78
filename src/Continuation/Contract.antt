-- ===== src/Continuation/Contract.antt =====
-- src/continuation/mod.rs: identifiers, hexadecimal texts, sessions and replays.
use Prim.Native.String.{String}
use agent_response_gateway.Base.Json.{Value, is_object}
use agent_response_gateway.Base.{
  ℕ, ◌+◌, ◌-◌, ◌*◌, ◌%◌, Bool, not, ◌||◌, Option, none, some, List, [], ◌∷◌, ltb, ◌==◌, ◌!=◌,
  nat_eq, text_eq, Eq, Text, bytes, is_alphanumeric, is_hex, is_digit, length, all, is_empty,
  Result, ok, err, ◌>>◌, reject_if, if◌then◌else◌,
}

-- `Error(&'static str)`
pub data Error : Type 0 where
  rejected : String → Error

abbrev pub schema_name : Text
schema_name = bytes "gateway-continuation/v1"

-- b"_-".contains(&b)
abbrev pub label_byte : ℕ → Bool
label_byte b = is_alphanumeric b || (b == b'_' || b == b'-')

unfoldable pub label : Text → Result Error (Unit {0})
label value =
    if is_empty value || (ltb 128 (length value) || not (all label_byte value))
    then err (rejected "invalid identifier")
    else ok tt

pub record Origin : Type 0 where
  pub route : Value
  pub realm : Text
  pub generation : Text

-- `Origin::validate`
unfoldable pub validate_origin : Origin → Result Error (Unit {0})
unfolding label
validate_origin origin = do
  label origin.realm
  label origin.generation
  reject_if (not (is_object origin.route)) (rejected "invalid origin")

-- The texts that the store writes into `Session::status`.
pub data Status : Type 0 where
  ready pending compacting compacting_pending awaiting_compaction unknown : Status

unfoldable pub Status-discrete : Discrete Status
Status-discrete = hlevel

instance abbrev pub status_eq : Eq Status
status_eq = record { dec = Status-discrete }

pub record Session : Type 0 where
  pub id : Text
  pub epoch : ℕ
  pub revision : ℕ
  pub origin : Origin
  pub status : Status
  pub head : Option Text
  pub pending_tools : Bool
  pub portable_sha256 : Option Text

pub record Replay : Type 0 where
  pub schema : Text
  pub session : Text
  pub epoch : ℕ
  pub origin : Origin
  pub response : Text
  pub parent : Option Text
  pub input_len : ℕ
  pub input_sha256 : Text
  pub provider_status : Text
  pub steps : List Value
  pub output : List Value

abbrev pub label_parent : Option Text → Result Error (Unit {0})
label_parent none = ok tt
label_parent (some parent) = label parent

-- `Replay::validate`
unfoldable pub validate_replay : Replay → Result Error (Unit {0})
unfolding label validate_origin
validate_replay replay = do
  reject_if
      (replay.schema != schema_name
        || (replay.epoch == 0
            || (is_empty replay.steps
                || (length replay.input_sha256 != 64
                    || not (
                        replay.provider_status == bytes "completed"
                        || replay.provider_status == bytes "requires_action")))))
      (rejected "invalid replay")
  label replay.session
  label replay.response
  validate_origin replay.origin
  label_parent replay.parent

pub record StoredReplay : Type 0 where
  pub id : Text
  pub session : Text
  pub epoch : ℕ
  pub digest : Text
  pub envelope : Option Text

-- `u8::from_str_radix` on one digit
abbrev pub digit_value : ℕ → ℕ
digit_value b = if is_digit b then b - b'0' else b - b'a' + 10

abbrev pub pairs : Text → List ℕ
pairs (a ∷ b ∷ text) = (digit_value a * 16 + digit_value b) ∷ pairs text
pairs _ = []

unfoldable pub unhex : Text → Result Error (List ℕ)
unhex text =
    if not (length text % 2 == 0) || not (all is_hex text)
    then err (rejected "hex encoding")
    else ok (pairs text)
