-- ===== src/Continuation/Replays.antt =====
-- src/continuation/replay.rs: the versions of a replay, and what is common to them.
use agent_response_gateway.Base.{
  ℕ, ◌*◌, ◌/◌, ◌+◌, Bool, false, not, ◌||◌, ◌&&◌, Option, none, some, List, ltb, ◌==◌, ◌!=◌, nat_eq,
  text_eq, Text-discrete, Eq, Text, bytes, is_hex, length, all, Result, ok, ◌>>=◌, ◌>>◌, reject_if,
  ok_or, map_err, if◌then◌else◌,
}
use agent_response_gateway.Base.Json.{Value, string, member, Value-discrete}
use agent_response_gateway.Ir.{IrError}
use agent_response_gateway.Ir.Continuity.{
  Outcome, completed, awaiting_tools, NativeReplay, validate_native, ProviderStateBinding,
  ProviderNativeState, new_state, max_bytes,
}
use agent_response_gateway.Continuation.Contract.{
  Error, rejected, Origin, validate_origin, Replay, validate_replay, label, label_parent,
  schema_name,
}

abbrev pub replay_v2 : Text
replay_v2 = bytes "gateway-continuation/v2"

abbrev pub replay_v3 : Text
replay_v3 = bytes "gateway-continuation/v3"

unfoldable pub Origin-discrete : Discrete Origin
Origin-discrete = hlevel (Value-discrete, Text-discrete)

instance abbrev pub origin_eq : Eq Origin
origin_eq = record { dec = Origin-discrete }

unfoldable pub OptionText-discrete : Discrete (Option Text)
OptionText-discrete = hlevel Text-discrete

instance abbrev pub option_text_eq : Eq (Option Text)
option_text_eq = record { dec = OptionText-discrete }

pub record ReplayV2 : Type 0 where
  pub schema : Text
  pub session : Text
  pub epoch : ℕ
  pub origin : Origin
  pub response : Text
  pub parent : Option Text
  pub input_len : ℕ
  pub input_sha256 : Text
  pub outcome : Outcome
  pub native : NativeReplay
  pub output : List Value

-- `u8::is_ascii_hexdigit`
abbrev pub is_any_hex : ℕ → Bool
is_any_hex b = is_hex b || (ltb 64 b && ltb b 71)

abbrev pub replace_error : {A : Type 0} → Error → Result IrError A → Result Error A
replace_error e r = map_err (λ _. e) r

-- `ReplayV2::validate`
unfoldable pub validate_v2 : ReplayV2 → Result Error (Unit {0})
unfolding label validate_origin validate_native
validate_v2 replay = do
  reject_if
      (replay.schema != replay_v2
        || (replay.epoch == 0
            || (length replay.input_sha256 != 64 || not (all is_any_hex replay.input_sha256))))
      (rejected "invalid replay")
  label replay.session
  label replay.response
  label_parent replay.parent
  validate_origin replay.origin
  replace_error (rejected "native replay format") (validate_native replay.native)

-- `ProviderBindingWire`, which has the fields of `ProviderStateBinding`
abbrev pub is_text_member : Text → Text → Option Value → Bool
is_text_member key expected none = false
is_text_member key expected (some value) = elim (member key value) [
  | some (string found) ↦ found == expected
  | _ ↦ false
]

-- `ProviderBindingWire::matches_origin`
unfoldable pub matches_origin : ProviderStateBinding → Origin → Bool
matches_origin binding origin =
    let projection = member (bytes "provider_plugin") origin.route in
    is_text_member (bytes "api") (bytes "plugin") (some origin.route)
    && (is_text_member (bytes "protocol") binding.protocol projection
        && (is_text_member (bytes "provider_protocol") binding.provider_protocol projection
            && (is_text_member (bytes "id") binding.id projection
                && (is_text_member (bytes "version") binding.version projection
                    && (is_text_member (bytes "package_sha256") binding.package_sha256 projection
                        && is_text_member (bytes "executable_sha256") binding.executable_sha256
                            projection)))))

pub record ProviderReplayWire : Type 0 where
  pub binding : ProviderStateBinding
  pub format : Text
  pub version : ℕ
  pub data_base64 : Text

-- The base64 crate's standard engine.
pub record Base64 : Type 0 where
  pub encode : List ℕ → Text
  pub decode : Text → Option (List ℕ)

pub record ReplayV3 : Type 0 where
  pub schema : Text
  pub session : Text
  pub epoch : ℕ
  pub origin : Origin
  pub response : Text
  pub parent : Option Text
  pub input_len : ℕ
  pub input_sha256 : Text
  pub outcome : Outcome
  pub native : ProviderReplayWire
  pub output : List Value

pub data ReplayRecord : Type 0 where
  v1 : Replay → ReplayRecord
  v2 : ReplayV2 → ReplayRecord
  v3 : ReplayV3 → ReplayRecord

-- `ReplayRecord::schema`
abbrev pub schema_of : ReplayRecord → Text
schema_of (v1 _) = schema_name
schema_of (v2 _) = replay_v2
schema_of (v3 _) = replay_v3

pub record ReplayMetadata : Type 0 where
  pub session : Text
  pub epoch : ℕ
  pub origin : Origin
  pub response : Text
  pub outcome : Outcome

-- `ReplayRecord::metadata`
unfoldable pub metadata : ReplayRecord → ReplayMetadata
metadata (v1 v) = record {
  session = v.session;
  epoch = v.epoch;
  origin = v.origin;
  response = v.response;
  outcome = if v.provider_status == bytes "requires_action" then awaiting_tools else completed;
}
metadata (v2 v) = record {
  session = v.session;
  epoch = v.epoch;
  origin = v.origin;
  response = v.response;
  outcome = v.outcome;
}
metadata (v3 v) = record {
  session = v.session;
  epoch = v.epoch;
  origin = v.origin;
  response = v.response;
  outcome = v.outcome;
}

abbrev pub encoding : Error
encoding = rejected "provider state encoding"

module _ (b : Base64) where
  -- `decode_provider_state`; its length limit is `MAX_BYTES.div_ceil(3) * 4`
  unfoldable pub decode_provider_state :
      ProviderStateBinding → Text → ℕ → Text → Result Error ProviderNativeState
  unfolding new_state
  decode_provider_state binding format version data_text = do
    reject_if (ltb ((max_bytes + 2) / 3 * 4) (length data_text)) (rejected "provider state limit")
    decoded ← ok_or (b.decode data_text) encoding
    reject_if (b.encode decoded != data_text) encoding
    replace_error (rejected "provider state format") (new_state binding format version decoded)

  -- `ProviderReplayWire::internal` and `from_internal`
  abbrev pub internal : ProviderReplayWire → Result Error ProviderNativeState
  internal wire = decode_provider_state wire.binding wire.format wire.version wire.data_base64

  abbrev pub from_internal : ProviderNativeState → ProviderReplayWire
  from_internal state = record {
    binding = state.binding;
    format = state.format;
    version = state.version;
    data_base64 = b.encode state.bytes_of;
  }

  -- `ReplayV3::validate`
  unfoldable pub validate_v3 : ReplayV3 → Result Error (Unit {0})
  unfolding label validate_origin matches_origin decode_provider_state
  validate_v3 replay = do
    reject_if
        (replay.schema != replay_v3
          || (replay.epoch == 0
              || (ltb 4294967295 replay.input_len
                  || (length replay.input_sha256 != 64
                      || (not (all is_hex replay.input_sha256)
                          || not (matches_origin replay.native.binding replay.origin))))))
        (rejected "invalid provider replay")
    label replay.session
    label replay.response
    label_parent replay.parent
    validate_origin replay.origin
    _ ← internal replay.native
    ok tt

  -- `ReplayRecord::validate`
  unfoldable pub validate_record : ReplayRecord → Result Error (Unit {0})
  unfolding validate_replay validate_v2 validate_v3
  validate_record (v1 v) = validate_replay v
  validate_record (v2 v) = validate_v2 v
  validate_record (v3 v) = validate_v3 v
