-- ===== src/Continuation/Native.antt =====
-- src/continuation/replay.rs: the native state that a replay is built from and read as.
use agent_response_gateway.Base.{
  ℕ, Bool, false, Option, some, List, nat_eq, text_eq, Text, bytes, Result, ok, ◌>>=◌, ◌>>◌,
  reject_if,
}
use agent_response_gateway.Base.Json.{Value}
use agent_response_gateway.Ir.Continuity.{Outcome, gemini, NativeState, builtin, provider}
use agent_response_gateway.Continuation.Contract.{Error, rejected, Origin}
use agent_response_gateway.Continuation.Replays.{
  ReplayRecord, v1, v2, v3, replay_v2, replay_v3, is_text_member, internal, from_internal, Base64,
  validate_record,
}

pub record NormalizedReplay : Type 0 where
  pub response : Text
  pub parent : Option Text
  pub input_len : ℕ
  pub input_sha256 : Text
  pub native : NativeState
  pub output : List Value

pub record ReplayMetadataOwned : Type 0 where
  pub session : Text
  pub epoch : ℕ
  pub origin : Origin
  pub response : Text
  pub parent : Option Text
  pub input_len : ℕ
  pub input_sha256 : Text
  pub outcome : Outcome

module _ (b : Base64) where
  -- `ReplayRecord::into_normalized`
  unfoldable pub normalized : ReplayRecord → Result Error NormalizedReplay
  normalized (v1 v) = ok (record {
    response = v.response;
    parent = v.parent;
    input_len = v.input_len;
    input_sha256 = v.input_sha256;
    native = builtin (gemini 1 v.steps);
    output = v.output;
  })
  normalized (v2 v) = ok (record {
    response = v.response;
    parent = v.parent;
    input_len = v.input_len;
    input_sha256 = v.input_sha256;
    native = builtin v.native;
    output = v.output;
  })
  normalized (v3 v) = do
    state ← internal b v.native
    ok (record {
      response = v.response;
      parent = v.parent;
      input_len = v.input_len;
      input_sha256 = v.input_sha256;
      native = provider state;
      output = v.output;
    })

  unfoldable pub into_normalized : ReplayRecord → Result Error NormalizedReplay
  unfolding validate_record normalized
  into_normalized replay = do validate_record b replay; normalized replay

  abbrev pub is_plugin_builtin : NativeState → Origin → Bool
  is_plugin_builtin (builtin _) origin =
      is_text_member (bytes "api") (bytes "plugin") (some origin.route)
  is_plugin_builtin (provider _) origin = false

  unfoldable pub record_of : ReplayMetadataOwned → NativeState → List Value → ReplayRecord
  record_of m (builtin native) output = v2 (record {
    schema = replay_v2;
    session = m.session;
    epoch = m.epoch;
    origin = m.origin;
    response = m.response;
    parent = m.parent;
    input_len = m.input_len;
    input_sha256 = m.input_sha256;
    outcome = m.outcome;
    native = native;
    output = output;
  })
  record_of m (provider native) output = v3 (record {
    schema = replay_v3;
    session = m.session;
    epoch = m.epoch;
    origin = m.origin;
    response = m.response;
    parent = m.parent;
    input_len = m.input_len;
    input_sha256 = m.input_sha256;
    outcome = m.outcome;
    native = from_internal b native;
    output = output;
  })

  -- `ReplayRecord::from_native`
  unfoldable pub from_native :
      ReplayMetadataOwned → NativeState → List Value → Result Error ReplayRecord
  unfolding record_of validate_record
  from_native m native output = do
    reject_if (is_plugin_builtin native m.origin) (rejected "provider replay required")
    validate_record b (record_of m native output)
    ok (record_of m native output)
