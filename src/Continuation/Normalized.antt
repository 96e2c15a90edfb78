-- ===== src/Continuation/Normalized.antt =====
-- What `from_native` of src/continuation/replay.rs writes, as `into_normalized` reads it.
use agent_response_gateway.Base.{
  ℕ, ◌≡◌, refl, sym, ap, ◌∙◌, some, List, text_eq, Text, Result, ok, err, >>=-eq-ok, ok-injective,
  passed, ok_or,
}
use agent_response_gateway.Base.Json.{Value}
use agent_response_gateway.Ir.Continuity.{
  NativeState, builtin, provider, ProviderNativeState, ProviderStateBinding, validate_binding,
  new_state,
}
use agent_response_gateway.Continuation.Contract.{
  Error, rejected, label, label_parent, validate_origin,
}
use agent_response_gateway.Ir.{IrError, continuity_mismatch}
use agent_response_gateway.Continuation.Replays.{
  ReplayRecord, ReplayV3, replay_v3, encoding, ReplayMetadata, Base64, decode_provider_state,
  from_internal, internal, replace_error, validate_v3, validate_record, metadata,
}
use agent_response_gateway.Continuation.Native.{
  ReplayMetadataOwned, NormalizedReplay, normalized, into_normalized, record_of, from_native,
  is_plugin_builtin,
}

abbrev pub normalized_of : ReplayMetadataOwned → NativeState → List Value → NormalizedReplay
normalized_of m native output = record {
  response = m.response;
  parent = m.parent;
  input_len = m.input_len;
  input_sha256 = m.input_sha256;
  native = native;
  output = output;
}

abbrev pub metadata_of : ReplayMetadataOwned → ReplayMetadata
metadata_of m = record {
  session = m.session;
  epoch = m.epoch;
  origin = m.origin;
  response = m.response;
  outcome = m.outcome;
}

abbrev native_of : ProviderStateBinding → Text → ℕ → List ℕ → ProviderNativeState
native_of binding format version data_bytes = record {
  binding = binding;
  format = format;
  version = version;
  bytes_of = data_bytes;
}

new_state_lem :
    (binding : ProviderStateBinding) (format : Text) (version : ℕ) (data_bytes : List ℕ)
    (state : ProviderNativeState)
    → new_state binding format version data_bytes ≡ ok state
    → native_of binding format version data_bytes ≡ state
unfolding new_state
new_state_lem binding format version data_bytes state h =
    let (_, _, h1) = >>=-eq-ok (validate_binding binding) _ h in
    let (_, h2) = passed _ continuity_mismatch _ h1 in ok-injective h2

replace_error-ok :
    {A : Type 0} (e : Error) (r : Result IrError A) (a : A) → replace_error e r ≡ ok a → r ≡ ok a
replace_error-ok e (ok a') a h = ap ok (ok-injective h)
replace_error-ok e (err _) a h = absurd (cc)

module _ (b : Base64) where
  decode_provider_state-encode :
      (state found : ProviderNativeState)
      → ((data_bytes : List ℕ) → b.decode (b.encode data_bytes) ≡ some data_bytes)
      → decode_provider_state b state.binding state.format state.version (b.encode state.bytes_of)
        ≡ ok found
      → state ≡ found
  unfolding decode_provider_state
  decode_provider_state-encode state found inverse h =
      let (_, h1) = passed _ (rejected "provider state limit") _ h in
      let (decoded, d, h2) = >>=-eq-ok (ok_or (b.decode (b.encode state.bytes_of)) encoding) _ h1 in
      let same : state.bytes_of ≡ decoded =
        ok-injective (ap (λ o. ok_or o encoding) (sym (inverse state.bytes_of)) ∙ d) in
      let (_, h3) = passed _ encoding _ h2 in
      let made =
        new_state_lem state.binding state.format state.version decoded found
          (replace_error-ok (rejected "provider state format") _ found h3) in
      ap (native_of state.binding state.format state.version) same ∙ made

  validate_v3-internal :
      (replay : ReplayV3)
      → validate_v3 b replay ≡ ok tt
      → (state : ProviderNativeState) × (internal b replay.native ≡ ok state)
  unfolding validate_v3
  validate_v3-internal replay h =
      let (_, h1) = passed _ (rejected "invalid provider replay") _ h in
      let (_, _, h2) = >>=-eq-ok (label replay.session) _ h1 in
      let (_, _, h3) = >>=-eq-ok (label replay.response) _ h2 in
      let (_, _, h4) = >>=-eq-ok (label_parent replay.parent) _ h3 in
      let (_, _, h5) = >>=-eq-ok (validate_origin replay.origin) _ h4 in
      let (state, i, _) = >>=-eq-ok (internal b replay.native) _ h5 in (state, i)

  abbrev v3_of : ReplayMetadataOwned → ProviderNativeState → List Value → ReplayV3
  v3_of m native output = record {
    schema = replay_v3;
    session = m.session;
    epoch = m.epoch;
    origin = m.origin;
    response = m.response;
    parent = m.parent;
    input_len = m.input_len;
    input_sha256 = m.input_sha256;
    outcome = m.outcome;
    native = from_internal b native;
    output = output;
  }

  normalized-record_of :
      (m : ReplayMetadataOwned) (native : NativeState) (output : List Value)
      → ((data_bytes : List ℕ) → b.decode (b.encode data_bytes) ≡ some data_bytes)
      → validate_record b (record_of b m native output) ≡ ok tt
      → normalized b (record_of b m native output) ≡ ok (normalized_of m native output)
  unfolding normalized record_of validate_record validate_v3
  normalized-record_of m (builtin native) output inverse valid = refl
  normalized-record_of m (provider native) output inverse valid =
      let (state, i) = validate_v3-internal (v3_of m native output) valid in
      let same = decode_provider_state-encode native state inverse i in
      rw i (ap (λ s. ok (normalized_of m (provider s) output)) (sym same))

  metadata-record_of :
      (m : ReplayMetadataOwned) (native : NativeState) (output : List Value)
      → metadata (record_of b m native output) ≡ metadata_of m
  unfolding metadata record_of
  metadata-record_of m (builtin native) output = refl
  metadata-record_of m (provider native) output = refl

  -- A record that from_native builds is read by into_normalized as the native state, the output, the response, the parent and the input that it was built from, and metadata reads the session, the epoch, the origin and the outcome, if base64 decodes what it encoded.
  pub from_native-into_normalized :
      (m : ReplayMetadataOwned) (native : NativeState) (output : List Value) (replay : ReplayRecord)
      → ((data_bytes : List ℕ) → b.decode (b.encode data_bytes) ≡ some data_bytes)
      → from_native b m native output ≡ ok replay
      → (into_normalized b replay ≡ ok (normalized_of m native output))
        × (metadata replay ≡ metadata_of m)
  unfolding from_native into_normalized
  from_native-into_normalized m native output replay inverse h =
      let (_, h1) =
        passed (is_plugin_builtin b native m.origin) (rejected "provider replay required") _ h in
      let (u, valid, h2) = >>=-eq-ok (validate_record b (record_of b m native output)) _ h1 in
      let same = ok-injective h2 in
      let made : into_normalized b (record_of b m native output)
          ≡ ok (normalized_of m native output) =
        rw valid (normalized-record_of m native output inverse valid) in
      (
        ap (into_normalized b) (sym same) ∙ made,
        ap metadata (sym same) ∙ metadata-record_of m native output,
      )
