-- ===== src/Continuation/Protector.antt =====
-- `Protector` of src/continuation/mod.rs: replays sealed into envelopes, and opened.
use agent_response_gateway.Base.{
  ℕ, ◌*◌, ◌+◌, Bool, true, false, not, ◌&&◌, Option, none, some, List, [], ◌∷◌, ◌++◌, ltb, ◌==◌,
  ◌!=◌, nat_eq, text_eq, Text, bytes, length, is_empty, Result, ok, err, ◌>>=◌, ◌>>◌, reject_if,
  ok_or, if◌then◌else◌,
}
use agent_response_gateway.Base.Hex.{hex_of}
use agent_response_gateway.Base.Strings.{starts_with, strip_prefix}
use agent_response_gateway.Ir.Continuity.{split_dot}
use agent_response_gateway.Continuation.Contract.{Error, rejected, Replay, unhex, schema_name}
use agent_response_gateway.Continuation.Replays.{
  ReplayV2, ReplayV3, ReplayRecord, v1, v2, v3, replay_v2, replay_v3, schema_of, Base64,
  validate_record,
}

abbrev pub max_payload : ℕ
max_payload = 2097152

-- The prefixes ENVELOPE_PREFIX, ENVELOPE_V2 and ENVELOPE_V3.
pub data Prefix : Type 0 where
  first second third : Prefix

abbrev pub prefix_text : Prefix → Text
prefix_text first = bytes "arg-continuation-v1."
prefix_text second = bytes "arg-continuation-v2."
prefix_text third = bytes "arg-continuation-v3."

-- AES-256-GCM under the protector's key: a nonce, the associated data, and the text.
pub record Protector : Type 0 where
  pub id : Text
  pub seal : Text → Text → Text → Option Text
  pub open_sealed : Text → Text → Text → Option Text

-- serde_json, SHA-256 and base64 on records.
pub record Codec : Type 0 where
  pub base64 : Base64
  pub sha256 : Text → Text
  pub record_json : ReplayRecord → Text
  pub read_v1 : Text → Option Replay
  pub read_v2 : Text → Option ReplayV2
  pub read_v3 : Text → Option ReplayV3

abbrev pub prefix_of : ReplayRecord → Prefix
prefix_of (v1 _) = first
prefix_of (v2 _) = second
prefix_of (v3 _) = third

abbrev pub aad_of : Protector → Prefix → Text
aad_of key first = key.id
aad_of key prefix = prefix_text prefix ++ key.id

abbrev pub found_prefix : Text → Result Error Prefix
found_prefix envelope =
    if starts_with (prefix_text first) envelope
    then ok first
    else if starts_with (prefix_text second) envelope
    then ok second
    else if starts_with (prefix_text third) envelope
    then ok third
    else err (rejected "envelope version")

abbrev pub bad_envelope : Error
bad_envelope = rejected "envelope"

-- The nonce and the sealed bytes of `split('.')`, after the key's identity.
unfoldable pub sealed_fields : Text → List Text → Result Error (Text × Text)
unfolding unhex
sealed_fields id [] = err (rejected "key identity")
sealed_fields id (found ∷ []) =
    if found == id then err bad_envelope else err (rejected "key identity")
sealed_fields id (found ∷ nonce_text ∷ []) = do
  reject_if (found != id) (rejected "key identity")
  nonce ← unhex nonce_text
  reject_if (length nonce != 12) (rejected "nonce")
  err bad_envelope
sealed_fields id (found ∷ nonce_text ∷ sealed_text ∷ more) = do
  reject_if (found != id) (rejected "key identity")
  nonce ← unhex nonce_text
  reject_if (length nonce != 12) (rejected "nonce")
  sealed ← unhex sealed_text
  reject_if (not (is_empty more)) bad_envelope
  ok (nonce, sealed)

module _ (x : Codec) (key : Protector) where
  abbrev pub envelope_of : Prefix → Text → Text → Text
  envelope_of prefix nonce sealed =
      prefix_text prefix
      ++ (key.id ++ (bytes "." ++ (hex_of nonce ++ (bytes "." ++ hex_of sealed))))

  -- `Protector::seal_record`, with the nonce that it draws
  unfoldable pub seal_record : Option Text → ReplayRecord → Result Error Text
  unfolding validate_record
  seal_record drawn replay = do
    validate_record x.base64 replay
    reject_if (ltb max_payload (length (x.record_json replay))) (rejected "payload limit")
    nonce ← ok_or drawn (rejected "randomness")
    sealed ←
        ok_or (key.seal nonce (aad_of key (prefix_of replay)) (x.record_json replay))
          (rejected "encryption")
    ok (envelope_of (prefix_of replay) nonce sealed)

  abbrev pub as_record : {A : Type 0} → (A → ReplayRecord) → Option A → Result Error ReplayRecord
  as_record f none = err (rejected "replay format")
  as_record f (some v) = ok (f v)

  abbrev pub read_plain : Prefix → Text → Result Error ReplayRecord
  read_plain first plain = as_record v1 (x.read_v1 plain)
  read_plain second plain = as_record v2 (x.read_v2 plain)
  read_plain third plain = as_record v3 (x.read_v3 plain)

  abbrev pub is_third : Prefix → Bool
  is_third third = true
  is_third _ = false

  abbrev pub expected_schema : Prefix → Text
  expected_schema first = schema_name
  expected_schema second = replay_v2
  expected_schema third = replay_v3

  -- The checks of a text that was decrypted.
  unfoldable pub open_plain : Prefix → Text → Result Error ReplayRecord
  unfolding validate_record
  open_plain prefix plain = do
    reject_if (ltb max_payload (length plain)) (rejected "payload limit")
    replay ← read_plain prefix plain
    validate_record x.base64 replay
    reject_if (schema_of replay != expected_schema prefix) (rejected "replay version mismatch")
    reject_if (is_third prefix && x.record_json replay != plain)
        (rejected "noncanonical provider replay")
    ok replay

  -- `Protector::open_record`
  unfoldable pub open_record : Text → Result Error ReplayRecord
  unfolding strip_prefix split_dot sealed_fields open_plain
  open_record envelope = do
    prefix ← found_prefix envelope
    reject_if (ltb (2 * max_payload + 1024) (length envelope)) (rejected "payload limit")
    rest ← ok_or (strip_prefix (prefix_text prefix) envelope) (rejected "envelope version")
    (nonce, sealed) ← sealed_fields key.id (split_dot rest)
    plain ← ok_or (key.open_sealed nonce (aad_of key prefix) sealed) (rejected "authentication")
    open_plain prefix plain

  abbrev pub only_v1 : ReplayRecord → Result Error Replay
  only_v1 (v1 v) = ok v
  only_v1 _ = err (rejected "legacy replay required")

  -- `Protector::seal` and `Protector::open`
  abbrev pub seal_replay : Option Text → Replay → Result Error Text
  seal_replay drawn replay = seal_record drawn (v1 replay)

  unfoldable pub open_replay : Text → Result Error Replay
  unfolding open_record
  open_replay envelope = do replay ← open_record envelope; only_v1 replay

  -- `digest`
  abbrev pub digest_record : ReplayRecord → Text
  digest_record replay = hex_of (x.sha256 (x.record_json replay))
