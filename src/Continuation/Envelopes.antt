-- ===== src/Continuation/Envelopes.antt =====
-- A replay that is sealed, stored and restored, and the theorems of Continuation.Restored, Finalized and Held at it.
use agent_response_gateway.Continuation.Held.{held-bounded}
use agent_response_gateway.Continuation.Backing.{Whole}
use agent_response_gateway.Continuation.Owned.{all_bytes}
use agent_response_gateway.Base.{
  ◌≤◌, ◌≡◌, ◌<◌, refl, all, All, ltb, arith, true, false, none, some, [], ◌∷◌, ◌++◌, ◌==◌, text_eq,
  Text, bytes, ok, Text-discrete, ℕ_discrete, if◌then◌else◌,
}
use agent_response_gateway.Base.Json.{string, Value-discrete}
use agent_response_gateway.Base.Hex.{hex_of}
use agent_response_gateway.Base.Strings.{strip_prefix}
use agent_response_gateway.Base.Tables.{get, insert, contains_key}
use agent_response_gateway.Ir.Continuity.{split_dot}
use agent_response_gateway.Continuation.Contract.{
  Session, Status, Replay, StoredReplay, label, validate_origin, validate_replay, unhex,
  schema_name,
}
use agent_response_gateway.Continuation.Store.{
  used, Store, load, AttemptStatus, AttemptStatus-discrete,
}
use agent_response_gateway.Continuation.Turns.{stored, finalize, pending_reserve, set_status}
use agent_response_gateway.Continuation.Replays.{
  ReplayRecord, v1, validate_record, metadata, Origin-discrete,
}
use agent_response_gateway.Continuation.Protector.{
  first, Protector, Codec, envelope_of, sealed_fields, digest_record, seal_record, open_plain,
  open_record, read_plain,
}
use agent_response_gateway.Continuation.Capacity.{finalizes, here, next, creates, begins}
use agent_response_gateway.Continuation.Runtime.{
  finalize_checked, check_provider, check_current, authoritative, restore_record,
}
use agent_response_gateway.Continuation.Restored.{restore_record-ok, ComesFrom}
use agent_response_gateway.Continuation.Finalized.{after_turn, finalize_checked-restore_record}
use agent_response_gateway.Continuation.Tests.{
  creates_session, begins_attempt, begun_store, origin, first_session, created,
}

abbrev pub sha_text : Text
sha_text = bytes "0123456789abcdef0123456789abcdef0123456789abcdef0123456789abcdef"

abbrev first_replay : Replay
first_replay = record {
  schema = schema_name;
  session = bytes "s";
  epoch = 1;
  origin = origin;
  response = bytes "resp_u";
  parent = none;
  input_len = 1;
  input_sha256 = sha_text;
  provider_status = bytes "completed";
  steps = string (bytes "step") ∷ [];
  output = [];
}

abbrev json : Text
json = bytes "{}"

abbrev pub codec : Codec
codec = record {
  base64 = record { encode = λ text. text; decode = λ text. some text };
  sha256 = λ text. text;
  record_json = λ _. json;
  read_v1 = λ text. if text == json then some first_replay else none;
  read_v2 = λ _. none;
  read_v3 = λ _. none;
}

-- A cipher that puts 16 bytes before the text.
abbrev tag : Text
tag = 0 ∷ 1 ∷ 2 ∷ 3 ∷ 4 ∷ 5 ∷ 6 ∷ 7 ∷ 8 ∷ 9 ∷ 10 ∷ 11 ∷ 12 ∷ 13 ∷ 14 ∷ 15 ∷ []

abbrev key : Protector
key = record {
  id = bytes "key-1";
  seal = λ _ _ plain. some (tag ++ plain);
  open_sealed = λ _ _ sealed. strip_prefix tag sealed;
}

abbrev nonce : Text
nonce = 1 ∷ 2 ∷ 3 ∷ 4 ∷ 5 ∷ 6 ∷ 7 ∷ 8 ∷ 9 ∷ 10 ∷ 11 ∷ 12 ∷ []

abbrev envelope : Text
envelope = envelope_of codec key first nonce (tag ++ json)

sealed_replay : seal_record codec key (some nonce) (v1 first_replay) ≡ ok envelope
unfolding label validate_origin validate_replay validate_record seal_record Text-discrete ℕ_discrete
sealed_replay = refl

labelled : label key.id ≡ ok tt
unfolding label ℕ_discrete
labelled = refl

opens : key.open_sealed nonce key.id (tag ++ json) ≡ some json
unfolding strip_prefix ℕ_discrete
opens = refl

reads : read_plain codec key first json ≡ ok (v1 first_replay)
unfolding Text-discrete ℕ_discrete
reads = refl

small : (text : Text) → all (λ b. ltb b 256) text ≡ true → All (λ b. b < 256) text
small [] h = tt
small (b ∷ text) h = (ground arith, small text (ground arith))

abbrev saved_replay : StoredReplay
saved_replay = record {
  id = bytes "resp_u";
  session = bytes "s";
  epoch = 1;
  digest = hex_of json;
  envelope = some envelope;
}

abbrev finished : Store
finished = record created {
  attempts =
      record {
        id = bytes "resp_u";
        session = bytes "s";
        epoch = 1;
        input_digest = bytes "d";
        status = AttemptStatus.finalized;
        reserve = 100;
      }
      ∷ [];
  records = (bytes "resp_u", record { digest = hex_of json; envelope = some envelope }) ∷ [];
}

finds : stored (bytes "resp_u") finished ≡ ok saved_replay
unfolding stored get AttemptStatus-discrete Text-discrete ℕ_discrete
finds = refl

restored : restore_record codec key first_session envelope finished ≡ ok (v1 first_replay, finished)
unfolding restore_record check_current authoritative metadata stored Origin-discrete open_record
    open_plain sealed_fields split_dot unhex strip_prefix get AttemptStatus-discrete label
    validate_origin validate_replay validate_record Text-discrete ℕ_discrete Value-discrete
restored = refl

restore_record-ok_example :
    (original : ReplayRecord) × (from : StoredReplay) × (open_record codec key envelope
      ≡ ok original)
    × ((metadata original).session ≡ first_session.id)
    × ((metadata original).epoch ≡ first_session.epoch)
    × ((metadata original).origin ≡ first_session.origin)
    × (stored (metadata original).response finished ≡ ok from)
    × (from.session ≡ first_session.id)
    × (from.epoch ≡ first_session.epoch)
    × (digest_record codec key original ≡ from.digest)
    × (digest_record codec key (v1 first_replay) ≡ from.digest)
    × ComesFrom codec key original from (v1 first_replay)
restore_record-ok_example =
    restore_record-ok codec key first_session envelope finished (v1 first_replay) finished restored

abbrev begun_session : Session
begun_session = record first_session { status = Status.pending; revision = 2 }

abbrev turn_store : Store
turn_store = record begun_store {
  sessions =
      (
        bytes "s",
        record begun_session { status = Status.ready; head = some (bytes "resp_u"); revision = 3 },
      )
      ∷ [];
  attempts =
      record {
        id = bytes "resp_u";
        session = bytes "s";
        epoch = 1;
        input_digest = bytes "d";
        status = AttemptStatus.finalized;
        reserve = 100;
      }
      ∷ [];
  records = (bytes "resp_u", record { digest = hex_of json; envelope = some envelope }) ∷ [];
}

finalized :
    finalize_checked codec key (some nonce) (λ _. ok tt) (v1 first_replay) begun_store
    ≡ ok (envelope, turn_store)
unfolding finalize_checked check_provider seal_record finalize load pending_reserve set_status
    contains_key insert get metadata label validate_origin validate_replay validate_record
    AttemptStatus-discrete Text-discrete ℕ_discrete
finalized = refl

finalizes_turn :
    finalize (bytes "s") (bytes "resp_u") (hex_of json) envelope false begun_store ≡ ok turn_store
unfolding finalize load pending_reserve set_status contains_key insert get AttemptStatus-discrete
    Text-discrete ℕ_discrete
finalizes_turn = refl

held-bounded_example :
    (all_bytes turn_store.records ≤ used turn_store.attempts)
    × (used turn_store.attempts ≤ 4096)
    × Whole turn_store.records
held-bounded_example = held-bounded 4096 (
    next
      (next (next here (creates (bytes "s") origin creates_session))
        (begins (bytes "u") (bytes "s") 1 none (bytes "d") 100 begins_attempt))
      (finalizes (bytes "s") (bytes "resp_u") (hex_of json) envelope false finalizes_turn))

loads_begun : load (bytes "s") begun_store ≡ ok begun_session
unfolding load get Text-discrete ℕ_discrete
loads_begun = refl

finalize_checked-restore_record_example :
    (load (bytes "s") turn_store ≡ ok (after_turn begun_session (v1 first_replay)))
    × (restore_record codec key (after_turn begun_session (v1 first_replay)) envelope turn_store
        ≡ ok (v1 first_replay, turn_store))
unfolding metadata
finalize_checked-restore_record_example =
    finalize_checked-restore_record codec key (v1 first_replay) nonce (tag ++ json) envelope
      (λ _. ok tt) begun_session 4096 turn_store
      (next (next here (creates (bytes "s") origin creates_session))
        (begins (bytes "u") (bytes "s") 1 none (bytes "d") 100 begins_attempt))
      labelled refl (small nonce refl) (small (tag ++ json) refl) refl refl opens reads loads_begun
      refl refl finalized
