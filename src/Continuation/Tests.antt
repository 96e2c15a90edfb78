-- ===== src/Continuation/Tests.antt =====
-- A session with one turn, and the theorems of Continuation at it.
use agent_response_gateway.Base.{
  ◌≡◌, refl, false, none, [], ◌∷◌, bytes, ok, err, Text-discrete, ℕ_discrete,
}
use agent_response_gateway.Base.Json.{object, no_fields}
use agent_response_gateway.Base.Tables.{get, insert, contains_key}
use agent_response_gateway.Continuation.Contract.{
  Origin, Session, Status, rejected, label, validate_origin,
}
use agent_response_gateway.Continuation.Store.{Store, AttemptStatus, load, create, begin}
use agent_response_gateway.Continuation.Capacity.{here, next, creates, begins}
use agent_response_gateway.Continuation.Promises.{empty_store}
use agent_response_gateway.Continuation.Attempts.{OneAtATime}
use agent_response_gateway.Continuation.Pending.{Reach-OneAtATime}

abbrev pub origin : Origin
origin = record { route = object no_fields; realm = bytes "r"; generation = bytes "g" }

abbrev pub first_session : Session
first_session = record {
  id = bytes "s";
  epoch = 1;
  revision = 1;
  origin = origin;
  status = Status.ready;
  head = none;
  pending_tools = false;
  portable_sha256 = none;
}

abbrev pub created : Store
created = record (empty_store 4096) { sessions = (bytes "s", first_session) ∷ [] }

abbrev pub begun_store : Store
begun_store = record created {
  sessions = (bytes "s", record first_session { status = Status.pending; revision = 2 }) ∷ [];
  attempts =
      record {
        id = bytes "resp_u";
        session = bytes "s";
        epoch = 1;
        input_digest = bytes "d";
        status = AttemptStatus.pending;
        reserve = 100;
      }
      ∷ [];
}

pub creates_session : create (bytes "s") origin (empty_store 4096) ≡ ok (first_session, created)
unfolding create validate_origin label contains_key get insert ℕ_discrete
creates_session = refl

pub begins_attempt :
    begin (bytes "u") (bytes "s") 1 none (bytes "d") 100 created ≡ ok (bytes "resp_u", begun_store)
unfolding begin load contains_key get insert ℕ_discrete Text-discrete
begins_attempt = refl

-- The session may not begin another turn.
begins_once :
    begin (bytes "v") (bytes "s") 2 none (bytes "e") 100 begun_store
    ≡ err (rejected "session conflict or reconciliation required")
unfolding begin load contains_key get insert ℕ_discrete Text-discrete
begins_once = refl

loads_session : load (bytes "s") created ≡ ok first_session
unfolding load get Text-discrete ℕ_discrete
loads_session = refl

Reach-OneAtATime_example : OneAtATime begun_store
Reach-OneAtATime_example = Reach-OneAtATime 4096 (
    next (next here (creates (bytes "s") origin creates_session))
      (begins (bytes "u") (bytes "s") 1 none (bytes "d") 100 begins_attempt))
