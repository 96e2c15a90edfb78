-- ===== src/Continuation/Outcomes.antt =====
-- The stores that the operations of src/continuation/sqlite.rs leave.
use agent_response_gateway.Base.{
  ◌+◌, Bool, false, none, some, [], ◌∷◌, ◌++◌, ◌==◌, nat_eq, text_eq, Text,
}
use agent_response_gateway.Base.Tables.{insert}
use agent_response_gateway.Continuation.Contract.{Origin, Session, Status}
use agent_response_gateway.Continuation.Store.{save, Store, AttemptStatus, attempt_status_eq}
use agent_response_gateway.Continuation.Turns.{set_status, after_finalize, is_pending_of}

abbrev pub finalized_store : Store → Session → Text → Text → Text → Bool → Store
finalized_store store s attempt digest envelope tools =
    save
      (record s {
        status = after_finalize s.status;
        head = some attempt;
        pending_tools = tools;
        revision = s.revision + 1;
      })
      (record store {
        records =
            insert attempt (record { digest = digest; envelope = some envelope }) store.records;
        attempts = set_status (λ a. a.id == attempt) AttemptStatus.finalized store.attempts;
      })

abbrev pub lost_store : Store → Session → Text → Text → Store
lost_store store s id attempt =
    save (record s { status = Status.unknown; revision = s.revision + 1 })
      (record store {
        attempts = set_status (is_pending_of id attempt) AttemptStatus.unknown store.attempts;
      })

abbrev pub moved_store : Store → Session → Text → Text → Text → Text → Store
moved_store store s fresh id kind decision =
    save (record s { revision = s.revision + 1 })
      (record store {
        transitions =
            store.transitions
            ++ (record {
              id = fresh;
              session = id;
              revision = s.revision + 1;
              kind = kind;
              decision = decision;
            })
              ∷ [];
      })

abbrev pub reopened : Store → Store
reopened store = record store {
  attempts =
      set_status (λ a. a.status == AttemptStatus.pending) AttemptStatus.unknown store.attempts;
}

abbrev pub new_session : Text → Origin → Session
new_session fresh origin = record {
  id = fresh;
  epoch = 1;
  revision = 1;
  origin = origin;
  status = Status.ready;
  head = none;
  pending_tools = false;
  portable_sha256 = none;
}
