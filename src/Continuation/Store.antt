-- ===== src/Continuation/Store.antt =====
-- `SqliteStore` of src/continuation/sqlite.rs as functions on its tables. An error rolls the
-- transaction back, so that the store is as before. A `fresh` text stands for the UUID that is drawn.
use agent_response_gateway.Base.{
  ℕ, ◌+◌, ◌^◌, Bool, true, false, not, ◌||◌, ◌&&◌, Option, none, some, List, [], ◌∷◌, ◌++◌, ltb,
  leb, ◌==◌, ◌!=◌, nat_eq, text_eq, Eq, Text, bytes, any, Result, ok, err, ◌>>=◌, ◌>>◌, reject_if,
  ok_or, if◌then◌else◌,
}
use agent_response_gateway.Base.Tables.{Table, get, insert, contains_key}
use agent_response_gateway.Continuation.Contract.{
  Error, rejected, Origin, validate_origin, Session, Status, status_eq, ready, compacting,
  compacting_pending,
}

pub data AttemptStatus : Type 0 where
  pending finalized unknown : AttemptStatus

unfoldable pub AttemptStatus-discrete : Discrete AttemptStatus
AttemptStatus-discrete = hlevel

instance abbrev pub attempt_status_eq : Eq AttemptStatus
attempt_status_eq = record { dec = AttemptStatus-discrete }

-- A row of the table `attempts`.
pub record Attempt : Type 0 where
  pub id : Text
  pub session : Text
  pub epoch : ℕ
  pub input_digest : Text
  pub status : AttemptStatus
  pub reserve : ℕ

-- A row of the table `records`, without its key.
pub record Record : Type 0 where
  pub digest : Text
  pub envelope : Option Text

-- A row of the table `transitions`.
pub record Transition : Type 0 where
  pub id : Text
  pub session : Text
  pub revision : ℕ
  pub kind : Text
  pub decision : Text

pub record Store : Type 0 where
  pub protection : Option Text
  pub sessions : Table Text Session
  pub attempts : List Attempt
  pub records : Table Text Record
  pub transitions : List Transition
  pub limit : ℕ

abbrev pub database : Error
database = rejected "database operation"

unfoldable pub load : Text → Store → Result Error Session
load id store = ok_or (get id store.sessions) database

-- UPDATE sessions SET value=?2 WHERE id=?1
abbrev pub save : Session → Store → Store
save s store =
    if contains_key s.id store.sessions
    then record store { sessions = insert s.id s store.sessions }
    else store

-- `match saved`
abbrev pub check_protection : Text → Option Text → Store → Result Error Store
check_protection fingerprint none store = ok (record store { protection = some fingerprint })
check_protection fingerprint (some saved) store =
    if saved != fingerprint then err (rejected "protection binding changed") else ok store

unfoldable pub bind_protection : Text → Store → Result Error Store
bind_protection fingerprint store = check_protection fingerprint store.protection store

unfoldable pub create : Text → Origin → Store → Result Error (Session × Store)
create fresh origin store = do
  validate_origin origin
  let s : Session = record {
    id = fresh;
    epoch = 1;
    revision = 1;
    origin = origin;
    status = ready;
    head = none;
    pending_tools = false;
    portable_sha256 = none;
  }
  reject_if (contains_key fresh store.sessions) database
  ok (s, record store { sessions = insert fresh s store.sessions })

-- SELECT COALESCE(SUM(reserve),0) FROM attempts
abbrev pub used : List Attempt → ℕ
used [] = 0
used (a ∷ attempts) = a.reserve + used attempts

abbrev pub may_begin : Status → Bool
may_begin ready = true
may_begin compacting = true
may_begin _ = false

abbrev pub begun : Status → Status
begun compacting = compacting_pending
begun _ = Status.pending

abbrev pub same_parent : Option Text → Option Text → Bool
same_parent none none = true
same_parent (some a) (some b) = a == b
same_parent _ _ = false

-- `format!("resp_{}", Uuid::simple())`
abbrev pub attempt_id : Text → Text
attempt_id fresh = bytes "resp_" ++ fresh

-- The primary key of `attempts`, and its unique (session,epoch,input_digest).
abbrev pub clashes : Attempt → Attempt → Bool
clashes a b =
    a.id == b.id
    || (a.session == b.session && (a.epoch == b.epoch && a.input_digest == b.input_digest))

-- A sum past i64 is an error of the database.
abbrev pub no_capacity : ℕ → ℕ → ℕ → Bool
no_capacity limit sum reserve =
    reserve == 0 || (leb (2 ^ 64) (sum + reserve) || ltb limit (sum + reserve))

abbrev pub new_attempt : Text → Session → Text → Text → ℕ → Attempt
new_attempt id s session input_digest reserve = record {
  id = id;
  session = session;
  epoch = s.epoch;
  input_digest = input_digest;
  status = AttemptStatus.pending;
  reserve = reserve;
}

unfoldable pub begin :
    Text → Text → ℕ → Option Text → Text → ℕ → Store → Result Error (Text × Store)
unfolding load
begin fresh id revision parent input_digest reserve store = do
  s ← load id store
  reject_if
      (s.revision != revision || (not (may_begin s.status) || not (same_parent s.head parent)))
      (rejected "session conflict or reconciliation required")
  reject_if (leb (2 ^ 63) (used store.attempts)) database
  reject_if (no_capacity store.limit (used store.attempts) reserve) (rejected "store capacity")
  reject_if (leb (2 ^ 63) reserve) (rejected "capacity limit")
  let attempt = new_attempt (attempt_id fresh) s id input_digest reserve
  reject_if (any (clashes attempt) store.attempts) database
  ok (
    attempt.id,
    save (record s { status = begun s.status; revision = s.revision + 1 })
        (record store { attempts = store.attempts ++ attempt ∷ [] }),
  )
