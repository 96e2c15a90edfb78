-- ===== src/Continuation/Turns.antt =====
-- The end of a turn, repair, transitions and recovery in src/continuation/sqlite.rs.
use agent_response_gateway.Base.{
  ℕ, ◌+◌, Bool, true, false, not, ◌||◌, ◌&&◌, Option, none, some, is_none, List, [], ◌∷◌, ◌++◌, ltb,
  leb, ◌==◌, ◌!=◌, nat_eq, text_eq, Text, bytes, length, any, Result, ok, err, ◌>>=◌, ◌>>◌,
  reject_if, ok_or, if◌then◌else◌,
}
use agent_response_gateway.Base.Tables.{get, insert, contains_key}
use agent_response_gateway.Continuation.Contract.{
  Error, rejected, Session, Status, status_eq, ready, compacting, compacting_pending,
  awaiting_compaction, StoredReplay, label,
}
use agent_response_gateway.Continuation.Store.{
  attempt_status_eq, save, AttemptStatus, Attempt, Transition, Store, database, load,
}

-- SELECT reserve FROM attempts WHERE id=?1 AND session=?2 AND epoch=?3 AND status='pending'
unfoldable pub pending_reserve : Text → Text → ℕ → List Attempt → Option ℕ
pending_reserve attempt id epoch [] = none
pending_reserve attempt id epoch (a ∷ attempts) =
    if a.id == attempt
      && (a.session == id && (a.epoch == epoch && a.status == AttemptStatus.pending))
    then some a.reserve
    else pending_reserve attempt id epoch attempts

-- UPDATE attempts SET status=.. for the rows that a test picks
unfoldable pub set_status : (Attempt → Bool) → AttemptStatus → List Attempt → List Attempt
set_status picks status [] = []
set_status picks status (a ∷ attempts) =
    (if picks a then record a { status = status } else a) ∷ set_status picks status attempts

abbrev pub is_in_flight : Status → Bool
is_in_flight Status.pending = true
is_in_flight compacting_pending = true
is_in_flight _ = false

abbrev pub after_finalize : Status → Status
after_finalize compacting_pending = awaiting_compaction
after_finalize _ = ready

unfoldable pub finalize : Text → Text → Text → Text → Bool → Store → Result Error Store
unfolding load pending_reserve set_status
finalize id attempt digest envelope pending_tools store = do
  s ← load id store
  reserve ← ok_or (pending_reserve attempt id s.epoch store.attempts) database
  reject_if (ltb reserve (length envelope) || not (is_in_flight s.status))
      (rejected "finalization conflict")
  reject_if (contains_key attempt store.records) database
  ok (
      save
        (record s {
          status = after_finalize s.status;
          head = some attempt;
          pending_tools = pending_tools;
          revision = s.revision + 1;
        })
        (record store {
          records =
              insert attempt (record { digest = digest; envelope = some envelope }) store.records;
          attempts = set_status (λ a. a.id == attempt) AttemptStatus.finalized store.attempts;
        }))

abbrev pub is_pending_of : Text → Text → Attempt → Bool
is_pending_of id attempt a =
    a.id == attempt && (a.session == id && a.status == AttemptStatus.pending)

-- `uncertain` for an attempt that is pending.
unfoldable pub lose : Text → Text → Store → Result Error Store
unfolding load set_status
lose id attempt store = do
  s ← load id store
  ok (
      save (record s { status = Status.unknown; revision = s.revision + 1 })
        (record store {
          attempts = set_status (is_pending_of id attempt) AttemptStatus.unknown store.attempts;
        }))

unfoldable pub uncertain : Text → Text → Store → Result Error Store
unfolding lose
uncertain id attempt store =
    if any (is_pending_of id attempt) store.attempts then lose id attempt store else ok store

-- The attempt of a finalized record.
unfoldable pub finalized_attempt : Text → List Attempt → Option Attempt
finalized_attempt id [] = none
finalized_attempt id (a ∷ attempts) =
    if a.id == id && a.status == AttemptStatus.finalized
    then some a
    else finalized_attempt id attempts

unfoldable pub stored : Text → Store → Result Error StoredReplay
unfolding finalized_attempt
stored id store = do
  a ← ok_or (finalized_attempt id store.attempts) (rejected "finalized record missing")
  r ← ok_or (get id store.records) (rejected "finalized record missing")
  ok (record {
    id = id;
    session = a.session;
    epoch = a.epoch;
    digest = r.digest;
    envelope = r.envelope;
  })

-- `length` of SQLite: the characters of a text before its first NUL.
unfoldable pub sql_length : Text → ℕ
sql_length [] = 0
sql_length (b ∷ text) =
    let rest = sql_length text in
    if b == 0 then 0 else if leb 0x80 b && leb b 0xbf then rest else rest + 1

unfoldable pub repair : Text → Text → Text → Store → Result Error Store
unfolding finalized_attempt sql_length
repair id digest envelope store = do
  r ← ok_or (get id store.records) (rejected "repair conflict")
  a ← ok_or (finalized_attempt id store.attempts) (rejected "repair conflict")
  reject_if
      (r.digest != digest || (not (is_none r.envelope) || ltb a.reserve (sql_length envelope)))
      (rejected "repair conflict")
  ok (record store { records = insert id (record r { envelope = some envelope }) store.records })

-- A new epoch, from a portable history.
abbrev pub next_epoch : Session → Option Text → Result Error Session
next_epoch s none = err (rejected "portable history required")
next_epoch s (some portable) = ok (record s {
  epoch = s.epoch + 1;
  head = none;
  pending_tools = false;
  portable_sha256 = some portable;
  status = ready;
})

-- `match kind`
unfoldable pub changed : Text → Option Text → Session → Result Error Session
changed kind portable s =
    if kind == bytes "compact_begin" && (s.status == ready && not s.pending_tools)
    then ok (record s { status = compacting })
    else if (kind == bytes "compact_commit" && s.status == awaiting_compaction)
        || kind == bytes "recover"
    then next_epoch s portable
    else err (rejected "unsupported transition")

unfoldable pub transition :
    Text → Text → ℕ → Text → Option Text → Text → Store → Result Error (Session × Store)
unfolding load changed
transition fresh id revision kind portable decision store = do
  label decision
  s ← load id store
  reject_if (s.revision != revision || is_in_flight s.status) (rejected "transition conflict")
  next ← changed kind portable s
  let s' = record next { revision = next.revision + 1 }
  reject_if (any (λ t. t.id == fresh) store.transitions) database
  let row : Transition = record {
    id = fresh;
    session = id;
    revision = s'.revision;
    kind = kind;
    decision = decision;
  }
  ok (s', save s' (record store { transitions = store.transitions ++ row ∷ [] }))

-- SELECT DISTINCT session FROM attempts WHERE status='pending'
unfoldable pub interrupted : List Attempt → List Text
interrupted [] = []
interrupted (a ∷ attempts) =
    let rest = interrupted attempts in
    if a.status == AttemptStatus.pending && not (any (λ id. id == a.session) rest)
    then a.session ∷ rest
    else rest

unfoldable pub mark_unknown : List Text → Store → Result Error Store
unfolding load
mark_unknown [] store = ok store
mark_unknown (id ∷ ids) store = do
  s ← load id store
  mark_unknown ids (save (record s { status = Status.unknown; revision = s.revision + 1 }) store)

-- The end of `SqliteStore::open`: attempts that a crash has left in flight stay uncertain.
unfoldable pub reopen : Store → Result Error Store
unfolding interrupted mark_unknown set_status
reopen store = do
  marked ← mark_unknown (interrupted store.attempts) store
  ok (record marked {
    attempts =
        set_status (λ a. a.status == AttemptStatus.pending) AttemptStatus.unknown marked.attempts;
  })
