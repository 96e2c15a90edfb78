-- ===== src/Management/Journal/Store.antt =====
-- The tables of crates/management/src/journal.rs, and the statements on them. A JSON column holds the
-- value that was written, or `garbage`, a JSON text of another shape.
use agent_response_gateway.Base.{
  ℕ, not, ◌||◌, ◌&&◌, Option, none, some, List, [], ◌∷◌, ◌++◌, ltb, leb, ◌==◌, nat_eq, text_eq,
  Text, any, Result, ok, err, if◌then◌else◌,
}
use agent_response_gateway.Management.Contract.{Error, storage, invalid_store, Event, Operation}

pub data Document (A : Type 0) : Type 0 where
  json : A → Document A
  garbage : Document A

-- `decode`, for a text of the given size
unfoldable pub decode : {A : Type 0} → (A → ℕ) → Document A → Result Error A
decode size (json a) = if ltb 65536 (size a) then err invalid_store else ok a
decode size garbage = err invalid_store

pub record OperationRow : Type 0 where
  pub id : Text
  pub subject : Text
  pub idempotency_key : Text
  pub fingerprint : Text
  pub intent : Document Operation

pub record EventRow : Type 0 where
  pub operation_id : Text
  pub sequence : ℕ
  pub event : Document Event

-- The rows in the order of insertion; the schema's triggers refuse an update or a deletion.
pub record Db : Type 0 where
  pub operations : List OperationRow
  pub events : List EventRow

-- SELECT intent FROM operations WHERE id=?1
unfoldable pub operation_row : Text → List OperationRow → Option OperationRow
operation_row id [] = none
operation_row id (row ∷ rows) = if row.id == id then some row else operation_row id rows

-- SELECT id,fingerprint FROM operations WHERE subject=?1 AND idempotency_key=?2
unfoldable pub request_row : Text → Text → List OperationRow → Option OperationRow
request_row subject key [] = none
request_row subject key (row ∷ rows) =
    if row.subject == subject && row.idempotency_key == key
    then some row
    else request_row subject key rows

unfoldable pub insert_by_sequence : EventRow → List EventRow → List EventRow
insert_by_sequence row [] = row ∷ []
insert_by_sequence row (r ∷ rows) =
    if leb row.sequence r.sequence then row ∷ r ∷ rows else r ∷ insert_by_sequence row rows

-- SELECT event FROM events WHERE operation_id=?1 ORDER BY sequence
unfoldable pub event_rows : Text → List EventRow → List EventRow
unfolding insert_by_sequence
event_rows id [] = []
event_rows id (row ∷ rows) =
    let rest = event_rows id rows in
    if row.operation_id == id then insert_by_sequence row rest else rest

-- INSERT INTO operations: `id` is the primary key, `(subject,idempotency_key)` is unique.
unfoldable pub insert_operation : OperationRow → Db → Result Error Db
insert_operation row db =
    if any
      (λ r.
        r.id == row.id || (r.subject == row.subject && r.idempotency_key == row.idempotency_key))
      db.operations
    then err storage
    else ok (record db { operations = db.operations ++ row ∷ [] })

-- INSERT INTO events: `(operation_id,sequence)` is the primary key, `operation_id` a foreign key.
unfoldable pub insert_event : EventRow → Db → Result Error Db
insert_event row db =
    if any (λ r. r.operation_id == row.operation_id && r.sequence == row.sequence) db.events
      || not (any (λ o. o.id == row.operation_id) db.operations)
    then err storage
    else ok (record db { events = db.events ++ row ∷ [] })
