-- ===== src/Management/Journal/Rows.antt =====
-- The event rows of one operation (crates/management/src/journal.rs) after one more insertion.
use agent_response_gateway.Base.{
  ◌<◌, ◌≡◌, ◌≢◌, arith, true, List, [], ◌∷◌, ◌++◌, leb, ◌==◌, Bool-cases, inl, inr, nat_eq, text_eq,
  Text, any, All, ok,
}
use agent_response_gateway.Management.Journal.Store.{
  Db, EventRow, event_rows, insert_by_sequence, insert_event,
}

abbrev pub Below : EventRow → EventRow → Type 0
Below row r = r.sequence < row.sequence

All-insert :
    (P : EventRow → Type 0) (r : EventRow) (rows : List EventRow)
    → All P (insert_by_sequence r rows)
    → P r × All P rows
unfolding insert_by_sequence
All-insert P r [] h = h
All-insert P r (s ∷ rows) h = elim (Bool-cases (leb r.sequence s.sequence)) [
  | inl first ↦ rw (first, insert_by_sequence) at h
  | inr later ↦
      let h' : P s × All P (insert_by_sequence r rows) = rw (later, insert_by_sequence) at h in
      let (p, rest) = All-insert P r rows h'.1 in (p, (h'.0, rest))
]

insert-append :
    (r row : EventRow) (rows : List EventRow)
    → r.sequence < row.sequence
    → insert_by_sequence r (rows ++ row ∷ []) ≡ insert_by_sequence r rows ++ row ∷ []
unfolding insert_by_sequence
insert-append r row [] h = ground arith
insert-append r row (s ∷ rows) h = ground (arith, insert-append r row rows)

insert-All :
    (P : EventRow → Type 0) (r : EventRow) (rows : List EventRow)
    → P r
    → All P rows
    → All P (insert_by_sequence r rows)
unfolding insert_by_sequence
insert-All P r [] p h = (p, tt)
insert-All P r (s ∷ rows) p h = elim (Bool-cases (leb r.sequence s.sequence)) [
  | inl first ↦ rw (first, insert_by_sequence) (p, (h.0, h.1))
  | inr later ↦ rw (later, insert_by_sequence) (h.0, insert-All P r rows p h.1)
]

pub event_rows-All :
    (P : EventRow → Type 0) (id : Text) (events : List EventRow)
    → All P events
    → All P (event_rows id events)
unfolding event_rows
event_rows-All P id [] h = tt
event_rows-All P id (r ∷ events) h =
    let rest = event_rows-All P id events h.1 in
    elim (Bool-cases (r.operation_id == id)) [
      | inl mine ↦ rw mine (insert-All P r (event_rows id events) h.0 rest)
      | inr other ↦ rw other rest
    ]

-- A row with the greatest sequence comes last.
pub event_rows-append :
    (id : Text) (row : EventRow) (events : List EventRow)
    → row.operation_id ≡ id
    → All (Below row) (event_rows id events)
    → event_rows id (events ++ row ∷ []) ≡ event_rows id events ++ row ∷ []
unfolding event_rows
event_rows-append id row [] e h = ground arith
event_rows-append id row (r ∷ events) e h = elim (Bool-cases (r.operation_id == id)) [
  | inl mine ↦
      let h' : All (Below row) (insert_by_sequence r (event_rows id events)) = rw mine at h in
      let (p, rest) = All-insert (Below row) r (event_rows id events) h' in
      rw (mine, event_rows-append id row events e rest)
        (insert-append r row (event_rows id events) p)
  | inr other ↦
      let h' : All (Below row) (event_rows id events) = rw other at h in
      rw other (event_rows-append id row events e h')
]

pub event_rows-append_other :
    (id : Text) (row : EventRow) (events : List EventRow)
    → row.operation_id ≢ id
    → event_rows id (events ++ row ∷ []) ≡ event_rows id events
unfolding event_rows
event_rows-append_other id row [] h = ground arith
event_rows-append_other id row (r ∷ events) h =
    ground (arith, event_rows-append_other id row events h)

pub insert_event_lem :
    (row : EventRow) (db db' : Db)
    → insert_event row db ≡ ok db'
    → (db' ≡ record db { events = db.events ++ row ∷ [] })
      × (any (λ o. o.id == row.operation_id) db.operations ≡ true)
unfolding insert_event
insert_event_lem row db db' h = ground arith
