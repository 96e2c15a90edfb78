-- ===== src/Management/Journal/Accepted.antt =====
-- What the acceptance of a request adds to the tables of crates/management/src/journal.rs.
use mathlib.Core.Path.{subst}
use agent_response_gateway.Base.{
  ℕ, ◌≤◌, ◌≡◌, ◌≢◌, refl, ap, ◌∙◌, arith, Bool, true, false, not, ◌&&◌, ◌||◌, none, some, List, [],
  ◌∷◌, ◌++◌, ◌==◌, ==_refl, ==_false, text_eq, Text, any, All, ok,
}
use agent_response_gateway.Management.Contract.{
  Operation, accepted, Identifier, new_id, Externals, Grant, Actor, Request,
}
use agent_response_gateway.Management.Journal.Store.{
  Db, EventRow, OperationRow, event_rows, operation_row, insert_event, insert_operation,
}
use agent_response_gateway.Management.Journal.Recorded.{
  recorded, extended, authentic, follows, bad_intent,
}
use agent_response_gateway.Management.Journal.Writer.{
  event_row, intent_row, acceptance, insert_accepted, intent,
}
use agent_response_gateway.Management.Journal.Rows.{event_rows-append, event_rows-append_other}
use agent_response_gateway.Management.Journal.Growth.{same}
use agent_response_gateway.Management.Journal.Replayed.{
  Matches, Found-recorded, recorded-Found, replay-one, decode_json,
}
use agent_response_gateway.Management.Journal.Kept.{
  All-map, All-snoc, IsKeyed, request_row-append, request_row-new, Grows, IsReadable, Kept,
  IsReadable-Grows,
}

-- An operation that is new to the table.
abbrev pub is_fresh : OperationRow → List OperationRow → Bool
is_fresh row operations = not (any (λ r. r.id == row.id) operations)

operation_row-append :
    (id : Text) (o : OperationRow) (rows : List OperationRow)
    → o.id ≢ id
    → operation_row id (rows ++ o ∷ []) ≡ operation_row id rows
unfolding operation_row
operation_row-append id o [] n = ground arith
operation_row-append id o (r ∷ rows) n = ground (arith, operation_row-append id o rows n)

operation_row-fresh :
    (o : OperationRow) (rows : List OperationRow)
    → any (λ r. r.id == o.id) rows ≡ false
    → operation_row o.id (rows ++ o ∷ []) ≡ some o
unfolding operation_row
operation_row-fresh o [] n = ground arith
operation_row-fresh o (r ∷ rows) n = ground (arith, operation_row-fresh o rows)

any-append :
    (p : OperationRow → Bool) (rows : List OperationRow) (o : OperationRow)
    → any p rows ≡ true
    → any p (rows ++ o ∷ []) ≡ true
any-append p [] o h = cc
any-append p (r ∷ rows) o h = ground (arith, any-append p rows o)

any-snoc :
    (p : OperationRow → Bool) (rows : List OperationRow) (o : OperationRow)
    → p o ≡ true
    → any p (rows ++ o ∷ []) ≡ true
any-snoc p [] o h = ground arith
any-snoc p (r ∷ rows) o h = ground (arith, any-snoc p rows o)

-- No event belongs to an operation that is not in the table.
event_rows-unowned :
    (id : Text) (operations : List OperationRow) (events : List EventRow)
    → any (λ o. o.id == id) operations ≡ false
    → All (λ r. any (λ o. o.id == r.operation_id) operations ≡ true) events
    → event_rows id events ≡ []
unfolding event_rows
event_rows-unowned id operations [] f h = refl
event_rows-unowned id operations (r ∷ events) f h = elim (text_eq.dec r.operation_id id) [
  | yes p ↦
      let h0 : any (λ o. o.id == id) operations ≡ true =
        subst (λ t. any (λ o. o.id == t) operations ≡ true) p h.0 in
      cc
  | no n ↦ rw (==_false r.operation_id id n) (event_rows-unowned id operations events f h.1)
]

pub insert_accepted_lem :
    (o : OperationRow) (row : EventRow) (db db' : Db)
    → insert_accepted o row db ≡ ok db'
    → (db' ≡ record db { operations = db.operations ++ o ∷ []; events = db.events ++ row ∷ [] })
      × (any
            (λ r.
              r.id == o.id || (r.subject == o.subject && r.idempotency_key == o.idempotency_key))
            db.operations
          ≡ false)
unfolding insert_operation insert_event
insert_accepted_lem o row db db' h = ground arith

pub any-right :
    (p q : OperationRow → Bool) (rows : List OperationRow)
    → any (λ r. p r || q r) rows ≡ false
    → any q rows ≡ false
any-right p q [] h = refl
any-right p q (r ∷ rows) h = ground (arith, any-right p q rows)

pub any-left :
    (p q : OperationRow → Bool) (rows : List OperationRow)
    → any (λ r. p r || q r) rows ≡ false
    → any p rows ≡ false
any-left p q [] h = refl
any-left p q (r ∷ rows) h = ground (arith, any-left p q rows)

operation_row-absent :
    (id : Text) (rows : List OperationRow)
    → any (λ r. r.id == id) rows ≡ false
    → operation_row id rows ≡ none
unfolding operation_row
operation_row-absent id [] f = refl
operation_row-absent id (r ∷ rows) f = ground (arith, operation_row-absent id rows)

abbrev pub accepted_operation : Actor → Request → Grant → ℕ → Identifier → Operation
accepted_operation actor request grant at_ms id =
    extended (intent id actor request grant) (acceptance actor grant at_ms)

abbrev pub accepted_db : Externals → Actor → Request → Grant → ℕ → Identifier → Db → Db
accepted_db x actor request grant at_ms id db = record db {
  operations = db.operations ++ intent_row x id actor request grant ∷ [];
  events = db.events ++ event_row id (acceptance actor grant at_ms) ∷ [];
}

good_intent :
    (actor : Actor) (request : Request) (grant : Grant) (id : Identifier)
    → grant ≡ record { action = request.action; target = request.target }
    → bad_intent id (intent id actor request grant) ≡ false
unfolding bad_intent
good_intent actor request grant id g = ground arith

acceptance-authentic :
    (actor : Actor) (request : Request) (grant : Grant) (at_ms : ℕ) (id : Identifier)
    → authentic accepted (intent id actor request grant) (some actor.identity) (some grant) ≡ true
acceptance-authentic actor request grant at_ms id = ground arith

acceptance-follows :
    (actor : Actor) (request : Request) (grant : Grant) (at_ms : ℕ) (id : Identifier)
    → follows (intent id actor request grant) (acceptance actor grant at_ms) ≡ true
unfolding follows
acceptance-follows actor request grant at_ms id = ground arith

module _ (x : Externals) (actor : Actor) (request : Request) (grant : Grant) (at_ms : ℕ)
    (id : Identifier) (db : Db) (k : Kept x db)
    (fresh : any (λ r. r.id == id.value) db.operations ≡ false) where
  -- The new operation reads back as its intent and its acceptance.
  pub recorded-accepted :
      grant ≡ record { action = request.action; target = request.target }
      → x.operation_bytes (intent id actor request grant) ≤ 65536
      → x.event_bytes (acceptance actor grant at_ms) ≤ 65536
      → recorded x (accepted_db x actor request grant at_ms id db) id
        ≡ ok (accepted_operation actor request grant at_ms id)
  recorded-accepted g so se =
      let row = event_row id (acceptance actor grant at_ms) in
      let nothing = event_rows-unowned id.value db.operations db.events fresh k.owned in
      let rows : event_rows id.value (db.events ++ row ∷ []) ≡ row ∷ [] =
        event_rows-append id.value row db.events refl (rw nothing tt)
        ∙ ap (λ rs. rs ++ row ∷ []) nothing in
      Found-recorded x _ id (accepted_operation actor request grant at_ms id) (record {
        row = intent_row x id actor request grant;
        intent = intent id actor request grant;
        at_row = operation_row-fresh (intent_row x id actor request grant) db.operations fresh;
        decoded = decode_json x.operation_bytes (intent id actor request grant) so;
        good = good_intent actor request grant id g;
        replayed = rw rows (
            replay-one x (intent id actor request grant) (acceptance actor grant at_ms) id
              (omega arith) (omega arith) (acceptance-authentic actor request grant at_ms id)
              (acceptance-follows actor request grant at_ms id) se);
        begun = refl;
      })

  -- The other operations read as before.
  pub recorded-accepted_other :
      (id' : Identifier) (op : Operation)
      → recorded x db id' ≡ ok op
      → recorded x (accepted_db x actor request grant at_ms id db) id' ≡ ok op
  recorded-accepted_other id' op h =
      let f = recorded-Found x db id' op h in
      let n : id.value ≢ id'.value = λ e.
        let absent : operation_row id'.value db.operations ≡ none =
          operation_row-absent id'.value db.operations (rw (← e) fresh) in
        absurd (cc (absent, f.at_row)) in
      Found-recorded x _ id' op (record {
        row = f.row;
        intent = f.intent;
        at_row =
            operation_row-append id'.value (intent_row x id actor request grant) db.operations n
            ∙ f.at_row;
        decoded = f.decoded;
        good = f.good;
        replayed =
            rw
              (event_rows-append_other id'.value (event_row id (acceptance actor grant at_ms))
                db.events n)
              f.replayed;
        begun = f.begun;
      })

  pub accepted-Grows : Grows x db (accepted_db x actor request grant at_ms id db)
  accepted-Grows = record { at = λ id' op h. (op, recorded-accepted_other id' op h, same) }

  -- The invariant after an acceptance.
  pub accepted-Kept :
      any
          (λ r.
            r.subject == actor.identity.subject.value
            && r.idempotency_key == request.idempotency_key.value)
          db.operations
        ≡ false
      → new_id id.value ≡ ok id
      → recorded x (accepted_db x actor request grant at_ms id db) id
        ≡ ok (accepted_operation actor request grant at_ms id)
      → Kept x (accepted_db x actor request grant at_ms id db)
  accepted-Kept unused is_id reads =
      let o = intent_row x id actor request grant in
      let owner : any (λ r. r.id == id.value) (db.operations ++ o ∷ []) ≡ true =
        any-snoc (λ r. r.id == id.value) db.operations o (==_refl id.value) in
      record {
        matches = All-snoc Matches db.events _ k.matches refl;
        owned =
            All-snoc _ db.events _
              (All-map db.events (λ r h. any-append (λ q. q.id == r.operation_id) db.operations o h)
                k.owned)
              owner;
        readable =
            All-snoc (IsReadable x _) db.operations o
              (All-map db.operations (IsReadable-Grows x accepted-Grows) k.readable)
              (record {
                id = id;
                operation = accepted_operation actor request grant at_ms id;
                is_id = is_id;
                is_value = refl;
                reads = reads;
                subject = refl;
                key = refl;
                print = refl;
              });
        keyed =
            All-snoc (IsKeyed _) db.operations o
              (All-map db.operations
                (λ r h. request_row-append r.subject r.idempotency_key o r db.operations h) k.keyed)
              (request_row-new o db.operations unused);
      }
