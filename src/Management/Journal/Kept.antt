-- ===== src/Management/Journal/Kept.antt =====
-- The invariant of the database of crates/management/src/journal.rs, and the relation of its growth.
use mathlib.Core.Path.{subst}
use agent_response_gateway.Base.{
  ◌≡◌, refl, ◌∙◌, arith, true, false, ◌&&◌, some, List, [], ◌∷◌, ◌++◌, ◌==◌, eq_of_==, Bool-cases,
  inl, inr, text_eq, Text, any, All, ok,
}
use agent_response_gateway.Management.Contract.{
  Event, Operation, Identifier, new_id, Externals, fingerprint,
}
use agent_response_gateway.Management.Journal.Store.{Db, OperationRow, operation_row, request_row}
use agent_response_gateway.Management.Journal.Recorded.{recorded, extended, valid_next}
use agent_response_gateway.Management.Journal.Writer.{event_row}
use agent_response_gateway.Management.Journal.Growth.{
  Extends, same, event, Extends-trans, Extends-intent,
}
use agent_response_gateway.Management.Journal.Replayed.{Matches, recorded-append_other}

pub All-map :
    {A : Type 0} {P Q : A → Type 0} (xs : List A) → ((a : A) → P a → Q a) → All P xs → All Q xs
All-map [] f h = tt
All-map (x ∷ xs) f h = (f x h.0, All-map xs f h.1)

pub All-snoc :
    {A : Type 0} (P : A → Type 0) (xs : List A) (a : A) → All P xs → P a → All P (xs ++ a ∷ [])
All-snoc P [] a h p = (p, tt)
All-snoc P (x ∷ xs) a h p = (h.0, All-snoc P xs a h.1 p)

-- The only row of its subject and idempotency key.
abbrev pub IsKeyed : List OperationRow → OperationRow → Type 0
IsKeyed rows row = request_row row.subject row.idempotency_key rows ≡ some row

pub request_row-append :
    (subject key : Text) (o row : OperationRow) (rows : List OperationRow)
    → request_row subject key rows ≡ some row
    → request_row subject key (rows ++ o ∷ []) ≡ some row
unfolding request_row
request_row-append subject key o row [] h = cc
request_row-append subject key o row (r ∷ rows) h =
    ground (arith, request_row-append subject key o row rows)

pub request_row-new :
    (o : OperationRow) (rows : List OperationRow)
    → any (λ r. r.subject == o.subject && r.idempotency_key == o.idempotency_key) rows ≡ false
    → request_row o.subject o.idempotency_key (rows ++ o ∷ []) ≡ some o
unfolding request_row
request_row-new o [] h = ground arith
request_row-new o (r ∷ rows) h = ground (arith, request_row-new o rows)

-- What holds of every row holds of the one that is found.
pub operation_row-All :
    (P : OperationRow → Type 0) (id : Text) (rows : List OperationRow) (row : OperationRow)
    → All P rows
    → operation_row id rows ≡ some row
    → P row × (row.id ≡ id)
unfolding operation_row
operation_row-All P id [] row h f = absurd (cc)
operation_row-All P id (r ∷ rows) row h f = elim (Bool-cases (r.id == id)) [
  | inl own ↦
      let f' : some r ≡ some row = rw own at f in
      let e : r ≡ row = cc in (subst P e h.0, rw (← e) (eq_of_== r.id id own))
  | inr other ↦
      let f' : operation_row id rows ≡ some row = rw other at f in
      operation_row-All P id rows row h.1 f'
]

module _ (x : Externals) where
  -- Each operation that could be read can be read, and has only grown.
  pub record Grows (db db' : Db) : Type 0 where
    pub at :
        (id : Identifier) (op : Operation)
        → recorded x db id ≡ ok op
        → (op' : Operation) × (recorded x db' id ≡ ok op') × Extends op op'

  pub Grows-refl : (db : Db) → Grows db db
  Grows-refl db = record { at = λ id op h. (op, h, same) }

  pub Grows-trans : {a b c : Db} → Grows a b → Grows b c → Grows a c
  Grows-trans g h = record {
    at = λ id op r.
        let (op1, r1, e1) = g.at id op r in
        let (op2, r2, e2) = h.at id op1 r1 in (op2, r2, Extends-trans e1 e2);
  }

  -- The row of an operation can be read, and shows whose request it is.
  pub record IsReadable (db : Db) (row : OperationRow) : Type 0 where
    pub id : Identifier
    pub operation : Operation
    pub is_id : new_id row.id ≡ ok id
    pub is_value : id.value ≡ row.id
    pub reads : recorded x db id ≡ ok operation
    pub subject : row.subject ≡ operation.actor.subject.value
    pub key : row.idempotency_key ≡ operation.request.idempotency_key.value
    pub print : row.fingerprint ≡ (fingerprint x operation.request).value

  pub record Kept (db : Db) : Type 0 where
    pub matches : All Matches db.events
    pub owned : All (λ r. any (λ o. o.id == r.operation_id) db.operations ≡ true) db.events
    pub readable : All (IsReadable db) db.operations
    pub keyed : All (IsKeyed db.operations) db.operations

  pub IsReadable-Grows :
      {db db' : Db} → Grows db db' → (row : OperationRow) → IsReadable db row → IsReadable db' row
  IsReadable-Grows g row r =
      let (op', reads, e) = g.at r.id r.operation r.reads in
      let (same_id, actor, grant, request) = Extends-intent e in
      record {
        id = r.id;
        operation = op';
        is_id = r.is_id;
        is_value = r.is_value;
        reads = reads;
        subject = rw actor r.subject;
        key = rw request r.key;
        print = rw request r.print;
      }

  module _ (db : Db) (id : Identifier) (before : Operation) (e : Event)
      (h : recorded x db id ≡ ok before) (k : Kept db) where
    abbrev db_with : Db
    db_with = record db { events = db.events ++ event_row id e ∷ [] }

    -- A valid event is added to its operation and to no other.
    pub event-Grows :
        recorded x db_with id ≡ ok (extended before e)
        → valid_next before.state e.phase e.state e.effect ≡ true
        → Grows db db_with
    event-Grows added v = record {
      at = λ id' op r. elim (text_eq.dec id.value id'.value) [
        | yes p ↦
            let q : id ≡ id' = λ i. record { value = p i } in
            let r' : recorded x db id ≡ ok op = rw q r in
            let eo : before ≡ op = cc in
            (extended before e, rw (← q) added, rw (← eo) (event e same v))
        | no n ↦ (op, recorded-append_other x db id' (event_row id e) n ∙ r, same)
      ];
    }

    pub event-Kept :
        Grows db db_with → any (λ o. o.id == id.value) db.operations ≡ true → Kept db_with
    event-Kept g owner = record {
      matches = All-snoc Matches db.events _ k.matches refl;
      owned = All-snoc _ db.events _ k.owned owner;
      readable = All-map db.operations (IsReadable-Grows g) k.readable;
      keyed = k.keyed;
    }
