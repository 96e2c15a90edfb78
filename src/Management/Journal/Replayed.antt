-- ===== src/Management/Journal/Replayed.antt =====
-- The replay of events by `recorded` of crates/management/src/journal.rs, and one more row.
use agent_response_gateway.Base.{
  ℕ, ◌+◌, ◌≤◌, ◌<◌, ◌≡◌, ◌≢◌, refl, sym, ◌∙◌, arith, true, false, some, List, [], ◌∷◌, ◌++◌, nat_eq,
  text_eq, length, length-append, is_empty, All, ok, ok_or, reject_if, ◌>>=◌, >>=-eq-ok, bind_assoc,
  ok_or-eq_ok, reject_if-eq_ok,
}
use agent_response_gateway.Management.Contract.{
  not_found, invalid_store, Event, Operation, state_eq, Identifier, id_eq, Externals,
}
use agent_response_gateway.Management.Journal.Store.{
  Db, EventRow, OperationRow, Document, json, garbage, decode, event_rows, operation_row,
}
use agent_response_gateway.Management.Journal.Recorded.{
  recorded, replay, check_event, extended, bad_intent, follows, valid_next, authentic, max_events,
}
use agent_response_gateway.Management.Journal.Rows.{
  Below, event_rows-All, event_rows-append, event_rows-append_other,
}

-- The row of an event carries the event's own number.
abbrev pub Matches : EventRow → Type 0
Matches row = elim row.event [ json e ↦ e.sequence ≡ row.sequence | garbage ↦ ⊥ ]

Matches-json :
    (row : EventRow) (e : Event) → row.event ≡ json e → Matches row → e.sequence ≡ row.sequence
Matches-json row e d m = rw d at m

decode_lem :
    {A : Type 0} (size : A → ℕ) (d : Document A) (a : A) → decode size d ≡ ok a → d ≡ json a
unfolding decode
decode_lem size d a h = ground arith

pub decode_json : {A : Type 0} (size : A → ℕ) (a : A) → size a ≤ 65536 → decode size (json a) ≡ ok a
unfolding decode
decode_json size a h = ground arith

All-Below :
    (row : EventRow) (n : ℕ) (rows : List EventRow)
    → n < row.sequence
    → All (λ r. r.sequence ≤ n) rows
    → All (Below row) rows
All-Below row n [] h a = tt
All-Below row n (r ∷ rows) h a = (omega arith, All-Below row n rows h a.1)

is_empty-append : (es : List Event) (e : Event) → is_empty (es ++ e ∷ []) ≡ false
is_empty-append [] e = refl
is_empty-append (_ ∷ es) e = refl

follows-begun :
    (op : Operation) (e : Event)
    → is_empty op.events ≡ false
    → valid_next op.state e.phase e.state e.effect ≡ true
    → follows op e ≡ true
unfolding follows
follows-begun op e b v = rw (b, follows) v

check_event_lem :
    (op : Operation) (e : Event) (o : Operation)
    → check_event op e ≡ ok o
    → (e.sequence ≡ length op.events + 1) × (o ≡ extended op e)
unfolding check_event
check_event_lem op e o h = ground arith

check_event-valid :
    (op : Operation) (e : Event)
    → e.sequence ≡ length op.events + 1
    → e.sequence ≤ max_events
    → authentic e.phase op e.actor e.authorization ≡ true
    → follows op e ≡ true
    → check_event op e ≡ ok (extended op e)
unfolding check_event
check_event-valid op e n b a v = ground arith

module _ (x : Externals) where
  -- What a read of an operation has found.
  pub record Found (db : Db) (id : Identifier) (operation : Operation) : Type 0 where
    pub row : OperationRow
    pub intent : Operation
    pub at_row : operation_row id.value db.operations ≡ some row
    pub decoded : decode x.operation_bytes row.intent ≡ ok intent
    pub good : bad_intent id intent ≡ false
    pub replayed : replay x intent (event_rows id.value db.events) ≡ ok operation
    pub begun : is_empty operation.events ≡ false

  pub recorded-Found :
      (db : Db) (id : Identifier) (operation : Operation)
      → recorded x db id ≡ ok operation
      → Found db id operation
  unfolding recorded
  recorded-Found db id operation h =
      let (row, a, h1) = >>=-eq-ok (ok_or (operation_row id.value db.operations) not_found) _ h in
      let (intent, b, h2) = >>=-eq-ok (decode x.operation_bytes row.intent) _ h1 in
      let (u, c, h3) = >>=-eq-ok (reject_if (bad_intent id intent) invalid_store) _ h2 in
      let (op, d, h4) = >>=-eq-ok (replay x intent (event_rows id.value db.events)) _ h3 in
      let (w, e, h5) = >>=-eq-ok (reject_if (is_empty op.events) invalid_store) _ h4 in
      let same_op : op ≡ operation = cc in
      record {
        row = row;
        intent = intent;
        at_row = ok_or-eq_ok _ _ a;
        decoded = b;
        good = reject_if-eq_ok _ _ c;
        replayed = rw (← same_op) d;
        begun = rw (← same_op) (reject_if-eq_ok _ _ e);
      }

  pub Found-recorded :
      (db : Db) (id : Identifier) (operation : Operation)
      → Found db id operation
      → recorded x db id ≡ ok operation
  unfolding recorded
  Found-recorded db id operation f = rw (f.at_row, f.decoded, f.good, f.replayed, f.begun) refl

  replay_nil : (op op' : Operation) → replay x op [] ≡ ok op' → length op.events ≤ length op'.events
  unfolding replay
  replay_nil op op' h = let e : op ≡ op' = cc in rw e (omega arith)

  replay-append :
      (op : Operation) (rows : List EventRow) (row : EventRow)
      → replay x op (rows ++ row ∷ []) ≡ (replay x op rows >>= λ o. replay x o (row ∷ []))
  unfolding replay
  replay-append op [] row = refl
  replay-append op (r ∷ rows) row =
      (λ i.
        decode x.event_bytes r.event >>= λ e. check_event op e >>= λ o. replay-append o rows row i)
      ∙ (λ i. decode x.event_bytes r.event >>= λ e.
          sym (bind_assoc (check_event op e) (λ o. replay x o rows) (λ o. replay x o (row ∷ []))) i)
      ∙ sym (
          bind_assoc (decode x.event_bytes r.event) (λ e. check_event op e >>= λ o. replay x o rows)
            (λ o. replay x o (row ∷ [])))

  -- What a checked event is.
  pub replay-cons :
      (op op' : Operation) (r : EventRow) (rows : List EventRow)
      → replay x op (r ∷ rows) ≡ ok op'
      → (e : Event) × (r.event ≡ json e)
        × (e.sequence ≡ length op.events + 1)
        × (replay x (extended op e) rows ≡ ok op')
  unfolding replay
  replay-cons op op' r rows h =
      let (e, d, h1) = >>=-eq-ok (decode x.event_bytes r.event) _ h in
      let (o, c, h2) = >>=-eq-ok (check_event op e) _ h1 in
      let (n, eo) = check_event_lem op e o c in
      (e, decode_lem x.event_bytes r.event e d, n, rw (← eo) h2)

  replay-grows :
      (op op' : Operation) (rows : List EventRow)
      → replay x op rows ≡ ok op'
      → length op.events ≤ length op'.events
  replay-grows op op' [] h = replay_nil op op' h
  replay-grows op op' (r ∷ rows) h =
      let (e, d, n, h') = replay-cons op op' r rows h in
      omega (arith, replay-grows (extended op e) op' rows h', length-append op.events (e ∷ []))

  replay-numbered :
      (op op' : Operation) (rows : List EventRow)
      → replay x op rows ≡ ok op'
      → All Matches rows
      → All (λ r. r.sequence ≤ length op'.events) rows
  replay-numbered op op' [] h m = tt
  replay-numbered op op' (r ∷ rows) h m =
      let (e, d, n, h') = replay-cons op op' r rows h in
      let number = Matches-json r e d m.0 in
      let grown = replay-grows (extended op e) op' rows h' in
      (
        omega (arith, length-append op.events (e ∷ [])),
        replay-numbered (extended op e) op' rows h' m.1,
      )

  pub replay-one :
      (op : Operation) (e : Event) (id : Identifier)
      → e.sequence ≡ length op.events + 1
      → e.sequence ≤ max_events
      → authentic e.phase op e.actor e.authorization ≡ true
      → follows op e ≡ true
      → x.event_bytes e ≤ 65536
      → replay x op (record { operation_id = id.value; sequence = e.sequence; event = json e } ∷ [])
        ≡ ok (extended op e)
  unfolding replay
  replay-one op e id n b a v s =
      rw (decode_json x.event_bytes e s, check_event-valid op e n b a v) refl

  -- One more event row, of the next number and valid, is one more event.
  pub recorded-append :
      (db : Db) (id : Identifier) (before : Operation) (e : Event)
      → recorded x db id ≡ ok before
      → All Matches db.events
      → e.sequence ≡ length before.events + 1
      → e.sequence ≤ max_events
      → authentic e.phase before e.actor e.authorization ≡ true
      → valid_next before.state e.phase e.state e.effect ≡ true
      → x.event_bytes e ≤ 65536
      → recorded x
          (record db {
            events =
                db.events
                ++ (record { operation_id = id.value; sequence = e.sequence; event = json e }) ∷ [];
          })
          id
        ≡ ok (extended before e)
  recorded-append db id before e h m n b a v s =
      let f = recorded-Found db id before h in
      let row : EventRow = record {
        operation_id = id.value;
        sequence = e.sequence;
        event = json e;
      } in
      let numbered =
        replay-numbered f.intent before (event_rows id.value db.events) f.replayed
          (event_rows-All Matches id.value db.events m) in
      let below =
        All-Below row (length before.events) (event_rows id.value db.events) (omega arith)
          numbered in
      Found-recorded _ id (extended before e) (record {
        row = f.row;
        intent = f.intent;
        at_row = f.at_row;
        decoded = f.decoded;
        good = f.good;
        replayed = rw (event_rows-append id.value row db.events refl below) (
            rw (replay-append f.intent (event_rows id.value db.events) row, f.replayed)
              (replay-one before e id n b a (follows-begun before e f.begun v) s));
        begun = is_empty-append before.events e;
      })

  -- The events of other operations are not touched.
  pub recorded-append_other :
      (db : Db) (id : Identifier) (row : EventRow)
      → row.operation_id ≢ id.value
      → recorded x (record db { events = db.events ++ row ∷ [] }) id ≡ recorded x db id
  unfolding recorded
  recorded-append_other db id row n = simp (event_rows-append_other id.value row db.events n)
