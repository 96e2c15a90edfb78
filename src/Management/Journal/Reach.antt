-- ===== src/Management/Journal/Reach.antt =====
-- Every state of the journal of crates/management/src/journal.rs, under any sequence of calls and any
-- behaviour of the storage, the clock and the adapter.
use agent_response_gateway.Base.{◌≡◌, sym, ap, ◌∙◌, some, [], ◌⊎◌, text_eq, ok}
use agent_response_gateway.Management.Contract.{
  Operation, State, state_eq, grant_eq, Identifier, id_eq, Externals, Actor, Request,
}
use agent_response_gateway.Management.Journal.Store.{Db, OperationRow, request_row}
use agent_response_gateway.Management.Journal.Recorded.{recorded}
use agent_response_gateway.Management.Journal.Machine.{Journal}
use agent_response_gateway.Management.Journal.Writer.{execute, reconcile, recover}
use agent_response_gateway.Management.Journal.Growth.{Extends-settled}
use agent_response_gateway.Management.Journal.Replayed.{recorded-Found}
use agent_response_gateway.Management.Journal.Kept.{
  Grows, Grows-trans, Kept, IsReadable, IsKeyed, operation_row-All,
}
use agent_response_gateway.Management.Journal.Triples.{Post-weaken, Post-always}
use agent_response_gateway.Management.Journal.Once.{Fits, Inv, Since}
use agent_response_gateway.Management.Journal.Calls.{ReadAt}
use agent_response_gateway.Management.Journal.Entry.{
  From-refl, execute-Post, reconcile-Post, recover-Post,
}

-- One use of the journal: a request, a reconciliation, or the recovery that `open` runs.
pub data Call (x : Externals) (j : Journal) : Journal → Type 0 where
  executes : (actor : Actor) (request : Request) → Call x j (execute x actor request j).1
  reconciles : (actor : Actor) (target id : Identifier) → Call x j (reconcile x actor target id j).1
  reopens : Call x j (recover x j).1

pub data Reach (x : Externals) (j : Journal) : Journal → Type 0 where
  here : Reach x j j
  next : {k l : Journal} → Reach x j k → Call x k l → Reach x j l

abbrev pub empty_journal : Journal
empty_journal = record { db = record { operations = []; events = [] }; calls = 0; effects = [] }

module _ (x : Externals) (fits : Fits x) where
  pub Call-From : {j k : Journal} → Call x j k → Inv x j.db j.effects → Since x j.db k
  Call-From {j} (executes actor request) h = Post-always (Since x j.db) _ (
      Post-weaken (λ _. Since x j.db) (Since x j.db) (ReadAt x fits j.db) (Since x j.db) _
        (execute-Post x fits j.db actor request j (From-refl x j h)) (λ op k r. r.since) (λ k e. e))
  Call-From {j} (reconciles actor target id) h =
      Post-always (Since x j.db) _ (reconcile-Post x fits j.db actor target id j (From-refl x j h))
  Call-From {j} reopens h =
      Post-always (Since x j.db) _ (recover-Post x fits j.db j (From-refl x j h))

  Reach-From : {j k : Journal} → Reach x j k → Inv x j.db j.effects → Since x j.db k
  Reach-From {j} here h = From-refl x j h
  Reach-From (next r c) h =
      let before = Reach-From r h in
      let after = Call-From c before.inv in
      record { inv = after.inv; grows = Grows-trans x before.grows after.grows }

  empty-Inv : Inv x empty_journal.db empty_journal.effects
  empty-Inv = record {
    kept = record { matches = tt; owned = tt; readable = tt; keyed = tt };
    distinct = tt;
    begun = tt;
  }

  -- After any calls on a new journal, in any order and with any failures of the storage, the clock
  -- and the adapter, every operation in the tables reads back, no operation's effect has been
  -- applied twice, and each that was applied is recorded as past its acceptance.
  pub Reach-Inv : {j : Journal} → Reach x empty_journal j → Inv x j.db j.effects
  Reach-Inv r = (Reach-From r empty-Inv).inv

  -- Between two states of a journal, the later reached from the earlier by any calls, every operation
  -- that could be read can still be read, with the same intent and with only valid events added.
  pub Reach-Grows : {j k : Journal} → Reach x empty_journal j → Reach x j k → Grows x j.db k.db
  Reach-Grows r s = (Reach-From s (Reach-Inv r)).grows

  -- The row of a recorded operation is the only one of its subject and its idempotency key.
  row_of :
      (db : Db) (k : Kept x db) (id : Identifier) (op : Operation)
      → recorded x db id ≡ ok op
      → (row : OperationRow) × (row.id ≡ id.value)
        × (request_row op.actor.subject.value op.request.idempotency_key.value db.operations
            ≡ some row)
  row_of db k id op h =
      let f = recorded-Found x db id op h in
      let (readable, is_id) =
        operation_row-All (IsReadable x db) id.value db.operations f.row k.readable f.at_row in
      let keyed =
        (operation_row-All (IsKeyed db.operations) id.value db.operations f.row k.keyed
          f.at_row).0 in
      let same_id : readable.id ≡ id = λ i. record { value = (readable.is_value ∙ is_id) i } in
      let reads : recorded x db id ≡ ok readable.operation = rw (← same_id) readable.reads in
      let eo : readable.operation ≡ op = cc in
      (f.row, is_id, rw (← eo, ← readable.subject, ← readable.key) keyed)

  -- Two operations of one subject and one idempotency key are one operation, so with Reach-Inv the
  -- effect of a request is applied at most once, however often it is sent.
  pub one_per_key :
      {j : Journal} (r : Reach x empty_journal j) (a b : Identifier) (o p : Operation)
      → recorded x j.db a ≡ ok o
      → recorded x j.db b ≡ ok p
      → o.actor.subject ≡ p.actor.subject
      → o.request.idempotency_key ≡ p.request.idempotency_key
      → a ≡ b
  one_per_key {j} r a b o p ha hb subject key =
      let kept = (Reach-Inv r).kept in
      let (q, qa, qr) = row_of j.db kept a o ha in
      let (t, tb, tr) = row_of j.db kept b p hb in
      let tr' : request_row o.actor.subject.value o.request.idempotency_key.value j.db.operations
          ≡ some t =
        rw (subject, key) tr in
      let e : q ≡ t = cc in
      let v : a.value ≡ b.value = sym qa ∙ ap (λ (w : OperationRow). w.id) e ∙ tb in
      λ i. record { value = v i }

  -- Whatever is called, the record of an operation that has succeeded or failed stays as it is.
  pub settled_stays :
      {j k : Journal} (r : Reach x empty_journal j) (s : Reach x j k) (id : Identifier)
      (op : Operation)
      → recorded x j.db id ≡ ok op
      → (op.state ≡ State.succeeded) ⊎ (op.state ≡ State.failed)
      → recorded x k.db id ≡ ok op
  settled_stays r s id op h settled =
      let (op', h', e) = (Reach-Grows r s).at id op h in rw (← Extends-settled e settled) h'
