-- ===== src/Management/Journal/Calls.antt =====
-- The calls of crates/management/src/journal.rs, whatever fails on the way, and the invariant of Once.
use agent_response_gateway.Base.{
  ℕ, ◌+◌, ◌≡◌, refl, ◌∙◌, arith, true, false, ◌&&◌, none, some, ◌∷◌, ◌==◌, ◌!=◌, Bool-cases,
  Option-cases, Result-split, inl, inr, text_eq, Text, ok,
}
use agent_response_gateway.Base.Tables.{contains}
use agent_response_gateway.Management.Contract.{
  Error, Operation, State, state_eq, state_of, started, finished, Identifier, id_eq, new_id,
  Externals, Identity, Grant, identity_eq, Actor, Action, Request, Prepared, snapshot_eq, authorize,
}
use agent_response_gateway.Management.Journal.Store.{Db}
use agent_response_gateway.Management.Journal.Recorded.{recorded, extended}
use agent_response_gateway.Management.Journal.Machine.{Journal, called, query, or_error, pure}
use agent_response_gateway.Management.Journal.Writer.{
  append, accept, finish_effect, start_effect, execute_new, event_row, intent_row, acceptance,
  insert_accepted,
}
use agent_response_gateway.Management.Journal.Accepted.{
  accepted_db, accepted_operation, accepted-Grows, accepted-Kept, recorded-accepted,
  insert_accepted_lem, any-left, any-right,
}
use agent_response_gateway.Management.Journal.Triples.{
  Post, Written, continue-Post, commit-Post, or_error-Post,
}
use agent_response_gateway.Management.Journal.Once.{
  Fits, From, Since, From-Grows, Done, append-Post, queued-not_applied, HasBegun,
}

pub authorize_lem :
    (actor : Actor) (action : Action) (target : Identifier) (g : Grant)
    → authorize actor action target ≡ ok g
    → g ≡ record { action = action; target = target }
unfolding authorize
authorize_lem actor action target g h = ground arith

new_id_lem : (text : Text) (id : Identifier) → new_id text ≡ ok id → id ≡ record { value = text }
unfolding new_id
new_id_lem text id h = ground arith

new_id-value : (text : Text) (id : Identifier) → new_id text ≡ ok id → new_id id.value ≡ ok id
new_id-value text id h = let e = new_id_lem text id h in rw e (rw e at h)

pub ==_true : (i : Identity) → ((i == i) && true) ≡ true
==_true i = ground arith

module _ (x : Externals) (fits : Fits x) (start : Db) where
  -- After the acceptance of a request.
  pub record AcceptedAt (actor : Actor) (id : Identifier) (j : Journal) : Type 0 where
    pub since : Since x start j
    pub operation : Operation
    pub reads : recorded x j.db id ≡ ok operation
    pub is_actor : operation.actor ≡ actor.identity
    pub is_queued : operation.state ≡ State.queued

  accepted-AcceptedAt :
      (actor : Actor) (request : Request) (grant : Grant) (at_ms : ℕ) (text : Text)
      (id : Identifier) (j j' : Journal) (db : Db)
      → Since x start j
      → grant ≡ record { action = request.action; target = request.target }
      → new_id text ≡ ok id
      → insert_accepted
          (intent_row x id actor request grant)
          (event_row id (acceptance actor grant at_ms))
          j.db
        ≡ ok db
      → j'.db ≡ db
      → j'.effects ≡ j.effects
      → AcceptedAt actor id j'
  accepted-AcceptedAt actor request grant at_ms text id j j' db s g n i is_db is_effects =
      let (e, unused) =
        insert_accepted_lem (intent_row x id actor request grant)
          (event_row id (acceptance actor grant at_ms)) j.db db i in
      let fresh =
        any-left (λ r. r.id == id.value)
          (λ r.
            r.subject == actor.identity.subject.value
            && r.idempotency_key == request.idempotency_key.value)
          j.db.operations unused in
      let unkeyed =
        any-right (λ r. r.id == id.value)
          (λ r.
            r.subject == actor.identity.subject.value
            && r.idempotency_key == request.idempotency_key.value)
          j.db.operations unused in
      let reads =
        recorded-accepted x actor request grant at_ms id j.db s.inv.kept fresh g
          (fits.operation _ refl) (fits.event _) in
      let grows = accepted-Grows x actor request grant at_ms id j.db s.inv.kept fresh in
      let kept =
        accepted-Kept x actor request grant at_ms id j.db s.inv.kept fresh unkeyed
          (new_id-value text id n) reads in
      let from : From x start (accepted_db x actor request grant at_ms id j.db) j.effects =
        From-Grows x s grows kept in
      let full : j'.db ≡ accepted_db x actor request grant at_ms id j.db = is_db ∙ e in
      record {
        since = rw (full, is_effects) from;
        operation = accepted_operation actor request grant at_ms id;
        reads = rw full reads;
        is_actor = refl;
        is_queued = refl;
      }

  accept-Post :
      (actor : Actor) (request : Request) (grant : Grant) (j : Journal)
      → Since x start j
      → grant ≡ record { action = request.action; target = request.target }
      → Post (AcceptedAt actor) (Since x start) (accept x actor request grant j)
  unfolding accept
  accept-Post actor request grant j s g = elim (Result-split (new_id (x.uuid j.calls))) [
    | inr (e, bad) ↦ rw bad s
    | inl (id, n) ↦ rw n (elim (Option-cases (x.now (j.calls + 1))) [
      | inl no_time ↦ rw no_time s
      | inr (ms, t) ↦ rw t (
          let statements =
            insert_accepted (intent_row x id actor request grant)
              (event_row id (acceptance actor grant ms)) in
          continue-Post (Written (called (called j)) statements) (AcceptedAt actor) (Since x start)
            (λ _. pure id) _
            (commit-Post x (Since x start) (called (called j)) s statements (λ db inserted.
              (accepted-AcceptedAt actor request grant ms (x.uuid j.calls) id j
                (record (called (called (called j))) { db = db }) db s g n inserted refl
                refl).since))
            (λ _ j' (db, inserted, e). rw e (
              accepted-AcceptedAt actor request grant ms (x.uuid j.calls) id j _ db s g n inserted
                refl refl)))
    ])
  ]

  -- What a successful call returns is what is recorded.
  pub record ReadAt (op : Operation) (j : Journal) : Type 0 where
    pub since : Since x start j
    pub id : Identifier
    pub reads : recorded x j.db id ≡ ok op

  recorded-ReadAt :
      (id : Identifier) (e : Error) (j : Journal)
      → Since x start j
      → Post ReadAt (Since x start) (or_error e (query (λ db. recorded x db id)) j)
  recorded-ReadAt id e j s = elim (Result-split (recorded x j.db id)) [
    | inl (op, h) ↦ rw h (record { since = s; id = id; reads = h })
    | inr (f, h) ↦ rw h s
  ]

  -- The effect, for an operation whose start is recorded.
  finish_effect-Post :
      (actor : Actor) (prepared : Prepared) (id : Identifier) (op : Operation) (j : Journal)
      → Since x start j
      → recorded x j.db id ≡ ok op
      → op.actor ≡ actor.identity
      → op.state ≡ State.running
      → contains id j.effects ≡ false
      → Post ReadAt (Since x start) (finish_effect x actor prepared id j)
  unfolding finish_effect
  finish_effect-Post actor prepared id op j s h a r n =
      let j1 : Journal = record j { effects = id ∷ j.effects } in
      let begun : HasBegun x j.db id = record {
        operation = op;
        reads = h;
        past = λ q. absurd (cc);
      } in
      let s1 : Since x start j1 = record {
        inv = record {
          kept = s.inv.kept;
          distinct = (n, s.inv.distinct);
          begun = (begun, s.inv.begun);
        };
        grows = s.grows;
      } in
      let effect = prepared.apply in
      let Q = Done x fits start j1 id op s1 h finished (state_of effect) (some effect) in
      continue-Post Q ReadAt (Since x start)
        (λ _. or_error (Error.uncertain id) (query (λ db. recorded x db id))) _
        (or_error-Post Q (Since x start) (Error.uncertain id)
          (append x id (some actor.identity) finished (state_of effect) (some effect)) j1
          (append-Post x fits start j1 id op s1 h (some actor.identity) finished (state_of effect)
            (some effect) (rw a (==_true actor.identity))))
        (λ _ j' ap. recorded-ReadAt id (Error.uncertain id) j' ap.since)

  start_effect-Post :
      (actor : Actor) (prepared : Prepared) (id : Identifier) (j : Journal)
      → AcceptedAt actor id j
      → Post ReadAt (Since x start) (start_effect x actor prepared id j)
  unfolding start_effect
  start_effect-Post actor prepared id j acc =
      let op = acc.operation in
      let s = acc.since in
      continue-Post (Done x fits start j id op s acc.reads started State.running none) ReadAt
        (Since x start) (λ _. finish_effect x actor prepared id) _
        (append-Post x fits start j id op s acc.reads (some actor.identity) started State.running
          none (rw acc.is_actor (==_true actor.identity)))
        (λ _ j' ap.
          finish_effect-Post actor prepared id (extended op ap.event) j' ap.since ap.reads
            acc.is_actor ap.is_state
            (rw ap.effects
              (queued-not_applied x j.db id op j.effects acc.reads acc.is_queued s.inv.begun)))

  pub execute_new-Post :
      (actor : Actor) (request : Request) (grant : Grant) (j : Journal)
      → Since x start j
      → grant ≡ record { action = request.action; target = request.target }
      → Post ReadAt (Since x start) (execute_new x actor request grant j)
  unfolding execute_new
  execute_new-Post actor request grant j s g = elim (Result-split (x.prepare j.calls request)) [
    | inr (e, h) ↦ rw h s
    | inl (prepared, h) ↦ rw h (elim (Bool-cases (prepared.before != request.expected)) [
      | inl moved ↦ rw moved s
      | inr still ↦ rw still (
          continue-Post (AcceptedAt actor) ReadAt (Since x start)
            (λ id. start_effect x actor prepared id) _
            (accept-Post actor request grant (called j) s g)
            (λ id j' acc. start_effect-Post actor prepared id j' acc))
    ])
  ]
