-- ===== src/Management/Journal/Entry.antt =====
-- `execute`, `reconcile` and `recover` of crates/management/src/journal.rs, and the invariant of Once.
use agent_response_gateway.Base.{
  ◌≡◌, refl, arith, true, ◌&&◌, some, List, [], ◌∷◌, ◌==◌, ◌!=◌, Bool-cases, Option-cases,
  Result-split, inl, inr, Text, text_eq, ok,
}
use agent_response_gateway.Management.Contract.{
  Operation, State, state_eq, state_of, reconciled, grant_eq, Identifier, id_eq, new_id, Externals,
  Actor, Action, Request, authorize, validate_request, fingerprint,
}
use agent_response_gateway.Management.Journal.Store.{Db, request_row}
use agent_response_gateway.Management.Journal.Recorded.{recorded, reconcile_grant}
use agent_response_gateway.Management.Journal.Machine.{Journal, called, query}
use agent_response_gateway.Management.Journal.Writer.{
  resolve, settle_interrupted, execute, reconcile, settle_all, recover, unsettled,
}
use agent_response_gateway.Management.Journal.Kept.{Grows-refl}
use agent_response_gateway.Management.Journal.Triples.{Post, continue-Post, Post-weaken}
use agent_response_gateway.Management.Journal.Once.{Fits, Inv, Since, Done, append-Post}
use agent_response_gateway.Management.Journal.Calls.{authorize_lem, ReadAt, execute_new-Post}
use agent_response_gateway.Management.Journal.Settling.{SettledAt, settle_interrupted-Post}

module _ (x : Externals) where
  pub From-refl : (j : Journal) → Inv x j.db j.effects → Since x j.db j
  From-refl j h = record { inv = h; grows = Grows-refl x j.db }

own_grant : (op : Operation) → (true && (reconcile_grant op == reconcile_grant op)) ≡ true
own_grant op = ground arith

read_only :
    (x : Externals) (id : Identifier) (j : Journal)
    → Post (λ _ j'. j' ≡ j) (λ j'. j' ≡ j) (query (λ db. recorded x db id) j)
read_only x id j = elim (Result-split (recorded x j.db id)) [
  | inl (op, h) ↦ rw h refl
  | inr (e, h) ↦ rw h refl
]

module _ (x : Externals) (fits : Fits x) (start : Db) where
  -- An operation that was settled again is what is recorded.
  settled-Post :
      (id : Identifier) (j : Journal)
      → Since x start j
      → Post (ReadAt x fits start) (Since x start) (settle_interrupted x id j)
  settled-Post id j s =
      Post-weaken (ReadAt x fits start) (Since x start) (SettledAt x fits start id j.effects)
        (Since x start) _ (settle_interrupted-Post x fits start j id s)
        (λ op j' st. record { since = st.since; id = id; reads = st.reads }) (λ j' e. e)

  pub execute-Post :
      (actor : Actor) (request : Request) (j : Journal)
      → Since x start j
      → Post (ReadAt x fits start) (Since x start) (execute x actor request j)
  unfolding execute
  execute-Post actor request j s = elim (Result-split (validate_request request)) [
    | inr (e, bad) ↦ rw bad s
    | inl (u, good) ↦ rw good (elim (Result-split (authorize actor request.action request.target)) [
      | inr (e, denied) ↦ rw denied s
      | inl (grant, granted) ↦
          rw granted
            (elim (Option-cases (
              request_row actor.identity.subject.value request.idempotency_key.value
                j.db.operations)) [
                  | inl absent ↦ rw absent (
                      execute_new-Post x fits start actor request grant j s
                        (authorize_lem actor request.action request.target grant granted))
                  | inr (row, present) ↦
                      rw present
                        (elim (Bool-cases (row.fingerprint != (fingerprint x request).value)) [
                          | inl other ↦ rw other s
                          | inr print ↦ rw print (elim (Result-split (new_id row.id)) [
                            | inr (e, bad) ↦ rw bad s
                            | inl (id, is_id) ↦ rw is_id (elim (Result-split (recorded x j.db id)) [
                              | inr (e, unread) ↦ rw unread s
                              | inl (op, reads) ↦ rw reads (settled-Post op.id j s)
                            ])
                          ])
                        ])
                ])
    ])
  ]

  resolve-Post :
      (actor : Actor) (id : Identifier) (op : Operation) (j : Journal)
      → Since x start j
      → recorded x j.db id ≡ ok op
      → Post (λ _. Since x start) (Since x start) (resolve x actor id op j)
  unfolding resolve
  resolve-Post actor id op j s h = elim (Bool-cases (op.state != State.uncertain)) [
    | inl known ↦ rw known s
    | inr unknown ↦ rw unknown (elim (Result-split (x.reconcile j.calls op)) [
      | inr (e, failed) ↦ rw failed s
      | inl (effect, answered) ↦ rw answered (
          continue-Post
            (Done x fits start (called j) id op s h reconciled (state_of effect) (some effect))
            (λ _. Since x start) (Since x start) (λ _. query (λ db. recorded x db id)) _
            (append-Post x fits start (called j) id op s h (some actor.identity) reconciled
              (state_of effect) (some effect) (own_grant op))
            (λ _ j' ap.
              Post-weaken (λ _. Since x start) (Since x start) (λ _ j''. j'' ≡ j') (λ j''. j'' ≡ j')
                _ (read_only x id j') (λ _ j'' e. rw e ap.since) (λ j'' e. rw e ap.since)))
    ])
  ]

  pub reconcile-Post :
      (actor : Actor) (target id : Identifier) (j : Journal)
      → Since x start j
      → Post (λ _. Since x start) (Since x start) (reconcile x actor target id j)
  unfolding reconcile
  reconcile-Post actor target id j s =
      elim (Result-split (authorize actor Action.reconcile target)) [
        | inr (e, denied) ↦ rw denied s
        | inl (grant, granted) ↦ rw granted (elim (Result-split (recorded x j.db id)) [
          | inr (e, unread) ↦ rw unread s
          | inl (op, reads) ↦ rw reads (elim (Bool-cases (op.request.target != target)) [
            | inl other ↦ rw other s
            | inr own ↦ rw own (
                continue-Post (SettledAt x fits start id j.effects) (λ _. Since x start)
                  (Since x start) (λ settled. resolve x actor id settled) _
                  (settle_interrupted-Post x fits start j id s)
                  (λ settled j' st. resolve-Post actor id settled j' st.since st.reads))
          ])
        ])
      ]

  settle_all-Post :
      (texts : List Text) (j : Journal)
      → Since x start j
      → Post (λ _. Since x start) (Since x start) (settle_all x texts j)
  unfolding settle_all
  settle_all-Post [] j s = s
  settle_all-Post (text ∷ texts) j s = elim (Result-split (new_id text)) [
    | inr (e, bad) ↦ rw bad s
    | inl (id, is_id) ↦ rw is_id (
        continue-Post (ReadAt x fits start) (λ _. Since x start) (Since x start)
          (λ _. settle_all x texts) _ (settled-Post id j s)
          (λ op j' r. settle_all-Post texts j' r.since))
  ]

  pub recover-Post :
      (j : Journal) → Since x start j → Post (λ _. Since x start) (Since x start) (recover x j)
  unfolding recover
  recover-Post j s = settle_all-Post (unsettled j.db.events j.db.operations) j s
