-- ===== src/Management/Journal/Duplicates.antt =====
-- `execute` of crates/management/src/journal.rs on a request that it refuses, and on one that it has
-- accepted before.
use agent_response_gateway.Base.{
  ◌+◌, ◌≡◌, refl, Bool, false, not, Option, none, some, ◌!=◌, Bool-cases, Option-cases,
  Result-split, inl, inr, text_eq, err, if◌then◌else◌, ltb, length,
}
use agent_response_gateway.Base.Tables.{contains}
use agent_response_gateway.Management.Contract.{
  Error, conflict, forbidden, invalid_input, Operation, Effect, Phase, State, state_of, Identifier,
  new_id, Externals, Identity, Actor, Request, grant_eq, is_effect, authorize, validate_request,
  fingerprint,
}
use agent_response_gateway.Management.Journal.Store.{
  EventRow, OperationRow, request_row, insert_event,
}
use agent_response_gateway.Management.Journal.Recorded.{recorded, valid_next, max_events}
use agent_response_gateway.Management.Journal.Machine.{Journal, called, query, commit}
use agent_response_gateway.Management.Journal.Writer.{
  append, settle, settle_interrupted, interruption, execute,
}
use agent_response_gateway.Management.Journal.Rows.{insert_event_lem}
use agent_response_gateway.Management.Journal.Triples.{
  Post, Written, continue-Post, commit-Post, Post-weaken, Post-always,
}

-- The row of a request that was accepted before.
abbrev pub previous : Actor → Request → Journal → Option OperationRow
previous actor request j =
    request_row actor.identity.subject.value request.idempotency_key.value j.db.operations

abbrev pub differs : Externals → Request → Option OperationRow → Bool
differs x request none = false
differs x request (some row) = row.fingerprint != (fingerprint x request).value

-- Why a request is refused before the adapter is asked.
abbrev pub refusal : Externals → Journal → Actor → Request → Option Error
refusal x j actor request =
    if not (is_effect request.action)
    then some invalid_input
    else if not
        (contains (record { action = request.action; target = request.target }) actor.grants)
    then some forbidden
    else if differs x request (previous actor request j)
    then some conflict
    else none

not_none : (e : Error) → none ≡ some e → ⊥
not_none e h = cc

module _ (x : Externals) (j : Journal) where
  abbrev Quiet : Journal → Type 0
  Quiet j' = (j'.effects ≡ j.effects) × (j'.db.operations ≡ j.db.operations)

  commit-Quiet :
      (row : EventRow) (k : Journal)
      → Quiet k
      → Post (λ _. Quiet) Quiet (commit x (insert_event row) k)
  commit-Quiet row k q =
      Post-weaken (λ _. Quiet) Quiet (Written k (insert_event row)) Quiet _
        (commit-Post x Quiet k q (insert_event row)
          (λ db inserted. let (is_db, owner) = insert_event_lem row k.db db inserted in rw is_db q))
        (λ _ j' (db, inserted, is_state).
          let (is_db, owner) = insert_event_lem row k.db db inserted in rw (is_state, is_db) q)
        (λ _ q'. q')

  append-Quiet :
      (id : Identifier) (actor : Option Identity) (phase : Phase) (state : State)
      (effect : Option Effect) (k : Journal)
      → Quiet k
      → Post (λ _. Quiet) Quiet (append x id actor phase state effect k)
  unfolding append
  append-Quiet id actor phase state effect k q = elim (Result-split (recorded x k.db id)) [
    | inr (e, h) ↦ rw h q
    | inl (before, h) ↦ rw h (elim (Bool-cases (valid_next before.state phase state effect)) [
      | inr refused ↦ rw refused q
      | inl valid ↦ rw valid (elim (Bool-cases (ltb max_events (length before.events + 1))) [
        | inl full ↦ rw full q
        | inr room ↦ rw room (elim (Option-cases (x.now k.calls)) [
          | inl no_time ↦ rw no_time q
          | inr (ms, e) ↦ rw e (commit-Quiet _ (called k) q)
        ])
      ])
    ])
  ]

  settle-Quiet :
      (id : Identifier) (op : Operation) (effect : Option Effect) (k : Journal)
      → Quiet k
      → Post (λ _. Quiet) Quiet (settle x id op effect k)
  settle-Quiet id op none k q = q
  settle-Quiet id op (some effect) k q =
      continue-Post (λ _. Quiet) (λ _. Quiet) Quiet (λ _. query (λ db. recorded x db id)) _
        (append-Quiet id none Phase.recovery (state_of effect) (some effect) k q)
        (λ _ k' q'. read k' q')
    where
      read : (k : Journal) → Quiet k → Post (λ _. Quiet) Quiet (query (λ db. recorded x db id) k)
      read k q = elim (Result-split (recorded x k.db id)) [
        | inl (op, h) ↦ rw h q
        | inr (e, h) ↦ rw h q
      ]

  settle_interrupted-Quiet : (id : Identifier) → Post (λ _. Quiet) Quiet (settle_interrupted x id j)
  unfolding settle_interrupted
  settle_interrupted-Quiet id = elim (Result-split (recorded x j.db id)) [
    | inl (op, h) ↦ rw h (settle-Quiet id op (interruption op.state) j (refl, refl))
    | inr (e, h) ↦ rw h (refl, refl)
  ]

  known-Quiet :
      (actor : Actor) (request : Request) (row : OperationRow)
      → previous actor request j ≡ some row
      → Post (λ _. Quiet) Quiet (execute x actor request j)
  unfolding execute
  known-Quiet actor request row known = elim (Result-split (validate_request request)) [
    | inr (e, bad) ↦ rw bad (refl, refl)
    | inl (u, good) ↦ rw good (elim (Result-split (authorize actor request.action request.target)) [
      | inr (e, denied) ↦ rw denied (refl, refl)
      | inl (grant, granted) ↦
          rw (granted, known)
            (elim (Bool-cases (row.fingerprint != (fingerprint x request).value)) [
              | inl differs ↦ rw differs (refl, refl)
              | inr same ↦ rw same (elim (Result-split (new_id row.id)) [
                | inr (e, bad) ↦ rw bad (refl, refl)
                | inl (id, n) ↦ rw n (elim (Result-split (recorded x j.db id)) [
                  | inr (e, h) ↦ rw h (refl, refl)
                  | inl (op, h) ↦ rw h (settle_interrupted-Quiet op.id)
                ])
              ])
            ])
    ])
  ]

  -- A request whose subject and idempotency key were accepted before applies no effect and adds no
  -- operation, whether it succeeds or fails.
  pub execute-known :
      (actor : Actor) (request : Request) (row : OperationRow)
      → previous actor request j ≡ some row
      → ((execute x actor request j).1.effects ≡ j.effects)
        × ((execute x actor request j).1.db.operations ≡ j.db.operations)
  execute-known actor request row known =
      Post-always Quiet (execute x actor request j) (known-Quiet actor request row known)

  -- A request that `refusal` refuses (an action without effect, a grant the actor does not hold, or
  -- an idempotency key that was used for another request) gets that error, and the journal is as before.
  pub execute-refused :
      (actor : Actor) (request : Request) (e : Error)
      → refusal x j actor request ≡ some e
      → execute x actor request j ≡ (err e, j)
  unfolding execute validate_request authorize
  execute-refused actor request e h = elim (Bool-cases (is_effect request.action)) [
    | inr bad ↦ rw bad (
        let h' : some invalid_input ≡ some e = rw bad at h in
        let is_e : invalid_input ≡ e = cc in rw is_e refl)
    | inl good ↦
        rw good
          (elim (Bool-cases
            (contains (record { action = request.action; target = request.target }) actor.grants)) [
              | inr denied ↦ rw denied (
                  let h' : some forbidden ≡ some e = rw (good, denied) at h in
                  let is_e : forbidden ≡ e = cc in rw is_e refl)
              | inl granted ↦ rw granted (
                  let h' : (if differs x request (previous actor request j)
                        then some conflict
                        else none)
                      ≡ some e =
                    rw (good, granted) at h in
                  elim (Option-cases (previous actor request j)) [
                    | inl absent ↦ absurd (not_none e (rw absent at h'))
                    | inr (row, present) ↦
                        rw present
                          (elim (Bool-cases (row.fingerprint != (fingerprint x request).value)) [
                            | inr same ↦ absurd (not_none e (rw (present, same) at h'))
                            | inl other ↦ rw other (
                                let h'' : some conflict ≡ some e = rw (present, other) at h' in
                                let is_e : conflict ≡ e = cc in rw is_e refl)
                          ])
                  ])
            ])
  ]
