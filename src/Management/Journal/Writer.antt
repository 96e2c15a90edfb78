-- ===== src/Management/Journal/Writer.antt =====
-- `Journal` of crates/management/src/journal.rs: `append`, `settle_interrupted`, `recover`, `lookup`,
-- `accept`, `execute` and `reconcile`.
use agent_response_gateway.Base.{
  ℕ, ◌+◌, Bool, true, false, not, Option, none, some, List, [], ◌∷◌, ltb, ◌!=◌, nat_eq, text_eq,
  Text, length, Result, ok, err, if◌then◌else◌,
}
use agent_response_gateway.Management.Contract.{
  Error, storage, conflict, not_found, invalid_store, invalid_transition, Event, Operation, Effect,
  not_applied, interrupted, State, state_eq, state_of, Phase, accepted, started, finished, recovery,
  reconciled, Identifier, id_eq, new_id, Identity, Grant, Action, contract, Externals, Actor,
  Request, Prepared, authorize, validate_request, fingerprint, snapshot_eq,
}
use agent_response_gateway.Management.Journal.Store.{
  Db, EventRow, OperationRow, json, garbage, insert_event, insert_operation, request_row,
  event_rows,
}
use agent_response_gateway.Management.Journal.Recorded.{
  recorded, valid_next, max_events, reconcile_grant,
}
use agent_response_gateway.Management.Journal.Machine.{
  M, ◌>>=◌, ◌>>◌, pure, lift, query, or_error, now, fresh_uuid, commit, prepare, reconcile_backend,
  apply_effect,
}

abbrev pub refuse_if : Bool → Error → M (Unit {0})
refuse_if true e = lift (err e)
refuse_if false e = pure tt

-- `(phase == Phase::Reconciled).then(..)`
abbrev pub event_grant : Phase → Operation → Option Grant
event_grant reconciled operation = some (reconcile_grant operation)
event_grant _ operation = none

abbrev pub interruption : State → Option Effect
interruption State.queued = some (not_applied interrupted)
interruption State.running = some (Effect.uncertain interrupted)
interruption _ = none

abbrev pub event_row : Identifier → Event → EventRow
event_row id event = record {
  operation_id = id.value;
  sequence = event.sequence;
  event = json event;
}

abbrev pub intent : Identifier → Actor → Request → Grant → Operation
intent id actor request grant = record {
  schema = contract;
  id = id;
  actor = actor.identity;
  authorization = grant;
  request = request;
  state = State.queued;
  events = [];
}

abbrev pub acceptance : Actor → Grant → ℕ → Event
acceptance actor grant at_ms = record {
  sequence = 1;
  at_ms = at_ms;
  phase = accepted;
  state = State.queued;
  actor = some actor.identity;
  authorization = some grant;
  effect = none;
}

abbrev pub and_then : (Db → Result Error Db) → Result Error Db → Result Error Db
and_then f (ok db) = f db
and_then f (err e) = err e

-- The two inserts of one transaction.
abbrev pub insert_accepted : OperationRow → EventRow → Db → Result Error Db
insert_accepted o e db = and_then (insert_event e) (insert_operation o db)

module _ (x : Externals) where
  unfoldable pub append :
      Identifier → Option Identity → Phase → State → Option Effect → M (Unit {0})
  unfolding now commit
  append id actor phase state effect = do
    before ← query (λ db. recorded x db id)
    refuse_if (not (valid_next before.state phase state effect)) invalid_transition
    let sequence = length before.events + 1
    refuse_if (ltb max_events sequence) storage
    at_ms ← now x
    let event : Event = record {
      sequence = sequence;
      at_ms = at_ms;
      phase = phase;
      state = state;
      actor = actor;
      authorization = event_grant phase before;
      effect = effect;
    }
    commit x (insert_event (event_row id event))

  abbrev pub settle : Identifier → Operation → Option Effect → M Operation
  settle id operation none = pure operation
  settle id operation (some effect) = do
    append id none recovery (state_of effect) (some effect)
    query (λ db. recorded x db id)

  unfoldable pub settle_interrupted : Identifier → M Operation
  settle_interrupted id = do
    operation ← query (λ db. recorded x db id)
    settle id operation (interruption operation.state)

  abbrev pub found : Actor → Request → Option OperationRow → M (Option Operation)
  found actor request none = pure none
  found actor request (some row) = do
    refuse_if (row.fingerprint != (fingerprint x request).value) conflict
    id ← or_error invalid_store (lift (new_id row.id))
    operation ← query (λ db. recorded x db id)
    pure (some operation)

  unfoldable pub lookup : Actor → Request → M (Option Operation)
  unfolding request_row
  lookup actor request = do
    row ← query (λ db.
        ok (request_row actor.identity.subject.value request.idempotency_key.value db.operations))
    found actor request row

  abbrev pub intent_row : Identifier → Actor → Request → Grant → OperationRow
  intent_row id actor request grant = record {
    id = id.value;
    subject = actor.identity.subject.value;
    idempotency_key = request.idempotency_key.value;
    fingerprint = (fingerprint x request).value;
    intent = json (intent id actor request grant);
  }

  unfoldable pub accept : Actor → Request → Grant → M Identifier
  unfolding now commit
  accept actor request grant = do
    text ← fresh_uuid x
    id ← lift (new_id text)
    at_ms ← now x
    commit x (
        insert_accepted (intent_row id actor request grant)
          (event_row id (acceptance actor grant at_ms)))
    pure id

  -- The end of `execute`: the effect, and the record of its outcome.
  unfoldable pub finish_effect : Actor → Prepared → Identifier → M Operation
  unfolding apply_effect append
  finish_effect actor prepared id = do
    effect ← apply_effect id prepared
    or_error (Error.uncertain id)
        (append id (some actor.identity) finished (state_of effect) (some effect))
    or_error (Error.uncertain id) (query (λ db. recorded x db id))

  -- `execute` once the intent is committed: no effect without a recorded start.
  unfoldable pub start_effect : Actor → Prepared → Identifier → M Operation
  unfolding append finish_effect
  start_effect actor prepared id = do
    append id (some actor.identity) started State.running none
    finish_effect actor prepared id

  -- `execute` past the duplicate lookup.
  unfoldable pub execute_new : Actor → Request → Grant → M Operation
  unfolding prepare accept start_effect
  execute_new actor request grant = do
    prepared ← prepare x request
    refuse_if (prepared.before != request.expected) conflict
    id ← accept actor request grant
    start_effect actor prepared id

  abbrev pub settle_or_new : Actor → Request → Grant → Option Operation → M Operation
  settle_or_new actor request grant (some operation) = settle_interrupted operation.id
  settle_or_new actor request grant none = execute_new actor request grant

  unfoldable pub execute : Actor → Request → M Operation
  unfolding lookup settle_interrupted execute_new
  execute actor request = do
    lift (validate_request request)
    grant ← lift (authorize actor request.action request.target)
    previous ← lookup actor request
    settle_or_new actor request grant previous

  -- `reconcile` once the operation is settled: the adapter's answer is recorded.
  unfoldable pub resolve : Actor → Identifier → Operation → M Operation
  unfolding append reconcile_backend
  resolve actor id settled = do
    refuse_if (settled.state != State.uncertain) invalid_transition
    effect ← reconcile_backend x settled
    append id (some actor.identity) reconciled (state_of effect) (some effect)
    query (λ db. recorded x db id)

  unfoldable pub reconcile : Actor → Identifier → Identifier → M Operation
  unfolding settle_interrupted resolve
  reconcile actor target id = do
    lift (authorize actor Action.reconcile target)
    operation ← query (λ db. recorded x db id)
    refuse_if (operation.request.target != target) not_found
    settled ← settle_interrupted id
    resolve actor id settled

-- The state that the last event row of an operation names.
abbrev pub row_state : List EventRow → Option State
row_state [] = none
row_state (row ∷ []) = elim row.event [ json event ↦ some event.state | garbage ↦ none ]
row_state (row ∷ next ∷ rows) = row_state (next ∷ rows)

abbrev pub is_unsettled : Option State → Bool
is_unsettled (some State.queued) = true
is_unsettled (some State.running) = true
is_unsettled _ = false

-- The operations whose event of the greatest sequence is in state queued or running.
unfoldable pub unsettled : List EventRow → List OperationRow → List Text
unfolding event_rows
unsettled events [] = []
unsettled events (row ∷ rows) =
    let rest = unsettled events rows in
    if is_unsettled (row_state (event_rows row.id events)) then row.id ∷ rest else rest

module _ (x : Externals) where
  unfoldable pub settle_all : List Text → M (Unit {0})
  unfolding settle_interrupted
  settle_all [] = pure tt
  settle_all (text ∷ texts) = do
    id ← or_error invalid_store (lift (new_id text))
    settle_interrupted x id
    settle_all texts

  -- `recover`, which `open` runs before anything else.
  unfoldable pub recover : M (Unit {0})
  unfolding settle_all unsettled
  recover = do ids ← query (λ db. ok (unsettled db.events db.operations)); settle_all ids
