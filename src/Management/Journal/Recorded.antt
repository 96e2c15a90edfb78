-- ===== src/Management/Journal/Recorded.antt =====
-- `recorded` and `valid_next` of crates/management/src/journal.rs: an operation is its intent and the
-- replay of its events, each of which is checked.
use agent_response_gateway.Base.{
  ℕ, ◌+◌, Bool, true, false, not, ◌||◌, ◌&&◌, Option, some, List, [], ◌∷◌, ◌++◌, ltb, ◌==◌, ◌!=◌,
  nat_eq, text_eq, length, is_empty, is_none, is_some_and, Result, ok, err, ok_or, reject_if, ◌>>=◌,
  ◌>>◌, if◌then◌else◌,
}
use agent_response_gateway.Management.Contract.{
  Error, invalid_store, not_found, Event, Operation, Effect, not_applied, interrupted, State,
  state_eq, state_of, Phase, accepted, started, finished, recovery, reconciled, Identifier, id_eq,
  Identity, identity_eq, Grant, grant_eq, action_eq, Action, contract, Externals,
}
use agent_response_gateway.Management.Journal.Store.{
  Db, EventRow, decode, operation_row, event_rows,
}

abbrev pub max_events : ℕ
max_events = 256

abbrev pub agrees : State → Option Effect → Bool
agrees state effect = is_some_and effect (λ e. state == state_of e)

abbrev pub interrupts : State → Option Effect → Bool
interrupts State.queued (some (not_applied interrupted)) = true
interrupts State.running (some (Effect.uncertain interrupted)) = true
interrupts _ _ = false

unfoldable pub valid_next : State → Phase → State → Option Effect → Bool
valid_next before accepted state effect = false
valid_next before started state effect =
    before == State.queued && (state == State.running && is_none effect)
valid_next before finished state effect = before == State.running && agrees state effect
valid_next before recovery state effect = interrupts before effect && agrees state effect
valid_next before reconciled state effect = before == State.uncertain && agrees state effect

-- The grant under which an operation is reconciled.
abbrev pub reconcile_grant : Operation → Grant
reconcile_grant operation = record { action = Action.reconcile; target = operation.request.target }

-- Who stands in an event of each phase.
abbrev pub authentic : Phase → Operation → Option Identity → Option Grant → Bool
authentic recovery operation actor authorization = is_none actor && is_none authorization
authentic accepted operation actor authorization =
    is_some_and actor (λ a. a == operation.actor)
    && is_some_and authorization (λ g. g == operation.authorization)
authentic started operation actor authorization =
    is_some_and actor (λ a. a == operation.actor) && is_none authorization
authentic finished operation actor authorization =
    is_some_and actor (λ a. a == operation.actor) && is_none authorization
authentic reconciled operation actor authorization =
    not (is_none actor) && is_some_and authorization (λ g. g == reconcile_grant operation)

abbrev pub is_accepted : Phase → Bool
is_accepted accepted = true
is_accepted _ = false

-- The first event is the acceptance, and each later one is a valid transition.
unfoldable pub follows : Operation → Event → Bool
unfolding valid_next
follows operation event =
    if is_empty operation.events
    then is_accepted event.phase && (event.state == State.queued && is_none event.effect)
    else valid_next operation.state event.phase event.state event.effect

abbrev pub extended : Operation → Event → Operation
extended operation event = record operation {
  state = event.state;
  events = operation.events ++ event ∷ [];
}

unfoldable pub check_event : Operation → Event → Result Error Operation
unfolding follows
check_event operation event =
    if event.sequence != length operation.events + 1 || ltb max_events event.sequence
    then err invalid_store
    else if not (authentic event.phase operation event.actor event.authorization)
    then err invalid_store
    else if not (follows operation event)
    then err invalid_store
    else ok (extended operation event)

-- What the stored intent must be before any event.
unfoldable pub bad_intent : Identifier → Operation → Bool
bad_intent id operation =
    operation.id != id
    || (operation.schema != contract
        || (not (is_empty operation.events)
            || (operation.state != State.queued
                || (operation.authorization.action != operation.request.action
                    || operation.authorization.target != operation.request.target))))

module _ (x : Externals) where
  unfoldable pub replay : Operation → List EventRow → Result Error Operation
  unfolding decode check_event
  replay operation [] = ok operation
  replay operation (row ∷ rows) = do
    event ← decode x.event_bytes row.event
    operation' ← check_event operation event
    replay operation' rows

  unfoldable pub recorded : Db → Identifier → Result Error Operation
  unfolding operation_row event_rows replay bad_intent decode
  recorded db id = do
    row ← ok_or (operation_row id.value db.operations) not_found
    intent ← decode x.operation_bytes row.intent
    reject_if (bad_intent id intent) invalid_store
    operation ← replay intent (event_rows id.value db.events)
    reject_if (is_empty operation.events) invalid_store
    ok operation
