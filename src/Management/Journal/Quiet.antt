-- ===== src/Management/Journal/Quiet.antt =====
-- Which states crates/management/src/journal.rs replays for operations that are settled.
use agent_response_gateway.Base.{
  ◌≡◌, ◌≢◌, refl, ap, arith, true, false, Option, none, some, List, [], ◌∷◌, text_eq, is_empty, ok,
  ok-injective, and_true,
}
use agent_response_gateway.Management.Contract.{
  Operation, Effect, applied, not_applied, State, state_eq, state_of, Phase, accepted, started,
  finished, recovery, reconciled, Identifier, id_eq, Externals,
}
use agent_response_gateway.Management.Journal.Store.{Db, EventRow, event_rows}
use agent_response_gateway.Management.Journal.Recorded.{
  bad_intent, recorded, replay, extended, valid_next, agrees,
}
use agent_response_gateway.Management.Journal.Writer.{interruption, row_state, is_unsettled}
use agent_response_gateway.Management.Journal.Growth.{Extends, same, event}
use agent_response_gateway.Management.Journal.Replayed.{recorded-Found, replay-cons}
use agent_response_gateway.Management.Journal.Kept.{Grows}

abbrev pub IsQuiet : State → Type 0
IsQuiet state = interruption state ≡ none

effect-IsQuiet : (effect : Effect) → IsQuiet (state_of effect)
effect-IsQuiet (applied _ _) = refl
effect-IsQuiet (not_applied _) = refl
effect-IsQuiet (Effect.uncertain _) = refl

agrees-IsQuiet :
    (state : State) (effect : Option Effect) → agrees state effect ≡ true → IsQuiet state
agrees-IsQuiet state none h = absurd (cc)
agrees-IsQuiet state (some e) h =
    let is_state : state ≡ state_of e = ground arith in rw is_state (effect-IsQuiet e)

valid_next-IsQuiet :
    (before : State) (phase : Phase) (state : State) (effect : Option Effect)
    → valid_next before phase state effect ≡ true
    → IsQuiet before
    → IsQuiet state
unfolding valid_next
valid_next-IsQuiet before accepted state effect v q = absurd (cc)
valid_next-IsQuiet before started state effect v q =
    let was_queued : before ≡ State.queued = ground arith in
    absurd (let taken : interruption State.queued ≡ none = rw was_queued at q in cc)
valid_next-IsQuiet before finished state effect v q = agrees-IsQuiet state effect (and_true v).1
valid_next-IsQuiet before recovery state effect v q = agrees-IsQuiet state effect (and_true v).1
valid_next-IsQuiet before reconciled state effect v q = agrees-IsQuiet state effect (and_true v).1

Extends-IsQuiet : {a b : Operation} → Extends a b → IsQuiet a.state → IsQuiet b.state
Extends-IsQuiet same q = q
Extends-IsQuiet (event {after = after} e k v) q =
    valid_next-IsQuiet after.state e.phase e.state e.effect v (Extends-IsQuiet k q)

module _ (x : Externals) where
  -- The state of a replay is that of its last row.
  replay-row_state :
      (op op' : Operation) (row : EventRow) (rows : List EventRow)
      → replay x op (row ∷ rows) ≡ ok op'
      → row_state (row ∷ rows) ≡ some op'.state
  unfolding replay
  replay-row_state op op' row [] h =
      let (e, is_json, n, h') = replay-cons x op op' row [] h in
      let done : extended op e ≡ op' = ok-injective h' in
      rw is_json (ap (λ (o : Operation). some o.state) done)
  replay-row_state op op' row (next ∷ rows) h =
      let (e, is_json, n, h') = replay-cons x op op' row (next ∷ rows) h in
      replay-row_state (extended op e) op' next rows h'

  no_events :
      (id : Identifier) (intent : Operation)
      → bad_intent id intent ≡ false
      → is_empty intent.events ≡ true
  unfolding bad_intent
  no_events id intent good = ground arith

  begun-row_state :
      (intent op : Operation) (rows : List EventRow)
      → replay x intent rows ≡ ok op
      → is_empty intent.events ≡ true
      → is_empty op.events ≡ false
      → row_state rows ≡ some op.state
  unfolding replay
  begun-row_state intent op [] r empty begun =
      let same_events = ap (λ (o : Operation). is_empty o.events) (ok-injective r) in absurd (cc)
  begun-row_state intent op (row ∷ rows) r empty begun = replay-row_state intent op row rows r

  pub recorded-row_state :
      (db : Db) (id : Identifier) (op : Operation)
      → recorded x db id ≡ ok op
      → row_state (event_rows id.value db.events) ≡ some op.state
  recorded-row_state db id op h =
      let f = recorded-Found x db id op h in
      begun-row_state f.intent op (event_rows id.value db.events) f.replayed
        (no_events id f.intent f.good) f.begun

  -- An operation that is not to be settled is quiet.
  pub state-IsQuiet : (state : State) → is_unsettled (some state) ≡ false → IsQuiet state
  state-IsQuiet State.queued h = absurd (cc)
  state-IsQuiet State.running h = absurd (cc)
  state-IsQuiet State.succeeded h = refl
  state-IsQuiet State.failed h = refl
  state-IsQuiet State.uncertain h = refl

  pub record QuietIn (db : Db) (id : Identifier) : Type 0 where
    pub operation : Operation
    pub reads : recorded x db id ≡ ok operation
    pub quiet : IsQuiet operation.state

  pub QuietIn-Grows : {a b : Db} {id : Identifier} → Grows x a b → QuietIn a id → QuietIn b id
  QuietIn-Grows {id = id} g q =
      let (op, reads, e) = g.at id q.operation q.reads in
      record { operation = op; reads = reads; quiet = Extends-IsQuiet e q.quiet }

pub not_queued : (state : State) → IsQuiet state → state ≢ State.queued
not_queued state quiet e = let taken : interruption State.queued ≡ none = rw e at quiet in cc

pub not_running : (state : State) → IsQuiet state → state ≢ State.running
not_running state quiet e = let taken : interruption State.running ≡ none = rw e at quiet in cc
