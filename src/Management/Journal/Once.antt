-- ===== src/Management/Journal/Once.antt =====
-- How often an effect of crates/management/src/journal.rs is applied: the invariant, and `append` under it.
use agent_response_gateway.Base.{
  ℕ, ◌+◌, ◌≤◌, ◌≡◌, ◌≢◌, refl, arith, Bool, true, false, not, Option, List, [], ◌∷◌, ltb, ==_false,
  Bool-cases, Option-cases, inl, inr, text_eq, nat_eq, length, All, ok,
}
use agent_response_gateway.Base.Tables.{contains}
use agent_response_gateway.Management.Contract.{
  Event, Operation, Effect, State, state_eq, Phase, Identifier, id_eq, Externals, Identity,
}
use agent_response_gateway.Management.Journal.Store.{Db, insert_event}
use agent_response_gateway.Management.Journal.Recorded.{
  recorded, extended, valid_next, authentic, max_events,
}
use agent_response_gateway.Management.Journal.Machine.{Journal, called}
use agent_response_gateway.Management.Journal.Writer.{append, event_row, event_grant}
use agent_response_gateway.Management.Journal.Rows.{insert_event_lem}
use agent_response_gateway.Management.Journal.Growth.{Extends-not_queued}
use agent_response_gateway.Management.Journal.Replayed.{recorded-append}
use agent_response_gateway.Management.Journal.Kept.{
  Grows, Grows-trans, Kept, event-Grows, event-Kept,
}
use agent_response_gateway.Management.Journal.Triples.{Post, Written, commit-Post, Post-weaken}

abbrev pub Distinct : List Identifier → Type 0
Distinct [] = Unit
Distinct (id ∷ ids) = (contains id ids ≡ false) × Distinct ids

-- The JSON texts that the journal writes are short enough to be read back.
pub record Fits (x : Externals) : Type 0 where
  pub operation : (o : Operation) → o.events ≡ [] → x.operation_bytes o ≤ 65536
  pub event : (e : Event) → x.event_bytes e ≤ 65536

-- The event that `append` writes.
abbrev appended_event : Operation → Option Identity → Phase → State → Option Effect → ℕ → Event
appended_event before actor phase state effect at_ms = record {
  sequence = length before.events + 1;
  at_ms = at_ms;
  phase = phase;
  state = state;
  actor = actor;
  authorization = event_grant phase before;
  effect = effect;
}

negated : (b : Bool) → not b ≡ false → b ≡ true
negated true h = refl
negated false h = cc

below_max : {n : ℕ} → ltb max_events n ≡ false → n ≤ max_events
below_max {n} h = ground arith

module _ (x : Externals) where
  -- The operation is recorded as past its acceptance.
  pub record HasBegun (db : Db) (id : Identifier) : Type 0 where
    pub operation : Operation
    pub reads : recorded x db id ≡ ok operation
    pub past : operation.state ≢ State.queued

  pub record Inv (db : Db) (effects : List Identifier) : Type 0 where
    pub kept : Kept x db
    pub distinct : Distinct effects
    pub begun : All (HasBegun db) effects

  -- What holds of a state reached from the database `start`.
  pub record From (start db : Db) (effects : List Identifier) : Type 0 where
    pub inv : Inv db effects
    pub grows : Grows x start db

  abbrev pub Since : Db → Journal → Type 0
  Since start j = From start j.db j.effects

  HasBegun-Grows :
      {a b : Db} (ids : List Identifier) → Grows x a b → All (HasBegun a) ids → All (HasBegun b) ids
  HasBegun-Grows [] g h = tt
  HasBegun-Grows (id ∷ ids) g h =
      let (op', reads, e) = g.at id h.0.operation h.0.reads in
      (
        record { operation = op'; reads = reads; past = Extends-not_queued e h.0.past },
        HasBegun-Grows ids g h.1,
      )

  pub From-Grows :
      {start a b : Db} {effects : List Identifier}
      → From start a effects
      → Grows x a b
      → Kept x b
      → From start b effects
  From-Grows {effects = effects} f g k = record {
    inv = record {
      kept = k;
      distinct = f.inv.distinct;
      begun = HasBegun-Grows effects g f.inv.begun;
    };
    grows = Grows-trans x f.grows g;
  }

  -- The effect of an operation in state queued has not been applied.
  pub queued-not_applied :
      (db : Db) (id : Identifier) (op : Operation) (effects : List Identifier)
      → recorded x db id ≡ ok op
      → op.state ≡ State.queued
      → All (HasBegun db) effects
      → contains id effects ≡ false
  unfolding contains
  queued-not_applied db id op [] r q h = refl
  queued-not_applied db id op (i ∷ ids) r q h = elim (id_eq.dec i id) [
    | yes p ↦
        let reads : recorded x db id ≡ ok h.0.operation = rw (← p) h.0.reads in
        let eo : op ≡ h.0.operation = cc in absurd (h.0.past (rw (← eo) q))
    | no n ↦ rw (==_false i id n) (queued-not_applied db id op ids r q h.1)
  ]

  -- What `append` leaves when it succeeds.
  pub record Appended (start : Db) (j : Journal) (id : Identifier) (before : Operation)
      (phase : Phase) (state : State) (effect : Option Effect) (j' : Journal) : Type 0 where
    pub since : Since start j'
    pub effects : j'.effects ≡ j.effects
    pub event : Event
    pub reads : recorded x j'.db id ≡ ok (extended before event)
    pub is_state : event.state ≡ state
    pub is_phase : event.phase ≡ phase
    pub valid : valid_next before.state phase state effect ≡ true

  module _ (fits : Fits x) (start : Db) (j : Journal) (id : Identifier) (before : Operation)
      (s : Since start j) (h : recorded x j.db id ≡ ok before) where
    committed-Appended :
        (phase : Phase) (e : Event) (db : Db)
        → e.phase ≡ phase
        → authentic e.phase before e.actor e.authorization ≡ true
        → valid_next before.state e.phase e.state e.effect ≡ true
        → e.sequence ≡ length before.events + 1
        → e.sequence ≤ max_events
        → insert_event (event_row id e) j.db ≡ ok db
        → Appended start j id before phase e.state e.effect (record (called (called j)) { db = db })
    committed-Appended phase e db is_phase a v n b i =
        let (is_db, owner) = insert_event_lem (event_row id e) j.db db i in
        let reads =
          recorded-append x j.db id before e h s.inv.kept.matches n b a v (fits.event e) in
        let grows = event-Grows x j.db id before e h s.inv.kept reads v in
        rw is_db (record {
          since = From-Grows s grows (event-Kept x j.db id before e h s.inv.kept grows owner);
          effects = refl;
          event = e;
          reads = reads;
          is_state = refl;
          is_phase = is_phase;
          valid = rw (← is_phase) v;
        })

    abbrev pub Done : Phase → State → Option Effect → Unit {0} → Journal → Type 0
    Done phase state effect _ j' = Appended start j id before phase state effect j'

    -- `append` adds the event or changes nothing, and keeps the invariant.
    pub append-Post :
        (actor : Option Identity) (phase : Phase) (state : State) (effect : Option Effect)
        → authentic phase before actor (event_grant phase before) ≡ true
        → Post (Done phase state effect) (Since start) (append x id actor phase state effect j)
    unfolding append
    append-Post actor phase state effect a =
        rw h (elim (Bool-cases (valid_next before.state phase state effect)) [
          | inr refused ↦ rw refused s
          | inl valid ↦ rw valid (elim (Bool-cases (ltb max_events (length before.events + 1))) [
            | inl full ↦ rw full s
            | inr room ↦ rw room (elim (Option-cases (x.now j.calls)) [
              | inl no_time ↦ rw no_time s
              | inr (ms, e) ↦ rw e (
                  Post-weaken (Done phase state effect) (Since start)
                    (Written (called j) (
                      insert_event
                        (event_row id (appended_event before actor phase state effect ms))))
                    (Since start) _
                    (commit-Post x (Since start) (called j) s
                      (insert_event
                        (event_row id (appended_event before actor phase state effect ms)))
                      (λ db inserted.
                        (committed-Appended phase
                          (appended_event before actor phase state effect ms) db refl a valid refl
                          (below_max room) inserted).since))
                    (λ _ j' (db, inserted, is_state). rw is_state (
                      committed-Appended phase (appended_event before actor phase state effect ms)
                        db refl a valid refl (below_max room) inserted))
                    (λ _ since. since))
            ])
          ])
        ])
