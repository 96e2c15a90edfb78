-- ===== src/Management/Journal/Settling.antt =====
-- `settle_interrupted` of crates/management/src/journal.rs keeps what the journal promises.
use agent_response_gateway.Base.{◌≡◌, refl, none, some, List, Result-split, inl, inr, text_eq, ok}
use agent_response_gateway.Management.Contract.{
  Operation, Effect, not_applied, interrupted, State, state_eq, state_of, recovery, Identifier,
  id_eq, Externals, identity_eq, snapshot_eq,
}
use agent_response_gateway.Management.Journal.Store.{Db}
use agent_response_gateway.Management.Journal.Recorded.{recorded}
use agent_response_gateway.Management.Journal.Machine.{Journal, query}
use agent_response_gateway.Management.Journal.Writer.{settle_interrupted, settle, interruption}
use agent_response_gateway.Management.Journal.Triples.{Post, continue-Post}
use agent_response_gateway.Management.Journal.Once.{Fits, Since, Done, append-Post}

module _ (x : Externals) (fits : Fits x) (start : Db) where
  -- An operation that is not waiting for an outcome, in a state that keeps the invariant.
  pub record SettledAt (id : Identifier) (effects : List Identifier) (op : Operation) (j : Journal)
      : Type 0 where
    pub since : Since x start j
    pub effects_same : j.effects ≡ effects
    pub reads : recorded x j.db id ≡ ok op
    pub is_settled : interruption op.state ≡ none

  module _ (j : Journal) (id : Identifier) (op : Operation) (s : Since x start j)
      (h : recorded x j.db id ≡ ok op) where
    interrupted-Post :
        (effect : Effect)
        → interruption (state_of effect) ≡ none
        → Post (SettledAt id j.effects) (Since x start) (settle x id op (some effect) j)
    interrupted-Post effect done =
        continue-Post (Done x fits start j id op s h recovery (state_of effect) (some effect))
          (SettledAt id j.effects) (Since x start) (λ _. query (λ db. recorded x db id)) _
          (append-Post x fits start j id op s h none recovery (state_of effect) (some effect) refl)
          (λ _ j' ap. rw ap.reads (record {
            since = ap.since;
            effects_same = ap.effects;
            reads = ap.reads;
            is_settled = rw ap.is_state done;
          }))

    settle-Post :
        (state : State)
        → op.state ≡ state
        → Post (SettledAt id j.effects) (Since x start) (settle x id op (interruption state) j)
    settle-Post State.queued e = interrupted-Post (not_applied interrupted) refl
    settle-Post State.running e = interrupted-Post (Effect.uncertain interrupted) refl
    settle-Post State.succeeded e = record {
      since = s;
      effects_same = refl;
      reads = h;
      is_settled = rw e refl;
    }
    settle-Post State.failed e = record {
      since = s;
      effects_same = refl;
      reads = h;
      is_settled = rw e refl;
    }
    settle-Post State.uncertain e = record {
      since = s;
      effects_same = refl;
      reads = h;
      is_settled = rw e refl;
    }

  pub settle_interrupted-Post :
      (j : Journal) (id : Identifier)
      → Since x start j
      → Post (SettledAt id j.effects) (Since x start) (settle_interrupted x id j)
  unfolding settle_interrupted
  settle_interrupted-Post j id s = elim (Result-split (recorded x j.db id)) [
    | inl (op, h) ↦ rw h (settle-Post j id op s h op.state refl)
    | inr (e, h) ↦ rw h s
  ]
