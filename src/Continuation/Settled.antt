-- ===== src/Continuation/Settled.antt =====
-- What `finalize` of src/continuation/sqlite.rs leaves in the store, as `record` reads it.
use agent_response_gateway.Base.{
  ℕ, ◌+◌, ◌≡◌, refl, sym, arith, Bool, Bool-cases, true, false, not, ◌||◌, ◌&&◌, inl, inr, none,
  some, List, [], ◌∷◌, ltb, ◌==◌, nat_eq, text_eq, ==_refl, Text, length, All, ok, >>=-eq-ok,
  ok-injective, passed, ok_or, ok_or-eq_ok, ap, ◌∙◌,
}
use agent_response_gateway.Base.Tables.{get-insert, insert, contains_key}
use agent_response_gateway.Continuation.Contract.{rejected, Session, status_eq, StoredReplay}
use agent_response_gateway.Continuation.Store.{
  Store, Attempt, AttemptStatus, attempt_status_eq, load, save, database,
}
use agent_response_gateway.Continuation.Turns.{
  pending_reserve, set_status, is_in_flight, after_finalize, finalize, finalized_attempt, stored,
}
use agent_response_gateway.Continuation.Outcomes.{finalized_store}
use agent_response_gateway.Continuation.Capacity.{Distinct}
use agent_response_gateway.Continuation.Replays.{origin_eq, option_text_eq}

pub no_pending :
    (attempt other id : Text) (epoch : ℕ) (rows : List Attempt)
    → (other == attempt) ≡ true
    → All (λ b. (b.id == other) ≡ false) rows
    → pending_reserve attempt id epoch rows ≡ none
unfolding pending_reserve
no_pending attempt other id epoch [] same h = refl
no_pending attempt other id epoch (a ∷ rows) same h =
    let rest = no_pending attempt other id epoch rows same h.1 in
    let differs = h.0 in ground (arith, rest)

pub finalized_attempt-set_status :
    (attempt id : Text) (epoch reserve : ℕ) (rows : List Attempt)
    → Distinct rows
    → pending_reserve attempt id epoch rows ≡ some reserve
    → (a : Attempt) × (finalized_attempt attempt
          (set_status (λ b. b.id == attempt) AttemptStatus.finalized rows)
        ≡ some a)
      × (a.session ≡ id)
      × (a.epoch ≡ epoch)
unfolding pending_reserve set_status finalized_attempt
finalized_attempt-set_status attempt id epoch reserve [] d h = absurd (cc)
finalized_attempt-set_status attempt id epoch reserve (a ∷ rows) (apart, d) h =
    elim (Bool-cases (a.id == attempt)) [
      | inl same ↦
          elim (Bool-cases
            (a.session == id && (a.epoch == epoch && a.status == AttemptStatus.pending))) [
              | inl good ↦ (
                record a { status = AttemptStatus.finalized },
                rw (same, same, ==_refl AttemptStatus.finalized) refl,
                ground arith,
                ground arith,
              )
              | inr bad ↦
                  let none_left = no_pending attempt a.id id epoch rows same apart in
                  let skipped : pending_reserve attempt id epoch (a ∷ rows)
                      ≡ pending_reserve attempt id epoch rows =
                    rw (same, bad) refl in
                  absurd (cc)
            ]
      | inr differs ↦
          let skipped : pending_reserve attempt id epoch (a ∷ rows)
              ≡ pending_reserve attempt id epoch rows =
            rw differs refl in
          let (b, f, s, e) =
            finalized_attempt-set_status attempt id epoch reserve rows d (sym skipped ∙ h) in
          (b, rw (differs, differs) f, s, e)
    ]

-- What a `finalize` that succeeds has found, and what it leaves.
pub finalize_lem :
    (id attempt digest envelope : Text) (tools : Bool) (store after : Store) (s : Session)
    → load id store ≡ ok s
    → finalize id attempt digest envelope tools store ≡ ok after
    → (reserve : ℕ) × (pending_reserve attempt id s.epoch store.attempts ≡ some reserve)
      × (finalized_store store s attempt digest envelope tools ≡ after)
unfolding finalize
finalize_lem id attempt digest envelope tools store after s l h =
    let (t, l', h1) = >>=-eq-ok (load id store) _ h in
    let (reserve, p, h2) =
      >>=-eq-ok (ok_or (pending_reserve attempt id t.epoch store.attempts) database) _ h1 in
    let (_, h3) =
      passed (ltb reserve (length envelope) || not (is_in_flight t.status))
        (rejected "finalization conflict") _ h2 in
    let (_, h4) = passed (contains_key attempt store.records) database _ h3 in
    let same : t ≡ s = ok-injective (sym l' ∙ l) in
    (
      reserve,
      ap (λ u. pending_reserve attempt id u.epoch store.attempts) (sym same) ∙ ok_or-eq_ok _ _ p,
      ap (λ u. finalized_store store u attempt digest envelope tools) (sym same) ∙ ok-injective h4,
    )

pub save_rows :
    (s : Session) (store : Store)
    → ((save s store).attempts ≡ store.attempts) × ((save s store).records ≡ store.records)
save_rows s store = elim (Bool-cases (contains_key s.id store.sessions)) [
  | inl has ↦ (rw has refl, rw has refl)
  | inr lacks ↦ (rw lacks refl, rw lacks refl)
]

pub stored-finalize :
    (s : Session) (id attempt digest envelope : Text) (tools : Bool) (reserve : ℕ) (store : Store)
    → Distinct store.attempts
    → pending_reserve attempt id s.epoch store.attempts ≡ some reserve
    → (f : StoredReplay) × (stored attempt (finalized_store store s attempt digest envelope tools)
        ≡ ok f)
      × (f.session ≡ id)
      × (f.epoch ≡ s.epoch)
      × (f.digest ≡ digest)
      × (f.envelope ≡ some envelope)
unfolding stored
stored-finalize s id attempt digest envelope tools reserve store d p =
    let (a, f, same_id, same_epoch) =
      finalized_attempt-set_status attempt id s.epoch reserve store.attempts d p in
    let (rows, records) =
      save_rows
        (record s {
          status = after_finalize s.status;
          head = some attempt;
          pending_tools = tools;
          revision = s.revision + 1;
        })
        (record store {
          records =
              insert attempt (record { digest = digest; envelope = some envelope }) store.records;
          attempts = set_status (λ a. a.id == attempt) AttemptStatus.finalized store.attempts;
        }) in
    (
      record {
        id = attempt;
        session = a.session;
        epoch = a.epoch;
        digest = digest;
        envelope = some envelope;
      },
      rw
          (
            rows,
            records,
            f,
            get-insert attempt attempt (record { digest = digest; envelope = some envelope })
                store.records,
            ==_refl attempt,
          )
          refl,
      same_id,
      same_epoch,
      refl,
      refl,
    )
