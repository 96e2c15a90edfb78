-- ===== src/Continuation/Backing.antt =====
-- The records of src/continuation/sqlite.rs, in order with the attempts that they belong to.
use agent_response_gateway.Base.{
  ℕ, ◌≤◌, ◌≡◌, refl, ap, arith, Bool, false, some, List, ltb, ◌==◌, nat_eq, text_eq, Text, length,
  ==_refl, is_some, is_none, true,
}
use agent_response_gateway.Base.Maps.{Keyed, insert-Keyed}
use agent_response_gateway.Continuation.Owned.{
  Owned, Owned-later, insert-Owned, set_status-is_owned,
}
use agent_response_gateway.Base.Tables.{Table, insert, Values, Values-insert}
use agent_response_gateway.Continuation.Contract.{Session}
use agent_response_gateway.Continuation.Store.{
  Attempt, AttemptStatus-discrete, Record, Store, AttemptStatus, attempt_status_eq, save,
}
use agent_response_gateway.Continuation.Turns.{pending_reserve, set_status}
use agent_response_gateway.Continuation.Capacity.{Distinct}
use agent_response_gateway.Continuation.Settled.{finalized_attempt-set_status, save_rows}
use agent_response_gateway.Continuation.Covered.{Covered, set_unknown-Covered, finalized-Covered}

-- No record has lost its envelope.
abbrev pub Whole : Table Text Record → Type 0
Whole records = Values (λ r. is_none r.envelope ≡ false) records

-- No two records have one identifier, each is of a finalized attempt, and its envelope is there and
-- within what that attempt has reserved.
pub record Backing (records : Table Text Record) (attempts : List Attempt) : Type 0 where
  pub covered : Covered records attempts
  pub keyed : Keyed records
  pub owned : Owned attempts records
  pub whole : Whole records

abbrev pub Backed : Store → Type 0
Backed store = Backing store.records store.attempts

pub not_longer : (n m : ℕ) → ltb n m ≡ false → m ≤ n
not_longer n m h = ground arith

pub save-Backed : (s : Session) (store : Store) → Backed store → Backed (save s store)
save-Backed s store b = let (rows, records) = save_rows s store in rw (rows, records) b

not_finalized :
    (status : AttemptStatus)
    → (status == AttemptStatus.pending) ≡ true
    → (status == AttemptStatus.finalized) ≡ false
unfolding AttemptStatus-discrete
not_finalized AttemptStatus.pending h = refl
not_finalized AttemptStatus.finalized h = absurd (cc)
not_finalized AttemptStatus.unknown h = refl

-- Pending attempts become unknown.
pub forget-Backing :
    (picks : Attempt → Bool) (records : Table Text Record) (rows : List Attempt)
    → ((a : Attempt) → picks a ≡ true → (a.status == AttemptStatus.pending) ≡ true)
    → Backing records rows
    → Backing records (set_status picks AttemptStatus.unknown rows)
forget-Backing picks records rows only b = record {
  covered = set_unknown-Covered picks records rows b.covered;
  keyed = b.keyed;
  owned =
      Owned-later rows (set_status picks AttemptStatus.unknown rows) records
        (λ id.
          set_status-is_owned picks AttemptStatus.unknown rows id (λ a picked is_final.
            let other = not_finalized a.status (only a picked) in absurd (cc)))
        b.owned;
  whole = b.whole;
}

pub finalized-Backing :
    (attempt id digest envelope : Text) (epoch reserve : ℕ) (records : Table Text Record)
    (rows : List Attempt)
    → Distinct rows
    → pending_reserve attempt id epoch rows ≡ some reserve
    → length envelope ≤ reserve
    → Backing records rows
    → Backing
        (insert attempt (record { digest = digest; envelope = some envelope }) records)
        (set_status (λ a. a.id == attempt) AttemptStatus.finalized rows)
finalized-Backing attempt id digest envelope epoch reserve records rows d p short b =
    let r : Record = record { digest = digest; envelope = some envelope } in
    let later = set_status (λ a. a.id == attempt) AttemptStatus.finalized rows in
    let (a, found, _, _) = finalized_attempt-set_status attempt id epoch reserve rows d p in
    record {
      covered =
          finalized-Covered attempt id digest envelope epoch reserve records rows d p short
            b.covered;
      keyed = insert-Keyed attempt r records b.keyed;
      owned = insert-Owned later attempt r records (ap is_some found) (
          Owned-later rows later records
            (λ i.
              set_status-is_owned (λ a. a.id == attempt) AttemptStatus.finalized rows i
                (λ a _ _. ==_refl AttemptStatus.finalized))
            b.owned);
      whole = Values-insert (λ r. is_none r.envelope ≡ false) attempt r records refl b.whole;
    }
