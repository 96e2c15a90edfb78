-- ===== src/Continuation/Covered.antt =====
-- The envelopes of src/continuation/sqlite.rs, and the bytes reserved for them.
use agent_response_gateway.Base.{
  ℕ, ◌+◌, ◌≤◌, ◌≡◌, refl, arith, Bool, true, false, ◌&&◌, Option, none, some, List, [], ◌∷◌, ◌++◌,
  ◌==◌, nat_eq, text_eq, eq_of_==, ==_refl, Text, length, All, inl, inr, Bool-cases, if◌then◌else◌,
}
use mathlib.Core.Path.{subst}
use agent_response_gateway.Base.Maps.{flipped}
use agent_response_gateway.Base.Tables.{Table, get, get-insert, insert}
use agent_response_gateway.Continuation.Store.{
  Attempt, AttemptStatus, attempt_status_eq, AttemptStatus-discrete, Record, used,
}
use agent_response_gateway.Continuation.Turns.{pending_reserve, set_status}
use agent_response_gateway.Continuation.Capacity.{Distinct}
use agent_response_gateway.Continuation.Settled.{no_pending}

abbrev pub envelope_bytes : Option Record → ℕ
envelope_bytes none = 0
envelope_bytes (some r) = elim r.envelope [ none ↦ 0 | some envelope ↦ length envelope ]

-- The bytes of the envelopes of finalized attempts.
unfoldable pub held : Table Text Record → List Attempt → ℕ
held records [] = 0
held records (a ∷ rows) =
    (if a.status == AttemptStatus.finalized then envelope_bytes (get a.id records) else 0)
    + held records rows

abbrev pub Covers : Table Text Record → Attempt → Type 0
Covers records a =
    (a.status == AttemptStatus.finalized) ≡ true → envelope_bytes (get a.id records) ≤ a.reserve

-- No finalized attempt has a longer envelope than it has reserved.
abbrev pub Covered : Table Text Record → List Attempt → Type 0
Covered records rows = All (Covers records) rows

unknown_differs : (AttemptStatus.unknown == AttemptStatus.finalized) ≡ false
unfolding AttemptStatus-discrete
unknown_differs = refl

pending_differs : (AttemptStatus.pending == AttemptStatus.finalized) ≡ false
unfolding AttemptStatus-discrete
pending_differs = refl

pub set_unknown-Covered :
    (picks : Attempt → Bool) (records : Table Text Record) (rows : List Attempt)
    → Covered records rows
    → Covered records (set_status picks AttemptStatus.unknown rows)
unfolding set_status
set_unknown-Covered picks records [] c = tt
set_unknown-Covered picks records (a ∷ rows) (first, rest) =
    let later = set_unknown-Covered picks records rows rest in
    elim (Bool-cases (picks a)) [
      | inl picked ↦ rw picked ((λ f. let differs = unknown_differs in absurd (cc)), later)
      | inr left ↦ rw left (first, later)
    ]

pub append-Covered :
    (a : Attempt) (records : Table Text Record) (rows : List Attempt)
    → a.status ≡ AttemptStatus.pending
    → Covered records rows
    → Covered records (rows ++ a ∷ [])
append-Covered a records [] is_pending c = ((λ f. let differs = pending_differs in absurd (cc)), tt)
append-Covered a records (b ∷ rows) is_pending (first, rest) =
    (first, append-Covered a records rows is_pending rest)

-- The record of another attempt.
other-Covers :
    (id : Text) (r : Record) (records : Table Text Record) (a : Attempt)
    → (a.id == id) ≡ false
    → Covers records a
    → Covers (insert id r records) a
other-Covers id r records a other c = rw (get-insert id a.id r records, flipped a.id id other) c

others-Covered :
    (id : Text) (r : Record) (records : Table Text Record) (rows : List Attempt)
    → All (λ b. (b.id == id) ≡ false) rows
    → Covered records rows
    → Covered (insert id r records) rows
others-Covered id r records [] apart c = tt
others-Covered id r records (a ∷ rows) (other, apart) (first, rest) =
    (other-Covers id r records a other first, others-Covered id r records rows apart rest)

own_record :
    (id : Text) (digest envelope : Text) (records : Table Text Record) (a : Attempt)
    → (a.id == id) ≡ true
    → length envelope ≤ a.reserve
    → envelope_bytes
        (get a.id (insert id (record { digest = digest; envelope = some envelope }) records))
      ≤ a.reserve
own_record id digest envelope records a same short =
    rw
      (
        get-insert id a.id (record { digest = digest; envelope = some envelope }) records,
        eq_of_== a.id id same,
        ==_refl id,
      )
      short

some_reserve : {a b : ℕ} → some a ≡ some b → a ≡ b
some_reserve h = cc

kept_rows :
    (records : Table Text Record) (attempt : Text) (rows : List Attempt)
    → All (λ b. (b.id == attempt) ≡ false) rows
    → Covered records rows
    → Covered records (set_status (λ a. a.id == attempt) AttemptStatus.finalized rows)
unfolding set_status
kept_rows records attempt [] apart c = tt
kept_rows records attempt (b ∷ rows) (other, apart) (first, rest) =
    rw other (first, kept_rows records attempt rows apart rest)

pub finalized-Covered :
    (attempt id digest envelope : Text) (epoch reserve : ℕ) (records : Table Text Record)
    (rows : List Attempt)
    → Distinct rows
    → pending_reserve attempt id epoch rows ≡ some reserve
    → length envelope ≤ reserve
    → Covered records rows
    → Covered
        (insert attempt (record { digest = digest; envelope = some envelope }) records)
        (set_status (λ a. a.id == attempt) AttemptStatus.finalized rows)
unfolding pending_reserve set_status
finalized-Covered attempt id digest envelope epoch reserve records [] d p short c = tt
finalized-Covered attempt id digest envelope epoch reserve records (a ∷ rows) (apart, d) p short
      (first, rest) =
    let r : Record = record { digest = digest; envelope = some envelope } in
    let later = finalized-Covered attempt id digest envelope epoch reserve records rows d in
    elim (Bool-cases (a.id == attempt)) [
      | inl same ↦
          let key = eq_of_== a.id attempt same in
          let others = subst (λ i. All (λ b. (b.id == i) ≡ false) rows) key apart in
          elim (Bool-cases
            (a.session == id && (a.epoch == epoch && a.status == AttemptStatus.pending))) [
              | inl good ↦
                  let own : some a.reserve ≡ some reserve = rw (same, good) at p in
                  let room : length envelope ≤ a.reserve = omega (arith, short, some_reserve own) in
                  rw same (
                    (λ _. own_record attempt digest envelope records a same room),
                    kept_rows (insert attempt r records) attempt rows others
                        (others-Covered attempt r records rows others rest),
                  )
              | inr bad ↦
                  let none_left = no_pending attempt a.id id epoch rows same apart in
                  let skipped : pending_reserve attempt id epoch (a ∷ rows)
                      ≡ pending_reserve attempt id epoch rows =
                    rw (same, bad) refl in
                  absurd (cc)
            ]
      | inr other ↦
          let p' : pending_reserve attempt id epoch rows ≡ some reserve = rw other at p in
          rw other (other-Covers attempt r records a other first, later p' short rest)
    ]

-- What is held of attempts that cover their envelopes is within what they have reserved.
pub held-used :
    (records : Table Text Record) (rows : List Attempt)
    → Covered records rows
    → held records rows ≤ used rows
unfolding held
held-used records [] c = omega arith
held-used records (a ∷ rows) (first, rest) =
    let later = held-used records rows rest in
    elim (Bool-cases (a.status == AttemptStatus.finalized)) [
      | inl is_final ↦ rw is_final (omega (arith, first is_final, later))
      | inr other ↦ rw other (omega (arith, later))
    ]
