-- ===== src/Continuation/Owned.antt =====
-- The rows of the table `records` of src/continuation/sqlite.rs, and the attempts that they belong to.
use agent_response_gateway.Base.{
  ℕ, ◌+◌, ◌≤◌, ◌≡◌, refl, arith, Bool, true, false, ◌&&◌, Option, none, some, List, [], ◌∷◌, ◌++◌,
  ◌==◌, nat_eq, text_eq, eq_of_==, ==_refl, Text, All, inl, inr, Bool-cases, and_true, is_some,
  if◌then◌else◌,
}
use agent_response_gateway.Base.Maps.{Keyed}
use agent_response_gateway.Base.Tables.{Table, get, insert, sum_by}
use agent_response_gateway.Continuation.Store.{Attempt, AttemptStatus, attempt_status_eq, Record}
use agent_response_gateway.Continuation.Turns.{set_status, finalized_attempt}
use agent_response_gateway.Continuation.Covered.{envelope_bytes, held}

abbrev pub is_owned : List Attempt → Text → Bool
is_owned rows id = is_some (finalized_attempt id rows)

-- Every record is of a finalized attempt.
abbrev pub Owned : List Attempt → Table Text Record → Type 0
Owned rows records = All (λ kv. is_owned rows kv.0 ≡ true) records

pub Owned-later :
    (rows later : List Attempt) (records : Table Text Record)
    → ((id : Text) → is_owned rows id ≡ true → is_owned later id ≡ true)
    → Owned rows records
    → Owned later records
Owned-later rows later [] keeps o = tt
Owned-later rows later ((id, _) ∷ records) keeps (first, rest) =
    (keeps id first, Owned-later rows later records keeps rest)

pub insert-Owned :
    (rows : List Attempt) (id : Text) (r : Record) (records : Table Text Record)
    → is_owned rows id ≡ true
    → Owned rows records
    → Owned rows (insert id r records)
unfolding insert
insert-Owned rows id r [] own o = (own, tt)
insert-Owned rows id r ((j, q) ∷ records) own (first, rest) = elim (Bool-cases (j == id)) [
  | inl same ↦ rw same (own, rest)
  | inr other ↦ rw other (first, insert-Owned rows id r records own rest)
]

pub append-is_owned :
    (a : Attempt) (rows : List Attempt) (id : Text)
    → is_owned rows id ≡ true
    → is_owned (rows ++ a ∷ []) id ≡ true
unfolding finalized_attempt
append-is_owned a [] id own = absurd (cc)
append-is_owned a (b ∷ rows) id own =
    elim (Bool-cases (b.id == id && b.status == AttemptStatus.finalized)) [
      | inl hit ↦ rw hit refl
      | inr miss ↦
          let own' : is_owned rows id ≡ true = rw miss at own in
          rw miss (append-is_owned a rows id own')
    ]

-- A change of status that takes no attempt out of the finalized ones.
pub set_status-is_owned :
    (picks : Attempt → Bool) (status : AttemptStatus) (rows : List Attempt) (id : Text)
    → ((a : Attempt)
        → picks a ≡ true
        → (a.status == AttemptStatus.finalized) ≡ true
        → (status == AttemptStatus.finalized) ≡ true)
    → is_owned rows id ≡ true
    → is_owned (set_status picks status rows) id ≡ true
unfolding finalized_attempt set_status
set_status-is_owned picks status [] id stays own = absurd (cc)
set_status-is_owned picks status (a ∷ rows) id stays own =
    elim (Bool-cases (a.id == id && a.status == AttemptStatus.finalized)) [
      | inl hit ↦
          let is_id : (a.id == id) ≡ true = (and_true hit).0 in
          let is_final : (a.status == AttemptStatus.finalized) ≡ true = (and_true hit).1 in
          elim (Bool-cases (picks a)) [
            | inl picked ↦ rw (picked, is_id, stays a picked is_final) refl
            | inr left ↦ rw (left, hit) refl
          ]
      | inr miss ↦
          let own' : is_owned rows id ≡ true = rw miss at own in
          let later = set_status-is_owned picks status rows id stays own' in
          kept_or_new
            ((if picks a then record a { status = status } else a).id == id
              && (if picks a then record a { status = status } else a).status
                == AttemptStatus.finalized)
            _ _ later
    ]
  where
    kept_or_new :
        (b : Bool) (a : Attempt) (o : Option Attempt)
        → is_some o ≡ true
        → is_some (if b then some a else o) ≡ true
    kept_or_new true a o h = refl
    kept_or_new false a o h = h

module _ (id : Text) (r : Record) (records : Table Text Record) (new : get id records ≡ none) where
  abbrev more : Table Text Record
  more = (id, r) ∷ records

  grows : (a : Attempt) → envelope_bytes (get a.id records) ≤ envelope_bytes (get a.id more)
  unfolding get
  grows a = elim (Bool-cases (id == a.id)) [
    | inl same ↦
        let none_there : get a.id records ≡ none = rw (← eq_of_== id a.id same) new in
        rw none_there (omega arith)
    | inr other ↦ rw other (omega arith)
  ]

  held-grows : (rows : List Attempt) → held records rows ≤ held more rows
  unfolding held
  held-grows [] = omega arith
  held-grows (a ∷ rows) =
      let rest = held-grows rows in
      elim (Bool-cases (a.status == AttemptStatus.finalized)) [
        | inl is_final ↦ rw is_final (omega (arith, grows a, rest))
        | inr other ↦ rw other (omega (arith, rest))
      ]

  held-more :
      (rows : List Attempt)
      → is_owned rows id ≡ true
      → held records rows + envelope_bytes (some r) ≤ held more rows
  unfolding held finalized_attempt get
  held-more [] own = absurd (cc)
  held-more (a ∷ rows) own = elim (Bool-cases (a.id == id && a.status == AttemptStatus.finalized)) [
    | inl hit ↦
        let is_id : (a.id == id) ≡ true = (and_true hit).0 in
        let is_final : (a.status == AttemptStatus.finalized) ≡ true = (and_true hit).1 in
        let key = eq_of_== a.id id is_id in
        let none_there : get a.id records ≡ none = rw key new in
        let there : (id == a.id) ≡ true = rw key (==_refl id) in
        rw (is_final, none_there, there) (omega (arith, held-grows rows))
    | inr miss ↦
        let own' : is_owned rows id ≡ true = rw miss at own in
        let rest = held-more rows own' in
        elim (Bool-cases (a.status == AttemptStatus.finalized)) [
          | inl is_final ↦ rw is_final (omega (arith, grows a, rest))
          | inr other ↦ rw other (omega (arith, rest))
        ]
  ]

-- All envelopes of the table together.
abbrev pub all_bytes : Table Text Record → ℕ
all_bytes records = sum_by (λ r. envelope_bytes (some r)) records

pub all_bytes-held :
    (records : Table Text Record) (rows : List Attempt)
    → Keyed records
    → Owned rows records
    → all_bytes records ≤ held records rows
all_bytes-held [] rows keyed own = omega arith
all_bytes-held ((id, r) ∷ records) rows (new, keyed) (first, rest) =
    omega (arith, held-more id r records new rows first, all_bytes-held records rows keyed rest)
