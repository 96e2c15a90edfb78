-- ===== src/Base/Distinct.antt =====
-- Lists without repetition, and how long they can be.
use Prim.Native.Nat.{suc, ◌≤◌}
use mathlib.Core.Path.{◌≡◌, refl}
use mathlib.Core.Logic.{inl, inr}
use mathlib.Core.Bool.{Bool, true, false, ◌||◌}
use mathlib.Core.List.{List, [], ◌∷◌, ◌++◌}
use native.Mathlib.Omega.{arith}
use agent_response_gateway.Base.Tests.{Eq, ◌==◌, eq_of_==, Bool-cases, if◌then◌else◌}
use agent_response_gateway.Base.Lists.{length, any, all}

module _ {ℓ} {A : Type ℓ} ⦃e : Eq A⦄ where
  -- `contains`
  abbrev pub has : A → List A → Bool
  has a xs = any (λ x. x == a) xs

  abbrev pub Distinct : List A → Type 0
  Distinct [] = Unit
  Distinct (x ∷ xs) = (has x xs ≡ false) × Distinct xs

  abbrev without : A → List A → List A
  without a [] = []
  without a (x ∷ xs) = if x == a then xs else x ∷ without a xs

  length-without : (a : A) (xs : List A) → has a xs ≡ true → suc (length (without a xs)) ≡ length xs
  length-without a [] h = absurd (cc)
  length-without a (x ∷ xs) h = elim (Bool-cases (x == a)) [
    | inl same ↦ rw same refl
    | inr other ↦
        let later : has a xs ≡ true = rw other at h in
        let rest = length-without a xs later in rw other (omega (arith, rest))
  ]

  has-without :
      (a b : A) (xs : List A) → (a == b) ≡ false → has b xs ≡ true → has b (without a xs) ≡ true
  has-without a b [] apart h = h
  has-without a b (x ∷ xs) apart h = elim (Bool-cases (x == a)) [
    | inl same ↦
        let is_a = eq_of_== x a same in
        let other : (x == b) ≡ false = rw is_a apart in
        let later : has b xs ≡ true = rw other at h in rw same later
    | inr differs ↦ elim (Bool-cases (x == b)) [
      | inl found ↦ rw (differs, found) refl
      | inr not_found ↦
          let later : has b xs ≡ true = rw not_found at h in
          rw (differs, not_found) (has-without a b xs apart later)
    ]
  ]

  all-without :
      (a : A) (xs ys : List A)
      → has a xs ≡ false
      → all (λ x. has x ys) xs ≡ true
      → all (λ x. has x (without a ys)) xs ≡ true
  all-without a [] ys new h = refl
  all-without a (x ∷ xs) ys new h =
      let apart : (a == x) ≡ false = ground arith in
      let found : has x ys ≡ true = ground arith in
      let later = all-without a xs ys (ground arith) (ground arith) in
      rw (has-without a x ys apart found) later

  -- A list without repetition is no longer than one that has all of its entries.
  pub length-Distinct :
      (xs ys : List A) → Distinct xs → all (λ x. has x ys) xs ≡ true → length xs ≤ length ys
  length-Distinct [] ys d h = omega arith
  length-Distinct (x ∷ xs) ys (new, d) h =
      let found : has x ys ≡ true = ground arith in
      let rest = length-Distinct xs (without x ys) d (all-without x xs ys new (ground arith)) in
      omega (arith, rest, length-without x ys found)

  pub has-append : (a : A) (xs ys : List A) → has a (xs ++ ys) ≡ (has a xs || has a ys)
  has-append a [] ys = refl
  has-append a (x ∷ xs) ys = ground (arith, has-append a xs ys)

  pub append-Distinct :
      (a : A) (xs : List A) → has a xs ≡ false → Distinct xs → Distinct (xs ++ a ∷ [])
  append-Distinct a [] new d = (refl, tt)
  append-Distinct a (x ∷ xs) new (first, d) =
      let apart : (a == x) ≡ false = ground arith in
      let later : has a xs ≡ false = ground arith in
      let old : has x (xs ++ a ∷ []) ≡ false = ground (arith, has-append x xs (a ∷ [])) in
      (old, append-Distinct a xs later d)
