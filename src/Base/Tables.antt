-- ===== src/Base/Tables.antt =====
-- `BTreeMap` and `BTreeSet` as association lists and as lists, in the order of the first insertion.
use Prim.Native.Nat.{ℕ, suc, ◌+◌}
use mathlib.Core.Path.{◌≡◌, refl, subst}
use mathlib.Core.Logic.{◌≢◌}
use mathlib.Core.Bool.{Bool, false, ◌||◌}
use mathlib.Core.Option.{Option, none, some}
use mathlib.Core.List.{List, [], ◌∷◌}
use native.Mathlib.Omega.{arith}
use agent_response_gateway.Base.Tests.{Eq, ◌==◌, is_yes, if◌then◌else◌}
use agent_response_gateway.Base.Lists.{length, is_some, any}

abbrev pub Table {ℓ κ} : Type ℓ → Type κ → Type (ℓ ⊔ κ)
Table K V = List (K × V)

module _ {ℓ κ} {K : Type ℓ} {V : Type κ} ⦃e : Eq K⦄ where
  unfoldable pub get : K → Table K V → Option V
  get k [] = none
  get k ((j, v) ∷ t) = if j == k then some v else get k t

  unfoldable pub contains_key : K → Table K V → Bool
  unfolding get
  contains_key k t = is_some (get k t)

  unfoldable pub insert : K → V → Table K V → Table K V
  insert k v [] = (k, v) ∷ []
  insert k v ((j, w) ∷ t) = if j == k then (k, v) ∷ t else (j, w) ∷ insert k v t

  pub get-insert :
      (k j : K) (v : V) (t : Table K V)
      → get j (insert k v t) ≡ (if k == j then some v else get j t)
  unfolding get insert
  get-insert k j v [] = refl
  get-insert k j v ((i, w) ∷ t) = ground (arith, get-insert k j v t)

  pub get-ne_nil : (k : K) (v : V) (t : Table K V) → get k t ≡ some v → t ≢ []
  unfolding get
  get-ne_nil k v [] h = absurd (cc)
  get-ne_nil k v (_ ∷ t) h = cc

  pub length-insert_new :
      (k : K) (v : V) (t : Table K V) → get k t ≡ none → length (insert k v t) ≡ suc (length t)
  unfolding get insert
  length-insert_new k v [] h = refl
  length-insert_new k v ((i, w) ∷ t) h = ground (arith, length-insert_new k v t)

  pub length-insert_old :
      (k : K) (v w : V) (t : Table K V) → get k t ≡ some w → length (insert k v t) ≡ length t
  unfolding get insert
  length-insert_old k v w [] h = cc
  length-insert_old k v w ((i, x) ∷ t) h = ground (arith, length-insert_old k v w t)

-- A set by `contains` and `insert`.
module _ {ℓ} {A : Type ℓ} ⦃e : Eq A⦄ where
  unfoldable pub contains : A → List A → Bool
  contains a [] = false
  contains a (x ∷ xs) = x == a || contains a xs

  unfoldable pub add : A → List A → List A
  unfolding contains
  add a xs = if contains a xs then xs else a ∷ xs

  pub length-add_new :
      (a : A) (xs : List A) → contains a xs ≡ false → length (add a xs) ≡ suc (length xs)
  unfolding add
  length-add_new a xs h = ground arith

-- Sums and predicates over the values of a table.
module _ {ℓ κ} {K : Type ℓ} {V : Type κ} where
  abbrev pub sum_by : (V → ℕ) → Table K V → ℕ
  sum_by f [] = 0
  sum_by f ((_, v) ∷ t) = f v + sum_by f t

  abbrev pub any_value : (V → Bool) → Table K V → Bool
  any_value p t = any (λ kv. p kv.1) t

  abbrev pub Values {μ} : (V → Type μ) → Table K V → Type μ
  Values P [] = Unit
  Values P ((_, v) ∷ t) = P v × Values P t

  pub Values-any_value :
      (p : V → Bool) (t : Table K V) → any_value p t ≡ false → Values (λ v. p v ≡ false) t
  Values-any_value p [] h = tt
  Values-any_value p ((k, v) ∷ t) h = let rest = Values-any_value p t in ground (arith, rest)

module _ {ℓ κ} {K : Type ℓ} {V : Type κ} ⦃e : Eq K⦄ where
  pub sum_by-insert_new :
      (f : V → ℕ) (k : K) (v : V) (t : Table K V)
      → get k t ≡ none
      → sum_by f (insert k v t) ≡ sum_by f t + f v
  unfolding get insert
  sum_by-insert_new f k v [] h = omega arith
  sum_by-insert_new f k v ((i, w) ∷ t) h = ground (arith, sum_by-insert_new f k v t)

  pub sum_by-insert_old :
      (f : V → ℕ) (k : K) (v w : V) (t : Table K V)
      → get k t ≡ some w
      → sum_by f (insert k v t) + f w ≡ sum_by f t + f v
  unfolding get insert
  sum_by-insert_old f k v w [] h = cc
  sum_by-insert_old f k v w ((i, x) ∷ t) h = ground (arith, sum_by-insert_old f k v w t)

  pub Values-insert {μ} :
      (P : V → Type μ) (k : K) (v : V) (t : Table K V) → P v → Values P t → Values P (insert k v t)
  unfolding insert
  Values-insert P k v [] p h = (p, h)
  Values-insert P k v ((i, w) ∷ t) p h =
      elim (e.dec i k) as (λ d. Values P (if is_yes d then (k, v) ∷ t else (i, w) ∷ insert k v t)) [
        | yes _ ↦ (p, h.1)
        | no _ ↦ (h.0, Values-insert P k v t p h.1)
      ]

  pub Values-get {μ} :
      (P : V → Type μ) (k : K) (v : V) (t : Table K V) → Values P t → get k t ≡ some v → P v
  unfolding get
  Values-get P k v [] h = λ g. absurd (cc)
  Values-get P k v ((i, w) ∷ t) h =
      elim (e.dec i k) as (λ d. (if is_yes d then some w else get k t) ≡ some v → P v) [
        | yes _ ↦ λ q. let same : w ≡ v = cc in subst P same h.0
        | no _ ↦ λ q. Values-get P k v t h.1 q
      ]
