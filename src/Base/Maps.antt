-- ===== src/Base/Maps.antt =====
-- Equality of maps, which are association lists without a second entry for a key.
use mathlib.Core.Path.{◌≡◌, refl, ◌∙◌}
use mathlib.Core.Logic.{inl, inr}
use mathlib.Core.Bool.{Bool, true, false, ◌&&◌}
use mathlib.Core.Option.{Option, none, some}
use mathlib.Core.List.{[], ◌∷◌}
use agent_response_gateway.Base.Tests.{Eq, ◌==◌, nat_eq, ==_refl, ==_false, eq_of_==, Bool-cases}
use agent_response_gateway.Base.Lists.{length, all, All}
use agent_response_gateway.Base.Tables.{Table, get, insert, get-insert}

-- `==` on two maps.
abbrev pub same_entry {κ} : {V : Type κ} ⦃d : Eq V⦄ → V → Option V → Bool
same_entry v none = false
same_entry v (some w) = v == w

module _ {ℓ κ} {K : Type ℓ} {V : Type κ} ⦃e : Eq K⦄ ⦃d : Eq V⦄ where
  unfoldable pub same_table : Table K V → Table K V → Bool
  unfolding get
  same_table s t = length s == length t && all (λ kv. same_entry kv.1 (get kv.0 t)) s

pub flipped {ℓ} : {K : Type ℓ} ⦃e : Eq K⦄ (j k : K) → (j == k) ≡ false → (k == j) ≡ false
flipped j k h = ==_false k j λ q. absurd (let same : (j == k) ≡ true = rw q (==_refl j) in cc)

-- No key has two entries.
module _ {ℓ κ} {K : Type ℓ} {V : Type κ} ⦃e : Eq K⦄ where
  abbrev pub Keyed : Table K V → Type κ
  Keyed [] = Unit
  Keyed ((k, _) ∷ t) = (get k t ≡ none) × Keyed t

  pub insert-Keyed : (k : K) (v : V) (t : Table K V) → Keyed t → Keyed (insert k v t)
  unfolding insert get
  insert-Keyed k v [] h = (refl, tt)
  insert-Keyed k v ((j, w) ∷ t) (new, h) = elim (Bool-cases (j == k)) [
    | inl same ↦ let key : j ≡ k = eq_of_== j k same in rw same (rw (← key) new, h)
    | inr other ↦
        let kept : get j (insert k v t) ≡ none = get-insert k j v t ∙ rw (flipped j k other) new in
        rw other (kept, insert-Keyed k v t h)
  ]

  abbrev Found : Table K V → Table K V → Type κ
  Found s t = All (λ kv. get kv.0 t ≡ some kv.1) s

  Found-cons : (j : K) (w : V) (s t : Table K V) → get j t ≡ none → Found s t → Found s ((j, w) ∷ t)
  unfolding get
  Found-cons j w [] t new h = tt
  Found-cons j w ((k, v) ∷ s) t new (found, h) = elim (Bool-cases (j == k)) [
    | inl same ↦ let key : j ≡ k = eq_of_== j k same in absurd (cc)
    | inr other ↦ (rw other found, Found-cons j w s t new h)
  ]

  Keyed-Found : (t : Table K V) → Keyed t → Found t t
  unfolding get
  Keyed-Found [] h = tt
  Keyed-Found ((k, v) ∷ t) (new, h) =
      (rw (==_refl k) refl, Found-cons k v t t new (Keyed-Found t h))

module _ {ℓ κ} {K : Type ℓ} {V : Type κ} ⦃e : Eq K⦄ ⦃d : Eq V⦄ where
  entries_match : (s t : Table K V) → Found s t → all (λ kv. same_entry kv.1 (get kv.0 t)) s ≡ true
  entries_match [] t h = refl
  entries_match ((k, v) ∷ s) t (found, h) = rw (found, ==_refl v) (entries_match s t h)

  pub same_table_refl : (t : Table K V) → Keyed t → same_table t t ≡ true
  unfolding same_table
  same_table_refl t h = rw (==_refl (length t)) (entries_match t t (Keyed-Found t h))
