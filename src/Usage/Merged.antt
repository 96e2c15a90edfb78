-- ===== src/Usage/Merged.antt =====
-- The loop of `observe_counters` in crates/usage-contract/src/lib.rs, path by path.
use agent_response_gateway.Base.{
  ◌≡◌, refl, ap, ◌∙◌, Bool, Bool-cases, true, false, not, ◌||◌, ◌&&◌, Option, none, some, [], ◌∷◌,
  ◌==◌, text_eq, eq_of_==, ==_refl, Text, any, inl, inr, arith, if◌then◌else◌,
}
use mathlib.Core.Path.{subst}
use agent_response_gateway.Base.Maps.{Keyed, flipped}
use agent_response_gateway.Base.Tables.{Table, get, get-insert, insert}
use agent_response_gateway.Usage.Contract.{Counter, counter_value, invalid_counter, Profile}
use agent_response_gateway.Usage.Accumulator.{is_allowed, falls, Merged, merge_one, merge}

-- The counter of a path, from the one that is reported now and the one held before.
abbrev pub merged_at : Profile → Text → Option Counter → Option Counter → Option Counter
merged_at profile path none old = old
merged_at profile path (some c) old =
    if not (is_allowed profile path)
    then old
    else if falls (counter_value old) c.value
    then some invalid_counter
    else some c

-- A reported counter that is below the one held before.
abbrev pub drops : Profile → Table Text Counter → Text × Counter → Bool
drops profile held kv = is_allowed profile kv.0 && falls (counter_value (get kv.0 held)) kv.1.value

abbrev pub is_stray : Profile → Text × Counter → Bool
is_stray profile kv = not (is_allowed profile kv.0)

-- The three branches of one turn.
abbrev turned : Bool → Bool → Text → Counter → Merged → Merged
turned allowed falling path c m =
    if not allowed
    then record m { incomplete = true }
    else if falling
    then record m { reported = insert path invalid_counter m.reported; decreased = true }
    else record m { reported = insert path c m.reported }

turned-other :
    (allowed falling : Bool) (path other : Text) (c : Counter) (m : Merged)
    → (path == other) ≡ false
    → get other (turned allowed falling path c m).reported ≡ get other m.reported
turned-other false falling path other c m h = refl
turned-other true true path other c m h =
    get-insert path other invalid_counter m.reported ∙ rw h refl
turned-other true false path other c m h = get-insert path other c m.reported ∙ rw h refl

turned-own :
    (allowed falling : Bool) (path : Text) (c : Counter) (m : Merged)
    → get path (turned allowed falling path c m).reported ≡ (
        if not allowed
        then get path m.reported
        else if falling
        then some invalid_counter
        else some c)
turned-own false falling path c m = refl
turned-own true true path c m =
    get-insert path path invalid_counter m.reported ∙ rw (==_refl path) refl
turned-own true false path c m = get-insert path path c m.reported ∙ rw (==_refl path) refl

turned-decreased :
    (allowed falling : Bool) (path : Text) (c : Counter) (m : Merged)
    → (turned allowed falling path c m).decreased ≡ (m.decreased || (allowed && falling))
turned-decreased false falling path c m = ground arith
turned-decreased true true path c m = ground arith
turned-decreased true false path c m = ground arith

turned-incomplete :
    (allowed falling : Bool) (path : Text) (c : Counter) (m : Merged)
    → (turned allowed falling path c m).incomplete ≡ (m.incomplete || not allowed)
turned-incomplete false falling path c m = ground arith
turned-incomplete true true path c m = ground arith
turned-incomplete true false path c m = ground arith

or_assoc : (a b c : Bool) → ((a || b) || c) ≡ (a || (b || c))
or_assoc true b c = refl
or_assoc false b c = refl

module _ (profile : Profile) where
  merge_one-other :
      (path other : Text) (c : Counter) (m : Merged)
      → (path == other) ≡ false
      → get other (merge_one profile path c m).reported ≡ get other m.reported
  unfolding merge_one
  merge_one-other path other c m h =
      turned-other (is_allowed profile path) (falls (counter_value (get path m.reported)) c.value)
        path other c m h

  merge_one-own :
      (path : Text) (c : Counter) (m : Merged)
      → get path (merge_one profile path c m).reported
        ≡ merged_at profile path (some c) (get path m.reported)
  unfolding merge_one
  merge_one-own path c m =
      turned-own (is_allowed profile path) (falls (counter_value (get path m.reported)) c.value)
        path c m

  -- Each path takes its own counter, whatever the order of the paths.
  pub merge-merged_at :
      (counters : Table Text Counter) (m : Merged) (path : Text)
      → Keyed counters
      → get path (merge profile counters m).reported
        ≡ merged_at profile path (get path counters) (get path m.reported)
  unfolding merge get
  merge-merged_at [] m path h = refl
  merge-merged_at ((p, c) ∷ counters) m path (new, h) =
      let later = merge-merged_at counters (merge_one profile p c m) path h in
      elim (Bool-cases (p == path)) [
        | inl same ↦
            let key = eq_of_== p path same in
            let absent : get path counters ≡ none = rw (← key) new in
            rw (absent, same)
              (later
                ∙ rw absent (
                    subst
                      (λ q.
                        get q (merge_one profile p c m).reported
                        ≡ merged_at profile q (some c) (get q m.reported))
                      key (merge_one-own p c m)))
        | inr other ↦ rw other (
            later
            ∙ ap (merged_at profile path (get path counters)) (merge_one-other p path c m other))
      ]

  drops-same :
      (path : Text) (held later : Table Text Counter) (counters : Table Text Counter)
      → get path counters ≡ none
      → ((q : Text) → (path == q) ≡ false → get q later ≡ get q held)
      → any (drops profile later) counters ≡ any (drops profile held) counters
  unfolding get
  drops-same path held later [] new same = refl
  drops-same path held later ((q, c) ∷ counters) new same = elim (Bool-cases (q == path)) [
    | inl here ↦ absurd (let found : some c ≡ none = rw here at new in cc)
    | inr other ↦
        let rest : get path counters ≡ none = rw other at new in
        rw (same q (flipped q path other), drops-same path held later counters rest same) refl
  ]

  pub merge-decreased :
      (counters : Table Text Counter) (m : Merged)
      → Keyed counters
      → (merge profile counters m).decreased
        ≡ (m.decreased || any (drops profile m.reported) counters)
  unfolding merge merge_one
  merge-decreased [] m h = ground arith
  merge-decreased ((p, c) ∷ counters) m (new, h) =
      merge-decreased counters (merge_one profile p c m) h
      ∙ ap (λ b. (merge_one profile p c m).decreased || b)
          (drops-same p m.reported (merge_one profile p c m).reported counters new
            (λ q other. merge_one-other p q c m other))
      ∙ ap (λ b. b || any (drops profile m.reported) counters)
          (turned-decreased (is_allowed profile p)
            (falls (counter_value (get p m.reported)) c.value) p c m)
      ∙ or_assoc m.decreased (drops profile m.reported (p, c))
          (any (drops profile m.reported) counters)

  pub merge-incomplete :
      (counters : Table Text Counter) (m : Merged)
      → (merge profile counters m).incomplete ≡ (m.incomplete || any (is_stray profile) counters)
  unfolding merge merge_one
  merge-incomplete [] m = ground arith
  merge-incomplete ((p, c) ∷ counters) m =
      merge-incomplete counters (merge_one profile p c m)
      ∙ ap (λ b. b || any (is_stray profile) counters)
          (turned-incomplete (is_allowed profile p)
            (falls (counter_value (get p m.reported)) c.value) p c m)
      ∙ or_assoc m.incomplete (is_stray profile (p, c)) (any (is_stray profile) counters)
