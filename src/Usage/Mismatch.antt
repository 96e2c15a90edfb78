-- ===== src/Usage/Mismatch.antt =====
-- `normalize` and `validate` of crates/usage-contract/src/lib.rs on two counts of one thing.
use agent_response_gateway.Base.{
  ◌≡◌, refl, ap, arith, Bool, true, false, ◌&&◌, List, [], ◌∷◌, ◌++◌, ◌==◌, ==_refl, eq_of_==, ◌∙◌,
  text_eq, Text, Text-discrete, ℕ_discrete, bytes, any, all, Bool-cases, inl, inr,
}
use agent_response_gateway.Base.Tables.{Table}
use agent_response_gateway.Usage.Contract.{
  Counter, CanonicalUsage, default_usage, mark_invalid, deep_seek, paths, validate_usage,
  is_known_violation, add_violation,
}
use agent_response_gateway.Usage.Steps.{normalize, note_first, by_profile, check_alias}
use agent_response_gateway.Usage.Kept.{rest-Keeps, check_misses-Keeps, first-reported}
use agent_response_gateway.Usage.Closed.{Closed, aliases_differ, alias_reason}
use agent_response_gateway.Usage.Normalize.{place_all, invalid_name}

abbrev pub mismatch : Text
mismatch = bytes "cache_alias_mismatch"

abbrev pub Mismatched : CanonicalUsage → Type 0
Mismatched u = any (λ v. v == mismatch) u.violations ≡ true

pub any-left : (p : Text → Bool) (xs ys : List Text) → any p xs ≡ true → any p (xs ++ ys) ≡ true
any-left p [] ys h = cc
any-left p (x ∷ xs) ys h = ground (arith, any-left p xs ys)

any-last : (p : Text → Bool) (xs : List Text) (y : Text) → p y ≡ true → any p (xs ++ y ∷ []) ≡ true
any-last p [] y h = ground arith
any-last p (x ∷ xs) y h = ground (arith, any-last p xs y h)

add_violation-Mismatched :
    (reason : Text) (vs : List Text)
    → any (λ v. v == mismatch) vs ≡ true
    → any (λ v. v == mismatch) (add_violation reason vs) ≡ true
add_violation-Mismatched reason vs h =
    ground (arith, any-left (λ v. v == mismatch) vs (reason ∷ []) h)

-- The steps after the check keep the violation.
Mismatched-Closed : Closed Mismatched
unfolding mark_invalid
Mismatched-Closed = record {
  marks = λ field reason u _ _ h. add_violation-Mismatched reason u.violations h;
  aliases = λ u _ h. add_violation-Mismatched alias_reason u.violations h;
  inserts = λ field c u _ _ h. h;
  places = λ field path c u _ _ h. h;
  notes = λ u _ h. any-left (λ v. v == mismatch) u.violations (invalid_name ∷ []) h;
  details = λ u _ h. h;
}

add_mismatch : (vs : List Text) → any (λ v. v == mismatch) (add_violation mismatch vs) ≡ true
add_mismatch vs = elim (Bool-cases (any (λ v. v == mismatch) vs)) [
  | inl there ↦ rw there there
  | inr new ↦ rw new (any-last (λ v. v == mismatch) vs mismatch (==_refl mismatch))
]

check_alias-Mismatched :
    (u : CanonicalUsage) → aliases_differ u.reported ≡ true → Mismatched (check_alias u)
unfolding check_alias mark_invalid
check_alias-Mismatched u d = rw d (add_mismatch u.violations)

and_false : (b : Bool) → (b && false) ≡ false
and_false true = refl
and_false false = refl

unknown_violation : is_known_violation mismatch ≡ false
unfolding Text-discrete ℕ_discrete
unknown_violation = refl

all_known :
    (vs : List Text) → any (λ v. v == mismatch) vs ≡ true → all is_known_violation vs ≡ false
all_known [] h = cc
all_known (v ∷ vs) h = elim (Bool-cases (v == mismatch)) [
  | inl same ↦ let e : v ≡ mismatch = eq_of_== v mismatch same in rw (e, unknown_violation) refl
  | inr other ↦
      let h' : any (λ v. v == mismatch) vs ≡ true = rw other at h in
      rw (all_known vs h') (and_false (is_known_violation v))
]

pub mismatch-refused : (u : CanonicalUsage) → Mismatched u → validate_usage u ≡ false
unfolding validate_usage
mismatch-refused u h = rw (all_known u.violations h) (simp and_false)

pub normalize-Mismatched :
    (reported : Table Text Counter)
    → aliases_differ reported ≡ true
    → Mismatched (normalize deep_seek reported)
unfolding normalize by_profile
normalize-Mismatched reported d =
    let placed = place_all (paths deep_seek) (record default_usage { reported = reported }) in
    let same = first-reported deep_seek reported in
    rest-Keeps Mismatched Mismatched-Closed deep_seek _ (
      check_misses-Keeps Mismatched Mismatched-Closed _
        (check_alias-Mismatched (note_first placed) (ap aliases_differ same ∙ d)))

-- A DeepSeek report whose two counts of the tokens read from the cache are known and differ becomes a
-- canonical usage that `validate` refuses.
pub mismatch-invalid :
    (counters : Table Text Counter)
    → aliases_differ counters ≡ true
    → validate_usage (normalize deep_seek counters) ≡ false
mismatch-invalid counters d = mismatch-refused _ (normalize-Mismatched counters d)
