-- ===== src/Usage/Closed.antt =====
-- Properties of reports and violations that the steps of `normalize` in crates/usage-contract/src/lib.rs keep.
use agent_response_gateway.Base.{
  ℕ, ◌≡◌, refl, Bool, true, false, ◌∙◌, all, Option, none, some, List, [], ◌∷◌, ◌++◌, ◌==◌, text_eq,
  Text, Text-discrete, ℕ_discrete, bytes, any, if◌then◌else◌,
}
use agent_response_gateway.Base.Tables.{Table, get, insert}
use agent_response_gateway.Usage.Contract.{
  Source-discrete, coherent, derived_counter, checked_add, field_names, Counter, CanonicalUsage,
  counter_value, mark_invalid, Profile, responses, chat, deep_seek, messages, gemini_interactions,
  paths, input_tokens, output_tokens, total_tokens, input_regular_tokens, cache_read_input_tokens,
  cache_write_input_tokens, reasoning_output_tokens,
}
use agent_response_gateway.Usage.Normalize.{place, place_all, differ, invalid_name}
use agent_response_gateway.Usage.Steps.{sum_counter, note_first, with_details}

abbrev pub is_field : Text → Bool
is_field field = any (λ f. f == field) field_names

-- The violations that the steps mark.
abbrev pub step_reasons : List Text
step_reasons =
    bytes "input_partition"
    ∷ bytes "ttl_mismatch"
    ∷ bytes "subset_exceeds_total"
    ∷ bytes "total_mismatch"
    ∷ []

abbrev pub is_reason : Text → Bool
is_reason reason = any (λ r. r == reason) step_reasons

abbrev pub alias_reason : Text
alias_reason = bytes "cache_alias_mismatch"

-- The two counts of what was read from the cache differ.
abbrev pub aliases_differ : Table Text Counter → Bool
aliases_differ reported =
    differ (counter_value (get (bytes "prompt_tokens_details.cached_tokens") reported))
      (counter_value (get (bytes "prompt_cache_hit_tokens") reported))

abbrev pub with_counter : Text → Counter → CanonicalUsage → CanonicalUsage
with_counter field c u = record u { counters = insert field c u.counters }

abbrev pub with_note : CanonicalUsage → CanonicalUsage
with_note u = record u { violations = u.violations ++ invalid_name ∷ [] }

-- A property of a canonical usage that each change of `normalize` keeps.
pub record Closed (P : CanonicalUsage → Type 0) : Type 0 where
  pub marks :
      (field reason : Text) (u : CanonicalUsage)
      → is_field field ≡ true
      → is_reason reason ≡ true
      → P u
      → P (mark_invalid field reason u)
  pub aliases :
      (u : CanonicalUsage)
      → aliases_differ u.reported ≡ true
      → P u
      → P (mark_invalid cache_read_input_tokens alias_reason u)
  pub inserts :
      (field : Text) (c : Counter) (u : CanonicalUsage)
      → is_field field ≡ true
      → coherent c ≡ true
      → P u
      → P (with_counter field c u)
  pub places :
      (field path : Text) (c : Counter) (u : CanonicalUsage)
      → is_field field ≡ true
      → get path u.reported ≡ some c
      → P u
      → P (with_counter field c u)
  pub notes :
      (u : CanonicalUsage)
      → any (λ v. v == invalid_name) u.violations ≡ false
      → P u
      → P (with_note u)
  pub details : (u : CanonicalUsage) → u.cache_write_details ≡ [] → P u → P (with_details u)

pub derived-coherent : (n : Option ℕ) → coherent (derived_counter n) ≡ true
unfolding Source-discrete
derived-coherent none = refl
derived-coherent (some n) = refl

pub sum-coherent : (a b : Option ℕ) → coherent (sum_counter a b) ≡ true
unfolding Source-discrete
sum-coherent none b = refl
sum-coherent (some a) none = refl
sum-coherent (some a) (some b) = derived-coherent (checked_add a b)

pub choose {ℓ} :
    (Q : CanonicalUsage → Type ℓ) (b : Bool) (u v : CanonicalUsage)
    → (b ≡ true → Q u)
    → (b ≡ false → Q v)
    → Q (if b then u else v)
choose Q true u v h k = h refl
choose Q false u v h k = k refl

place-others :
    (field : Text) (c : Option Counter) (u : CanonicalUsage)
    → ((place field c u).violations ≡ u.violations)
      × ((place field c u).cache_write_details ≡ u.cache_write_details)
place-others field none u = (refl, refl)
place-others field (some c) u = (refl, refl)

-- Placing what was reported changes the counters only.
pub place_all-others :
    (list : List (Text × Text)) (u : CanonicalUsage)
    → ((place_all list u).violations ≡ u.violations)
      × ((place_all list u).cache_write_details ≡ u.cache_write_details)
unfolding place_all
place_all-others [] u = (refl, refl)
place_all-others ((field, path) ∷ list) u =
    let (v, d) = place_all-others list (place field (get path u.reported) u) in
    let (v', d') = place-others field (get path u.reported) u in (v ∙ v', d ∙ d')

pub note_first-details :
    (u : CanonicalUsage) → (note_first u).cache_write_details ≡ u.cache_write_details
unfolding note_first
note_first-details u =
    choose (λ v. v.cache_write_details ≡ u.cache_write_details) _ _ u (λ _. refl) (λ _. refl)

pub input_tokens-field : is_field input_tokens ≡ true
unfolding Text-discrete ℕ_discrete
input_tokens-field = refl

pub output_tokens-field : is_field output_tokens ≡ true
unfolding Text-discrete ℕ_discrete
output_tokens-field = refl

pub total_tokens-field : is_field total_tokens ≡ true
unfolding Text-discrete ℕ_discrete
total_tokens-field = refl

pub input_regular_tokens-field : is_field input_regular_tokens ≡ true
unfolding Text-discrete ℕ_discrete
input_regular_tokens-field = refl

pub cache_read_input_tokens-field : is_field cache_read_input_tokens ≡ true
unfolding Text-discrete ℕ_discrete
cache_read_input_tokens-field = refl

pub cache_write_input_tokens-field : is_field cache_write_input_tokens ≡ true
unfolding Text-discrete ℕ_discrete
cache_write_input_tokens-field = refl

pub reasoning_output_tokens-field : is_field reasoning_output_tokens ≡ true
unfolding Text-discrete ℕ_discrete
reasoning_output_tokens-field = refl

pub input_partition-reason : is_reason (bytes "input_partition") ≡ true
unfolding Text-discrete ℕ_discrete
input_partition-reason = refl

pub ttl_mismatch-reason : is_reason (bytes "ttl_mismatch") ≡ true
unfolding Text-discrete ℕ_discrete
ttl_mismatch-reason = refl

pub subset_exceeds_total-reason : is_reason (bytes "subset_exceeds_total") ≡ true
unfolding Text-discrete ℕ_discrete
subset_exceeds_total-reason = refl

pub total_mismatch-reason : is_reason (bytes "total_mismatch") ≡ true
unfolding Text-discrete ℕ_discrete
total_mismatch-reason = refl

pub paths_are_fields : (profile : Profile) → all (λ fp. is_field fp.0) (paths profile) ≡ true
unfolding paths Text-discrete ℕ_discrete
paths_are_fields responses = refl
paths_are_fields chat = refl
paths_are_fields deep_seek = refl
paths_are_fields messages = refl
paths_are_fields gemini_interactions = refl
