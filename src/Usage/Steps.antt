-- ===== src/Usage/Steps.antt =====
-- The steps of `normalize` in crates/usage-contract/src/lib.rs.
use agent_response_gateway.Base.{
  ℕ, ◌+◌, ◌-◌, Bool, true, false, not, ◌&&◌, Option, none, some, List, [], ◌∷◌, ◌++◌, ltb, leb,
  ◌==◌, nat_eq, text_eq, Text, bytes, length, any, if◌then◌else◌,
}
use agent_response_gateway.Base.Tables.{Table, get, insert}
use agent_response_gateway.Usage.Contract.{
  Counter, source_eq, not_reported, no_counter, derived_counter, checked_add, CanonicalUsage,
  CacheWriteDetail, default_usage, value_of, counter_value, mark_invalid, Profile, profile_eq,
  deep_seek, gemini_interactions, messages, paths, short_lived, long_lived, input_tokens,
  output_tokens, total_tokens, input_regular_tokens, cache_read_input_tokens,
  cache_write_input_tokens, reasoning_output_tokens,
}
use agent_response_gateway.Usage.Normalize.{
  place_all, any_invalid, invalid_name, differ, hits, bad_sum,
}

unfoldable pub check_alias : CanonicalUsage → CanonicalUsage
unfolding mark_invalid
check_alias u =
    if differ (counter_value (get (bytes "prompt_tokens_details.cached_tokens") u.reported))
      (hits u)
    then mark_invalid cache_read_input_tokens (bytes "cache_alias_mismatch") u
    else u

unfoldable pub check_misses : CanonicalUsage → CanonicalUsage
unfolding mark_invalid
check_misses u =
    if bad_sum (hits u) (value_of u input_regular_tokens) (value_of u input_tokens)
    then mark_invalid input_regular_tokens (bytes "input_partition") u
    else u

abbrev pub sum_counter : Option ℕ → Option ℕ → Counter
sum_counter (some a) (some b) = derived_counter (checked_add a b)
sum_counter _ _ = no_counter

-- Thought tokens are part of the output.
unfoldable pub add_thoughts : CanonicalUsage → CanonicalUsage
add_thoughts u = record u {
  counters =
      insert output_tokens
        (sum_counter (value_of u output_tokens) (value_of u reasoning_output_tokens)) u.counters;
}

abbrev pub add_checked : Option ℕ → ℕ → Option ℕ
add_checked none b = none
add_checked (some a) b = checked_add a b

abbrev pub place_input : Option ℕ → Option ℕ → Option ℕ → CanonicalUsage → CanonicalUsage
place_input (some a) (some b) (some c) u = record u {
  counters = insert input_tokens (derived_counter (add_checked (checked_add a b) c)) u.counters;
}
place_input _ _ _ u = u

abbrev pub detail : ℕ → Option Counter → List CacheWriteDetail
detail ttl none = []
detail ttl (some c) = record { ttl_seconds = ttl; input_tokens = c } ∷ []

abbrev pub sum_details : ℕ → List CacheWriteDetail → Option ℕ
sum_details sum [] = some sum
sum_details sum (d ∷ details) = elim d.input_tokens.value [
  | none ↦ none
  | some n ↦ elim (checked_add sum n) [ none ↦ none | some m ↦ sum_details m details ]
]

abbrev pub written : CanonicalUsage → List CacheWriteDetail
written u = detail 300 (get short_lived u.reported) ++ detail 3600 (get long_lived u.reported)

abbrev pub check_details : CanonicalUsage → CanonicalUsage
check_details u =
    if length u.cache_write_details == 2
      && differ (sum_details 0 u.cache_write_details) (value_of u cache_write_input_tokens)
    then mark_invalid cache_write_input_tokens (bytes "ttl_mismatch") u
    else u

abbrev pub with_details : CanonicalUsage → CanonicalUsage
with_details u = record u { cache_write_details = u.cache_write_details ++ written u }

unfoldable pub add_input : CanonicalUsage → CanonicalUsage
unfolding mark_invalid
add_input u = check_details (
    with_details (
      place_input (value_of u input_regular_tokens) (value_of u cache_read_input_tokens)
        (value_of u cache_write_input_tokens) u))

unfoldable pub by_profile : Profile → CanonicalUsage → CanonicalUsage
unfolding check_alias check_misses add_thoughts add_input
by_profile deep_seek u = check_misses (check_alias u)
by_profile gemini_interactions u = add_thoughts u
by_profile messages u = add_input u
by_profile _ u = u

abbrev pub is_messages : Profile → Bool
is_messages messages = true
is_messages _ = false

-- The input is what is read from the cache, written to it, and regular.
abbrev pub split_input : Profile → Option ℕ → Option ℕ → Option ℕ → CanonicalUsage → CanonicalUsage
split_input profile (some input) (some from_cache) (some to_cache) u =
    if leb (from_cache + to_cache) input
    then if is_messages profile then u else record u {
      counters =
          insert input_regular_tokens (derived_counter (some (input - from_cache - to_cache)))
            u.counters;
    }
    else mark_invalid cache_write_input_tokens (bytes "input_partition")
        (mark_invalid cache_read_input_tokens (bytes "input_partition") u)
split_input profile _ _ _ u = u

unfoldable pub partition : Profile → CanonicalUsage → CanonicalUsage
unfolding mark_invalid
partition profile u =
    split_input profile (value_of u input_tokens) (value_of u cache_read_input_tokens)
      (value_of u cache_write_input_tokens) u

abbrev pub exceeds : Option ℕ → Option ℕ → Bool
exceeds (some n) (some max) = ltb max n
exceeds _ _ = false

unfoldable pub check_subset : Text → Text → CanonicalUsage → CanonicalUsage
unfolding mark_invalid
check_subset field parent u =
    if exceeds (value_of u field) (value_of u parent)
    then mark_invalid field (bytes "subset_exceeds_total") u
    else u

unfoldable pub check_subsets : CanonicalUsage → CanonicalUsage
unfolding check_subset
check_subsets u = check_subset reasoning_output_tokens output_tokens (
    check_subset cache_write_input_tokens input_tokens
      (check_subset cache_read_input_tokens input_tokens u))

abbrev pub is_not_reported : Option Counter → Bool
is_not_reported none = false
is_not_reported (some c) = c.source == not_reported

-- `match u.value("total_tokens")`, for the sum of input and output
abbrev pub settle_total : ℕ → ℕ → Option ℕ → CanonicalUsage → CanonicalUsage
settle_total a b (some total) u =
    if bad_sum (some a) (some b) (some total)
    then mark_invalid total_tokens (bytes "total_mismatch") u
    else u
settle_total a b none u =
    if is_not_reported (get total_tokens u.counters)
    then record u { counters = insert total_tokens (derived_counter (checked_add a b)) u.counters }
    else u

abbrev pub total_for : Option ℕ → Option ℕ → CanonicalUsage → CanonicalUsage
total_for (some a) (some b) u = settle_total a b (value_of u total_tokens) u
total_for _ _ u = u

unfoldable pub check_total : CanonicalUsage → CanonicalUsage
unfolding mark_invalid
check_total u = total_for (value_of u input_tokens) (value_of u output_tokens) u

unfoldable pub note_first : CanonicalUsage → CanonicalUsage
note_first u =
    if any_invalid u then record u { violations = u.violations ++ invalid_name ∷ [] } else u

unfoldable pub note_last : CanonicalUsage → CanonicalUsage
note_last u =
    if any_invalid u && not (any (λ v. v == invalid_name) u.violations)
    then record u { violations = u.violations ++ invalid_name ∷ [] }
    else u

unfoldable pub normalize : Profile → Table Text Counter → CanonicalUsage
unfolding place_all paths note_first by_profile partition check_subsets check_total note_last
normalize profile reported = note_last (
    check_total (
      check_subsets (
        partition profile (
          by_profile profile (
            note_first
              (place_all (paths profile) (record default_usage { reported = reported })))))))
