-- ===== src/Usage/Kept.antt =====
-- What the steps of `normalize` in crates/usage-contract/src/lib.rs leave of the reports and violations.
use agent_response_gateway.Base.{
  ℕ, ◌≡◌, refl, Bool, true, false, ap, ◌∙◌, arith, all, Option, none, some, List, [], ◌∷◌, leb,
  ◌==◌, text_eq, Text, bytes, any, ◌+◌, ◌-◌, if◌then◌else◌,
}
use agent_response_gateway.Base.Tables.{Table, get}
use agent_response_gateway.Usage.Contract.{
  Counter, CanonicalUsage, default_usage, mark_invalid, Profile, responses, chat, deep_seek,
  messages, gemini_interactions, paths, value_of, input_tokens, output_tokens, total_tokens,
  input_regular_tokens, cache_read_input_tokens, cache_write_input_tokens, reasoning_output_tokens,
}
use agent_response_gateway.Usage.Normalize.{place, place_all, invalid_name}
use agent_response_gateway.Usage.Steps.{
  normalize, note_first, by_profile, check_alias, check_misses, add_thoughts, add_input,
  place_input, check_details, with_details, partition, split_input, check_subset, check_subsets,
  check_total, total_for, settle_total, note_last, is_messages, is_not_reported,
}
use agent_response_gateway.Usage.Closed.{
  is_field, is_reason, Closed, derived-coherent, sum-coherent, choose, place_all-others,
  note_first-details, input_tokens-field, output_tokens-field, total_tokens-field,
  input_regular_tokens-field, cache_read_input_tokens-field, cache_write_input_tokens-field,
  reasoning_output_tokens-field, input_partition-reason, ttl_mismatch-reason,
  subset_exceeds_total-reason, total_mismatch-reason, paths_are_fields,
}

module _ (P : CanonicalUsage → Type 0) (k : Closed P) where
  mark_if :
      (b : Bool) (field reason : Text) (u : CanonicalUsage)
      → is_field field ≡ true
      → is_reason reason ≡ true
      → P u
      → P (if b then mark_invalid field reason u else u)
  mark_if true field reason u f r h = k.marks field reason u f r h
  mark_if false field reason u f r h = h

  check_alias-Keeps : (u : CanonicalUsage) → P u → P (check_alias u)
  unfolding check_alias
  check_alias-Keeps u h = choose P _ _ u (λ d. k.aliases u d h) (λ _. h)

  pub check_misses-Keeps : (u : CanonicalUsage) → P u → P (check_misses u)
  unfolding check_misses
  check_misses-Keeps u h =
      mark_if _ input_regular_tokens (bytes "input_partition") u input_regular_tokens-field
        input_partition-reason h

  place_input-Keeps : (a b c : Option ℕ) (u : CanonicalUsage) → P u → P (place_input a b c u)
  place_input-Keeps none b c u h = h
  place_input-Keeps (some a) none c u h = h
  place_input-Keeps (some a) (some b) none u h = h
  place_input-Keeps (some a) (some b) (some c) u h =
      k.inserts input_tokens _ u input_tokens-field (derived-coherent _) h

  check_details-Keeps : (u : CanonicalUsage) → P u → P (check_details u)
  check_details-Keeps u h =
      mark_if _ cache_write_input_tokens (bytes "ttl_mismatch") u cache_write_input_tokens-field
        ttl_mismatch-reason h

  add_input-Keeps : (u : CanonicalUsage) → u.cache_write_details ≡ [] → P u → P (add_input u)
  unfolding add_input
  add_input-Keeps u empty h = placed _ _ _
    where
      placed : (a b c : Option ℕ) → P (check_details (with_details (place_input a b c u)))
      placed none b c = check_details-Keeps _ (k.details u empty h)
      placed (some a) none c = check_details-Keeps _ (k.details u empty h)
      placed (some a) (some b) none = check_details-Keeps _ (k.details u empty h)
      placed (some a) (some b) (some c) =
          check_details-Keeps _
            (k.details _ empty (place_input-Keeps (some a) (some b) (some c) u h))

  by_profile-Keeps :
      (profile : Profile) (u : CanonicalUsage)
      → u.cache_write_details ≡ []
      → P u
      → P (by_profile profile u)
  unfolding by_profile add_thoughts
  by_profile-Keeps deep_seek u empty h = check_misses-Keeps _ (check_alias-Keeps u h)
  by_profile-Keeps gemini_interactions u empty h =
      k.inserts output_tokens _ u output_tokens-field
        (sum-coherent (value_of u output_tokens) (value_of u reasoning_output_tokens)) h
  by_profile-Keeps messages u empty h = add_input-Keeps u empty h
  by_profile-Keeps responses u empty h = h
  by_profile-Keeps chat u empty h = h

  split_input-Keeps :
      (profile : Profile) (a b c : Option ℕ) (u : CanonicalUsage)
      → P u
      → P (split_input profile a b c u)
  split_input-Keeps profile none b c u h = h
  split_input-Keeps profile (some a) none c u h = h
  split_input-Keeps profile (some a) (some b) none u h = h
  split_input-Keeps profile (some a) (some b) (some c) u h =
      choose P (leb (b + c) a) _ _
        (λ _.
          choose P (is_messages profile) u _ (λ _. h)
            (λ _.
              k.inserts input_regular_tokens _ u input_regular_tokens-field
                (derived-coherent (some (a - b - c))) h))
        (λ _.
          k.marks cache_write_input_tokens (bytes "input_partition") _
            cache_write_input_tokens-field input_partition-reason
            (k.marks cache_read_input_tokens (bytes "input_partition") u
              cache_read_input_tokens-field input_partition-reason h))

  check_subset-Keeps :
      (field parent : Text) (u : CanonicalUsage)
      → is_field field ≡ true
      → P u
      → P (check_subset field parent u)
  unfolding check_subset
  check_subset-Keeps field parent u f h =
      mark_if _ field (bytes "subset_exceeds_total") u f subset_exceeds_total-reason h

  check_subsets-Keeps : (u : CanonicalUsage) → P u → P (check_subsets u)
  unfolding check_subsets
  check_subsets-Keeps u h = check_subset-Keeps _ _ _ reasoning_output_tokens-field (
      check_subset-Keeps _ _ _ cache_write_input_tokens-field
        (check_subset-Keeps _ _ u cache_read_input_tokens-field h))

  settle_total-Keeps :
      (a b : ℕ) (t : Option ℕ) (u : CanonicalUsage) → P u → P (settle_total a b t u)
  settle_total-Keeps a b (some t) u h =
      mark_if _ total_tokens (bytes "total_mismatch") u total_tokens-field total_mismatch-reason h
  settle_total-Keeps a b none u h =
      choose P (is_not_reported (get total_tokens u.counters)) _ u
        (λ _. k.inserts total_tokens _ u total_tokens-field (derived-coherent _) h) (λ _. h)

  total_for-Keeps : (a b : Option ℕ) (u : CanonicalUsage) → P u → P (total_for a b u)
  total_for-Keeps none b u h = h
  total_for-Keeps (some a) none u h = h
  total_for-Keeps (some a) (some b) u h = settle_total-Keeps a b (value_of u total_tokens) u h

  note_first-Keeps : (u : CanonicalUsage) → u.violations ≡ [] → P u → P (note_first u)
  unfolding note_first
  note_first-Keeps u empty h =
      choose P _ _ u (λ _. k.notes u (ap (any (λ v. v == invalid_name)) empty) h) (λ _. h)

  note_last-Keeps : (u : CanonicalUsage) → P u → P (note_last u)
  unfolding note_last
  note_last-Keeps u h = choose P _ _ u (λ new. k.notes u (ground (arith, new)) h) (λ _. h)

  place-Keeps :
      (field path : Text) (c : Option Counter) (u : CanonicalUsage)
      → is_field field ≡ true
      → get path u.reported ≡ c
      → P u
      → P (place field c u)
  place-Keeps field path none u f g h = h
  place-Keeps field path (some c) u f g h = k.places field path c u f g h

  place_all-Keeps :
      (list : List (Text × Text)) (u : CanonicalUsage)
      → all (λ fp. is_field fp.0) list ≡ true
      → P u
      → P (place_all list u)
  unfolding place_all
  place_all-Keeps [] u f h = h
  place_all-Keeps ((field, path) ∷ list) u f h =
      let is_first : is_field field ≡ true = ground arith in
      let others : all (λ fp. is_field fp.0) list ≡ true = ground arith in
      place_all-Keeps list (place field (get path u.reported) u) others
        (place-Keeps field path (get path u.reported) u is_first refl h)

  partition-Keeps : (profile : Profile) (u : CanonicalUsage) → P u → P (partition profile u)
  unfolding partition
  partition-Keeps profile u h =
      split_input-Keeps profile (value_of u input_tokens) (value_of u cache_read_input_tokens)
        (value_of u cache_write_input_tokens) u h

  check_total-Keeps : (u : CanonicalUsage) → P u → P (check_total u)
  unfolding check_total
  check_total-Keeps u h = total_for-Keeps (value_of u input_tokens) (value_of u output_tokens) u h

  -- The steps after the one that depends on the profile.
  pub rest-Keeps :
      (profile : Profile) (u : CanonicalUsage)
      → P u
      → P (note_last (check_total (check_subsets (partition profile u))))
  rest-Keeps profile u h =
      note_last-Keeps _ (check_total-Keeps _ (check_subsets-Keeps _ (partition-Keeps profile u h)))

  pub first-Keeps :
      (profile : Profile) (reported : Table Text Counter)
      → P (record default_usage { reported = reported })
      → P (note_first (place_all (paths profile) (record default_usage { reported = reported })))
  first-Keeps profile reported h =
      note_first-Keeps _ (place_all-others (paths profile) _).0
        (place_all-Keeps _ _ (paths_are_fields profile) h)

  pub normalize-Keeps :
      (profile : Profile) (reported : Table Text Counter)
      → P (record default_usage { reported = reported })
      → P (normalize profile reported)
  unfolding normalize
  normalize-Keeps profile reported h = rest-Keeps profile _ (
      by_profile-Keeps profile _ (note_first-details _ ∙ (place_all-others (paths profile) _).1)
        (first-Keeps profile reported h))

reported-Closed : (given : Table Text Counter) → Closed (λ u. u.reported ≡ given)
unfolding mark_invalid
reported-Closed given = record {
  marks = λ _ _ _ _ _ h. h;
  aliases = λ _ _ h. h;
  inserts = λ _ _ _ _ _ h. h;
  places = λ _ _ _ _ _ _ h. h;
  notes = λ _ _ h. h;
  details = λ _ _ h. h;
}

-- What was reported, through the first steps.
pub first-reported :
    (profile : Profile) (given : Table Text Counter)
    → (note_first (place_all (paths profile) (record default_usage { reported = given }))).reported
      ≡ given
first-reported profile given =
    first-Keeps (λ u. u.reported ≡ given) (reported-Closed given) profile given refl

pub normalize-reported :
    (profile : Profile) (given : Table Text Counter) → (normalize profile given).reported ≡ given
normalize-reported profile given =
    normalize-Keeps (λ u. u.reported ≡ given) (reported-Closed given) profile given refl
