-- ===== src/Usage/Normalize.antt =====
-- `extract` of crates/usage-contract/src/lib.rs, and how `normalize` places what was reported.
use agent_response_gateway.Base.{
  ℕ, ◌+◌, ◌^◌, Bool, false, not, ◌||◌, Option, none, some, List, [], ◌∷◌, ◌++◌, leb, ◌==◌, ◌!=◌,
  nat_eq, text_eq, Text, bytes, any, if◌then◌else◌,
}
use agent_response_gateway.Base.Json.{Value, member, is_object}
use agent_response_gateway.Base.Tables.{Table, get, insert}
use agent_response_gateway.Usage.Contract.{
  Counter, source_eq, invalid, invalid_counter, read, CanonicalUsage, counter_value, Profile,
  profile_eq, messages, paths, short_lived, long_lived,
}

-- `path.split('.')`
abbrev pub segments : Text → List Text
segments [] = [] ∷ []
segments (b ∷ path) = if b == b'.' then [] ∷ segments path else push b (segments path)
  where
    push : ℕ → List Text → List Text
    push b [] = (b ∷ []) ∷ []
    push b (s ∷ rest) = (b ∷ s) ∷ rest

abbrev pub member_of : Option Value → Text → Option Value
member_of none key = none
member_of (some v) key = member key v

abbrev pub descend : Option Value → List Text → Option Value
descend v [] = v
descend v (key ∷ keys) = descend (member_of v key) keys

-- `at`
unfoldable pub at : Value → Text → Option Value
at value path = descend (some value) (segments path)

abbrev pub extract_paths : Value → List (Text × Text) → Table Text Counter → Table Text Counter
extract_paths value [] result = result
extract_paths value ((_, path) ∷ list) result = extract_paths value list (add (at value path))
  where
    add : Option Value → Table Text Counter
    add none = result
    add (some v) = insert path (read (some v)) result

abbrev pub all_invalid : List (Text × Text) → Table Text Counter → Table Text Counter
all_invalid [] result = result
all_invalid ((_, path) ∷ list) result = all_invalid list (insert path invalid_counter result)

abbrev pub wire_paths : Profile → List (Text × Text)
wire_paths messages = paths messages ++ ([], short_lived) ∷ ([], long_lived) ∷ []
wire_paths profile = paths profile

unfoldable pub extract : Profile → Value → Table Text Counter
unfolding at paths
extract profile value =
    if not (is_object value)
    then all_invalid (paths profile) []
    else extract_paths value (wire_paths profile) []

-- The counters that were reported take their places.
abbrev pub place : Text → Option Counter → CanonicalUsage → CanonicalUsage
place field none u = u
place field (some c) u = record u { counters = insert field c u.counters }

unfoldable pub place_all : List (Text × Text) → CanonicalUsage → CanonicalUsage
place_all [] u = u
place_all ((field, path) ∷ list) u = place_all list (place field (get path u.reported) u)

abbrev pub any_invalid : CanonicalUsage → Bool
any_invalid u = any (λ kc. kc.1.source == invalid) u.counters

abbrev pub invalid_name : Text
invalid_name = bytes "invalid_counter"

abbrev pub differ : Option ℕ → Option ℕ → Bool
differ (some a) (some b) = a != b
differ _ _ = false

abbrev pub hits : CanonicalUsage → Option ℕ
hits u = counter_value (get (bytes "prompt_cache_hit_tokens") u.reported)

-- `hit.checked_add(miss) != Some(input)`, when the three are known
abbrev pub bad_sum : Option ℕ → Option ℕ → Option ℕ → Bool
bad_sum (some a) (some b) (some sum) = leb (2 ^ 64) (a + b) || a + b != sum
bad_sum _ _ _ = false
