-- ===== src/Usage/Contract.antt =====
-- crates/usage-contract/src/lib.rs: counters, canonical usage, and the paths of each profile.
use agent_response_gateway.Base.{
  ℕ, ◌+◌, ◌-◌, ◌^◌, Bool, ◌||◌, ◌&&◌, Option, none, some, is_some, List, [], ◌∷◌, ◌++◌, ltb, leb,
  ◌==◌, nat_eq, text_eq, Eq, Text, bytes, length, any, all, if◌then◌else◌,
}
use agent_response_gateway.Base.Json.{Value, null, as_u64}
use agent_response_gateway.Base.Tables.{Table, get, insert, contains_key}

pub data Source : Type 0 where
  reported derived not_reported not_applicable invalid : Source

unfoldable pub Source-discrete : Discrete Source
Source-discrete = hlevel

instance abbrev pub source_eq : Eq Source
source_eq = record { dec = Source-discrete }

pub record Counter : Type 0 where
  pub value : Option ℕ
  pub source : Source

abbrev pub no_counter : Counter
no_counter = record { value = none; source = not_reported }

abbrev pub invalid_counter : Counter
invalid_counter = record { value = none; source = invalid }

abbrev pub reported_counter : Option ℕ → Counter
reported_counter (some n) = record { value = some n; source = reported }
reported_counter none = invalid_counter

-- `Counter::read`
abbrev pub read : Option Value → Counter
read none = no_counter
read (some null) = no_counter
read (some v) = reported_counter (as_u64 v)

-- `Counter::derived`
abbrev pub derived_counter : Option ℕ → Counter
derived_counter (some n) = record { value = some n; source = derived }
derived_counter none = invalid_counter

-- `u64::checked_add`, `u64::checked_sub`
abbrev pub checked_add : ℕ → ℕ → Option ℕ
checked_add a b = if ltb (a + b) (2 ^ 64) then some (a + b) else none

abbrev pub checked_sub : ℕ → ℕ → Option ℕ
checked_sub a b = if leb b a then some (a - b) else none

pub record CacheWriteDetail : Type 0 where
  pub ttl_seconds : ℕ
  pub input_tokens : Counter

pub record CanonicalUsage : Type 0 where
  pub counters : Table Text Counter
  pub cache_write_details : List CacheWriteDetail
  pub reported : Table Text Counter
  pub violations : List Text

abbrev pub input_tokens : Text
input_tokens = bytes "input_tokens"

abbrev pub output_tokens : Text
output_tokens = bytes "output_tokens"

abbrev pub total_tokens : Text
total_tokens = bytes "total_tokens"

abbrev pub input_regular_tokens : Text
input_regular_tokens = bytes "input_regular_tokens"

abbrev pub cache_read_input_tokens : Text
cache_read_input_tokens = bytes "cache_read_input_tokens"

abbrev pub cache_write_input_tokens : Text
cache_write_input_tokens = bytes "cache_write_input_tokens"

abbrev pub reasoning_output_tokens : Text
reasoning_output_tokens = bytes "reasoning_output_tokens"

-- `FIELDS`
abbrev pub field_names : List Text
field_names =
    input_tokens ∷ output_tokens ∷ total_tokens ∷ input_regular_tokens ∷ cache_read_input_tokens
    ∷ cache_write_input_tokens ∷ reasoning_output_tokens ∷ []

abbrev pub no_counters : List Text → Table Text Counter
no_counters [] = []
no_counters (f ∷ fs) = (f, no_counter) ∷ no_counters fs

-- `CanonicalUsage::default`
abbrev pub default_usage : CanonicalUsage
default_usage = record {
  counters = no_counters field_names;
  cache_write_details = [];
  reported = [];
  violations = [];
}

abbrev pub counter_value : Option Counter → Option ℕ
counter_value none = none
counter_value (some c) = c.value

-- `CanonicalUsage::value`
abbrev pub value_of : CanonicalUsage → Text → Option ℕ
value_of u field = counter_value (get field u.counters)

abbrev pub add_violation : Text → List Text → List Text
add_violation reason violations =
    if any (λ v. v == reason) violations then violations else violations ++ reason ∷ []

-- `CanonicalUsage::invalid`
unfoldable pub mark_invalid : Text → Text → CanonicalUsage → CanonicalUsage
mark_invalid field reason u = record u {
  counters = insert field invalid_counter u.counters;
  violations = add_violation reason u.violations;
}

abbrev pub difference : Option ℕ → Option ℕ → Option ℕ
difference (some a) (some b) = checked_sub a b
difference _ _ = none

-- `CanonicalUsage::non_read_input_tokens`
unfoldable pub non_read_input_tokens : CanonicalUsage → Option ℕ
non_read_input_tokens u = difference (value_of u input_tokens) (value_of u cache_read_input_tokens)

-- `CanonicalUsage::observed`
unfoldable pub observed : CanonicalUsage → Bool
observed u = any (λ kc. is_some kc.1.value) u.counters

pub data Profile : Type 0 where
  responses chat deep_seek messages gemini_interactions : Profile

unfoldable pub Profile-discrete : Discrete Profile
Profile-discrete = hlevel

instance abbrev pub profile_eq : Eq Profile
profile_eq = record { dec = Profile-discrete }

abbrev pub chat_paths : List (Text × Text)
chat_paths =
    (input_tokens, bytes "prompt_tokens")
    ∷ (output_tokens, bytes "completion_tokens")
    ∷ (total_tokens, bytes "total_tokens")
    ∷ (cache_read_input_tokens, bytes "prompt_tokens_details.cached_tokens")
    ∷ (reasoning_output_tokens, bytes "completion_tokens_details.reasoning_tokens")
    ∷ []

-- The counters of a profile, and where they stand in its reports.
unfoldable pub paths : Profile → List (Text × Text)
paths gemini_interactions =
    (input_tokens, bytes "total_input_tokens")
    ∷ (output_tokens, bytes "total_output_tokens")
    ∷ (reasoning_output_tokens, bytes "total_thought_tokens")
    ∷ (cache_read_input_tokens, bytes "total_cached_tokens")
    ∷ (total_tokens, bytes "total_tokens")
    ∷ []
paths responses =
    (input_tokens, bytes "input_tokens")
    ∷ (output_tokens, bytes "output_tokens")
    ∷ (total_tokens, bytes "total_tokens")
    ∷ (cache_read_input_tokens, bytes "input_tokens_details.cached_tokens")
    ∷ (cache_write_input_tokens, bytes "input_tokens_details.cache_write_tokens")
    ∷ (reasoning_output_tokens, bytes "output_tokens_details.reasoning_tokens")
    ∷ []
paths deep_seek =
    chat_paths
    ++ (cache_read_input_tokens, bytes "prompt_cache_hit_tokens")
      ∷ (input_regular_tokens, bytes "prompt_cache_miss_tokens")
      ∷ []
paths chat = chat_paths
paths messages =
    (input_regular_tokens, bytes "input_tokens")
    ∷ (output_tokens, bytes "output_tokens")
    ∷ (cache_read_input_tokens, bytes "cache_read_input_tokens")
    ∷ (cache_write_input_tokens, bytes "cache_creation_input_tokens")
    ∷ []

abbrev pub short_lived : Text
short_lived = bytes "cache_creation.ephemeral_5m_input_tokens"

abbrev pub long_lived : Text
long_lived = bytes "cache_creation.ephemeral_1h_input_tokens"

abbrev pub is_path_of : Text → Profile → Bool
is_path_of path profile = any (λ fp. fp.1 == path) (paths profile)

unfoldable pub allowed_path : Text → Bool
allowed_path path =
    any (is_path_of path) (responses ∷ chat ∷ deep_seek ∷ messages ∷ gemini_interactions ∷ [])
    || (path == short_lived || path == long_lived)

abbrev pub coherent : Counter → Bool
coherent c = elim c.value [
  | some _ ↦ c.source == reported || c.source == derived
  | none ↦ c.source == not_reported || (c.source == not_applicable || c.source == invalid)
]

abbrev pub is_known_violation : Text → Bool
is_known_violation v =
    v == bytes "invalid_counter"
    || (v == bytes "input_partition"
        || (v == bytes "total_mismatch"
            || (v == bytes "subset_exceeds_total"
                || (v == bytes "ttl_mismatch" || v == bytes "counter_decreased"))))

-- `CanonicalUsage::validate`
unfoldable pub validate_usage : CanonicalUsage → Bool
validate_usage u =
    length u.counters == 7
    && (all (λ f. contains_key f u.counters) field_names
        && ((all (λ kc. coherent kc.1) u.counters
              && (all (λ kc. coherent kc.1) u.reported
                  && all (λ d. coherent d.input_tokens) u.cache_write_details))
            && (leb (length u.cache_write_details) 16
                && (leb (length u.reported) 16
                    && (leb (length u.violations) 32
                        && (all (λ kc. allowed_path kc.0) u.reported
                            && all is_known_violation u.violations))))))
