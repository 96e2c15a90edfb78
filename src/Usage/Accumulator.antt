-- ===== src/Usage/Accumulator.antt =====
-- `Accumulator` of crates/usage-contract/src/lib.rs: the counts of one attempt, report by report.
use agent_response_gateway.Base.{
  ℕ, Bool, true, false, not, ◌||◌, ◌&&◌, Option, some, List, [], ◌∷◌, ◌++◌, ltb, ◌==◌, ◌!=◌,
  text_eq, Eq, Text, Text-discrete, ℕ_discrete, bytes, if◌then◌else◌,
}
use agent_response_gateway.Base.Json.{Value, is_object}
use agent_response_gateway.Base.Tables.{Table, get, insert}
use agent_response_gateway.Usage.Contract.{
  Counter, Source-discrete, invalid_counter, CanonicalUsage, CacheWriteDetail, default_usage,
  counter_value, Profile, profile_eq, messages, is_path_of, short_lived, long_lived,
}
use agent_response_gateway.Usage.Normalize.{extract}
use agent_response_gateway.Usage.Steps.{normalize}

unfoldable pub Counter-discrete : Discrete Counter
Counter-discrete = hlevel (ℕ_discrete, Source-discrete)

unfoldable pub CacheWriteDetail-discrete : Discrete CacheWriteDetail
CacheWriteDetail-discrete = hlevel (ℕ_discrete, Counter-discrete)

instance abbrev pub counter_eq : Eq Counter
counter_eq = record { dec = Counter-discrete }

unfoldable pub Details-discrete : Discrete (List CacheWriteDetail)
Details-discrete = hlevel CacheWriteDetail-discrete

instance abbrev pub details_eq : Eq (List CacheWriteDetail)
details_eq = record { dec = Details-discrete }

unfoldable pub Texts-discrete : Discrete (List Text)
Texts-discrete = hlevel Text-discrete

instance abbrev pub texts_eq : Eq (List Text)
texts_eq = record { dec = Texts-discrete }

unfoldable pub CanonicalUsage-discrete : Discrete CanonicalUsage
CanonicalUsage-discrete = hlevel (Text-discrete, Counter-discrete, CacheWriteDetail-discrete)

instance abbrev pub usage_eq : Eq CanonicalUsage
usage_eq = record { dec = CanonicalUsage-discrete }

pub record Accumulator : Type 0 where
  pub profile : Profile
  pub reported : Table Text Counter
  pub usage : CanonicalUsage
  pub incomplete : Bool

-- `Accumulator::new`
unfoldable pub new : Profile → Accumulator
new profile = record { profile = profile; reported = []; usage = default_usage; incomplete = false }

abbrev pub is_allowed : Profile → Text → Bool
is_allowed profile path =
    is_path_of path profile || (profile == messages && (path == short_lived || path == long_lived))

abbrev pub falls : Option ℕ → Option ℕ → Bool
falls (some old) (some new) = ltb new old
falls _ _ = false

-- The counters that were reported so far, and whether one fell or stood under no path.
pub record Merged : Type 0 where
  pub reported : Table Text Counter
  pub decreased : Bool
  pub incomplete : Bool

-- One turn of the loop.
unfoldable pub merge_one : Profile → Text → Counter → Merged → Merged
merge_one profile path c m =
    if not (is_allowed profile path)
    then record m { incomplete = true }
    else if falls (counter_value (get path m.reported)) c.value
    then record m { reported = insert path invalid_counter m.reported; decreased = true }
    else record m { reported = insert path c m.reported }

unfoldable pub merge : Profile → Table Text Counter → Merged → Merged
unfolding merge_one
merge profile [] m = m
merge profile ((path, c) ∷ counters) m = merge profile counters (merge_one profile path c m)

abbrev pub with_fall : Bool → CanonicalUsage → CanonicalUsage
with_fall true u = record u { violations = u.violations ++ bytes "counter_decreased" ∷ [] }
with_fall false u = u

-- Whether the usage changed, and the accumulator.
unfoldable pub observe_counters : Table Text Counter → Accumulator → Bool × Accumulator
unfolding merge normalize
observe_counters counters a =
    let m =
      merge a.profile counters
        (record { reported = a.reported; decreased = false; incomplete = a.incomplete }) in
    let next = with_fall m.decreased (normalize a.profile m.reported) in
    (
      next != a.usage,
      record a { reported = m.reported; usage = next; incomplete = m.incomplete || m.decreased },
    )

-- `Accumulator::observe`
unfoldable pub observe : Value → Accumulator → Bool × Accumulator
unfolding observe_counters extract
observe value a =
    observe_counters (extract a.profile value)
      (record a { incomplete = a.incomplete || not (is_object value) })
