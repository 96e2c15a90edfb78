-- ===== src/Usage/Tests.antt =====
-- Reports of a provider, and the theorems of Usage at them.
use agent_response_gateway.Base.{
  text_eq, ℕ, ◌≡◌, ◌∙◌, Bool, true, none, not, ◌&&◌, refl, false, some, [], ◌∷◌, Text, bytes,
  Text-discrete, ℕ_discrete,
}
use agent_response_gateway.Base.Json.{Value, field_of, object, number, field, no_fields}
use agent_response_gateway.Base.Tables.{Table, get, insert}
use agent_response_gateway.Usage.Contract.{
  Counter, Source, Source-discrete, Profile-discrete, paths, responses, deep_seek,
}
use agent_response_gateway.Usage.Steps.{normalize}
use agent_response_gateway.Usage.Accumulator.{new, observe, observe_counters, merge, merge_one}
use agent_response_gateway.Usage.Normalize.{extract, at}
use agent_response_gateway.Usage.Consistent.{IsConsistent, normalize-IsConsistent}
use agent_response_gateway.Usage.Closed.{aliases_differ}
use agent_response_gateway.Usage.Reports.{observe_all}
use agent_response_gateway.Usage.Event.{
  UsageEvent, usage_updated, in_progress, partial, schema, validate_fields, validate_event,
}
use agent_response_gateway.Usage.Accepted.{observed-valid}
use agent_response_gateway.Base.Maps.{Keyed}
use agent_response_gateway.Usage.Observed.{Follows, observe_counters-Follows}

abbrev count : ℕ → Counter
count n = record { value = some n; source = Source.reported }

abbrev hits_and_alias : Table Text Counter
hits_and_alias =
    (bytes "prompt_tokens_details.cached_tokens", count 5)
    ∷ (bytes "prompt_cache_hit_tokens", count 6)
    ∷ []

normalize-IsConsistent_example : IsConsistent (normalize deep_seek hits_and_alias)
normalize-IsConsistent_example = normalize-IsConsistent deep_seek hits_and_alias

abbrev report : Value
report =
    object
      (field (bytes "input_tokens") (number 3) (field (bytes "output_tokens") (number 4) no_fields))

-- The input count drops, and one path is not known.
abbrev later_report : Table Text Counter
later_report = (bytes "input_tokens", count 2) ∷ (bytes "bogus", count 1) ∷ []

later_report-Keyed : Keyed later_report
unfolding get Text-discrete ℕ_discrete
later_report-Keyed = (refl, (refl, tt))

observe_counters-Follows_example :
    Follows later_report
      (observe report (new responses)).1
      (observe_counters later_report (observe report (new responses)).1).1
observe_counters-Follows_example =
    observe_counters-Follows later_report (observe report (new responses)).1 later_report-Keyed

-- DeepSeek's two counts of the tokens read from the cache.
abbrev two_counts : Value
two_counts = object (
    field (bytes "prompt_tokens_details")
      (object (field (bytes "cached_tokens") (number 5) no_fields))
      (field (bytes "prompt_cache_hit_tokens") (number 6) no_fields))

abbrev event : UsageEvent
event = record {
  schema = schema;
  producer_id = bytes "p";
  request_id = bytes "r";
  attempt_id = bytes "a";
  event_id = bytes "e";
  revision = 1;
  kind = usage_updated;
  started_at_ms = 1;
  observed_at_ms = 2;
  provider = bytes "deepseek";
  model_alias = bytes "m";
  upstream_model = bytes "m";
  reported_model = none;
  provider_request_id = none;
  provider_response_id = none;
  profile = deep_seek;
  configuration_sha256 = bytes "0123456789abcdef0123456789abcdef0123456789abcdef0123456789abcdef";
  upstream = in_progress;
  gateway = in_progress;
  finality = partial;
  observation_incomplete = false;
  usage = (observe_all (two_counts ∷ []) (new deep_seek)).usage;
}

observed-valid_example : validate_event event ≡ (
    validate_fields event
    && not (aliases_differ (observe_all (two_counts ∷ []) (new deep_seek)).reported))
observed-valid_example = observed-valid (two_counts ∷ []) event refl

counts_differ : aliases_differ (observe_all (two_counts ∷ []) (new deep_seek)).reported ≡ true
unfolding field_of new observe observe_counters merge merge_one extract at paths get insert
    Source-discrete Profile-discrete Text-discrete ℕ_discrete
counts_differ = refl

-- So the event is refused, though all of its other fields are well formed.
refuses : validate_event event ≡ false
refuses = observed-valid_example ∙ rw counts_differ (and_false (validate_fields event))
  where
    and_false : (b : Bool) → (b && false) ≡ false
    and_false true = refl
    and_false false = refl
