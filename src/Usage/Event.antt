-- ===== src/Usage/Event.antt =====
-- crates/usage-contract/src/lib.rs: events of an attempt's usage, and the binding of a recorder.
use agent_response_gateway.Base.{
  ℕ, Bool, true, false, not, ◌||◌, ◌&&◌, Option, none, some, is_empty, List, [], ◌∷◌, ltb, leb,
  ◌==◌, ◌!=◌, nat_eq, text_eq, Text, bytes, is_alphanumeric, is_lowercase, is_digit, is_hex, length,
  all, Result, ok, err, if◌then◌else◌,
}
use agent_response_gateway.Base.Maps.{same_table}
use agent_response_gateway.Usage.Contract.{
  Counter, source_eq, derived, not_applicable, CanonicalUsage, Profile, validate_usage,
}
use agent_response_gateway.Usage.Steps.{normalize}
use agent_response_gateway.Usage.Accumulator.{counter_eq, details_eq, texts_eq}

abbrev pub schema : Text
schema = bytes "gateway-usage-event/v1"

abbrev pub max_event_bytes : ℕ
max_event_bytes = 65536

pub data EventKind : Type 0 where
  attempt_started usage_updated attempt_finished : EventKind

pub data Finality : Type 0 where
  unobserved partial final : Finality

pub data Outcome : Type 0 where
  unknown in_progress completed incomplete failed cancelled transport_lost conversion_failed
        observation_incomplete :
      Outcome

pub record UsageEvent : Type 0 where
  pub schema : Text
  pub producer_id : Text
  pub request_id : Text
  pub attempt_id : Text
  pub event_id : Text
  pub revision : ℕ
  pub kind : EventKind
  pub started_at_ms : ℕ
  pub observed_at_ms : ℕ
  pub provider : Text
  pub model_alias : Text
  pub upstream_model : Text
  pub reported_model : Option Text
  pub provider_request_id : Option Text
  pub provider_response_id : Option Text
  pub profile : Profile
  pub configuration_sha256 : Text
  pub upstream : Outcome
  pub gateway : Outcome
  pub finality : Finality
  pub observation_incomplete : Bool
  pub usage : CanonicalUsage

-- b"-_/.:".contains(&b)
abbrev pub safe_byte : ℕ → Bool
safe_byte b =
    is_alphanumeric b || (b == b'-' || (b == b'_' || (b == b'/' || (b == b'.' || b == b':'))))

unfoldable pub safe_label : Text → Bool
safe_label v = not (is_empty v) && (leb (length v) 200 && all safe_byte v)

-- The violations without those that the accumulator alone adds.
unfoldable pub without_falls : List Text → List Text
without_falls [] = []
without_falls (v ∷ violations) =
    let rest = without_falls violations in if v != bytes "counter_decreased" then v ∷ rest else rest

abbrev pub is_wire : Counter → Bool
is_wire c = c.source != derived && c.source != not_applicable

-- `consistent`, where two BTreeMaps are equal when they have the same entries
unfoldable pub is_recomputed : Profile → CanonicalUsage → Bool
unfolding normalize same_table without_falls
is_recomputed profile usage =
    let normalized = normalize profile usage.reported in
    same_table usage.counters normalized.counters
    && (usage.cache_write_details == normalized.cache_write_details
        && (without_falls usage.violations == normalized.violations
            && all (λ kc. is_wire kc.1) usage.reported))

abbrev pub is_safe_or_absent : Option Text → Bool
is_safe_or_absent none = true
is_safe_or_absent (some v) = safe_label v

abbrev pub is_start : EventKind → Bool
is_start attempt_started = true
is_start _ = false

-- What `validate` asks of the fields other than the usage.
unfoldable pub validate_fields : UsageEvent → Bool
unfolding safe_label
validate_fields e =
    e.schema == schema
    && (all safe_label (
          e.producer_id ∷ e.request_id ∷ e.attempt_id ∷ e.event_id ∷ e.provider ∷ e.model_alias
          ∷ e.upstream_model ∷ [])
        && (all is_safe_or_absent
              (e.reported_model ∷ e.provider_request_id ∷ e.provider_response_id ∷ [])
            && (length e.configuration_sha256 == 64
                && (all is_hex e.configuration_sha256
                    && (leb e.started_at_ms e.observed_at_ms
                        && ((not (is_start e.kind) || e.revision == 0)
                            && (is_start e.kind || ltb 0 e.revision)))))))

-- `UsageEvent::validate`
unfoldable pub validate_event : UsageEvent → Bool
unfolding is_recomputed validate_fields validate_usage
validate_event e = validate_fields e && (is_recomputed e.profile e.usage && validate_usage e.usage)

pub data EventError : Type 0 where
  invalid_usage_event usage_event_too_large : EventError

abbrev pub within_limit : Option Text → Result EventError Text
within_limit none = err invalid_usage_event
within_limit (some text) =
    if ltb max_event_bytes (length text) then err usage_event_too_large else ok text

-- `UsageEvent::bytes`, with what serde_json writes
unfoldable pub bytes_of : (UsageEvent → Option Text) → UsageEvent → Result EventError Text
unfolding validate_event
bytes_of event_json e =
    if not (validate_event e) then err invalid_usage_event else within_limit (event_json e)

pub data Mode : Type 0 where
  off best_effort durable_local : Mode

pub record RecorderBinding : Type 0 where
  pub store_id : Text
  pub mode : Mode
  pub queue_capacity : ℕ
  pub ack_timeout_ms : ℕ
  pub config_sha256 : Text

abbrev pub store_byte : ℕ → Bool
store_byte b = is_lowercase b || (is_digit b || b == b'-')

-- `RecorderBinding::validate`
unfoldable pub validate_recorder : RecorderBinding → Bool
validate_recorder r =
    leb (length r.store_id) 64
    && (all store_byte r.store_id
        && (not (is_empty r.store_id)
            && ((leb 2 r.queue_capacity && leb r.queue_capacity 4096)
                && ((leb 1 r.ack_timeout_ms && leb r.ack_timeout_ms 60000)
                    && length r.config_sha256 == 64))))

pub data Destination : Type 0 where
  http : (id url bearer_file : Text) → Destination
  http_v2 : (id url bearer_file : Text) → Destination
  postgres : (id connection_file : Text) (tls_ca_file : Option Text) → Destination

-- `Destination::id`
abbrev pub destination_id : Destination → Text
destination_id (http id _ _) = id
destination_id (http_v2 id _ _) = id
destination_id (postgres id _ _) = id
