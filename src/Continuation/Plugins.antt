-- ===== src/Continuation/Plugins.antt =====
-- A replay of a provider plugin, and the theorem of Continuation.Normalized at it.
use agent_response_gateway.Base.{◌≡◌, refl, none, [], text_eq, bytes, ok, Text-discrete, ℕ_discrete}
use agent_response_gateway.Base.Json.{Value, object, field_of, field, no_fields, string}
use agent_response_gateway.Base.Lines.{split_once}
use agent_response_gateway.Ir.Continuity.{
  completed, NativeState, provider, ProviderStateBinding, provider_protocol_name, new_state,
  validate_binding, valid_provider_protocol, split_dot,
}
use agent_response_gateway.Continuation.Contract.{label, validate_origin}
use agent_response_gateway.Continuation.Replays.{
  v3, replay_v3, from_internal, validate_v3, matches_origin, decode_provider_state, ReplayRecord,
  validate_record, metadata,
}
use agent_response_gateway.Continuation.Native.{
  ReplayMetadataOwned, from_native, into_normalized, record_of,
}
use agent_response_gateway.Continuation.Normalized.{
  normalized_of, metadata_of, from_native-into_normalized,
}
use agent_response_gateway.Continuation.Tests.{origin}
use agent_response_gateway.Continuation.Envelopes.{sha_text, codec}

abbrev binding : ProviderStateBinding
binding = record {
  protocol = provider_protocol_name;
  provider_protocol = bytes "sample/v1";
  id = bytes "sample";
  version = bytes "1.0.10";
  package_sha256 = sha_text;
  executable_sha256 = sha_text;
}

abbrev plugin_route : Value
plugin_route = object (
    field (bytes "api") (string (bytes "plugin")) (
      field (bytes "provider_plugin")
        (object (
          field (bytes "protocol") (string binding.protocol) (
            field (bytes "provider_protocol") (string binding.provider_protocol) (
              field (bytes "id") (string binding.id) (
                field (bytes "version") (string binding.version) (
                  field (bytes "package_sha256") (string sha_text)
                    (field (bytes "executable_sha256") (string sha_text) no_fields)))))))
        no_fields))

abbrev plugin_metadata : ReplayMetadataOwned
plugin_metadata = record {
  session = bytes "s";
  epoch = 1;
  origin = record origin { route = plugin_route };
  response = bytes "resp_u";
  parent = none;
  input_len = 1;
  input_sha256 = sha_text;
  outcome = completed;
}

abbrev plugin_state : NativeState
plugin_state =
    provider
      (record { binding = binding; format = bytes "blob"; version = 1; bytes_of = bytes "state" })

abbrev plugin_replay : ReplayRecord
plugin_replay = v3 (record {
  schema = replay_v3;
  session = bytes "s";
  epoch = 1;
  origin = record origin { route = plugin_route };
  response = bytes "resp_u";
  parent = none;
  input_len = 1;
  input_sha256 = sha_text;
  outcome = completed;
  native =
      from_internal codec.base64 (record {
        binding = binding;
        format = bytes "blob";
        version = 1;
        bytes_of = bytes "state";
      });
  output = [];
})

builds : from_native codec.base64 plugin_metadata plugin_state [] ≡ ok plugin_replay
unfolding from_native record_of validate_record validate_v3 matches_origin label validate_origin
    decode_provider_state new_state validate_binding valid_provider_protocol split_dot split_once
    field_of Text-discrete ℕ_discrete
builds = refl

from_native-into_normalized_example :
    (into_normalized codec.base64 plugin_replay
      ≡ ok (normalized_of plugin_metadata plugin_state []))
    × (metadata plugin_replay ≡ metadata_of plugin_metadata)
from_native-into_normalized_example =
    from_native-into_normalized codec.base64 plugin_metadata plugin_state [] plugin_replay
      (λ _. refl) builds
