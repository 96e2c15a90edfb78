-- ===== src/Ir/Continuity.antt =====
-- src/ir/continuity.rs: the native state of a provider that a continuation carries; with
-- valid_provider_protocol of crates/plugin-contract/src/lib.rs.
use agent_response_gateway.Base.{
  ℕ, Bool, false, not, ◌||◌, ◌&&◌, Option, none, some, List, [], ◌∷◌, ltb, leb, ◌==◌, ◌!=◌, nat_eq,
  text_eq, Text-discrete, Eq, Text, bytes, is_digit, is_lowercase, is_hex, length, all, any,
  is_empty, Result, ok, err, ◌>>◌, reject_if, if◌then◌else◌,
}
use agent_response_gateway.Base.Json.{Value, is_object}
use agent_response_gateway.Base.Lines.{split_once, with_first}
use agent_response_gateway.Ir.{IrError, continuity_mismatch}

pub data Outcome : Type 0 where
  completed awaiting_tools : Outcome

pub data ChatDialect : Type 0 where
  deep_seek open_router : ChatDialect

pub data NativeReplay : Type 0 where
  gemini : (version : ℕ) (steps : List Value) → NativeReplay
  chat : (version : ℕ) (dialect : ChatDialect) (assistant controls : Value) → NativeReplay
  messages : (version : ℕ) (blocks : List Value) (controls : Value) → NativeReplay

abbrev pub native_valid : NativeReplay → Bool
native_valid (gemini version steps) = version == 1 && not (is_empty steps)
native_valid (chat version dialect assistant controls) =
    version == 1 && (is_object assistant && is_object controls)
native_valid (messages version blocks controls) =
    version == 1 && (not (is_empty blocks) && is_object controls)

-- `NativeReplay::validate`
unfoldable pub validate_native : NativeReplay → Result IrError (Unit {0})
validate_native replay = reject_if (not (native_valid replay)) continuity_mismatch

pub record ProviderStateBinding : Type 0 where
  pub protocol : Text
  pub provider_protocol : Text
  pub id : Text
  pub version : Text
  pub package_sha256 : Text
  pub executable_sha256 : Text

unfoldable pub Binding-discrete : Discrete ProviderStateBinding
Binding-discrete = hlevel Text-discrete

instance abbrev pub binding_eq : Eq ProviderStateBinding
binding_eq = record { dec = Binding-discrete }

abbrev pub provider_protocol_name : Text
provider_protocol_name = bytes "gateway-provider/v1"

-- b"._-".contains(&b)
abbrev pub name_byte : ℕ → Bool
name_byte b = is_lowercase b || (is_digit b || (b == b'.' || (b == b'_' || b == b'-')))

abbrev pub first_is : (ℕ → Bool) → Text → Bool
first_is p [] = false
first_is p (b ∷ _) = p b

abbrev pub valid_name_and_version : Option (Text × Text) → Bool
valid_name_and_version none = false
valid_name_and_version (some (name, version)) =
    leb (length name) 64
    && (first_is is_lowercase name
        && (all name_byte name
            && (leb (length version) 6
                && (first_is (λ b. leb b'1' b && leb b b'9') version && all is_digit version))))

unfoldable pub valid_provider_protocol : Text → Bool
unfolding split_once
valid_provider_protocol value = valid_name_and_version (split_once (bytes "/v") value)

-- `split('.')`
unfoldable pub split_dot : Text → List Text
split_dot [] = [] ∷ []
split_dot (b ∷ text) =
    let rest = split_dot text in if b == b'.' then [] ∷ rest else with_first b rest

abbrev pub bad_part : Text → Bool
bad_part part =
    is_empty part
    || (ltb 6 (length part)
        || (not (all is_digit part) || (ltb 1 (length part) && first_is (λ b. b == b'0') part)))

abbrev pub is_hash : Text → Bool
is_hash value = length value == 64 && all is_hex value

abbrev pub id_byte : ℕ → Bool
id_byte b = is_lowercase b || (is_digit b || b == b'-')

-- `ProviderStateBinding::validate`
unfoldable pub validate_binding : ProviderStateBinding → Result IrError (Unit {0})
unfolding valid_provider_protocol split_dot
validate_binding binding =
    let parts = split_dot binding.version in
    reject_if
      (binding.protocol != provider_protocol_name
        || (not (valid_provider_protocol binding.provider_protocol)
            || (is_empty binding.id
                || (ltb 64 (length binding.id)
                    || (not (first_is is_lowercase binding.id)
                        || (not (all id_byte binding.id)
                            || (length parts != 3
                                || (any bad_part parts
                                    || (not (is_hash binding.package_sha256)
                                        || not (is_hash binding.executable_sha256))))))))))
      continuity_mismatch

pub record ProviderNativeState : Type 0 where
  pub binding : ProviderStateBinding
  pub format : Text
  pub version : ℕ
  pub bytes_of : List ℕ

abbrev pub max_bytes : ℕ
max_bytes = 1048576

-- `ProviderNativeState::new`
unfoldable pub new_state :
    ProviderStateBinding → Text → ℕ → List ℕ → Result IrError ProviderNativeState
unfolding validate_binding
new_state binding format version data_bytes = do
  validate_binding binding
  reject_if
      (is_empty format
        || (ltb 64 (length format)
            || (not (first_is is_lowercase format)
                || (not (all name_byte format)
                    || (version == 0 || ltb max_bytes (length data_bytes))))))
      continuity_mismatch
  ok (record { binding = binding; format = format; version = version; bytes_of = data_bytes })

abbrev pub is_other_format : ProviderNativeState → Option (Text × ℕ) → Bool
is_other_format state none = false
is_other_format state (some (format, version)) = format != state.format || version != state.version

-- `ProviderNativeState::validate_for`
unfoldable pub validate_for :
    ProviderNativeState → ProviderStateBinding → Option (Text × ℕ) → Result IrError (Unit {0})
unfolding validate_binding
validate_for state binding expected = do
  reject_if (state.binding != binding || is_other_format state expected) continuity_mismatch
  validate_binding binding

pub data NativeState : Type 0 where
  builtin : NativeReplay → NativeState
  provider : ProviderNativeState → NativeState

-- `NativeState::builtin` and `NativeState::provider`
abbrev pub as_builtin : NativeState → Result IrError NativeReplay
as_builtin (builtin value) = ok value
as_builtin (provider _) = err continuity_mismatch

abbrev pub as_provider : NativeState → Result IrError ProviderNativeState
as_provider (provider value) = ok value
as_provider (builtin _) = err continuity_mismatch
