-- ===== src/Editing/Envelope.antt =====
-- src/editing/mod.rs: policies, the wrapper of a patch as a program, code-mode results, and the
-- normalization of a patch's envelope.
use agent_response_gateway.Base.{
  ℕ, suc, Bool, true, false, not, ◌||◌, ◌&&◌, Option, none, some, List, [], ◌∷◌, ◌++◌, ltb, ◌==◌,
  ◌!=◌, nat_eq, text_eq, Text, bytes, is_hex, length, all, is_some, is_none, is_some_and, Result,
  ok, err, ◌>>=◌, ◌>>◌, reject_if, ok_or, if◌then◌else◌,
}
use agent_response_gateway.Base.Json.{Value, array, object, Elements, no_elements, element, member}
use agent_response_gateway.Base.Strings.{strip_prefix}
use agent_response_gateway.Base.Lines.{strip_suffix, split_once}
use agent_response_gateway.Ir.{IrError, unsupported_version, size_limit}
use agent_response_gateway.Ir.Grammar.{
  too_long, then_strip_suffix, unwrap_or, field_count, as_str, is_str, codex_patch_v1,
  validate_grammar,
}
use agent_response_gateway.Editing.Context.{ContextEdit, invalid, compile, from_patch}
use agent_response_gateway.Editing.Operations.{Operation, compile_bundle, bundle_from_patch}

pub data ClientContract : Type 0 where
  direct code_mode : ClientContract

pub data Representation : Type 0 where
  operations patch_text context_lines : Representation

pub data PatchDialect : Type 0 where
  codex_patch : PatchDialect

pub data Normalization : Type 0 where
  unchanged patch_envelope : Normalization

pub record Policy : Type 0 where
  pub version : ℕ
  pub client_contract : ClientContract
  pub representation : Representation
  pub patch_dialect : PatchDialect
  pub normalization : Normalization
  pub client_descriptor_sha256 : Option Text

abbrev pub descriptor_valid : ClientContract → Option Text → Bool
descriptor_valid direct sha256 = is_none sha256
descriptor_valid code_mode sha256 = is_some_and sha256 (λ s. length s == 64 && all is_hex s)

abbrev pub normalizes_code_mode : ClientContract → Normalization → Bool
normalizes_code_mode code_mode patch_envelope = true
normalizes_code_mode _ _ = false

-- `Policy::validate`
unfoldable pub validate_policy : Policy → Result IrError (Unit {0})
validate_policy policy =
    reject_if
      (policy.version != 1
        || (not (descriptor_valid policy.client_contract policy.client_descriptor_sha256)
            || normalizes_code_mode policy.client_contract policy.normalization))
      unsupported_version

abbrev pub wrapper_prefix : Text
wrapper_prefix = bytes "const result = await tools.apply_patch("

abbrev pub wrapper_suffix : Text
wrapper_suffix = bytes ");\ntext(result);"

-- serde_json's texts and what it reads: of a string, an edit, a bundle, and a code-mode result.
pub record Texts : Type 0 where
  pub string_json : Text → Text
  pub read_string : Text → Option Text
  pub read_edit : Text → Option ContextEdit
  pub edit_json : ContextEdit → Text
  pub read_bundle : Text → Option (List Operation)
  pub bundle_json : List Operation → Text
  pub result_json : Value → Text
  pub read_result : Text → Option (Text × Value)

module _ (x : Texts) where
  unfoldable pub helper_program : Text → Result IrError Text
  unfolding validate_grammar
  helper_program patch = do
    validate_grammar codex_patch_v1 patch
    let program = wrapper_prefix ++ (x.string_json patch ++ wrapper_suffix)
    reject_if (too_long program) size_limit
    ok program

  unfoldable pub helper_patch : Text → Result IrError Text
  unfolding strip_prefix strip_suffix helper_program
  helper_patch program = do
    reject_if (too_long program) size_limit
    encoded ← ok_or (then_strip_suffix wrapper_suffix (strip_prefix wrapper_prefix program)) invalid
    patch ← ok_or (x.read_string encoded) invalid
    again ← helper_program patch
    reject_if (again != program) invalid
    ok patch

  -- `v.as_object().is_none_or(|m| m.len() != 2 || v["type"] != "input_text" || !v["text"].is_string())`
  abbrev pub is_bad_part : Value → Bool
  is_bad_part (object fields) =
      field_count fields != 2
      || (not (is_str (bytes "input_text") (member (bytes "type") (object fields)))
          || not (is_some (as_str (member (bytes "text") (object fields)))))
  is_bad_part _ = true

  unfoldable pub any_bad_part : Elements → Bool
  any_bad_part no_elements = false
  any_bad_part (element value values) = is_bad_part value || any_bad_part values

  abbrev pub element_count : Elements → ℕ
  element_count no_elements = 0
  element_count (element _ values) = suc (element_count values)

  unfoldable pub code_mode_result : Value → Result IrError Text
  unfolding any_bad_part
  code_mode_result (array values) = do
    reject_if (ltb 4096 (element_count values) || any_bad_part values) invalid
    reject_if (too_long (x.result_json (array values))) size_limit
    ok (x.result_json (array values))
  code_mode_result _ = err invalid

  unfoldable pub code_mode_result_parts : Text → Result IrError Value
  unfolding code_mode_result
  code_mode_result_parts text = do
    reject_if (too_long text) size_limit
    (schema, parts) ← ok_or (x.read_result text) invalid
    reject_if (schema != bytes "codex-exec-text-parts/v1") invalid
    result ← code_mode_result parts
    reject_if (result != text) invalid
    ok parts

  unfoldable pub edit_from_json : Text → Result IrError ContextEdit
  edit_from_json raw = do reject_if (too_long raw) size_limit; ok_or (x.read_edit raw) invalid

  unfoldable pub bundle_from_json : Text → Result IrError (List Operation)
  bundle_from_json raw = do reject_if (too_long raw) size_limit; ok_or (x.read_bundle raw) invalid

  -- `Representation::compile` and `Representation::decode`
  unfoldable pub compile_as : (Text → Text) → Representation → Text → Result IrError Text
  unfolding edit_from_json bundle_from_json compile compile_bundle
  compile_as to_lowercase context_lines raw = do edit ← edit_from_json raw; compile edit
  compile_as to_lowercase operations raw = do
    bundle ← bundle_from_json raw
    compile_bundle to_lowercase bundle
  compile_as to_lowercase patch_text raw = err invalid

  unfoldable pub decode_as : (Text → Text) → Representation → Text → Result IrError Text
  unfolding from_patch bundle_from_patch
  decode_as to_lowercase context_lines patch = do edit ← from_patch patch; ok (x.edit_json edit)
  decode_as to_lowercase operations patch = do
    bundle ← bundle_from_patch to_lowercase patch
    ok (x.bundle_json bundle)
  decode_as to_lowercase patch_text patch = err invalid

pub record NormalizedPatch : Type 0 where
  pub text : Text
  pub applied_rule : Option Text

-- `rsplit_once('\n')`
unfoldable pub rsplit_line : Text → Option (Text × Text)
rsplit_line [] = none
rsplit_line (b ∷ text) = elim (rsplit_line text) [
  | some (before, after) ↦ some (b ∷ before, after)
  | none ↦ if b == b'\n' then some ([], text) else none
]

abbrev pub as_given : Text → NormalizedPatch
as_given text = record { text = text; applied_rule = none }

abbrev pub is_begin : Text → Bool
is_begin line = line == bytes "*** Begin Patch" || line == bytes "*** Begin Patch ***"

abbrev pub is_end : Text → Bool
is_end line = line == bytes "*** End Patch" || line == bytes "*** End Patch ***"

abbrev pub needs_nothing : Text → Text → Bool
needs_nothing first last =
    not (is_begin first)
    || (not (is_end last) || (first == bytes "*** Begin Patch" && last == bytes "*** End Patch"))

abbrev pub line_feed_if : Bool → Text
line_feed_if true = bytes "\n"
line_feed_if false = []

unfoldable pub corrected : Text → Bool → Text
corrected middle terminal =
    bytes "*** Begin Patch\n" ++ (middle ++ (bytes "\n*** End Patch" ++ line_feed_if terminal))

unfoldable pub correct : Text → Bool → Text → Text → Text → Result IrError NormalizedPatch
unfolding validate_grammar corrected
correct text terminal first middle last =
    if needs_nothing first last
    then ok (as_given text)
    else validate_grammar codex_patch_v1 (corrected middle terminal)
      >> ok (record {
        text = corrected middle terminal;
        applied_rule = some (bytes "patch-envelope/v1");
      })

abbrev pub with_last : Text → Bool → Text → Option (Text × Text) → Result IrError NormalizedPatch
with_last text terminal first none = ok (as_given text)
with_last text terminal first (some (middle, last)) = correct text terminal first middle last

abbrev pub with_lines : Text → Bool → Option (Text × Text) → Result IrError NormalizedPatch
with_lines text terminal none = ok (as_given text)
with_lines text terminal (some (first, rest)) = with_last text terminal first (rsplit_line rest)

unfoldable pub normalize_patch_envelope : Text → Result IrError NormalizedPatch
unfolding strip_suffix split_once rsplit_line correct
normalize_patch_envelope text = do
  reject_if (too_long text) size_limit
  let stripped = strip_suffix (bytes "\n") text
  with_lines text (is_some stripped) (split_once (bytes "\n") (unwrap_or stripped text))
