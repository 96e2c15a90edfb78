-- ===== src/Ir/Grammar.antt =====
-- src/ir/grammar.rs: the selection of a grammar, and its check of a text.
use agent_response_gateway.Base.{
  ℕ, zero, suc, ◌+◌, Bool, false, not, ◌||◌, ◌&&◌, Option, none, some, List, [], ◌∷◌, ltb, ◌==◌,
  ◌!=◌, nat_eq, text_eq, Text, bytes, length, is_empty, is_some_and, Result, ok, err, ◌>>=◌, ◌>>◌,
  reject_if, ok_or, if◌then◌else◌,
}
use agent_response_gateway.Base.Hex.{hex_of}
use agent_response_gateway.Base.Json.{Value, string, object, Fields, no_fields, field, member}
use agent_response_gateway.Base.Strings.{strip_prefix, starts_with}
use agent_response_gateway.Base.Lines.{strip_suffix, split_terminator}
use agent_response_gateway.Ir.{IrError, invalid_field, unsupported_feature, size_limit}

abbrev pub patch_grammar_sha256 : Text
patch_grammar_sha256 =
    0xd6 ∷ 0x36 ∷ 0x7f ∷ 0x48 ∷ 0x26 ∷ 0xed ∷ 0x60 ∷ 0x8c ∷ 0x42 ∷ 0x4b ∷ 0x0a ∷ 0x30 ∷ 0x8f ∷ 0x3d
    ∷ 0x61 ∷ 0x63 ∷ 0x52 ∷ 0x7d ∷ 0xf6 ∷ 0x3c ∷ 0x22 ∷ 0x51 ∷ 0x3d ∷ 0x08 ∷ 0x9b ∷ 0x91 ∷ 0x86
    ∷ 0x35 ∷ 0x52 ∷ 0xf8 ∷ 0xbf ∷ 0xeb ∷ []

abbrev pub exec_grammar_sha256 : Text
exec_grammar_sha256 = bytes "8eead048e20069c17fcd0b6fe5ee9ed29364868723f8e08889de146a2b4b7a8e"

pub data Grammar : Type 0 where
  text codex_patch_v1 code_mode_source_v1 : Grammar

-- 8 * 1024 * 1024
abbrev pub max_text : ℕ
max_text = 8388608

abbrev pub too_long : Text → Bool
too_long value = ltb max_text (length value)

abbrev pub field_count : Fields → ℕ
field_count no_fields = 0
field_count (field _ _ fields) = suc (field_count fields)

abbrev pub as_str : Option Value → Option Text
as_str (some (string value)) = some value
as_str _ = none

abbrev pub is_str : Text → Option Value → Bool
is_str expected value = is_some_and (as_str value) (λ found. found == expected)

module _ (sha256 : Text → Text) where
  abbrev pub of_definition : Bool → Text → Result IrError Grammar
  of_definition code_mode definition =
      if code_mode && hex_of (sha256 definition) == exec_grammar_sha256
      then ok code_mode_source_v1
      else if sha256 definition != patch_grammar_sha256
      then err unsupported_feature
      else ok codex_patch_v1

  abbrev pub of_lark : Bool → Option Text → Result IrError Grammar
  of_lark code_mode none = err unsupported_feature
  of_lark code_mode (some definition) = of_definition code_mode definition

  abbrev pub of_fields : Bool → Fields → Result IrError Grammar
  of_fields code_mode fields =
      if is_str (bytes "text") (member (bytes "type") (object fields)) && field_count fields == 1
      then ok text
      else if is_str (bytes "grammar") (member (bytes "type") (object fields))
          && (field_count fields == 3
              && is_str (bytes "lark") (member (bytes "syntax") (object fields)))
      then of_lark code_mode (as_str (member (bytes "definition") (object fields)))
      else err unsupported_feature

  -- `Grammar::from_format_for_contract`
  unfoldable pub from_format_for_contract : Option Value → Bool → Result IrError Grammar
  from_format_for_contract none code_mode = ok text
  from_format_for_contract (some (object fields)) code_mode = of_fields code_mode fields
  from_format_for_contract (some _) code_mode = err unsupported_feature

  -- `Grammar::from_format`
  unfoldable pub from_format : Option Value → Result IrError Grammar
  unfolding from_format_for_contract
  from_format format = from_format_for_contract format false

-- `Grammar::version`
abbrev pub version : Grammar → Text
version text = bytes "text/1"
version codex_patch_v1 = bytes "codex-patch/1"
version code_mode_source_v1 = bytes "codex-code-mode-source/1"

abbrev pub bad_grammar : IrError
bad_grammar = invalid_field "custom_tool_grammar"

-- `line.strip_prefix(prefix).is_some_and(|v| !v.is_empty())`
abbrev pub has_path : Text → Text → Bool
has_path line prefix = is_some_and (strip_prefix prefix line) (λ v. not (is_empty v))

-- `while lines.peek().is_some_and(p) { lines.next(); count += 1 }`
unfoldable pub skip_while : (Text → Bool) → List Text → ℕ × List Text
skip_while p [] = (0, [])
skip_while p (line ∷ lines) =
    let (count, rest) = skip_while p lines in
    if p line then (count + 1, rest) else (0, line ∷ lines)

abbrev pub is_added : Text → Bool
is_added line = starts_with (bytes "+") line

abbrev pub is_changed : Text → Bool
is_changed line =
    line == bytes "@@"
    || (has_path line (bytes "@@ ")
        || (starts_with (bytes "+") line
            || (starts_with (bytes "-") line || starts_with (bytes " ") line)))

abbrev pub skip_move : List Text → List Text
skip_move [] = []
skip_move (line ∷ lines) = if has_path line (bytes "*** Move to: ") then lines else line ∷ lines

abbrev pub end_of_file : Bool → List Text → Result IrError (List Text)
end_of_file changed [] = ok []
end_of_file changed (line ∷ lines) =
    if line == bytes "*** End of File"
    then if changed then ok lines else err bad_grammar
    else ok (line ∷ lines)

unfoldable pub add_hunk : List Text → Result IrError (List Text)
unfolding skip_while
add_hunk lines =
    let (count, rest) = skip_while is_added lines in if count == 0 then err bad_grammar else ok rest

unfoldable pub update_hunk : List Text → Result IrError (List Text)
unfolding skip_while
update_hunk lines =
    let (count, rest) = skip_while is_changed (skip_move lines) in
    end_of_file (not (count == 0)) rest

-- One turn of the loop: the lines after the hunk that `line` starts.
unfoldable pub hunk : Text → List Text → Result IrError (List Text)
unfolding add_hunk update_hunk
hunk line lines =
    if has_path line (bytes "*** Add File: ")
    then add_hunk lines
    else if has_path line (bytes "*** Delete File: ")
    then ok lines
    else if has_path line (bytes "*** Update File: ")
    then update_hunk lines
    else err bad_grammar

-- The loop; each turn takes a line at least, so the number of lines is fuel enough.
unfoldable pub hunks : ℕ → List Text → Result IrError ℕ
unfolding hunk
hunks fuel [] = ok 0
hunks zero (line ∷ lines) = err bad_grammar
hunks (suc fuel) (line ∷ lines) = do rest ← hunk line lines; count ← hunks fuel rest; ok (count + 1)

abbrev pub last_is_line_feed : Text → Bool
last_is_line_feed [] = false
last_is_line_feed (b ∷ []) = b == b'\n'
last_is_line_feed (_ ∷ b ∷ value) = last_is_line_feed (b ∷ value)

abbrev pub unwrap_or : Option Text → Text → Text
unwrap_or none value = value
unwrap_or (some found) _ = found

abbrev pub then_strip_suffix : Text → Option Text → Option Text
then_strip_suffix suffix none = none
then_strip_suffix suffix (some value) = strip_suffix suffix value

unfoldable pub validate_patch : Text → Result IrError (Unit {0})
unfolding strip_suffix strip_prefix split_terminator hunks
validate_patch value = do
  let trimmed = unwrap_or (strip_suffix (bytes "\n") value) value
  body ←
      ok_or
        (then_strip_suffix (bytes "*** End Patch")
          (strip_prefix (bytes "*** Begin Patch\n") trimmed))
        bad_grammar
  reject_if (not (last_is_line_feed body)) bad_grammar
  let lines = split_terminator body
  count ← hunks (length lines) lines
  reject_if (count == 0) bad_grammar

-- `Grammar::validate`
unfoldable pub validate_grammar : Grammar → Text → Result IrError (Unit {0})
unfolding validate_patch
validate_grammar text value = reject_if (too_long value) size_limit
validate_grammar code_mode_source_v1 value = do
  reject_if (too_long value) size_limit
  reject_if (is_empty value) (invalid_field "code_mode_source")
validate_grammar codex_patch_v1 value = do
  reject_if (too_long value) size_limit
  validate_patch value
