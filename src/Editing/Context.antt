-- ===== src/Editing/Context.antt =====
-- `ContextEdit` of src/editing/mod.rs: an edit by its context, as a patch and back.
use agent_response_gateway.Base.{
  ℕ, ◌+◌, Bool, ◌||◌, List, [], ◌∷◌, ◌++◌, ltb, ◌==◌, ◌!=◌, nat_eq, text_eq, Text-discrete, Eq,
  Text, bytes, length, is_empty, any, Result, ok, err, ◌>>=◌, ◌>>◌, reject_if, ok_or, if◌then◌else◌,
}
use agent_response_gateway.Base.Strings.{strip_prefix, is_trimmable}
use agent_response_gateway.Base.Lines.{strip_suffix, split_once, split_terminator}
use agent_response_gateway.Ir.{IrError, invalid_field, size_limit, any_control}
use agent_response_gateway.Ir.Grammar.{too_long, codex_patch_v1, validate_grammar}

unfoldable pub Lines-discrete : Discrete (List Text)
Lines-discrete = hlevel Text-discrete

instance abbrev pub lines_eq : Eq (List Text)
lines_eq = record { dec = Lines-discrete }

pub record ContextEdit : Type 0 where
  pub path : Text
  pub before_context : List Text
  pub old_lines : List Text
  pub new_lines : List Text
  pub after_context : List Text

abbrev pub invalid : IrError
invalid = invalid_field "structured_edit"

-- `path.is_empty() || path.trim() != path || path.chars().any(char::is_control)`
abbrev pub bad_path : Text → Bool
bad_path path = is_empty path || (is_trimmable path || any_control path)

-- `s.contains(['\n', '\r', '\0'])`
abbrev pub is_break : ℕ → Bool
is_break b = b == b'\n' || (b == b'\r' || b == 0)

abbrev pub has_break : Text → Bool
has_break line = any is_break line

abbrev pub all_lines : ContextEdit → List Text
all_lines edit = edit.before_context ++ edit.old_lines ++ edit.new_lines ++ edit.after_context

abbrev pub bad_edit : ContextEdit → Bool
bad_edit edit = bad_path edit.path || (edit.old_lines == edit.new_lines || is_empty edit.old_lines)

abbrev pub bad_lines : ContextEdit → Bool
bad_lines edit =
    ltb 16384 (
      length edit.before_context
      + (length edit.old_lines + (length edit.new_lines + length edit.after_context)))
    || any has_break (all_lines edit)

abbrev pub begin_patch : Text
begin_patch = bytes "*** Begin Patch\n"

abbrev pub end_patch : Text
end_patch = bytes "*** End Patch"

abbrev pub update_file : Text
update_file = bytes "*** Update File: "

abbrev pub hunk_mark : Text
hunk_mark = bytes "\n@@\n"

-- One line of a patch, with its prefix.
abbrev pub marked : ℕ → Text → Text
marked prefix line = prefix ∷ (line ++ bytes "\n")

unfoldable pub push_lines : ℕ → List Text → Text → Result IrError Text
push_lines prefix [] patch = ok patch
push_lines prefix (line ∷ lines) patch = do
  reject_if (too_long (patch ++ marked prefix line)) size_limit
  push_lines prefix lines (patch ++ marked prefix line)

-- `ContextEdit::compile`
unfoldable pub compile : ContextEdit → Result IrError Text
unfolding push_lines validate_grammar
compile edit = do
  reject_if (bad_edit edit) invalid
  reject_if (bad_lines edit) invalid
  before ←
      push_lines b' ' edit.before_context (begin_patch ++ update_file ++ edit.path ++ hunk_mark)
  old ← push_lines b'-' edit.old_lines before
  new ← push_lines b'+' edit.new_lines old
  after ← push_lines b' ' edit.after_context new
  validate_grammar codex_patch_v1 (after ++ end_patch)
  ok (after ++ end_patch)

-- The part of a patch that its lines have reached, and the edit read so far.
pub data Phase : Type 0 where
  in_before in_old in_new in_after : Phase

abbrev pub push_before : Text → ContextEdit → ContextEdit
push_before line edit = record edit { before_context = edit.before_context ++ line ∷ [] }

abbrev pub push_old : Text → ContextEdit → ContextEdit
push_old line edit = record edit { old_lines = edit.old_lines ++ line ∷ [] }

abbrev pub push_new : Text → ContextEdit → ContextEdit
push_new line edit = record edit { new_lines = edit.new_lines ++ line ∷ [] }

abbrev pub push_after : Text → ContextEdit → ContextEdit
push_after line edit = record edit { after_context = edit.after_context ++ line ∷ [] }

-- The arms of `match prefix`
abbrev pub on_space : Phase → Text → ContextEdit → Phase × ContextEdit
on_space in_before line edit = (in_before, push_before line edit)
on_space _ line edit = (in_after, push_after line edit)

abbrev pub on_minus : Phase → Text → ContextEdit → Result IrError (Phase × ContextEdit)
on_minus in_before line edit = ok (in_old, push_old line edit)
on_minus in_old line edit = ok (in_old, push_old line edit)
on_minus _ line edit = err invalid

abbrev pub on_plus : Phase → Text → ContextEdit → Result IrError (Phase × ContextEdit)
on_plus in_old line edit = ok (in_new, push_new line edit)
on_plus in_new line edit = ok (in_new, push_new line edit)
on_plus _ line edit = err invalid

-- A line that does not start with an ASCII character has none of the prefixes.
unfoldable pub read_line : Text → Phase → ContextEdit → Result IrError (Phase × ContextEdit)
read_line [] phase edit = err invalid
read_line (b ∷ line) phase edit =
    if b == b' '
    then ok (on_space phase line edit)
    else if b == b'-'
    then on_minus phase line edit
    else if b == b'+'
    then on_plus phase line edit
    else err invalid

unfoldable pub read_lines : List Text → Phase → ContextEdit → Result IrError (Phase × ContextEdit)
unfolding read_line
read_lines [] phase edit = ok (phase, edit)
read_lines (line ∷ lines) phase edit = do
  (next, read) ← read_line line phase edit
  read_lines lines next read

abbrev pub empty_edit : Text → ContextEdit
empty_edit path = record {
  path = path;
  before_context = [];
  old_lines = [];
  new_lines = [];
  after_context = [];
}

-- `ContextEdit::from_patch`
unfoldable pub from_patch : Text → Result IrError ContextEdit
unfolding strip_prefix strip_suffix split_once split_terminator read_lines compile
from_patch patch = do
  body ← ok_or (strip_prefix (begin_patch ++ update_file) patch) invalid
  (path, rest) ← ok_or (split_once hunk_mark body) invalid
  lines ← ok_or (strip_suffix end_patch rest) invalid
  (_, value) ← read_lines (split_terminator lines) in_before (empty_edit path)
  compiled ← compile value
  reject_if (compiled != patch) invalid
  ok value
