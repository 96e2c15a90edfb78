-- ===== src/Editing/Tests.antt =====
-- Small edits and bundles, as patches and back, and the theorems at them.
use agent_response_gateway.Base.{
  ◌≡◌, refl, arith, false, Option, none, some, List, [], ◌∷◌, ◌++◌, Text, Text-discrete, ℕ_discrete,
  bytes, ok, err,
}
use agent_response_gateway.Base.Strings.{strip_prefix, is_space, ends_in_space, is_trimmable}
use agent_response_gateway.Base.Lines.{strip_suffix, split_once, split_terminator}
use agent_response_gateway.Ir.{any_control}
use agent_response_gateway.Ir.Grammar.{
  skip_while, add_hunk, update_hunk, hunk, hunks, validate_patch, validate_grammar,
}
use agent_response_gateway.Editing.Context.{
  ContextEdit, Lines-discrete, invalid, bad_edit, bad_lines, push_lines, compile, read_line,
  read_lines, from_patch, end_patch,
}
use agent_response_gateway.Editing.Rendered.{header_of, body_of}
use agent_response_gateway.Editing.Inverse.{compile-from_patch}
use agent_response_gateway.Editing.Accepts.{compile-accepts}
use agent_response_gateway.Editing.Operations.{
  Operation, create, delete, move, update, touch, lines_valid, written, push_operations,
  compile_bundle, grouped, chunks_of, unmarked, read_move, read_edit, read_update, read_other,
  read_added, read_chunk, read_chunks, bundle_from_patch,
}
use agent_response_gateway.Editing.Paths.{split_slash, push_part, push_parts, path_key}
use agent_response_gateway.Editing.Bundles.{compile_bundle-inverse}
use agent_response_gateway.Editing.Envelope.{Texts, helper_program, helper_patch}
use agent_response_gateway.Editing.Helper.{helper_program-inverse}

abbrev edit : ContextEdit
edit = record {
  path = bytes "a";
  before_context = [];
  old_lines = bytes "x" ∷ [];
  new_lines = bytes "y" ∷ [];
  after_context = bytes "z" ∷ [];
}

abbrev patch : Text
patch = bytes "*** Begin Patch\n*** Update File: a\n@@\n-x\n+y\n z\n*** End Patch"

edit_compiles : compile edit ≡ ok patch
unfolding Lines-discrete Text-discrete ℕ_discrete strip_prefix strip_suffix split_once
    split_terminator is_space ends_in_space is_trimmable any_control skip_while add_hunk update_hunk
    hunk hunks validate_patch validate_grammar push_lines compile read_line read_lines from_patch
edit_compiles = refl

edit_reads : from_patch patch ≡ ok edit
unfolding Lines-discrete Text-discrete ℕ_discrete strip_prefix strip_suffix split_once
    split_terminator is_space ends_in_space is_trimmable any_control skip_while add_hunk update_hunk
    hunk hunks validate_patch validate_grammar push_lines compile read_line read_lines from_patch
edit_reads = refl

other_prefix :
    from_patch (bytes "*** Begin Patch\n*** Update File: a\n@@\n+y\n-x\n*** End Patch")
    ≡ err invalid
unfolding Lines-discrete Text-discrete ℕ_discrete strip_prefix strip_suffix split_once
    split_terminator is_space ends_in_space is_trimmable any_control skip_while add_hunk update_hunk
    hunk hunks validate_patch validate_grammar push_lines compile read_line read_lines from_patch
other_prefix = refl

compile-from_patch_example :
    ((compile edit ≡ ok patch) → (from_patch patch ≡ ok edit))
    × ((from_patch patch ≡ ok edit) → (compile edit ≡ ok patch))
compile-from_patch_example = compile-from_patch edit patch

good_edit : bad_edit edit ≡ false
unfolding Lines-discrete Text-discrete ℕ_discrete strip_prefix strip_suffix split_once
    split_terminator is_space ends_in_space is_trimmable any_control skip_while add_hunk update_hunk
    hunk hunks validate_patch validate_grammar push_lines compile read_line read_lines from_patch
good_edit = refl

good_lines : bad_lines edit ≡ false
unfolding Lines-discrete Text-discrete ℕ_discrete strip_prefix strip_suffix split_once
    split_terminator is_space ends_in_space is_trimmable any_control skip_while add_hunk update_hunk
    hunk hunks validate_patch validate_grammar push_lines compile read_line read_lines from_patch
good_lines = refl

compile-accepts_example : compile edit ≡ ok (header_of edit ++ body_of edit ++ end_patch)
compile-accepts_example = compile-accepts edit good_edit good_lines (omega arith)

abbrev as_is : Text → Text
as_is text = text

abbrev bundle : List Operation
bundle =
    create (bytes "n") (bytes "one" ∷ [])
    ∷ delete (bytes "d")
    ∷ move (bytes "s") (bytes "t/u") (bytes "k" ∷ [])
    ∷ update edit
    ∷ []

abbrev bundle_patch : Text
bundle_patch =
    bytes "*** Begin Patch\n*** Add File: n\n+one\n*** Delete File: d\n"
    ++ bytes "*** Update File: s\n*** Move to: t/u\n@@\n k\n"
    ++ bytes "*** Update File: a\n@@\n-x\n+y\n z\n*** End Patch"

bundle_compiles : compile_bundle as_is bundle ≡ ok bundle_patch
unfolding Lines-discrete Text-discrete ℕ_discrete strip_prefix strip_suffix split_once
    split_terminator is_space ends_in_space is_trimmable any_control skip_while add_hunk update_hunk
    hunk hunks validate_patch validate_grammar push_lines compile read_line read_lines from_patch
    split_slash push_part push_parts path_key touch lines_valid written push_operations
    compile_bundle grouped chunks_of unmarked read_move read_edit read_update read_other read_added
    read_chunk read_chunks bundle_from_patch
bundle_compiles = refl

bundle_reads : bundle_from_patch as_is bundle_patch ≡ ok bundle
unfolding Lines-discrete Text-discrete ℕ_discrete strip_prefix strip_suffix split_once
    split_terminator is_space ends_in_space is_trimmable any_control skip_while add_hunk update_hunk
    hunk hunks validate_patch validate_grammar push_lines compile read_line read_lines from_patch
    split_slash push_part push_parts path_key touch lines_valid written push_operations
    compile_bundle grouped chunks_of unmarked read_move read_edit read_update read_other read_added
    read_chunk read_chunks bundle_from_patch
bundle_reads = refl

-- A path inside another one's is refused.
nested_paths : compile_bundle as_is (delete (bytes "d") ∷ delete (bytes "./d/e") ∷ []) ≡ err invalid
unfolding Lines-discrete Text-discrete ℕ_discrete strip_prefix strip_suffix split_once
    split_terminator is_space ends_in_space is_trimmable any_control skip_while add_hunk update_hunk
    hunk hunks validate_patch validate_grammar push_lines compile read_line read_lines from_patch
    split_slash push_part push_parts path_key touch lines_valid written push_operations
    compile_bundle grouped chunks_of unmarked read_move read_edit read_update read_other read_added
    read_chunk read_chunks bundle_from_patch
nested_paths = refl

compile_bundle-inverse_example :
    ((compile_bundle as_is bundle ≡ ok bundle_patch)
      → (bundle_from_patch as_is bundle_patch ≡ ok bundle))
    × ((bundle_from_patch as_is bundle_patch ≡ ok bundle)
        → (compile_bundle as_is bundle ≡ ok bundle_patch))
compile_bundle-inverse_example = compile_bundle-inverse as_is bundle bundle_patch

-- Strings without a character to escape, in their quotes.
abbrev quoted : Text → Text
quoted text = b'"' ∷ (text ++ b'"' ∷ [])

abbrev drop_last : Text → Text
drop_last [] = []
drop_last (_ ∷ []) = []
drop_last (b ∷ c ∷ text) = b ∷ drop_last (c ∷ text)

abbrev unquoted : Text → Option Text
unquoted [] = none
unquoted (_ ∷ text) = some (drop_last text)

abbrev texts : Texts
texts = record {
  string_json = quoted;
  read_string = unquoted;
  read_edit = λ raw. none;
  edit_json = λ e. [];
  read_bundle = λ raw. none;
  bundle_json = λ b. [];
  result_json = λ v. [];
  read_result = λ raw. none;
}

abbrev program : Text
program =
    bytes
      "const result = await tools.apply_patch(\"*** Begin Patch\n*** Delete File: d\n*** End Patch\");\ntext(result);"

abbrev deletion : Text
deletion = bytes "*** Begin Patch\n*** Delete File: d\n*** End Patch"

helper_wraps : helper_program texts deletion ≡ ok program
unfolding Lines-discrete Text-discrete ℕ_discrete strip_prefix strip_suffix split_once
    split_terminator is_space ends_in_space is_trimmable any_control skip_while add_hunk update_hunk
    hunk hunks validate_patch validate_grammar helper_program
helper_wraps = refl

helper_program-inverse_example :
    ((helper_program texts deletion ≡ ok program) → (helper_patch texts program ≡ ok deletion))
    × ((helper_patch texts program ≡ ok deletion) → (helper_program texts deletion ≡ ok program))
helper_program-inverse_example = helper_program-inverse texts deletion program refl
