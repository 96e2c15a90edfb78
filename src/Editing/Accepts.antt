-- ===== src/Editing/Accepts.antt =====
-- Which edits `compile` of src/editing/mod.rs accepts: the grammar never refuses what it writes.
use agent_response_gateway.Base.{
  ℕ, ◌≡◌, ◌≤◌, refl, sym, arith, false, none, List, [], ◌∷◌, ◌++◌, ◌==◌, nat_eq, text_eq, Text,
  Text-discrete, ℕ_discrete, bytes, length, length-append, is_empty, any, ok, ap, ◌∙◌,
}
use mathlib.Core.List.{append_assoc, append-nil}
use agent_response_gateway.Base.Strings.{strip_prefix, strip_prefix-append}
use agent_response_gateway.Base.Lines.{
  strip_suffix, strip_suffix-append, split_terminator, split_terminator-line, OneLine,
}
use agent_response_gateway.Ir.{any_control}
use agent_response_gateway.Ir.Grammar.{
  max_text, too_long, update_hunk, hunk, hunks, validate_patch, validate_grammar, codex_patch_v1,
}
use agent_response_gateway.Editing.Context.{
  ContextEdit, bad_edit, bad_lines, has_break, all_lines, marked, push_lines, compile, begin_patch,
  update_file, hunk_mark, end_patch,
}
use agent_response_gateway.Editing.Rendered.{
  rendered, body_of, body_lines, header_of, inner, path-OneLine,
}
use agent_response_gateway.Editing.Inverse.{split_body}
use agent_response_gateway.Editing.Inner.{
  AllChanged, body_lines-AllChanged, skip_while-AllChanged, no_line_feed_after, inner_last,
}

push_lines-fits :
    (prefix : ℕ) (lines : List Text) (patch : Text)
    → length (patch ++ rendered prefix lines) ≤ max_text
    → push_lines prefix lines patch ≡ ok (patch ++ rendered prefix lines)
unfolding push_lines
push_lines-fits prefix [] patch h = ap ok (sym (append-nil patch))
push_lines-fits prefix (line ∷ lines) patch h =
    let assoc = append_assoc patch (marked prefix line) (rendered prefix lines) in
    let total = length-append (patch ++ marked prefix line) (rendered prefix lines) in
    let whole : length (patch ++ marked prefix line ++ rendered prefix lines) ≤ max_text =
      rw assoc h in
    let short : too_long (patch ++ marked prefix line) ≡ false =
      let n : length (patch ++ marked prefix line) ≤ max_text = omega (arith, total, whole) in
      ground arith in
    rw short (push_lines-fits prefix lines (patch ++ marked prefix line) whole ∙ ap ok assoc)

-- Every line of the body belongs to its hunk.

pub inner_lines :
    (edit : ContextEdit)
    → any_control edit.path ≡ false
    → any has_break (all_lines edit) ≡ false
    → split_terminator (inner edit) ≡ (update_file ++ edit.path) ∷ bytes "@@" ∷ body_lines edit
unfolding ℕ_discrete
inner_lines edit path lines =
    let one : OneLine (update_file ++ edit.path) = path-OneLine edit.path path in
    split_terminator-line (update_file ++ edit.path) (bytes "@@\n" ++ body_of edit) one
    ∙ ap (λ t. (update_file ++ edit.path) ∷ t)
        (split_terminator-line (bytes "@@") (body_of edit) refl
          ∙ ap (λ t. bytes "@@" ∷ t) (split_body edit lines))

update_hunk-body : (edit : ContextEdit) → update_hunk (bytes "@@" ∷ body_lines edit) ≡ ok []
unfolding update_hunk AllChanged Text-discrete ℕ_discrete strip_prefix
update_hunk-body edit =
    let all : AllChanged (bytes "@@" ∷ body_lines edit) = (refl, body_lines-AllChanged edit) in
    rw (skip_while-AllChanged (bytes "@@" ∷ body_lines edit) all) refl

hunk-body :
    (edit : ContextEdit)
    → is_empty edit.path ≡ false
    → hunk (update_file ++ edit.path) (bytes "@@" ∷ body_lines edit) ≡ ok []
unfolding hunk strip_prefix ℕ_discrete
hunk-body edit h = rw (h, update_hunk-body edit) refl

one_hunk : ◌==◌ {A = ℕ} 1 0 ≡ false
unfolding ℕ_discrete
one_hunk = refl

validate_patch-inner :
    (edit : ContextEdit)
    → is_empty edit.path ≡ false
    → any_control edit.path ≡ false
    → any has_break (all_lines edit) ≡ false
    → validate_patch (begin_patch ++ (inner edit ++ end_patch)) ≡ ok tt
unfolding validate_patch hunks
validate_patch-inner edit some_path path lines =
    let untrimmed : strip_suffix (bytes "\n") (begin_patch ++ (inner edit ++ end_patch)) ≡ none =
      no_line_feed_after (begin_patch ++ inner edit) in
    rw
      (
        untrimmed,
        strip_prefix-append begin_patch (inner edit ++ end_patch),
        strip_suffix-append end_patch (inner edit),
        inner_last edit,
        inner_lines edit path lines,
        hunk-body edit some_path,
        one_hunk,
      )
      refl

-- The steps of compile, when none of them fails.
compile_steps :
    (edit : ContextEdit) (before old new after : Text)
    → bad_edit edit ≡ false
    → bad_lines edit ≡ false
    → push_lines b' ' edit.before_context (header_of edit) ≡ ok before
    → push_lines b'-' edit.old_lines before ≡ ok old
    → push_lines b'+' edit.new_lines old ≡ ok new
    → push_lines b' ' edit.after_context new ≡ ok after
    → validate_grammar codex_patch_v1 (after ++ end_patch) ≡ ok tt
    → compile edit ≡ ok (after ++ end_patch)
unfolding compile
compile_steps edit before old new after good lines e1 e2 e3 e4 valid =
    rw (good, lines, e1, e2, e3, e4, valid) refl

-- The guards of compile, and the size of the patch, are all that is refused: an edit that passes them compiles to its text, so the grammar refuses none of them.
pub compile-accepts :
    (edit : ContextEdit)
    → bad_edit edit ≡ false
    → bad_lines edit ≡ false
    → length (header_of edit ++ body_of edit ++ end_patch) ≤ max_text
    → compile edit ≡ ok (header_of edit ++ body_of edit ++ end_patch)
unfolding validate_grammar
compile-accepts edit good lines small =
    let before = header_of edit ++ rendered b' ' edit.before_context in
    let old = before ++ rendered b'-' edit.old_lines in
    let new = old ++ rendered b'+' edit.new_lines in
    let after = new ++ rendered b' ' edit.after_context in
    let whole : after ≡ header_of edit ++ body_of edit =
      append_assoc old (rendered b'+' edit.new_lines) (rendered b' ' edit.after_context)
      ∙ append_assoc before (rendered b'-' edit.old_lines)
          (rendered b'+' edit.new_lines ++ rendered b' ' edit.after_context)
      ∙ append_assoc (header_of edit) (rendered b' ' edit.before_context) _ in
    let l1 = length-append before (rendered b'-' edit.old_lines) in
    let l2 = length-append old (rendered b'+' edit.new_lines) in
    let l3 = length-append new (rendered b' ' edit.after_context) in
    let l4 = length-append (header_of edit ++ body_of edit) end_patch in
    let l5 : length after ≡ length (header_of edit ++ body_of edit) = ap length whole in
    let unbroken : any has_break (all_lines edit) ≡ false = ground arith in
    let some_path : is_empty edit.path ≡ false = ground arith in
    let path : any_control edit.path ≡ false = ground arith in
    let fits : too_long (header_of edit ++ body_of edit ++ end_patch) ≡ false = ground arith in
    let shape : header_of edit ++ body_of edit ++ end_patch
        ≡ begin_patch ++ (inner edit ++ end_patch) =
      ap (λ t. begin_patch ++ (t ++ end_patch))
        (append_assoc (update_file ++ edit.path) hunk_mark (body_of edit)) in
    let valid : validate_grammar codex_patch_v1 (after ++ end_patch) ≡ ok tt =
      ap (λ t. validate_grammar codex_patch_v1 (t ++ end_patch)) whole
      ∙ rw fits (ap validate_patch shape ∙ validate_patch-inner edit some_path path unbroken) in
    compile_steps edit before old new after good lines
      (push_lines-fits b' ' edit.before_context (header_of edit) (omega arith))
      (push_lines-fits b'-' edit.old_lines before (omega arith))
      (push_lines-fits b'+' edit.new_lines old (omega arith))
      (push_lines-fits b' ' edit.after_context new (omega arith)) valid
    ∙ ap (λ t. ok (t ++ end_patch)) whole
