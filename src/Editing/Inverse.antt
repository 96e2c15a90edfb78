-- ===== src/Editing/Inverse.antt =====
-- That `from_patch` of src/editing/mod.rs undoes `compile`.
use agent_response_gateway.Base.{
  bytes, or_false, same_of_!=, !=_same, ◌≡◌, refl, sym, arith, false, some, List, [], ◌++◌, ◌!=◌,
  nat_eq, text_eq, Text, ℕ_discrete, is_empty, any, ok, >>=-eq-ok, ok-injective, passed, ok_or, ap,
  ◌∙◌,
}
use mathlib.Core.List.{append_assoc, append-nil}
use agent_response_gateway.Base.Strings.{strip_prefix, strip_prefix-append}
use agent_response_gateway.Base.Lines.{
  strip_suffix, strip_suffix-append, split_once, split_once-line, split_terminator,
}
use agent_response_gateway.Ir.{any_control}
use agent_response_gateway.Editing.Context.{
  ContextEdit, invalid, bad_path, has_break, all_lines, compile, begin_patch, update_file,
  hunk_mark, end_patch, in_before, read_lines, empty_edit, from_patch, lines_eq,
}
use agent_response_gateway.Editing.Rendered.{
  rendered, prefixed, body_of, body_lines, header_of, compile-ok, lines-OneLines, path-OneLine,
  split_terminator-rendered,
}
use agent_response_gateway.Editing.Body.{any-append, read-body}

pub nested_append :
    {A : Type 0} (a b c d e : List A) → (a ++ (b ++ (c ++ d))) ++ e ≡ a ++ (b ++ (c ++ (d ++ e)))
nested_append a b c d e =
    append_assoc a (b ++ (c ++ d)) e
    ∙ ap (λ t. a ++ t) (append_assoc b (c ++ d) e ∙ ap (λ t. b ++ t) (append_assoc c d e))

pub split_body-append :
    (edit : ContextEdit) (rest : Text)
    → any has_break (all_lines edit) ≡ false
    → split_terminator (body_of edit ++ rest) ≡ body_lines edit ++ split_terminator rest
unfolding ℕ_discrete
split_body-append edit rest h =
    let start = edit.before_context ++ edit.old_lines in
    let (init, after) =
      or_false (sym (any-append has_break (start ++ edit.new_lines) edit.after_context) ∙ h) in
    let (first, new) = or_false (sym (any-append has_break start edit.new_lines) ∙ init) in
    let (before, old) =
      or_false (sym (any-append has_break edit.before_context edit.old_lines) ∙ first) in
    let r4 = rendered b' ' edit.after_context ++ rest in
    let r3 = rendered b'+' edit.new_lines ++ r4 in
    let r2 = rendered b'-' edit.old_lines ++ r3 in
    let e4 =
      split_terminator-rendered b' ' edit.after_context rest refl
        (lines-OneLines edit.after_context after) in
    let e3 =
      split_terminator-rendered b'+' edit.new_lines r4 refl (lines-OneLines edit.new_lines new)
      ∙ ap (λ t. prefixed b'+' edit.new_lines ++ t) e4 in
    let e2 =
      split_terminator-rendered b'-' edit.old_lines r3 refl (lines-OneLines edit.old_lines old)
      ∙ ap (λ t. prefixed b'-' edit.old_lines ++ t) e3 in
    ap split_terminator (
      nested_append (rendered b' ' edit.before_context) (rendered b'-' edit.old_lines)
        (rendered b'+' edit.new_lines) (rendered b' ' edit.after_context) rest)
    ∙ split_terminator-rendered b' ' edit.before_context r2 refl
        (lines-OneLines edit.before_context before)
    ∙ ap (λ t. prefixed b' ' edit.before_context ++ t) e2
    ∙ sym (
        nested_append (prefixed b' ' edit.before_context) (prefixed b'-' edit.old_lines)
          (prefixed b'+' edit.new_lines) (prefixed b' ' edit.after_context) (split_terminator rest))

pub split_body :
    (edit : ContextEdit)
    → any has_break (all_lines edit) ≡ false
    → split_terminator (body_of edit) ≡ body_lines edit
unfolding split_terminator
split_body edit h =
    ap split_terminator (sym (append-nil (body_of edit)))
    ∙ split_body-append edit [] h
    ∙ append-nil (body_lines edit)

-- The parts of a compiled patch, as `from_patch` takes it apart.
patch_parts :
    (edit : ContextEdit)
    → any_control edit.path ≡ false
    → (strip_prefix (begin_patch ++ update_file) ((header_of edit ++ body_of edit) ++ end_patch)
        ≡ some (edit.path ++ hunk_mark ++ (body_of edit ++ end_patch)))
      × (split_once hunk_mark (edit.path ++ hunk_mark ++ (body_of edit ++ end_patch))
          ≡ some (edit.path, body_of edit ++ end_patch))
patch_parts edit h =
    let lead = begin_patch ++ update_file in
    let shape : (header_of edit ++ body_of edit) ++ end_patch
        ≡ lead ++ (edit.path ++ hunk_mark ++ (body_of edit ++ end_patch)) =
      append_assoc (header_of edit) (body_of edit) end_patch
      ∙ ap (λ t. t ++ (body_of edit ++ end_patch)) (append_assoc lead edit.path hunk_mark)
      ∙ append_assoc lead (edit.path ++ hunk_mark) (body_of edit ++ end_patch) in
    (
      ap (strip_prefix lead) shape
          ∙ strip_prefix-append lead (edit.path ++ hunk_mark ++ (body_of edit ++ end_patch)),
      split_once-line edit.path (bytes "@@\n") (body_of edit ++ end_patch)
          (path-OneLine edit.path h),
    )

compile-from_patch_ok :
    (edit : ContextEdit) (patch : Text) → compile edit ≡ ok patch → from_patch patch ≡ ok edit
unfolding from_patch
compile-from_patch_ok edit patch h =
    let (good, lines, _, shape) = compile-ok edit h in
    let path : bad_path edit.path ≡ false = ground arith in
    let plain : any_control edit.path ≡ false = ground arith in
    let changed : is_empty edit.old_lines ≡ false = ground arith in
    let unbroken : any has_break (all_lines edit) ≡ false = ground arith in
    let (stripped, cut) = patch_parts edit plain in
    let (last, read) = read-body edit changed in
    let whole : strip_prefix (begin_patch ++ update_file) patch
        ≡ some (edit.path ++ hunk_mark ++ (body_of edit ++ end_patch)) =
      ap (strip_prefix (begin_patch ++ update_file)) shape ∙ stripped in
    rw
      (
        whole,
        cut,
        strip_suffix-append end_patch (body_of edit),
        split_body edit unbroken,
        read,
        h,
        !=_same patch patch refl,
      )
      refl

from_patch-compile_ok :
    (edit : ContextEdit) (patch : Text) → from_patch patch ≡ ok edit → compile edit ≡ ok patch
unfolding from_patch
from_patch-compile_ok edit patch h =
    let (body, _, h1) =
      >>=-eq-ok (ok_or (strip_prefix (begin_patch ++ update_file) patch) invalid) _ h in
    let (cut, _, h2) = >>=-eq-ok (ok_or (split_once hunk_mark body) invalid) _ h1 in
    let (lines, _, h3) = >>=-eq-ok (ok_or (strip_suffix end_patch cut.1) invalid) _ h2 in
    let (found, _, h4) =
      >>=-eq-ok (read_lines (split_terminator lines) in_before (empty_edit cut.0)) _ h3 in
    let (compiled, c, h5) = >>=-eq-ok (compile found.1) _ h4 in
    let (same, done) = passed (compiled != patch) invalid _ h5 in
    let e : found.1 ≡ edit = ok-injective done in
    rw (← e) (c ∙ ap ok (same_of_!= compiled patch same))

-- An edit compiles to a patch exactly when the patch reads back as the edit.
pub compile-from_patch :
    (edit : ContextEdit) (patch : Text)
    → ((compile edit ≡ ok patch) → (from_patch patch ≡ ok edit))
      × ((from_patch patch ≡ ok edit) → (compile edit ≡ ok patch))
compile-from_patch edit patch = (compile-from_patch_ok edit patch, from_patch-compile_ok edit patch)
