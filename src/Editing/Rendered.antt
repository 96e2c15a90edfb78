-- ===== src/Editing/Rendered.antt =====
-- The text that `ContextEdit::compile` of src/editing/mod.rs writes, and its lines.
use agent_response_gateway.Base.{
  ℕ, ◌≡◌, refl, sym, arith, false, List, [], ◌∷◌, ◌++◌, ◌==◌, nat_eq, Text, bytes, any, All, ok,
  >>=-eq-ok, ok-injective, passed, ap, ◌∙◌,
}
use mathlib.Core.List.{append_assoc, append-nil}
use agent_response_gateway.Base.Lines.{split_terminator, split_terminator-line, OneLine}
use agent_response_gateway.Ir.{size_limit, any_control}
use agent_response_gateway.Ir.Grammar.{too_long, validate_grammar, codex_patch_v1}
use agent_response_gateway.Editing.Context.{
  ContextEdit, invalid, bad_edit, bad_lines, has_break, marked, push_lines, compile, begin_patch,
  update_file, hunk_mark, end_patch,
}

abbrev pub rendered : ℕ → List Text → Text
rendered prefix [] = []
rendered prefix (line ∷ lines) = marked prefix line ++ rendered prefix lines

abbrev pub prefixed : ℕ → List Text → List Text
prefixed prefix [] = []
prefixed prefix (line ∷ lines) = (prefix ∷ line) ∷ prefixed prefix lines

-- The body of a patch, after its header.
abbrev pub body_of : ContextEdit → Text
body_of edit =
    rendered b' ' edit.before_context
    ++ (rendered b'-' edit.old_lines
        ++ (rendered b'+' edit.new_lines ++ rendered b' ' edit.after_context))

abbrev pub body_lines : ContextEdit → List Text
body_lines edit =
    prefixed b' ' edit.before_context
    ++ (prefixed b'-' edit.old_lines
        ++ (prefixed b'+' edit.new_lines ++ prefixed b' ' edit.after_context))

abbrev pub header_of : ContextEdit → Text
header_of edit = begin_patch ++ update_file ++ edit.path ++ hunk_mark

-- The text between the first and the last line.
abbrev pub inner : ContextEdit → Text
inner edit = (update_file ++ edit.path) ++ (hunk_mark ++ body_of edit)

pub push_lines-ok :
    (prefix : ℕ) (lines : List Text) (patch : Text) {result : Text}
    → push_lines prefix lines patch ≡ ok result
    → result ≡ patch ++ rendered prefix lines
unfolding push_lines
push_lines-ok prefix [] patch h = sym (ok-injective h) ∙ sym (append-nil patch)
push_lines-ok prefix (line ∷ lines) patch h =
    let (_, more) = passed (too_long (patch ++ marked prefix line)) size_limit _ h in
    push_lines-ok prefix lines (patch ++ marked prefix line) more
    ∙ append_assoc patch (marked prefix line) (rendered prefix lines)

-- The text of a compiled edit, and the tests that it has passed.
pub compile-ok :
    (edit : ContextEdit) {patch : Text}
    → compile edit ≡ ok patch
    → (bad_edit edit ≡ false)
      × (bad_lines edit ≡ false)
      × (validate_grammar codex_patch_v1 patch ≡ ok tt)
      × (patch ≡ (header_of edit ++ body_of edit) ++ end_patch)
unfolding compile
compile-ok edit {patch} h =
    let (good, h1) = passed (bad_edit edit) invalid _ h in
    let (lines, h2) = passed (bad_lines edit) invalid _ h1 in
    let (before, e1, h3) = >>=-eq-ok (push_lines b' ' edit.before_context (header_of edit)) _ h2 in
    let (old, e2, h4) = >>=-eq-ok (push_lines b'-' edit.old_lines before) _ h3 in
    let (new, e3, h5) = >>=-eq-ok (push_lines b'+' edit.new_lines old) _ h4 in
    let (after, e4, h6) = >>=-eq-ok (push_lines b' ' edit.after_context new) _ h5 in
    let (_, valid, done) = >>=-eq-ok (validate_grammar codex_patch_v1 (after ++ end_patch)) _ h6 in
    let p : after ++ end_patch ≡ patch = ok-injective done in
    let q1 = push_lines-ok b' ' edit.before_context (header_of edit) e1 in
    let q2 = push_lines-ok b'-' edit.old_lines before e2 in
    let q3 = push_lines-ok b'+' edit.new_lines old e3 in
    let q4 = push_lines-ok b' ' edit.after_context new e4 in
    let a : after ≡ header_of edit ++ body_of edit =
      q4
      ∙ ap (λ t. t ++ rendered b' ' edit.after_context)
          (q3
            ∙ ap (λ t. t ++ rendered b'+' edit.new_lines)
                (q2 ∙ ap (λ t. t ++ rendered b'-' edit.old_lines) q1))
      ∙ four (header_of edit) (rendered b' ' edit.before_context) (rendered b'-' edit.old_lines)
          (rendered b'+' edit.new_lines) (rendered b' ' edit.after_context) in
    (
      good,
      lines,
      ap (validate_grammar codex_patch_v1) (sym p) ∙ valid,
      sym p ∙ ap (λ t. t ++ end_patch) a,
    )
  where
    four : (h a b c d : Text) → h ++ a ++ b ++ c ++ d ≡ h ++ (a ++ (b ++ (c ++ d)))
    four h a b c d =
        append_assoc (h ++ a ++ b) c d
        ∙ append_assoc (h ++ a) b (c ++ d)
        ∙ append_assoc h a (b ++ (c ++ d))

-- No line has a line feed.
abbrev pub OneLines : List Text → Type 0
OneLines lines = All OneLine lines

has_break-OneLine : (line : Text) → has_break line ≡ false → OneLine line
has_break-OneLine [] h = refl
has_break-OneLine (b ∷ line) h =
    let rest = has_break-OneLine line (ground arith) in ground (arith, rest)

pub lines-OneLines : (lines : List Text) → any has_break lines ≡ false → OneLines lines
lines-OneLines [] h = tt
lines-OneLines (line ∷ lines) h =
    (has_break-OneLine line (ground arith), lines-OneLines lines (ground arith))

pub path-OneLine : (path : Text) → any_control path ≡ false → OneLine path
unfolding any_control
path-OneLine [] h = refl
path-OneLine (b ∷ path) h = let rest = path-OneLine path (ground arith) in ground (arith, rest)

pub split_terminator-rendered :
    (prefix : ℕ) (lines : List Text) (rest : Text)
    → (prefix == b'\n') ≡ false
    → OneLines lines
    → split_terminator (rendered prefix lines ++ rest)
      ≡ prefixed prefix lines ++ split_terminator rest
split_terminator-rendered prefix [] rest other h = refl
split_terminator-rendered prefix (line ∷ lines) rest other (first, more) =
    let one : OneLine (prefix ∷ line) = rw (other, first) refl in
    let shape : rendered prefix (line ∷ lines) ++ rest
        ≡ (prefix ∷ line) ++ b'\n' ∷ (rendered prefix lines ++ rest) =
      append_assoc (marked prefix line) (rendered prefix lines) rest
      ∙ append_assoc (prefix ∷ line) (bytes "\n") (rendered prefix lines ++ rest) in
    rw
      (
        shape,
        split_terminator-line (prefix ∷ line) (rendered prefix lines ++ rest) one,
        split_terminator-rendered prefix lines rest other more,
      )
      refl
