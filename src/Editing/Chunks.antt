-- ===== src/Editing/Chunks.antt =====
-- The texts and the lines of the operations in src/editing/operations.rs, and how `from_patch` cuts them.
use agent_response_gateway.Base.{
  ℕ, ◌≡◌, refl, arith, false, List, [], ◌∷◌, ◌++◌, ◌==◌, nat_eq, text_eq, Text, ℕ_discrete, bytes,
  any, ok, ap, ◌∙◌,
}
use mathlib.Core.List.{append_assoc}
use agent_response_gateway.Base.Lines.{split_terminator, split_terminator-line, OneLine}
use agent_response_gateway.Ir.{any_control}
use agent_response_gateway.Editing.Context.{
  compile, update_file, hunk_mark, end_patch, has_break, all_lines,
}
use agent_response_gateway.Editing.Rendered.{
  rendered, prefixed, body_of, body_lines, header_of, inner, compile-ok, OneLines, path-OneLine,
  split_terminator-rendered,
}
use agent_response_gateway.Editing.Inverse.{split_body-append}
use agent_response_gateway.Editing.Operations.{Operation, create, delete, move, update}

abbrev pub add_file : Text
add_file = bytes "*** Add File: "

abbrev pub delete_file : Text
delete_file = bytes "*** Delete File: "

abbrev pub move_to : Text
move_to = bytes "*** Move to: "

abbrev pub text_of : Operation → Text
text_of (create path lines) = add_file ++ path ++ bytes "\n" ++ rendered b'+' lines
text_of (delete path) = delete_file ++ path ++ bytes "\n"
text_of (move source destination context) =
    update_file
    ++ source
    ++ bytes "\n*** Move to: "
    ++ destination
    ++ hunk_mark
    ++ rendered b' ' context
text_of (update edit) = inner edit

abbrev pub head_of : Operation → Text
head_of (create path _) = add_file ++ path
head_of (delete path) = delete_file ++ path
head_of (move source _ _) = update_file ++ source
head_of (update edit) = update_file ++ edit.path

abbrev pub tail_of : Operation → List Text
tail_of (create _ lines) = prefixed b'+' lines
tail_of (delete _) = []
tail_of (move _ destination context) = (move_to ++ destination) ∷ bytes "@@" ∷ prefixed b' ' context
tail_of (update edit) = bytes "@@" ∷ body_lines edit

-- What makes the lines of an operation readable.
abbrev pub Sound : Operation → Type 0
Sound (create path lines) = OneLine path × OneLines lines
Sound (delete path) = OneLine path
Sound (move source destination context) = OneLine source × OneLine destination × OneLines context
Sound (update edit) = compile edit ≡ ok ((header_of edit ++ body_of edit) ++ end_patch)

two_lines :
    (first : Text) (prefix : ℕ) (lines : List Text) (rest : Text)
    → (prefix == b'\n') ≡ false
    → OneLine first
    → OneLines lines
    → split_terminator (first ++ bytes "\n" ++ rendered prefix lines ++ rest)
      ≡ first ∷ (prefixed prefix lines ++ split_terminator rest)
two_lines first prefix lines rest other one more =
    ap split_terminator (
      append_assoc (first ++ bytes "\n") (rendered prefix lines) rest
      ∙ append_assoc first (bytes "\n") (rendered prefix lines ++ rest))
    ∙ split_terminator-line first (rendered prefix lines ++ rest) one
    ∙ ap (λ t. first ∷ t) (split_terminator-rendered prefix lines rest other more)

pub split_terminator-text_of :
    (operation : Operation) (rest : Text)
    → Sound operation
    → split_terminator (text_of operation ++ rest)
      ≡ head_of operation ∷ (tail_of operation ++ split_terminator rest)
unfolding ℕ_discrete
split_terminator-text_of (create path lines) rest (one, more) =
    two_lines (add_file ++ path) b'+' lines rest refl one more
split_terminator-text_of (delete path) rest one =
    ap split_terminator (append_assoc (delete_file ++ path) (bytes "\n") rest)
    ∙ split_terminator-line (delete_file ++ path) rest one
split_terminator-text_of (move source destination context) rest (one, two, more) =
    let written = rendered b' ' context ++ rest in
    let first = update_file ++ source in
    let second = move_to ++ destination in
    ap split_terminator (
      append_assoc (first ++ bytes "\n*** Move to: " ++ destination ++ hunk_mark)
        (rendered b' ' context) rest
      ∙ append_assoc (first ++ bytes "\n*** Move to: " ++ destination) hunk_mark written
      ∙ append_assoc (first ++ bytes "\n*** Move to: ") destination (hunk_mark ++ written)
      ∙ append_assoc first (bytes "\n*** Move to: ") (destination ++ (hunk_mark ++ written)))
    ∙ split_terminator-line first (second ++ (hunk_mark ++ written)) one
    ∙ ap (λ t. first ∷ t)
        (split_terminator-line second (bytes "@@\n" ++ written) two
          ∙ ap (λ t. second ∷ t)
              (split_terminator-line (bytes "@@") written refl
                ∙ ap (λ t. bytes "@@" ∷ t) (split_terminator-rendered b' ' context rest refl more)))
split_terminator-text_of (update edit) rest compiled =
    let (good, lines, _, _) = compile-ok edit compiled in
    let first = update_file ++ edit.path in
    let path : any_control edit.path ≡ false = ground arith in
    let unbroken : any has_break (all_lines edit) ≡ false = ground arith in
    ap split_terminator (append_assoc first (hunk_mark ++ body_of edit) rest)
    ∙ split_terminator-line first (bytes "@@\n" ++ (body_of edit ++ rest))
        (path-OneLine edit.path path)
    ∙ ap (λ t. first ∷ t)
        (split_terminator-line (bytes "@@") (body_of edit ++ rest) refl
          ∙ ap (λ t. bytes "@@" ∷ t) (split_body-append edit rest unbroken))
