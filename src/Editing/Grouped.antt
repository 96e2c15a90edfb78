-- ===== src/Editing/Grouped.antt =====
-- How `from_patch` of src/editing/operations.rs reads the chunks of a bundle's lines.
use agent_response_gateway.Base.{
  ℕ, ◌≡◌, refl, sym, true, false, List, [], ◌∷◌, ◌++◌, nat_eq, text_eq, ==_refl, Text,
  Text-discrete, ℕ_discrete, bytes, All, ok, ap, ◌∙◌,
}
use mathlib.Core.List.{append_assoc, append-nil}
use agent_response_gateway.Base.Strings.{strip_prefix}
use agent_response_gateway.Editing.Context.{
  ContextEdit, compile, begin_patch, update_file, hunk_mark, end_patch, marked, from_patch,
}
use agent_response_gateway.Editing.Rendered.{
  rendered, prefixed, body_of, body_lines, header_of, inner,
}
use agent_response_gateway.Editing.Inverse.{compile-from_patch}
use agent_response_gateway.Editing.Operations.{
  Operation, create, delete, move, update, is_header, grouped, chunks_of, unmarked, read_move,
  read_edit, as_update, read_update, read_other, read_added, read_chunk,
}
use agent_response_gateway.Editing.Paths.{join}
use agent_response_gateway.Editing.Chunks.{head_of, tail_of, Sound}

-- No line starts an operation.
abbrev Plain : List Text → Type 0
Plain lines = All (λ line. is_header line ≡ false) lines

prefixed-Plain :
    (prefix : ℕ) (lines rest : List Text)
    → ((line : Text) → is_header (prefix ∷ line) ≡ false)
    → Plain rest
    → Plain (prefixed prefix lines ++ rest)
prefixed-Plain prefix [] rest p h = h
prefixed-Plain prefix (line ∷ lines) rest p h = (p line, prefixed-Plain prefix lines rest p h)

space_plain : (line : Text) → is_header (b' ' ∷ line) ≡ false
unfolding ℕ_discrete
space_plain line = refl

minus_plain : (line : Text) → is_header (b'-' ∷ line) ≡ false
unfolding ℕ_discrete
minus_plain line = refl

plus_plain : (line : Text) → is_header (b'+' ∷ line) ≡ false
unfolding ℕ_discrete
plus_plain line = refl

prefixed_all-Plain :
    (prefix : ℕ) (lines : List Text)
    → ((line : Text) → is_header (prefix ∷ line) ≡ false)
    → Plain (prefixed prefix lines)
prefixed_all-Plain prefix [] p = tt
prefixed_all-Plain prefix (line ∷ lines) p = (p line, prefixed_all-Plain prefix lines p)

tail_of-Plain : (operation : Operation) → Plain (tail_of operation)
unfolding ℕ_discrete
tail_of-Plain (create path lines) = prefixed_all-Plain b'+' lines plus_plain
tail_of-Plain (delete path) = tt
tail_of-Plain (move source destination context) =
    (refl, (refl, prefixed_all-Plain b' ' context space_plain))
tail_of-Plain (update edit) = (
  refl,
  prefixed-Plain b' ' edit.before_context _ space_plain (
      prefixed-Plain b'-' edit.old_lines _ minus_plain (
        prefixed-Plain b'+' edit.new_lines _ plus_plain
          (prefixed_all-Plain b' ' edit.after_context space_plain))),
)

head_of-is_header : (operation : Operation) → is_header (head_of operation) ≡ true
unfolding ℕ_discrete
head_of-is_header (create path lines) = refl
head_of-is_header (delete path) = refl
head_of-is_header (move source destination context) = refl
head_of-is_header (update edit) = refl

grouped-Plain :
    (lines rest lead : List Text) (chunks : List (Text × List Text))
    → Plain lines
    → grouped rest ≡ (lead, chunks)
    → grouped (lines ++ rest) ≡ (lines ++ lead, chunks)
unfolding grouped
grouped-Plain [] rest lead chunks p h = h
grouped-Plain (line ∷ lines) rest lead chunks (first, more) h =
    rw (first, grouped-Plain lines rest lead chunks more h) refl

abbrev pub chunks_for : List Operation → List (Text × List Text)
chunks_for [] = []
chunks_for (operation ∷ operations) = (head_of operation, tail_of operation) ∷ chunks_for operations

abbrev pub lines_for : List Operation → List Text
lines_for [] = []
lines_for (operation ∷ operations) = head_of operation ∷ (tail_of operation ++ lines_for operations)

grouped-lines_for :
    (operations : List Operation) → grouped (lines_for operations) ≡ ([], chunks_for operations)
unfolding grouped
grouped-lines_for [] = refl
grouped-lines_for (operation ∷ operations) =
    let tail =
      grouped-Plain (tail_of operation) (lines_for operations) [] (chunks_for operations)
        (tail_of-Plain operation) (grouped-lines_for operations) in
    rw (head_of-is_header operation, tail, append-nil (tail_of operation)) refl

pub chunks_of-lines_for :
    (operations : List Operation) → chunks_of (lines_for operations) ≡ chunks_for operations
unfolding chunks_of
chunks_of-lines_for [] = refl
chunks_of-lines_for (operation ∷ operations) =
    let tail =
      grouped-Plain (tail_of operation) (lines_for operations) [] (chunks_for operations)
        (tail_of-Plain operation) (grouped-lines_for operations) in
    rw (tail, append-nil (tail_of operation)) refl

unmarked-prefixed :
    (prefix : ℕ) (lines : List Text) → unmarked prefix (prefixed prefix lines) ≡ ok lines
unfolding unmarked strip_prefix
unmarked-prefixed prefix [] = refl
unmarked-prefixed prefix (line ∷ lines) = rw (==_refl prefix, unmarked-prefixed prefix lines) refl

-- Lines with a line feed after each.
abbrev terminated : List Text → Text
terminated [] = []
terminated (line ∷ lines) = line ++ (bytes "\n" ++ terminated lines)

join-terminated :
    (line : Text) (lines : List Text)
    → join (bytes "\n") (line ∷ lines) ++ bytes "\n" ≡ terminated (line ∷ lines)
join-terminated line [] = refl
join-terminated line (next ∷ lines) =
    append_assoc (line ++ bytes "\n") (join (bytes "\n") (next ∷ lines)) (bytes "\n")
    ∙ append_assoc line (bytes "\n") (join (bytes "\n") (next ∷ lines) ++ bytes "\n")
    ∙ ap (λ t. line ++ (bytes "\n" ++ t)) (join-terminated next lines)

terminated-prefixed :
    (prefix : ℕ) (lines rest : List Text)
    → terminated (prefixed prefix lines ++ rest) ≡ rendered prefix lines ++ terminated rest
terminated-prefixed prefix [] rest = refl
terminated-prefixed prefix (line ∷ lines) rest =
    ap (λ t. (prefix ∷ line) ++ (bytes "\n" ++ t)) (terminated-prefixed prefix lines rest)
    ∙ sym (append_assoc (prefix ∷ line) (bytes "\n") (rendered prefix lines ++ terminated rest))
    ∙ sym (append_assoc (marked prefix line) (rendered prefix lines) (terminated rest))

terminated-body_lines : (edit : ContextEdit) → terminated (body_lines edit) ≡ body_of edit
terminated-body_lines edit =
    let p4 = prefixed b' ' edit.after_context in
    let e4 =
      ap terminated (sym (append-nil p4))
      ∙ terminated-prefixed b' ' edit.after_context []
      ∙ append-nil (rendered b' ' edit.after_context) in
    let e3 =
      terminated-prefixed b'+' edit.new_lines p4 ∙ ap (λ t. rendered b'+' edit.new_lines ++ t) e4 in
    let e2 =
      terminated-prefixed b'-' edit.old_lines (prefixed b'+' edit.new_lines ++ p4)
      ∙ ap (λ t. rendered b'-' edit.old_lines ++ t) e3 in
    terminated-prefixed b' ' edit.before_context
      (prefixed b'-' edit.old_lines ++ (prefixed b'+' edit.new_lines ++ p4))
    ∙ ap (λ t. rendered b' ' edit.before_context ++ t) e2

read_edit-compiled :
    (edit : ContextEdit)
    → compile edit ≡ ok ((header_of edit ++ body_of edit) ++ end_patch)
    → read_edit (update_file ++ edit.path) (bytes "@@" ∷ body_lines edit) ≡ ok (update edit)
unfolding read_edit
read_edit-compiled edit h =
    let first = update_file ++ edit.path in
    let lines = bytes "@@" ∷ body_lines edit in
    let all : join (bytes "\n") (first ∷ lines) ++ bytes "\n" ≡ inner edit =
      join-terminated first lines
      ∙ ap (λ t. first ++ (hunk_mark ++ t)) (terminated-body_lines edit) in
    let shape : begin_patch ++ join (bytes "\n") (first ∷ lines) ++ bytes "\n" ++ end_patch
        ≡ (header_of edit ++ body_of edit) ++ end_patch =
      ap (λ t. begin_patch ++ (t ++ end_patch))
        (all ∙ sym (append_assoc first hunk_mark (body_of edit))) in
    ap as_update (
      ap from_patch shape
      ∙ (compile-from_patch edit ((header_of edit ++ body_of edit) ++ end_patch)).0 h)

pub read_chunk-Sound :
    (operation : Operation)
    → Sound operation
    → read_chunk (head_of operation) (tail_of operation) ≡ ok operation
unfolding read_chunk read_added read_other read_update read_move strip_prefix ℕ_discrete
    Text-discrete
read_chunk-Sound (create path lines) h = rw (unmarked-prefixed b'+' lines) refl
read_chunk-Sound (delete path) h = refl
read_chunk-Sound (move source destination context) h = rw (unmarked-prefixed b' ' context) refl
read_chunk-Sound (update edit) h = read_edit-compiled edit h
