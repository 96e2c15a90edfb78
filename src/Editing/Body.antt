-- ===== src/Editing/Body.antt =====
-- How `from_patch` of src/editing/mod.rs reads the lines of one hunk.
use agent_response_gateway.Base.{
  ◌≡◌, ◌≢◌, refl, sym, arith, Bool, false, ◌||◌, List, [], ◌∷◌, ◌++◌, nat_eq, text_eq, Text,
  ℕ_discrete, is_empty, any, ok, ap, ◌∙◌,
}
use mathlib.Core.List.{append_assoc, append-nil}
use agent_response_gateway.Editing.Context.{
  ContextEdit, Phase, in_before, in_old, in_new, in_after, push_before, push_old, push_new,
  push_after, read_line, read_lines, empty_edit, lines_eq,
}
use agent_response_gateway.Editing.Rendered.{prefixed, body_lines}

pub any-append :
    {A : Type 0} (p : A → Bool) (xs ys : List A) → any p (xs ++ ys) ≡ any p xs || any p ys
any-append p [] ys = refl
any-append p (x ∷ xs) ys = ground (arith, any-append p xs ys)

-- Lines of one prefix, read in a phase that they keep.
read-before :
    (lines rest : List Text) (edit : ContextEdit)
    → read_lines (prefixed b' ' lines ++ rest) in_before edit
      ≡ read_lines rest in_before (record edit { before_context = edit.before_context ++ lines })
unfolding read_lines read_line ℕ_discrete
read-before [] rest edit =
    ap (λ b. read_lines rest in_before (record edit { before_context = b }))
      (sym (append-nil edit.before_context))
read-before (line ∷ lines) rest edit =
    read-before lines rest (push_before line edit)
    ∙ ap (λ b. read_lines rest in_before (record edit { before_context = b }))
        (append_assoc edit.before_context (line ∷ []) lines)

read-old :
    (lines rest : List Text) (edit : ContextEdit)
    → read_lines (prefixed b'-' lines ++ rest) in_old edit
      ≡ read_lines rest in_old (record edit { old_lines = edit.old_lines ++ lines })
unfolding read_lines read_line ℕ_discrete
read-old [] rest edit =
    ap (λ b. read_lines rest in_old (record edit { old_lines = b }))
      (sym (append-nil edit.old_lines))
read-old (line ∷ lines) rest edit =
    read-old lines rest (push_old line edit)
    ∙ ap (λ b. read_lines rest in_old (record edit { old_lines = b }))
        (append_assoc edit.old_lines (line ∷ []) lines)

read-new :
    (lines rest : List Text) (edit : ContextEdit)
    → read_lines (prefixed b'+' lines ++ rest) in_new edit
      ≡ read_lines rest in_new (record edit { new_lines = edit.new_lines ++ lines })
unfolding read_lines read_line ℕ_discrete
read-new [] rest edit =
    ap (λ b. read_lines rest in_new (record edit { new_lines = b }))
      (sym (append-nil edit.new_lines))
read-new (line ∷ lines) rest edit =
    read-new lines rest (push_new line edit)
    ∙ ap (λ b. read_lines rest in_new (record edit { new_lines = b }))
        (append_assoc edit.new_lines (line ∷ []) lines)

read-after :
    (lines : List Text) (edit : ContextEdit)
    → read_lines (prefixed b' ' lines) in_after edit
      ≡ ok (in_after, record edit { after_context = edit.after_context ++ lines })
unfolding read_lines read_line ℕ_discrete
read-after [] edit =
    ap (λ b. ok (in_after, record edit { after_context = b })) (sym (append-nil edit.after_context))
read-after (line ∷ lines) edit =
    read-after lines (push_after line edit)
    ∙ ap (λ b. ok (in_after, record edit { after_context = b }))
        (append_assoc edit.after_context (line ∷ []) lines)

-- The lines after the new ones, in whichever phase these have left.
read-rest :
    (phase : Phase) (lines : List Text) (edit : ContextEdit)
    → phase ≢ in_before
    → (last : Phase) × (read_lines (prefixed b' ' lines) phase edit
        ≡ ok (last, record edit { after_context = edit.after_context ++ lines }))
unfolding read_lines read_line ℕ_discrete
read-rest phase [] edit h = (
  phase,
  ap (λ b. ok (phase, record edit { after_context = b })) (sym (append-nil edit.after_context)),
)
read-rest in_before (line ∷ lines) edit h = absurd (h refl)
read-rest in_old (line ∷ lines) edit h = (in_after, read-after (line ∷ lines) edit)
read-rest in_new (line ∷ lines) edit h = (in_after, read-after (line ∷ lines) edit)
read-rest in_after (line ∷ lines) edit h = (in_after, read-after (line ∷ lines) edit)

read-new_and_rest :
    (new after : List Text) (edit : ContextEdit)
    → (last : Phase) × (read_lines (prefixed b'+' new ++ prefixed b' ' after) in_old edit
        ≡ ok (
          last,
          record edit {
            new_lines = edit.new_lines ++ new;
            after_context = edit.after_context ++ after;
          },
        ))
unfolding read_lines read_line ℕ_discrete
read-new_and_rest [] after edit =
    let (last, r) = read-rest in_old after edit (λ e. absurd (cc)) in
    (
      last,
      r
          ∙ ap
              (λ b.
                ok (
                  last,
                  record edit { new_lines = b; after_context = edit.after_context ++ after },
                ))
              (sym (append-nil edit.new_lines)),
    )
read-new_and_rest (line ∷ new) after edit =
    let next : ContextEdit = record edit { new_lines = edit.new_lines ++ line ∷ new } in
    let (last, r) = read-rest in_new after next (λ e. absurd (cc)) in
    (
      last,
      read-new new (prefixed b' ' after) (push_new line edit)
          ∙ ap (λ b. read_lines (prefixed b' ' after) in_new (record edit { new_lines = b }))
              (append_assoc edit.new_lines (line ∷ []) new)
          ∙ r,
    )

pub read-body :
    (edit : ContextEdit)
    → is_empty edit.old_lines ≡ false
    → (last : Phase) × (read_lines (body_lines edit) in_before (empty_edit edit.path)
        ≡ ok (last, edit))
unfolding read_lines read_line ℕ_discrete
read-body edit h = go edit.old_lines refl h
  where
    tail : List Text → List Text
    tail old =
        prefixed b'-' old ++ (prefixed b'+' edit.new_lines ++ prefixed b' ' edit.after_context)

    go :
        (old : List Text)
        → edit.old_lines ≡ old
        → is_empty old ≡ false
        → (last : Phase) × (read_lines
              (prefixed b' ' edit.before_context ++ tail old)
              in_before
              (empty_edit edit.path)
            ≡ ok (last, record edit { old_lines = old }))
    go [] e h' = absurd (cc)
    go (line ∷ old) e h' =
        let start : ContextEdit = record (empty_edit edit.path) {
          before_context = edit.before_context;
        } in
        let (last, r) =
          read-new_and_rest edit.new_lines edit.after_context
            (record start { old_lines = line ∷ old }) in
        (
          last,
          read-before edit.before_context (tail (line ∷ old)) (empty_edit edit.path)
              ∙ read-old old (prefixed b'+' edit.new_lines ++ prefixed b' ' edit.after_context)
                  (push_old line start)
              ∙ r,
        )
