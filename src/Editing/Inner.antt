-- ===== src/Editing/Inner.antt =====
-- The lines between the markers of the patch that `compile` of src/editing/mod.rs writes.
use agent_response_gateway.Base.{
  ℕ, suc, ◌+◌, ◌≡◌, refl, sym, arith, true, false, none, List, [], ◌∷◌, ◌++◌, ==_false, ◌==◌,
  nat_eq, text_eq, Text, Text-discrete, ℕ_discrete, bytes, length, length-append, ap, ◌∙◌,
}
use mathlib.Core.Path.{subst}
use mathlib.Core.List.{append_assoc, append-nil}
use agent_response_gateway.Base.Strings.{strip_prefix}
use agent_response_gateway.Base.Lines.{strip_suffix}
use agent_response_gateway.Ir.Grammar.{skip_while, is_changed, last_is_line_feed}
use agent_response_gateway.Editing.Context.{ContextEdit, marked, update_file, hunk_mark, end_patch}
use agent_response_gateway.Editing.Rendered.{rendered, prefixed, body_of, body_lines, inner}

unfoldable pub AllChanged : List Text → Type 0
AllChanged [] = Unit
AllChanged (line ∷ lines) = (is_changed line ≡ true) × AllChanged lines

prefixed-AllChanged :
    (prefix : ℕ) (lines rest : List Text)
    → ((line : Text) → is_changed (prefix ∷ line) ≡ true)
    → AllChanged rest
    → AllChanged (prefixed prefix lines ++ rest)
unfolding AllChanged
prefixed-AllChanged prefix [] rest p h = h
prefixed-AllChanged prefix (line ∷ lines) rest p h =
    (p line, prefixed-AllChanged prefix lines rest p h)

space_changed : (line : Text) → is_changed (b' ' ∷ line) ≡ true
unfolding strip_prefix ℕ_discrete Text-discrete
space_changed [] = refl
space_changed (_ ∷ _) = refl

minus_changed : (line : Text) → is_changed (b'-' ∷ line) ≡ true
unfolding strip_prefix ℕ_discrete Text-discrete
minus_changed [] = refl
minus_changed (_ ∷ _) = refl

plus_changed : (line : Text) → is_changed (b'+' ∷ line) ≡ true
unfolding strip_prefix ℕ_discrete Text-discrete
plus_changed [] = refl
plus_changed (_ ∷ _) = refl

pub body_lines-AllChanged : (edit : ContextEdit) → AllChanged (body_lines edit)
unfolding AllChanged
body_lines-AllChanged edit =
    let after = prefixed-AllChanged b' ' edit.after_context [] space_changed tt in
    prefixed-AllChanged b' ' edit.before_context _ space_changed (
      prefixed-AllChanged b'-' edit.old_lines _ minus_changed (
        prefixed-AllChanged b'+' edit.new_lines _ plus_changed
          (subst AllChanged (append-nil (prefixed b' ' edit.after_context)) after)))

pub skip_while-AllChanged :
    (lines : List Text) → AllChanged lines → skip_while is_changed lines ≡ (length lines, [])
unfolding skip_while AllChanged
skip_while-AllChanged [] h = refl
skip_while-AllChanged (line ∷ lines) (first, more) =
    rw (first, skip_while-AllChanged lines more)
      (let n : length lines + 1 ≡ suc (length lines) = omega arith in ap (λ k. (k, [])) n)

pub no_line_feed_after : (lead : Text) → strip_suffix (bytes "\n") (lead ++ end_patch) ≡ none
unfolding strip_suffix Text-discrete ℕ_discrete
no_line_feed_after [] = refl
no_line_feed_after (b ∷ lead) =
    let rest = no_line_feed_after lead in
    let other : (b ∷ (lead ++ end_patch) == bytes "\n") ≡ false =
      ==_false (b ∷ (lead ++ end_patch)) (bytes "\n") (λ e.
        let n : length (b ∷ (lead ++ end_patch)) ≡ 1 = ap length e in
        absurd (omega (arith, n, length-append lead end_patch))) in
    rw (other, rest) refl

last-append :
    (lead value : Text) → last_is_line_feed value ≡ true → last_is_line_feed (lead ++ value) ≡ true
last-append [] value h = h
last-append (b ∷ []) [] h = cc
last-append (b ∷ []) (c ∷ value) h = h
last-append (b ∷ c ∷ lead) value h = last-append (c ∷ lead) value h

marked_last : (prefix : ℕ) (line : Text) → last_is_line_feed (marked prefix line) ≡ true
unfolding ℕ_discrete
marked_last prefix line = last-append (prefix ∷ line) (bytes "\n") refl

rendered_last :
    (prefix : ℕ) (lines : List Text) (lead : Text)
    → last_is_line_feed lead ≡ true
    → last_is_line_feed (lead ++ rendered prefix lines) ≡ true
rendered_last prefix [] lead h = ap last_is_line_feed (append-nil lead) ∙ h
rendered_last prefix (line ∷ lines) lead h =
    ap last_is_line_feed (sym (append_assoc lead (marked prefix line) (rendered prefix lines)))
    ∙ rendered_last prefix lines (lead ++ marked prefix line)
        (last-append lead (marked prefix line) (marked_last prefix line))

pub inner_last : (edit : ContextEdit) → last_is_line_feed (inner edit) ≡ true
unfolding ℕ_discrete
inner_last edit =
    let r1 = rendered_last b' ' edit.before_context hunk_mark refl in
    let r2 =
      rendered_last b'-' edit.old_lines (hunk_mark ++ rendered b' ' edit.before_context) r1 in
    let r3 =
      rendered_last b'+' edit.new_lines
        (hunk_mark ++ rendered b' ' edit.before_context ++ rendered b'-' edit.old_lines) r2 in
    let r4 =
      rendered_last b' ' edit.after_context
        (hunk_mark
          ++ rendered b' ' edit.before_context
          ++ rendered b'-' edit.old_lines
          ++ rendered b'+' edit.new_lines)
        r3 in
    last-append (update_file ++ edit.path) (hunk_mark ++ body_of edit) (
      ap last_is_line_feed (
        sym (
          five hunk_mark (rendered b' ' edit.before_context) (rendered b'-' edit.old_lines)
            (rendered b'+' edit.new_lines) (rendered b' ' edit.after_context)))
      ∙ r4)
  where
    five : (h a b c d : Text) → h ++ a ++ b ++ c ++ d ≡ h ++ (a ++ (b ++ (c ++ d)))
    five h a b c d =
        append_assoc (h ++ a ++ b) c d
        ∙ append_assoc (h ++ a) b (c ++ d)
        ∙ append_assoc h a (b ++ (c ++ d))
