-- ===== src/Editing/Bundles.antt =====
-- That `from_patch` of src/editing/operations.rs undoes `compile`.
use agent_response_gateway.Base.{
  ℕ, ◌+◌, ◌≡◌, ◌≤◌, refl, sym, arith, false, ◌||◌, some, List, [], ◌∷◌, ◌++◌, ltb, ◌!=◌, nat_eq,
  text_eq, !=_same, same_of_!=, Text, length, length-append, is_empty, any, All, ok, >>=-eq-ok,
  ok-injective, passed, reject_if-eq_ok, ok_or, ok_or-eq_ok, ap, ◌∙◌,
}
use mathlib.Core.List.{append_assoc, append-nil}
use agent_response_gateway.Base.Strings.{strip_prefix-append}
use agent_response_gateway.Base.Lines.{strip_suffix-append, split_terminator, OneLine}
use agent_response_gateway.Ir.{size_limit, any_control}
use agent_response_gateway.Ir.Grammar.{
  then_strip_suffix, too_long, validate_grammar, codex_patch_v1,
}
use agent_response_gateway.Editing.Context.{
  ContextEdit, invalid, compile, begin_patch, update_file, hunk_mark, end_patch, bad_path,
  has_break,
}
use agent_response_gateway.Editing.Rendered.{
  body_of, header_of, inner, compile-ok, OneLines, lines-OneLines, path-OneLine,
}
use agent_response_gateway.Editing.Operations.{
  Operation, create, delete, move, update, touched, touch, lines_valid, unwrapped, written,
  push_operations, compile_bundle, chunks_of, read_chunks, bundle_from_patch,
}
use agent_response_gateway.Editing.Paths.{path_key, overlaps}
use agent_response_gateway.Editing.Chunks.{
  Sound, text_of, head_of, tail_of, split_terminator-text_of,
}
use agent_response_gateway.Editing.Grouped.{
  chunks_for, lines_for, chunks_of-lines_for, read_chunk-Sound,
}

lines_valid-OneLines : (lines : List Text) → lines_valid lines ≡ ok tt → OneLines lines
unfolding lines_valid
lines_valid-OneLines lines h =
    let refused = reject_if-eq_ok _ invalid h in
    let unbroken : any has_break lines ≡ false = ground arith in lines-OneLines lines unbroken

unwrapped-text : (body : Text) → unwrapped (begin_patch ++ (body ++ end_patch)) ≡ some body
unwrapped-text body =
    ap (then_strip_suffix end_patch) (strip_prefix-append begin_patch (body ++ end_patch))
    ∙ strip_suffix-append end_patch body

unwrapped-compiled :
    (edit : ContextEdit)
    → unwrapped ((header_of edit ++ body_of edit) ++ end_patch) ≡ some (inner edit)
unwrapped-compiled edit =
    let shape : (header_of edit ++ body_of edit) ++ end_patch
        ≡ begin_patch ++ (inner edit ++ end_patch) =
      ap (λ t. begin_patch ++ (t ++ end_patch))
        (append_assoc (update_file ++ edit.path) hunk_mark (body_of edit)) in
    ap unwrapped shape ∙ unwrapped-text (inner edit)

-- An operation that was written has readable lines, and its text.
written-Sound :
    (operation : Operation) {result : Text × ℕ}
    → written operation ≡ ok result
    → OneLines (touched operation)
    → (result.0 ≡ text_of operation) × Sound operation
unfolding written
written-Sound (create path lines) h (one, _) =
    let (_, valid, done) = >>=-eq-ok (lines_valid lines) _ h in
    (sym (ap (λ p. p.0) (ok-injective done)), (one, lines_valid-OneLines lines valid))
written-Sound (delete path) h (one, _) = (sym (ap (λ p. p.0) (ok-injective h)), one)
written-Sound (move source destination context) h (one, (two, _)) =
    let (_, valid, done) = >>=-eq-ok (lines_valid context) _ h in
    (sym (ap (λ p. p.0) (ok-injective done)), (one, two, lines_valid-OneLines context valid))
written-Sound (update edit) h _ =
    let (compiled, c, rest) = >>=-eq-ok (compile edit) _ h in
    let (body, b, done) = >>=-eq-ok (ok_or (unwrapped compiled) invalid) _ rest in
    let (_, _, _, shape) = compile-ok edit c in
    let found : some body ≡ some (inner edit) =
      sym (ok_or-eq_ok (unwrapped compiled) invalid b)
      ∙ ap unwrapped shape
      ∙ unwrapped-compiled edit in
    let same : body ≡ inner edit = cc in
    (sym (ap (λ p. p.0) (ok-injective done)) ∙ same, c ∙ ap ok shape)

abbrev pub texts_of : List Operation → Text
texts_of [] = []
texts_of (operation ∷ operations) = text_of operation ++ texts_of operations

split_terminator-texts_of :
    (operations : List Operation)
    → All Sound operations
    → split_terminator (texts_of operations) ≡ lines_for operations
unfolding split_terminator
split_terminator-texts_of [] h = refl
split_terminator-texts_of (operation ∷ operations) (sound, more) =
    split_terminator-text_of operation (texts_of operations) sound
    ∙ ap (λ t. head_of operation ∷ (tail_of operation ++ t))
        (split_terminator-texts_of operations more)

read_chunks-Sound :
    (operations seen : List Operation)
    → All Sound operations
    → length (seen ++ operations) ≤ 64
    → read_chunks (chunks_for operations) seen ≡ ok (seen ++ operations)
unfolding read_chunks
read_chunks-Sound [] seen h few = ap ok (sym (append-nil seen))
read_chunks-Sound (operation ∷ operations) seen (sound, more) few =
    let assoc = append_assoc seen (operation ∷ []) operations in
    let all : length ((seen ++ operation ∷ []) ++ operations) ≤ 64 = rw assoc few in
    let small : ltb 64 (length (seen ++ operation ∷ [])) ≡ false =
      let n = length-append (seen ++ operation ∷ []) operations in
      let m : length (seen ++ operation ∷ []) ≤ 64 = omega (arith, n, all) in ground arith in
    rw (read_chunk-Sound operation sound, small)
      (read_chunks-Sound operations (seen ++ operation ∷ []) more all ∙ ap ok assoc)

module _ (to_lowercase : Text → Text) where
  path_key-OneLine : (path : Text) {key : Text} → path_key to_lowercase path ≡ ok key → OneLine path
  unfolding path_key
  path_key-OneLine path h =
      let (good, _) = passed (bad_path path) invalid _ h in
      let plain : any_control path ≡ false = ground arith in path-OneLine path plain

  touch-OneLines :
      (paths seen : List Text) {after : List Text}
      → touch to_lowercase paths seen ≡ ok after
      → OneLines paths
  unfolding touch
  touch-OneLines [] seen h = tt
  touch-OneLines (path ∷ paths) seen h =
      let (key, k, rest) = >>=-eq-ok (path_key to_lowercase path) _ h in
      let (_, more) = passed (any (overlaps key) seen) invalid _ rest in
      (path_key-OneLine path k, touch-OneLines paths (seen ++ key ∷ []) more)

  push_operations-ok :
      (operations : List Operation) (paths : List Text) (patch : Text) (count : ℕ) {result : Text}
      → push_operations to_lowercase operations paths patch count ≡ ok result
      → (result ≡ patch ++ texts_of operations) × All Sound operations
  unfolding push_operations
  push_operations-ok [] paths patch count h = (sym (ok-injective h) ∙ sym (append-nil patch), tt)
  push_operations-ok (operation ∷ operations) paths patch count h =
      let (after, t, h1) = >>=-eq-ok (touch to_lowercase (touched operation) paths) _ h in
      let ((text, lines), w, h2) = >>=-eq-ok (written operation) _ h1 in
      let (_, h3) =
        passed (too_long (patch ++ text) || ltb 16384 (count + lines)) size_limit _ h2 in
      let (is_text, sound) =
        written-Sound operation w (touch-OneLines (touched operation) paths t) in
      let (rest, more) = push_operations-ok operations after (patch ++ text) (count + lines) h3 in
      (
        rest
            ∙ append_assoc patch text (texts_of operations)
            ∙ ap (λ s. patch ++ (s ++ texts_of operations)) is_text,
        (sound, more),
      )

  bundle_read :
      (operations : List Operation) (patch : Text)
      → too_long patch ≡ false
      → unwrapped patch ≡ some (texts_of operations)
      → All Sound operations
      → length operations ≤ 64
      → compile_bundle to_lowercase operations ≡ ok patch
      → bundle_from_patch to_lowercase patch ≡ ok operations
  unfolding bundle_from_patch
  bundle_read operations patch small body sound few h =
      let chunks : chunks_of (split_terminator (texts_of operations)) ≡ chunks_for operations =
        ap chunks_of (split_terminator-texts_of operations sound)
        ∙ chunks_of-lines_for operations in
      rw
        (
          small,
          body,
          chunks,
          read_chunks-Sound operations [] sound few,
          h,
          !=_same patch patch refl,
        )
        refl

  bundle_forth :
      (operations : List Operation) (patch : Text)
      → compile_bundle to_lowercase operations ≡ ok patch
      → bundle_from_patch to_lowercase patch ≡ ok operations
  unfolding compile_bundle
  bundle_forth operations patch h =
      let (few, h1) = passed (is_empty operations || ltb 64 (length operations)) invalid _ h in
      let (pushed, p, h2) =
        >>=-eq-ok (push_operations to_lowercase operations [] begin_patch 0) _ h1 in
      let (fits, h3) = passed (too_long (pushed ++ end_patch)) size_limit _ h2 in
      let (_, _, done) = >>=-eq-ok (validate_grammar codex_patch_v1 (pushed ++ end_patch)) _ h3 in
      let (is_text, sound) = push_operations-ok operations [] begin_patch 0 p in
      let whole : patch ≡ begin_patch ++ (texts_of operations ++ end_patch) =
        sym (ok-injective done) ∙ ap (λ t. t ++ end_patch) is_text in
      bundle_read operations patch (ap too_long (sym (ok-injective done)) ∙ fits)
        (ap unwrapped whole ∙ unwrapped-text (texts_of operations)) sound (ground arith) h

  bundle_back :
      (operations : List Operation) (patch : Text)
      → bundle_from_patch to_lowercase patch ≡ ok operations
      → compile_bundle to_lowercase operations ≡ ok patch
  unfolding bundle_from_patch
  bundle_back operations patch h =
      let (_, h1) = passed (too_long patch) size_limit _ h in
      let (body, _, h2) = >>=-eq-ok (ok_or (unwrapped patch) invalid) _ h1 in
      let (found, _, h3) = >>=-eq-ok (read_chunks (chunks_of (split_terminator body)) []) _ h2 in
      let (compiled, c, h4) = >>=-eq-ok (compile_bundle to_lowercase found) _ h3 in
      let (same, done) = passed (compiled != patch) invalid _ h4 in
      ap (compile_bundle to_lowercase) (sym (ok-injective done))
      ∙ c
      ∙ ap ok (same_of_!= compiled patch same)

  -- A bundle of operations compiles to a patch exactly when the patch reads back as the bundle.
  pub compile_bundle-inverse :
      (operations : List Operation) (patch : Text)
      → ((compile_bundle to_lowercase operations ≡ ok patch)
          → (bundle_from_patch to_lowercase patch ≡ ok operations))
        × ((bundle_from_patch to_lowercase patch ≡ ok operations)
            → (compile_bundle to_lowercase operations ≡ ok patch))
  compile_bundle-inverse operations patch =
      (bundle_forth operations patch, bundle_back operations patch)
