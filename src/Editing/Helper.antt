-- ===== src/Editing/Helper.antt =====
-- That `helper_patch` of src/editing/mod.rs undoes `helper_program`.
use agent_response_gateway.Base.{
  ◌≡◌, refl, sym, false, some, ◌++◌, ◌!=◌, text_eq, !=_same, same_of_!=, Text, ok, >>=-eq-ok,
  ok-injective, passed, ok_or, ap, ◌∙◌,
}
use agent_response_gateway.Base.Strings.{strip_prefix, strip_prefix-append}
use agent_response_gateway.Base.Lines.{strip_suffix-append}
use agent_response_gateway.Ir.{size_limit}
use agent_response_gateway.Ir.Grammar.{
  too_long, then_strip_suffix, codex_patch_v1, validate_grammar,
}
use agent_response_gateway.Editing.Context.{invalid}
use agent_response_gateway.Editing.Envelope.{
  Texts, wrapper_prefix, wrapper_suffix, helper_program, helper_patch,
}

module _ (x : Texts) where
  helper_back :
      (patch program : Text)
      → helper_patch x program ≡ ok patch
      → helper_program x patch ≡ ok program
  unfolding helper_patch
  helper_back patch program h =
      let (_, h1) = passed (too_long program) size_limit _ h in
      let (encoded, _, h2) =
        >>=-eq-ok
          (ok_or (then_strip_suffix wrapper_suffix (strip_prefix wrapper_prefix program)) invalid) _
          h1 in
      let (found, _, h3) = >>=-eq-ok (ok_or (x.read_string encoded) invalid) _ h2 in
      let (again, a, h4) = >>=-eq-ok (helper_program x found) _ h3 in
      let (same, done) = passed (again != program) invalid _ h4 in
      ap (helper_program x) (sym (ok-injective done)) ∙ a ∙ ap ok (same_of_!= again program same)

  helper_read :
      (patch program : Text)
      → too_long program ≡ false
      → then_strip_suffix wrapper_suffix (strip_prefix wrapper_prefix program)
        ≡ some (x.string_json patch)
      → x.read_string (x.string_json patch) ≡ some patch
      → helper_program x patch ≡ ok program
      → helper_patch x program ≡ ok patch
  unfolding helper_patch
  helper_read patch program small stripped read h =
      rw (small, stripped, read, h, !=_same program program refl) refl

  helper_forth :
      (patch program : Text)
      → x.read_string (x.string_json patch) ≡ some patch
      → helper_program x patch ≡ ok program
      → helper_patch x program ≡ ok patch
  unfolding helper_program
  helper_forth patch program read h =
      let (_, _, h1) = >>=-eq-ok (validate_grammar codex_patch_v1 patch) _ h in
      let text = wrapper_prefix ++ (x.string_json patch ++ wrapper_suffix) in
      let (small, done) = passed (too_long text) size_limit _ h1 in
      let e : text ≡ program = ok-injective done in
      let stripped : then_strip_suffix wrapper_suffix (strip_prefix wrapper_prefix text)
          ≡ some (x.string_json patch) =
        ap (then_strip_suffix wrapper_suffix)
          (strip_prefix-append wrapper_prefix (x.string_json patch ++ wrapper_suffix))
        ∙ strip_suffix-append wrapper_suffix (x.string_json patch) in
      helper_read patch program (ap too_long (sym e) ∙ small)
        (ap (λ t. then_strip_suffix wrapper_suffix (strip_prefix wrapper_prefix t)) (sym e)
          ∙ stripped)
        read h

  -- A program is the wrapper of a patch exactly when the patch is read back from it, if serde_json reads the string that it wrote for the patch.
  pub helper_program-inverse :
      (patch program : Text)
      → x.read_string (x.string_json patch) ≡ some patch
      → ((helper_program x patch ≡ ok program) → (helper_patch x program ≡ ok patch))
        × ((helper_patch x program ≡ ok patch) → (helper_program x patch ≡ ok program))
  helper_program-inverse patch program read =
      (helper_forth patch program read, helper_back patch program)
