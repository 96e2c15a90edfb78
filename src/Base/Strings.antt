-- ===== src/Base/Strings.antt =====
-- `str` and slice methods on the bytes of a text: prefixes, the order of texts, `trim`.
use Prim.Native.Nat.{ℕ, zero, suc}
use mathlib.Core.Path.{◌≡◌, refl}
use mathlib.Core.Bool.{Bool, true, false, ◌&&◌, ◌||◌}
use mathlib.Core.Option.{Option, none, some}
use mathlib.Core.List.{List, [], ◌∷◌, ◌++◌}
use native.Mathlib.Decide.{ℕ_discrete}
use agent_response_gateway.Base.Tests.{
  Text, text_eq, ltb, leb, ◌==◌, nat_eq, ==_refl, if◌then◌else◌, is_yes,
}
use agent_response_gateway.Base.Lists.{length}

-- `iter().take(n)` and `&[n..]`
abbrev pub take {ℓ} : {A : Type ℓ} → ℕ → List A → List A
take zero xs = []
take (suc n) [] = []
take (suc n) (x ∷ xs) = x ∷ take n xs

abbrev pub drop {ℓ} : {A : Type ℓ} → ℕ → List A → List A
drop zero xs = xs
drop (suc n) [] = []
drop (suc n) (_ ∷ xs) = drop n xs

unfoldable pub strip_prefix : Text → Text → Option Text
strip_prefix [] text = some text
strip_prefix (p ∷ ps) [] = none
strip_prefix (p ∷ ps) (b ∷ text) = let rest = strip_prefix ps text in if p == b then rest else none

abbrev pub starts_with : Text → Text → Bool
starts_with [] text = true
starts_with (p ∷ ps) [] = false
starts_with (p ∷ ps) (b ∷ text) = p == b && starts_with ps text

-- `Ord` of byte strings
unfoldable pub text_before : Text → Text → Bool
text_before [] [] = false
text_before [] (_ ∷ _) = true
text_before (_ ∷ _) [] = false
text_before (a ∷ s) (b ∷ t) = let rest = text_before s t in ltb a b || (a == b && rest)

-- One character with the Unicode property White_Space.
unfoldable pub is_space : Text → Bool
is_space (a ∷ []) = (leb 9 a && leb a 13) || a == 0x20
is_space (a ∷ b ∷ []) = a == 0xc2 && (b == 0x85 || b == 0xa0)
is_space (a ∷ b ∷ c ∷ []) =
    (a == 0xe1 && (b == 0x9a && c == 0x80))
    || ((a == 0xe2
          && ((b == 0x80 && (leb c 0x8a || (c == 0xa8 || (c == 0xa9 || c == 0xaf))))
              || (b == 0x81 && c == 0x9f)))
        || (a == 0xe3 && (b == 0x80 && c == 0x80)))
is_space _ = false

unfoldable pub ends_in_space : Text → Bool
unfolding is_space
ends_in_space [] = false
ends_in_space (b ∷ text) = is_space (b ∷ text) || ends_in_space text

-- `text.trim() != text`
unfoldable pub is_trimmable : Text → Bool
unfolding is_space ends_in_space
is_trimmable text =
    is_space (take 1 text)
    || (is_space (take 2 text) || (is_space (take 3 text) || ends_in_space text))

pub strip_prefix-append : (p text : Text) → strip_prefix p (p ++ text) ≡ some text
unfolding strip_prefix
strip_prefix-append [] text = refl
strip_prefix-append (b ∷ p) text = rw (==_refl b) (strip_prefix-append p text)

pub strip_prefix-eq :
    (p text : Text) {rest : Text} → strip_prefix p text ≡ some rest → text ≡ p ++ rest
unfolding strip_prefix
strip_prefix-eq [] text h = cc
strip_prefix-eq (p ∷ ps) [] h = cc
strip_prefix-eq (p ∷ ps) (b ∷ text) {rest} h =
    elim (ℕ_discrete p b)
        as (λ d.
          (if is_yes d then strip_prefix ps text else none) ≡ some rest
          → b ∷ text ≡ (p ∷ ps) ++ rest) [
            | yes e ↦ λ q. let t = strip_prefix-eq ps text q in cc
            | no _ ↦ λ q. cc
          ]
      h

pub drop-append : (p text : Text) → drop (length p) (p ++ text) ≡ text
drop-append [] text = refl
drop-append (b ∷ p) text = drop-append p text

pub starts_with-append : (p text : Text) → starts_with p (p ++ text) ≡ true
starts_with-append [] text = refl
starts_with-append (b ∷ p) text = rw (==_refl b) (starts_with-append p text)
