-- ===== src/Base/Lines.antt =====
-- `str` methods on whole texts: suffixes, the first occurrence of a separator, lines.
use Prim.Native.Nat.{ℕ, suc}
use mathlib.Core.Path.{◌≡◌, refl, ap}
use mathlib.Core.Logic.{◌≢◌}
use mathlib.Core.Bool.{false}
use mathlib.Core.Option.{Option, none, some}
use mathlib.Core.List.{List, [], ◌∷◌, ◌++◌}
use native.Mathlib.Omega.{arith}
use agent_response_gateway.Base.Tests.{
  Text, text_eq, Text-discrete, ◌==◌, nat_eq, ==_refl, ==_false, if◌then◌else◌,
}
use agent_response_gateway.Base.Lists.{length, length-append, any}
use agent_response_gateway.Base.Strings.{strip_prefix, strip_prefix-append}

abbrev pub kept {ℓ} : {A : Type ℓ} → A → Option (List A) → Option (List A)
kept b none = none
kept b (some text) = some (b ∷ text)

unfoldable pub strip_suffix : Text → Text → Option Text
strip_suffix suffix [] = if [] == suffix then some [] else none
strip_suffix suffix (b ∷ text) =
    let rest = kept b (strip_suffix suffix text) in if b ∷ text == suffix then some [] else rest

abbrev pub kept_first : ℕ → Option (Text × Text) → Option (Text × Text)
kept_first b none = none
kept_first b (some (before, after)) = some (b ∷ before, after)

abbrev pub or_later : Option Text → Option (Text × Text) → Option (Text × Text)
or_later (some after) rest = some ([], after)
or_later none rest = rest

-- `split_once(separator)`: the text before and after the first occurrence
unfoldable pub split_once : Text → Text → Option (Text × Text)
unfolding strip_prefix
split_once separator [] = or_later (strip_prefix separator []) none
split_once separator (b ∷ text) =
    or_later (strip_prefix separator (b ∷ text)) (kept_first b (split_once separator text))

abbrev pub with_first : ℕ → List Text → List Text
with_first b [] = (b ∷ []) ∷ []
with_first b (line ∷ lines) = (b ∷ line) ∷ lines

-- `split_terminator('\n')`
unfoldable pub split_terminator : Text → List Text
split_terminator [] = []
split_terminator (b ∷ text) =
    let rest = split_terminator text in if b == b'\n' then [] ∷ rest else with_first b rest

-- No byte is a line feed.
abbrev pub OneLine : Text → Type 0
OneLine text = any (λ b. b == b'\n') text ≡ false

longer_text : (b : ℕ) (p s : Text) → b ∷ (p ++ s) ≢ s
longer_text b p s h =
    let n : suc (length (p ++ s)) ≡ length s = ap length h in
    absurd (omega (arith, n, length-append p s))

pub strip_suffix-append : (suffix p : Text) → strip_suffix suffix (p ++ suffix) ≡ some p
unfolding strip_suffix Text-discrete
strip_suffix-append [] [] = refl
strip_suffix-append (c ∷ s) [] = rw (==_refl (c ∷ s)) refl
strip_suffix-append suffix (b ∷ p) =
    rw (==_false (b ∷ (p ++ suffix)) suffix (longer_text b p suffix), strip_suffix-append suffix p)
      refl

pub split_terminator-line :
    (line rest : Text)
    → OneLine line
    → split_terminator (line ++ b'\n' ∷ rest) ≡ line ∷ split_terminator rest
unfolding split_terminator
split_terminator-line [] rest h = rw (==_refl {A = ℕ} b'\n') refl
split_terminator-line (b ∷ line) rest h =
    let tail = split_terminator-line line rest (ground arith) in
    let other : (b == b'\n') ≡ false = ground arith in rw (other, tail) refl

-- A separator that starts with a line feed is not found within a line.
pub split_once-line :
    (line separator rest : Text)
    → OneLine line
    → split_once (b'\n' ∷ separator) (line ++ (b'\n' ∷ separator) ++ rest) ≡ some (line, rest)
unfolding split_once strip_prefix
split_once-line [] separator rest h =
    rw (==_refl {A = ℕ} b'\n', strip_prefix-append separator rest) refl
split_once-line (b ∷ line) separator rest h =
    let other : (b'\n' == b) ≡ false = ground arith in
    rw (other, split_once-line line separator rest (ground arith)) refl
