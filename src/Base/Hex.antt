-- ===== src/Base/Hex.antt =====
-- `format!("{b:02x}")`: a byte as two lower-case hexadecimal digits.
use Prim.Native.Nat.{ℕ, ◌+◌, ◌-◌, ◌*◌, ◌/◌, ◌%◌, ◌<◌}
use mathlib.Core.Path.{◌≡◌, refl}
use mathlib.Core.Bool.{true}
use mathlib.Core.List.{List, [], ◌∷◌}
use native.Mathlib.Omega.{arith}
use agent_response_gateway.Base.Tests.{Text, ltb, is_hex, if◌then◌else◌}
use agent_response_gateway.Base.Lists.{length, all, All}

abbrev pub hex_digit : ℕ → ℕ
hex_digit n = if ltb n 10 then b'0' + n else b'a' + (n - 10)

abbrev pub hex_of : List ℕ → Text
hex_of [] = []
hex_of (b ∷ bs) = hex_digit (b / 16) ∷ hex_digit (b % 16) ∷ hex_of bs

is_hex-hex_digit : (n : ℕ) → n < 16 → is_hex (hex_digit n) ≡ true
is_hex-hex_digit n h = ground arith

pub length-hex_of : (bs : List ℕ) → length (hex_of bs) ≡ length bs * 2
length-hex_of [] = omega arith
length-hex_of (b ∷ bs) = omega (arith, length-hex_of bs)

pub all-hex_of : (bs : List ℕ) → All (λ b. b < 256) bs → all is_hex (hex_of bs) ≡ true
all-hex_of [] h = refl
all-hex_of (b ∷ bs) h =
    rw (is_hex-hex_digit (b / 16) (omega arith), is_hex-hex_digit (b % 16) (omega arith))
      (all-hex_of bs h.1)
