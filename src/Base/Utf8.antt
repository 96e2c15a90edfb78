-- ===== src/Base/Utf8.antt =====
-- `std::str::from_utf8`: which bytes are UTF-8.
use Prim.Native.Nat.{ℕ, zero, suc}
use mathlib.Core.Bool.{Bool, true, false, ◌&&◌}
use mathlib.Core.Option.{Option, none, some}
use mathlib.Core.List.{[], ◌∷◌}
use agent_response_gateway.Base.Tests.{Text, ltb, leb, if◌then◌else◌}

-- The number of bytes that follow a first byte, and the bounds of the next.
abbrev pub utf8_head : ℕ → Option (ℕ × ℕ × ℕ)
utf8_head b =
    if ltb b 0x80
    then some (0, 0x80, 0xbf)
    else if ltb b 0xc2
    then none
    else if ltb b 0xe0
    then some (1, 0x80, 0xbf)
    else if ltb b 0xe1
    then some (2, 0xa0, 0xbf)
    else if ltb b 0xed
    then some (2, 0x80, 0xbf)
    else if ltb b 0xee
    then some (2, 0x80, 0x9f)
    else if ltb b 0xf0
    then some (2, 0x80, 0xbf)
    else if ltb b 0xf1
    then some (3, 0x90, 0xbf)
    else if ltb b 0xf4
    then some (3, 0x80, 0xbf)
    else if ltb b 0xf5
    then some (3, 0x80, 0x8f)
    else none

unfoldable pub utf8_after : ℕ → ℕ → ℕ → Text → Bool
utf8_after zero low high [] = true
utf8_after (suc n) low high [] = false
utf8_after zero low high (b ∷ bs) = elim (utf8_head b) [
  | none ↦ false
  | some (n, l, h) ↦ utf8_after n l h bs
]
utf8_after (suc n) low high (b ∷ bs) = (leb low b && leb b high) && utf8_after n 0x80 0xbf bs

abbrev pub is_utf8 : Text → Bool
is_utf8 = utf8_after 0 0x80 0xbf
