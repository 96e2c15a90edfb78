-- ===== src/Continuation/Hexadecimal.antt =====
-- `hex` and `unhex` of src/continuation/mod.rs.
use agent_response_gateway.Base.{
  ℕ, ◌+◌, ◌*◌, ◌/◌, ◌%◌, ◌<◌, ◌≡◌, refl, arith, true, List, [], ◌∷◌, ◌==◌, nat_eq, length, All, ok,
}
use agent_response_gateway.Base.Hex.{hex_digit, hex_of, length-hex_of, all-hex_of}
use agent_response_gateway.Continuation.Contract.{unhex, pairs, digit_value}

digit_value-hex_digit : (n : ℕ) → n < 16 → digit_value (hex_digit n) ≡ n
digit_value-hex_digit n h = ground arith

joined_digits :
    (b : ℕ) → b < 256 → digit_value (hex_digit (b / 16)) * 16 + digit_value (hex_digit (b % 16)) ≡ b
joined_digits b h =
    let high = digit_value-hex_digit (b / 16) (omega arith) in
    let low = digit_value-hex_digit (b % 16) (omega arith) in rw (high, low) (omega arith)

pairs-hex_of : (bs : List ℕ) → All (λ b. b < 256) bs → pairs (hex_of bs) ≡ bs
pairs-hex_of [] h = refl
pairs-hex_of (b ∷ bs) h = λ i. joined_digits b h.0 i ∷ pairs-hex_of bs h.1 i

even : (n m : ℕ) → n ≡ m * 2 → (n % 2 == 0) ≡ true
even n m h = ground arith

-- Bytes that `hex` writes are read back by `unhex`.
pub unhex-hex_of : (bs : List ℕ) → All (λ b. b < 256) bs → unhex (hex_of bs) ≡ ok bs
unfolding unhex
unhex-hex_of bs h =
    rw
      (even (length (hex_of bs)) (length bs) (length-hex_of bs), all-hex_of bs h, pairs-hex_of bs h)
      refl
