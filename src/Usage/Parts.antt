-- ===== src/Usage/Parts.antt =====
-- The loop of `normalize` in crates/usage-contract/src/lib.rs over the counters that are parts of others.
use agent_response_gateway.Base.{
  ℕ, ◌≤◌, ◌≡◌, refl, ◌∙◌, arith, Bool, true, false, Option, none, some, ◌==◌, nat_eq, text_eq, Text,
  Text-discrete, ℕ_discrete, ==_refl, bytes, Bool-cases, inl, inr, if◌then◌else◌,
}
use agent_response_gateway.Base.Tables.{insert, get-insert}
use agent_response_gateway.Usage.Contract.{
  Counter, CanonicalUsage, value_of, mark_invalid, invalid_counter, input_tokens, output_tokens,
  cache_read_input_tokens, cache_write_input_tokens, reasoning_output_tokens,
}
use agent_response_gateway.Usage.Steps.{check_subset, check_subsets, exceeds}

-- A counter that is part of another, where both are known.
abbrev pub Within : Option ℕ → Option ℕ → Type 0
Within (some n) (some max) = n ≤ max
Within _ _ = Unit

-- A count that is written, and the others.
pub value-insert :
    (field other : Text) (c : Counter) (u : CanonicalUsage)
    → value_of (record u { counters = insert field c u.counters }) other
      ≡ (if field == other then c.value else value_of u other)
value-insert field other c u = elim (Bool-cases (field == other)) [
  | inl same ↦ rw (get-insert field other c u.counters, same) refl
  | inr differs ↦ rw (get-insert field other c u.counters, differs) refl
]

pub value-mark_invalid :
    (field reason other : Text) (u : CanonicalUsage)
    → value_of (mark_invalid field reason u) other
      ≡ (if field == other then none else value_of u other)
unfolding mark_invalid
value-mark_invalid field reason other u = value-insert field other invalid_counter u

Within_none : (max : Option ℕ) → Within none max
Within_none none = tt
Within_none (some n) = tt

Within_of_none : (n max : Option ℕ) → n ≡ none → Within n max
Within_of_none none max h = Within_none max
Within_of_none (some n) max h = absurd (cc)

pub else_branch : (b : Bool) (x y : Option ℕ) → b ≡ false → (if b then x else y) ≡ y
else_branch b x y h = rw h refl

pub then_branch : (b : Bool) (x y : Option ℕ) → b ≡ true → (if b then x else y) ≡ x
then_branch b x y h = rw h refl

not_exceeds : (n max : Option ℕ) → exceeds n max ≡ false → Within n max
not_exceeds none max h = Within_none max
not_exceeds (some n) none h = tt
not_exceeds (some n) (some max) h = ground arith

-- One step of the loop over the parts.
check_subset-other :
    (field parent other : Text) (u : CanonicalUsage)
    → (field == other) ≡ false
    → value_of (check_subset field parent u) other ≡ value_of u other
unfolding check_subset
check_subset-other field parent other u n =
    elim (Bool-cases (exceeds (value_of u field) (value_of u parent))) [
      | inl over ↦ rw over (
          value-mark_invalid field (bytes "subset_exceeds_total") other u
          ∙ else_branch (field == other) none (value_of u other) n)
      | inr within ↦ rw within refl
    ]

check_subset-Within :
    (field parent : Text) (u : CanonicalUsage)
    → (field == parent) ≡ false
    → Within
        (value_of (check_subset field parent u) field)
        (value_of (check_subset field parent u) parent)
unfolding check_subset
check_subset-Within field parent u n =
    elim (Bool-cases (exceeds (value_of u field) (value_of u parent))) [
      | inl over ↦ rw over (
          Within_of_none (value_of (mark_invalid field (bytes "subset_exceeds_total") u) field)
            (value_of (mark_invalid field (bytes "subset_exceeds_total") u) parent)
            (value-mark_invalid field (bytes "subset_exceeds_total") field u
              ∙ then_branch (field == field) none (value_of u field) (==_refl field)))
      | inr within ↦ rw within (not_exceeds (value_of u field) (value_of u parent) within)
    ]

-- The parts of the input and of the output, after the loop.
pub record Parts (u : CanonicalUsage) : Type 0 where
  pub read : Within (value_of u cache_read_input_tokens) (value_of u input_tokens)
  pub written : Within (value_of u cache_write_input_tokens) (value_of u input_tokens)
  pub thought : Within (value_of u reasoning_output_tokens) (value_of u output_tokens)

read_apart_written : (cache_read_input_tokens == cache_write_input_tokens) ≡ false
unfolding Text-discrete ℕ_discrete
read_apart_written = refl

read_apart_input : (cache_read_input_tokens == input_tokens) ≡ false
unfolding Text-discrete ℕ_discrete
read_apart_input = refl

written_apart_input : (cache_write_input_tokens == input_tokens) ≡ false
unfolding Text-discrete ℕ_discrete
written_apart_input = refl

written_apart_read : (cache_write_input_tokens == cache_read_input_tokens) ≡ false
unfolding Text-discrete ℕ_discrete
written_apart_read = refl

thought_apart_output : (reasoning_output_tokens == output_tokens) ≡ false
unfolding Text-discrete ℕ_discrete
thought_apart_output = refl

thought_apart_read : (reasoning_output_tokens == cache_read_input_tokens) ≡ false
unfolding Text-discrete ℕ_discrete
thought_apart_read = refl

thought_apart_written : (reasoning_output_tokens == cache_write_input_tokens) ≡ false
unfolding Text-discrete ℕ_discrete
thought_apart_written = refl

thought_apart_input : (reasoning_output_tokens == input_tokens) ≡ false
unfolding Text-discrete ℕ_discrete
thought_apart_input = refl

pub check_subsets-Parts : (u : CanonicalUsage) → Parts (check_subsets u)
unfolding check_subsets
check_subsets-Parts u =
    let r = check_subset cache_read_input_tokens input_tokens u in
    let w = check_subset cache_write_input_tokens input_tokens r in
    record {
      read =
          rw
            (
              check_subset-other reasoning_output_tokens output_tokens cache_read_input_tokens w
                  thought_apart_read,
              check_subset-other reasoning_output_tokens output_tokens input_tokens w
                  thought_apart_input,
              check_subset-other cache_write_input_tokens input_tokens cache_read_input_tokens r
                  written_apart_read,
              check_subset-other cache_write_input_tokens input_tokens input_tokens r
                  written_apart_input,
            )
            (check_subset-Within cache_read_input_tokens input_tokens u read_apart_input);
      written =
          rw
            (
              check_subset-other reasoning_output_tokens output_tokens cache_write_input_tokens w
                  thought_apart_written,
              check_subset-other reasoning_output_tokens output_tokens input_tokens w
                  thought_apart_input,
            )
            (check_subset-Within cache_write_input_tokens input_tokens r written_apart_input);
      thought = check_subset-Within reasoning_output_tokens output_tokens w thought_apart_output;
    }
