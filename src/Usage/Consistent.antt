-- ===== src/Usage/Consistent.antt =====
-- The counts of a canonical usage of crates/usage-contract/src/lib.rs, taken together.
use agent_response_gateway.Base.{
  ℕ, ◌≡◌, refl, ◌∙◌, false, not, ◌&&◌, Option, none, some, ◌==◌, nat_eq, text_eq, Text,
  Text-discrete, ℕ_discrete, bytes, any, Bool-cases, inl, inr,
}
use agent_response_gateway.Base.Tables.{Table, get}
use agent_response_gateway.Usage.Contract.{
  Counter, CanonicalUsage, value_of, derived_counter, checked_add, Profile, input_tokens,
  output_tokens, total_tokens, cache_read_input_tokens, cache_write_input_tokens,
  reasoning_output_tokens,
}
use agent_response_gateway.Usage.Steps.{
  normalize, check_total, total_for, settle_total, note_last, is_not_reported,
}
use agent_response_gateway.Usage.Normalize.{bad_sum, any_invalid, invalid_name}
use agent_response_gateway.Usage.Parts.{
  Parts, value-insert, value-mark_invalid, check_subsets-Parts, else_branch,
}
use agent_response_gateway.Usage.Totals.{
  TotalIsSum, input_apart, output_apart, Total, total_for-Total,
}

-- The total is the only count that the last check changes.
settle-other :
    (u : CanonicalUsage) (a b : ℕ) (t : Option ℕ) (other : Text)
    → (total_tokens == other) ≡ false
    → value_of (settle_total a b t u) other ≡ value_of u other
settle-other u a b (some total) other n =
    elim (Bool-cases (bad_sum (some a) (some b) (some total))) [
      | inl bad ↦ rw bad (
          value-mark_invalid total_tokens (bytes "total_mismatch") other u
          ∙ else_branch _ none (value_of u other) n)
      | inr good ↦ rw good refl
    ]
settle-other u a b none other n =
    elim (Bool-cases (is_not_reported (get total_tokens u.counters))) [
      | inl absent ↦ rw absent (
          value-insert total_tokens other (derived_counter (checked_add a b)) u
          ∙ else_branch _ (derived_counter (checked_add a b)).value (value_of u other) n)
      | inr given ↦ rw given refl
    ]

total_for-other :
    (u : CanonicalUsage) (a b : Option ℕ) (other : Text)
    → (total_tokens == other) ≡ false
    → value_of (total_for a b u) other ≡ value_of u other
total_for-other u none b other n = refl
total_for-other u (some a) none other n = refl
total_for-other u (some a) (some b) other n = settle-other u a b (value_of u total_tokens) other n

note_last-counters : (u : CanonicalUsage) → (note_last u).counters ≡ u.counters
unfolding note_last
note_last-counters u =
    elim (Bool-cases (any_invalid u && not (any (λ v. v == invalid_name) u.violations))) [
      | inl new ↦ rw new refl
      | inr old ↦ rw old refl
    ]

-- What the counts of a canonical usage promise.
pub record IsConsistent (u : CanonicalUsage) : Type 0 where
  pub total :
      TotalIsSum (value_of u input_tokens) (value_of u output_tokens) (value_of u total_tokens)
  pub parts : Parts u

read_apart : (total_tokens == cache_read_input_tokens) ≡ false
unfolding Text-discrete ℕ_discrete
read_apart = refl

written_apart : (total_tokens == cache_write_input_tokens) ≡ false
unfolding Text-discrete ℕ_discrete
written_apart = refl

thought_apart : (total_tokens == reasoning_output_tokens) ≡ false
unfolding Text-discrete ℕ_discrete
thought_apart = refl

check_total-Parts : (u : CanonicalUsage) → Parts u → Parts (check_total u)
unfolding check_total
check_total-Parts u p =
    let a = value_of u input_tokens in
    let b = value_of u output_tokens in
    record {
      read =
          rw
            (
              total_for-other u a b cache_read_input_tokens read_apart,
              total_for-other u a b input_tokens input_apart,
            )
            p.read;
      written =
          rw
            (
              total_for-other u a b cache_write_input_tokens written_apart,
              total_for-other u a b input_tokens input_apart,
            )
            p.written;
      thought =
          rw
            (
              total_for-other u a b reasoning_output_tokens thought_apart,
              total_for-other u a b output_tokens output_apart,
            )
            p.thought;
    }

check_total-Total : (u : CanonicalUsage) → Total (check_total u)
unfolding check_total
check_total-Total u =
    total_for-Total u (value_of u input_tokens) (value_of u output_tokens) refl refl

noted : (u : CanonicalUsage) → IsConsistent u → IsConsistent (note_last u)
noted u c = record {
  total = rw (note_last-counters u) c.total;
  parts = record {
    read = rw (note_last-counters u) c.parts.read;
    written = rw (note_last-counters u) c.parts.written;
    thought = rw (note_last-counters u) c.parts.thought;
  };
}

-- Whatever a provider reports under any profile, the canonical counts that are known agree: the
-- total is the sum of input and output and a 64-bit number, what is read from the cache and what is
-- written to it is no more than the input, and the reasoning no more than the output.
pub normalize-IsConsistent :
    (profile : Profile) (counters : Table Text Counter) → IsConsistent (normalize profile counters)
unfolding normalize
normalize-IsConsistent profile counters =
    noted _
      (record { total = check_total-Total _; parts = check_total-Parts _ (check_subsets-Parts _) })
