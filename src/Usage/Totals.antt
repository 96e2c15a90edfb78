-- ===== src/Usage/Totals.antt =====
-- The total that `normalize` of crates/usage-contract/src/lib.rs leaves.
use agent_response_gateway.Base.{
  ℕ, ◌+◌, ◌^◌, ◌<◌, ◌≡◌, refl, ◌∙◌, arith, false, Option, none, some, ltb, ◌==◌, nat_eq, text_eq,
  Text-discrete, ℕ_discrete, ==_refl, ltb→lt, bytes, Bool-cases, inl, inr,
}
use agent_response_gateway.Base.Tables.{get, insert}
use agent_response_gateway.Usage.Contract.{
  CanonicalUsage, value_of, mark_invalid, derived_counter, checked_add, input_tokens, output_tokens,
  total_tokens,
}
use agent_response_gateway.Usage.Steps.{total_for, settle_total, is_not_reported}
use agent_response_gateway.Usage.Normalize.{bad_sum}
use agent_response_gateway.Usage.Parts.{value-insert, value-mark_invalid, else_branch, then_branch}

-- The total of input and output, where the three are known.
abbrev pub TotalIsSum : Option ℕ → Option ℕ → Option ℕ → Type 0
TotalIsSum (some input) (some output) (some total) = (input + output ≡ total) × (total < 2 ^ 64)
TotalIsSum _ _ _ = Unit

TotalIsSum-none : (input output : Option ℕ) → TotalIsSum input output none
TotalIsSum-none none output = tt
TotalIsSum-none (some a) none = tt
TotalIsSum-none (some a) (some b) = tt

pub input_apart : (total_tokens == input_tokens) ≡ false
unfolding Text-discrete ℕ_discrete
input_apart = refl

pub output_apart : (total_tokens == output_tokens) ≡ false
unfolding Text-discrete ℕ_discrete
output_apart = refl

is_sum :
    (a b total : ℕ)
    → bad_sum (some a) (some b) (some total) ≡ false
    → TotalIsSum (some a) (some b) (some total)
is_sum a b total h = ground arith

-- The totals of a usage whose total is written.
abbrev pub Total : CanonicalUsage → Type 0
Total u = TotalIsSum (value_of u input_tokens) (value_of u output_tokens) (value_of u total_tokens)

checked-Total : (a b : ℕ) → TotalIsSum (some a) (some b) (derived_counter (checked_add a b)).value
checked-Total a b = elim (Bool-cases (ltb (a + b) (2 ^ 64))) [
  | inl fits ↦ rw fits (refl, ltb→lt (a + b) (2 ^ 64) fits)
  | inr over ↦ rw over tt
]

placed-Total :
    (u : CanonicalUsage) (a b : ℕ)
    → value_of u input_tokens ≡ some a
    → value_of u output_tokens ≡ some b
    → Total
        (record u { counters = insert total_tokens (derived_counter (checked_add a b)) u.counters })
placed-Total u a b ea eb =
    let c = derived_counter (checked_add a b) in
    rw
      (
        value-insert total_tokens input_tokens c u
            ∙ else_branch _ c.value (value_of u input_tokens) input_apart
            ∙ ea,
        value-insert total_tokens output_tokens c u
            ∙ else_branch _ c.value (value_of u output_tokens) output_apart
            ∙ eb,
        value-insert total_tokens total_tokens c u
            ∙ then_branch _ c.value (value_of u total_tokens) (==_refl total_tokens),
      )
      (checked-Total a b)

TotalIsSum-of_none : (a b t : Option ℕ) → t ≡ none → TotalIsSum a b t
TotalIsSum-of_none a b none h = TotalIsSum-none a b
TotalIsSum-of_none a b (some t) h = absurd (cc)

settle-Total :
    (u : CanonicalUsage) (a b : ℕ) (t : Option ℕ)
    → value_of u input_tokens ≡ some a
    → value_of u output_tokens ≡ some b
    → value_of u total_tokens ≡ t
    → Total (settle_total a b t u)
settle-Total u a b (some total) ea eb et =
    elim (Bool-cases (bad_sum (some a) (some b) (some total))) [
      | inl bad ↦ rw bad (
          TotalIsSum-of_none _ _
            (value_of (mark_invalid total_tokens (bytes "total_mismatch") u) total_tokens)
            (value-mark_invalid total_tokens (bytes "total_mismatch") total_tokens u
              ∙ then_branch _ none (value_of u total_tokens) (==_refl total_tokens)))
      | inr good ↦ rw good (rw (ea, eb, et) (is_sum a b total good))
    ]
settle-Total u a b none ea eb et =
    elim (Bool-cases (is_not_reported (get total_tokens u.counters))) [
      | inl absent ↦ rw absent (placed-Total u a b ea eb)
      | inr given ↦ rw given (TotalIsSum-of_none _ _ (value_of u total_tokens) et)
    ]

pub total_for-Total :
    (u : CanonicalUsage) (a b : Option ℕ)
    → value_of u input_tokens ≡ a
    → value_of u output_tokens ≡ b
    → Total (total_for a b u)
total_for-Total u none b ea eb = rw ea tt
total_for-Total u (some a) none ea eb = rw (ea, eb) tt
total_for-Total u (some a) (some b) ea eb = settle-Total u a b (value_of u total_tokens) ea eb refl
