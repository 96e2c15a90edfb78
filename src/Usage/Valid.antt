-- ===== src/Usage/Valid.antt =====
-- `validate` of crates/usage-contract/src/lib.rs on what `normalize` makes of a report.
use agent_response_gateway.Base.{
  ◌≡◌, ◌≤◌, refl, ◌∙◌, arith, true, false, Option, none, some, List, [], ◌∷◌, ◌==◌, nat_eq,
  eq_of_==, text_eq, Text, is_some, length, any, all, Bool-cases, inl, inr,
}
use agent_response_gateway.Base.Tables.{
  Table, get, insert, contains_key, get-insert, length-insert_old,
}
use agent_response_gateway.Base.Maps.{Keyed, insert-Keyed}
use agent_response_gateway.Base.Distinct.{has, Distinct}
use agent_response_gateway.Usage.Contract.{
  Counter, CanonicalUsage, coherent, allowed_path, field_names,
}
use agent_response_gateway.Usage.Normalize.{invalid_name}
use agent_response_gateway.Usage.Closed.{aliases_differ, is_field, step_reasons, with_counter}

-- What `validate` asks of the reports, and that the two cache counts agree.
pub record Wire (reported : Table Text Counter) : Type 0 where
  pub coherent_all : all (λ kc. coherent kc.1) reported ≡ true
  pub allowed : all (λ kc. allowed_path kc.0) reported ≡ true
  pub fits : length reported ≤ 16
  pub agree : aliases_differ reported ≡ false

-- The names of violations that `normalize` gives to such reports.
abbrev pub names : List Text
names = invalid_name ∷ step_reasons

-- What `validate` asks of a usage, in the form that the steps keep.
pub record Sound (u : CanonicalUsage) : Type 0 where
  pub keyed : Keyed u.counters
  pub size : length u.counters ≡ 7
  pub all_fields : all (λ f. contains_key f u.counters) field_names ≡ true
  pub coherent_all : all (λ kc. coherent kc.1) u.counters ≡ true
  pub details_coherent : all (λ d. coherent d.input_tokens) u.cache_write_details ≡ true
  pub few : length u.cache_write_details ≤ 2
  pub wire : Wire u.reported
  pub distinct : Distinct u.violations
  pub known : all (λ v. has v names) u.violations ≡ true

pub all-get :
    (path : Text) (c : Counter) (t : Table Text Counter)
    → all (λ kc. coherent kc.1) t ≡ true
    → get path t ≡ some c
    → coherent c ≡ true
unfolding get
all-get path c [] h g = absurd (cc)
all-get path c ((k, d) ∷ t) h g = elim (Bool-cases (k == path)) [
  | inl same ↦
      let found : some d ≡ some c = rw same at g in
      let is_c : d ≡ c = cc in rw (← is_c) (ground arith)
  | inr other ↦
      let later : get path t ≡ some c = rw other at g in all-get path c t (ground arith) later
]

all-insert :
    (field : Text) (c : Counter) (t : Table Text Counter)
    → coherent c ≡ true
    → all (λ kc. coherent kc.1) t ≡ true
    → all (λ kc. coherent kc.1) (insert field c t) ≡ true
unfolding insert
all-insert field c [] ok h = rw ok refl
all-insert field c ((k, d) ∷ t) ok h = elim (Bool-cases (k == field)) [
  | inl same ↦ let later : all (λ kc. coherent kc.1) t ≡ true = ground arith in rw (same, ok) later
  | inr other ↦
      let first : coherent d ≡ true = ground arith in
      let later = all-insert field c t ok (ground arith) in rw (other, first) later
]

contains_insert :
    (f field : Text) (c : Counter) (t : Table Text Counter)
    → contains_key f t ≡ true
    → contains_key f (insert field c t) ≡ true
unfolding contains_key
contains_insert f field c t h = elim (Bool-cases (field == f)) [
  | inl same ↦ rw (get-insert field f c t, same) refl
  | inr other ↦ rw (get-insert field f c t, other) h
]

complete_insert :
    (field : Text) (c : Counter) (t : Table Text Counter) (fs : List Text)
    → all (λ f. contains_key f t) fs ≡ true
    → all (λ f. contains_key f (insert field c t)) fs ≡ true
complete_insert field c t [] h = refl
complete_insert field c t (f ∷ fs) h =
    rw (contains_insert f field c t (ground arith)) (complete_insert field c t fs (ground arith))

contains_field :
    (field : Text) (t : Table Text Counter) (fs : List Text)
    → any (λ f. f == field) fs ≡ true
    → all (λ f. contains_key f t) fs ≡ true
    → contains_key field t ≡ true
contains_field field t [] f h = absurd (cc)
contains_field field t (g ∷ fs) f h = elim (Bool-cases (g == field)) [
  | inl same ↦
      let key = eq_of_== g field same in
      let first : contains_key g t ≡ true = ground arith in rw (← key) first
  | inr other ↦
      let later : any (λ f. f == field) fs ≡ true = rw other at f in
      contains_field field t fs later (ground arith)
]

size_insert :
    (field : Text) (c : Counter) (t : Table Text Counter)
    → contains_key field t ≡ true
    → length (insert field c t) ≡ length t
unfolding contains_key
size_insert field c t h = found (get field t) refl h
  where
    found :
        (o : Option Counter)
        → get field t ≡ o
        → is_some o ≡ true
        → length (insert field c t) ≡ length t
    found none g h = absurd (cc)
    found (some d) g h = length-insert_old field c d t g

pub with_counter-Sound :
    (field : Text) (c : Counter) (u : CanonicalUsage)
    → is_field field ≡ true
    → coherent c ≡ true
    → Sound u
    → Sound (with_counter field c u)
with_counter-Sound field c u f ok s = record {
  keyed = insert-Keyed field c u.counters s.keyed;
  size =
      size_insert field c u.counters (contains_field field u.counters field_names f s.all_fields)
      ∙ s.size;
  all_fields = complete_insert field c u.counters field_names s.all_fields;
  coherent_all = all-insert field c u.counters ok s.coherent_all;
  details_coherent = s.details_coherent;
  few = s.few;
  wire = s.wire;
  distinct = s.distinct;
  known = s.known;
}
