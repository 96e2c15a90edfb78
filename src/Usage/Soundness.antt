-- ===== src/Usage/Soundness.antt =====
-- That the changes of `normalize` in crates/usage-contract/src/lib.rs keep what `validate` asks.
use agent_response_gateway.Base.{
  ℕ, ◌≡◌, ◌≤◌, refl, ap, arith, Bool, true, false, ◌||◌, Option, none, some, List, [], ◌∷◌, ◌++◌,
  leb, ◌==◌, nat_eq, text_eq, Text, Text-discrete, ℕ_discrete, bytes, length, length-append, any,
  all, Bool-cases, ==_refl, eq_of_==, and_true, inl, inr,
}
use agent_response_gateway.Base.Tables.{Table, get, contains_key}
use agent_response_gateway.Base.Distinct.{has, Distinct, append-Distinct, length-Distinct}
use agent_response_gateway.Usage.Contract.{
  Counter, Source-discrete, CacheWriteDetail, CanonicalUsage, default_usage, mark_invalid, Profile,
  coherent, invalid_counter, short_lived, long_lived, validate_usage, is_known_violation,
}
use agent_response_gateway.Usage.Normalize.{invalid_name}
use agent_response_gateway.Usage.Steps.{normalize, with_details, detail, written}
use agent_response_gateway.Usage.Kept.{normalize-Keeps}
use agent_response_gateway.Usage.Closed.{Closed, is_field, is_reason, with_counter, with_note}
use agent_response_gateway.Usage.Valid.{Wire, Sound, names, all-get, with_counter-Sound}

add_known :
    (reason : Text) (vs : List Text)
    → has reason names ≡ true
    → all (λ v. has v names) vs ≡ true
    → all (λ v. has v names) (vs ++ reason ∷ []) ≡ true
add_known reason [] r h = rw r refl
add_known reason (v ∷ vs) r h =
    let first : has v names ≡ true = ground arith in rw first (add_known reason vs r (ground arith))

reason_is_name : (reason : Text) → is_reason reason ≡ true → has reason names ≡ true
reason_is_name reason r = rw r (or_true (invalid_name == reason))
  where
    or_true : (b : Bool) → (b || true) ≡ true
    or_true true = refl
    or_true false = refl

-- A violation that is added to those of a usage.
with_violations-Sound :
    (vs : List Text) (u : CanonicalUsage)
    → Distinct vs
    → all (λ v. has v names) vs ≡ true
    → Sound u
    → Sound (record u { violations = vs })
with_violations-Sound vs u d k s = record {
  keyed = s.keyed;
  size = s.size;
  all_fields = s.all_fields;
  coherent_all = s.coherent_all;
  details_coherent = s.details_coherent;
  few = s.few;
  wire = s.wire;
  distinct = d;
  known = k;
}

mark_invalid-Sound :
    (field reason : Text) (u : CanonicalUsage)
    → is_field field ≡ true
    → is_reason reason ≡ true
    → Sound u
    → Sound (mark_invalid field reason u)
unfolding mark_invalid Source-discrete
mark_invalid-Sound field reason u f r s =
    let cleared = with_counter-Sound field invalid_counter u f refl s in
    elim (Bool-cases (any (λ v. v == reason) u.violations)) [
      | inl there ↦ rw there cleared
      | inr new ↦ rw new (
          with_violations-Sound (u.violations ++ reason ∷ []) (with_counter field invalid_counter u)
            (append-Distinct reason u.violations new s.distinct)
            (add_known reason u.violations (reason_is_name reason r) s.known) cleared)
    ]

invalid_is_name : has invalid_name names ≡ true
unfolding Text-discrete ℕ_discrete
invalid_is_name = refl

with_note-Sound :
    (u : CanonicalUsage)
    → any (λ v. v == invalid_name) u.violations ≡ false
    → Sound u
    → Sound (with_note u)
with_note-Sound u new s =
    with_violations-Sound (u.violations ++ invalid_name ∷ []) u
      (append-Distinct invalid_name u.violations new s.distinct)
      (add_known invalid_name u.violations invalid_is_name s.known) s

detail_lem :
    (ttl : ℕ) (path : Text) (reported : Table Text Counter) (o : Option Counter)
    → all (λ kc. coherent kc.1) reported ≡ true
    → get path reported ≡ o
    → (all (λ d. coherent d.input_tokens) (detail ttl o) ≡ true) × (length (detail ttl o) ≤ 1)
detail_lem ttl path reported none h g = (refl, omega arith)
detail_lem ttl path reported (some c) h g = (rw (all-get path c reported h g) refl, omega arith)

all_append :
    (xs ys : List CacheWriteDetail)
    → all (λ d. coherent d.input_tokens) xs ≡ true
    → all (λ d. coherent d.input_tokens) ys ≡ true
    → all (λ d. coherent d.input_tokens) (xs ++ ys) ≡ true
all_append [] ys h k = k
all_append (x ∷ xs) ys h k =
    let first : coherent x.input_tokens ≡ true = ground arith in
    rw first (all_append xs ys (ground arith) k)

with_details-Sound :
    (u : CanonicalUsage) → u.cache_write_details ≡ [] → Sound u → Sound (with_details u)
with_details-Sound u empty s =
    let (ok_short, one) = detail_lem 300 short_lived u.reported _ s.wire.coherent_all refl in
    let (ok_long, other) = detail_lem 3600 long_lived u.reported _ s.wire.coherent_all refl in
    let made : u.cache_write_details ++ written u ≡ written u = ap (λ ds. ds ++ written u) empty in
    record {
      keyed = s.keyed;
      size = s.size;
      all_fields = s.all_fields;
      coherent_all = s.coherent_all;
      details_coherent =
          rw made (all_append (detail 300 (get short_lived u.reported)) _ ok_short ok_long);
      few = rw made (
          omega (
            arith,
            one,
            other,
            length-append (detail 300 (get short_lived u.reported))
                (detail 3600 (get long_lived u.reported)),
          ));
      wire = s.wire;
      distinct = s.distinct;
      known = s.known;
    }

Sound-Closed : Closed Sound
Sound-Closed = record {
  marks = mark_invalid-Sound;
  aliases = λ u d s. absurd (let a = s.wire.agree in cc);
  inserts = with_counter-Sound;
  places = λ field path c u f g s.
      with_counter-Sound field c u f (all-get path c u.reported s.wire.coherent_all g) s;
  notes = with_note-Sound;
  details = with_details-Sound;
}

start-Sound :
    (reported : Table Text Counter)
    → Wire reported
    → Sound (record default_usage { reported = reported })
unfolding get contains_key Source-discrete Text-discrete ℕ_discrete
start-Sound reported w = record {
  keyed = (refl, (refl, (refl, (refl, (refl, (refl, (refl, tt)))))));
  size = refl;
  all_fields = refl;
  coherent_all = refl;
  details_coherent = refl;
  few = omega arith;
  wire = w;
  distinct = tt;
  known = refl;
}

pub normalize-Sound :
    (profile : Profile) (reported : Table Text Counter)
    → Wire reported
    → Sound (normalize profile reported)
normalize-Sound profile reported w =
    normalize-Keeps Sound Sound-Closed profile reported (start-Sound reported w)

pub all-has :
    (p : Text → Bool) (v : Text) (xs : List Text) → all p xs ≡ true → has v xs ≡ true → p v ≡ true
all-has p v [] h f = absurd (cc)
all-has p v (x ∷ xs) h f = elim (Bool-cases (x == v)) [
  | inl same ↦ let first : p x ≡ true = ground arith in rw (← eq_of_== x v same) first
  | inr other ↦ let later : has v xs ≡ true = rw other at f in all-has p v xs (ground arith) later
]

names_are_known : all is_known_violation names ≡ true
unfolding Text-discrete ℕ_discrete
names_are_known = refl

all_known : (vs : List Text) → all (λ v. has v names) vs ≡ true → all is_known_violation vs ≡ true
all_known [] h = refl
all_known (v ∷ vs) h =
    let (found, later) = and_true h in
    rw (all-has is_known_violation v names names_are_known found) (all_known vs later)

pub all_last :
    (p : Text → Bool) (vs : List Text) (v : Text)
    → all p vs ≡ true
    → p v ≡ true
    → all p (vs ++ v ∷ []) ≡ true
all_last p [] v h k = rw k refl
all_last p (w ∷ vs) v h k =
    let first : p w ≡ true = ground arith in rw first (all_last p vs v (ground arith) k)

-- What `validate` asks, of a usage with the violations of `normalize` or with one more.
abbrev pub Passes : CanonicalUsage → List Text → Type 0
Passes u vs = validate_usage (record u { violations = vs }) ≡ true

passes :
    (u : CanonicalUsage) (vs : List Text)
    → Sound u
    → length vs ≤ 32
    → all is_known_violation vs ≡ true
    → Passes u vs
unfolding validate_usage
passes u vs s short known =
    let seven : (length u.counters == 7) ≡ true = rw s.size (==_refl {A = ℕ} 7) in
    let few : leb (length u.cache_write_details) 16 ≡ true = let f = s.few in ground arith in
    let fits : leb (length u.reported) 16 ≡ true = let f = s.wire.fits in ground arith in
    let short' : leb (length vs) 32 ≡ true = ground arith in
    rw
      (
        seven, s.all_fields, s.coherent_all, s.wire.coherent_all, s.details_coherent, few, fits,
        short', s.wire.allowed, known,
      )
      refl

pub Sound-Passes : (u : CanonicalUsage) → Sound u → Passes u u.violations
Sound-Passes u s =
    let short = length-Distinct u.violations names s.distinct s.known in
    passes u u.violations s (omega (arith, short)) (all_known u.violations s.known)

fall_is_known : is_known_violation (bytes "counter_decreased") ≡ true
unfolding Text-discrete ℕ_discrete
fall_is_known = refl

pub Sound-Passes_fall :
    (u : CanonicalUsage) → Sound u → Passes u (u.violations ++ bytes "counter_decreased" ∷ [])
Sound-Passes_fall u s =
    let short = length-Distinct u.violations names s.distinct s.known in
    passes u (u.violations ++ bytes "counter_decreased" ∷ []) s
      (omega (arith, short, length-append u.violations (bytes "counter_decreased" ∷ [])))
      (all_last is_known_violation u.violations (bytes "counter_decreased")
        (all_known u.violations s.known) fall_is_known)
