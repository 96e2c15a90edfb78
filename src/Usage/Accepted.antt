-- ===== src/Usage/Accepted.antt =====
-- `UsageEvent::validate` of crates/usage-contract/src/lib.rs on what an `Accumulator` made.
use agent_response_gateway.Base.{
  ◌≡◌, refl, ◌∙◌, ap, Bool, true, false, not, ◌&&◌, List, [], ◌∷◌, ◌++◌, ◌==◌, ◌!=◌, nat_eq,
  ==_refl, text_eq, Text, Text-discrete, ℕ_discrete, bytes, all, and_true, Bool-cases, inl, inr,
}
use agent_response_gateway.Base.Json.{Value}
use agent_response_gateway.Base.Tables.{Table}
use agent_response_gateway.Base.Maps.{same_table_refl}
use agent_response_gateway.Base.Distinct.{has}
use agent_response_gateway.Usage.Contract.{
  Counter, source_eq, CanonicalUsage, Profile, validate_usage,
}
use agent_response_gateway.Usage.Steps.{normalize}
use agent_response_gateway.Usage.Accumulator.{counter_eq, details_eq, texts_eq, new, with_fall}
use agent_response_gateway.Usage.Event.{
  UsageEvent, is_wire, without_falls, is_recomputed, validate_fields, validate_event,
}
use agent_response_gateway.Usage.Valid.{Sound, names}
use agent_response_gateway.Usage.Soundness.{
  all-has, normalize-Sound, Sound-Passes, Sound-Passes_fall,
}
use agent_response_gateway.Usage.Reports.{IsWire, new-Told, observe_all, observe_all-Told}
use agent_response_gateway.Usage.Kept.{normalize-reported}
use agent_response_gateway.Usage.Closed.{aliases_differ}
use agent_response_gateway.Usage.Told.{IsWire-Wire, all_parts, refused}
use agent_response_gateway.Usage.Mismatch.{Mismatched, mismatch, any-left, mismatch-refused}

abbrev fall : Text
fall = bytes "counter_decreased"

names_are_steps : all (λ v. v != fall) names ≡ true
unfolding Text-discrete ℕ_discrete
names_are_steps = refl

-- The comparison leaves out what the accumulator alone adds.
without_falls_lem : (vs : List Text) → all (λ v. has v names) vs ≡ true → without_falls vs ≡ vs
unfolding without_falls
without_falls_lem [] h = refl
without_falls_lem (v ∷ vs) h =
    let first : has v names ≡ true = (and_true h).0 in
    let later : all (λ v. has v names) vs ≡ true = (and_true h).1 in
    let kept = all-has (λ v. v != fall) v names names_are_steps first in
    rw kept (ap (λ ws. v ∷ ws) (without_falls_lem vs later))

without_falls-append : (vs : List Text) → without_falls (vs ++ fall ∷ []) ≡ without_falls vs
unfolding without_falls
without_falls-append [] = rw (==_refl fall) refl
without_falls-append (v ∷ vs) = rw (without_falls-append vs) refl

fall-kept :
    (b : Bool) (u : CanonicalUsage)
    → Sound u
    → without_falls (with_fall b u).violations ≡ u.violations
fall-kept true u s = without_falls-append u.violations ∙ without_falls_lem u.violations s.known
fall-kept false u s = without_falls_lem u.violations s.known

same_others :
    (b : Bool) (u : CanonicalUsage)
    → ((with_fall b u).counters ≡ u.counters)
      × ((with_fall b u).cache_write_details ≡ u.cache_write_details)
      × ((with_fall b u).reported ≡ u.reported)
same_others true u = (refl, refl, refl)
same_others false u = (refl, refl, refl)

recomputed :
    (profile : Profile) (t : Table Text Counter) (b : Bool)
    → IsWire profile t
    → Sound (normalize profile t)
    → is_recomputed profile (with_fall b (normalize profile t)) ≡ true
unfolding is_recomputed
recomputed profile t b w s =
    let u = normalize profile t in
    let (counters, details, reported) = same_others b u in
    let again : normalize profile (with_fall b u).reported ≡ u =
      ap (normalize profile) (reported ∙ normalize-reported profile t) in
    let wires : all (λ kc. is_wire kc.1) (with_fall b u).reported ≡ true =
      ap (all (λ kc. is_wire kc.1)) (reported ∙ normalize-reported profile t)
      ∙ (all_parts t w.counters).1 in
    rw
      (
        again,
        counters,
        same_table_refl u.counters s.keyed,
        details,
        ==_refl u.cache_write_details,
        fall-kept b u s,
        ==_refl u.violations,
        wires,
      )
      refl

passes : (b : Bool) (u : CanonicalUsage) → Sound u → validate_usage (with_fall b u) ≡ true
passes true u s = Sound-Passes_fall u s
passes false u s = Sound-Passes u s

fall-Mismatched : (b : Bool) (u : CanonicalUsage) → Mismatched u → Mismatched (with_fall b u)
fall-Mismatched true u h = any-left (λ v. v == mismatch) u.violations (fall ∷ []) h
fall-Mismatched false u h = h

and_false : (b : Bool) → (b && false) ≡ false
and_false true = refl
and_false false = refl

made-valid :
    (profile : Profile) (t : Table Text Counter) (b : Bool)
    → IsWire profile t
    → (is_recomputed profile (with_fall b (normalize profile t))
        && validate_usage (with_fall b (normalize profile t)))
      ≡ not (aliases_differ t)
made-valid profile t b w = elim (Bool-cases (aliases_differ t)) [
  | inl d ↦
      rw
        (
          d,
          mismatch-refused (with_fall b (normalize profile t))
              (fall-Mismatched b (normalize profile t) (refused profile t w d)),
        )
        (and_false (is_recomputed profile (with_fall b (normalize profile t))))
  | inr agree ↦
      let s = normalize-Sound profile t (IsWire-Wire profile t w agree) in
      rw (agree, recomputed profile t b w s, passes b (normalize profile t) s) refl
]

-- An event that carries what a new accumulator of its profile made of any JSON values is valid exactly when its other fields are, and the two counts of the tokens read from the cache, which only DeepSeek reports, do not differ.
pub observed-valid :
    (values : List Value) (e : UsageEvent)
    → e.usage ≡ (observe_all values (new e.profile)).usage
    → validate_event e
      ≡ (validate_fields e && not (aliases_differ (observe_all values (new e.profile)).reported))
unfolding validate_event
observed-valid values e h =
    let told = observe_all-Told e.profile values (new e.profile) (new-Told e.profile) in
    let reported = (observe_all values (new e.profile)).reported in
    let usage = h ∙ told.made in
    ap (λ u. validate_fields e && (is_recomputed e.profile u && validate_usage u)) usage
    ∙ ap (λ b. validate_fields e && b) (made-valid e.profile reported told.fell told.wire)
