-- ===== src/Usage/Reports.antt =====
-- What `Accumulator` of crates/usage-contract/src/lib.rs has been told, and what it makes of it.
use agent_response_gateway.Base.{
  ℕ, ◌≡◌, refl, sym, ap, Bool, true, false, not, ◌||◌, ◌&&◌, Option, none, some, List, [], ◌∷◌,
  ◌==◌, nat_eq, text_eq, Text, Text-discrete, ℕ_discrete, all, and_true, Bool-cases, inl, inr,
}
use mathlib.Core.Path.{subst}
use agent_response_gateway.Base.Json.{
  Value, null, boolean, number, other_number, string, array, object, is_object, as_u64,
}
use agent_response_gateway.Base.Tables.{Table, get, insert}
use agent_response_gateway.Base.Maps.{Keyed, insert-Keyed}
use agent_response_gateway.Usage.Contract.{
  Counter, Source-discrete, source_eq, default_usage, counter_value, Profile, responses, chat,
  deep_seek, messages, gemini_interactions, paths, coherent, invalid_counter, read,
  reported_counter,
}
use agent_response_gateway.Usage.Normalize.{
  extract, extract_paths, all_invalid, wire_paths, at, place_all,
}
use agent_response_gateway.Usage.Steps.{
  normalize, note_first, by_profile, check_alias, check_misses, add_thoughts, add_input, partition,
  check_subset, check_subsets, check_total, note_last,
}
use agent_response_gateway.Usage.Accumulator.{
  Accumulator, new, is_allowed, falls, Merged, merge_one, merge, with_fall, observe_counters,
  observe,
}
use agent_response_gateway.Usage.Event.{is_wire}

-- A counter as `extract` reads it.
abbrev pub good : Counter → Bool
good c = coherent c && is_wire c

abbrev pub all_good : Table Text Counter → Bool
all_good t = all (λ kc. good kc.1) t

all-insert :
    (q : Text × Counter → Bool) (path : Text) (c : Counter) (t : Table Text Counter)
    → q (path, c) ≡ true
    → all q t ≡ true
    → all q (insert path c t) ≡ true
unfolding insert
all-insert q path c [] new h = rw new refl
all-insert q path c ((k, d) ∷ t) new h =
    let first : q (k, d) ≡ true = (and_true h).0 in
    let later : all q t ≡ true = (and_true h).1 in
    elim (Bool-cases (k == path)) [
      | inl same ↦ rw (same, new) later
      | inr other ↦ rw (other, first) (all-insert q path c t new later)
    ]

invalid_is_good : good invalid_counter ≡ true
unfolding Source-discrete
invalid_is_good = refl

reported_is_good : (n : Option ℕ) → good (reported_counter n) ≡ true
unfolding Source-discrete
reported_is_good none = refl
reported_is_good (some n) = refl

read_is_good : (v : Value) → good (read (some v)) ≡ true
unfolding Source-discrete
read_is_good null = refl
read_is_good (boolean b) = reported_is_good (as_u64 (boolean b))
read_is_good (number n) = reported_is_good (as_u64 (number n))
read_is_good (other_number text) = reported_is_good (as_u64 (other_number text))
read_is_good (string text) = reported_is_good (as_u64 (string text))
read_is_good (array values) = reported_is_good (as_u64 (array values))
read_is_good (object fs) = reported_is_good (as_u64 (object fs))

found_good :
    (path : Text) (o : Option Value) (t : Table Text Counter)
    → all_good t ≡ true
    → all_good (elim o [ none ↦ t | some v ↦ insert path (read (some v)) t ]) ≡ true
found_good path none t h = h
found_good path (some v) t h =
    all-insert (λ kc. good kc.1) path (read (some v)) t (read_is_good v) h

extract_paths_good :
    (value : Value) (list : List (Text × Text)) (t : Table Text Counter)
    → all_good t ≡ true
    → all_good (extract_paths value list t) ≡ true
extract_paths_good value [] t h = h
extract_paths_good value ((field, path) ∷ list) t h =
    extract_paths_good value list _ (found_good path (at value path) t h)

all_invalid_good :
    (list : List (Text × Text)) (t : Table Text Counter)
    → all_good t ≡ true
    → all_good (all_invalid list t) ≡ true
all_invalid_good [] t h = h
all_invalid_good ((_, path) ∷ list) t h =
    all_invalid_good list (insert path invalid_counter t)
      (all-insert (λ kc. good kc.1) path invalid_counter t invalid_is_good h)

extract_good : (profile : Profile) (value : Value) → all_good (extract profile value) ≡ true
unfolding extract
extract_good profile value = elim (Bool-cases (is_object value)) [
  | inl is_map ↦ rw is_map (extract_paths_good value (wire_paths profile) [] refl)
  | inr other ↦ rw other (all_invalid_good (paths profile) [] refl)
]

-- What an accumulator has been told: each path once, those of its profile, with counters as read.
pub record IsWire (profile : Profile) (reported : Table Text Counter) : Type 0 where
  pub keyed : Keyed reported
  pub allowed : all (λ kc. is_allowed profile kc.0) reported ≡ true
  pub counters : all_good reported ≡ true

insert-IsWire :
    (profile : Profile) (path : Text) (c : Counter) (t : Table Text Counter)
    → is_allowed profile path ≡ true
    → good c ≡ true
    → IsWire profile t
    → IsWire profile (insert path c t)
insert-IsWire profile path c t a g w = record {
  keyed = insert-Keyed path c t w.keyed;
  allowed = all-insert (λ kc. is_allowed profile kc.0) path c t a w.allowed;
  counters = all-insert (λ kc. good kc.1) path c t g w.counters;
}

merge_one-IsWire :
    (profile : Profile) (path : Text) (c : Counter) (m : Merged)
    → good c ≡ true
    → IsWire profile m.reported
    → IsWire profile (merge_one profile path c m).reported
unfolding merge_one
merge_one-IsWire profile path c m g w = elim (Bool-cases (is_allowed profile path)) [
  | inr unknown ↦ rw unknown w
  | inl known ↦ elim (Bool-cases (falls (counter_value (get path m.reported)) c.value)) [
    | inl falling ↦
        rw (known, falling)
          (insert-IsWire profile path invalid_counter m.reported known invalid_is_good w)
    | inr rising ↦ rw (known, rising) (insert-IsWire profile path c m.reported known g w)
  ]
]

merge-IsWire :
    (profile : Profile) (counters : Table Text Counter) (m : Merged)
    → all_good counters ≡ true
    → IsWire profile m.reported
    → IsWire profile (merge profile counters m).reported
unfolding merge
merge-IsWire profile [] m g w = w
merge-IsWire profile ((path, c) ∷ counters) m g w =
    let (first, later) = and_true g in
    merge-IsWire profile counters (merge_one profile path c m) later
      (merge_one-IsWire profile path c m first w)

-- Reports, one after the other.
abbrev pub observe_all : List Value → Accumulator → Accumulator
observe_all [] a = a
observe_all (value ∷ values) a = observe_all values (observe value a).1

pub record Told (profile : Profile) (a : Accumulator) : Type 0 where
  pub same : a.profile ≡ profile
  pub wire : IsWire profile a.reported
  pub fell : Bool
  pub made : a.usage ≡ with_fall fell (normalize profile a.reported)

nothing : (profile : Profile) → default_usage ≡ normalize profile []
unfolding normalize paths place_all note_first by_profile check_alias check_misses add_thoughts
    add_input partition check_subset check_subsets check_total note_last get insert Source-discrete
    Text-discrete ℕ_discrete
nothing responses = refl
nothing chat = refl
nothing deep_seek = refl
nothing messages = refl
nothing gemini_interactions = refl

pub new-Told : (profile : Profile) → Told profile (new profile)
unfolding new
new-Told profile = record {
  same = refl;
  wire = record { keyed = tt; allowed = refl; counters = refl };
  fell = false;
  made = nothing profile;
}

observe-Told :
    (profile : Profile) (value : Value) (a : Accumulator)
    → Told profile a
    → Told profile (observe value a).1
unfolding observe observe_counters
observe-Told profile value a t =
    let m : Merged = record {
      reported = a.reported;
      decreased = false;
      incomplete = a.incomplete || not (is_object value);
    } in
    let after = merge a.profile (extract a.profile value) m in
    let before = subst (λ p. IsWire p a.reported) (sym t.same) t.wire in
    let w : IsWire a.profile after.reported =
      merge-IsWire a.profile (extract a.profile value) m (extract_good a.profile value) before in
    record {
      same = t.same;
      wire = subst (λ p. IsWire p after.reported) t.same w;
      fell = after.decreased;
      made = ap (λ p. with_fall after.decreased (normalize p after.reported)) t.same;
    }

pub observe_all-Told :
    (profile : Profile) (values : List Value) (a : Accumulator)
    → Told profile a
    → Told profile (observe_all values a)
observe_all-Told profile [] a t = t
observe_all-Told profile (value ∷ values) a t =
    observe_all-Told profile values (observe value a).1 (observe-Told profile value a t)
