-- ===== src/Usage/Told.antt =====
-- The paths that an `Accumulator` of crates/usage-contract/src/lib.rs takes for its profile.
use agent_response_gateway.Base.{
  ℕ, ◌≡◌, ◌≤◌, refl, ◌∙◌, sym, ap, arith, Bool, true, false, ◌||◌, Option, none, some, List, [],
  ◌∷◌, ◌++◌, ◌==◌, nat_eq, ==_refl, text_eq, Text, Text-discrete, ℕ_discrete, bytes, length, any,
  all, and_true, Bool-cases, eq_of_==, inl, inr,
}
use agent_response_gateway.Base.Tables.{Table, get}
use agent_response_gateway.Base.Maps.{Keyed}
use agent_response_gateway.Base.Distinct.{has, has-append, Distinct, length-Distinct}
use agent_response_gateway.Usage.Contract.{
  Counter, source_eq, counter_value, Profile, Profile-discrete, responses, chat, deep_seek,
  messages, gemini_interactions, paths, coherent, allowed_path, is_path_of, short_lived, long_lived,
}
use agent_response_gateway.Usage.Normalize.{differ}
use agent_response_gateway.Usage.Steps.{normalize}
use agent_response_gateway.Usage.Accumulator.{counter_eq, details_eq, texts_eq, is_allowed}
use agent_response_gateway.Usage.Event.{is_wire}
use agent_response_gateway.Usage.Valid.{Wire}
use agent_response_gateway.Usage.Reports.{all_good, good, IsWire}
use agent_response_gateway.Usage.Closed.{aliases_differ}
use agent_response_gateway.Usage.Mismatch.{Mismatched, normalize-Mismatched}

abbrev keys : Table Text Counter → List Text
keys [] = []
keys ((k, _) ∷ t) = k ∷ keys t

abbrev seconds : List (Text × Text) → List Text
seconds [] = []
seconds ((_, path) ∷ list) = path ∷ seconds list

length-keys : (t : Table Text Counter) → length (keys t) ≡ length t
length-keys [] = refl
length-keys ((k, c) ∷ t) = omega (arith, length-keys t)

no_key : (k : Text) (t : Table Text Counter) → get k t ≡ none → has k (keys t) ≡ false
unfolding get
no_key k [] h = refl
no_key k ((j, c) ∷ t) h = elim (Bool-cases (j == k)) [
  | inl same ↦ absurd (let found : some c ≡ none = rw same at h in cc)
  | inr other ↦ let later : get k t ≡ none = rw other at h in rw other (no_key k t later)
]

keys-Distinct : (t : Table Text Counter) → Keyed t → Distinct (keys t)
keys-Distinct [] h = tt
keys-Distinct ((k, c) ∷ t) (new_key, h) = (no_key k t new_key, keys-Distinct t h)

-- The paths that an accumulator of a profile takes.
abbrev told_paths : Profile → List Text
told_paths profile = seconds (paths profile) ++ short_lived ∷ long_lived ∷ []

few_paths : (profile : Profile) → length (told_paths profile) ≤ 16
unfolding paths
few_paths responses = omega arith
few_paths chat = omega arith
few_paths deep_seek = omega arith
few_paths messages = omega arith
few_paths gemini_interactions = omega arith

has-seconds :
    (k : Text) (list : List (Text × Text)) → has k (seconds list) ≡ any (λ fp. fp.1 == k) list
has-seconds k [] = refl
has-seconds k ((f, path) ∷ list) = ap (λ b. (path == k) || b) (has-seconds k list)

or_true : (b : Bool) → (b || true) ≡ true
or_true true = refl
or_true false = refl

is_detail :
    (k : Text)
    → (k == short_lived || k == long_lived) ≡ true
    → has k (short_lived ∷ long_lived ∷ []) ≡ true
is_detail k h = elim (Bool-cases (k == short_lived)) [
  | inl same ↦ rw (eq_of_== k short_lived same, ==_refl short_lived) refl
  | inr other ↦
      let same : (k == long_lived) ≡ true = rw other at h in
      rw (eq_of_== k long_lived same, ==_refl long_lived) (or_true (short_lived == long_lived))
]

or_left : {a : Bool} (b : Bool) → a ≡ true → (a || b) ≡ true
or_left b h = rw h refl

allowed_is_told :
    (profile : Profile) (k : Text) → is_allowed profile k ≡ true → has k (told_paths profile) ≡ true
allowed_is_told profile k h =
    let split = has-append k (seconds (paths profile)) (short_lived ∷ long_lived ∷ []) in
    elim (Bool-cases (is_path_of k profile)) [
      | inl own ↦
          split
          ∙ or_left (has k (short_lived ∷ long_lived ∷ [])) (has-seconds k (paths profile) ∙ own)
      | inr other ↦
          let detail = (and_true (rw other at h)).1 in
          split
          ∙ ap (λ b. has k (seconds (paths profile)) || b) (is_detail k detail)
          ∙ or_true (has k (seconds (paths profile)))
    ]

all_told :
    (profile : Profile) (t : Table Text Counter)
    → all (λ kc. is_allowed profile kc.0) t ≡ true
    → all (λ k. has k (told_paths profile)) (keys t) ≡ true
all_told profile [] h = refl
all_told profile ((k, c) ∷ t) h =
    let first : is_allowed profile k ≡ true = (and_true h).0 in
    let later : all (λ kc. is_allowed profile kc.0) t ≡ true = (and_true h).1 in
    rw (allowed_is_told profile k first) (all_told profile t later)

allowed_is_path :
    (profile : Profile) (k : Text) → is_allowed profile k ≡ true → allowed_path k ≡ true
unfolding allowed_path
allowed_is_path responses k h = ground arith
allowed_is_path chat k h = ground arith
allowed_is_path deep_seek k h = ground arith
allowed_is_path messages k h = ground arith
allowed_is_path gemini_interactions k h = ground arith

all_paths :
    (profile : Profile) (t : Table Text Counter)
    → all (λ kc. is_allowed profile kc.0) t ≡ true
    → all (λ kc. allowed_path kc.0) t ≡ true
all_paths profile [] h = refl
all_paths profile ((k, c) ∷ t) h =
    let first : is_allowed profile k ≡ true = (and_true h).0 in
    let later : all (λ kc. is_allowed profile kc.0) t ≡ true = (and_true h).1 in
    rw (allowed_is_path profile k first) (all_paths profile t later)

pub all_parts :
    (t : Table Text Counter)
    → all_good t ≡ true
    → (all (λ kc. coherent kc.1) t ≡ true) × (all (λ kc. is_wire kc.1) t ≡ true)
all_parts [] h = (refl, refl)
all_parts ((k, c) ∷ t) h =
    let first : good c ≡ true = (and_true h).0 in
    let later : all_good t ≡ true = (and_true h).1 in
    let ok : coherent c ≡ true = (and_true first).0 in
    let wire : is_wire c ≡ true = (and_true first).1 in
    let (oks, wires) = all_parts t later in (rw ok oks, rw wire wires)

pub IsWire-Wire :
    (profile : Profile) (t : Table Text Counter)
    → IsWire profile t
    → aliases_differ t ≡ false
    → Wire t
IsWire-Wire profile t w agree = record {
  coherent_all = (all_parts t w.counters).0;
  allowed = all_paths profile t w.allowed;
  fits = omega (
    arith,
    length-Distinct (keys t) (told_paths profile) (keys-Distinct t w.keyed)
        (all_told profile t w.allowed),
    length-keys t,
    few_paths profile,
  );
  agree = agree;
}

-- Only DeepSeek has two counts of the tokens read from the cache.
abbrev hit_path : Text
hit_path = bytes "prompt_cache_hit_tokens"

not_told :
    (q : Text → Bool) (k : Text) (t : Table Text Counter)
    → q k ≡ false
    → all (λ kc. q kc.0) t ≡ true
    → get k t ≡ none
unfolding get
not_told q k [] n h = refl
not_told q k ((j, c) ∷ t) n h =
    let first : q j ≡ true = (and_true h).0 in
    let later : all (λ kc. q kc.0) t ≡ true = (and_true h).1 in
    elim (Bool-cases (j == k)) [
      | inl same ↦
          let key = eq_of_== j k same in
          absurd (let taken : q k ≡ true = ap q (sym key) ∙ first in cc)
      | inr other ↦ rw other (not_told q k t n later)
    ]

differ-none : (a : Option ℕ) → differ a none ≡ false
differ-none none = refl
differ-none (some n) = refl

agreed :
    (profile : Profile) (t : Table Text Counter)
    → is_allowed profile hit_path ≡ false
    → all (λ kc. is_allowed profile kc.0) t ≡ true
    → aliases_differ t ≡ false
agreed profile t n h =
    rw (not_told (is_allowed profile) hit_path t n h)
      (differ-none (counter_value (get (bytes "prompt_tokens_details.cached_tokens") t)))

-- A usage whose two counts differ is refused.
pub refused :
    (profile : Profile) (t : Table Text Counter)
    → IsWire profile t
    → aliases_differ t ≡ true
    → Mismatched (normalize profile t)
unfolding paths Profile-discrete Text-discrete ℕ_discrete
refused deep_seek t w d = normalize-Mismatched t d
refused responses t w d = absurd (let a = agreed responses t refl w.allowed in cc)
refused chat t w d = absurd (let a = agreed chat t refl w.allowed in cc)
refused messages t w d = absurd (let a = agreed messages t refl w.allowed in cc)
refused gemini_interactions t w d =
    absurd (let a = agreed gemini_interactions t refl w.allowed in cc)
