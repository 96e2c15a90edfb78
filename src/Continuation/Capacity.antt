-- ===== src/Continuation/Capacity.antt =====
-- The calls of the store of src/continuation/sqlite.rs, and the bytes that `begin` reserves.
use agent_response_gateway.Base.{
  some, ℕ, ◌+◌, ◌^◌, ◌≤◌, ◌≡◌, refl, arith, Bool, true, false, not, All, or_false, ◌==◌, ◌||◌,
  Option, List, [], ◌∷◌, ◌++◌, leb, ◌!=◌, nat_eq, text_eq, Text, any, inl, inr, Bool-cases, ok,
  >>=-eq-ok, passed,
}
use agent_response_gateway.Base.Tables.{Table, get, insert, contains_key}
use agent_response_gateway.Continuation.Contract.{Origin, Session}
use agent_response_gateway.Continuation.Store.{
  save, Store, Attempt, AttemptStatus, load, bind_protection, create, used, may_begin, same_parent,
  no_capacity, begin, clashes, new_attempt, attempt_id, begun, attempt_status_eq,
}
use agent_response_gateway.Continuation.Turns.{
  set_status, finalize, uncertain, repair, transition, reopen,
}

-- One successful call of the store; a call that fails changes nothing.
pub data Call (store : Store) : Store → Type 0 where
  binds :
      {after : Store} (fingerprint : Text)
      → bind_protection fingerprint store ≡ ok after
      → Call store after
  creates :
      {after : Store} {s : Session} (fresh : Text) (origin : Origin)
      → create fresh origin store ≡ ok (s, after)
      → Call store after
  begins :
      {after : Store} {attempt : Text} (fresh id : Text) (revision : ℕ) (parent : Option Text)
      (digest : Text) (reserve : ℕ)
      → begin fresh id revision parent digest reserve store ≡ ok (attempt, after)
      → Call store after
  finalizes :
      {after : Store} (id attempt digest envelope : Text) (tools : Bool)
      → finalize id attempt digest envelope tools store ≡ ok after
      → Call store after
  loses :
      {after : Store} (id attempt : Text) → uncertain id attempt store ≡ ok after → Call store after
  repairs :
      {after : Store} (id digest envelope : Text)
      → repair id digest envelope store ≡ ok after
      → Call store after
  transitions :
      {after : Store} {s : Session} (fresh id : Text) (revision : ℕ) (kind : Text)
      (portable : Option Text) (decision : Text)
      → transition fresh id revision kind portable decision store ≡ ok (s, after)
      → Call store after
  reopens : {after : Store} → reopen store ≡ ok after → Call store after

pub data Reach (store : Store) : Store → Type 0 where
  here : Reach store store
  next : {a b : Store} → Reach store a → Call a b → Reach store b

used-append : (rows : List Attempt) (a : Attempt) → used (rows ++ a ∷ []) ≡ used rows + a.reserve
used-append [] a = omega arith
used-append (b ∷ rows) a = omega (arith, used-append rows a)

pub used-set_status :
    (picks : Attempt → Bool) (status : AttemptStatus) (rows : List Attempt)
    → used (set_status picks status rows) ≡ used rows
unfolding set_status
used-set_status picks status [] = refl
used-set_status picks status (a ∷ rows) = ground (arith, used-set_status picks status rows)

-- No two attempts have one identifier.
abbrev pub Distinct : List Attempt → Type 0
Distinct [] = Unit
Distinct (a ∷ rows) = All (λ b. (b.id == a.id) ≡ false) rows × Distinct rows

All-set_status :
    (id : Text) (picks : Attempt → Bool) (status : AttemptStatus) (rows : List Attempt)
    → All (λ b. (b.id == id) ≡ false) rows
    → All (λ b. (b.id == id) ≡ false) (set_status picks status rows)
unfolding set_status
All-set_status id picks status [] h = tt
All-set_status id picks status (a ∷ rows) (h, all) = elim (Bool-cases (picks a)) [
  | inl picked ↦ (rw picked h, All-set_status id picks status rows all)
  | inr left ↦ (rw left h, All-set_status id picks status rows all)
]

pub set_status-Distinct :
    (picks : Attempt → Bool) (status : AttemptStatus) (rows : List Attempt)
    → Distinct rows
    → Distinct (set_status picks status rows)
unfolding set_status
set_status-Distinct picks status [] h = tt
set_status-Distinct picks status (a ∷ rows) (h, d) =
    let rest = set_status-Distinct picks status rows d in
    elim (Bool-cases (picks a)) [
      | inl picked ↦ (rw picked (All-set_status a.id picks status rows h), rest)
      | inr left ↦ (rw left (All-set_status a.id picks status rows h), rest)
    ]

All-last :
    (a b : Attempt) (rows : List Attempt)
    → All (λ c. (c.id == a.id) ≡ false) rows
    → (b.id == a.id) ≡ false
    → All (λ c. (c.id == a.id) ≡ false) (rows ++ b ∷ [])
All-last a b [] all h = (h, tt)
All-last a b (c ∷ rows) (first, all) h = (first, All-last a b rows all h)

append-Distinct :
    (rows : List Attempt) (a : Attempt)
    → any (clashes a) rows ≡ false
    → Distinct rows
    → Distinct (rows ++ a ∷ [])
append-Distinct [] a free d = (tt, tt)
append-Distinct (b ∷ rows) a free (all, d) =
    let (new, rest) = or_false free in
    let (other, _) = or_false new in (All-last b a rows all other, append-Distinct rows a rest d)

-- Each session is stored under its own name.
abbrev pub Named : Table Text Session → Type 0
Named [] = Unit
Named ((id, s) ∷ rows) = (s.id ≡ id) × Named rows

pub insert-Named :
    (id : Text) (s : Session) (rows : Table Text Session)
    → s.id ≡ id
    → Named rows
    → Named (insert id s rows)
unfolding insert
insert-Named id s [] own named = (own, tt)
insert-Named id s ((j, t) ∷ rows) own (first, named) = elim (Bool-cases (j == id)) [
  | inl same ↦ rw same (own, named)
  | inr other ↦ rw other (first, insert-Named id s rows own named)
]

pub get-Named :
    (id : Text) (s : Session) (rows : Table Text Session)
    → Named rows
    → get id rows ≡ some s
    → s.id ≡ id
unfolding get
get-Named id s [] named h = absurd (cc)
get-Named id s ((j, t) ∷ rows) (first, named) h = elim (Bool-cases (j == id)) [
  | inl same ↦ let found : some t ≡ some s = rw same at h in let key : j ≡ id = ground arith in cc
  | inr other ↦ let later : get id rows ≡ some s = rw other at h in get-Named id s rows named later
]

-- What a call leaves of the promises, and of the keys of the attempts and the sessions.
pub record Promised (a b : Store) : Type 0 where
  pub bounded : used a.attempts ≤ a.limit → used b.attempts ≤ b.limit
  pub same : b.limit ≡ a.limit
  pub keys : Distinct a.attempts → Distinct b.attempts
  pub names : Named a.sessions → Named b.sessions

pub save-Promised : (s : Session) (a b : Store) → Promised a b → Promised a (save s b)
save-Promised s a b p = elim (Bool-cases (contains_key s.id b.sessions)) [
  | inl known ↦ rw known (record {
    bounded = p.bounded;
    same = p.same;
    keys = p.keys;
    names = λ n. insert-Named s.id s b.sessions refl (p.names n);
  })
  | inr absent ↦ rw absent p
]

has_room : (limit sum reserve : ℕ) → no_capacity limit sum reserve ≡ false → sum + reserve ≤ limit
has_room limit sum reserve h = ground arith

abbrev pub begun_store : Store → Session → Text → Text → ℕ → Text → Store
begun_store store s id digest reserve fresh =
    save (record s { status = begun s.status; revision = s.revision + 1 })
      (record store {
        attempts = store.attempts ++ new_attempt (attempt_id fresh) s id digest reserve ∷ [];
      })

may_lem : (a b c : Bool) → (a || (not b || not c)) ≡ false → b ≡ true
may_lem a b c h = ground arith

-- What a `begin` that succeeds has found, and what it leaves.
pub begin_lem :
    (store after : Store) (attempt fresh id : Text) (revision : ℕ) (parent : Option Text)
    (digest : Text) (reserve : ℕ)
    → begin fresh id revision parent digest reserve store ≡ ok (attempt, after)
    → (s : Session) × (load id store ≡ ok s)
      × (no_capacity store.limit (used store.attempts) reserve ≡ false)
      × (begun_store store s id digest reserve fresh ≡ after)
      × (any (clashes (new_attempt (attempt_id fresh) s id digest reserve)) store.attempts ≡ false)
      × (may_begin s.status ≡ true)
unfolding begin
begin_lem store after attempt fresh id revision parent digest reserve h =
    let (s, l, h1) = >>=-eq-ok (load id store) _ h in
    let (r1, h2) =
      passed
        (s.revision != revision || (not (may_begin s.status) || not (same_parent s.head parent))) _
        _ h1 in
    let (r2, h3) = passed (leb (2 ^ 63) (used store.attempts)) _ _ h2 in
    let (r3, h4) = passed (no_capacity store.limit (used store.attempts) reserve) _ _ h3 in
    let (r4, h5) = passed (leb (2 ^ 63) reserve) _ _ h4 in
    let (r5, h6) =
      passed (any (clashes (new_attempt (attempt_id fresh) s id digest reserve)) store.attempts) _ _
        h5 in
    (s, l, r3, cc, r5, may_lem _ _ _ r1)

pub begin-Promised :
    (store after : Store) (attempt fresh id : Text) (revision : ℕ) (parent : Option Text)
    (digest : Text) (reserve : ℕ)
    → begin fresh id revision parent digest reserve store ≡ ok (attempt, after)
    → Promised store after
begin-Promised store after attempt fresh id revision parent digest reserve h =
    let (s, l, free, e, fresh_row, _) =
      begin_lem store after attempt fresh id revision parent digest reserve h in
    let room = has_room store.limit (used store.attempts) reserve free in
    rw (← e) (
      save-Promised _ store _ (record {
        bounded = λ b. omega (
          arith,
          used-append store.attempts (new_attempt (attempt_id fresh) s id digest reserve),
        );
        same = refl;
        keys =
            append-Distinct store.attempts (new_attempt (attempt_id fresh) s id digest reserve)
              fresh_row;
        names = λ n. n;
      }))
