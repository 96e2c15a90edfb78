-- ===== src/Continuation/Attempts.antt =====
-- How many attempts of a session are pending in the store of src/continuation/sqlite.rs.
use agent_response_gateway.Base.{
  ℕ, suc, ◌+◌, ◌≤◌, ◌≡◌, refl, arith, Bool, true, false, ◌&&◌, Option, none, some, List, [], ◌∷◌,
  ◌++◌, ◌==◌, nat_eq, text_eq, eq_of_==, Text, any, inl, inr, Bool-cases, and_true, if◌then◌else◌,
}
use mathlib.Core.Path.{subst}
use agent_response_gateway.Base.Tables.{get, get-insert, contains_key}
use agent_response_gateway.Continuation.Contract.{status_eq, Session, Status}
use agent_response_gateway.Continuation.Store.{
  save, Store, Attempt, AttemptStatus, attempt_status_eq, begun, may_begin,
}
use agent_response_gateway.Continuation.Turns.{
  pending_reserve, set_status, is_in_flight, after_finalize,
}
use agent_response_gateway.Continuation.Promises.{kept}

abbrev pub is_pending_in : Text → Attempt → Bool
is_pending_in id a = a.session == id && a.status == AttemptStatus.pending

-- How many attempts of a session are pending.
unfoldable pub pending_of : Text → List Attempt → ℕ
pending_of id [] = 0
pending_of id (a ∷ rows) = (if is_pending_in id a then 1 else 0) + pending_of id rows

-- One for a session that is in flight.
abbrev pub flight : Option Session → ℕ
flight none = 0
flight (some s) = if is_in_flight s.status then 1 else 0

-- A session that is in flight has at most one pending attempt, and any other has none.
abbrev pub OneAtATime : Store → Type 0
OneAtATime store = (id : Text) → pending_of id store.attempts ≤ flight (get id store.sessions)

pub count_one : (b : Bool) → (if b then 1 else 0) ≤ 1
count_one true = omega arith
count_one false = omega arith

pub not_counted : (b : Bool) → b ≡ false → (if b then 1 else 0) ≤ 0
not_counted b h = rw h (omega arith)

pub count_append :
    (id : Text) (rows : List Attempt) (a : Attempt)
    → pending_of id (rows ++ a ∷ []) ≡ pending_of id rows + (if is_pending_in id a then 1 else 0)
unfolding pending_of
count_append id [] a = omega arith
count_append id (b ∷ rows) a = omega (arith, count_append id rows a)

-- A status other than pending takes rows out.
module _ (picks : Attempt → Bool) (status : AttemptStatus)
    (other : (status == AttemptStatus.pending) ≡ false) where
  fewer :
      (id : Text) (rows : List Attempt)
      → pending_of id (set_status picks status rows) ≤ pending_of id rows
  unfolding pending_of set_status
  fewer id [] = omega arith
  fewer id (a ∷ rows) =
      let rest = fewer id rows in
      elim (Bool-cases (picks a)) [
        | inl picked ↦ ground (arith, rest)
        | inr left ↦ ground (arith, rest)
      ]

  one_fewer :
      (id : Text) (rows : List Attempt)
      → any (λ a. picks a && is_pending_in id a) rows ≡ true
      → suc (pending_of id (set_status picks status rows)) ≤ pending_of id rows
  unfolding pending_of set_status
  one_fewer id [] h = absurd (cc)
  one_fewer id (a ∷ rows) h =
      let rest = fewer id rows in
      elim (Bool-cases (picks a && is_pending_in id a)) [
        | inl taken ↦
            let picked : picks a ≡ true = (and_true taken).0 in
            let was_pending : is_pending_in id a ≡ true = (and_true taken).1 in
            ground (arith, picked, was_pending, rest)
        | inr kept ↦
            let later : any (λ a. picks a && is_pending_in id a) rows ≡ true = rw kept at h in
            let rest' = one_fewer id rows later in
            elim (Bool-cases (picks a)) [
              | inl picked ↦ ground (arith, rest')
              | inr left ↦ ground (arith, rest')
            ]
      ]

pub reserve_is_pending :
    (attempt id : Text) (epoch reserve : ℕ) (rows : List Attempt)
    → pending_reserve attempt id epoch rows ≡ some reserve
    → any (λ a. (a.id == attempt) && is_pending_in id a) rows ≡ true
unfolding pending_reserve
reserve_is_pending attempt id epoch reserve [] h = absurd (cc)
reserve_is_pending attempt id epoch reserve (a ∷ rows) h =
    let rest = reserve_is_pending attempt id epoch reserve rows in ground (arith, rest)

-- The session that is saved, and the others.
pub get-save :
    (s t : Session) (id : Text) (store : Store)
    → get s.id store.sessions ≡ some t
    → get id (save s store).sessions ≡ (if s.id == id then some s else get id store.sessions)
unfolding contains_key
get-save s t id store g = rw g (get-insert s.id id s store.sessions)

attempts-save : (s : Session) (store : Store) → (save s store).attempts ≡ store.attempts
attempts-save s store = elim (Bool-cases (contains_key s.id store.sessions)) [
  | inl has ↦ rw has refl
  | inr lacks ↦ rw lacks refl
]

-- After a call that saves a session.
pub save-OneAtATime :
    (s t : Session) (store : Store)
    → get s.id store.sessions ≡ some t
    → pending_of s.id store.attempts ≤ flight (some s)
    → ((id : Text)
        → (s.id == id) ≡ false
        → pending_of id store.attempts ≤ flight (get id store.sessions))
    → OneAtATime (save s store)
save-OneAtATime s t store g own others id = elim (Bool-cases (s.id == id)) [
  | inl same ↦
      let key = eq_of_== s.id id same in
      rw (attempts-save s store, get-save s t id store g, same)
        (subst (λ i. pending_of i store.attempts ≤ flight (some s)) key own)
  | inr other ↦ rw (attempts-save s store, get-save s t id store g, other) (others id other)
]

-- A session that is not in flight has no pending attempt, so that any of its statuses will do.
pub none_pending :
    (s t : Session) (store : Store)
    → OneAtATime store
    → get s.id store.sessions ≡ some s
    → is_in_flight s.status ≡ false
    → pending_of s.id store.attempts ≤ flight (some t)
none_pending s t store one g idle = let h = one s.id in omega (arith, idle_flight s store g idle, h)
  where
    idle_flight :
        (s : Session) (store : Store)
        → get s.id store.sessions ≡ some s
        → is_in_flight s.status ≡ false
        → flight (get s.id store.sessions) ≡ 0
    idle_flight s store g idle = rw (g, idle) refl

pub may_begin-idle : (status : Status) → may_begin status ≡ true → is_in_flight status ≡ false
may_begin-idle Status.ready h = refl
may_begin-idle Status.compacting h = refl
may_begin-idle Status.pending h = absurd (cc)
may_begin-idle Status.compacting_pending h = absurd (cc)
may_begin-idle Status.awaiting_compaction h = absurd (cc)
may_begin-idle Status.unknown h = absurd (cc)

pub begun-flies : (status : Status) → may_begin status ≡ true → is_in_flight (begun status) ≡ true
begun-flies Status.ready h = refl
begun-flies Status.compacting h = refl
begun-flies Status.pending h = absurd (cc)
begun-flies Status.compacting_pending h = absurd (cc)
begun-flies Status.awaiting_compaction h = absurd (cc)
begun-flies Status.unknown h = absurd (cc)

after_finalize-idle : (status : Status) → is_in_flight (after_finalize status) ≡ false
after_finalize-idle Status.ready = refl
after_finalize-idle Status.pending = refl
after_finalize-idle Status.compacting = refl
after_finalize-idle Status.compacting_pending = refl
after_finalize-idle Status.awaiting_compaction = refl
after_finalize-idle Status.unknown = refl

flight_one : (o : Option Session) → flight o ≤ 1
flight_one none = omega arith
flight_one (some s) = elim (Bool-cases (is_in_flight s.status)) [
  | inl flies ↦ rw flies (omega arith)
  | inr idle ↦ rw idle (omega arith)
]

-- An attempt of the session is taken out.
pub settle-OneAtATime :
    (picks : Attempt → Bool) (status : AttemptStatus) (s t : Session) (store changed_store : Store)
    → (status == AttemptStatus.pending) ≡ false
    → OneAtATime store
    → get s.id store.sessions ≡ some t
    → any (λ a. picks a && is_pending_in s.id a) store.attempts ≡ true
    → changed_store.sessions ≡ store.sessions
    → changed_store.attempts ≡ set_status picks status store.attempts
    → OneAtATime (save s changed_store)
settle-OneAtATime picks status s t store changed_store other one g hit sessions rows =
    save-OneAtATime s t changed_store (rw sessions g)
      (rw rows (
        omega (
          arith,
          one s.id,
          flight_one (get s.id store.sessions),
          one_fewer picks status other s.id store.attempts hit,
        )))
      (λ id _.
        rw (rows, sessions) (omega (arith, one id, fewer picks status other id store.attempts)))
