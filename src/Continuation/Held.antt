-- ===== src/Continuation/Held.antt =====
-- What the store of src/continuation/sqlite.rs holds of envelopes, over all of its calls.
use mathlib.Core.Path.{subst}
use agent_response_gateway.Base.{
  sym, ◌∙◌, false, true, ℕ, ◌+◌, ◌≤◌, ◌≡◌, refl, ap, arith, Bool, not, ◌||◌, Option, none, some,
  List, [], ◌∷◌, ◌++◌, ltb, ◌==◌, ◌!=◌, nat_eq, text_eq, Text, length, any, inl, inr, Bool-cases,
  or_false, is_none, ok, err, ok_or, ok_or-eq_ok, >>=-eq-ok, ok-injective, passed, and_true,
}
use agent_response_gateway.Continuation.Owned.{
  Owned-later, append-is_owned, all_bytes, all_bytes-held,
}
use agent_response_gateway.Base.Tables.{Values-get, get, insert, contains_key}
use agent_response_gateway.Continuation.Contract.{
  rejected, Origin, validate_origin, Session, Status, label,
}
use agent_response_gateway.Continuation.Store.{
  Store, AttemptStatus, attempt_status_eq, load, database, check_protection, bind_protection,
  create, begin, used, new_attempt, attempt_id, begun,
}
use agent_response_gateway.Continuation.Turns.{
  sql_length, pending_reserve, set_status, is_in_flight, after_finalize, finalize, is_pending_of,
  lose, uncertain, finalized_attempt, repair, changed, transition, interrupted, mark_unknown,
  reopen,
}
use agent_response_gateway.Continuation.Capacity.{
  Call, binds, creates, begins, finalizes, loses, repairs, transitions, reopens, Reach, here, next,
  begin_lem, Distinct,
}
use agent_response_gateway.Continuation.Outcomes.{finalized_store, lost_store, moved_store}
use agent_response_gateway.Continuation.Promises.{
  kept, empty_store, reserved-bounded, Reach-Distinct,
}
use agent_response_gateway.Continuation.Covered.{held-used, append-Covered}
use agent_response_gateway.Continuation.Backing.{
  Whole, Backed, not_longer, save-Backed, forget-Backing, finalized-Backing,
}

begin-Backed :
    (store after : Store) (attempt fresh id : Text) (revision : ℕ) (parent : Option Text)
    (digest : Text) (reserve : ℕ)
    → Backed store
    → begin fresh id revision parent digest reserve store ≡ ok (attempt, after)
    → Backed after
begin-Backed store after attempt fresh id revision parent digest reserve b h =
    let (s, _, _, e, _, _) =
      begin_lem store after attempt fresh id revision parent digest reserve h in
    let row = new_attempt (attempt_id fresh) s id digest reserve in
    subst Backed e (
      save-Backed (record s { status = begun s.status; revision = s.revision + 1 })
        (record store { attempts = store.attempts ++ row ∷ [] })
        (record {
          covered = append-Covered row store.records store.attempts refl b.covered;
          keyed = b.keyed;
          owned =
              Owned-later store.attempts (store.attempts ++ row ∷ []) store.records
                (append-is_owned row store.attempts) b.owned;
          whole = b.whole;
        }))

finalize-Backed :
    (store after : Store) (id attempt digest envelope : Text) (tools : Bool)
    → Distinct store.attempts
    → Backed store
    → finalize id attempt digest envelope tools store ≡ ok after
    → Backed after
unfolding finalize
finalize-Backed store after id attempt digest envelope tools d b h =
    let (s, l, h1) = >>=-eq-ok (load id store) _ h in
    let (reserve, p, h2) =
      >>=-eq-ok (ok_or (pending_reserve attempt id s.epoch store.attempts) database) _ h1 in
    let (r1, h3) = passed (ltb reserve (length envelope) || not (is_in_flight s.status)) _ _ h2 in
    let (r2, h4) = passed (contains_key attempt store.records) _ _ h3 in
    let e : finalized_store store s attempt digest envelope tools ≡ after = ok-injective h4 in
    let short = (or_false r1).0 in
    subst Backed e (
      save-Backed
        (record s {
          status = after_finalize s.status;
          head = some attempt;
          pending_tools = tools;
          revision = s.revision + 1;
        })
        (record store {
          records =
              insert attempt (record { digest = digest; envelope = some envelope }) store.records;
          attempts = set_status (λ a. a.id == attempt) AttemptStatus.finalized store.attempts;
        })
        (finalized-Backing attempt id digest envelope s.epoch reserve store.records store.attempts d
          (ok_or-eq_ok _ _ p) (not_longer reserve (length envelope) short) b))

uncertain-Backed :
    (store after : Store) (id attempt : Text)
    → Backed store
    → uncertain id attempt store ≡ ok after
    → Backed after
unfolding uncertain lose
uncertain-Backed store after id attempt b h =
    elim (Bool-cases (any (is_pending_of id attempt) store.attempts)) [
      | inr none_pending ↦
          let h' : kept store ≡ ok after = rw none_pending at h in subst Backed (ok-injective h') b
      | inl found ↦
          let h' : lose id attempt store ≡ ok after = rw found at h in
          let (s, l, h1) = >>=-eq-ok (load id store) _ h' in
          let e : lost_store store s id attempt ≡ after = ok-injective h1 in
          subst Backed e (
            save-Backed (record s { status = Status.unknown; revision = s.revision + 1 })
              (record store {
                attempts =
                    set_status (is_pending_of id attempt) AttemptStatus.unknown store.attempts;
              })
              (forget-Backing (is_pending_of id attempt) store.records store.attempts
                (λ a picked. (and_true (and_true picked).1).1) b))
    ]

transition-Backed :
    (store after : Store) (t : Session) (fresh id : Text) (revision : ℕ) (kind : Text)
    (portable : Option Text) (decision : Text)
    → Backed store
    → transition fresh id revision kind portable decision store ≡ ok (t, after)
    → Backed after
unfolding transition
transition-Backed store after t fresh id revision kind portable decision b h =
    let (u, l, h1) = >>=-eq-ok (label decision) _ h in
    let (s, l2, h2) = >>=-eq-ok (load id store) _ h1 in
    let (r1, h3) = passed (s.revision != revision || is_in_flight s.status) _ _ h2 in
    let (s', c, h4) = >>=-eq-ok (changed kind portable s) _ h3 in
    let (r2, h5) = passed (any (λ t. t.id == fresh) store.transitions) _ _ h4 in
    let e : moved_store store s' fresh id kind decision ≡ after = ap (λ p. p.1) (ok-injective h5) in
    subst Backed e (
      save-Backed (record s' { revision = s'.revision + 1 })
        (record store {
          transitions =
              store.transitions
              ++ (record {
                id = fresh;
                session = id;
                revision = s'.revision + 1;
                kind = kind;
                decision = decision;
              })
                ∷ [];
        })
        b)

mark_unknown-Backed :
    (ids : List Text) (store after : Store)
    → Backed store
    → mark_unknown ids store ≡ ok after
    → Backed after
unfolding mark_unknown
mark_unknown-Backed [] store after b h = subst Backed (ok-injective h) b
mark_unknown-Backed (id ∷ ids) store after b h =
    let (s, l, h1) = >>=-eq-ok (load id store) _ h in
    mark_unknown-Backed ids _ after
      (save-Backed (record s { status = Status.unknown; revision = s.revision + 1 }) store b) h1

reopen-Backed : (store after : Store) → Backed store → reopen store ≡ ok after → Backed after
unfolding reopen
reopen-Backed store after b h =
    let (marked, m, h1) = >>=-eq-ok (mark_unknown (interrupted store.attempts) store) _ h in
    subst Backed (ok-injective h1) (
      forget-Backing (λ a. a.status == AttemptStatus.pending) marked.records marked.attempts
        (λ a picked. picked) (mark_unknown-Backed (interrupted store.attempts) store marked b m))

missing : (b : Bool) → not b ≡ false → b ≡ true
missing true h = refl
missing false h = sym h

-- No envelope is missing, so there is none to repair.
repair-Backed :
    (store after : Store) (id digest envelope : Text)
    → Backed store
    → repair id digest envelope store ≡ ok after
    → Backed after
unfolding repair
repair-Backed store after id digest envelope b h =
    let (r, g, h1) = >>=-eq-ok (ok_or (get id store.records) (rejected "repair conflict")) _ h in
    let (a, f, h2) =
      >>=-eq-ok (ok_or (finalized_attempt id store.attempts) (rejected "repair conflict")) _ h1 in
    let (c, h3) =
      passed
        (r.digest != digest || (not (is_none r.envelope) || ltb a.reserve (sql_length envelope))) _
        _ h2 in
    let there =
      Values-get (λ r. is_none r.envelope ≡ false) id r store.records b.whole (ok_or-eq_ok _ _ g) in
    let (_, rest) = or_false c in
    let (lost, _) = or_false rest in
    absurd (let kept_there : true ≡ false = sym (missing (is_none r.envelope) lost) ∙ there in cc)

create-Backed :
    (store after : Store) (s : Session) (fresh : Text) (origin : Origin)
    → Backed store
    → create fresh origin store ≡ ok (s, after)
    → Backed after
unfolding create
create-Backed store after s fresh origin b h =
    let (u, v, h1) = >>=-eq-ok (validate_origin origin) _ h in
    let (r, h2) = passed (contains_key fresh store.sessions) _ _ h1 in
    subst Backed (ap (λ p. p.1) (ok-injective h2)) b

bound-Backed :
    (store after : Store) (saved : Option Text) (fingerprint : Text)
    → Backed store
    → check_protection fingerprint saved store ≡ ok after
    → Backed after
bound-Backed store after none fingerprint b h = subst Backed (ok-injective h) b
bound-Backed store after (some saved) fingerprint b h = elim (Bool-cases (saved != fingerprint)) [
  | inl other ↦
      absurd
        (let h' : err (rejected "protection binding changed") ≡ kept after = rw other at h in cc)
  | inr own ↦ let h' : kept store ≡ ok after = rw own at h in subst Backed (ok-injective h') b
]

Call-Backed : {a b : Store} → Call a b → Distinct a.attempts → Backed a → Backed b
unfolding bind_protection
Call-Backed {a} {b} (binds f h) d k = bound-Backed a b a.protection f k h
Call-Backed {a} {b} (creates {s = s} f g h) d k = create-Backed a b s f g k h
Call-Backed {a} {b} (begins {attempt = t} f i r p g n h) d k = begin-Backed a b t f i r p g n k h
Call-Backed {a} {b} (finalizes i t g e w h) d k = finalize-Backed a b i t g e w d k h
Call-Backed {a} {b} (loses i t h) d k = uncertain-Backed a b i t k h
Call-Backed {a} {b} (repairs i g e h) d k = repair-Backed a b i g e k h
Call-Backed {a} {b} (transitions {s = s} f i r n p g h) d k =
    transition-Backed a b s f i r n p g k h
Call-Backed {a} {b} (reopens h) d k = reopen-Backed a b k h

-- What the records of a new store keep over all calls.
pub Reach-Backed : (limit : ℕ) {store : Store} → Reach (empty_store limit) store → Backed store
Reach-Backed limit here = record { covered = tt; keyed = tt; owned = tt; whole = tt }
Reach-Backed limit (next r c) = Call-Backed c (Reach-Distinct limit r) (Reach-Backed limit r)

-- Whatever calls a new store takes, the envelopes of all its records take no more bytes together than are reserved for attempts, what is reserved stays within its limit, and no record is without its envelope, so that repair has none to write.
pub held-bounded :
    (limit : ℕ) {store : Store}
    → Reach (empty_store limit) store
    → (all_bytes store.records ≤ used store.attempts)
      × (used store.attempts ≤ limit)
      × Whole store.records
held-bounded limit {store} r =
    let b = Reach-Backed limit r in
    let total = all_bytes-held store.records store.attempts b.keyed b.owned in
    let covered = held-used store.records store.attempts b.covered in
    (omega (arith, total, covered), reserved-bounded limit r, b.whole)
