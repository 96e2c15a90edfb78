-- ===== src/Continuation/Promises.antt =====
-- The bytes that the store of src/continuation/sqlite.rs has reserved, over all of its calls.
use agent_response_gateway.Base.{
  ℕ, ◌+◌, ◌≤◌, ◌≡◌, refl, ◌∙◌, is_none, ok_or, arith, Bool, not, ◌||◌, Option, none, some, List, [],
  ◌∷◌, ltb, ◌==◌, ◌!=◌, nat_eq, text_eq, Text, length, any, inl, inr, Bool-cases, Result, ok, err,
  >>=-eq-ok, passed, if◌then◌else◌,
}
use agent_response_gateway.Base.Tables.{get, insert, contains_key}
use agent_response_gateway.Continuation.Contract.{
  Error, rejected, Origin, validate_origin, Session, Status, label,
}
use agent_response_gateway.Continuation.Store.{
  Store, AttemptStatus, load, check_protection, bind_protection, create, used, database,
  attempt_status_eq,
}
use agent_response_gateway.Continuation.Turns.{
  sql_length, pending_reserve, finalize, lose, uncertain, repair, transition, changed, interrupted,
  mark_unknown, reopen, is_in_flight, is_pending_of, finalized_attempt,
}
use agent_response_gateway.Continuation.Capacity.{
  Call, used-set_status, set_status-Distinct, Distinct, Named, insert-Named, binds, creates, begins,
  finalizes, loses, repairs, transitions, reopens, Reach, here, next, Promised, save-Promised,
  begin-Promised,
}
use agent_response_gateway.Continuation.Outcomes.{
  finalized_store, lost_store, moved_store, reopened, new_session,
}

finalize-Promised :
    (store after : Store) (id attempt digest envelope : Text) (tools : Bool)
    → finalize id attempt digest envelope tools store ≡ ok after
    → Promised store after
unfolding finalize
finalize-Promised store after id attempt digest envelope tools h =
    let (s, l, h1) = >>=-eq-ok (load id store) _ h in
    let (reserve, p, h2) =
      >>=-eq-ok (ok_or (pending_reserve attempt id s.epoch store.attempts) database) _ h1 in
    let (r1, h3) = passed (ltb reserve (length envelope) || not (is_in_flight s.status)) _ _ h2 in
    let (r2, h4) = passed (contains_key attempt store.records) _ _ h3 in
    let e : finalized_store store s attempt digest envelope tools ≡ after = cc in
    rw (← e) (
      save-Promised _ store _ (record {
        bounded = λ b.
            omega (
              arith,
              used-set_status (λ a. a.id == attempt) AttemptStatus.finalized store.attempts,
            );
        same = refl;
        keys = set_status-Distinct (λ a. a.id == attempt) AttemptStatus.finalized store.attempts;
        names = λ n. n;
      }))

abbrev pub kept : Store → Result Error Store
kept store = ok store

uncertain-Promised :
    (store after : Store) (id attempt : Text)
    → uncertain id attempt store ≡ ok after
    → Promised store after
unfolding uncertain lose
uncertain-Promised store after id attempt h =
    elim (Bool-cases (any (is_pending_of id attempt) store.attempts)) [
      | inr none_pending ↦
          let h' : kept store ≡ ok after = rw none_pending at h in
          let e : store ≡ after = cc in
          rw (← e) (record { bounded = λ b. b; same = refl; keys = λ d. d; names = λ n. n })
      | inl found ↦
          let h' : lose id attempt store ≡ ok after = rw found at h in
          let (s, l, h1) = >>=-eq-ok (load id store) _ h' in
          let e : lost_store store s id attempt ≡ after = cc in
          rw (← e) (
            save-Promised _ store _ (record {
              bounded = λ b. omega (
                arith,
                used-set_status (is_pending_of id attempt) AttemptStatus.unknown store.attempts,
              );
              same = refl;
              keys =
                  set_status-Distinct (is_pending_of id attempt) AttemptStatus.unknown
                    store.attempts;
              names = λ n. n;
            }))
    ]

transition-Promised :
    (store after : Store) (t : Session) (fresh id : Text) (revision : ℕ) (kind : Text)
    (portable : Option Text) (decision : Text)
    → transition fresh id revision kind portable decision store ≡ ok (t, after)
    → Promised store after
unfolding transition
transition-Promised store after t fresh id revision kind portable decision h =
    let (u, l, h1) = >>=-eq-ok (label decision) _ h in
    let (s, l2, h2) = >>=-eq-ok (load id store) _ h1 in
    let (r1, h3) = passed (s.revision != revision || is_in_flight s.status) _ _ h2 in
    let (s', c, h4) = >>=-eq-ok (changed kind portable s) _ h3 in
    let (r2, h5) = passed (any (λ t. t.id == fresh) store.transitions) _ _ h4 in
    let e : moved_store store s' fresh id kind decision ≡ after = cc in
    rw (← e) (
      save-Promised _ store _
        (record { bounded = λ b. b; same = refl; keys = λ d. d; names = λ n. n }))

Promised-trans : {a b c : Store} → Promised a b → Promised b c → Promised a c
Promised-trans p q = record {
  bounded = λ h. q.bounded (p.bounded h);
  same = q.same ∙ p.same;
  keys = λ d. q.keys (p.keys d);
  names = λ n. q.names (p.names n);
}

mark_unknown-Promised :
    (ids : List Text) (store after : Store)
    → mark_unknown ids store ≡ ok after
    → Promised store after
unfolding mark_unknown
mark_unknown-Promised [] store after h =
    let e : store ≡ after = cc in
    rw (← e) (record { bounded = λ b. b; same = refl; keys = λ d. d; names = λ n. n })
mark_unknown-Promised (id ∷ ids) store after h =
    let (s, l, h1) = >>=-eq-ok (load id store) _ h in
    Promised-trans
      (save-Promised (record s { status = Status.unknown; revision = s.revision + 1 }) store store
        (record { bounded = λ b. b; same = refl; keys = λ d. d; names = λ n. n }))
      (mark_unknown-Promised ids _ after h1)

reopen-Promised : (store after : Store) → reopen store ≡ ok after → Promised store after
unfolding reopen
reopen-Promised store after h =
    let (marked, m, h1) = >>=-eq-ok (mark_unknown (interrupted store.attempts) store) _ h in
    let e : reopened marked ≡ after = cc in
    rw (← e) (
      Promised-trans (mark_unknown-Promised (interrupted store.attempts) store marked m) (record {
        bounded = λ b. omega (
          arith,
          used-set_status (λ a. a.status == AttemptStatus.pending) AttemptStatus.unknown
              marked.attempts,
        );
        same = refl;
        keys =
            set_status-Distinct (λ a. a.status == AttemptStatus.pending) AttemptStatus.unknown
              marked.attempts;
        names = λ n. n;
      }))

repair-Promised :
    (store after : Store) (id digest envelope : Text)
    → repair id digest envelope store ≡ ok after
    → Promised store after
unfolding repair
repair-Promised store after id digest envelope h =
    let (r, g, h1) = >>=-eq-ok (ok_or (get id store.records) (rejected "repair conflict")) _ h in
    let (a, f, h2) =
      >>=-eq-ok (ok_or (finalized_attempt id store.attempts) (rejected "repair conflict")) _ h1 in
    let (c, h3) =
      passed
        (r.digest != digest || (not (is_none r.envelope) || ltb a.reserve (sql_length envelope))) _
        _ h2 in
    let e : record store {
      records = insert id (record r { envelope = some envelope }) store.records;
    }
        ≡ after =
      cc in
    rw (← e) (record { bounded = λ b. b; same = refl; keys = λ d. d; names = λ n. n })

create-Promised :
    (store after : Store) (s : Session) (fresh : Text) (origin : Origin)
    → create fresh origin store ≡ ok (s, after)
    → Promised store after
unfolding create
create-Promised store after s fresh origin h =
    let (u, v, h1) = >>=-eq-ok (validate_origin origin) _ h in
    let (r, h2) = passed (contains_key fresh store.sessions) _ _ h1 in
    let e : record store { sessions = insert fresh (new_session fresh origin) store.sessions }
        ≡ after =
      cc in
    rw (← e) (record {
      bounded = λ b. b;
      same = refl;
      keys = λ d. d;
      names = λ n. insert-Named fresh (new_session fresh origin) store.sessions refl n;
    })

bound-Promised :
    (store after : Store) (saved fingerprint : Text)
    → (if saved != fingerprint then err (rejected "protection binding changed") else ok store)
      ≡ ok after
    → Promised store after
bound-Promised store after saved fingerprint h = elim (Bool-cases (saved != fingerprint)) [
  | inl other ↦
      absurd
        (let h' : err (rejected "protection binding changed") ≡ kept after = rw other at h in cc)
  | inr own ↦
      let h' : kept store ≡ ok after = rw own at h in
      let e : store ≡ after = cc in
      rw (← e) (record { bounded = λ b. b; same = refl; keys = λ d. d; names = λ n. n })
]

check-Promised :
    (store after : Store) (saved : Option Text) (fingerprint : Text)
    → check_protection fingerprint saved store ≡ ok after
    → Promised store after
check-Promised store after none fingerprint h =
    let e : record store { protection = some fingerprint } ≡ after = cc in
    rw (← e) (record { bounded = λ b. b; same = refl; keys = λ d. d; names = λ n. n })
check-Promised store after (some saved) fingerprint h =
    bound-Promised store after saved fingerprint h

bind-Promised :
    (store after : Store) (fingerprint : Text)
    → bind_protection fingerprint store ≡ ok after
    → Promised store after
unfolding bind_protection
bind-Promised store after fingerprint h = check-Promised store after store.protection fingerprint h

Call-Promised : {a b : Store} → Call a b → Promised a b
Call-Promised {a} {b} (binds f h) = bind-Promised a b f h
Call-Promised {a} {b} (creates {s = s} f o h) = create-Promised a b s f o h
Call-Promised {a} {b} (begins {attempt = t} f i r p d n h) = begin-Promised a b t f i r p d n h
Call-Promised {a} {b} (finalizes i t d e g h) = finalize-Promised a b i t d e g h
Call-Promised {a} {b} (loses i t h) = uncertain-Promised a b i t h
Call-Promised {a} {b} (repairs i d e h) = repair-Promised a b i d e h
Call-Promised {a} {b} (transitions {s = s} f i r k p d h) = transition-Promised a b s f i r k p d h
Call-Promised {a} {b} (reopens h) = reopen-Promised a b h

abbrev pub empty_store : ℕ → Store
empty_store limit = record {
  protection = none;
  sessions = [];
  attempts = [];
  records = [];
  transitions = [];
  limit = limit;
}

Reach-Promised : {a b : Store} → Reach a b → Promised a b
Reach-Promised here = record { bounded = λ b. b; same = refl; keys = λ d. d; names = λ n. n }
Reach-Promised (next r c) = Promised-trans (Reach-Promised r) (Call-Promised c)

-- Whatever calls a new store takes, the bytes that it has reserved for attempts stay within its limit.
pub reserved-bounded :
    (limit : ℕ) {store : Store} → Reach (empty_store limit) store → used store.attempts ≤ limit
reserved-bounded limit r =
    let p = Reach-Promised r in let b = p.bounded (omega arith) in let e = p.same in omega arith

-- No calls give two attempts of a store one identifier.
pub Reach-Distinct :
    (limit : ℕ) {store : Store} → Reach (empty_store limit) store → Distinct store.attempts
Reach-Distinct limit r = let p = Reach-Promised r in p.keys tt

-- No calls store a session under another name.
pub Reach-Named :
    (limit : ℕ) {store : Store} → Reach (empty_store limit) store → Named store.sessions
Reach-Named limit r = let p = Reach-Promised r in p.names tt
