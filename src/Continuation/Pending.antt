-- ===== src/Continuation/Pending.antt =====
-- The attempts in flight of the store of src/continuation/sqlite.rs, over all of its calls.
use agent_response_gateway.Base.{
  ℕ, ◌+◌, ◌≤◌, ◌≡◌, refl, sym, ap, arith, false, not, ◌||◌, ◌&&◌, Option, none, some, is_none,
  is_some, List, [], ◌∷◌, ◌++◌, ltb, ◌==◌, ◌!=◌, nat_eq, text_eq, eq_of_==, Text, any, inl, inr,
  Bool-cases, or_false, bytes, ok, err, >>=-eq-ok, ok_or, ok-injective, passed,
}
use mathlib.Core.Path.{subst}
use agent_response_gateway.Base.Tables.{get, get-insert, insert, contains_key}
use agent_response_gateway.Continuation.Contract.{
  status_eq, rejected, Origin, validate_origin, Session, Status, label,
}
use agent_response_gateway.Continuation.Store.{
  Store, Attempt, AttemptStatus, attempt_status_eq, load, check_protection, bind_protection, create,
}
use agent_response_gateway.Continuation.Turns.{
  sql_length, set_status, repair, transition, changed, next_epoch, interrupted, mark_unknown,
  reopen, is_in_flight, finalized_attempt,
}
use agent_response_gateway.Continuation.Capacity.{
  Call, binds, creates, begins, finalizes, loses, repairs, transitions, reopens, Reach, here, next,
  Named, get-Named,
}
use agent_response_gateway.Continuation.Promises.{kept, empty_store, Reach-Named}
use agent_response_gateway.Continuation.Outcomes.{moved_store, new_session}
use agent_response_gateway.Continuation.Flight.{load_lem}
use agent_response_gateway.Continuation.Attempts.{
  OneAtATime, flight, none_pending, pending_of, save-OneAtATime,
}
use agent_response_gateway.Continuation.Lone.{
  unknown_apart, begin-OneAtATime, finalize-OneAtATime, uncertain-OneAtATime,
}

next_epoch-id :
    (s t : Session) (portable : Option Text) → next_epoch s portable ≡ ok t → t.id ≡ s.id
next_epoch-id s t none h = absurd (cc)
next_epoch-id s t (some p) h = sym (ap (λ (u : Session). u.id) (ok-injective h))

changed-id :
    (kind : Text) (portable : Option Text) (s t : Session)
    → changed kind portable s ≡ ok t
    → t.id ≡ s.id
unfolding changed
changed-id kind portable s t h =
    elim (Bool-cases
      (kind == bytes "compact_begin" && (s.status == Status.ready && not s.pending_tools))) [
        | inl starts ↦ sym (ap (λ (u : Session). u.id) (ok-injective (rw starts at h)))
        | inr other ↦
            elim (Bool-cases (
              (kind == bytes "compact_commit" && s.status == Status.awaiting_compaction)
              || kind == bytes "recover")) [
                | inl moves ↦
                    let h' : next_epoch s portable ≡ ok t = rw (other, moves) at h in
                    next_epoch-id s t portable h'
                | inr unknown ↦ absurd (
                    let h' : err (rejected "unsupported transition") ≡ ok t =
                      rw (other, unknown) at h in
                    cc)
              ]
      ]

transition-OneAtATime :
    (store after : Store) (t : Session) (fresh id : Text) (revision : ℕ) (kind : Text)
    (portable : Option Text) (decision : Text)
    → Named store.sessions
    → OneAtATime store
    → transition fresh id revision kind portable decision store ≡ ok (t, after)
    → OneAtATime after
unfolding transition
transition-OneAtATime store after t fresh id revision kind portable decision named one h =
    let (u, l, h1) = >>=-eq-ok (label decision) _ h in
    let (s, l2, h2) = >>=-eq-ok (load id store) _ h1 in
    let (r1, h3) = passed (s.revision != revision || is_in_flight s.status) _ _ h2 in
    let (s', c, h4) = >>=-eq-ok (changed kind portable s) _ h3 in
    let (r2, h5) = passed (any (λ t. t.id == fresh) store.transitions) _ _ h4 in
    let e : moved_store store s' fresh id kind decision ≡ after = ap (λ p. p.1) (ok-injective h5) in
    let g = load_lem id s store l2 in
    let own = get-Named id s store.sessions named g in
    let same_id : s'.id ≡ s.id = changed-id kind portable s s' c in
    let g' : get s'.id store.sessions ≡ some s = rw (same_id, own) g in
    let idle = (or_false r1).1 in
    subst OneAtATime e (
      save-OneAtATime (record s' { revision = s'.revision + 1 }) s
        (record store {
          transitions =
              store.transitions
              ++ (record {
                id = fresh;
                session = id;
                revision = s'.revision + 1;
                kind = kind;
                decision = decision;
              })
                ∷ [];
        })
        g'
        (subst
          (λ i.
            pending_of i store.attempts ≤ flight (some (record s' { revision = s'.revision + 1 })))
          (sym same_id)
          (none_pending s (record s' { revision = s'.revision + 1 }) store one (rw own g) idle))
        (λ j _. one j))

repair-OneAtATime :
    (store after : Store) (id digest envelope : Text)
    → OneAtATime store
    → repair id digest envelope store ≡ ok after
    → OneAtATime after
unfolding repair
repair-OneAtATime store after id digest envelope one h =
    let (r, g, h1) = >>=-eq-ok (ok_or (get id store.records) (rejected "repair conflict")) _ h in
    let (a, f, h2) =
      >>=-eq-ok (ok_or (finalized_attempt id store.attempts) (rejected "repair conflict")) _ h1 in
    let (c, h3) =
      passed
        (r.digest != digest || (not (is_none r.envelope) || ltb a.reserve (sql_length envelope))) _
        _ h2 in
    subst OneAtATime (ok-injective h3) one

not_contained : (o : Option Session) → is_some o ≡ false → o ≡ none
not_contained none h = refl
not_contained (some s) h = absurd (cc)

create-OneAtATime :
    (store after : Store) (s : Session) (fresh : Text) (origin : Origin)
    → OneAtATime store
    → create fresh origin store ≡ ok (s, after)
    → OneAtATime after
unfolding create contains_key
create-OneAtATime store after s fresh origin one h =
    let (u, v, h1) = >>=-eq-ok (validate_origin origin) _ h in
    let (r, h2) = passed (contains_key fresh store.sessions) _ _ h1 in
    let e : record store { sessions = insert fresh (new_session fresh origin) store.sessions }
        ≡ after =
      ap (λ p. p.1) (ok-injective h2) in
    subst OneAtATime e (λ id. elim (Bool-cases (fresh == id)) [
      | inl same ↦
          let key = eq_of_== fresh id same in
          let absent : get fresh store.sessions ≡ none =
            not_contained (get fresh store.sessions) r in
          let absent' : get id store.sessions ≡ none = rw (← key) absent in
          let none_there : flight (get id store.sessions) ≡ 0 = rw absent' refl in
          rw (get-insert fresh id (new_session fresh origin) store.sessions, same)
            (omega (arith, one id, none_there))
      | inr other ↦
          rw (get-insert fresh id (new_session fresh origin) store.sessions, other) (one id)
    ])

bound-OneAtATime :
    (store after : Store) (saved : Option Text) (fingerprint : Text)
    → OneAtATime store
    → check_protection fingerprint saved store ≡ ok after
    → OneAtATime after
bound-OneAtATime store after none fingerprint one h = subst OneAtATime (ok-injective h) one
bound-OneAtATime store after (some saved) fingerprint one h =
    elim (Bool-cases (saved != fingerprint)) [
      | inl other ↦
          absurd (
            let h' : err (rejected "protection binding changed") ≡ kept after = rw other at h in cc)
      | inr own ↦ let same : store ≡ after = ok-injective (rw own at h) in subst OneAtATime same one
    ]

-- Recovery leaves no attempt pending.
none_left :
    (id : Text) (rows : List Attempt)
    → pending_of id (set_status (λ a. a.status == AttemptStatus.pending) AttemptStatus.unknown rows)
      ≡ 0
unfolding pending_of set_status
none_left id [] = refl
none_left id (a ∷ rows) =
    let rest = none_left id rows in
    let apart = unknown_apart in
    elim (Bool-cases (a.status == AttemptStatus.pending)) [
      | inl was_pending ↦ ground (arith, rest)
      | inr other ↦ ground (arith, rest)
    ]

reopen-OneAtATime : (store after : Store) → reopen store ≡ ok after → OneAtATime after
unfolding reopen
reopen-OneAtATime store after h =
    let (marked, m, h1) = >>=-eq-ok (mark_unknown (interrupted store.attempts) store) _ h in
    subst OneAtATime (ok-injective h1) (λ id. omega (arith, none_left id marked.attempts))

Call-OneAtATime : {a b : Store} → Call a b → Named a.sessions → OneAtATime a → OneAtATime b
unfolding bind_protection
Call-OneAtATime {a} {b} (binds f h) n o = bound-OneAtATime a b a.protection f o h
Call-OneAtATime {a} {b} (creates {s = s} f g h) n o = create-OneAtATime a b s f g o h
Call-OneAtATime {a} {b} (begins {attempt = t} f i r p d v h) n o =
    begin-OneAtATime a b t f i r p d v n o h
Call-OneAtATime {a} {b} (finalizes i t d e g h) n o = finalize-OneAtATime a b i t d e g n o h
Call-OneAtATime {a} {b} (loses i t h) n o = uncertain-OneAtATime a b i t n o h
Call-OneAtATime {a} {b} (repairs i d e h) n o = repair-OneAtATime a b i d e o h
Call-OneAtATime {a} {b} (transitions {s = s} f i r k p d h) n o =
    transition-OneAtATime a b s f i r k p d n o h
Call-OneAtATime {a} {b} (reopens h) n o = reopen-OneAtATime a b h

empty-OneAtATime : (limit : ℕ) → OneAtATime (empty_store limit)
unfolding pending_of
empty-OneAtATime limit id = omega arith

-- Whatever calls a new store takes, a session whose status is pending or compacting_pending has at most one pending attempt, and every other session, and every name without a session, has none.
pub Reach-OneAtATime :
    (limit : ℕ) {store : Store} → Reach (empty_store limit) store → OneAtATime store
Reach-OneAtATime limit here = empty-OneAtATime limit
Reach-OneAtATime limit (next r c) =
    Call-OneAtATime c (Reach-Named limit r) (Reach-OneAtATime limit r)
