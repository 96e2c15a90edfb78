-- ===== src/Continuation/Lone.antt =====
-- The attempts in flight after `begin`, `finalize` and `uncertain` of src/continuation/sqlite.rs.
use agent_response_gateway.Base.{
  ℕ, ◌+◌, ◌≡◌, refl, arith, Bool, true, false, not, ◌||◌, ◌&&◌, Option, some, List, [], ◌∷◌, ◌++◌,
  ltb, ◌==◌, nat_eq, text_eq, Text, length, any, inl, inr, Bool-cases, ok, >>=-eq-ok, ok_or,
  ok_or-eq_ok, ok-injective, passed,
}
use mathlib.Core.Path.{subst}
use agent_response_gateway.Base.Tables.{get, insert, contains_key}
use agent_response_gateway.Continuation.Contract.{status_eq, Status}
use agent_response_gateway.Continuation.Store.{
  Store, Attempt, AttemptStatus, AttemptStatus-discrete, attempt_status_eq, load, database, begin,
  begun, new_attempt, attempt_id,
}
use agent_response_gateway.Continuation.Turns.{
  pending_reserve, set_status, finalize, lose, uncertain, is_in_flight, after_finalize,
  is_pending_of,
}
use agent_response_gateway.Continuation.Capacity.{begin_lem, Named, get-Named}
use agent_response_gateway.Continuation.Outcomes.{finalized_store, lost_store}
use agent_response_gateway.Continuation.Flight.{load_lem}
use agent_response_gateway.Continuation.Attempts.{
  OneAtATime, begun-flies, count_append, count_one, flight, is_pending_in, may_begin-idle,
  none_pending, not_counted, reserve_is_pending, save-OneAtATime, settle-OneAtATime,
}

finalized_apart : (AttemptStatus.finalized == AttemptStatus.pending) ≡ false
unfolding AttemptStatus-discrete
finalized_apart = refl

pub unknown_apart : (AttemptStatus.unknown == AttemptStatus.pending) ≡ false
unfolding AttemptStatus-discrete
unknown_apart = refl

pub begin-OneAtATime :
    (store after : Store) (attempt fresh id : Text) (revision : ℕ) (parent : Option Text)
    (digest : Text) (reserve : ℕ)
    → Named store.sessions
    → OneAtATime store
    → begin fresh id revision parent digest reserve store ≡ ok (attempt, after)
    → OneAtATime after
begin-OneAtATime store after attempt fresh id revision parent digest reserve named one h =
    let (s, l, _, e, _, may) =
      begin_lem store after attempt fresh id revision parent digest reserve h in
    let g = load_lem id s store l in
    let own = get-Named id s store.sessions named g in
    let begun_session = record s { status = begun s.status; revision = s.revision + 1 } in
    let row = new_attempt (attempt_id fresh) s id digest reserve in
    let added = record store { attempts = store.attempts ++ row ∷ [] } in
    let g' : get s.id store.sessions ≡ some s = rw own g in
    let idle = none_pending s s store one g' (may_begin-idle s.status may) in
    let empty : flight (some s) ≡ 0 = rw (may_begin-idle s.status may) refl in
    let flies : flight (some begun_session) ≡ 1 = rw (begun-flies s.status may) refl in
    subst OneAtATime e (
      save-OneAtATime begun_session s added g'
        (omega (
          arith,
          count_append s.id store.attempts row,
          count_one (is_pending_in s.id row),
          idle,
          empty,
          flies,
        ))
        (λ j other.
          let apart : is_pending_in j row ≡ false =
            let o : (id == j) ≡ false = rw own at other in rw o refl in
          omega (
            arith,
            one j,
            not_counted (is_pending_in j row) apart,
            count_append j store.attempts row,
          )))

pub finalize-OneAtATime :
    (store after : Store) (id attempt digest envelope : Text) (tools : Bool)
    → Named store.sessions
    → OneAtATime store
    → finalize id attempt digest envelope tools store ≡ ok after
    → OneAtATime after
unfolding finalize
finalize-OneAtATime store after id attempt digest envelope tools named one h =
    let (s, l, h1) = >>=-eq-ok (load id store) _ h in
    let (reserve, p, h2) =
      >>=-eq-ok (ok_or (pending_reserve attempt id s.epoch store.attempts) database) _ h1 in
    let (r1, h3) = passed (ltb reserve (length envelope) || not (is_in_flight s.status)) _ _ h2 in
    let (r2, h4) = passed (contains_key attempt store.records) _ _ h3 in
    let e : finalized_store store s attempt digest envelope tools ≡ after = ok-injective h4 in
    let g = load_lem id s store l in
    let own = get-Named id s store.sessions named g in
    let g' : get s.id store.sessions ≡ some s = rw own g in
    let hit = reserve_is_pending attempt id s.epoch reserve store.attempts (ok_or-eq_ok _ _ p) in
    subst OneAtATime e (
      settle-OneAtATime (λ a. a.id == attempt) AttemptStatus.finalized
        (record s {
          status = after_finalize s.status;
          head = some attempt;
          pending_tools = tools;
          revision = s.revision + 1;
        })
        s store
        (record store {
          records =
              insert attempt (record { digest = digest; envelope = some envelope }) store.records;
          attempts = set_status (λ a. a.id == attempt) AttemptStatus.finalized store.attempts;
        })
        finalized_apart one g' (rw own hit) refl refl)

lost_is_pending :
    (id attempt : Text) (rows : List Attempt)
    → any (is_pending_of id attempt) rows ≡ true
    → any (λ a. is_pending_of id attempt a && is_pending_in id a) rows ≡ true
lost_is_pending id attempt [] h = h
lost_is_pending id attempt (a ∷ rows) h =
    let rest = lost_is_pending id attempt rows in ground (arith, rest)

pub uncertain-OneAtATime :
    (store after : Store) (id attempt : Text)
    → Named store.sessions
    → OneAtATime store
    → uncertain id attempt store ≡ ok after
    → OneAtATime after
unfolding uncertain lose
uncertain-OneAtATime store after id attempt named one h =
    elim (Bool-cases (any (is_pending_of id attempt) store.attempts)) [
      | inr none_there ↦
          let same : store ≡ after = ok-injective (rw none_there at h) in subst OneAtATime same one
      | inl there ↦
          let h' : lose id attempt store ≡ ok after = rw there at h in
          let (s, l, h1) = >>=-eq-ok (load id store) _ h' in
          let e : lost_store store s id attempt ≡ after = ok-injective h1 in
          let g = load_lem id s store l in
          let own = get-Named id s store.sessions named g in
          subst OneAtATime e (
            settle-OneAtATime (is_pending_of id attempt) AttemptStatus.unknown
              (record s { status = Status.unknown; revision = s.revision + 1 }) s store
              (record store {
                attempts =
                    set_status (is_pending_of id attempt) AttemptStatus.unknown store.attempts;
              })
              unknown_apart one (rw own g)
              (rw own (lost_is_pending id attempt store.attempts there)) refl refl)
    ]
