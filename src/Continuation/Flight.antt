-- ===== src/Continuation/Flight.antt =====
-- `begin` of src/continuation/sqlite.rs while an attempt of the session is in flight.
use agent_response_gateway.Base.{
  ℕ, ◌+◌, ◌≡◌, refl, sym, ap, ◌∙◌, false, Option, some, ◌!=◌, nat_eq, text_eq, ==_refl, Text, inl,
  inr, Bool-cases, ok_or-eq_ok, ok, err,
}
use agent_response_gateway.Base.Tables.{get, get-insert, contains_key}
use agent_response_gateway.Continuation.Contract.{rejected, Session, Status}
use agent_response_gateway.Continuation.Store.{Store, load, save, begin, begun, may_begin}
use agent_response_gateway.Continuation.Capacity.{begin_lem, begun_store}

begun_waits : (status : Status) → may_begin (begun status) ≡ false
begun_waits Status.ready = refl
begun_waits Status.pending = refl
begun_waits Status.compacting = refl
begun_waits Status.compacting_pending = refl
begun_waits Status.awaiting_compaction = refl
begun_waits Status.unknown = refl

-- A saved session is the one that is loaded.
pub load-save :
    (s t : Session) (store : Store)
    → get t.id store.sessions ≡ some s
    → load t.id (save t store) ≡ ok t
unfolding load contains_key
load-save s t store g = rw g (rw (get-insert t.id t.id t store.sessions, ==_refl t.id) refl)

pub load_lem :
    (id : Text) (s : Session) (store : Store)
    → load id store ≡ ok s
    → get id store.sessions ≡ some s
unfolding load
load_lem id s store h = ok_or-eq_ok _ _ h

refused_in_flight :
    (fresh id : Text) (revision : ℕ) (parent : Option Text) (digest : Text) (reserve : ℕ)
    (s : Session) (store : Store)
    → load id store ≡ ok s
    → may_begin s.status ≡ false
    → begin fresh id revision parent digest reserve store
      ≡ err (rejected "session conflict or reconciliation required")
unfolding begin
refused_in_flight fresh id revision parent digest reserve s store l b =
    elim (Bool-cases (s.revision != revision)) [
      | inl moved ↦ rw (l, moved) refl
      | inr same ↦ rw (l, same, b) refl
    ]

-- After a `begin` that succeeds for a session that is stored under its own name, every `begin` for
-- that session is refused, whatever its revision, its parent, its input and its reserve.
pub begin-begin :
    (s : Session) (store after : Store) (attempt fresh : Text) (revision : ℕ) (parent : Option Text)
    (digest : Text) (reserve : ℕ)
    → load s.id store ≡ ok s
    → begin fresh s.id revision parent digest reserve store ≡ ok (attempt, after)
    → (other : Text) (revision' : ℕ) (parent' : Option Text) (digest' : Text) (reserve' : ℕ)
    → begin other s.id revision' parent' digest' reserve' after
      ≡ err (rejected "session conflict or reconciliation required")
begin-begin s store after attempt fresh revision parent digest reserve l h other revision' parent'
      digest' reserve' =
    let (t, l', free, e, _, _) =
      begin_lem store after attempt fresh s.id revision parent digest reserve h in
    let same : t ≡ s = cc in
    let e' : begun_store store s s.id digest reserve fresh ≡ after =
      ap (λ u. begun_store store u s.id digest reserve fresh) (sym same) ∙ e in
    rw (← e') (
      refused_in_flight other s.id revision' parent' digest' reserve'
        (record s { status = begun s.status; revision = s.revision + 1 }) _
        (load-save s (record s { status = begun s.status; revision = s.revision + 1 }) _
          (load_lem s.id s store l))
        (begun_waits s.status))
