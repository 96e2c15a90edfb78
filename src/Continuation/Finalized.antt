-- ===== src/Continuation/Finalized.antt =====
-- `finalize_checked` of src/continuation/mod.rs, and `restore_record` after it.
use agent_response_gateway.Base.{
  ℕ, ◌+◌, ◌≡◌, ◌<◌, refl, sym, Bool, true, false, Option, some, nat_eq, text_eq, !=_same, Text,
  length, All, Result, ok, >>=-eq-ok, ok-injective, ap, ◌∙◌,
}
use agent_response_gateway.Continuation.Contract.{Error, Session, status_eq, StoredReplay, label}
use agent_response_gateway.Continuation.Store.{Store, attempt_status_eq, load}
use agent_response_gateway.Continuation.Turns.{after_finalize, finalize, stored}
use agent_response_gateway.Continuation.Promises.{empty_store, Reach-Distinct, Reach-Named}
use agent_response_gateway.Continuation.Capacity.{Reach, get-Named}
use agent_response_gateway.Continuation.Flight.{load-save, load_lem}
use agent_response_gateway.Continuation.Replays.{
  ReplayRecord, v1, v2, v3, metadata, origin_eq, option_text_eq,
}
use agent_response_gateway.Continuation.Protector.{
  Protector, Codec, prefix_of, aad_of, read_plain, seal_record, open_record, digest_record,
}
use agent_response_gateway.Continuation.Runtime.{
  unequal, is_stale, is_foreign, is_other_record, is_awaiting, check_current, authoritative,
  restore_record, check_provider, finalize_checked,
}
use agent_response_gateway.Continuation.Sealed.{open_record-seal_record}
use agent_response_gateway.Continuation.Settled.{finalize_lem, stored-finalize}

unequal_same : (b : Bool) → unequal b b ≡ false
unequal_same true = refl
unequal_same false = refl

is_stale_same : (s : Session) → is_stale s s ≡ false
is_stale_same s =
    rw
      (
        !=_same s.id s.id refl,
        !=_same s.epoch s.epoch refl,
        !=_same s.origin s.origin refl,
        !=_same s.revision s.revision refl,
        !=_same s.head s.head refl,
        !=_same s.status s.status refl,
        unequal_same s.pending_tools,
        !=_same s.portable_sha256 s.portable_sha256 refl,
      )
      refl

-- The session after a turn.
abbrev pub after_turn : Session → ReplayRecord → Session
after_turn s replay = record s {
  status = after_finalize s.status;
  head = some (metadata replay).response;
  pending_tools = is_awaiting (metadata replay).outcome;
  revision = s.revision + 1;
}

module _ (x : Codec) (key : Protector) where
  check_current-ok :
      (replay : ReplayRecord) (t : Session) (store : Store)
      → load t.id store ≡ ok t
      → check_current x key replay t store ≡ ok tt
  unfolding check_current
  check_current-ok (v1 _) t store l = refl
  check_current-ok (v2 _) t store l = refl
  check_current-ok (v3 _) t store l = rw (l, is_stale_same t) refl

  restore_record_lem :
      (replay : ReplayRecord) (t : Session) (envelope : Text) (f : StoredReplay) (store : Store)
      → open_record x key envelope ≡ ok replay
      → load t.id store ≡ ok t
      → is_foreign (metadata replay) t ≡ false
      → stored (metadata replay).response store ≡ ok f
      → is_other_record f t (digest_record x key replay) ≡ false
      → f.envelope ≡ some envelope
      → restore_record x key t envelope store ≡ ok (replay, store)
  unfolding restore_record authoritative
  restore_record_lem replay t envelope f store o l ours found same e =
      rw
        (
          o,
          check_current-ok replay t store l,
          ours,
          found,
          same,
          e,
          o,
          !=_same (digest_record x key replay) (digest_record x key replay) refl,
        )
        refl

  -- What a `finalize_checked` that succeeds has done.
  finalize_checked_lem :
      (drawn : Option Text) (check : Text → Result Error (Unit {0})) (replay : ReplayRecord)
      (envelope : Text) (store after : Store)
      → finalize_checked x key drawn check replay store ≡ ok (envelope, after)
      → (seal_record x key drawn replay ≡ ok envelope)
        × (finalize
              (metadata replay).session
              (metadata replay).response
              (digest_record x key replay)
              envelope
              (is_awaiting (metadata replay).outcome)
              store
            ≡ ok after)
  unfolding finalize_checked
  finalize_checked_lem drawn check replay envelope store after h =
      let (_, _, h1) = >>=-eq-ok (check_provider x key replay store) _ h in
      let (written, w, h2) = >>=-eq-ok (seal_record x key drawn replay) _ h1 in
      let (_, _, h3) = >>=-eq-ok (check written) _ h2 in
      let (left, f, h4) =
        >>=-eq-ok
          (finalize (metadata replay).session (metadata replay).response
            (digest_record x key replay) written (is_awaiting (metadata replay).outcome) store)
          _ h3 in
      let same = ap (λ p. p.0) (ok-injective h4) in
      let kept = ap (λ p. p.1) (ok-injective h4) in (cc, cc)

  -- When finalize_checked succeeds in a store that any calls reach from a new one, for a replay with the epoch and the origin of its session, the store then has the session after the turn, and restore_record gives back from the envelope, in that session and store, exactly the replay, and changes nothing. The conditions are that the key's identity is a label, as the constructor checks, that the cipher gives back what it has sealed and adds 16 bytes, that the nonce has 12, and that serde_json reads what it wrote.
  pub finalize_checked-restore_record :
      (replay : ReplayRecord) (nonce sealed envelope : Text)
      (check : Text → Result Error (Unit {0})) (s : Session) (limit : ℕ) {store : Store}
      (after : Store)
      → Reach (empty_store limit) store
      → label key.id ≡ ok tt
      → length nonce ≡ 12
      → All (λ b. b < 256) nonce
      → All (λ b. b < 256) sealed
      → length sealed ≡ length (x.record_json replay) + 16
      → key.seal nonce (aad_of key (prefix_of replay)) (x.record_json replay) ≡ some sealed
      → key.open_sealed nonce (aad_of key (prefix_of replay)) sealed ≡ some (x.record_json replay)
      → read_plain x key (prefix_of replay) (x.record_json replay) ≡ ok replay
      → load (metadata replay).session store ≡ ok s
      → s.epoch ≡ (metadata replay).epoch
      → s.origin ≡ (metadata replay).origin
      → finalize_checked x key (some nonce) check replay store ≡ ok (envelope, after)
      → (load s.id after ≡ ok (after_turn s replay))
        × (restore_record x key (after_turn s replay) envelope after ≡ ok (replay, after))
  finalize_checked-restore_record replay nonce sealed envelope check s limit {store} after reached
        id n small smaller added sealing opening read l epoch origin h =
      let own =
        get-Named (metadata replay).session s store.sessions (Reach-Named limit reached)
          (load_lem (metadata replay).session s store l) in
      let (written, f) = finalize_checked_lem (some nonce) check replay envelope store after h in
      let o =
        open_record-seal_record x key replay nonce sealed envelope id n small smaller added sealing
          opening read written in
      let (reserve, p, e) = finalize_lem _ _ _ _ _ store after s l f in
      let (found, st, fs, fe, fd, fv) =
        stored-finalize s (metadata replay).session (metadata replay).response
          (digest_record x key replay) envelope (is_awaiting (metadata replay).outcome) reserve
          store (Reach-Distinct limit reached) p in
      let g = load_lem s.id s store (ap (λ i. load i store) own ∙ l) in
      let loaded : load s.id after ≡ ok (after_turn s replay) =
        ap (load s.id) (sym e) ∙ load-save s (after_turn s replay) _ g in
      let ours : is_foreign (metadata replay) (after_turn s replay) ≡ false =
        rw
          (
            !=_same (metadata replay).session s.id (sym own),
            !=_same (metadata replay).epoch s.epoch (sym epoch),
            !=_same (metadata replay).origin s.origin (sym origin),
          )
          refl in
      let ok_record : is_other_record found (after_turn s replay) (digest_record x key replay)
          ≡ false =
        rw
          (
            !=_same found.session s.id (fs ∙ sym own),
            !=_same found.epoch s.epoch fe,
            !=_same found.digest (digest_record x key replay) fd,
          )
          refl in
      (
        loaded,
        restore_record_lem replay (after_turn s replay) envelope found after o loaded ours
            (ap (stored (metadata replay).response) (sym e) ∙ st) ok_record fv,
      )
