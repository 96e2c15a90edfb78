-- ===== src/Continuation/Restored.antt =====
-- What `Runtime::restore_record` of src/continuation/mod.rs gives back.
use agent_response_gateway.Base.{
  ◌≡◌, refl, sym, Option, none, some, ◌!=◌, nat_eq, text_eq, same_of_!=, or_false, Text, ◌⊎◌, inl,
  inr, ok, >>=-eq-ok, ok-injective, passed, ap, ◌∙◌,
}
use agent_response_gateway.Continuation.Contract.{rejected, Session, StoredReplay}
use agent_response_gateway.Continuation.Store.{Store}
use agent_response_gateway.Continuation.Turns.{stored, repair}
use agent_response_gateway.Continuation.Replays.{ReplayRecord, metadata, origin_eq}
use agent_response_gateway.Continuation.Protector.{Protector, Codec, open_record, digest_record}
use agent_response_gateway.Continuation.Runtime.{
  check_current, is_foreign, is_other_record, authoritative, restore_record,
}

module _ (x : Codec) (key : Protector) where
  -- Where a restored record comes from: the envelope that was given, or the one that is stored.
  abbrev pub ComesFrom : ReplayRecord → StoredReplay → ReplayRecord → Type 0
  ComesFrom original found replay =
      (replay ≡ original)
      ⊎ ((saved : Text) × (found.envelope ≡ some saved) × (open_record x key saved ≡ ok replay))

  authoritative-ok :
      (original : ReplayRecord) (envelope hash : Text) (found : StoredReplay) (o : Option Text)
      (store : Store) {replay : ReplayRecord} {after : Store}
      → found.envelope ≡ o
      → digest_record x key original ≡ hash
      → authoritative x key original envelope hash found o store ≡ ok (replay, after)
      → (digest_record x key replay ≡ hash) × ComesFrom original found replay
  unfolding authoritative
  authoritative-ok original envelope hash found (some saved) store {replay} {after} e d h =
      let (opened, o, rest) = >>=-eq-ok (open_record x key saved) _ h in
      let (same, done) =
        passed (digest_record x key opened != hash) (rejected "stored payload mismatch") _ rest in
      let is_replay : opened ≡ replay = ap (λ p. p.0) (ok-injective done) in
      (
        ap (digest_record x key) (sym is_replay)
            ∙ same_of_!= (digest_record x key opened) hash same,
        inr (saved, e, o ∙ ap ok is_replay),
      )
  authoritative-ok original envelope hash found none store {replay} {after} e d h =
      let (repaired, _, done) = >>=-eq-ok (repair found.id hash envelope store) _ h in
      let is_replay : original ≡ replay = ap (λ p. p.0) (ok-injective done) in
      (ap (digest_record x key) (sym is_replay) ∙ d, inl (sym is_replay))

  -- restore_record gives back only a record with the digest that was finalized for its response in this session and epoch; the envelope that it was given opens to a record with the same digest, of the session's identifier, epoch and origin; and the record is that one or the one of the stored envelope.
  pub restore_record-ok :
      (session : Session) (envelope : Text) (store : Store) (replay : ReplayRecord) (after : Store)
      → restore_record x key session envelope store ≡ ok (replay, after)
      → (original : ReplayRecord) × (found : StoredReplay) × (open_record x key envelope
          ≡ ok original)
        × ((metadata original).session ≡ session.id)
        × ((metadata original).epoch ≡ session.epoch)
        × ((metadata original).origin ≡ session.origin)
        × (stored (metadata original).response store ≡ ok found)
        × (found.session ≡ session.id)
        × (found.epoch ≡ session.epoch)
        × (digest_record x key original ≡ found.digest)
        × (digest_record x key replay ≡ found.digest)
        × ComesFrom original found replay
  unfolding restore_record
  restore_record-ok session envelope store replay after h =
      let (original, o, h1) = >>=-eq-ok (open_record x key envelope) _ h in
      let (_, _, h2) = >>=-eq-ok (check_current x key original session store) _ h1 in
      let (ours, h3) =
        passed (is_foreign (metadata original) session) (rejected "origin mismatch") _ h2 in
      let (found, f, h4) = >>=-eq-ok (stored (metadata original).response store) _ h3 in
      let hash = digest_record x key original in
      let (matching, h5) =
        passed (is_other_record found session hash) (rejected "record mismatch") _ h4 in
      let (s, more) = or_false ours in
      let (e, g) = or_false more in
      let (fs, rest) = or_false matching in
      let (fe, fd) = or_false rest in
      let is_digest : found.digest ≡ hash = same_of_!= found.digest hash fd in
      let (d, from) =
        authoritative-ok original envelope hash found found.envelope store refl refl h5 in
      (
        original,
        found,
        o,
        same_of_!= (metadata original).session session.id s,
        same_of_!= (metadata original).epoch session.epoch e,
        same_of_!= (metadata original).origin session.origin g,
        f,
        same_of_!= found.session session.id fs,
        same_of_!= found.epoch session.epoch fe,
        sym is_digest,
        d ∙ sym is_digest,
        from,
      )
