-- ===== src/Continuation/Runtime.antt =====
-- `Runtime` of src/continuation/mod.rs: records restored from envelopes, and finalized.
use agent_response_gateway.Base.{
  Bool, true, false, not, ◌||◌, Option, none, some, ◌!=◌, nat_eq, text_eq, Text, Result, ok, err,
  ◌>>=◌, ◌>>◌, reject_if, ok_or,
}
use agent_response_gateway.Ir.Continuity.{Outcome, completed, awaiting_tools, binding_eq}
use agent_response_gateway.Continuation.Contract.{
  Error, rejected, Session, Status, status_eq, StoredReplay, Replay,
}
use agent_response_gateway.Continuation.Store.{Store, load}
use agent_response_gateway.Continuation.Turns.{stored, repair, finalize}
use agent_response_gateway.Continuation.Replays.{
  ReplayRecord, v3, ReplayV3, ReplayMetadata, metadata, validate_v3, origin_eq, option_text_eq,
}
use agent_response_gateway.Continuation.Protector.{
  Protector, Codec, seal_record, open_record, digest_record, only_v1,
}

abbrev pub is_provider : ReplayRecord → Bool
is_provider (v3 _) = true
is_provider _ = false

abbrev pub unequal : Bool → Bool → Bool
unequal true b = not b
unequal false b = b

abbrev pub is_stale : Session → Session → Bool
is_stale current session =
    current.id != session.id
    || (current.epoch != session.epoch
        || (current.origin != session.origin
            || (current.revision != session.revision
                || (current.head != session.head
                    || (current.status != session.status
                        || (unequal current.pending_tools session.pending_tools
                            || current.portable_sha256 != session.portable_sha256))))))

abbrev pub is_foreign : ReplayMetadata → Session → Bool
is_foreign replay session =
    replay.session != session.id
    || (replay.epoch != session.epoch || replay.origin != session.origin)

abbrev pub is_other_record : StoredReplay → Session → Text → Bool
is_other_record found session hash =
    found.session != session.id || (found.epoch != session.epoch || found.digest != hash)

abbrev pub is_awaiting : Outcome → Bool
is_awaiting awaiting_tools = true
is_awaiting completed = false

module _ (x : Codec) (key : Protector) where
  -- The session that the store has, for a provider's record.
  unfoldable pub check_current : ReplayRecord → Session → Store → Result Error (Unit {0})
  unfolding load
  check_current (v3 _) session store = do
    current ← load session.id store
    reject_if (is_stale current session) (rejected "stale provider session")
  check_current _ session store = ok tt

  -- `if let Some(saved) = record.envelope`
  unfoldable pub authoritative :
      ReplayRecord
      → Text
      → Text
      → StoredReplay
      → Option Text
      → Store
      → Result Error (ReplayRecord × Store)
  unfolding open_record repair
  authoritative original envelope hash found (some saved) store = do
    replay ← open_record x key saved
    reject_if (digest_record x key replay != hash) (rejected "stored payload mismatch")
    ok (replay, store)
  authoritative original envelope hash found none store = do
    after ← repair found.id hash envelope store
    ok (original, after)

  -- `Runtime::restore_record`
  unfoldable pub restore_record : Session → Text → Store → Result Error (ReplayRecord × Store)
  unfolding open_record check_current metadata stored authoritative
  restore_record session envelope store = do
    original ← open_record x key envelope
    check_current original session store
    reject_if (is_foreign (metadata original) session) (rejected "origin mismatch")
    found ← stored (metadata original).response store
    reject_if (is_other_record found session (digest_record x key original))
        (rejected "record mismatch")
    authoritative original envelope (digest_record x key original) found found.envelope store

  -- `Runtime::restore`
  unfoldable pub restore : Session → Text → Store → Result Error (Replay × Store)
  unfolding restore_record
  restore session envelope store = do
    (replay, after) ← restore_record session envelope store
    legacy ← only_v1 x key replay
    ok (legacy, after)

  abbrev pub as_v3 : ReplayRecord → Result Error ReplayV3
  as_v3 (v3 v) = ok v
  as_v3 _ = err (rejected "provider parent version")

  abbrev pub is_other_state : ReplayV3 → ReplayV3 → Text → Bool
  is_other_state previous provider parent =
      previous.response != parent
      || (previous.origin != provider.origin
          || (previous.native.binding != provider.native.binding
              || (previous.native.format != provider.native.format
                  || previous.native.version != provider.native.version)))

  abbrev pub in_flight : Status → Bool
  in_flight Status.pending = true
  in_flight Status.compacting_pending = true
  in_flight _ = false

  -- The parent of a provider's record has the same state binding.
  unfoldable pub check_parent : ReplayV3 → Session → Store → Option Text → Result Error (Unit {0})
  unfolding stored open_record
  check_parent provider session store none = ok tt
  check_parent provider session store (some parent) = do
    saved ← stored parent store
    reject_if (saved.session != session.id || saved.epoch != session.epoch)
        (rejected "provider parent origin")
    envelope ← ok_or saved.envelope (rejected "provider parent payload missing")
    opened ← open_record x key envelope
    reject_if (digest_record x key opened != saved.digest) (rejected "provider parent digest")
    previous ← as_v3 opened
    reject_if (is_other_state previous provider parent) (rejected "provider state binding")

  unfoldable pub check_provider : ReplayRecord → Store → Result Error (Unit {0})
  unfolding validate_v3 load check_parent
  check_provider (v3 provider) store = do
    validate_v3 x.base64 provider
    session ← load provider.session store
    reject_if
        (session.epoch != provider.epoch
          || (session.origin != provider.origin
              || (session.head != provider.parent || not (in_flight session.status))))
        (rejected "provider checkpoint origin")
    check_parent provider session store provider.parent
  check_provider _ store = ok tt

  -- `Runtime::finalize_checked`, with the nonce that `seal_record` draws
  unfoldable pub finalize_checked :
      Option Text
      → (Text → Result Error (Unit {0}))
      → ReplayRecord
      → Store
      → Result Error (Text × Store)
  unfolding check_provider seal_record metadata finalize
  finalize_checked drawn check replay store = do
    check_provider replay store
    envelope ← seal_record x key drawn replay
    check envelope
    after ←
        finalize (metadata replay).session (metadata replay).response (digest_record x key replay)
          envelope (is_awaiting (metadata replay).outcome) store
    ok (envelope, after)
