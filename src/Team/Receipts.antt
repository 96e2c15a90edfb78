-- ===== src/Team/Receipts.antt =====
-- How `reconcile` of crates/team-access/src/store.rs finds what `apply` has written.
use agent_response_gateway.Base.{
  same_of_!=, !=_same, or_false, ◌≡◌, ◌≤◌, ◌<◌, refl, sym, arith, true, false, Option, none, some,
  nat_eq, Text, text_eq, bytes, ==_refl, ◌⊎◌, inl, inr, ok, >>=-eq-ok, passed, ok-injective,
  reject_if-eq_ok, is_some, ◌-◌, ◌^◌, ap, ◌∙◌,
}
use agent_response_gateway.Base.Tables.{get}
use agent_response_gateway.Management.Contract.{
  Identifier, id_eq, Digest, digest_eq, Request, Snapshot, snapshot_eq, Effect, Operation,
  fingerprint, conflict, invalid_input, digest_of, unverified,
}
use agent_response_gateway.Management.Journal.Store.{json}
use agent_response_gateway.Team.Contract.{TeamExternals, Command, Secret, Evidence, digest}
use agent_response_gateway.Team.Store.{
  TeamDb, snapshot, evidence, evidence_of, checked_evidence, evidence_size, is_next,
  validate_command,
}
use agent_response_gateway.Team.Manager.{
  run_command, prepare_mapped, check_request, evidence_for, reconcile_team,
}
use agent_response_gateway.Team.Transaction.{Conditions, Prepared, Applied, Written}
use agent_response_gateway.Team.Applied.{
  bumped, with_receipt, write_effect-Steps, apply_prepared-outcome,
}
use agent_response_gateway.Team.Reach.{apply_with}
use agent_response_gateway.Team.Authentic.{decode-ok}
use agent_response_gateway.Team.Generation.{snapshot-revision, run_command-generation}

-- No receipt is longer than what is read back.
abbrev pub ReceiptsFit : TeamExternals → TeamDb → Type 0
ReceiptsFit x db =
    (key : Text) (value : Evidence)
    → get key db.receipts ≡ some (json value)
    → evidence_size x value ≤ 65536

module _ (x : TeamExternals) where
  pub prepare_mapped-ok :
      (target : Identifier) (request : Request) (command : Command) (sha256 : Digest)
      (slot : Option Secret) (db : TeamDb) {prepared : Prepared}
      → prepare_mapped x target request command sha256 slot db ≡ ok prepared
      → (before : Snapshot) × (check_request x target request command sha256 ≡ ok tt)
        × (validate_command x db command ≡ ok tt)
        × (before.revision ≡ db.generation)
        × (prepared ≡ record {
          is_taken = false;
          command = command;
          before = before;
          request_sha256 = fingerprint x.journal request;
          operation = none;
        })
  unfolding prepare_mapped
  prepare_mapped-ok target request command sha256 slot db {prepared} h =
      let (_, checked, r1) = >>=-eq-ok (check_request x target request command sha256) _ h in
      let (_, _, r2) = >>=-eq-ok (digest x command) _ r1 in
      let (_, r3) = passed (is_some slot) conflict _ r2 in
      let (_, valid, r4) = >>=-eq-ok (validate_command x db command) _ r3 in
      let (before, seen, done) = >>=-eq-ok (snapshot x db) _ r4 in
      (before, checked, valid, snapshot-revision x db seen, sym (ok-injective done))

  -- A receipt that was written for the operation is the evidence that reconcile finds.
  checked_evidence-ok :
      (value : Evidence) (op : Operation)
      → value.operation ≡ op.id
      → value.schema ≡ bytes "gateway-team-effect/v1"
      → value.request_sha256 ≡ fingerprint x.journal op.request
      → value.before ≡ op.request.expected
      → is_next value.before.revision value.after.revision ≡ true
      → checked_evidence x op value ≡ ok (some (value, digest_of x.journal (x.evidence_json value)))
  unfolding checked_evidence
  checked_evidence-ok value op i s f b n =
      rw
        (
          !=_same value.schema (bytes "gateway-team-effect/v1") s,
          !=_same value.operation op.id i,
          !=_same value.request_sha256 (fingerprint x.journal op.request) f,
          !=_same value.before op.request.expected b,
          n,
        )
        refl

  -- The generation grows by one, within what the counter holds.
  pub next_revision :
      (c : Conditions) (prepared : Prepared) (operation : Identifier) (db commanded : TeamDb)
      (secret : Option Secret) (before after : Snapshot)
      → run_command x c operation prepared.request_sha256 prepared.command db
        ≡ ok (secret, commanded)
      → commanded.generation < 2 ^ 63 - 1
      → before.revision ≡ db.generation
      → snapshot x (bumped commanded) ≡ ok after
      → is_next before.revision after.revision ≡ true
  next_revision c prepared operation db commanded secret before after ran room first seen =
      let g =
        run_command-generation x c operation prepared.request_sha256 prepared.command db ran in
      let r = snapshot-revision x (bumped commanded) seen in
      rw (first, r, g) (let small : db.generation < 2 ^ 63 - 1 = rw (← g) room in ground arith)

  pub request_target :
      (target : Identifier) (request : Request) (command : Command) (sha256 : Digest)
      (op : Operation)
      → op.request ≡ request
      → check_request x target request command sha256 ≡ ok tt
      → op.request.target ≡ target
  unfolding check_request
  request_target target request command sha256 op r checked =
      let (t, _) = or_false (reject_if-eq_ok _ invalid_input checked) in
      ap (λ q. q.target) r ∙ same_of_!= request.target target t

  as_reported :
      (a : Applied) (slot : Option Secret) {written w : Written}
      → written ≡ w
      → ((a.effect ≡ Effect.applied written.after written.sha256) × (a.secret ≡ written.secret))
        ⊎ ((a.effect ≡ Effect.uncertain unverified) × (a.secret ≡ slot))
      → (a.effect ≡ Effect.applied w.after w.sha256) ⊎ (a.effect ≡ Effect.uncertain unverified)
  as_reported a slot e (inl (h, _)) = inl (h ∙ ap (λ v. Effect.applied v.after v.sha256) e)
  as_reported a slot e (inr (h, _)) = inr h

  pub evidence-written :
      (value : Evidence) (op : Operation) (db after : TeamDb)
      → after ≡ with_receipt value db
      → ReceiptsFit x after
      → value.operation ≡ op.id
      → value.schema ≡ bytes "gateway-team-effect/v1"
      → value.request_sha256 ≡ fingerprint x.journal op.request
      → value.before ≡ op.request.expected
      → is_next value.before.revision value.after.revision ≡ true
      → evidence x after op ≡ ok (some (value, digest_of x.journal (x.evidence_json value)))
  unfolding get evidence evidence_of
  evidence-written value op db after e fits i s f b n =
      let found : get op.id.value (with_receipt value db).receipts ≡ some (json value) =
        rw (i, ==_refl op.id.value) refl in
      let found' : get op.id.value after.receipts ≡ some (json value) = rw e found in
      rw
        (
          found',
          decode-ok (evidence_size x) value (fits op.id.value value found'),
          checked_evidence-ok value op i s f b n,
        )
        refl

  reconcile-evidence :
      (target : Identifier) (value : Evidence) (sha256 : Digest) (op : Operation) (db : TeamDb)
      → op.request.target ≡ target
      → evidence x db op ≡ ok (some (value, sha256))
      → reconcile_team x target op db ≡ ok (Effect.applied value.after sha256)
  unfolding reconcile_team
  reconcile-evidence target value sha256 op db t found =
      rw (!=_same op.request.target target t, found) refl

  -- A call of apply on a command that was prepared for the request of the operation either changes nothing, or reconcile finds the effect that was written for this operation, also when the commit reported an error: the effect is the one that apply reports, or apply reports that it is uncertain. The condition is that no receipt is longer than the 65,536 bytes that are read back.
  pub reconcile-apply :
      (target : Identifier) (request : Request) (command : Command) (sha256 : Digest)
      (slot : Option Secret) (db : TeamDb) (prepared : Prepared) (c : Conditions) (op : Operation)
      → prepare_mapped x target request command sha256 slot db ≡ ok prepared
      → op.request ≡ request
      → request.expected ≡ prepared.before
      → ReceiptsFit x (apply_with x c prepared (some op.id) slot db).db
      → ((apply_with x c prepared (some op.id) slot db).db ≡ db)
        ⊎ ((after : Snapshot) × (found : Digest) × (reconcile_team x target op
                (apply_with x c prepared (some op.id) slot db).db
              ≡ ok (Effect.applied after found))
            × (((apply_with x c prepared (some op.id) slot db).effect ≡ Effect.applied after found)
                ⊎ ((apply_with x c prepared (some op.id) slot db).effect
                    ≡ Effect.uncertain unverified)))
  reconcile-apply target request command sha256 slot db prepared c op p r e fits =
      elim (apply_prepared-outcome x c (record prepared { operation = some op.id }) slot db) [
        | inl (same, _, _) ↦ inl same
        | inr (operation, written, o, wrote, at_db, ended) ↦
            let id : operation ≡ op.id = cc in
            let (before, checked, _, revision, as_prepared) =
              prepare_mapped-ok target request command sha256 slot db p in
            let (commanded, secret, ran, room, (after, issued_sha256, seen, _, w)) =
              write_effect-Steps x c (record prepared { operation = some op.id }) operation db
                written wrote in
            let value =
              evidence_for x (record prepared { operation = some op.id }) operation after
                issued_sha256 in
            let first : prepared.before.revision ≡ db.generation =
              ap (λ q. q.before.revision) as_prepared ∙ revision in
            let ours : op.request.target ≡ target =
              request_target target request command sha256 op r checked in
            let sha : prepared.request_sha256 ≡ fingerprint x.journal op.request =
              ap (λ q. q.request_sha256) as_prepared ∙ ap (fingerprint x.journal) (sym r) in
            let expected : prepared.before ≡ op.request.expected =
              sym e ∙ ap (λ q. q.expected) (sym r) in
            let n =
              next_revision c prepared operation db commanded secret prepared.before after ran room
                first seen in
            let at_written = at_db ∙ ap (λ v. v.db) w in
            inr (
              after,
              digest_of x.journal (x.evidence_json value),
              reconcile-evidence target value (digest_of x.journal (x.evidence_json value)) op _
                  ours
                  (evidence-written value op (bumped commanded) _ at_written fits id refl sha
                    expected n),
              as_reported (apply_with x c prepared (some op.id) slot db) slot w ended,
            )
      ]
