-- ===== src/Team/Written.antt =====
-- What is in the tables of crates/team-access/src/store.rs after a call of `apply`.
use agent_response_gateway.Base.{◌≡◌, ◌<◌, ◌-◌, ◌^◌, Option, some, ◌⊎◌, inl, inr, ok, ap, ◌∙◌}
use agent_response_gateway.Management.Contract.{
  Identifier, Digest, Snapshot, Effect, unverified, digest_of,
}
use agent_response_gateway.Team.Contract.{TeamExternals, Secret}
use agent_response_gateway.Team.Store.{TeamDb, snapshot}
use agent_response_gateway.Team.Manager.{run_command, issued_digest, evidence_for, apply_prepared}
use agent_response_gateway.Team.Transaction.{Conditions, Prepared, Applied, Written}
use agent_response_gateway.Team.Applied.{
  bumped, with_receipt, Left, Took, write_effect-Steps, apply_prepared-outcome,
}

module _ (x : TeamExternals) where
  -- The tables have what the command changed, one generation more, and a receipt of the operation from
  -- the snapshot before to the one after; the effect is that receipt's.
  pub record Wrote (c : Conditions) (prepared : Prepared) (slot : Option Secret) (db : TeamDb)
      (a : Applied) : Type 0 where
    pub operation : Identifier
    pub secret : Option Secret
    pub commanded : TeamDb
    pub after : Snapshot
    pub issued_sha256 : Option Digest
    pub accepted : prepared.operation ≡ some operation
    pub ran :
        run_command x c operation prepared.request_sha256 prepared.command db
        ≡ ok (secret, commanded)
    pub counts : commanded.generation < 2 ^ 63 - 1
    pub seen : snapshot x (bumped commanded) ≡ ok after
    pub digested : issued_digest x (bumped commanded) secret ≡ ok issued_sha256
    pub tables :
        a.db
        ≡ with_receipt (evidence_for x prepared operation after issued_sha256) (bumped commanded)
    pub reported :
        ((a.effect
            ≡ Effect.applied after (
                digest_of x.journal
                  (x.evidence_json (evidence_for x prepared operation after issued_sha256))))
          × (a.secret ≡ secret))
        ⊎ ((a.effect ≡ Effect.uncertain unverified) × (a.secret ≡ slot))

  Took-Wrote :
      (c : Conditions) (prepared : Prepared) (slot : Option Secret) (db : TeamDb) (a : Applied)
      → Took x c prepared slot db a
      → Wrote c prepared slot db a
  Took-Wrote c prepared slot db a (operation, written, o, wrote, at_db, told) =
      let (commanded, secret, ran, room, (after, issued_sha256, seen, digested, w)) =
        write_effect-Steps x c prepared operation db written wrote in
      record {
        operation = operation;
        secret = secret;
        commanded = commanded;
        after = after;
        issued_sha256 = issued_sha256;
        accepted = o;
        ran = ran;
        counts = room;
        seen = seen;
        digested = digested;
        tables = at_db ∙ ap (λ (v : Written). v.db) w;
        reported = elim told [
          | inl (e, s) ↦ inl (
            e ∙ ap (λ (v : Written). Effect.applied v.after v.sha256) w,
            s ∙ ap (λ (v : Written). v.secret) w,
          )
          | inr lost ↦ inr lost
        ];
      }

  -- A call of apply either leaves the tables and the slot for the secret as they were and reports no applied effect, or the tables have what the command changed, one generation more, and the operation's receipt from the snapshot before to the one after; the effect is then reported as applied, with the receipt's digest and the secret, or as uncertain without it.
  pub apply_prepared-Wrote :
      (c : Conditions) (prepared : Prepared) (slot : Option Secret) (db : TeamDb)
      → Left x slot db (apply_prepared x c prepared slot db)
        ⊎ Wrote c prepared slot db (apply_prepared x c prepared slot db)
  apply_prepared-Wrote c prepared slot db = elim (apply_prepared-outcome x c prepared slot db) [
    | inl left ↦ inl left
    | inr took ↦ inr (Took-Wrote c prepared slot db (apply_prepared x c prepared slot db) took)
  ]
