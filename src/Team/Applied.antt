-- ===== src/Team/Applied.antt =====
-- What a call of `apply` in crates/team-access/src/store.rs leaves, by how it ended.
use agent_response_gateway.Base.{
  ◌<◌, arith, ◌≡◌, refl, sym, Bool, true, false, not, Option, none, some, text_eq, if◌then◌else◌,
  ◌⊎◌, inl, inr, Result, ok, err, >>=-eq-ok, passed, ◌+◌, ◌-◌, ◌^◌, ltb, ◌∷◌, ap, ◌∙◌,
}
use mathlib.Core.Path.{subst}
use agent_response_gateway.Base.Tables.{contains_key}
use agent_response_gateway.Management.Contract.{
  Error, storage, conflict, Identifier, Digest, Snapshot, Effect, FailureCode, effect_failed,
  rejected, unverified,
}
use agent_response_gateway.Management.Journal.Store.{json}
use agent_response_gateway.Team.Contract.{TeamExternals, Secret, Evidence}
use agent_response_gateway.Team.Store.{TeamDb, snapshot}
use agent_response_gateway.Team.Manager.{
  run_command, write_effect, issued_digest, record_effect, written_as, evidence_for,
  insert_evidence, apply_command, apply_prepared,
}
use agent_response_gateway.Team.Transaction.{
  Conditions, Prepared, run, next_generation, bump, insert_receipt, Written, end_transaction,
  roll_back, commit_written, ended, Applied,
}

pub bump-ok :
    (c : Conditions) (db after : TeamDb)
    → bump c db ≡ ok after
    → (after ≡ record db { generation = db.generation + 1 }) × (db.generation < 2 ^ 63 - 1)
unfolding bump
bump-ok c db after h =
    let (_, _, rest) = >>=-eq-ok (run c next_generation) _ h in
    let (room, done) = passed (not (ltb db.generation (2 ^ 63 - 1))) conflict _ rest in
    (cc, ground arith)

abbrev pub bumped : TeamDb → TeamDb
bumped db = record db { generation = db.generation + 1 }

abbrev pub with_receipt : Evidence → TeamDb → TeamDb
with_receipt value db = record db { receipts = (value.operation.value, json value) ∷ db.receipts }

module _ (x : TeamExternals) where
  pub insert_evidence-ok :
      (c : Conditions) (value : Evidence) (db after : TeamDb)
      → insert_evidence x c value db ≡ ok after
      → after ≡ record db { receipts = (value.operation.value, json value) ∷ db.receipts }
  unfolding insert_evidence
  insert_evidence-ok c value db after h =
      let (_, _, rest) = >>=-eq-ok (run c insert_receipt) _ h in
      let (_, done) = passed (contains_key value.operation.value db.receipts) storage _ rest in cc

  -- The snapshot and the evidence that a transaction wrote.
  abbrev pub Recorded : Prepared → Identifier → Option Secret → TeamDb → Written → Type 0
  Recorded prepared operation secret next written =
      (after : Snapshot) × (issued_sha256 : Option Digest) × (snapshot x next ≡ ok after)
      × (issued_digest x next secret ≡ ok issued_sha256)
      × (written
          ≡ written_as x (evidence_for x prepared operation after issued_sha256) secret
              (with_receipt (evidence_for x prepared operation after issued_sha256) next))

  record_effect-Recorded :
      (c : Conditions) (prepared : Prepared) (operation : Identifier) (secret : Option Secret)
      (next : TeamDb) (written : Written)
      → record_effect x c prepared operation secret next ≡ ok written
      → Recorded prepared operation secret next written
  unfolding record_effect
  record_effect-Recorded c prepared operation secret next written h =
      let (after, seen, later) = >>=-eq-ok (snapshot x next) _ h in
      let (issued_sha256, digested, last) = >>=-eq-ok (issued_digest x next secret) _ later in
      let value = evidence_for x prepared operation after issued_sha256 in
      let (final, inserted, done) = >>=-eq-ok (insert_evidence x c value next) _ last in
      let f = insert_evidence-ok c value next final inserted in
      let e : written ≡ written_as x value secret final =
        ap (λ r. elim r [ ok w ↦ w | err _ ↦ written ]) (sym done) in
      (after, issued_sha256, seen, digested, e ∙ ap (written_as x value secret) f)

  -- The steps of a transaction that was written.
  abbrev pub Steps : Conditions → Prepared → Identifier → TeamDb → Written → Type 0
  Steps c prepared operation db written =
      (commanded : TeamDb) × (secret : Option Secret) × (run_command x c operation
          prepared.request_sha256 prepared.command db
        ≡ ok (secret, commanded))
      × (commanded.generation < 2 ^ 63 - 1)
      × Recorded prepared operation secret (bumped commanded) written

  pub write_effect-Steps :
      (c : Conditions) (prepared : Prepared) (operation : Identifier) (db : TeamDb)
      (written : Written)
      → write_effect x c prepared operation db ≡ ok written
      → Steps c prepared operation db written
  unfolding write_effect
  write_effect-Steps c prepared operation db written h =
      let ((secret, commanded), ran, rest) =
        >>=-eq-ok (run_command x c operation prepared.request_sha256 prepared.command db) _ h in
      let (next, counted, more) = >>=-eq-ok (bump c commanded) _ rest in
      let (same, room) = bump-ok c commanded next counted in
      let recorded = record_effect-Recorded c prepared operation secret next written more in
      (
        commanded,
        secret,
        ran,
        room,
        subst (λ n. Recorded prepared operation secret n written) same recorded,
      )

  -- The transaction's writes are durable, though a commit may have reported an error.
  abbrev pub Took : Conditions → Prepared → Option Secret → TeamDb → Applied → Type 0
  Took c prepared slot db a =
      (operation : Identifier) × (written : Written) × (prepared.operation ≡ some operation)
      × (write_effect x c prepared operation db ≡ ok written)
      × (a.db ≡ written.db)
      × (((a.effect ≡ Effect.applied written.after written.sha256) × (a.secret ≡ written.secret))
          ⊎ ((a.effect ≡ Effect.uncertain unverified) × (a.secret ≡ slot)))

  -- Nothing was changed, and no effect is reported.
  abbrev pub Left : Option Secret → TeamDb → Applied → Type 0
  Left slot db a =
      (a.db ≡ db)
      × (a.secret ≡ slot)
      × (((code : FailureCode) × (a.effect ≡ Effect.not_applied code))
          ⊎ (a.effect ≡ Effect.uncertain unverified))

  roll_back-Left :
      (b : Bool) (slot : Option Secret) (db : TeamDb) → Left slot db (roll_back b slot db)
  unfolding roll_back
  roll_back-Left true slot db = (refl, refl, inl (effect_failed, refl))
  roll_back-Left false slot db = (refl, refl, inr refl)

  commit_written-outcome :
      (commits unseen : Bool) (c : Conditions) (prepared : Prepared) (operation : Identifier)
      (slot : Option Secret) (db : TeamDb) (written : Written)
      → prepared.operation ≡ some operation
      → write_effect x c prepared operation db ≡ ok written
      → Left slot db (commit_written commits unseen slot db written)
        ⊎ Took c prepared slot db (commit_written commits unseen slot db written)
  unfolding commit_written
  commit_written-outcome true unseen c prepared operation slot db written o h =
      inr (operation, written, o, h, refl, inl (refl, refl))
  commit_written-outcome false true c prepared operation slot db written o h =
      inr (operation, written, o, h, refl, inr (refl, refl))
  commit_written-outcome false false c prepared operation slot db written o h =
      inl (refl, refl, inr refl)

  end_transaction-outcome :
      (c : Conditions) (prepared : Prepared) (operation : Identifier) (slot : Option Secret)
      (db : TeamDb) (r : Result Error Written)
      → prepared.operation ≡ some operation
      → write_effect x c prepared operation db ≡ r
      → Left slot db (end_transaction c slot db r)
        ⊎ Took c prepared slot db (end_transaction c slot db r)
  unfolding end_transaction
  end_transaction-outcome c prepared operation slot db (err e) o h =
      inl (roll_back-Left c.rolls_back slot db)
  end_transaction-outcome c prepared operation slot db (ok written) o h =
      commit_written-outcome c.commits c.commits_unseen c prepared operation slot db written o h

  apply_command-outcome :
      (c : Conditions) (prepared : Prepared) (slot : Option Secret) (db : TeamDb)
      (o : Option Identifier)
      → prepared.operation ≡ o
      → Left slot db (apply_command x c prepared o slot db)
        ⊎ Took c prepared slot db (apply_command x c prepared o slot db)
  unfolding apply_command
  apply_command-outcome c prepared slot db none e = inl (refl, refl, inl (rejected, refl))
  apply_command-outcome c prepared slot db (some operation) e =
      end_transaction-outcome c prepared operation slot db (write_effect x c prepared operation db)
        e refl

  -- A call of apply leaves everything as it was, or the tables that write_effect has returned.
  pub apply_prepared-outcome :
      (c : Conditions) (prepared : Prepared) (slot : Option Secret) (db : TeamDb)
      → Left slot db (apply_prepared x c prepared slot db)
        ⊎ Took c prepared slot db (apply_prepared x c prepared slot db)
  unfolding apply_prepared
  apply_prepared-outcome c prepared slot db = go prepared.is_taken
    where
      go :
          (b : Bool)
          → Left slot db
              (if b then ended slot db else apply_command x c prepared prepared.operation slot db)
            ⊎ Took c prepared slot db
                (if b then ended slot db else apply_command x c prepared prepared.operation slot db)
      go true = inl (refl, refl, inr refl)
      go false = apply_command-outcome c prepared slot db prepared.operation refl
