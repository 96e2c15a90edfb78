-- ===== src/Team/Manager.antt =====
-- `Manager` of crates/team-access/src/store.rs: commands prepared and applied in one transaction.
use agent_response_gateway.Base.{
  ◌+◌, ◌^◌, false, not, ◌||◌, Option, none, some, List, [], ◌∷◌, ◌++◌, ltb, ◌==◌, ◌!=◌, nat_eq,
  Text, text_eq, bytes, Result, ok, ◌>>=◌, ◌>>◌, reject_if, ok_or, is_some, if◌then◌else◌,
}
use agent_response_gateway.Base.Hex.{hex_of}
use agent_response_gateway.Base.Tables.{contains_key}
use agent_response_gateway.Base.Ordered.{modify_row}
use agent_response_gateway.Management.Contract.{
  Error, invalid_input, conflict, storage, action_eq, Digest, digest_eq, Identifier, id_eq,
  Snapshot, Request, Effect, rejected, unverified, state_eq, succeeded, Operation, digest_of,
  fingerprint,
}
use agent_response_gateway.Management.Journal.Store.{json}
use agent_response_gateway.Team.Contract.{
  Purpose, prefix, Command, register, permissions_change, issue, revoke, rotate, action, Subject,
  StoredCredential, Evidence, Inventory, Permissions, Credential, Secret, Completion, team_schema,
  TeamExternals, digest,
}
use agent_response_gateway.Team.Store.{
  TeamDb, subject, subjects, credential, credentials, snapshot, validate_command, evidence,
  credential_digest,
}
use agent_response_gateway.Team.Transaction.{
  Conditions, Prepared, run, bump, insert_subject, insert_key, update_key, as_revoked, Written,
  Applied, end_transaction, ended, write_subject, update_credential, insert_receipt,
}

module _ (x : TeamExternals) where
  -- `Manager::inventory`
  unfoldable pub inventory : Identifier → TeamDb → Result Error Inventory
  unfolding snapshot subjects credentials
  inventory target db = do
    seen ← snapshot x db
    owners ← subjects x db
    keys ← credentials x db
    ok (record {
      schema = team_schema;
      target = target;
      snapshot = seen;
      subjects = owners;
      credentials = metadata_of keys;
    })
    where
      metadata_of : List StoredCredential → List Credential
      metadata_of [] = []
      metadata_of (k ∷ ks) = k.metadata ∷ metadata_of ks

  -- The checks of `Manager::execute`, before the journal runs the request.
  unfoldable pub check_request : Identifier → Request → Command → Digest → Result Error (Unit {0})
  check_request target request command sha256 =
      reject_if
        (request.target != target
          || (request.action != action command || request.parameters_sha256 != sha256))
        invalid_input

  -- `Manager::prepare_mapped`, whose transaction sees `db`
  unfoldable pub prepare_mapped :
      Identifier → Request → Command → Digest → Option Secret → TeamDb → Result Error Prepared
  unfolding check_request digest validate_command snapshot
  prepare_mapped target request command transport_sha256 secret db = do
    check_request target request command transport_sha256
    _ ← digest x command
    reject_if (is_some secret) conflict
    validate_command x db command
    before ← snapshot x db
    ok (record {
      is_taken = false;
      command = command;
      before = before;
      request_sha256 = fingerprint x.journal request;
      operation = none;
    })

  -- `Bound::prepare`
  unfoldable pub prepare_bound :
      Identifier → Request → Command → Option Secret → TeamDb → Result Error Prepared
  unfolding prepare_mapped digest
  prepare_bound target request command secret db = do
    sha256 ← digest x command
    prepare_mapped target request command sha256 secret db

  -- `revoke`
  unfoldable pub revoke_key : Conditions → Identifier → TeamDb → Result Error TeamDb
  unfolding credential update_key
  revoke_key c key db = do
    value ← credential x db key
    run c update_credential
    ok (update_key (as_revoked value) db)

  abbrev pub issued :
      Identifier → Identifier → Purpose → Identifier → Digest → Text → StoredCredential
  issued owner key purpose operation sha256 raw = record {
    metadata = record {
      id = key;
      subject = owner;
      purpose = purpose;
      revoked = false;
      issued_operation = operation;
    };
    verifier = digest_of x.journal raw;
    request_sha256 = sha256;
  }

  -- `issue`
  unfoldable pub issue_key :
      Conditions
      → Identifier
      → Identifier
      → Purpose
      → Identifier
      → Digest
      → TeamDb
      → Result Error (Option Secret × TeamDb)
  unfolding prefix insert_key
  issue_key c owner key purpose operation sha256 db = do
    random ← ok_or c.random storage
    let raw = prefix purpose ++ hex_of random
    after ← insert_key c (issued owner key purpose operation sha256 raw) db
    ok (some (record { value = raw; credential = key }), after)

  -- `value.revision.checked_add(1).ok_or(Error::Conflict)?`
  abbrev pub changed : Subject → Identifier → Permissions → Result Error Subject
  changed value id permissions = do
    reject_if (not (ltb (value.revision + 1) (2 ^ 64))) conflict
    ok (record value { revision = value.revision + 1; permissions = permissions })

  -- The `match` on the command in `apply`.
  unfoldable pub run_command :
      Conditions → Identifier → Digest → Command → TeamDb → Result Error (Option Secret × TeamDb)
  unfolding insert_subject subject revoke_key issue_key credential
  run_command c operation sha256 (register id permissions) db = do
    let value : Subject = record { id = id; revision = 1; permissions = permissions }
    after ← insert_subject c value db
    ok (none, after)
  run_command c operation sha256 (permissions_change id permissions) db = do
    found ← subject x db id
    value ← changed found id permissions
    run c write_subject
    ok (none, record db { subjects = modify_row id.value (λ _. json value) db.subjects })
  run_command c operation sha256 (issue owner key purpose) db =
      issue_key c owner key purpose operation sha256 db
  run_command c operation sha256 (revoke key) db = do after ← revoke_key c key db; ok (none, after)
  run_command c operation sha256 (rotate key replacement) db = do
    old ← credential x db key
    after ← revoke_key c key db
    issue_key c old.metadata.subject replacement old.metadata.purpose operation sha256 after

  unfoldable pub issued_digest : TeamDb → Option Secret → Result Error (Option Digest)
  unfolding credential credential_digest
  issued_digest db none = ok none
  issued_digest db (some secret) = do
    key ← credential x db secret.credential
    ok (some (credential_digest x key))

  -- INSERT INTO receipts
  unfoldable pub insert_evidence : Conditions → Evidence → TeamDb → Result Error TeamDb
  insert_evidence c value db = do
    run c insert_receipt
    reject_if (contains_key value.operation.value db.receipts) storage
    ok (record db { receipts = (value.operation.value, json value) ∷ db.receipts })

  abbrev pub evidence_for : Prepared → Identifier → Snapshot → Option Digest → Evidence
  evidence_for prepared operation after issued_sha256 = record {
    schema = bytes "gateway-team-effect/v1";
    operation = operation;
    request_sha256 = prepared.request_sha256;
    before = prepared.before;
    after = after;
    issued_credential_sha256 = issued_sha256;
  }

  abbrev pub written_as : Evidence → Option Secret → TeamDb → Written
  written_as value secret db = record {
    after = value.after;
    sha256 = digest_of x.journal (x.evidence_json value);
    secret = secret;
    db = db;
  }

  -- The second half of the closure in `apply`, after the generation is counted.
  unfoldable pub record_effect :
      Conditions → Prepared → Identifier → Option Secret → TeamDb → Result Error Written
  unfolding snapshot issued_digest insert_evidence
  record_effect c prepared operation secret next = do
    after ← snapshot x next
    issued_sha256 ← issued_digest next secret
    let value = evidence_for prepared operation after issued_sha256
    written ← insert_evidence c value next
    ok (written_as value secret written)

  -- The closure in `apply`, whose error rolls the transaction back.
  unfoldable pub write_effect : Conditions → Prepared → Identifier → TeamDb → Result Error Written
  unfolding run_command bump record_effect
  write_effect c prepared operation db = do
    (secret, commanded) ← run_command c operation prepared.request_sha256 prepared.command db
    next ← bump c commanded
    record_effect c prepared operation secret next

  -- `Prepared::apply`, for a transaction that is still there
  unfoldable pub apply_command :
      Conditions → Prepared → Option Identifier → Option Secret → TeamDb → Applied
  unfolding write_effect end_transaction
  apply_command c prepared none slot db = record {
    effect = Effect.not_applied rejected;
    db = db;
    secret = slot;
  }
  apply_command c prepared (some operation) slot db =
      end_transaction c slot db (write_effect c prepared operation db)

  -- `Prepared::apply`
  unfoldable pub apply_prepared : Conditions → Prepared → Option Secret → TeamDb → Applied
  unfolding apply_command
  apply_prepared c prepared slot db =
      if prepared.is_taken
      then ended slot db
      else apply_command c prepared prepared.operation slot db

  -- `Manager::reconcile`
  unfoldable pub reconcile_team : Identifier → Operation → TeamDb → Result Error Effect
  unfolding evidence
  reconcile_team target operation db = do
    reject_if (operation.request.target != target) invalid_input
    found ← evidence x db operation
    ok (effect_of found)
    where
      effect_of : Option (Evidence × Digest) → Effect
      effect_of none = Effect.uncertain unverified
      effect_of (some (value, sha256)) = Effect.applied value.after sha256

-- `Prepared::accepted`
abbrev pub accepted : Identifier → Prepared → Prepared
accepted id prepared = record prepared { operation = some id }

-- The end of `Manager::execute`: the slot is dropped unless the operation succeeded.
unfoldable pub complete : Operation → Option Secret → Completion
complete operation slot = record {
  operation = operation;
  secret = if operation.state == succeeded then slot else none;
}
