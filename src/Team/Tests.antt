-- ===== src/Team/Tests.antt =====
-- The theorems on crates/team-access at one team.
use agent_response_gateway.Base.{
  ◌≡◌, refl, arith, true, false, none, some, ok, text_eq, Text-discrete, ℕ_discrete, All, ap, sym,
  ◌<◌, ◌⊎◌,
}
use agent_response_gateway.Base.Strings.{text_before, is_space, ends_in_space, is_trimmable}
use agent_response_gateway.Base.Ordered.{insert_row, modify_row}
use agent_response_gateway.Base.Tables.{get, contains_key, insert, contains, add}
use agent_response_gateway.Ir.{any_control}
use agent_response_gateway.Management.Contract.{
  Effect, Snapshot, Digest, unverified, new_id, authorize, validate_request, fingerprint, digest_of,
  Identifier-discrete, Digest-discrete, Identity-discrete, Grant-discrete, Action-discrete,
  Snapshot-discrete, State-discrete,
}
use agent_response_gateway.Management.Journal.Store.{
  json, decode, operation_row, request_row, insert_by_sequence, event_rows, insert_operation,
  insert_event,
}
use agent_response_gateway.Management.Journal.Recorded.{
  valid_next, follows, check_event, bad_intent, replay, recorded,
}
use agent_response_gateway.Management.Journal.Machine.{now, commit, prepare, apply_effect}
use agent_response_gateway.Management.Journal.Writer.{
  append, lookup, accept, finish_effect, start_effect, execute_new, execute,
}
use agent_response_gateway.Management.Journal.Reader.{get_operation}
use agent_response_gateway.Team.Contract.{
  Purpose, Purpose-discrete, prefix, Subject, StoredCredential, Principal, action,
  validate_permissions, check_command, digest,
}
use agent_response_gateway.Team.Store.{
  decode_all, validate_all, subjects, credentials, snapshot, subject, credential, must_be_absent,
  absent, has_room, validate_command, checked_evidence, evidence_of, evidence, credential_digest,
  verify_issuance, by_verifier,
}
use agent_response_gateway.Team.Manager.{
  check_request, prepare_mapped, revoke_key, issue_key, run_command, issued_digest, insert_evidence,
  record_effect, write_effect, apply_command, apply_prepared, reconcile_team,
}
use agent_response_gateway.Team.Transaction.{
  Prepared, bump, insert_subject, insert_key, update_key, as_revoked, roll_back, commit_written,
  end_transaction,
}
use agent_response_gateway.Team.Auth.{
  Authority, token, identity, is_token, select_key, audit_key, confirm, principal, principal_of,
}
use agent_response_gateway.Team.Authentic.{Holds, Shown, principal-ok}
use agent_response_gateway.Team.Later.{Later}
use agent_response_gateway.Team.Applied.{Left}
use agent_response_gateway.Team.Written.{Wrote, apply_prepared-Wrote}
use agent_response_gateway.Team.Reach.{
  TeamReach, here, next, apply_with, IsRevoked, TeamReach-Later, revoked_refused,
}
use agent_response_gateway.Team.Receipts.{reconcile-apply}
use agent_response_gateway.Team.Rotation.{Rotated, rotate-Rotated}
use agent_response_gateway.Team.Answers.{issued_answers}
use agent_response_gateway.Team.Cases.{
  gateway, ada, first_key, second_key, op, no_digest, seen, outcome, outside, owner, start,
  random_text, lucky, request_for, prepared_for, issuing, stored, with_key, issued_secret,
  authority_of, one, revoking, after_revoking, issue_operation, short_receipts, short_credentials,
  rotating, audited, after_issue, auditing,
}

runs :
    (prepare_mapped outside gateway (request_for issuing seen) issuing no_digest none start
      ≡ ok (prepared_for issuing seen))
    × ((apply_with outside (lucky 8) (prepared_for issuing seen) (some op) none start).secret
        ≡ some issued_secret)
    × ((apply_with outside (lucky 8) (prepared_for issuing seen) (some op) none start).effect
        ≡ outcome)
    × (principal outside gateway
          (token Purpose.model issued_secret.value)
          (authority_of (with_key stored))
        ≡ ok (principal_of outside stored owner, authority_of (with_key stored)))
    × (prepare_mapped outside gateway
          (request_for revoking one)
          revoking
          no_digest
          none
          (with_key stored)
        ≡ ok (prepared_for revoking one))
unfolding Identifier-discrete Digest-discrete Grant-discrete Action-discrete Snapshot-discrete
    State-discrete Identity-discrete Text-discrete ℕ_discrete new_id authorize fingerprint digest_of
    contains decode Purpose-discrete prefix validate_permissions check_command digest action
    decode_all validate_all subjects credentials snapshot subject credential must_be_absent absent
    has_room validate_command checked_evidence evidence_of evidence credential_digest
    verify_issuance by_verifier insert_row modify_row text_before is_space ends_in_space
    is_trimmable any_control bump insert_subject insert_key update_key check_request prepare_mapped
    revoke_key issue_key run_command issued_digest insert_evidence record_effect write_effect
    roll_back commit_written end_transaction apply_command apply_prepared is_token select_key
    audit_key confirm principal get contains_key insert
runs = (refl, refl, refl, refl, refl)

abbrev issuing_op : Prepared
issuing_op = record (prepared_for issuing seen) { operation = some op }

apply_prepared-Wrote_example :
    Left outside none start (apply_prepared outside (lucky 8) issuing_op none start)
    ⊎ Wrote outside
        (lucky 8)
        issuing_op
        none
        start
        (apply_prepared outside (lucky 8) issuing_op none start)
apply_prepared-Wrote_example = apply_prepared-Wrote outside (lucky 8) issuing_op none start

abbrev Answer : Type 0
Answer =
    (key : StoredCredential) × (found : Subject) × Holds (with_key stored) key
    × Shown outside (token Purpose.model issued_secret.value) key
    × (key.metadata.revoked ≡ false)
    × (subject outside (with_key stored) key.metadata.subject ≡ ok found)
    × (found.permissions.enabled ≡ true)
    × (principal_of outside stored owner ≡ principal_of outside key found)

principal-ok_example : Answer
principal-ok_example =
    principal-ok outside gateway (token Purpose.model issued_secret.value)
      (authority_of (with_key stored)) (authority_of (with_key stored))
      (principal_of outside stored owner) runs.3

revoking_Reach : TeamReach outside gateway (with_key stored) after_revoking
revoking_Reach =
    next here (lucky 9) (request_for revoking one) revoking no_digest (some op) none
      (prepared_for revoking one) runs.4

TeamReach-Later_example : Later (with_key stored).credentials after_revoking.credentials
TeamReach-Later_example = TeamReach-Later outside gateway (with_key stored) revoking_Reach

stored-IsRevoked : IsRevoked outside (with_key (as_revoked stored)) (as_revoked stored)
unfolding get Text-discrete ℕ_discrete
stored-IsRevoked = (
  (record { verifier = stored.verifier.value; document = json (as_revoked stored) }, refl, refl),
  refl,
)

revoked_refused_example : ¬ (
    (principal outside gateway
        (identity (record { subject = ada; credential = first_key }))
        (authority_of (with_key (as_revoked stored)))
      ≡ ok (
        principal_of outside (as_revoked stored) owner,
        authority_of (with_key (as_revoked stored)),
      ))
    × (first_key ≡ first_key))
revoked_refused_example =
    revoked_refused outside gateway (with_key (as_revoked stored)) (as_revoked stored)
      stored-IsRevoked here (authority_of (with_key (as_revoked stored)))
      (authority_of (with_key (as_revoked stored)))
      (identity (record { subject = ada; credential = first_key }))
      (principal_of outside (as_revoked stored) owner) refl

reconcile-apply_example :
    ((apply_with outside (lucky 8) (prepared_for issuing seen) (some op) none start).db ≡ start)
    ⊎ ((after : Snapshot) × (found : Digest) × (reconcile_team outside gateway issue_operation
            (apply_with outside (lucky 8) (prepared_for issuing seen) (some op) none start).db
          ≡ ok (Effect.applied after found))
        × (((apply_with outside (lucky 8) (prepared_for issuing seen) (some op) none start).effect
              ≡ Effect.applied after found)
            ⊎ ((apply_with outside
                  (lucky 8)
                  (prepared_for issuing seen)
                  (some op)
                  none
                  start).effect
                ≡ Effect.uncertain unverified)))
reconcile-apply_example =
    reconcile-apply outside gateway (request_for issuing seen) issuing no_digest none start
      (prepared_for issuing seen) (lucky 8) issue_operation runs.0 refl refl
      (short_receipts
        (apply_with outside (lucky 8) (prepared_for issuing seen) (some op) none start).db)

rotate-Rotated_example :
    ((apply_with outside (lucky 9) (prepared_for rotating one) (some op) none (with_key stored)).db
      ≡ with_key stored)
    ⊎ Rotated outside first_key second_key
        (with_key stored)
        (apply_with outside
          (lucky 9)
          (prepared_for rotating one)
          (some op)
          none
          (with_key stored)).db
rotate-Rotated_example =
    rotate-Rotated outside (lucky 9) (prepared_for rotating one) (some op) none (with_key stored)
      first_key second_key refl

audit_reads :
    get_operation outside.journal audited auditing.evidence_actor gateway op ≡ ok issue_operation
unfolding Identifier-discrete Digest-discrete Grant-discrete Action-discrete Snapshot-discrete
    State-discrete Identity-discrete Text-discrete ℕ_discrete new_id authorize validate_request
    fingerprint digest_of contains add decode operation_row request_row insert_by_sequence
    event_rows insert_operation insert_event valid_next follows check_event bad_intent replay
    recorded now commit prepare apply_effect append lookup accept finish_effect start_effect
    execute_new execute get_operation action
audit_reads = refl

abbrev Answered : Type 0
Answered =
    (p : Principal) × (after : Authority) × (principal outside gateway
        (token Purpose.model issued_secret.value) auditing
      ≡ ok (p, after))
    × (p.identity ≡ record { subject = ada; credential = first_key })
    × (p.purpose ≡ Purpose.model)

small_bytes : All (λ b. b < 256) (random_text 8)
small_bytes = search arith

first_key-ok : new_id first_key.value ≡ ok first_key
unfolding new_id
first_key-ok = refl

issued_answers_example : Answered
issued_answers_example =
    issued_answers outside gateway (request_for issuing seen) ada first_key Purpose.model no_digest
      start (prepared_for issuing seen) (lucky 8) issue_operation (random_text 8) issued_secret
      auditing runs.0 refl refl refl refl small_bytes first_key-ok runs.1 refl
      (short_receipts after_issue) (short_credentials after_issue) audit_reads refl
      (ap some (sym runs.2)) (omega arith)
