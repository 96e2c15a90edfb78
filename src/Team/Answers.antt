-- ===== src/Team/Answers.antt =====
-- From `issue` in crates/team-access/src/store.rs to `principal` in auth.rs.
use agent_response_gateway.Base.{
  same_of_!=, or_false, ◌≡◌, ◌<◌, refl, sym, true, false, none, some, Text, text_eq, ok,
  reject_if-eq_ok, ap, ◌∙◌, ◌++◌, length, All,
}
use mathlib.Core.Path.{subst}
use agent_response_gateway.Base.Hex.{hex_of}
use agent_response_gateway.Management.Contract.{
  invalid_input, Identifier, Digest, Request, Operation, succeeded, new_id, fingerprint, digest_of,
  Action, action_eq,
}
use agent_response_gateway.Management.Journal.Reader.{get_operation}
use agent_response_gateway.Team.Contract.{
  StoredCredential, TeamExternals, issue, Purpose, purpose_eq, prefix, Secret, Subject, Principal,
  action,
}
use agent_response_gateway.Team.Store.{TeamDb, credential, subject, by_verifier, last_effect}
use agent_response_gateway.Team.Manager.{issued, prepare_mapped, evidence_for, check_request}
use agent_response_gateway.Team.Transaction.{Conditions, Prepared}
use agent_response_gateway.Team.Auth.{
  Authority, token, is_token, is_issuance, principal, principal_of, audit_key,
}
use agent_response_gateway.Team.Authentic.{Holds}
use agent_response_gateway.Team.Keys.{insert_key-ok}
use agent_response_gateway.Team.Applied.{bumped, with_receipt}
use agent_response_gateway.Team.Reach.{apply_with}
use agent_response_gateway.Team.Receipts.{ReceiptsFit, prepare_mapped-ok, evidence-written}
use agent_response_gateway.Team.Issued.{
  CredentialsFit, is_token-hex, insert_key-by_verifier, credential-Holds, select_key-issued,
  principal-live, confirm-ok, audit_key-ok, verify_issuance-ok,
}
use agent_response_gateway.Team.Issuance.{
  insert_key-subjects, subject-same, issue_owner, digest_of_issued, issuance, IssuedAs,
}

module _ (x : TeamExternals) where
  -- The parts of an answer to a token that is live, read and audited.
  answered :
      (target : Identifier) (authority : Authority) (value : StoredCredential) (owner : Subject)
      (raw : Text) (op : Operation)
      → CredentialsFit x authority.db
      → Holds authority.db value
      → value.verifier ≡ digest_of x.journal raw
      → by_verifier value.verifier.value authority.db.credentials ≡ some value.metadata.id.value
      → new_id value.metadata.id.value ≡ ok value.metadata.id
      → is_token value.metadata.purpose raw ≡ true
      → subject x authority.db value.metadata.subject ≡ ok owner
      → value.metadata.revoked ≡ false
      → owner.permissions.enabled ≡ true
      → audit_key x target value authority ≡ ok tt
      → (after : Authority) × (principal x target (token value.metadata.purpose raw) authority
          ≡ ok (principal_of x value owner, after))
  answered target authority value owner raw op fits holds v at i t o live enabled audited =
      let read = credential-Holds x authority.db value fits holds in
      let chosen =
        select_key-issued x authority.db value raw read v
          (subst (λ d. by_verifier d.value authority.db.credentials ≡ some value.metadata.id.value)
            v at)
          i t in
      let (after, confirmed) = confirm-ok x target value authority audited in
      (
        after,
        principal-live x target (token value.metadata.purpose raw) authority after value owner
            chosen o live enabled confirmed,
      )

  -- The tables after an issuance hold its credential, with its verifier and its subject.
  issued_tables :
      (owner key : Identifier) (purpose : Purpose) (prepared : Prepared) (op : Identifier)
      (random : Text) (db : TeamDb) (c : Conditions) (secret : Secret) (later : TeamDb)
      (found : Subject) (f : IssuedAs x owner key purpose prepared op random db c secret)
      → later
        ≡ with_receipt (evidence_for x prepared op f.after f.issued_sha256) (bumped f.commanded)
      → CredentialsFit x later
      → subject x db owner ≡ ok found
      → Holds later f.value
        × (by_verifier f.value.verifier.value later.credentials ≡ some f.value.metadata.id.value)
        × (subject x later owner ≡ ok found)
        × (credential x (bumped f.commanded) f.value.metadata.id ≡ ok f.value)
  issued_tables owner key purpose prepared op random db c secret later found f at rows owned =
      let creds = ap (λ d. d.credentials) at in
      let (_, (row, at_row, is_row), _) = insert_key-ok c f.value db f.commanded f.inserted in
      let subjects_same =
        ap (λ d. d.subjects) at ∙ insert_key-subjects c f.value db f.commanded f.inserted in
      let fit : CredentialsFit x (bumped f.commanded) = λ k r v a d. rows k r v (rw creds a) d in
      (
        (row, rw creds at_row, is_row),
        rw creds (insert_key-by_verifier c f.value db f.commanded f.inserted),
        subject-same x db later owner subjects_same ∙ owned,
        credential-Holds x (bumped f.commanded) f.value fit (row, at_row, is_row),
      )

  issue_action :
      (target : Identifier) (request : Request) (sha256 : Digest) (owner key : Identifier)
      (purpose : Purpose) (op : Operation)
      → op.request ≡ request
      → check_request x target request (issue owner key purpose) sha256 ≡ ok tt
      → is_issuance op.request.action ≡ true
  unfolding check_request action
  issue_action target request sha256 owner key purpose op r checked =
      let (_, more) = or_false (reject_if-eq_ok _ invalid_input checked) in
      let a = same_of_!= request.action Action.team_credential_issue (or_false more).0 in
      ap (λ q. is_issuance q.action) r ∙ ap is_issuance a

  -- When apply has answered a request to issue a credential with a secret, the secret's text authenticates: principal answers for it, as the subject and the credential of the command. The conditions are that the subject's identifier and random bytes are of the right form, that no row is longer than what is read back, that the journal's audit reads the operation as succeeded with the effect that apply reported, and that fewer than 1024 credentials are confirmed.
  pub issued_answers :
      (target : Identifier) (request : Request) (owner key : Identifier) (purpose : Purpose)
      (sha256 : Digest) (db : TeamDb) (prepared : Prepared) (c : Conditions) (op : Operation)
      (random : Text) (secret : Secret) (authority : Authority)
      → prepare_mapped x target request (issue owner key purpose) sha256 none db ≡ ok prepared
      → op.request ≡ request
      → request.expected ≡ prepared.before
      → c.random ≡ some random
      → length random ≡ 32
      → All (λ b. b < 256) random
      → new_id key.value ≡ ok key
      → (apply_with x c prepared (some op.id) none db).secret ≡ some secret
      → authority.db ≡ (apply_with x c prepared (some op.id) none db).db
      → ReceiptsFit x authority.db
      → CredentialsFit x authority.db
      → get_operation x.journal authority.audit authority.evidence_actor target op.id ≡ ok op
      → op.state ≡ succeeded
      → last_effect op.events ≡ some (apply_with x c prepared (some op.id) none db).effect
      → length authority.confirmed < 1024
      → (p : Principal) × (after : Authority) × (principal x target
            (token purpose secret.value)
            authority
          ≡ ok (p, after))
        × (p.identity ≡ record { subject = owner; credential = key })
        × (p.purpose ≡ purpose)
  issued_answers target request owner key purpose sha256 db prepared c op random secret authority p
        r e drawn n small i is_secret at_db receipts rows found s last room =
      let raw = prefix purpose ++ hex_of random in
      let value = issued x owner key purpose op.id prepared.request_sha256 raw in
      let (before, checked, valid, revision, as_prepared) =
        prepare_mapped-ok x target request (issue owner key purpose) sha256 none db p in
      let f =
        issuance x owner key purpose prepared op.id random db c secret
          (ap (λ v. v.command) as_prepared) drawn is_secret in
      let at = at_db ∙ f.at_db in
      let (o, owned, enabled) = issue_owner x db owner key purpose valid in
      let (holds', by', subject_read, read') =
        issued_tables owner key purpose prepared op.id random db c secret authority.db o f at rows
          owned in
      let holds = subst (λ v. Holds authority.db v) f.is_value holds' in
      let by =
        subst
          (λ v. by_verifier v.verifier.value authority.db.credentials ≡ some v.metadata.id.value)
          f.is_value by' in
      let read =
        subst (λ v. credential x (bumped f.commanded) v.metadata.id ≡ ok v) f.is_value read' in
      let digested =
        digest_of_issued x (bumped f.commanded) value
          (some (record { value = raw; credential = key })) raw refl read f.digested in
      let sha : prepared.request_sha256 ≡ fingerprint x.journal op.request =
        ap (λ v. v.request_sha256) as_prepared ∙ ap (fingerprint x.journal) (sym r) in
      let evident =
        evidence-written x (evidence_for x prepared op.id f.after f.issued_sha256) op
          (bumped f.commanded) authority.db at receipts refl refl sha
          (sym e ∙ ap (λ v. v.expected) (sym r))
          (f.counted (ap (λ v. v.before.revision) as_prepared ∙ revision)) in
      let verified =
        verify_issuance-ok x authority.db op value
          (evidence_for x prepared op.id f.after f.issued_sha256) _ evident digested
          (last ∙ ap some f.effect) in
      let audited =
        audit_key-ok x target value authority op found s (sym sha)
          (issue_action target request sha256 owner key purpose op r checked) verified room in
      let (after, answer) =
        answered target authority value o raw op rows holds refl by i
          (is_token-hex purpose random n small) subject_read refl enabled audited in
      (
        principal_of x value o,
        after,
        ap (λ t. principal x target (token purpose t) authority) f.text ∙ answer,
        refl,
        refl,
      )
