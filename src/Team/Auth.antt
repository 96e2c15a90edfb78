-- ===== src/Team/Auth.antt =====
-- crates/team-access/src/auth.rs: `Authenticator`, which answers for a token or an identity.
use agent_response_gateway.Base.{
  ◌+◌, Bool, true, false, not, ◌||◌, ◌&&◌, Option, none, some, leb, ◌==◌, ◌!=◌, nat_eq, Text,
  text_eq, length, all, is_hex, Result, ok, err, ◌>>=◌, ◌>>◌, reject_if, ok_or, if◌then◌else◌,
}
use agent_response_gateway.Base.Tables.{Table, get, insert}
use agent_response_gateway.Base.Strings.{starts_with, drop}
use agent_response_gateway.Management.Contract.{
  Error, forbidden, conflict, Action, Actor, Digest, digest_eq, Identifier, id_eq, Identity, new_id,
  state_eq, succeeded, digest_of, fingerprint,
}
use agent_response_gateway.Management.Journal.Store.{Db}
use agent_response_gateway.Management.Journal.Reader.{get_operation}
use agent_response_gateway.Team.Contract.{
  Purpose, model, purpose_eq, prefix, Subject, StoredCredential, Principal, TeamExternals,
}
use agent_response_gateway.Team.Store.{
  TeamDb, subject, credential, by_verifier, credential_digest, verify_issuance,
}

-- `Authority`, whose `audit` reads the journal.
pub record Authority : Type 0 where
  pub db : TeamDb
  pub audit : Db
  pub evidence_actor : Actor
  pub confirmed : Table Identifier (Digest × Digest)

pub data Select : Type 0 where
  token : Purpose → Text → Select
  identity : Identity → Select

unfoldable pub is_token : Purpose → Text → Bool
unfolding prefix
is_token purpose text =
    (length text == length (prefix purpose) + 64 && starts_with (prefix purpose) text)
    && all is_hex (drop (length (prefix purpose)) text)

-- `authority.confirmed.get(…) == Some(&proof)`
abbrev pub is_confirmed : Digest × Digest → Option (Digest × Digest) → Bool
is_confirmed proof none = false
is_confirmed (request, key) (some (r, k)) = r == request && k == key

abbrev pub is_issuance : Action → Bool
is_issuance Action.team_credential_issue = true
is_issuance Action.team_credential_rotate = true
is_issuance _ = false

module _ (x : TeamExternals) where
  unfoldable pub select_key : TeamDb → Select → Result Error StoredCredential
  unfolding is_token by_verifier credential
  select_key db (token purpose text) = do
    reject_if (not (is_token purpose text)) forbidden
    let hash = digest_of x.journal text
    id_text ← ok_or (by_verifier hash.value db.credentials) forbidden
    id ← new_id id_text
    key ← credential x db id
    reject_if (key.verifier != hash || key.metadata.purpose != purpose) forbidden
    ok key
  select_key db (identity who) = do
    key ← credential x db who.credential
    reject_if (key.metadata.subject != who.subject) forbidden
    ok key

  -- `Digest::of(json(&(&key.metadata, owner.revision, &owner.permissions))?)`
  abbrev pub version_of : StoredCredential → Subject → Digest
  version_of key owner =
      digest_of x.journal (x.authorization_json key.metadata owner.revision owner.permissions)

  abbrev pub principal_of : StoredCredential → Subject → Principal
  principal_of key owner = record {
    identity = record { subject = key.metadata.subject; credential = key.metadata.id };
    purpose = key.metadata.purpose;
    permissions = owner.permissions;
    authorization_version = version_of key owner;
  }

  -- The audit of a credential that is not confirmed yet.
  unfoldable pub audit_key : Identifier → StoredCredential → Authority → Result Error (Unit {0})
  unfolding get_operation fingerprint verify_issuance
  audit_key target key authority = do
    op ←
        get_operation x.journal authority.audit authority.evidence_actor target
          key.metadata.issued_operation
    reject_if
        (op.state != succeeded
          || (fingerprint x.journal op.request != key.request_sha256
              || not (is_issuance op.request.action)))
        forbidden
    verify_issuance x authority.db op key
    reject_if (leb 1024 (length authority.confirmed)) conflict

  unfoldable pub confirm : Identifier → StoredCredential → Authority → Result Error Authority
  unfolding audit_key credential_digest
  confirm target key authority =
      let proof : Digest × Digest = (key.request_sha256, credential_digest x key) in
      if is_confirmed proof (get key.metadata.issued_operation authority.confirmed)
      then ok authority
      else do
        audit_key target key authority
        ok (record authority {
          confirmed = insert key.metadata.issued_operation proof authority.confirmed;
        })

  -- `Authenticator::principal`; an error leaves the authority as it is.
  unfoldable pub principal : Identifier → Select → Authority → Result Error (Principal × Authority)
  unfolding select_key subject confirm
  principal target selected authority = do
    key ← select_key authority.db selected
    owner ← subject x authority.db key.metadata.subject
    reject_if (key.metadata.revoked || not owner.permissions.enabled) forbidden
    after ← confirm target key authority
    ok (principal_of key owner, after)

  -- `self.principal(…).ok()` with the authority that it leaves
  unfoldable pub answer : Identifier → Select → Authority → Option Principal × Authority
  unfolding principal
  answer target selected authority = elim (principal target selected authority) [
    | ok (p, after) ↦ (some p, after)
    | err _ ↦ (none, authority)
  ]

  unfoldable pub authenticate_model : Identifier → Text → Authority → Option Principal × Authority
  unfolding answer
  authenticate_model target text authority = answer target (token model text) authority

  abbrev pub filter_by : (Principal → Bool) → Option Principal → Option Principal
  filter_by p none = none
  filter_by p (some value) = if p value then some value else none

  unfoldable pub refresh_model :
      Identifier → Identity → Digest → Authority → Option Principal × Authority
  unfolding answer
  refresh_model target who version authority =
      let (found, after) = answer target (identity who) authority in
      (filter_by (λ p. p.purpose == model && p.authorization_version == version) found, after)

  abbrev pub not_model : Principal × Authority → Result Error (Principal × Authority)
  not_model (p, after) = if p.purpose == model then err forbidden else ok (p, after)

  -- `Authenticator::management_identity`
  unfoldable pub management_identity :
      Identifier → Identity → Authority → Result Error (Principal × Authority)
  unfolding principal
  management_identity target who authority = do
    found ← principal target (identity who) authority
    not_model found
