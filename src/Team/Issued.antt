-- ===== src/Team/Issued.antt =====
-- That a token which crates/team-access has issued is answered for.
use agent_response_gateway.Base.{
  !=_same, or_false, ◌≡◌, ◌≤◌, ◌<◌, refl, arith, true, false, not, ◌||◌, some, [], ◌∷◌, leb, ◌==◌,
  nat_eq, Text, text_eq, ==_refl, Bool-cases, inl, inr, ok, >>=-eq-ok, ok-injective, passed, ◌++◌,
  ◌+◌, length, length-append, All,
}
use mathlib.Core.Path.{subst}
use agent_response_gateway.Base.Hex.{hex_of, length-hex_of, all-hex_of}
use agent_response_gateway.Base.Tables.{Table, get, insert, any_value}
use agent_response_gateway.Base.Ordered.{insert_row}
use agent_response_gateway.Base.Strings.{drop-append, starts_with-append, text_before}
use agent_response_gateway.Management.Contract.{
  storage, Identifier, id_eq, Digest, digest_eq, new_id, digest_of, Operation, Effect, succeeded,
  state_eq, fingerprint, snapshot_eq,
}
use agent_response_gateway.Management.Journal.Reader.{get_operation}
use agent_response_gateway.Management.Journal.Store.{json}
use agent_response_gateway.Team.Contract.{
  StoredCredential, TeamExternals, Purpose, purpose_eq, prefix, Subject, Evidence,
}
use agent_response_gateway.Team.Store.{
  TeamDb, CredentialRow, credential, credential_size, subject, by_verifier, credential_digest,
  evidence, verify_issuance, last_effect, is_digest, is_applied_with,
}
use agent_response_gateway.Team.Transaction.{
  Conditions, run, insert_credential, key_clashes, insert_key,
}
use agent_response_gateway.Team.Auth.{
  Authority, Select, token, is_token, select_key, confirm, principal, principal_of, audit_key,
  is_confirmed, is_issuance,
}
use agent_response_gateway.Team.Authentic.{decode-ok, Holds}

pub is_token-hex :
    (purpose : Purpose) (random : Text)
    → length random ≡ 32
    → All (λ b. b < 256) random
    → is_token purpose (prefix purpose ++ hex_of random) ≡ true
unfolding is_token
is_token-hex purpose random n small =
    let l : length (prefix purpose ++ hex_of random) ≡ length (prefix purpose) + 64 =
      omega (arith, n, length-append (prefix purpose) (hex_of random), length-hex_of random) in
    rw
      (
        l,
        ==_refl (length (prefix purpose) + 64),
        starts_with-append (prefix purpose) (hex_of random),
        drop-append (prefix purpose) (hex_of random),
        all-hex_of random small,
      )
      refl

-- The row of a verifier that no other row has.
by_verifier-insert_row :
    (key verifier : Text) (row : CredentialRow) (t : Table Text CredentialRow)
    → row.verifier ≡ verifier
    → any_value (λ r. r.verifier == verifier) t ≡ false
    → by_verifier verifier (insert_row key row t) ≡ some key
unfolding by_verifier insert_row
by_verifier-insert_row key verifier row [] same h = rw (same, ==_refl verifier) refl
by_verifier-insert_row key verifier row ((j, w) ∷ t) same h =
    let (other, more) =
      or_false {a = w.verifier == verifier} {b = any_value (λ r. r.verifier == verifier) t} h in
    let rest = by_verifier-insert_row key verifier row t same more in
    elim (Bool-cases (text_before key j)) [
      | inl first ↦ rw (first, same, ==_refl verifier) refl
      | inr later ↦ rw (later, other) rest
    ]

pub insert_key-by_verifier :
    (c : Conditions) (value : StoredCredential) (db after : TeamDb)
    → insert_key c value db ≡ ok after
    → by_verifier value.verifier.value after.credentials ≡ some value.metadata.id.value
unfolding insert_key
insert_key-by_verifier c value db after h =
    let (_, _, rest) = >>=-eq-ok (run c insert_credential) _ h in
    let (fresh, done) = passed (key_clashes value db) storage _ rest in
    let row : CredentialRow = record { verifier = value.verifier.value; document = json value } in
    let at : by_verifier value.verifier.value
          (insert_row value.metadata.id.value row db.credentials)
        ≡ some value.metadata.id.value =
      by_verifier-insert_row value.metadata.id.value value.verifier.value row db.credentials refl
        (or_false fresh).1 in
    subst (λ d. by_verifier value.verifier.value d.credentials ≡ some value.metadata.id.value)
      (ok-injective done) at

-- No stored credential is longer than what is read back.
abbrev pub CredentialsFit : TeamExternals → TeamDb → Type 0
CredentialsFit x db =
    (key : Text) (row : CredentialRow) (value : StoredCredential)
    → get key db.credentials ≡ some row
    → row.document ≡ json value
    → credential_size x value ≤ 65536

module _ (x : TeamExternals) where
  pub credential-Holds :
      (db : TeamDb) (value : StoredCredential)
      → CredentialsFit x db
      → Holds db value
      → credential x db value.metadata.id ≡ ok value
  unfolding credential
  credential-Holds db value fits (row, at_row, is_value) =
      let small = fits value.metadata.id.value row value at_row is_value in
      rw (at_row, is_value, decode-ok (credential_size x) value small, ==_refl value.metadata.id)
        refl

  pub select_key-issued :
      (db : TeamDb) (value : StoredCredential) (raw : Text)
      → credential x db value.metadata.id ≡ ok value
      → value.verifier ≡ digest_of x.journal raw
      → by_verifier (digest_of x.journal raw).value db.credentials ≡ some value.metadata.id.value
      → new_id value.metadata.id.value ≡ ok value.metadata.id
      → is_token value.metadata.purpose raw ≡ true
      → select_key x db (token value.metadata.purpose raw) ≡ ok value
  unfolding select_key
  select_key-issued db value raw read v at i t =
      rw
        (
          t,
          at,
          i,
          read,
          !=_same value.verifier (digest_of x.journal raw) v,
          ==_refl value.metadata.purpose,
        )
        refl

  -- A token of a live credential of an enabled subject is answered for, once the audit agrees.
  pub principal-live :
      (target : Identifier) (selected : Select) (authority after : Authority)
      (key : StoredCredential) (owner : Subject)
      → select_key x authority.db selected ≡ ok key
      → subject x authority.db key.metadata.subject ≡ ok owner
      → key.metadata.revoked ≡ false
      → owner.permissions.enabled ≡ true
      → confirm x target key authority ≡ ok after
      → principal x target selected authority ≡ ok (principal_of x key owner, after)
  unfolding principal
  principal-live target selected authority after key owner s o live enabled c =
      let usable : (key.metadata.revoked || not owner.permissions.enabled) ≡ false =
        rw (live, enabled) refl in
      rw (s, o, usable, c) refl

  pub confirm-ok :
      (target : Identifier) (key : StoredCredential) (authority : Authority)
      → audit_key x target key authority ≡ ok tt
      → (after : Authority) × (confirm x target key authority ≡ ok after)
  unfolding confirm
  confirm-ok target key authority audited =
      let proof : Digest × Digest = (key.request_sha256, credential_digest x key) in
      elim (Bool-cases
        (is_confirmed proof (get key.metadata.issued_operation authority.confirmed))) [
          | inl seen ↦ (authority, rw seen refl)
          | inr unseen ↦ (
            record authority {
              confirmed = insert key.metadata.issued_operation proof authority.confirmed;
            },
            rw (unseen, audited) refl,
          )
        ]

  -- What the audit asks of an operation that issued the credential.
  pub audit_key-ok :
      (target : Identifier) (key : StoredCredential) (authority : Authority) (op : Operation)
      → get_operation x.journal authority.audit authority.evidence_actor target
          key.metadata.issued_operation
        ≡ ok op
      → op.state ≡ succeeded
      → fingerprint x.journal op.request ≡ key.request_sha256
      → is_issuance op.request.action ≡ true
      → verify_issuance x authority.db op key ≡ ok tt
      → length authority.confirmed < 1024
      → audit_key x target key authority ≡ ok tt
  unfolding audit_key
  audit_key-ok target key authority op found s f i v room =
      let small : leb 1024 (length authority.confirmed) ≡ false = ground arith in
      rw
        (
          found,
          !=_same op.state succeeded s,
          !=_same (fingerprint x.journal op.request) key.request_sha256 f,
          i,
          v,
          small,
        )
        refl

  pub verify_issuance-ok :
      (db : TeamDb) (op : Operation) (key : StoredCredential) (value : Evidence) (sha256 : Digest)
      → evidence x db op ≡ ok (some (value, sha256))
      → value.issued_credential_sha256 ≡ some (credential_digest x key)
      → last_effect op.events ≡ some (Effect.applied value.after sha256)
      → verify_issuance x db op key ≡ ok tt
  unfolding verify_issuance
  verify_issuance-ok db op key value sha256 found issued_sha256 last =
      let digests : is_digest (credential_digest x key) value.issued_credential_sha256 ≡ true =
        rw (issued_sha256, ==_refl (credential_digest x key)) refl in
      let effects : is_applied_with value.after sha256 (last_effect op.events) ≡ true =
        rw (last, ==_refl value.after, ==_refl sha256) refl in
      rw (found, digests, effects) refl
