-- ===== src/Team/Store.antt =====
-- The tables of crates/team-access/src/store.rs, and the functions that read them.
use agent_response_gateway.Base.{
  ℕ, ◌+◌, ◌^◌, Bool, false, not, ◌||◌, ◌&&◌, Option, none, some, List, [], ◌∷◌, ltb, leb, ◌==◌,
  ◌!=◌, nat_eq, Text, text_eq, bytes, length, is_empty, Result, ok, err, ◌>>=◌, ◌>>◌, reject_if,
  ok_or, map_err, if◌then◌else◌,
}
use agent_response_gateway.Base.Tables.{Table, get}
use agent_response_gateway.Base.Strings.{take}
use agent_response_gateway.Management.Contract.{
  Error, invalid_input, invalid_store, forbidden, conflict, not_found, Digest, Identifier, id_eq,
  digest_eq, Snapshot, snapshot_eq, Effect, Operation, Event, digest_of, fingerprint,
}
use agent_response_gateway.Management.Journal.Store.{Document, decode}
use agent_response_gateway.Team.Contract.{
  Subject, StoredCredential, Evidence, Command, register, permissions_change, issue, revoke, rotate,
  model, purpose_eq, validate_permissions, TeamExternals,
}

abbrev pub team_store_schema : Text
team_store_schema = bytes "gateway-team-store/v1"

-- A row of the table `credentials`, without its key.
pub record CredentialRow : Type 0 where
  pub verifier : Text
  pub document : Document StoredCredential

pub record TeamDb : Type 0 where
  pub generation : ℕ
  pub subjects : Table Text (Document Subject)
  pub credentials : Table Text CredentialRow
  pub receipts : Table Text (Document Evidence)

unfoldable pub valid_limit : ℕ → Result Error (Unit {0})
valid_limit maximum = reject_if (ltb maximum (2 ^ 20) || ltb (2 ^ 34) maximum) invalid_input

-- `Result<(), Error>` of a lookup that is to find nothing.
unfoldable pub must_be_absent : {A : Type 0} → Result Error A → Result Error (Unit {0})
must_be_absent (ok _) = err conflict
must_be_absent (err not_found) = ok tt
must_be_absent (err e) = err e

unfoldable pub decode_all : {A : Type 0} → (A → ℕ) → List (Document A) → Result Error (List A)
decode_all size [] = ok []
decode_all size (row ∷ rows) = do
  value ← decode size row
  values ← decode_all size rows
  ok (value ∷ values)

abbrev pub subject_documents : Table Text (Document Subject) → List (Document Subject)
subject_documents [] = []
subject_documents ((_, row) ∷ rows) = row ∷ subject_documents rows

abbrev pub credential_documents : Table Text CredentialRow → List (Document StoredCredential)
credential_documents [] = []
credential_documents ((_, row) ∷ rows) = row.document ∷ credential_documents rows

-- SELECT id FROM credentials WHERE verifier=?1
unfoldable pub by_verifier : Text → Table Text CredentialRow → Option Text
by_verifier verifier [] = none
by_verifier verifier ((id, row) ∷ rows) =
    if row.verifier == verifier then some id else by_verifier verifier rows

-- `value.before.revision.checked_add(1) != Some(value.after.revision)`
abbrev pub is_next : ℕ → ℕ → Bool
is_next before after = ltb (before + 1) (2 ^ 64) && before + 1 == after

-- `operation.events.last()`
abbrev pub last_effect : List Event → Option Effect
last_effect [] = none
last_effect (event ∷ []) = event.effect
last_effect (_ ∷ event ∷ events) = last_effect (event ∷ events)

-- `Some(Effect::Applied{after,evidence_sha256}) if …`
abbrev pub is_applied_with : Snapshot → Digest → Option Effect → Bool
is_applied_with after sha256 (some (Effect.applied seen found)) = seen == after && found == sha256
is_applied_with after sha256 _ = false

abbrev pub is_digest : Digest → Option Digest → Bool
is_digest d none = false
is_digest d (some found) = found == d

module _ (x : TeamExternals) where
  abbrev pub subject_size : Subject → ℕ
  subject_size value = length (x.subject_json value)

  abbrev pub credential_size : StoredCredential → ℕ
  credential_size value = length (x.credential_json value)

  abbrev pub evidence_size : Evidence → ℕ
  evidence_size value = length (x.evidence_json value)

  unfoldable pub validate_all : List Subject → Result Error (Unit {0})
  validate_all [] = ok tt
  validate_all (value ∷ values) = do
    map_err (λ _. invalid_store) (validate_permissions x value.permissions)
    validate_all values

  unfoldable pub subjects : TeamDb → Result Error (List Subject)
  unfolding decode decode_all validate_all
  subjects db = do
    result ← decode_all subject_size (take 129 (subject_documents db.subjects))
    reject_if (ltb 128 (length result)) invalid_store
    validate_all result
    ok result

  unfoldable pub credentials : TeamDb → Result Error (List StoredCredential)
  unfolding decode decode_all
  credentials db = do
    result ← decode_all credential_size (take 1025 (credential_documents db.credentials))
    reject_if (ltb 1024 (length result)) invalid_store
    ok result

  unfoldable pub snapshot : TeamDb → Result Error Snapshot
  unfolding subjects credentials
  snapshot db = do
    owners ← subjects db
    keys ← credentials db
    ok (record {
      revision = db.generation;
      digest = digest_of x.journal (x.inventory_json db.generation owners keys);
    })

  unfoldable pub subject : TeamDb → Identifier → Result Error Subject
  unfolding decode
  subject db id = do
    document ← ok_or (get id.value db.subjects) not_found
    value ← decode subject_size document
    reject_if (value.id != id) invalid_store
    validate_permissions x value.permissions
    ok value

  unfoldable pub credential : TeamDb → Identifier → Result Error StoredCredential
  unfolding decode
  credential db id = do
    row ← ok_or (get id.value db.credentials) not_found
    value ← decode credential_size row.document
    reject_if (value.metadata.id != id) invalid_store
    ok value

  unfoldable pub absent : TeamDb → Identifier → Result Error (Unit {0})
  unfolding credential must_be_absent
  absent db id = must_be_absent (credential db id)

  -- `credentials(db)?.len() >= 1024`
  unfoldable pub has_room : TeamDb → Result Error (Unit {0})
  unfolding credentials
  has_room db = do keys ← credentials db; reject_if (leb 1024 (length keys)) conflict

  -- `validate`
  unfoldable pub validate_command : TeamDb → Command → Result Error (Unit {0})
  unfolding subject subjects credential absent must_be_absent has_room
  validate_command db (register id _) = do
    must_be_absent (subject db id)
    owners ← subjects db
    reject_if (leb 128 (length owners)) conflict
  validate_command db (permissions_change id _) = do _ ← subject db id; ok tt
  validate_command db (issue id key purpose) = do
    owner ← subject db id
    reject_if
        (not owner.permissions.enabled || (purpose == model && is_empty owner.permissions.routes))
        forbidden
    absent db key
    has_room db
  validate_command db (revoke key) = do
    value ← credential db key
    reject_if value.metadata.revoked conflict
  validate_command db (rotate key replacement) = do
    old ← credential db key
    owner ← subject db old.metadata.subject
    reject_if (old.metadata.revoked || not owner.permissions.enabled) conflict
    absent db replacement
    has_room db

  unfoldable pub checked_evidence : Operation → Evidence → Result Error (Option (Evidence × Digest))
  checked_evidence operation value = do
    reject_if
        (value.schema != bytes "gateway-team-effect/v1"
          || (value.operation != operation.id
              || (value.request_sha256 != fingerprint x.journal operation.request
                  || (value.before != operation.request.expected
                      || not (is_next value.before.revision value.after.revision)))))
        invalid_store
    ok (some (value, digest_of x.journal (x.evidence_json value)))

  unfoldable pub evidence_of :
      Operation → Option (Document Evidence) → Result Error (Option (Evidence × Digest))
  unfolding decode checked_evidence
  evidence_of operation none = ok none
  evidence_of operation (some document) = do
    value ← decode evidence_size document
    checked_evidence operation value

  unfoldable pub evidence : TeamDb → Operation → Result Error (Option (Evidence × Digest))
  unfolding evidence_of
  evidence db operation = evidence_of operation (get operation.id.value db.receipts)

  unfoldable pub credential_digest : StoredCredential → Digest
  credential_digest value = digest_of x.journal (x.credential_json value)

  unfoldable pub verify_issuance : TeamDb → Operation → StoredCredential → Result Error (Unit {0})
  unfolding evidence credential_digest
  verify_issuance db operation key = do
    found ← evidence db operation
    (value, sha256) ← ok_or found invalid_store
    reject_if
        (not (is_digest (credential_digest key) value.issued_credential_sha256)
          || not (is_applied_with value.after sha256 (last_effect operation.events)))
        invalid_store
