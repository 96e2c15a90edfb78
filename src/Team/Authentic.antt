-- ===== src/Team/Authentic.antt =====
-- Whom `Authenticator::principal` of crates/team-access/src/auth.rs answers for.
use agent_response_gateway.Base.{
  same_of_!=, or_false, ℕ, ◌≡◌, ◌≤◌, arith, true, false, not, ◌||◌, some, ◌!=◌, text_eq, ok,
  >>=-eq-ok, passed, ok_or, ok_or-eq_ok,
}
use agent_response_gateway.Base.Tables.{get}
use agent_response_gateway.Management.Contract.{
  forbidden, invalid_store, not_found, digest_eq, Identifier, id_eq, digest_of, new_id,
}
use agent_response_gateway.Management.Journal.Store.{Document, json, garbage, decode}
use agent_response_gateway.Team.Contract.{
  StoredCredential, Subject, Principal, TeamExternals, purpose_eq,
}
use agent_response_gateway.Team.Store.{
  TeamDb, CredentialRow, credential, credential_size, subject, by_verifier,
}
use agent_response_gateway.Team.Auth.{
  Authority, Select, token, identity, is_token, select_key, confirm, principal, principal_of,
}

pub decode-eq :
    {A : Type 0} (size : A → ℕ) (d : Document A) {a : A} → decode size d ≡ ok a → d ≡ json a
unfolding decode
decode-eq size (json b) h = ground arith
decode-eq size garbage h = cc

pub decode-ok : {A : Type 0} (size : A → ℕ) (a : A) → size a ≤ 65536 → decode size (json a) ≡ ok a
unfolding decode
decode-ok size a fits = ground arith

-- The row of a stored credential.
abbrev pub Holds : TeamDb → StoredCredential → Type 0
Holds db key =
    (row : CredentialRow) × (get key.metadata.id.value db.credentials ≡ some row)
    × (row.document ≡ json key)

-- What the one that asks has shown.
abbrev pub Shown : TeamExternals → Select → StoredCredential → Type 0
Shown x (token purpose text) key =
    (key.metadata.purpose ≡ purpose) × (key.verifier ≡ digest_of x.journal text)
Shown x (identity who) key =
    (key.metadata.id ≡ who.credential) × (key.metadata.subject ≡ who.subject)

module _ (x : TeamExternals) where
  pub credential-ok :
      (db : TeamDb) (id : Identifier) {key : StoredCredential}
      → credential x db id ≡ ok key
      → (key.metadata.id ≡ id) × Holds db key
  unfolding credential
  credential-ok db id {key} h =
      let (row, found, rest) = >>=-eq-ok (ok_or (get id.value db.credentials) not_found) _ h in
      let (value, read, last) = >>=-eq-ok (decode (credential_size x) row.document) _ rest in
      let (same, done) = passed (value.metadata.id != id) invalid_store _ last in
      let e : value ≡ key = cc in
      let i : key.metadata.id ≡ id = rw (← e) (same_of_!= value.metadata.id id same) in
      let d : row.document ≡ json key =
        rw (← e) (decode-eq (credential_size x) row.document read) in
      (i, (row, rw i (ok_or-eq_ok (get id.value db.credentials) not_found found), d))

  pub select_key-ok :
      (db : TeamDb) (selected : Select) {key : StoredCredential}
      → select_key x db selected ≡ ok key
      → Holds db key × Shown x selected key
  unfolding select_key
  select_key-ok db (token purpose text) {key} h =
      let (_, more) = passed (not (is_token purpose text)) forbidden _ h in
      let hash = digest_of x.journal text in
      let (id_text, _, rest) =
        >>=-eq-ok (ok_or (by_verifier hash.value db.credentials) forbidden) _ more in
      let (id, _, found) = >>=-eq-ok (new_id id_text) _ rest in
      let (value, read, last) = >>=-eq-ok (credential x db id) _ found in
      let (same, done) =
        passed (value.verifier != hash || value.metadata.purpose != purpose) forbidden _ last in
      let e : value ≡ key = cc in
      let (v, p) = or_false same in
      rw (← e) (
        (credential-ok db id read).1,
        (same_of_!= value.metadata.purpose purpose p, same_of_!= value.verifier hash v),
      )
  select_key-ok db (identity who) {key} h =
      let (value, read, last) = >>=-eq-ok (credential x db who.credential) _ h in
      let (same, done) = passed (value.metadata.subject != who.subject) forbidden _ last in
      let e : value ≡ key = cc in
      let (i, holds) = credential-ok db who.credential read in
      rw (← e) (holds, (i, same_of_!= value.metadata.subject who.subject same))

  -- When principal answers, its answer is that of a stored credential that is not revoked, was shown by a token whose digest is the stored verifier and whose purpose is the stored one or by its own identity, and belongs to a registered subject that is enabled; the permissions are that subject's.
  pub principal-ok :
      (target : Identifier) (selected : Select) (authority after : Authority) (p : Principal)
      → principal x target selected authority ≡ ok (p, after)
      → (key : StoredCredential) × (owner : Subject) × Holds authority.db key
        × Shown x selected key
        × (key.metadata.revoked ≡ false)
        × (subject x authority.db key.metadata.subject ≡ ok owner)
        × (owner.permissions.enabled ≡ true)
        × (p ≡ principal_of x key owner)
  unfolding principal
  principal-ok target selected authority after p h =
      let (key, chosen, rest) = >>=-eq-ok (select_key x authority.db selected) _ h in
      let (owner, owned, more) = >>=-eq-ok (subject x authority.db key.metadata.subject) _ rest in
      let (usable, last) =
        passed (key.metadata.revoked || not owner.permissions.enabled) forbidden _ more in
      let (later, _, done) = >>=-eq-ok (confirm x target key authority) _ last in
      let (holds, shown) = select_key-ok authority.db selected chosen in
      let (live, enabled) = or_false usable in
      (key, owner, holds, shown, live, owned, ground arith, cc)
