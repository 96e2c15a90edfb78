-- ===== src/Team/Later.antt =====
-- How the rows of `credentials` change from one state of crates/team-access/src/store.rs to a later.
use agent_response_gateway.Base.{
  ◌≡◌, refl, sym, Option, some, ◌==◌, eq_of_==, Text, text_eq, Bool-cases, ◌⊎◌, inl, inr, ok, err,
  >>=-eq-ok, passed, ok_or, ◌++◌, ◌∙◌, ap,
}
use agent_response_gateway.Base.Tables.{Table, get, contains_key}
use agent_response_gateway.Base.Hex.{hex_of}
use agent_response_gateway.Management.Contract.{storage, Identifier, Digest}
use agent_response_gateway.Management.Journal.Store.{json}
use agent_response_gateway.Team.Contract.{
  StoredCredential, TeamExternals, Command, register, permissions_change, issue, revoke, rotate,
  Purpose, prefix, Secret, Subject,
}
use agent_response_gateway.Team.Store.{TeamDb, CredentialRow, credential, subject}
use agent_response_gateway.Team.Manager.{revoke_key, issued, issue_key, run_command, changed}
use agent_response_gateway.Team.Transaction.{
  Conditions, run, insert_key, update_credential, update_key, as_revoked, write_subject,
  insert_subject,
}
use agent_response_gateway.Team.Authentic.{credential-ok}
use agent_response_gateway.Team.Keys.{insert_key-ok, update_key-row, update_key-other}

-- A row is the same, or its credential is now revoked.
abbrev pub RowLater : CredentialRow → CredentialRow → Type 0
RowLater row later =
    (later.verifier ≡ row.verifier)
    × ((later.document ≡ row.document)
        ⊎ ((value : StoredCredential) × (row.document ≡ json value)
            × (later.document ≡ json (as_revoked value))))

abbrev pub Later : Table Text CredentialRow → Table Text CredentialRow → Type 0
Later t u =
    (i : Text) (row : CredentialRow)
    → get i t ≡ some row
    → (later : CredentialRow) × (get i u ≡ some later) × RowLater row later

pub same_Later : (t : Table Text CredentialRow) → Later t t
same_Later t i row h = (row, h, (refl, inl refl))

RowLater-trans : (a b c : CredentialRow) → RowLater a b → RowLater b c → RowLater a c
RowLater-trans a b c (v, inl same) (w, inl again) = (w ∙ v, inl (again ∙ same))
RowLater-trans a b c (v, inl same) (w, inr (value, d, e)) = (w ∙ v, inr (value, sym same ∙ d, e))
RowLater-trans a b c (v, inr (value, d, e)) (w, inl again) = (w ∙ v, inr (value, d, again ∙ e))
RowLater-trans a b c (v, inr (value, d, e)) (w, inr (other, f, g)) =
    let s : as_revoked value ≡ other = cc in
    let t : as_revoked other ≡ as_revoked value = ap as_revoked (sym s) in
    (w ∙ v, inr (value, d, g ∙ ap json t))

pub Later-trans : (t u v : Table Text CredentialRow) → Later t u → Later u v → Later t v
Later-trans t u v first next i row h =
    let (middle, found, one) = first i row h in
    let (last, there, two) = next i middle found in
    (last, there, RowLater-trans row middle last one two)

module _ (x : TeamExternals) where
  revoke_key-Later :
      (c : Conditions) (key : Identifier) (db after : TeamDb)
      → revoke_key x c key db ≡ ok after
      → Later db.credentials after.credentials
  unfolding revoke_key
  revoke_key-Later c key db after h i row found =
      let (value, read, rest) = >>=-eq-ok (credential x db key) _ h in
      let (_, _, done) = >>=-eq-ok (run c update_credential) _ rest in
      let e : update_key (as_revoked value) db ≡ after = cc in
      let (_, (held, there, is_value)) = credential-ok x db key read in
      rw (← e) (elim (Bool-cases (value.metadata.id.value == i)) [
        | inl same ↦
            let k : value.metadata.id.value ≡ i = eq_of_== value.metadata.id.value i same in
            let o : held ≡ row = cc in
            let d : row.document ≡ json value = rw (← o) is_value in
            (
              record row { document = json (as_revoked value) },
              rw (← k) (update_key-row (as_revoked value) db {row = row} (rw k found)),
              (refl, inr (value, d, refl)),
            )
        | inr other ↦
            (row, rw (update_key-other (as_revoked value) db i other) found, (refl, inl refl))
      ])

  issue_key-Later :
      (c : Conditions) (owner key : Identifier) (purpose : Purpose) (operation : Identifier)
      (sha256 : Digest) (db : TeamDb) {after : Option Secret × TeamDb}
      → issue_key x c owner key purpose operation sha256 db ≡ ok after
      → Later db.credentials after.1.credentials
  unfolding issue_key
  issue_key-Later c owner key purpose operation sha256 db {after} h i row found =
      let (random, _, rest) = >>=-eq-ok (ok_or c.random storage) _ h in
      let raw = prefix purpose ++ hex_of random in
      let value = issued x owner key purpose operation sha256 raw in
      let (next, inserted, done) = >>=-eq-ok (insert_key c value db) _ rest in
      let e : next ≡ after.1 = ap (λ r. elim r [ ok p ↦ p.1 | err _ ↦ next ]) done in
      rw (← e) (row, (insert_key-ok c value db next inserted).2 i row found, (refl, inl refl))

  insert_subject-credentials :
      (c : Conditions) (value : Subject) (db after : TeamDb)
      → insert_subject c value db ≡ ok after
      → after.credentials ≡ db.credentials
  unfolding insert_subject
  insert_subject-credentials c value db after h =
      let (_, _, rest) = >>=-eq-ok (run c write_subject) _ h in
      let (_, done) = passed (contains_key value.id.value db.subjects) storage _ rest in cc

  pub run_command-Later :
      (c : Conditions) (operation : Identifier) (sha256 : Digest) (command : Command) (db : TeamDb)
      {after : Option Secret × TeamDb}
      → run_command x c operation sha256 command db ≡ ok after
      → Later db.credentials after.1.credentials
  unfolding run_command
  run_command-Later c operation sha256 (register id permissions) db {after} h =
      let value : Subject = record { id = id; revision = 1; permissions = permissions } in
      let (next, inserted, done) = >>=-eq-ok (insert_subject c value db) _ h in
      let e : next ≡ after.1 = ap (λ r. elim r [ ok p ↦ p.1 | err _ ↦ next ]) done in
      rw (← e, insert_subject-credentials c value db next inserted) (same_Later db.credentials)
  run_command-Later c operation sha256 (permissions_change id permissions) db {after} h =
      let (found, _, rest) = >>=-eq-ok (subject x db id) _ h in
      let (value, _, more) = >>=-eq-ok (changed x found id permissions) _ rest in
      let (_, _, done) = >>=-eq-ok (run c write_subject) _ more in
      let e : db.credentials ≡ after.1.credentials =
        ap (λ r. elim r [ ok p ↦ p.1.credentials | err _ ↦ db.credentials ]) done in
      rw (← e) (same_Later db.credentials)
  run_command-Later c operation sha256 (issue owner key purpose) db h =
      issue_key-Later c owner key purpose operation sha256 db h
  run_command-Later c operation sha256 (revoke key) db {after} h =
      let (next, revoked, done) = >>=-eq-ok (revoke_key x c key db) _ h in
      let e : next ≡ after.1 = ap (λ r. elim r [ ok p ↦ p.1 | err _ ↦ next ]) done in
      rw (← e) (revoke_key-Later c key db next revoked)
  run_command-Later c operation sha256 (rotate key replacement) db {after} h =
      let (old, _, rest) = >>=-eq-ok (credential x db key) _ h in
      let (next, revoked, more) = >>=-eq-ok (revoke_key x c key db) _ rest in
      Later-trans db.credentials next.credentials after.1.credentials
        (revoke_key-Later c key db next revoked)
        (issue_key-Later c old.metadata.subject replacement old.metadata.purpose operation sha256
          next more)
