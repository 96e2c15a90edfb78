-- ===== src/Team/Generation.antt =====
-- The generation that the commands of crates/team-access/src/store.rs leave.
use agent_response_gateway.Base.{
  ◌≡◌, sym, Option, nat_eq, text_eq, ok, >>=-eq-ok, passed, ok-injective, ap, ◌∙◌, ◌++◌, ok_or,
}
use agent_response_gateway.Base.Hex.{hex_of}
use agent_response_gateway.Base.Tables.{contains_key}
use agent_response_gateway.Management.Contract.{
  Identifier, id_eq, Digest, digest_eq, Snapshot, snapshot_eq, storage,
}
use agent_response_gateway.Team.Contract.{
  TeamExternals, Command, register, permissions_change, issue, revoke, rotate, Secret, Purpose,
  prefix, Subject, StoredCredential,
}
use agent_response_gateway.Team.Store.{TeamDb, snapshot, subject, subjects, credential, credentials}
use agent_response_gateway.Team.Manager.{run_command, revoke_key, issue_key, issued, changed}
use agent_response_gateway.Team.Transaction.{
  Conditions, run, insert_subject, insert_key, key_clashes, write_subject, update_credential,
  update_key, insert_credential,
}

module _ (x : TeamExternals) where
  pub snapshot-revision :
      (db : TeamDb) {seen : Snapshot} → snapshot x db ≡ ok seen → seen.revision ≡ db.generation
  unfolding snapshot
  snapshot-revision db {seen} h =
      let (owners, _, rest) = >>=-eq-ok (subjects x db) _ h in
      let (keys, _, done) = >>=-eq-ok (credentials x db) _ rest in
      sym (ap (λ s. s.revision) (ok-injective done))

  insert_key-generation :
      (c : Conditions) (value : StoredCredential) (db : TeamDb) {after : TeamDb}
      → insert_key c value db ≡ ok after
      → after.generation ≡ db.generation
  unfolding insert_key
  insert_key-generation c value db {after} h =
      let (_, _, rest) = >>=-eq-ok (run c insert_credential) _ h in
      let (_, done) = passed (key_clashes value db) storage _ rest in
      sym (ap (λ d. d.generation) (ok-injective done))

  issue_key-generation :
      (c : Conditions) (owner key : Identifier) (purpose : Purpose) (operation : Identifier)
      (sha256 : Digest) (db : TeamDb) {after : Option Secret × TeamDb}
      → issue_key x c owner key purpose operation sha256 db ≡ ok after
      → after.1.generation ≡ db.generation
  unfolding issue_key
  issue_key-generation c owner key purpose operation sha256 db {after} h =
      let (random, _, rest) = >>=-eq-ok (ok_or c.random storage) _ h in
      let value = issued x owner key purpose operation sha256 (prefix purpose ++ hex_of random) in
      let (next, inserted, done) = >>=-eq-ok (insert_key c value db) _ rest in
      let e = ap (λ p. p.1.generation) (ok-injective done) in
      sym e ∙ insert_key-generation c value db inserted

  revoke_key-generation :
      (c : Conditions) (key : Identifier) (db : TeamDb) {after : TeamDb}
      → revoke_key x c key db ≡ ok after
      → after.generation ≡ db.generation
  unfolding revoke_key update_key
  revoke_key-generation c key db {after} h =
      let (value, _, rest) = >>=-eq-ok (credential x db key) _ h in
      let (_, _, done) = >>=-eq-ok (run c update_credential) _ rest in
      sym (ap (λ d. d.generation) (ok-injective done))

  pub run_command-generation :
      (c : Conditions) (operation : Identifier) (sha256 : Digest) (command : Command) (db : TeamDb)
      {after : Option Secret × TeamDb}
      → run_command x c operation sha256 command db ≡ ok after
      → after.1.generation ≡ db.generation
  unfolding run_command insert_subject
  run_command-generation c operation sha256 (register id permissions) db {after} h =
      let value : Subject = record { id = id; revision = 1; permissions = permissions } in
      let (next, inserted, done) = >>=-eq-ok (insert_subject c value db) _ h in
      let (_, _, rest) = >>=-eq-ok (run c write_subject) _ inserted in
      let (_, last) = passed (contains_key id.value db.subjects) storage _ rest in
      sym (ap (λ p. p.1.generation) (ok-injective done))
      ∙ sym (ap (λ d. d.generation) (ok-injective last))
  run_command-generation c operation sha256 (permissions_change id permissions) db {after} h =
      let (found, _, rest) = >>=-eq-ok (subject x db id) _ h in
      let (value, _, more) = >>=-eq-ok (changed x found id permissions) _ rest in
      let (_, _, done) = >>=-eq-ok (run c write_subject) _ more in
      sym (ap (λ p. p.1.generation) (ok-injective done))
  run_command-generation c operation sha256 (issue owner key purpose) db h =
      issue_key-generation c owner key purpose operation sha256 db h
  run_command-generation c operation sha256 (revoke key) db {after} h =
      let (next, revoked, done) = >>=-eq-ok (revoke_key x c key db) _ h in
      sym (ap (λ p. p.1.generation) (ok-injective done)) ∙ revoke_key-generation c key db revoked
  run_command-generation c operation sha256 (rotate key replacement) db h =
      let (old, _, rest) = >>=-eq-ok (credential x db key) _ h in
      let (next, revoked, more) = >>=-eq-ok (revoke_key x c key db) _ rest in
      issue_key-generation c old.metadata.subject replacement old.metadata.purpose operation sha256
        next more
      ∙ revoke_key-generation c key db revoked
