-- ===== src/Team/Rotation.antt =====
-- What a rotation in crates/team-access/src/store.rs leaves of the old credential and of the new.
use agent_response_gateway.Base.{
  ◌≡◌, refl, sym, Option, some, ◌⊎◌, inl, inr, ok, >>=-eq-ok, ok-injective, ok_or, ok_or-eq_ok,
  false, ap, ◌∙◌, ◌++◌, Text, text_eq,
}
use mathlib.Core.Path.{subst}
use agent_response_gateway.Base.Hex.{hex_of}
use agent_response_gateway.Management.Contract.{storage, Identifier, Digest}
use agent_response_gateway.Management.Journal.Store.{json}
use agent_response_gateway.Team.Contract.{
  StoredCredential, TeamExternals, rotate, Purpose, prefix, Secret,
}
use agent_response_gateway.Team.Store.{TeamDb, credential}
use agent_response_gateway.Team.Manager.{revoke_key, issued, issue_key, run_command}
use agent_response_gateway.Team.Transaction.{
  Conditions, Prepared, run, update_credential, insert_key, update_key, as_revoked,
}
use agent_response_gateway.Team.Authentic.{Holds, credential-ok}
use agent_response_gateway.Team.Keys.{insert_key-ok, update_key-row}
use agent_response_gateway.Team.Applied.{write_effect-Steps, apply_prepared-outcome}
use agent_response_gateway.Team.Reach.{apply_with}

module _ (x : TeamExternals) where
  revoke_key-Holds :
      (c : Conditions) (key : Identifier) (db : TeamDb) {after : TeamDb} {value : StoredCredential}
      → revoke_key x c key db ≡ ok after
      → credential x db key ≡ ok value
      → Holds after (as_revoked value)
  unfolding revoke_key
  revoke_key-Holds c key db {after} {value} h read =
      let (found, again, rest) = >>=-eq-ok (credential x db key) _ h in
      let (_, _, done) = >>=-eq-ok (run c update_credential) _ rest in
      let same : found ≡ value = ok-injective (sym again ∙ read) in
      let e : update_key (as_revoked value) db ≡ after =
        ap (λ v. update_key (as_revoked v) db) (sym same) ∙ ok-injective done in
      let (_, (row, at_row, _)) = credential-ok x db key read in
      subst (λ d. Holds d (as_revoked value)) e
        (
          record row { document = json (as_revoked value) },
          update_key-row (as_revoked value) db {row = row} at_row,
          refl,
        )

  pub issue_key-Holds :
      (c : Conditions) (owner key : Identifier) (purpose : Purpose) (operation : Identifier)
      (sha256 : Digest) (db : TeamDb) (secret : Option Secret) (after : TeamDb)
      → issue_key x c owner key purpose operation sha256 db ≡ ok (secret, after)
      → (random : Text) × (c.random ≡ some random)
        × (secret ≡ some (record { value = prefix purpose ++ hex_of random; credential = key }))
        × (insert_key c
              (issued x owner key purpose operation sha256 (prefix purpose ++ hex_of random))
              db
            ≡ ok after)
  unfolding issue_key
  issue_key-Holds c owner key purpose operation sha256 db secret after h =
      let (random, drawn, rest) = >>=-eq-ok (ok_or c.random storage) _ h in
      let raw = prefix purpose ++ hex_of random in
      let (next, inserted, done) =
        >>=-eq-ok (insert_key c (issued x owner key purpose operation sha256 raw) db) _ rest in
      let e = ok-injective done in
      (
        random,
        ok_or-eq_ok c.random storage drawn,
        sym (ap (λ p. p.0) e),
        inserted ∙ ap (λ p. ok p.1) e,
      )

  -- The two credentials after a rotation.
  abbrev pub Rotated : Identifier → Identifier → TeamDb → TeamDb → Type 0
  Rotated key replacement db after =
      (old new : StoredCredential) × (credential x db key ≡ ok old)
      × Holds after (as_revoked old)
      × Holds after new
      × (new.metadata.id ≡ replacement)
      × (new.metadata.subject ≡ old.metadata.subject)
      × (new.metadata.purpose ≡ old.metadata.purpose)
      × (new.metadata.revoked ≡ false)

  run_command-Rotated :
      (c : Conditions) (operation : Identifier) (sha256 : Digest) (key replacement : Identifier)
      (db : TeamDb) (secret : Option Secret) (after : TeamDb)
      → run_command x c operation sha256 (rotate key replacement) db ≡ ok (secret, after)
      → Rotated key replacement db after
  unfolding run_command
  run_command-Rotated c operation sha256 key replacement db secret after h =
      let (old, read, rest) = >>=-eq-ok (credential x db key) _ h in
      let (next, revoked, more) = >>=-eq-ok (revoke_key x c key db) _ rest in
      let (random, _, _, inserted) =
        issue_key-Holds c old.metadata.subject replacement old.metadata.purpose operation sha256
          next secret after more in
      let new =
        issued x old.metadata.subject replacement old.metadata.purpose operation sha256
          (prefix old.metadata.purpose ++ hex_of random) in
      let (_, holds, others) = insert_key-ok c new next after inserted in
      let (row, at_row, is_old) = revoke_key-Holds c key db revoked read in
      (
        old,
        new,
        read,
        (row, others old.metadata.id.value row at_row, is_old),
        holds,
        refl,
        refl,
        refl,
        refl,
      )

  -- A call of apply on a rotation either changes nothing, or does both of its halves: the old credential is revoked and otherwise as it was, and the new one is stored, not revoked, under the replacement's identifier, for the same subject and the same purpose.
  pub rotate-Rotated :
      (c : Conditions) (prepared : Prepared) (operation : Option Identifier) (slot : Option Secret)
      (db : TeamDb) (key replacement : Identifier)
      → prepared.command ≡ rotate key replacement
      → ((apply_with x c prepared operation slot db).db ≡ db)
        ⊎ Rotated key replacement db (apply_with x c prepared operation slot db).db
  rotate-Rotated c prepared operation slot db key replacement is_rotate =
      elim (apply_prepared-outcome x c (record prepared { operation = operation }) slot db) [
        | inl (same, _, _) ↦ inl same
        | inr (id, written, _, wrote, at_db, _) ↦
            let (commanded, secret, ran, _, (_, _, _, _, w)) =
              write_effect-Steps x c (record prepared { operation = operation }) id db written
                wrote in
            let t : (apply_with x c prepared operation slot db).db.credentials
                ≡ commanded.credentials =
              ap (λ d. d.credentials) at_db ∙ ap (λ v. v.db.credentials) w in
            let ran' : run_command x c id prepared.request_sha256 (rotate key replacement) db
                ≡ ok (secret, commanded) =
              ap (λ q. run_command x c id prepared.request_sha256 q db) (sym is_rotate) ∙ ran in
            let (old, new, read, (r, at_r, is_r), (s, at_s, is_s), i, o, p, l) =
              run_command-Rotated c id prepared.request_sha256 key replacement db secret commanded
                ran' in
            inr (old, new, read, (r, rw t at_r, is_r), (s, rw t at_s, is_s), i, o, p, l)
      ]
