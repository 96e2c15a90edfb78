-- ===== src/Team/Issuance.antt =====
-- What `issue` in crates/team-access/src/store.rs has left when its call of `apply` answers with a secret.
use agent_response_gateway.Base.{
  ◌≡◌, refl, sym, arith, true, not, ◌||◌, ◌&&◌, Option, none, some, ◌==◌, Text, text_eq, inl, inr,
  ok, >>=-eq-ok, ok-injective, passed, ap, ◌∙◌, ◌++◌, is_empty,
}
use mathlib.Core.Path.{subst}
use agent_response_gateway.Base.Hex.{hex_of}
use agent_response_gateway.Management.Contract.{
  forbidden, storage, Identifier, Digest, Snapshot, Effect, digest_of, action_eq,
}
use agent_response_gateway.Team.Contract.{
  StoredCredential, TeamExternals, issue, Purpose, model, purpose_eq, prefix, Secret, Subject,
}
use agent_response_gateway.Team.Store.{
  TeamDb, credential, credential_digest, subject, validate_command, is_next,
}
use agent_response_gateway.Team.Manager.{
  issued, write_effect, run_command, issued_digest, evidence_for,
}
use agent_response_gateway.Team.Transaction.{
  Conditions, Prepared, run, insert_credential, key_clashes, insert_key, Written,
}
use agent_response_gateway.Team.Applied.{
  bumped, with_receipt, write_effect-Steps, apply_prepared-outcome,
}
use agent_response_gateway.Team.Reach.{apply_with}
use agent_response_gateway.Team.Receipts.{next_revision}
use agent_response_gateway.Team.Rotation.{issue_key-Holds}

pub insert_key-subjects :
    (c : Conditions) (value : StoredCredential) (db after : TeamDb)
    → insert_key c value db ≡ ok after
    → after.subjects ≡ db.subjects
unfolding insert_key
insert_key-subjects c value db after h =
    let (_, _, rest) = >>=-eq-ok (run c insert_credential) _ h in
    let (_, done) = passed (key_clashes value db) storage _ rest in
    sym (ap (λ d. d.subjects) (ok-injective done))

module _ (x : TeamExternals) where
  pub subject-same :
      (db after : TeamDb) (id : Identifier)
      → after.subjects ≡ db.subjects
      → subject x after id ≡ subject x db id
  unfolding subject
  subject-same db after id h = rw h refl

  pub issue_owner :
      (db : TeamDb) (owner key : Identifier) (purpose : Purpose)
      → validate_command x db (issue owner key purpose) ≡ ok tt
      → (found : Subject) × (subject x db owner ≡ ok found) × (found.permissions.enabled ≡ true)
  unfolding validate_command
  issue_owner db owner key purpose h =
      let (found, read, rest) = >>=-eq-ok (subject x db owner) _ h in
      let (may, _) =
        passed
          (not found.permissions.enabled || (purpose == model && is_empty found.permissions.routes))
          forbidden _ rest in
      (found, read, ground arith)

  issued_secret :
      (c : Conditions) (owner key : Identifier) (purpose : Purpose) (operation : Identifier)
      (sha256 : Digest) (random : Text) (db : TeamDb) (secret : Option Secret) (next : TeamDb)
      → c.random ≡ some random
      → run_command x c operation sha256 (issue owner key purpose) db ≡ ok (secret, next)
      → (secret ≡ some (record { value = prefix purpose ++ hex_of random; credential = key }))
        × (insert_key c
              (issued x owner key purpose operation sha256 (prefix purpose ++ hex_of random))
              db
            ≡ ok next)
  unfolding run_command
  issued_secret c owner key purpose operation sha256 random db secret next drawn h =
      let (found, again, is_secret, inserted) =
        issue_key-Holds x c owner key purpose operation sha256 db secret next h in
      let same : found ≡ random = cc in
      (
        is_secret
            ∙ ap (λ r. some (record { value = prefix purpose ++ hex_of r; credential = key })) same,
        ap
              (λ r.
                insert_key c
                  (issued x owner key purpose operation sha256 (prefix purpose ++ hex_of r)) db)
              (sym same)
            ∙ inserted,
      )

  pub digest_of_issued :
      (db : TeamDb) (value : StoredCredential) (secret : Option Secret) (raw : Text)
      {issued_sha256 : Option Digest}
      → secret ≡ some (record { value = raw; credential = value.metadata.id })
      → credential x db value.metadata.id ≡ ok value
      → issued_digest x db secret ≡ ok issued_sha256
      → issued_sha256 ≡ some (credential_digest x value)
  unfolding issued_digest
  digest_of_issued db value secret raw is_secret read h =
      sym (ok-injective (sym (rw (is_secret, read) refl) ∙ h))

  applied_with_secret :
      (c : Conditions) (prepared : Prepared) (id : Identifier) (db : TeamDb) (secret : Secret)
      → (apply_with x c prepared (some id) none db).secret ≡ some secret
      → (written : Written) × (write_effect x c (record prepared { operation = some id }) id db
          ≡ ok written)
        × ((apply_with x c prepared (some id) none db).db ≡ written.db)
        × ((apply_with x c prepared (some id) none db).effect
            ≡ Effect.applied written.after written.sha256)
        × (written.secret ≡ some secret)
  applied_with_secret c prepared id db secret h =
      elim (apply_prepared-outcome x c (record prepared { operation = some id }) none db) [
        | inl (_, slot, _) ↦ cc
        | inr (operation, written, o, wrote, at_db, inl (e, s)) ↦
            let same : operation ≡ id = cc in
            (
              written,
              subst
                  (λ k.
                    write_effect x c (record prepared { operation = some id }) k db ≡ ok written)
                  same wrote,
              at_db,
              e,
              sym s ∙ h,
            )
        | inr (operation, written, o, wrote, at_db, inr (e, s)) ↦ cc
      ]

  -- The tables, the effect and the secret after an issuance.
  pub record IssuedAs (owner key : Identifier) (purpose : Purpose) (prepared : Prepared)
      (op : Identifier) (random : Text) (db : TeamDb) (c : Conditions) (secret : Secret)
      : Type 0 where
    pub value : StoredCredential
    pub is_value :
        value
        ≡ issued x owner key purpose op prepared.request_sha256 (prefix purpose ++ hex_of random)
    pub commanded : TeamDb
    pub inserted : insert_key c value db ≡ ok commanded
    pub text : secret.value ≡ prefix purpose ++ hex_of random
    pub after : Snapshot
    pub issued_sha256 : Option Digest
    pub digested :
        issued_digest x
          (bumped commanded)
          (some (record { value = prefix purpose ++ hex_of random; credential = key }))
        ≡ ok issued_sha256
    pub at_db :
        (apply_with x c prepared (some op) none db).db
        ≡ with_receipt (evidence_for x prepared op after issued_sha256) (bumped commanded)
    pub effect :
        (apply_with x c prepared (some op) none db).effect
        ≡ Effect.applied after
            (digest_of x.journal (x.evidence_json (evidence_for x prepared op after issued_sha256)))
    pub counted :
        prepared.before.revision ≡ db.generation
        → is_next prepared.before.revision after.revision ≡ true

  pub issuance :
      (owner key : Identifier) (purpose : Purpose) (prepared : Prepared) (op : Identifier)
      (random : Text) (db : TeamDb) (c : Conditions) (secret : Secret)
      → prepared.command ≡ issue owner key purpose
      → c.random ≡ some random
      → (apply_with x c prepared (some op) none db).secret ≡ some secret
      → IssuedAs owner key purpose prepared op random db c secret
  issuance owner key purpose prepared op random db c secret is_issue drawn is_secret =
      let q : Prepared = record prepared { operation = some op } in
      let (written, wrote, here, effect, is_written) =
        applied_with_secret c prepared op db secret is_secret in
      let (commanded, drawn_secret, ran, room, (after, issued_sha256, seen, digested, w)) =
        write_effect-Steps x c q op db written wrote in
      let ran' : run_command x c op prepared.request_sha256 (issue owner key purpose) db
          ≡ ok (drawn_secret, commanded) =
        ap (λ k. run_command x c op prepared.request_sha256 k db) (sym is_issue) ∙ ran in
      let (secret_is, inserted) =
        issued_secret c owner key purpose op prepared.request_sha256 random db drawn_secret
          commanded drawn ran' in
      record {
        value =
            issued x owner key purpose op prepared.request_sha256 (prefix purpose ++ hex_of random);
        is_value = refl;
        commanded = commanded;
        inserted = inserted;
        text = let t = sym is_written ∙ ap (λ v. v.secret) w ∙ secret_is in cc;
        after = after;
        issued_sha256 = issued_sha256;
        digested =
            subst (λ k. issued_digest x (bumped commanded) k ≡ ok issued_sha256) secret_is digested;
        at_db = here ∙ ap (λ v. v.db) w;
        effect = effect ∙ ap (λ v. Effect.applied v.after v.sha256) w;
        counted = λ first.
            next_revision x c q op db commanded drawn_secret prepared.before after ran room first
              seen;
      }
