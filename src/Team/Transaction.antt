-- ===== src/Team/Transaction.antt =====
-- The transaction of `apply` in crates/team-access/src/store.rs: its statements and its ends.
use agent_response_gateway.Base.{
  ◌+◌, ◌-◌, ◌^◌, Bool, true, false, not, ◌||◌, Option, ltb, ◌==◌, nat_eq, Text, text_eq, Result, ok,
  err, ◌>>◌, reject_if,
}
use agent_response_gateway.Base.Tables.{contains_key, any_value}
use agent_response_gateway.Base.Ordered.{insert_row, modify_row}
use agent_response_gateway.Management.Contract.{
  Error, conflict, storage, action_eq, Digest, digest_eq, Identifier, id_eq, Snapshot, Effect,
  unverified, effect_failed, state_eq,
}
use agent_response_gateway.Management.Journal.Store.{json}
use agent_response_gateway.Team.Contract.{Command, Subject, StoredCredential, Secret}
use agent_response_gateway.Team.Store.{TeamDb}

-- The statements of a transaction.
pub data Statement : Type 0 where
  write_subject update_credential insert_credential next_generation insert_receipt : Statement

-- What happens around one call of `apply`: the random bytes, and which of its writes succeed.
-- A commit that reports an error may have been durable: `commits_unseen`.
pub record Conditions : Type 0 where
  pub random : Option Text
  pub writes : Statement → Bool
  pub commits : Bool
  pub commits_unseen : Bool
  pub rolls_back : Bool

-- `Prepared`, without the slot for the secret; `is_taken` when its transaction has ended.
pub record Prepared : Type 0 where
  pub is_taken : Bool
  pub command : Command
  pub before : Snapshot
  pub request_sha256 : Digest
  pub operation : Option Identifier

abbrev pub run : Conditions → Statement → Result Error (Unit {0})
run c statement = reject_if (not (c.writes statement)) storage

-- UPDATE metadata SET generation=generation+1 WHERE singleton=1 AND generation<9223372036854775807
unfoldable pub bump : Conditions → TeamDb → Result Error TeamDb
bump c db = do
  run c next_generation
  reject_if (not (ltb db.generation (2 ^ 63 - 1))) conflict
  ok (record db { generation = db.generation + 1 })

-- INSERT INTO subjects
unfoldable pub insert_subject : Conditions → Subject → TeamDb → Result Error TeamDb
insert_subject c value db = do
  run c write_subject
  reject_if (contains_key value.id.value db.subjects) storage
  ok (record db { subjects = insert_row value.id.value (json value) db.subjects })

abbrev pub key_clashes : StoredCredential → TeamDb → Bool
key_clashes value db =
    contains_key value.metadata.id.value db.credentials
    || any_value (λ row. row.verifier == value.verifier.value) db.credentials

-- INSERT INTO credentials: `id` is the primary key, and `verifier` is unique.
unfoldable pub insert_key : Conditions → StoredCredential → TeamDb → Result Error TeamDb
insert_key c value db = do
  run c insert_credential
  reject_if (key_clashes value db) storage
  ok (record db {
    credentials =
        insert_row value.metadata.id.value
          (record { verifier = value.verifier.value; document = json value }) db.credentials;
  })

-- UPDATE credentials SET data=?2 WHERE id=?1
unfoldable pub update_key : StoredCredential → TeamDb → TeamDb
update_key value db = record db {
  credentials =
      modify_row value.metadata.id.value (λ row. record row { document = json value })
        db.credentials;
}

abbrev pub as_revoked : StoredCredential → StoredCredential
as_revoked value = record value { metadata = record value.metadata { revoked = true } }

pub record Written : Type 0 where
  pub after : Snapshot
  pub sha256 : Digest
  pub secret : Option Secret
  pub db : TeamDb

-- What `apply` leaves: the effect, the tables, and the slot for the secret.
pub record Applied : Type 0 where
  pub effect : Effect
  pub db : TeamDb
  pub secret : Option Secret

-- `match tx.rollback()` and `match tx.commit()`
unfoldable pub roll_back : Bool → Option Secret → TeamDb → Applied
roll_back true slot db = record {
  effect = Effect.not_applied effect_failed;
  db = db;
  secret = slot;
}
roll_back false slot db = record { effect = Effect.uncertain unverified; db = db; secret = slot }

unfoldable pub commit_written : (commits unseen : Bool) → Option Secret → TeamDb → Written → Applied
commit_written true unseen slot db written = record {
  effect = Effect.applied written.after written.sha256;
  db = written.db;
  secret = written.secret;
}
commit_written false true slot db written = record {
  effect = Effect.uncertain unverified;
  db = written.db;
  secret = slot;
}
commit_written false false slot db written = record {
  effect = Effect.uncertain unverified;
  db = db;
  secret = slot;
}

unfoldable pub end_transaction :
    Conditions → Option Secret → TeamDb → Result Error Written → Applied
unfolding roll_back commit_written
end_transaction c slot db (err _) = roll_back c.rolls_back slot db
end_transaction c slot db (ok written) = commit_written c.commits c.commits_unseen slot db written

-- What a second `apply` finds.
abbrev pub ended : Option Secret → TeamDb → Applied
ended slot db = record { effect = Effect.uncertain unverified; db = db; secret = slot }
