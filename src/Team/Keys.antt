-- ===== src/Team/Keys.antt =====
-- What the statements of crates/team-access/src/store.rs do to the rows of `credentials`.
use agent_response_gateway.Base.{
  or_false, ◌≡◌, refl, false, ◌||◌, Option, none, some, ◌==◌, eq_of_==, ==_refl, Text, text_eq,
  Bool-cases, inl, inr, ok, >>=-eq-ok, passed, is_some,
}
use agent_response_gateway.Base.Tables.{get, contains_key, any_value}
use agent_response_gateway.Base.Ordered.{insert_row, get-insert_row, get-modify_row}
use agent_response_gateway.Management.Contract.{storage}
use agent_response_gateway.Management.Journal.Store.{json}
use agent_response_gateway.Team.Contract.{StoredCredential}
use agent_response_gateway.Team.Store.{TeamDb, CredentialRow}
use agent_response_gateway.Team.Transaction.{
  Conditions, run, insert_credential, insert_key, update_key,
}
use agent_response_gateway.Team.Authentic.{Holds}

pub absent-none : {V : Type 0} (o : Option V) → is_some o ≡ false → o ≡ none
absent-none none h = refl
absent-none (some v) h = cc

-- An inserted credential has a new key, and every other row is as before.
pub insert_key-ok :
    (c : Conditions) (value : StoredCredential) (db after : TeamDb)
    → insert_key c value db ≡ ok after
    → (get value.metadata.id.value db.credentials ≡ none)
      × Holds after value
      × ((i : Text) (row : CredentialRow)
          → get i db.credentials ≡ some row
          → get i after.credentials ≡ some row)
unfolding insert_key contains_key
insert_key-ok c value db after h =
    let (_, _, rest) = >>=-eq-ok (run c insert_credential) _ h in
    let key = value.metadata.id.value in
    let clash =
      contains_key key db.credentials
      || any_value (λ row. row.verifier == value.verifier.value) db.credentials in
    let (fresh, done) = passed clash storage _ rest in
    let new : CredentialRow = record { verifier = value.verifier.value; document = json value } in
    let missing = absent-none (get key db.credentials) (or_false fresh).0 in
    let e : record db { credentials = insert_row key new db.credentials } ≡ after = cc in
    rw (← e) (
      missing,
      (new, rw (get-insert_row key key new db.credentials missing) (rw (==_refl key) refl), refl),
      λ i row found.
          rw (get-insert_row key i new db.credentials missing) (elim (Bool-cases (key == i)) [
            | inl same ↦ absurd (
                let k : key ≡ i = eq_of_== key i same in
                let n : get i db.credentials ≡ none = rw (← k) missing in cc)
            | inr other ↦ rw other found
          ]),
    )

-- A revocation marks the row, and every other row is as before.
pub update_key-row :
    (value : StoredCredential) (db : TeamDb) {row : CredentialRow}
    → get value.metadata.id.value db.credentials ≡ some row
    → get value.metadata.id.value (update_key value db).credentials
      ≡ some (record row { document = json value })
unfolding update_key
update_key-row value db {row} h =
    let key = value.metadata.id.value in
    rw (get-modify_row key key (λ r. record r { document = json value }) db.credentials)
      (rw (==_refl key) (rw h refl))

pub update_key-other :
    (value : StoredCredential) (db : TeamDb) (i : Text)
    → (value.metadata.id.value == i) ≡ false
    → get i (update_key value db).credentials ≡ get i db.credentials
unfolding update_key
update_key-other value db i other =
    let key = value.metadata.id.value in
    rw (get-modify_row key i (λ r. record r { document = json value }) db.credentials)
      (rw other refl)
