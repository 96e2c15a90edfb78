-- ===== src/Management/Journal/Machine.antt =====
-- The methods of `Journal` (crates/management/src/journal.rs) as actions on its database and its
-- surroundings. An action that fails still returns the state that it left.
use agent_response_gateway.Base.{
  ℕ, ◌+◌, Bool, true, Option, none, some, List, ◌∷◌, Result, ok, err, if◌then◌else◌,
}
use agent_response_gateway.Management.Contract.{
  Error, storage, Identifier, Prepared, Request, Effect, Operation, Externals,
}
use agent_response_gateway.Management.Journal.Store.{Db}

-- `calls` counts the uses of the surroundings; `effects` lists, latest first, the operations for
-- which the adapter's `apply` was called.
pub record Journal : Type 0 where
  pub db : Db
  pub calls : ℕ
  pub effects : List Identifier

abbrev pub M {ℓ} : Type ℓ → Type ℓ
M A = Journal → Result Error A × Journal

module _ {A B : Type 0} where
  abbrev pub continue : (A → M B) → Result Error A × Journal → Result Error B × Journal
  continue f (ok a, j) = f a j
  continue f (err e, j) = (err e, j)

  infixl 5 ◌>>=◌ ◌>>◌
  abbrev pub ◌>>=◌ : M A → (A → M B) → M B
  ◌>>=◌ m f j = continue f (m j)

  abbrev pub ◌>>◌ : M A → M B → M B
  m >> n = m >>= λ _. n

module _ {A : Type 0} where
  abbrev pub pure : A → M A
  pure a j = (ok a, j)

  abbrev pub lift : Result Error A → M A
  lift r j = (r, j)

  -- A question to the database.
  abbrev pub query : (Db → Result Error A) → M A
  query f j = (f j.db, j)

  -- `map_err` with the error replaced
  abbrev pub replace_err : Error → Result Error A → Result Error A
  replace_err e (ok a) = ok a
  replace_err e (err _) = err e

  abbrev pub or_error : Error → M A → M A
  or_error e m j = let (r, j') = m j in (replace_err e r, j')

abbrev pub called : Journal → Journal
called j = record j { calls = j.calls + 1 }

abbrev pub time : Option ℕ → Result Error ℕ
time none = err storage
time (some ms) = ok ms

module _ (x : Externals) where
  -- `now()`
  unfoldable pub now : M ℕ
  now j = (time (x.now j.calls), called j)

  -- `uuid::Uuid::new_v4`
  abbrev pub fresh_uuid : M (List ℕ)
  fresh_uuid j = (ok (x.uuid j.calls), called j)

  abbrev pub committed : Journal → Result Error Db → Result Error (Unit {0}) × Journal
  committed j (err e) = (err e, j)
  committed j (ok db) = (ok tt, record j { db = db })

  -- A write that reports an error, and may have been durable.
  abbrev pub unconfirmed : Bool → Journal → Result Error Db → Result Error (Unit {0}) × Journal
  unconfirmed true j (ok db) = (err storage, record j { db = db })
  unconfirmed _ j _ = (err storage, j)

  -- A transaction: its statements, and the commit that the storage may report as failed.
  unfoldable pub commit : (Db → Result Error Db) → M (Unit {0})
  commit statements j =
      if x.write_succeeds j.calls
      then committed (called j) (statements j.db)
      else unconfirmed (x.write_is_kept j.calls) (called j) (statements j.db)

  -- `backend.prepare(request)`
  unfoldable pub prepare : Request → M Prepared
  prepare request j = (x.prepare j.calls request, called j)

  -- `backend.reconcile(&operation)`
  unfoldable pub reconcile_backend : Operation → M Effect
  reconcile_backend operation j = (x.reconcile j.calls operation, called j)

-- `prepared.apply()`
unfoldable pub apply_effect : Identifier → Prepared → M Effect
apply_effect id prepared j = (ok prepared.apply, record j { effects = id ∷ j.effects })
