-- ===== src/Management/Journal/Triples.antt =====
-- Rules for what holds after an action of crates/management/src/journal.rs, on success and on error.
use agent_response_gateway.Base.{
  ℕ, ◌≡◌, inl, inr, refl, Bool, true, false, Option, none, some, Result, ok, err, Bool-cases,
}
use agent_response_gateway.Management.Contract.{
  Error, Externals, Request, Prepared, Operation, Effect,
}
use agent_response_gateway.Management.Journal.Store.{Db}
use agent_response_gateway.Management.Journal.Machine.{
  Journal, M, ◌>>=◌, lift, query, or_error, replace_err, now, time, commit, committed, unconfirmed,
  called, prepare, reconcile_backend, continue,
}
use agent_response_gateway.Management.Journal.Writer.{refuse_if}

-- `Q` holds of the value and the state on success, and `E` of the state on an error.
abbrev pub Post :
    {A : Type 0} → (A → Journal → Type 0) → (Journal → Type 0) → Result Error A × Journal → Type 0
Post Q E (ok a, j) = Q a j
Post Q E (err e, j) = E j

module _ {A : Type 0} (Q : A → Journal → Type 0) (E : Journal → Type 0) where
  pub Post-weaken :
      (Q' : A → Journal → Type 0) (E' : Journal → Type 0) (r : Result Error A × Journal)
      → Post Q' E' r
      → ((a : A) (j : Journal) → Q' a j → Q a j)
      → ((j : Journal) → E' j → E j)
      → Post Q E r
  Post-weaken Q' E' (ok a, j) h f g = f a j h
  Post-weaken Q' E' (err e, j) h f g = g j h

  pub or_error-Post :
      (e : Error) (m : M A) (j : Journal) → Post Q E (m j) → Post Q E (or_error e m j)
  or_error-Post e m j h = replaced (m j) h
    where
      replaced : (r : Result Error A × Journal) → Post Q E r → Post Q E (replace_err e r.0, r.1)
      replaced (ok a, j') p = p
      replaced (err e', j') p = p

pub Post-always :
    {A : Type 0} (E : Journal → Type 0) (r : Result Error A × Journal) → Post (λ _. E) E r → E r.1
Post-always E (ok a, j) h = h
Post-always E (err e, j) h = h

module _ {A B : Type 0} (Q : A → Journal → Type 0) (R : B → Journal → Type 0)
    (E : Journal → Type 0) where
  pub continue-Post :
      (f : A → M B) (r : Result Error A × Journal)
      → Post Q E r
      → ((a : A) (j : Journal) → Q a j → Post R E (f a j))
      → Post R E (continue f r)
  continue-Post f (ok a, j) h k = k a j h
  continue-Post f (err e, j) h k = h

  pub bind-Post :
      (m : M A) (f : A → M B) (j : Journal)
      → Post Q E (m j)
      → ((a : A) (j' : Journal) → Q a j' → Post R E (f a j'))
      → Post R E ((m >>= f) j)
  bind-Post m f j h k = continue-Post f (m j) h k

module _ {A : Type 0} (E : Journal → Type 0) (j : Journal) (h : E j) where
  pub lift-Post : (r : Result Error A) → Post (λ a j'. (j' ≡ j) × (r ≡ ok a)) E (lift r j)
  lift-Post (ok a) = (refl, refl)
  lift-Post (err e) = h

  pub query-Post :
      (f : Db → Result Error A) → Post (λ a j'. (j' ≡ j) × (f j.db ≡ ok a)) E (query f j)
  query-Post f = lift-Post (f j.db)

module _ (E : Journal → Type 0) (j : Journal) where
  pub refuse_if-Post :
      (b : Bool) (e : Error) → E j → Post (λ _ j'. (j' ≡ j) × (b ≡ false)) E (refuse_if b e j)
  refuse_if-Post true e h = h
  refuse_if-Post false e h = (refl, refl)

-- The state after a transaction that succeeds.
abbrev pub Written : Journal → (Db → Result Error Db) → Unit {0} → Journal → Type 0
Written j statements _ j' =
    (db : Db) × (statements j.db ≡ ok db) × (j' ≡ record (called j) { db = db })

module _ (x : Externals) (E : Journal → Type 0) (j : Journal) (h : E (called j)) where
  pub now-Post : Post (λ ms j'. j' ≡ called j) E (now x j)
  unfolding now
  now-Post = timed (x.now j.calls)
    where
      timed : (o : Option ℕ) → Post (λ ms j'. j' ≡ called j) E (time o, called j)
      timed none = h
      timed (some ms) = refl

  pub prepare-Post : (request : Request) → Post (λ p j'. j' ≡ called j) E (prepare x request j)
  unfolding prepare
  prepare-Post request = prepared (x.prepare j.calls request)
    where
      prepared : (r : Result Error Prepared) → Post (λ p j'. j' ≡ called j) E (r, called j)
      prepared (ok p) = refl
      prepared (err e) = h

  pub reconcile_backend-Post :
      (operation : Operation) → Post (λ e j'. j' ≡ called j) E (reconcile_backend x operation j)
  unfolding reconcile_backend
  reconcile_backend-Post operation = answered (x.reconcile j.calls operation)
    where
      answered : (r : Result Error Effect) → Post (λ e j'. j' ≡ called j) E (r, called j)
      answered (ok e) = refl
      answered (err e) = h

  -- A transaction that reports an error has written nothing, or all of it.
  pub commit-Post :
      (statements : Db → Result Error Db)
      → ((db : Db) → statements j.db ≡ ok db → E (record (called j) { db = db }))
      → Post (Written j statements) E (commit x statements j)
  unfolding commit
  commit-Post statements late = elim (Bool-cases (x.write_succeeds j.calls)) [
    | inl yields ↦ rw yields (done (statements j.db))
    | inr fails ↦ rw fails (lost (x.write_is_kept j.calls) (statements j.db) late)
  ]
    where
      done :
          (r : Result Error Db)
          → Post
              (λ _ j'. (db : Db) × (r ≡ ok db) × (j' ≡ record (called j) { db = db }))
              E
              (committed x (called j) r)
      done (ok db) = (db, refl, refl)
      done (err e) = h

      lost :
          (kept : Bool) (r : Result Error Db)
          → ((db : Db) → r ≡ ok db → E (record (called j) { db = db }))
          → Post
              (λ _ j'. (db : Db) × (r ≡ ok db) × (j' ≡ record (called j) { db = db }))
              E
              (unconfirmed x kept (called j) r)
      lost true (ok db) late = late db refl
      lost true (err e) late = h
      lost false (ok db) late = h
      lost false (err e) late = h
