-- ===== src/Management/Journal/Reads.antt =====
-- What `Reader` of crates/management/src/journal.rs gives to an actor.
use agent_response_gateway.Base.{
  ℕ, zero, suc, ◌+◌, ◌-◌, ◌^◌, ◌≤◌, ◌<◌, ◌≡◌, refl, arith, true, false, ◌||◌, ◌&&◌, List, [], ◌∷◌,
  ltb, ◌==◌, ◌!=◌, nat_eq, eq_of_==, Text, ◌⊎◌, Bool-cases, inl, inr, length, ok, is_ok, >>=-eq-ok,
  reject_if, reject_if-eq_ok, map_err,
}
use agent_response_gateway.Management.Contract.{
  not_found, invalid_store, invalid_input, Operation, Identifier, id_eq, new_id, Action, Externals,
  Actor, authorize,
}
use agent_response_gateway.Management.Journal.Store.{Db, OperationRow}
use agent_response_gateway.Management.Journal.Recorded.{recorded}
use agent_response_gateway.Management.Journal.Reader.{targets, page, get_operation, read_page, list}

-- Each ordinal is above the one before, and the first is above `after`.
abbrev pub Ascending : {A : Type 0} → ℕ → List (ℕ × A) → Type 0
Ascending after [] = Unit
Ascending after ((n, _) ∷ rows) = (after < n) × Ascending n rows

not_different : (a b : Identifier) → (a != b) ≡ false → a ≡ b
not_different a b h = elim (Bool-cases (a == b)) [
  | inl same ↦ eq_of_== a b same
  | inr other ↦ absurd (let h' : true ≡ false = rw other at h in cc)
]

page-length :
    (target : Identifier) (after limit rowid : ℕ) (rows : List OperationRow)
    → length (page target after limit rowid rows) ≤ limit
unfolding page
page-length target after zero rowid rows = omega arith
page-length target after (suc limit) rowid [] = omega arith
page-length target after (suc limit) rowid (row ∷ rows) =
    elim (Bool-cases (ltb after rowid && targets target row.intent)) [
      | inl taken ↦ rw taken (omega (arith, page-length target after limit (rowid + 1) rows))
      | inr left ↦ rw left (page-length target after (suc limit) (rowid + 1) rows)
    ]

next_ordinal :
    {low after rowid : ℕ} → (low < rowid) ⊎ (low ≡ after) → (low < rowid + 1) ⊎ (low ≡ after)
next_ordinal (inl h) = inl (omega arith)
next_ordinal (inr h) = inr h

above_low : {low after rowid : ℕ} → (low < rowid) ⊎ (low ≡ after) → after < rowid → low < rowid
above_low (inl h) a = h
above_low (inr h) a = omega arith

-- `low` is the ordinal before the page's first, or `after`.
page-Ascending :
    (target : Identifier) (after limit rowid low : ℕ) (rows : List OperationRow)
    → (low < rowid) ⊎ (low ≡ after)
    → Ascending low (page target after limit rowid rows)
unfolding page
page-Ascending target after zero rowid low rows b = tt
page-Ascending target after (suc limit) rowid low [] b = tt
page-Ascending target after (suc limit) rowid low (row ∷ rows) b =
    elim (Bool-cases (ltb after rowid && targets target row.intent)) [
      | inl taken ↦ rw taken (
          let above : after < rowid = ground arith in
          (
            above_low b above,
            page-Ascending target after limit (rowid + 1) rowid rows (inl (omega arith)),
          ))
      | inr left ↦
          rw left (page-Ascending target after (suc limit) (rowid + 1) low rows (next_ordinal b))
    ]

small_limit :
    (after limit : ℕ)
    → (ltb (2 ^ 63 - 1) after || (limit == 0 || ltb 100 limit)) ≡ false
    → limit ≤ 100
small_limit after limit h = ground arith

module _ (x : Externals) (db : Db) where
  -- The operations of a page stand under the page's ordinals.
  read_page-Ascending :
      (rows : List (ℕ × Text)) (entries : List (ℕ × Operation)) (low : ℕ)
      → read_page x db rows ≡ ok entries
      → Ascending low rows
      → (length entries ≡ length rows) × Ascending low entries
  unfolding read_page
  read_page-Ascending [] entries low h a = let e : [] ≡ entries = cc in rw (← e) (refl, tt)
  read_page-Ascending ((n, text) ∷ rows) entries low h a =
      let (id, i, h1) = >>=-eq-ok (map_err (λ _. invalid_store) (new_id text)) _ h in
      let (op, r, h2) = >>=-eq-ok (recorded x db id) _ h1 in
      let (rest, p, h3) = >>=-eq-ok (read_page x db rows) _ h2 in
      let (same, above) = read_page-Ascending rows rest n p a.1 in
      let e : (n, op) ∷ rest ≡ entries = cc in rw (← e) (rw same refl, (a.0, above))

  -- Only an actor that holds the grant to read the target's operations gets a list of them. The list
  -- has at most `limit` entries, at most 100, in the order of their ordinals, all above `after`.
  pub list-ok :
      (actor : Actor) (target : Identifier) (after limit : ℕ) (entries : List (ℕ × Operation))
      → list x db actor target after limit ≡ ok entries
      → (is_ok (authorize actor Action.read_operations target) ≡ true)
        × (length entries ≤ limit)
        × (limit ≤ 100)
        × Ascending after entries
  unfolding list
  list-ok actor target after limit entries h =
      let (g, granted, h1) = >>=-eq-ok (authorize actor Action.read_operations target) _ h in
      let (u, good, h2) =
        >>=-eq-ok
          (reject_if (ltb (2 ^ 63 - 1) after || (limit == 0 || ltb 100 limit)) invalid_input) _
          h1 in
      let within = reject_if-eq_ok _ _ good in
      let (same, above) =
        read_page-Ascending (page target after limit 1 db.operations) entries after h2
          (page-Ascending target after limit 1 after db.operations (inr refl)) in
      (
        rw granted refl,
        omega (arith, page-length target after limit 1 db.operations),
        small_limit after limit within,
        above,
      )

  -- Only an actor that holds the grant to read a target's operations gets an operation, and it is
  -- the recorded one and the target's own.
  pub get_operation-ok :
      (actor : Actor) (target id : Identifier) (op : Operation)
      → get_operation x db actor target id ≡ ok op
      → (is_ok (authorize actor Action.read_operations target) ≡ true)
        × (recorded x db id ≡ ok op)
        × (op.request.target ≡ target)
  unfolding get_operation
  get_operation-ok actor target id op h =
      let (g, granted, h1) = >>=-eq-ok (authorize actor Action.read_operations target) _ h in
      let (o, read, h2) = >>=-eq-ok (recorded x db id) _ h1 in
      let (u, good, h3) = >>=-eq-ok (reject_if (o.request.target != target) not_found) _ h2 in
      let same : o ≡ op = cc in
      (
        rw granted refl,
        rw (← same) read,
        rw (← same) (not_different o.request.target target (reject_if-eq_ok _ _ good)),
      )
