-- ===== src/Management/Journal/Reader.antt =====
-- `Reader` of crates/management/src/journal.rs: reads under an actor's grants.
use agent_response_gateway.Base.{
  ℕ, ◌+◌, ◌-◌, ◌^◌, zero, suc, Bool, false, ◌||◌, ◌&&◌, List, [], ◌∷◌, ltb, ◌==◌, ◌!=◌, nat_eq,
  text_eq, Text, Result, ok, ◌>>=◌, ◌>>◌, reject_if, map_err, if◌then◌else◌,
}
use agent_response_gateway.Management.Contract.{
  Error, not_found, invalid_store, invalid_input, Operation, Identifier, id_eq, new_id, Action,
  Externals, Actor, authorize,
}
use agent_response_gateway.Management.Journal.Store.{Db, OperationRow, Document, json, garbage}
use agent_response_gateway.Management.Journal.Recorded.{recorded}

abbrev pub targets : Identifier → Document Operation → Bool
targets target (json operation) = operation.request.target == target
targets target garbage = false

-- SELECT rowid,id FROM operations WHERE rowid>?1 AND json_extract(intent,'$.request.target')=?2
-- ORDER BY rowid LIMIT ?3. No row is ever deleted, so the row ids count the insertions from 1.
unfoldable pub page : Identifier → ℕ → ℕ → ℕ → List OperationRow → List (ℕ × Text)
page target after zero rowid rows = []
page target after (suc limit) rowid [] = []
page target after (suc limit) rowid (row ∷ rows) =
    let rest = page target after (suc limit) (rowid + 1) rows in
    let found = (rowid, row.id) ∷ page target after limit (rowid + 1) rows in
    if ltb after rowid && targets target row.intent then found else rest

module _ (x : Externals) where
  -- `Reader::get`
  unfoldable pub get_operation : Db → Actor → Identifier → Identifier → Result Error Operation
  get_operation db actor target id = do
    _ ← authorize actor Action.read_operations target
    operation ← recorded x db id
    reject_if (operation.request.target != target) not_found
    ok operation

  unfoldable pub read_page : Db → List (ℕ × Text) → Result Error (List (ℕ × Operation))
  read_page db [] = ok []
  read_page db ((ordinal, text) ∷ rows) = do
    id ← map_err (λ _. invalid_store) (new_id text)
    operation ← recorded x db id
    rest ← read_page db rows
    ok ((ordinal, operation) ∷ rest)

  -- `Reader::list`
  unfoldable pub list : Db → Actor → Identifier → ℕ → ℕ → Result Error (List (ℕ × Operation))
  unfolding page read_page
  list db actor target after limit = do
    _ ← authorize actor Action.read_operations target
    reject_if (ltb (2 ^ 63 - 1) after || (limit == 0 || ltb 100 limit)) invalid_input
    read_page db (page target after limit 1 db.operations)
