-- ===== src/Editing/Operations.antt =====
-- src/editing/operations.rs: bundles of file operations, as a patch and back.
use agent_response_gateway.Base.{
  ℕ, ◌+◌, Bool, ◌||◌, Option, none, some, List, [], ◌∷◌, ◌++◌, ltb, ◌!=◌, nat_eq, text_eq, Text,
  bytes, length, is_empty, any, Result, ok, err, ◌>>=◌, ◌>>◌, reject_if, ok_or, if◌then◌else◌,
}
use agent_response_gateway.Base.Strings.{strip_prefix, starts_with}
use agent_response_gateway.Base.Lines.{strip_suffix, split_terminator}
use agent_response_gateway.Ir.{IrError, size_limit}
use agent_response_gateway.Ir.Grammar.{
  then_strip_suffix, too_long, codex_patch_v1, validate_grammar,
}
use agent_response_gateway.Editing.Context.{
  ContextEdit, invalid, bad_path, has_break, begin_patch, end_patch, update_file, hunk_mark, marked,
}
use agent_response_gateway.Editing.Rendered.{rendered}
use agent_response_gateway.Editing.Context
use agent_response_gateway.Editing.Paths.{join, overlaps, path_key}

pub data Operation : Type 0 where
  create : Text → List Text → Operation
  delete : Text → Operation
  move : Text → Text → List Text → Operation
  update : ContextEdit → Operation

abbrev pub touched : Operation → List Text
touched (create path _) = path ∷ []
touched (delete path) = path ∷ []
touched (move source destination _) = source ∷ destination ∷ []
touched (update edit) = edit.path ∷ []

unfoldable pub lines_valid : List Text → Result IrError (Unit {0})
lines_valid lines =
    reject_if (is_empty lines || (ltb 16384 (length lines) || any has_break lines)) invalid

abbrev pub unwrapped : Text → Option Text
unwrapped compiled = then_strip_suffix end_patch (strip_prefix begin_patch compiled)

-- What one operation writes, and the number of its lines.
unfoldable pub written : Operation → Result IrError (Text × ℕ)
unfolding lines_valid strip_prefix strip_suffix Context.compile
written (create path lines) = do
  lines_valid lines
  ok (bytes "*** Add File: " ++ path ++ bytes "\n" ++ rendered b'+' lines, length lines)
written (delete path) = ok (bytes "*** Delete File: " ++ path ++ bytes "\n", 0)
written (move source destination context) = do
  lines_valid context
  ok (
    update_file
        ++ source
        ++ bytes "\n*** Move to: "
        ++ destination
        ++ hunk_mark
        ++ rendered b' ' context,
    length context,
  )
written (update edit) = do
  compiled ← Context.compile edit
  body ← ok_or (unwrapped compiled) invalid
  ok (
    body,
    length edit.before_context
        + (length edit.old_lines + (length edit.new_lines + length edit.after_context)),
  )

abbrev pub is_header : Text → Bool
is_header line =
    starts_with (bytes "*** Add File: ") line
    || (starts_with (bytes "*** Delete File: ") line || starts_with update_file line)

-- The lines before the first header, and from each header the lines up to the next.
unfoldable pub grouped : List Text → List Text × List (Text × List Text)
grouped [] = ([], [])
grouped (line ∷ lines) =
    let (lead, chunks) = grouped lines in
    if is_header line then ([], (line, lead) ∷ chunks) else (line ∷ lead, chunks)

unfoldable pub chunks_of : List Text → List (Text × List Text)
unfolding grouped
chunks_of [] = []
chunks_of (line ∷ lines) = let (lead, chunks) = grouped lines in (line, lead) ∷ chunks

unfoldable pub unmarked : ℕ → List Text → Result IrError (List Text)
unfolding strip_prefix
unmarked prefix [] = ok []
unmarked prefix (line ∷ lines) = do
  text ← ok_or (strip_prefix (prefix ∷ []) line) invalid
  rest ← unmarked prefix lines
  ok (text ∷ rest)

unfoldable pub read_move : Text → Text → List Text → Result IrError Operation
unfolding unmarked
read_move source destination [] = err invalid
read_move source destination (mark ∷ lines) = do
  reject_if (mark != bytes "@@") invalid
  context ← unmarked b' ' lines
  ok (move source destination context)

abbrev pub as_update : Result IrError ContextEdit → Result IrError Operation
as_update (ok edit) = ok (update edit)
as_update (err e) = err e

-- `format!("*** Begin Patch\n{}\n*** End Patch", chunk.join("\n"))`
unfoldable pub read_edit : Text → List Text → Result IrError Operation
unfolding Context.from_patch
read_edit line lines = as_update (
    Context.from_patch (begin_patch ++ join (bytes "\n") (line ∷ lines) ++ bytes "\n" ++ end_patch))

unfoldable pub read_update : Text → Text → List Text → Result IrError Operation
unfolding strip_prefix read_move read_edit
read_update line source [] = read_edit line []
read_update line source (next ∷ lines) = elim (strip_prefix (bytes "*** Move to: ") next) [
  | some destination ↦ read_move source destination lines
  | none ↦ read_edit line (next ∷ lines)
]

unfoldable pub read_other : Text → List Text → Result IrError Operation
unfolding strip_prefix read_update
read_other line lines = elim (strip_prefix (bytes "*** Delete File: ") line) [
  | some path ↦ if is_empty lines then ok (delete path) else err invalid
  | none ↦ elim (strip_prefix update_file line) [
    | some source ↦ read_update line source lines
    | none ↦ err invalid
  ]
]

unfoldable pub read_added : Text → List Text → Result IrError Operation
unfolding unmarked
read_added path lines = do added ← unmarked b'+' lines; ok (create path added)

-- The operation of a chunk.
unfoldable pub read_chunk : Text → List Text → Result IrError Operation
unfolding strip_prefix read_added read_other
read_chunk line lines = elim (strip_prefix (bytes "*** Add File: ") line) [
  | some path ↦ read_added path lines
  | none ↦ read_other line lines
]

unfoldable pub read_chunks :
    List (Text × List Text) → List Operation → Result IrError (List Operation)
unfolding read_chunk
read_chunks [] operations = ok operations
read_chunks ((line, lines) ∷ chunks) operations = do
  operation ← read_chunk line lines
  reject_if (ltb 64 (length (operations ++ operation ∷ []))) size_limit
  read_chunks chunks (operations ++ operation ∷ [])

-- The parameter is `str::to_lowercase`, whose table of characters is the standard library's.
module _ (to_lowercase : Text → Text) where
  unfoldable pub touch : List Text → List Text → Result IrError (List Text)
  unfolding path_key
  touch [] paths = ok paths
  touch (path ∷ rest) paths = do
    key ← path_key to_lowercase path
    reject_if (any (overlaps key) paths) invalid
    touch rest (paths ++ key ∷ [])

  -- The loop of `compile`
  unfoldable pub push_operations : List Operation → List Text → Text → ℕ → Result IrError Text
  unfolding touch written
  push_operations [] paths patch count = ok patch
  push_operations (operation ∷ operations) paths patch count = do
    after ← touch (touched operation) paths
    (text, lines) ← written operation
    reject_if (too_long (patch ++ text) || ltb 16384 (count + lines)) size_limit
    push_operations operations after (patch ++ text) (count + lines)

  -- `OperationBundle::compile`
  unfoldable pub compile_bundle : List Operation → Result IrError Text
  unfolding push_operations validate_grammar
  compile_bundle operations = do
    reject_if (is_empty operations || ltb 64 (length operations)) invalid
    patch ← push_operations operations [] begin_patch 0
    reject_if (too_long (patch ++ end_patch)) size_limit
    validate_grammar codex_patch_v1 (patch ++ end_patch)
    ok (patch ++ end_patch)

  -- `OperationBundle::from_patch`
  unfoldable pub bundle_from_patch : Text → Result IrError (List Operation)
  unfolding strip_prefix strip_suffix split_terminator chunks_of read_chunks compile_bundle
  bundle_from_patch patch = do
    reject_if (too_long patch) size_limit
    body ← ok_or (unwrapped patch) invalid
    operations ← read_chunks (chunks_of (split_terminator body)) []
    compiled ← compile_bundle operations
    reject_if (compiled != patch) invalid
    ok operations
