-- ===== src/Editing/Paths.antt =====
-- Which paths are the same, in src/editing/operations.rs.
use agent_response_gateway.Base.{
  Bool, false, ◌||◌, Option, none, some, List, [], ◌∷◌, ◌++◌, ◌==◌, nat_eq, text_eq, Text, bytes,
  is_empty, Result, ok, err, ◌>>=◌, ◌>>◌, reject_if, ok_or, if◌then◌else◌,
}
use agent_response_gateway.Base.Strings.{starts_with}
use agent_response_gateway.Base.Lines.{with_first}
use agent_response_gateway.Ir.{IrError}
use agent_response_gateway.Editing.Context.{invalid, bad_path}

-- `split('/')`
unfoldable pub split_slash : Text → List Text
split_slash [] = [] ∷ []
split_slash (b ∷ text) =
    let rest = split_slash text in if b == b'/' then [] ∷ rest else with_first b rest

abbrev pub join : Text → List Text → Text
join separator [] = []
join separator (part ∷ []) = part
join separator (part ∷ next ∷ parts) = part ++ separator ++ join separator (next ∷ parts)

-- `parts.pop()`
abbrev pub pop : List Text → Option (List Text)
pop [] = none
pop (_ ∷ []) = some []
pop (part ∷ next ∷ parts) = elim (pop (next ∷ parts)) [
  | none ↦ none
  | some rest ↦ some (part ∷ rest)
]

-- `part.ends_with([' ', '.'])`
abbrev pub ends_badly : Text → Bool
ends_badly [] = false
ends_badly (b ∷ []) = b == b' ' || b == b'.'
ends_badly (_ ∷ b ∷ text) = ends_badly (b ∷ text)

-- `path.replace('\\', "/")`
abbrev pub forward : Text → Text
forward [] = []
forward (b ∷ text) = (if b == b'\\' then b'/' else b) ∷ forward text

-- A path is the same as another, or one is inside the other.
abbrev pub overlaps : Text → Text → Bool
overlaps key old =
    old == key || (starts_with (key ++ bytes "/") old || starts_with (old ++ bytes "/") key)

module _ (to_lowercase : Text → Text) where
  unfoldable pub push_part : Text → List Text → Result IrError (List Text)
  push_part part parts =
      if is_empty part || part == bytes "."
      then ok parts
      else if part == bytes ".."
      then ok_or (pop parts) invalid
      else if ends_badly part
      then err invalid
      else ok (parts ++ to_lowercase part ∷ [])

  unfoldable pub push_parts : List Text → List Text → Result IrError (List Text)
  unfolding push_part
  push_parts [] parts = ok parts
  push_parts (part ∷ rest) parts = do next ← push_part part parts; push_parts rest next

  unfoldable pub path_key : Text → Result IrError Text
  unfolding split_slash push_parts
  path_key path = do
    reject_if (bad_path path) invalid
    parts ← push_parts (split_slash (forward path)) []
    reject_if (is_empty parts) invalid
    ok (
        (if starts_with (bytes "/") (forward path) then bytes "/" else [])
        ++ join (bytes "/") parts)
