-- ===== src/Base/Ordered.antt =====
-- SQL tables read by `ORDER BY id`: rows with a text key, in the order of the keys.
use mathlib.Core.Path.{◌≡◌, refl}
use mathlib.Core.Option.{Option, none, some}
use mathlib.Core.List.{[], ◌∷◌}
use Prim.Native.Nat.{suc}
use native.Mathlib.Omega.{arith}
use agent_response_gateway.Base.Tests.{Text, text_eq, ◌==◌, if◌then◌else◌}
use agent_response_gateway.Base.Lists.{length}
use agent_response_gateway.Base.Strings.{text_before}
use agent_response_gateway.Base.Tables.{Table, get}

module _ {V : Type 0} where
  unfoldable pub insert_row : Text → V → Table Text V → Table Text V
  unfolding text_before
  insert_row k v [] = (k, v) ∷ []
  insert_row k v ((j, w) ∷ t) =
      let rest = insert_row k v t in if text_before k j then (k, v) ∷ (j, w) ∷ t else (j, w) ∷ rest

  -- UPDATE … SET row=f(row) WHERE id=k
  unfoldable pub modify_row : Text → (V → V) → Table Text V → Table Text V
  modify_row k f [] = []
  modify_row k f ((j, w) ∷ t) =
      let rest = modify_row k f t in if j == k then (k, f w) ∷ rest else (j, w) ∷ rest

  abbrev pub map_row : (V → V) → Option V → Option V
  map_row f none = none
  map_row f (some v) = some (f v)

  pub length-insert_row :
      (k : Text) (v : V) (t : Table Text V) → length (insert_row k v t) ≡ suc (length t)
  unfolding insert_row
  length-insert_row k v [] = refl
  length-insert_row k v ((j, w) ∷ t) = ground (arith, length-insert_row k v t)

  pub length-modify_row :
      (k : Text) (f : V → V) (t : Table Text V) → length (modify_row k f t) ≡ length t
  unfolding modify_row
  length-modify_row k f [] = refl
  length-modify_row k f ((j, w) ∷ t) = ground (arith, length-modify_row k f t)

  pub get-insert_row :
      (k i : Text) (v : V) (t : Table Text V)
      → get k t ≡ none
      → get i (insert_row k v t) ≡ (if k == i then some v else get i t)
  unfolding insert_row get
  get-insert_row k i v [] h = refl
  get-insert_row k i v ((j, w) ∷ t) h = ground (arith, get-insert_row k i v t)

  pub get-modify_row :
      (k i : Text) (f : V → V) (t : Table Text V)
      → get i (modify_row k f t) ≡ (if k == i then map_row f (get i t) else get i t)
  unfolding modify_row get
  get-modify_row k i f [] = ground arith
  get-modify_row k i f ((j, w) ∷ t) = ground (arith, get-modify_row k i f t)
