-- ===== src/Ir/Event/Frozen.antt =====
-- The items of src/ir/event.rs that are closed, under later events.
use agent_response_gateway.Base.{
  ◌≡◌, inl, inr, arith, Text, Bool, true, false, none, some, List, [], ◌∷◌, ok, Result-cases,
}
use agent_response_gateway.Base.Tables.{get, insert, get-insert, Table}
use agent_response_gateway.Ir.{item_id_eq, ItemId}
use agent_response_gateway.Ir.Event.Types.{EventValidator, EventIr, ItemState, arguments, is_tool}
use agent_response_gateway.Ir.Event.Handlers.{apply, feed}
use agent_response_gateway.Ir.Event.Steps.{
  Step, begin, add_item, open_part, forward_text, close_part, add_arguments, close_item,
  merge_usage, finish,
}
use agent_response_gateway.Ir.Event.Accepts.{apply-Step}
use agent_response_gateway.Ir.Event.Rejects.{apply-rejects}

-- A write to an open item, or to a fresh one, is not a write to a closed one.
get-insert_open :
    (id item : ItemId) (i w u : ItemState) (t : Table ItemId ItemState)
    → get id t ≡ some i
    → i.is_open ≡ false
    → get item t ≡ some w
    → w.is_open ≡ true
    → get id (insert item u t) ≡ some i
get-insert_open id item i w u t g c gw o = ground (arith, get-insert item id u t)

get-insert_fresh :
    (id item : ItemId) (i u : ItemState) (t : Table ItemId ItemState)
    → get id t ≡ some i
    → get item t ≡ none
    → get id (insert item u t) ≡ some i
get-insert_fresh id item i u t g gn = ground (arith, get-insert item id u t)

module _ (parses_json : Text → Bool) (id : ItemId) (i : ItemState) (c : i.is_open ≡ false) where
  Step-frozen :
      (v : EventValidator) (e : EventIr) {v' : EventValidator}
      → Step parses_json v e v'
      → get id v.items ≡ some i
      → get id v'.items ≡ some i
  Step-frozen v e (begin s) g = g
  Step-frozen v e (add_item {id = item} s room fresh unused _ called) g =
      get-insert_fresh id item i _ v.items g fresh
  Step-frozen v e (open_part {item = item} w s room gw o k unused) g =
      get-insert_open id item i w _ v.items g c gw o
  Step-frozen v e (forward_text w s gw o p d) g = g
  Step-frozen v e (close_part {item = item} w p s gw o k _) g =
      get-insert_open id item i w _ v.items g c gw o
  Step-frozen v e (add_arguments {item = item} w s _ room gw o k) g =
      get-insert_open id item i w _ v.items g c gw o
  Step-frozen v e (close_item {item = item} w s gw o p j) g =
      get-insert_open id item i w _ v.items g c gw o
  Step-frozen v e (merge_usage s a b) g = g
  Step-frozen v e (finish s _ d) g = g

  apply-frozen :
      (v : EventValidator) (e : EventIr)
      → get id v.items ≡ some i
      → get id (apply parses_json v e).0.items ≡ some i
  apply-frozen v e g = elim (Result-cases (apply parses_json v e).1) [
    | inl accepted ↦ Step-frozen v e (apply-Step parses_json v e accepted).1 g
    | inr (x, refused) ↦ rw (apply-rejects parses_json v e x refused) g
  ]

  -- No later event changes a closed item: its kind, its parts and its arguments stay.
  pub feed-frozen :
      (v : EventValidator) (es : List EventIr)
      → get id v.items ≡ some i
      → get id (feed parses_json v es).items ≡ some i
  unfolding feed
  feed-frozen v [] g = g
  feed-frozen v (e ∷ es) g = feed-frozen (apply parses_json v e).0 es (apply-frozen v e g)

arguments_lem :
    (v : EventValidator) (id : ItemId) (t : Text)
    → arguments v id ≡ ok t
    → (i : ItemState) × (get id v.items ≡ some i)
      × (i.is_open ≡ false)
      × (is_tool i.kind ≡ true)
      × (i.arguments ≡ t)
unfolding arguments
arguments_lem v id t h = ground arith

arguments-of_item :
    (v : EventValidator) (id : ItemId) (i : ItemState)
    → get id v.items ≡ some i
    → i.is_open ≡ false
    → is_tool i.kind ≡ true
    → arguments v id ≡ ok i.arguments
unfolding arguments
arguments-of_item v id i g c k = ground arith

-- Arguments that could be read once are read the same after any further events.
pub arguments-feed :
    (parses_json : Text → Bool) (v : EventValidator) (es : List EventIr) (id : ItemId) (t : Text)
    → arguments v id ≡ ok t
    → arguments (feed parses_json v es) id ≡ ok t
arguments-feed parses_json v es id t h =
    let (i, g, c, k, e) = arguments_lem v id t h in
    rw (← e) (arguments-of_item _ id i (feed-frozen parses_json id i c v es g) c k)
