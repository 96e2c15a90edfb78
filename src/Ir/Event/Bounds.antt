-- ===== src/Ir/Event/Bounds.antt =====
-- The well-formedness of the validator of src/ir/event.rs.
use mathlib.Core.Path.{subst}
use agent_response_gateway.Base.{
  ◌≡◌, Text, Bool, true, false, some, List, [], ok, Result-cases, sym, ◌∷◌, inl, inr, nat_eq,
}
use agent_response_gateway.Base.Tables.{get, Values-any_value, Values-get}
use agent_response_gateway.Ir.{item_id_eq, call_id_eq, ItemId}
use agent_response_gateway.Ir.Event.Accepts.{apply-Step}
use agent_response_gateway.Ir.Event.Rejects.{apply-rejects}
use agent_response_gateway.Ir.Event.Types.{
  EventValidator, EventIr, EventLimits, ItemState, completed, new, is_function,
}
use agent_response_gateway.Ir.Event.Handlers.{apply, feed}
use agent_response_gateway.Ir.Event.Valid.{ItemIsValid, IsValid, new-IsValid, Step-IsValid}

module _ (parses_json : Text → Bool) where
  -- Every event, accepted or rejected, keeps the validator well formed.
  pub apply-IsValid :
      (v : EventValidator) (e : EventIr)
      → IsValid parses_json v
      → IsValid parses_json (apply parses_json v e).0
  apply-IsValid v e h = elim (Result-cases (apply parses_json v e).1) [
    | inl accepted ↦
        let (t, step) = apply-Step parses_json v e accepted in Step-IsValid parses_json v t h e step
    | inr (x, refused) ↦
        subst (IsValid parses_json) (sym (apply-rejects parses_json v e x refused)) h
  ]

  feed_from-IsValid :
      (v : EventValidator) (es : List EventIr)
      → IsValid parses_json v
      → IsValid parses_json (feed parses_json v es)
  unfolding feed
  feed_from-IsValid v [] h = h
  feed_from-IsValid v (e ∷ es) h =
      feed_from-IsValid (apply parses_json v e).0 es (apply-IsValid v e h)

  -- Whatever events a new validator is fed, its counters are the sizes that they stand for, no limit
  -- is passed, and its items are well formed.
  pub feed-IsValid :
      (limits : EventLimits) (v : EventValidator) (es : List EventIr)
      → new limits ≡ ok v
      → IsValid parses_json (feed parses_json v es)
  feed-IsValid limits v es h = feed_from-IsValid v es (new-IsValid parses_json limits v h)

  -- Once a new validator has taken a completed terminal event, every item is closed, and the
  -- arguments of every function call are a JSON text.
  pub completed_calls :
      (limits : EventLimits) (v : EventValidator) (es : List EventIr) (id : ItemId) (i : ItemState)
      → new limits ≡ ok v
      → (feed parses_json v es).terminal ≡ some completed
      → get id (feed parses_json v es).items ≡ some i
      → (i.is_open ≡ false) × (is_function i.kind ≡ true → parses_json i.arguments ≡ true)
  completed_calls limits v es id i h t g =
      let valid = feed-IsValid limits v es h in
      let items = (feed parses_json v es).items in
      let closed : i.is_open ≡ false =
        Values-get (λ (j : ItemState). j.is_open ≡ false) id i items
          (Values-any_value (λ (j : ItemState). j.is_open) items (valid.complete t)) g in
      (closed, (Values-get (ItemIsValid parses_json) id i items valid.items_valid g).parsed closed)
