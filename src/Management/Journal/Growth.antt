-- ===== src/Management/Journal/Growth.antt =====
-- How a recorded operation of crates/management/src/journal.rs may grow.
use mathlib.Core.List.{append_assoc, append-nil}
use agent_response_gateway.Base.{
  ◌≡◌, ◌≢◌, refl, sym, arith, true, Option, List, [], ◌∷◌, ◌++◌, inl, inr, ◌⊎◌, nat_eq, text_eq,
}
use agent_response_gateway.Management.Contract.{
  Event, Operation, Effect, State, state_eq, Phase, accepted, id_eq,
}
use agent_response_gateway.Management.Journal.Recorded.{extended, valid_next}

-- What a valid transition excludes.
valid_next-not_settled :
    (before : State) (phase : Phase) (state : State) (effect : Option Effect)
    → valid_next before phase state effect ≡ true
    → (before ≢ State.succeeded) × (before ≢ State.failed) × (state ≢ State.queued)
unfolding valid_next
valid_next-not_settled before accepted state effect h = cc
valid_next-not_settled before _ state effect h = ground arith

-- `after` is `before` with valid events added at its end.
pub data Extends (before : Operation) : Operation → Type 0 where
  same : Extends before before
  event :
      {after : Operation} (e : Event)
      → Extends before after
      → valid_next after.state e.phase e.state e.effect ≡ true
      → Extends before (extended after e)

pub Extends-trans : {a b c : Operation} → Extends a b → Extends b c → Extends a c
Extends-trans h same = h
Extends-trans h (event e k v) = event e (Extends-trans h k) v

not_either :
    (s : State)
    → s ≢ State.succeeded
    → s ≢ State.failed
    → (s ≡ State.succeeded) ⊎ (s ≡ State.failed)
    → ⊥
not_either s n f (inl e) = n e
not_either s n f (inr e) = f e

-- Nothing follows an operation that has succeeded or failed.
pub Extends-settled :
    {a b : Operation} → Extends a b → (a.state ≡ State.succeeded) ⊎ (a.state ≡ State.failed) → b ≡ a
unfolding valid_next
Extends-settled same s = refl
Extends-settled {a} (event {after = after} e k v) s =
    let e' : after ≡ a = Extends-settled k s in
    let (n, f, q) = valid_next-not_settled after.state e.phase e.state e.effect v in
    absurd (not_either after.state n f (rw e' s))

-- The intent of an operation stays, and its events only grow.
pub Extends-intent :
    {a b : Operation}
    → Extends a b
    → (b.id ≡ a.id)
      × (b.actor ≡ a.actor)
      × (b.authorization ≡ a.authorization)
      × (b.request ≡ a.request)
Extends-intent same = (refl, refl, refl, refl)
Extends-intent (event e k v) = Extends-intent k

pub Extends-events :
    {a b : Operation} → Extends a b → (es : List Event) × (b.events ≡ a.events ++ es)
Extends-events {a} same = ([], sym (append-nil a.events))
Extends-events {a} (event e k v) =
    let (es, p) = Extends-events k in (es ++ e ∷ [], rw p (append_assoc a.events es (e ∷ [])))

pub Extends-not_queued :
    {a b : Operation} → Extends a b → a.state ≢ State.queued → b.state ≢ State.queued
unfolding valid_next
Extends-not_queued same h = h
Extends-not_queued (event {after = after} e k v) h =
    (valid_next-not_settled after.state e.phase e.state e.effect v).2
