-- ===== src/Ir/Event/Exact.antt =====
-- That `apply` of src/ir/event.rs takes every step of the relation.
use agent_response_gateway.Base.{
  ◌↔◌, ◌≡◌, refl, arith, if◌then◌else◌, Text, Bool, true, false, not, ltb, Option, none, some,
  length, nat_eq, is_some, is_some_and, ap, ◌∙◌,
}
use mathlib.Core.Path.{subst}
use agent_response_gateway.Base.Tables.{contains_key}
use agent_response_gateway.Ir.{item_id_eq, call_id_eq}
use agent_response_gateway.Ir.Event.Types.{
  EventValidator, EventIr, OutputKind, tool, PartKind, Terminal, accept, Outcome,
}
use agent_response_gateway.Ir.Event.Handlers.{
  register_call, on_item_started, on_part_started, on_text_delta, on_part_finished,
  on_arguments_delta, on_item_finished, on_usage_updated, on_finished, handle, apply,
  start_or_handle, accepts_part,
}
use agent_response_gateway.Ir.Event.Steps.{
  registered, call_is_new, Step, begin, add_item, open_part, forward_text, close_part,
  add_arguments, close_item, merge_usage, finish, Carries, message_text, reasoning_text,
  HasIdentity, ReasonIsShort,
}
use agent_response_gateway.Ir.Event.Accepts.{apply-Step}

Carries-accepts_part :
    {kind : OutputKind} {part : PartKind} → Carries kind part → accepts_part kind part ≡ true
Carries-accepts_part message_text = refl
Carries-accepts_part reasoning_text = refl

register_call_step :
    (v : EventValidator) (kind : OutputKind)
    → HasIdentity kind
    → call_is_new v kind ≡ true
    → register_call v kind ≡ accept (record v { calls = registered v kind })
unfolding register_call
register_call_step v (tool identity call_id kind) i h = ground arith
register_call_step v OutputKind.message i h = refl
register_call_step v OutputKind.reasoning i h = refl

reason_step :
    (reason : Option Text)
    → ReasonIsShort reason
    → is_some_and reason (λ r. ltb 1024 (length r)) ≡ false
reason_step none h = refl
reason_step (some r) h = ground arith

not_begun : (b : Bool) (o p : Outcome) → b ≡ false → (if b then o else p) ≡ p
not_begun b o p h = rw h refl

begun : (b : Bool) (o p : Outcome) → b ≡ true → (if not b then o else p) ≡ p
begun b o p h = rw h refl

not_ended : (t : Option Terminal) (o p : Outcome) → t ≡ none → (if is_some t then o else p) ≡ p
not_ended t o p h = rw h refl

module _ (parses_json : Text → Bool) where
  -- The handler of a step's event accepts it, and leaves what the step says.
  handle_step :
      {v v' : EventValidator} {e : EventIr}
      → v.started ≡ true
      → Step parses_json v e v'
      → handle parses_json v e ≡ accept v'
  unfolding handle
  handle_step {v} s (begin f) = absurd (cc)
  handle_step {v} s
        (add_item {id = item} {index = index} {kind = kind} _ room fresh unused i called) =
      unfold on_item_started contains_key in ground (arith, register_call_step v kind i called)
  handle_step {v} s (open_part {item = item} {index = index} {kind = kind} w _ room g o k unused) =
      let k' = Carries-accepts_part k in unfold on_part_started contains_key in ground arith
  handle_step {v} s (forward_text w _ g o p d) = unfold on_text_delta in ground arith
  handle_step {v} s (close_part w p _ g o k q) = unfold on_part_finished in ground arith
  handle_step {v} s (add_arguments w _ d room g o k) = unfold on_arguments_delta in ground arith
  handle_step {v} s (close_item w _ g o p j) = unfold on_item_finished in ground arith
  handle_step {v} s (merge_usage _ i o) = unfold on_usage_updated in ground arith
  handle_step {v} s (finish {status = status} {reason = reason} _ r c) =
      let r' = reason_step reason r in unfold on_finished in ground arith

  start_or_handle_step :
      {v v' : EventValidator} {e : EventIr}
      → Step parses_json v e v'
      → start_or_handle parses_json v e ≡ accept v'
  start_or_handle_step {v} (begin f) = not_begun v.started _ _ f
  start_or_handle_step {v} (add_item s a b c d k) =
      begun v.started _ _ s ∙ handle_step s (add_item s a b c d k)
  start_or_handle_step {v} (open_part w s a g o k u) =
      begun v.started _ _ s ∙ handle_step s (open_part w s a g o k u)
  start_or_handle_step {v} (forward_text w s g o p d) =
      begun v.started _ _ s ∙ handle_step s (forward_text w s g o p d)
  start_or_handle_step {v} (close_part w p s g o k q) =
      begun v.started _ _ s ∙ handle_step s (close_part w p s g o k q)
  start_or_handle_step {v} (add_arguments w s d a g o k) =
      begun v.started _ _ s ∙ handle_step s (add_arguments w s d a g o k)
  start_or_handle_step {v} (close_item w s g o p j) =
      begun v.started _ _ s ∙ handle_step s (close_item w s g o p j)
  start_or_handle_step {v} (merge_usage s i o) =
      begun v.started _ _ s ∙ handle_step s (merge_usage s i o)
  start_or_handle_step {v} (finish s r c) = begun v.started _ _ s ∙ handle_step s (finish s r c)

  apply_step :
      (v v' : EventValidator) (e : EventIr)
      → v.terminal ≡ none
      → Step parses_json v e v'
      → apply parses_json v e ≡ accept v'
  unfolding apply
  apply_step v v' e t s = not_ended v.terminal _ _ t ∙ start_or_handle_step s

  -- An event is accepted, and leaves another validator, exactly when that is a step of the relation and there was no terminal event before.
  pub apply_exactly :
      (v v' : EventValidator) (e : EventIr)
      → (apply parses_json v e ≡ accept v') ↔ ((v.terminal ≡ none) × Step parses_json v e v')
  apply_exactly v v' e = (
    λ h.
        let (t, s) = apply-Step parses_json v e (ap (λ (o : Outcome). o.1) h) in
        (t, subst (Step parses_json v e) (ap (λ (o : Outcome). o.0) h) s),
    λ (t, s). apply_step v v' e t s,
  )
