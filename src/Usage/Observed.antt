-- ===== src/Usage/Observed.antt =====
-- The usage that `Accumulator` of crates/usage-contract/src/lib.rs holds after each report.
use agent_response_gateway.Base.{text_eq, ◌≡◌, refl, ap, ◌∙◌, any, Bool, true, false, Text, ◌||◌}
use agent_response_gateway.Base.Maps.{Keyed}
use agent_response_gateway.Usage.Merged.{
  merged_at, drops, is_stray, merge-merged_at, merge-decreased, merge-incomplete,
}
use agent_response_gateway.Usage.Steps.{normalize}
use agent_response_gateway.Base.Tables.{Table, get}
use agent_response_gateway.Usage.Contract.{Counter, CanonicalUsage}
use agent_response_gateway.Usage.Accumulator.{
  Accumulator, Merged, merge, with_fall, observe_counters,
}
use agent_response_gateway.Usage.Consistent.{IsConsistent, normalize-IsConsistent}

with_fall-IsConsistent :
    (b : Bool) (u : CanonicalUsage) → IsConsistent u → IsConsistent (with_fall b u)
with_fall-IsConsistent true u c = record {
  total = c.total;
  parts = record { read = c.parts.read; written = c.parts.written; thought = c.parts.thought };
}
with_fall-IsConsistent false u c = c

counters-IsConsistent :
    (counters : Table Text Counter) (a : Accumulator)
    → IsConsistent (observe_counters counters a).1.usage
unfolding observe_counters
counters-IsConsistent counters a =
    let m =
      merge a.profile counters
        (record { reported = a.reported; decreased = false; incomplete = a.incomplete }) in
    with_fall-IsConsistent m.decreased _ (normalize-IsConsistent a.profile m.reported)

-- The accumulator after a report: each path that is allowed takes its counter, or is invalid when the
-- counter has dropped, and every other path keeps what it held.
pub record Follows (counters : Table Text Counter) (a b : Accumulator) : Type 0 where
  pub profile : b.profile ≡ a.profile
  pub reported :
      (path : Text)
      → get path b.reported ≡ merged_at a.profile path (get path counters) (get path a.reported)
  pub incomplete : b.incomplete ≡ (
      (a.incomplete || any (is_stray a.profile) counters)
      || any (drops a.profile a.reported) counters)
  pub usage :
      b.usage
      ≡ with_fall (any (drops a.profile a.reported) counters) (normalize a.profile b.reported)
  pub consistent : IsConsistent b.usage

-- A report whose paths are distinct is merged path by path: a counter that is allowed replaces the one held for its path, or makes it invalid when its count is below the one held, and every other path keeps its counter; the usage is the canonical form of the counters then held, with counter_decreased just when one dropped, and is consistent; and the accumulator is incomplete just when it was so before, a path is not allowed, or a counter dropped.
pub observe_counters-Follows :
    (counters : Table Text Counter) (a : Accumulator)
    → Keyed counters
    → Follows counters a (observe_counters counters a).1
unfolding observe_counters
observe_counters-Follows counters a keyed =
    let m : Merged = record {
      reported = a.reported;
      decreased = false;
      incomplete = a.incomplete;
    } in
    let n = merge a.profile counters m in
    let dropped : n.decreased ≡ any (drops a.profile a.reported) counters =
      merge-decreased a.profile counters m keyed in
    record {
      profile = refl;
      reported = λ path. merge-merged_at a.profile counters m path keyed;
      incomplete =
          ap (λ b. b || n.decreased) (merge-incomplete a.profile counters m)
          ∙ ap (λ b. (a.incomplete || any (is_stray a.profile) counters) || b) dropped;
      usage = ap (λ b. with_fall b (normalize a.profile n.reported)) dropped;
      consistent = counters-IsConsistent counters a;
    }
