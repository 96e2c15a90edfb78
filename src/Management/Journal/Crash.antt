-- ===== src/Management/Journal/Crash.antt =====
-- A journal whose last write failed, and the theorem of Management.Journal.Recovery at it.
use agent_response_gateway.Base.{
  ◌≡◌, ◌≢◌, refl, arith, none, some, [], ◌∷◌, ok, not, ◌==◌, nat_eq, text_eq, Text-discrete,
  ℕ_discrete,
}
use agent_response_gateway.Base.Tables.{contains, add}
use agent_response_gateway.Management.Contract.{
  Operation, State, started, accepted, new_id, authorize, validate_request, fingerprint, digest_of,
  Externals, Identifier-discrete, Digest-discrete, Identity-discrete, Grant-discrete,
  Action-discrete, Snapshot-discrete, State-discrete,
}
use agent_response_gateway.Management.Journal.Store.{
  decode, operation_row, request_row, insert_by_sequence, event_rows, insert_operation,
  insert_event,
}
use agent_response_gateway.Management.Journal.Recorded.{
  valid_next, follows, check_event, bad_intent, replay, recorded,
}
use agent_response_gateway.Management.Journal.Machine.{Journal, now, commit, prepare, apply_effect}
use agent_response_gateway.Management.Journal.Writer.{
  append, settle_interrupted, lookup, accept, finish_effect, start_effect, execute_new, execute,
  unsettled, settle_all, recover,
}
use agent_response_gateway.Management.Journal.Growth.{Extends}
use agent_response_gateway.Management.Journal.Once.{Fits}
use agent_response_gateway.Management.Journal.Reach.{here, next, executes, empty_journal}
use agent_response_gateway.Management.Journal.Recovery.{recover-settles}
use agent_response_gateway.Management.Journal.Tests.{
  outside, admin, request, op, restart, accepted_intent, operation_event,
}

-- The write of the last event fails.
abbrev crashing : Externals
crashing = record outside { write_succeeds = λ n. not (n == 7) }

crashing-Fits : Fits crashing
crashing-Fits = record { operation = λ o _. omega arith; event = λ e. omega arith }

abbrev stopped : Journal
stopped = (execute crashing admin request empty_journal).1

abbrev running : Operation
running = record accepted_intent {
  state = State.running;
  events =
      record {
        sequence = 1;
        at_ms = 2;
        phase = accepted;
        state = State.queued;
        actor = some admin.identity;
        authorization = some restart;
        effect = none;
      }
      ∷ operation_event 2 4 started State.running none
      ∷ [];
}

abbrev recovered : Journal
recovered = (recover crashing stopped).1

still_running : recorded crashing stopped.db op ≡ ok running
unfolding Identifier-discrete Digest-discrete Grant-discrete Action-discrete Snapshot-discrete
    State-discrete Identity-discrete Text-discrete ℕ_discrete new_id authorize validate_request
    fingerprint digest_of contains add decode operation_row request_row insert_by_sequence
    event_rows insert_operation insert_event valid_next follows check_event bad_intent replay
    recorded now commit prepare apply_effect append lookup accept finish_effect start_effect
    execute_new execute
still_running = refl

recovers : recover crashing stopped ≡ (ok tt, recovered)
unfolding Identifier-discrete Digest-discrete Grant-discrete Action-discrete Snapshot-discrete
    State-discrete Identity-discrete Text-discrete ℕ_discrete new_id authorize validate_request
    fingerprint digest_of contains add decode operation_row request_row insert_by_sequence
    event_rows insert_operation insert_event valid_next follows check_event bad_intent replay
    recorded now commit prepare apply_effect append lookup accept finish_effect start_effect
    execute_new execute settle_interrupted unsettled settle_all recover
recovers = refl

recover-settles_example :
    (after : Operation) × (recorded crashing recovered.db op ≡ ok after)
    × Extends running after
    × (after.state ≢ State.queued)
    × (after.state ≢ State.running)
recover-settles_example =
    recover-settles crashing crashing-Fits recovered (next here (executes admin request)) recovers
      op running still_running
