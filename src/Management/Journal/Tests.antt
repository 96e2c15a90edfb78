-- ===== src/Management/Journal/Tests.antt =====
-- A journal with one request, and the theorems at it.
use agent_response_gateway.Base.{
  false, ℕ, ◌≤◌, ◌≡◌, refl, arith, Option, true, none, some, List, [], ◌∷◌, inl, ok, err, bytes,
  is_ok, text_eq, Text-discrete, ℕ_discrete, length,
}
use agent_response_gateway.Base.Tables.{contains, add}
use agent_response_gateway.Management.Contract.{
  Error, conflict, Event, Operation, Effect, State, Phase, Identifier, Grant, Actor, Action,
  Snapshot, Request, Externals, contract, started, finished, accepted, new_id, authorize,
  validate_request, fingerprint, digest_of, Identifier-discrete, Digest-discrete, Identity-discrete,
  Grant-discrete, Action-discrete, Snapshot-discrete, State-discrete,
}
use agent_response_gateway.Management.Journal.Store.{
  OperationRow, json, decode, operation_row, request_row, insert_by_sequence, event_rows,
  insert_operation, insert_event,
}
use agent_response_gateway.Management.Journal.Recorded.{
  valid_next, follows, check_event, bad_intent, replay, recorded,
}
use agent_response_gateway.Management.Journal.Machine.{Journal, now, commit, prepare, apply_effect}
use agent_response_gateway.Management.Journal.Writer.{
  append, lookup, accept, finish_effect, start_effect, execute_new, execute,
}
use agent_response_gateway.Management.Journal.Reader.{page, read_page, list}
use agent_response_gateway.Management.Journal.Kept.{Grows}
use agent_response_gateway.Management.Journal.Once.{Fits, Inv}
use agent_response_gateway.Management.Journal.Reach.{
  Reach, here, next, executes, empty_journal, Reach-Inv, Reach-Grows, one_per_key, settled_stays,
}
use agent_response_gateway.Management.Journal.Duplicates.{previous, execute-known, execute-refused}
use agent_response_gateway.Management.Journal.Reads.{Ascending, list-ok}

abbrev seen : Snapshot
seen = record { revision = 7; digest = record { value = [] } }

abbrev moved : Snapshot
moved = record { revision = 8; digest = record { value = [] } }

-- A storage that accepts each write, one UUID, and an adapter whose effect succeeds.
abbrev pub outside : Externals
outside = record {
  sha256 = λ text. [];
  request_json = λ request. [];
  operation_bytes = λ operation. 500;
  event_bytes = λ event. 200;
  uuid = λ n. bytes "op";
  now = λ n. some n;
  write_succeeds = λ n. true;
  write_is_kept = λ n. false;
  prepare = λ n request.
      ok (record { before = seen; apply = Effect.applied moved (record { value = [] }) });
  reconcile = λ n operation. err conflict;
}

outside-Fits : Fits outside
outside-Fits = record { operation = λ o _. omega arith; event = λ e. omega arith }

abbrev gateway : Identifier
gateway = record { value = bytes "gw" }

abbrev pub restart : Grant
restart = record { action = Action.runtime_restart; target = gateway }

abbrev reads : Grant
reads = record { action = Action.read_operations; target = gateway }

abbrev pub admin : Actor
admin = record {
  identity = record {
    subject = record { value = bytes "ada" };
    credential = record { value = bytes "c1" };
  };
  grants = reads ∷ restart ∷ [];
}

abbrev pub request : Request
request = record {
  target = gateway;
  action = Action.runtime_restart;
  expected = seen;
  idempotency_key = record { value = bytes "k" };
  parameters_sha256 = record { value = [] };
}

abbrev pub op : Identifier
op = record { value = bytes "op" }

abbrev after : Journal
after = (execute outside admin request empty_journal).1

abbrev after_Reach : Reach outside empty_journal after
after_Reach = next here (executes admin request)

abbrev pub operation_event : ℕ → ℕ → Phase → State → Option Effect → Event
operation_event n ms phase state effect = record {
  sequence = n;
  at_ms = ms;
  phase = phase;
  state = state;
  actor = some admin.identity;
  authorization = none;
  effect = effect;
}

abbrev outcome : Effect
outcome = Effect.applied moved (record { value = [] })

abbrev pub accepted_intent : Operation
accepted_intent = record {
  schema = contract;
  id = op;
  actor = admin.identity;
  authorization = restart;
  request = request;
  state = State.queued;
  events = [];
}

abbrev done : Operation
done = record accepted_intent {
  state = State.succeeded;
  events =
      record {
        sequence = 1;
        at_ms = 2;
        phase = accepted;
        state = State.queued;
        actor = some admin.identity;
        authorization = some restart;
        effect = none;
      }
      ∷ operation_event 2 4 started State.running none
      ∷ operation_event 3 6 finished State.succeeded (some outcome)
      ∷ [];
}

abbrev only_row : OperationRow
only_row = record {
  id = op.value;
  subject = bytes "ada";
  idempotency_key = bytes "k";
  fingerprint = [];
  intent = json accepted_intent;
}

-- The request runs, and reads back as succeeded, with its effect applied once.
request_succeeds : (execute outside admin request empty_journal).0 ≡ ok done
unfolding Identifier-discrete Digest-discrete Grant-discrete Action-discrete Snapshot-discrete
    State-discrete Identity-discrete Text-discrete ℕ_discrete new_id authorize validate_request
    fingerprint digest_of contains add decode operation_row request_row insert_by_sequence
    event_rows insert_operation insert_event valid_next follows check_event bad_intent replay
    recorded now commit prepare apply_effect append lookup accept finish_effect start_effect
    execute_new execute
request_succeeds = refl

after_reads : recorded outside after.db op ≡ ok done
unfolding Identifier-discrete Digest-discrete Grant-discrete Action-discrete Snapshot-discrete
    State-discrete Identity-discrete Text-discrete ℕ_discrete new_id authorize validate_request
    fingerprint digest_of contains add decode operation_row request_row insert_by_sequence
    event_rows insert_operation insert_event valid_next follows check_event bad_intent replay
    recorded now commit prepare apply_effect append lookup accept finish_effect start_effect
    execute_new execute
after_reads = refl

after_effects : after.effects ≡ op ∷ []
unfolding Identifier-discrete Digest-discrete Grant-discrete Action-discrete Snapshot-discrete
    State-discrete Identity-discrete Text-discrete ℕ_discrete new_id authorize validate_request
    fingerprint digest_of contains add decode operation_row request_row insert_by_sequence
    event_rows insert_operation insert_event valid_next follows check_event bad_intent replay
    recorded now commit prepare apply_effect append lookup accept finish_effect start_effect
    execute_new execute
after_effects = refl

after_row : previous admin request after ≡ some only_row
unfolding Identifier-discrete Digest-discrete Grant-discrete Action-discrete Snapshot-discrete
    State-discrete Identity-discrete Text-discrete ℕ_discrete new_id authorize validate_request
    fingerprint digest_of contains add decode operation_row request_row insert_by_sequence
    event_rows insert_operation insert_event valid_next follows check_event bad_intent replay
    recorded now commit prepare apply_effect append lookup accept finish_effect start_effect
    execute_new execute
after_row = refl

-- The theorems of Management.Journal at this journal.
Reach-Inv_example : Inv outside after.db after.effects
Reach-Inv_example = Reach-Inv outside outside-Fits after_Reach

one_per_key_example : op ≡ op
one_per_key_example =
    one_per_key outside outside-Fits after_Reach op op done done after_reads after_reads refl refl

Reach-Grows_example : Grows outside empty_journal.db after.db
Reach-Grows_example = Reach-Grows outside outside-Fits here after_Reach

execute-known_example :
    ((execute outside admin request after).1.effects ≡ after.effects)
    × ((execute outside admin request after).1.db.operations ≡ after.db.operations)
execute-known_example = execute-known outside after admin request only_row after_row

execute-refused_example :
    execute outside (record admin { grants = reads ∷ [] }) request empty_journal
    ≡ (err Error.forbidden, empty_journal)
unfolding contains Grant-discrete Action-discrete Identifier-discrete Text-discrete ℕ_discrete
execute-refused_example =
    execute-refused outside empty_journal (record admin { grants = reads ∷ [] }) request
      Error.forbidden refl

settled_stays_example : recorded outside (execute outside admin request after).1.db op ≡ ok done
settled_stays_example =
    settled_stays outside outside-Fits after_Reach (next here (executes admin request)) op done
      after_reads (inl refl)

after_list : list outside after.db admin gateway 0 10 ≡ ok ((1, done) ∷ [])
unfolding Identifier-discrete Digest-discrete Grant-discrete Action-discrete Snapshot-discrete
    State-discrete Identity-discrete Text-discrete ℕ_discrete new_id authorize validate_request
    fingerprint digest_of contains add decode operation_row request_row insert_by_sequence
    event_rows insert_operation insert_event valid_next follows check_event bad_intent replay
    recorded now commit prepare apply_effect append lookup accept finish_effect start_effect
    execute_new execute page read_page list
after_list = refl

abbrev entries : List (ℕ × Operation)
entries = (1, done) ∷ []

list-ok_example :
    (is_ok (authorize admin Action.read_operations gateway) ≡ true)
    × (length entries ≤ 10)
    × (10 ≤ 100)
    × Ascending 0 entries
list-ok_example = list-ok outside after.db admin gateway 0 10 entries after_list
