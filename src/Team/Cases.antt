-- ===== src/Team/Cases.antt =====
-- A team of one subject, with the commands of a credential's life (crates/team-access).
use agent_response_gateway.Base.{
  ℕ, arith, true, false, Option, none, some, [], ◌∷◌, ok, err, bytes, Text, text_eq, ◌++◌,
}
use agent_response_gateway.Base.Hex.{hex_of}
use agent_response_gateway.Base.Strings.{take, drop}
use agent_response_gateway.Management.Contract.{
  conflict, Event, Operation, Effect, State, Phase, Identifier, Grant, Actor, Action, Snapshot,
  Request, Digest, contract, started, finished, accepted, digest_of,
}
use agent_response_gateway.Management.Journal.Store.{Db, json}
use agent_response_gateway.Management.Journal.Writer.{execute}
use agent_response_gateway.Management.Journal.Reach.{empty_journal}
use agent_response_gateway.Team.Contract.{
  Purpose, prefix, Permissions, Subject, Command, issue, revoke, rotate, StoredCredential, Secret,
  TeamExternals, action,
}
use agent_response_gateway.Team.Store.{TeamDb}
use agent_response_gateway.Team.Transaction.{Conditions, Prepared}
use agent_response_gateway.Team.Auth.{Authority}
use agent_response_gateway.Team.Reach.{apply_with}
use agent_response_gateway.Team.Receipts.{ReceiptsFit}
use agent_response_gateway.Team.Issued.{CredentialsFit}

abbrev pub named : Text → Identifier
named text = record { value = text }

abbrev pub gateway : Identifier
gateway = named (bytes "gw")

abbrev pub ada : Identifier
ada = named (bytes "ada")

abbrev pub first_key : Identifier
first_key = named (bytes "k1")

abbrev pub second_key : Identifier
second_key = named (bytes "k2")

abbrev pub op : Identifier
op = named (bytes "op")

abbrev pub no_digest : Digest
no_digest = record { value = [] }

abbrev pub seen : Snapshot
seen = record { revision = 0; digest = no_digest }

abbrev pub outcome : Effect
outcome = Effect.applied (record { revision = 1; digest = no_digest }) no_digest

-- A digest that keeps the end of a token, and is empty on the JSON texts.
abbrev pub outside : TeamExternals
outside = record {
  journal = record {
    sha256 = λ text. take 2 (drop 70 text);
    request_json = λ request. [];
    operation_bytes = λ operation. 500;
    event_bytes = λ event. 200;
    uuid = λ n. bytes "op";
    now = λ n. some n;
    write_succeeds = λ n. true;
    write_is_kept = λ n. false;
    prepare = λ n request. ok (record { before = seen; apply = outcome });
    reconcile = λ n operation. err conflict;
  };
  permissions_json = λ permissions. [];
  command_json = λ command. [];
  subject_json = λ value. [];
  credential_json = λ value. [];
  evidence_json = λ value. [];
  inventory_json = λ revision owners keys. [];
  authorization_json = λ metadata revision permissions. [];
}

abbrev pub allowed : Permissions
allowed = record {
  enabled = true;
  routes = bytes "fast" ∷ [];
  management = [];
  read_all_usage = false;
}

abbrev pub owner : Subject
owner = record { id = ada; revision = 1; permissions = allowed }

abbrev pub start : TeamDb
start = record {
  generation = 0;
  subjects = (ada.value, json owner) ∷ [];
  credentials = [];
  receipts = [];
}

abbrev pub seven : ℕ → Text
seven last = 1 ∷ 2 ∷ 3 ∷ 4 ∷ 5 ∷ 6 ∷ 7 ∷ last ∷ []

abbrev pub random_text : ℕ → Text
random_text last = seven 0 ++ seven 0 ++ seven 0 ++ seven last

abbrev pub lucky : ℕ → Conditions
lucky last = record {
  random = some (random_text last);
  writes = λ statement. true;
  commits = true;
  commits_unseen = false;
  rolls_back = true;
}

abbrev pub request_for : Command → Snapshot → Request
request_for command expected = record {
  target = gateway;
  action = action command;
  expected = expected;
  idempotency_key = named (bytes "k");
  parameters_sha256 = no_digest;
}

abbrev pub prepared_for : Command → Snapshot → Prepared
prepared_for command before = record {
  is_taken = false;
  command = command;
  before = before;
  request_sha256 = no_digest;
  operation = none;
}

abbrev pub issuing : Command
issuing = issue ada first_key Purpose.model

abbrev pub stored : StoredCredential
stored = record {
  metadata = record {
    id = first_key;
    subject = ada;
    purpose = Purpose.model;
    revoked = false;
    issued_operation = op;
  };
  verifier = digest_of outside.journal (prefix Purpose.model ++ hex_of (random_text 8));
  request_sha256 = no_digest;
}

abbrev pub with_key : StoredCredential → TeamDb
with_key value = record start {
  generation = 1;
  credentials =
      (first_key.value, record { verifier = value.verifier.value; document = json value }) ∷ [];
}

abbrev pub issued_secret : Secret
issued_secret = record {
  value = prefix Purpose.model ++ hex_of (random_text 8);
  credential = first_key;
}

-- An authority that has confirmed the credential.
abbrev pub authority_of : TeamDb → Authority
authority_of db = record {
  db = db;
  audit = empty_journal.db;
  evidence_actor = record {
    identity = record {
      subject = named (bytes "team-authority");
      credential = named (bytes "reader");
    };
    grants = record { action = Action.read_operations; target = gateway } ∷ [];
  };
  confirmed = (op, (no_digest, no_digest)) ∷ [];
}

abbrev pub one : Snapshot
one = record { revision = 1; digest = no_digest }

abbrev pub revoking : Command
revoking = revoke first_key

abbrev pub after_revoking : TeamDb
after_revoking =
    (apply_with outside (lucky 9) (prepared_for revoking one) (some op) none (with_key stored)).db

abbrev pub issue_operation : Operation
issue_operation = record {
  schema = contract;
  id = op;
  actor = record { subject = ada; credential = named (bytes "c1") };
  authorization = record { action = Action.team_credential_issue; target = gateway };
  request = request_for issuing seen;
  state = State.succeeded;
  events =
      issue_event 1 2 accepted State.queued
        (some (record { action = Action.team_credential_issue; target = gateway })) none
      ∷ issue_event 2 4 started State.running none none
      ∷ issue_event 3 6 finished State.succeeded none (some outcome)
      ∷ [];
}
  where
    issue_event : ℕ → ℕ → Phase → State → Option Grant → Option Effect → Event
    issue_event n ms phase state grant effect = record {
      sequence = n;
      at_ms = ms;
      phase = phase;
      state = state;
      actor = some (record { subject = ada; credential = named (bytes "c1") });
      authorization = grant;
      effect = effect;
    }

abbrev pub short_receipts : (db : TeamDb) → ReceiptsFit outside db
short_receipts db = λ key value found. omega arith

abbrev pub short_credentials : (db : TeamDb) → CredentialsFit outside db
short_credentials db = λ key row value found at_row. omega arith

abbrev pub rotating : Command
rotating = rotate first_key second_key

-- The journal after the request to issue the credential.
abbrev pub admin : Actor
admin = record {
  identity = record { subject = ada; credential = named (bytes "c1") };
  grants = record { action = Action.team_credential_issue; target = gateway } ∷ [];
}

abbrev pub audited : Db
audited = (execute outside.journal admin (request_for issuing seen) empty_journal).1.db

abbrev pub after_issue : TeamDb
after_issue = (apply_with outside (lucky 8) (prepared_for issuing seen) (some op) none start).db

abbrev pub auditing : Authority
auditing = record (authority_of after_issue) { audit = audited; confirmed = [] }
