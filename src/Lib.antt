-- ===== src/Lib.antt =====
-- agent-response-gateway: a model of the parts of the gateway that keep state, with their proofs.
--
-- The gateway translates between the streaming protocols of model providers, and is managed through a
-- journal of operations. Seven parts are modelled.
--
-- Ir (src/ir/mod.rs, src/ir/event.rs). Every response stream is reduced to `EventIR` events, and an
-- `EventValidator` decides which event may follow. Ir has the identifiers and errors, Ir.Event.Types
-- the validator's fields and the events, and Ir.Event.Handlers one function for each arm of the
-- `match` in `EventValidator::apply`. An outcome is the validator after the event and the result,
-- so that the state which an error leaves is visible. A BTreeMap is an association list and a
-- BTreeSet a list without repetition; byte counts are natural numbers. The JSON parser that decides
-- whether a function's arguments are a JSON text is the parameter `parses_json`. Ir.Event.Steps is an
-- independent description of the accepted events as a step relation, with every guard of the handlers.
--
-- Adapters.Sse (src/adapters/sse.rs). The bytes of a provider's stream are framed into events by an
-- `SseDecoder`, which Adapters.Sse.Decoder models: `step` is one turn of the loop in `next_event`, and
-- `end_line` is cut where the source returns early. Adapters.Sse.Stream describes a stream byte by
-- byte (`decode`), and the caller that takes events chunk by chunk (`drain_chunks`), whose fuel is one
-- more than the bytes of the chunk: each call that gives an event uses up a byte at least. The
-- lengths that the decoder adds up stay below the bound of `usize`, so their saturating addition is
-- addition. UTF-8 is decided byte by byte in Base.Utf8.
--
-- Management (crates/management/src/contract.rs and journal.rs). Management.Contract has the
-- identifiers, grants, requests, effects and operations. Management.Journal.Store has the tables
-- `operations` and `events` and the statements on them; Recorded the function `recorded`, which reads
-- an operation by replaying its events; Machine the state of a `Journal` and what it calls; Writer
-- `append`, `settle_interrupted`, `lookup`, `accept`, `execute`, `reconcile` and `recover`; and
-- Reader the two methods of `Reader`. An action returns the state that it leaves also when it fails,
-- so that a failed commit or clock is one of the modelled behaviours; a commit that reports an error
-- may have been durable. The adapter behind `Backend`, SHA-256, serde_json, the clock, UUIDs and the
-- fate of each write are the fields of `Externals`; what may change from call to call takes the number
-- of calls made before. A JSON column is the value that was written, or text of another shape. A
-- theorem that needs the texts which the journal writes to be within the 65,536 bytes that it reads
-- back says so by `Fits`.
--
-- Continuation (src/continuation/mod.rs, sqlite.rs and replay.rs). Continuation.Contract has identifiers, origins,
-- sessions, replays and hexadecimal texts; Continuation.Store the tables of `SqliteStore`, and with
-- Continuation.Turns one function for each operation of `ContinuationStore`, with `reopen` for the
-- recovery in `open`. An operation returns an error or the store after its transaction, since an error rolls it back. The
-- UUID that an operation draws is its first argument. A status is one of the texts that the store
-- writes; epochs and revisions, which only grow from 1, are natural numbers. `record` is named
-- `stored`, and `uncertain` hands a pending attempt to `lose`. Continuation.Replays (replay.rs) has the
-- versions of a replay, and Continuation.Native what a replay is built from, over the native states of Ir.Continuity (src/ir/continuity.rs);
-- Continuation.Protector their envelopes; and Continuation.Runtime `restore_record`, `restore` and
-- `finalize_checked`, which seal, open, and call the store. AES-GCM is the two functions of a `Protector`;
-- serde_json, SHA-256 and base64 are the fields of a `Codec`; a nonce that was drawn is an argument.
--
-- Usage (crates/usage-contract/src/lib.rs). Usage.Contract has counters, canonical usage and the
-- paths of each profile; Usage.Normalize `extract` and the start of `normalize`, Usage.Steps its steps
-- and their sequence; Usage.Accumulator `observe` and `observe_counters`; Usage.Event events and the binding of a recorder. A BTreeMap is an association list; a u64 is a
-- natural number, and `checked_add` writes out its bound.
--
-- Team (crates/team-access/src). Team.Contract has permissions, commands and credentials; Team.Store the
-- four tables and the functions that read them; Team.Transaction the statements of a transaction and
-- its ends, which succeed or fail by the `Conditions` of the call; Team.Manager the commands:
-- `prepare_mapped`, and `apply_prepared` for `Prepared::apply`. Team.Auth has `Authenticator::principal`, whose audit reads the journal of
-- Management, and Team.Scope the management API's view of it. `Manager::execute` is its checks
-- (`check_request`), the commands as the journal calls them, and `complete`.
--
-- Ir.Grammar (src/ir/grammar.rs) checks the text of a patch, and Editing (src/editing/mod.rs and
-- operations.rs) writes and reads patches: Editing.Context has `ContextEdit`, Editing.Paths when two
-- paths are one, Editing.Operations `OperationBundle`, and Editing.Envelope policies, the helper
-- program, code-mode results and `normalize_patch_envelope`. A text is its bytes; `str::to_lowercase`,
-- whose table of characters is the standard library's, and serde_json are parameters. The loop of `Grammar::validate`, whose turns take
-- one line or more, has the number of lines as its fuel.
--
-- Every other loop is structural on the list of rows, texts or events.
--
-- Not modelled: the files, SQLite's own errors on reads, the `owner.lock` lease and the backup of the
-- journal; the `accepted` notice to an adapter, which cannot change the journal; and the parts of the
-- gateway outside these seven, which are protocol adapters, HTTP services and process handling.
pub mod Base
pub mod Ir
pub mod Adapters
pub mod Continuation
pub mod Usage
pub mod Management
pub mod Team
pub mod Editing
