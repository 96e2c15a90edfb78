-- ===== src/Management/Contract.antt =====
-- crates/management/src/contract.rs: identifiers, grants, requests, effects and recorded operations.
use agent_response_gateway.Base.{
  ℕ, Bool, true, false, not, ◌||◌, Option, List, [], ◌∷◌, ltb, ◌==◌, nat_eq, Eq, Text,
  Text-discrete, ℕ_discrete, bytes, is_alphanumeric, is_hex, length, all, is_empty, Result, ok, err,
  is_ok, if◌then◌else◌,
}
use agent_response_gateway.Base.Tables.{contains, add}
use agent_response_gateway.Base.Hex.{hex_of}

abbrev pub contract : Text
contract = bytes "gateway-management/v1"

abbrev pub store_schema : Text
store_schema = bytes "gateway-management-store/v1"

pub record Identifier : Type 0 where
  pub value : Text

unfoldable pub Identifier-discrete : Discrete Identifier
Identifier-discrete = hlevel Text-discrete

instance abbrev pub id_eq : Eq Identifier
id_eq = record { dec = Identifier-discrete }

pub record Digest : Type 0 where
  pub value : Text

unfoldable pub Digest-discrete : Discrete Digest
Digest-discrete = hlevel Text-discrete

instance abbrev pub digest_eq : Eq Digest
digest_eq = record { dec = Digest-discrete }

pub data Error : Type 0 where
  invalid_input forbidden conflict not_found already_owned invalid_store unsupported_schema : Error
  unsupported storage invalid_transition : Error
  uncertain : Identifier → Error

-- b"-_.:".contains(&b)
abbrev id_byte : ℕ → Bool
id_byte b = is_alphanumeric b || (b == b'-' || (b == b'_' || (b == b'.' || b == b':')))

-- `Id::new`
unfoldable pub new_id : Text → Result Error Identifier
new_id value =
    if is_empty value || (ltb 96 (length value) || not (all id_byte value))
    then err invalid_input
    else ok (record { value = value })

-- `Digest::try_from`
unfoldable pub parse_digest : Text → Result Error Digest
parse_digest value =
    if not (length value == 64) || not (all is_hex value)
    then err invalid_input
    else ok (record { value = value })

pub data Action : Type 0 where
  read_state read_usage read_operations reconcile configuration_stage configuration_select : Action
  runtime_start runtime_stop runtime_restart package_install package_enable : Action
  package_disable package_select continuation_transition team_subject_register : Action
  team_credential_issue team_credential_revoke team_credential_rotate : Action
  team_permissions_change : Action

unfoldable pub Action-discrete : Discrete Action
Action-discrete = hlevel

instance abbrev pub action_eq : Eq Action
action_eq = record { dec = Action-discrete }

abbrev pub is_effect : Action → Bool
is_effect read_state = false
is_effect read_usage = false
is_effect read_operations = false
is_effect reconcile = false
is_effect _ = true

pub record Grant : Type 0 where
  pub action : Action
  pub target : Identifier

unfoldable pub Grant-discrete : Discrete Grant
Grant-discrete = hlevel (Action-discrete, Identifier-discrete)

instance abbrev pub grant_eq : Eq Grant
grant_eq = record { dec = Grant-discrete }

pub record Identity : Type 0 where
  pub subject : Identifier
  pub credential : Identifier

unfoldable pub Identity-discrete : Discrete Identity
Identity-discrete = hlevel Identifier-discrete

instance abbrev pub identity_eq : Eq Identity
identity_eq = record { dec = Identity-discrete }

pub record Actor : Type 0 where
  pub identity : Identity
  pub grants : List Grant

-- `collect` into a `BTreeSet`
unfoldable pub collect : List Grant → List Grant
collect [] = []
collect (g ∷ gs) = add g (collect gs)

-- `Actor::new`
unfoldable pub new_actor : Identity → List Grant → Result Error Actor
unfolding collect
new_actor identity grants =
    let set = collect grants in
    if ltb 256 (length set)
    then err invalid_input
    else ok (record { identity = identity; grants = set })

unfoldable pub authorize : Actor → Action → Identifier → Result Error Grant
authorize actor action target =
    let grant : Grant = record { action = action; target = target } in
    if contains grant actor.grants then ok grant else err forbidden

-- `Actor::capabilities`
unfoldable pub capabilities : Actor → Identifier → List Action → List Action
capabilities actor target [] = []
capabilities actor target (a ∷ supported) =
    let rest = capabilities actor target supported in
    if is_ok (authorize actor a target) then a ∷ rest else rest

pub record Snapshot : Type 0 where
  pub revision : ℕ
  pub digest : Digest

unfoldable pub Snapshot-discrete : Discrete Snapshot
Snapshot-discrete = hlevel (ℕ_discrete, Digest-discrete)

instance abbrev pub snapshot_eq : Eq Snapshot
snapshot_eq = record { dec = Snapshot-discrete }

pub record Request : Type 0 where
  pub target : Identifier
  pub action : Action
  pub expected : Snapshot
  pub idempotency_key : Identifier
  pub parameters_sha256 : Digest

-- `Request::validate`
unfoldable pub validate_request : Request → Result Error (Unit {0})
validate_request request = if is_effect request.action then ok tt else err invalid_input

pub data FailureCode : Type 0 where
  rejected stale unavailable interrupted unverified effect_failed : FailureCode

pub data Effect : Type 0 where
  applied : Snapshot → Digest → Effect
  not_applied : FailureCode → Effect
  uncertain : FailureCode → Effect

pub data State : Type 0 where
  queued running succeeded failed uncertain : State

unfoldable pub State-discrete : Discrete State
State-discrete = hlevel

instance abbrev pub state_eq : Eq State
state_eq = record { dec = State-discrete }

-- `Effect::state`
abbrev pub state_of : Effect → State
state_of (applied _ _) = State.succeeded
state_of (not_applied _) = State.failed
state_of (Effect.uncertain _) = State.uncertain

pub data Phase : Type 0 where
  accepted started finished recovery reconciled : Phase

pub record Event : Type 0 where
  pub sequence : ℕ
  pub at_ms : ℕ
  pub phase : Phase
  pub state : State
  pub actor : Option Identity
  pub authorization : Option Grant
  pub effect : Option Effect

pub record Operation : Type 0 where
  pub schema : Text
  pub id : Identifier
  pub actor : Identity
  pub authorization : Grant
  pub request : Request
  pub state : State
  pub events : List Event

-- `PreparedOperation`: what the adapter saw before, and what its effect turns out to be.
pub record Prepared : Type 0 where
  pub before : Snapshot
  pub apply : Effect

-- The code that the journal calls: the SHA-256 digest, the JSON texts, UUIDs, the clock, the outcome
-- of each database write, and the adapter behind `Backend`. What may differ from call to call takes
-- the number of such calls made before.
pub record Externals : Type 0 where
  pub sha256 : Text → Text
  pub request_json : Request → Text
  pub operation_bytes : Operation → ℕ
  pub event_bytes : Event → ℕ
  pub uuid : ℕ → Text
  pub now : ℕ → Option ℕ
  pub write_succeeds : ℕ → Bool
  pub write_is_kept : ℕ → Bool
  pub prepare : ℕ → Request → Result Error Prepared
  pub reconcile : ℕ → Operation → Result Error Effect

-- `Digest::of`
unfoldable pub digest_of : Externals → Text → Digest
digest_of x text = record { value = hex_of (x.sha256 text) }

-- `Request::fingerprint`
unfoldable pub fingerprint : Externals → Request → Digest
unfolding digest_of
fingerprint x request = digest_of x (x.request_json request)
