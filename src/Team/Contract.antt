-- ===== src/Team/Contract.antt =====
-- crates/team-access/src/contract.rs: permissions, commands, credentials and principals.
use agent_response_gateway.Base.{
  ℕ, Bool, ◌||◌, ◌&&◌, Option, List, ltb, ◌==◌, nat_eq, Eq, Text, text_eq, bytes, length, any,
  is_empty, Result, ok, ◌>>◌, reject_if,
}
use agent_response_gateway.Base.Tables.{contains}
use agent_response_gateway.Base.Strings.{is_trimmable}
use agent_response_gateway.Ir.{any_control}
use agent_response_gateway.Management.Contract.{
  Error, invalid_input, Action, Digest, Grant, Identifier, id_eq, Identity, Operation, Snapshot,
  Externals, digest_of,
}

abbrev pub team_schema : Text
team_schema = bytes "gateway-team-access/v1"

pub data Purpose : Type 0 where
  model management read_only : Purpose

unfoldable pub Purpose-discrete : Discrete Purpose
Purpose-discrete = hlevel

instance abbrev pub purpose_eq : Eq Purpose
purpose_eq = record { dec = Purpose-discrete }

-- `Purpose::prefix`
unfoldable pub prefix : Purpose → Text
prefix model = bytes "gwt1_model_"
prefix management = bytes "gwt1_manage_"
prefix read_only = bytes "gwt1_read_"

pub record Permissions : Type 0 where
  pub enabled : Bool
  pub routes : List Text
  pub management : List Grant
  pub read_all_usage : Bool

-- `Permissions::permits_route`
unfoldable pub permits_route : Permissions → Text → Bool
permits_route permissions route = permissions.enabled && contains route permissions.routes

pub data Command : Type 0 where
  register : Identifier → Permissions → Command
  permissions_change : Identifier → Permissions → Command
  issue : Identifier → Identifier → Purpose → Command
  revoke : Identifier → Command
  rotate : Identifier → Identifier → Command

-- `Command::action`
unfoldable pub action : Command → Action
action (register _ _) = Action.team_subject_register
action (permissions_change _ _) = Action.team_permissions_change
action (issue _ _ _) = Action.team_credential_issue
action (revoke _) = Action.team_credential_revoke
action (rotate _ _) = Action.team_credential_rotate

pub record Subject : Type 0 where
  pub id : Identifier
  pub revision : ℕ
  pub permissions : Permissions

pub record Credential : Type 0 where
  pub id : Identifier
  pub subject : Identifier
  pub purpose : Purpose
  pub revoked : Bool
  pub issued_operation : Identifier

pub record Inventory : Type 0 where
  pub schema : Text
  pub target : Identifier
  pub snapshot : Snapshot
  pub subjects : List Subject
  pub credentials : List Credential

pub record Principal : Type 0 where
  pub identity : Identity
  pub purpose : Purpose
  pub permissions : Permissions
  pub authorization_version : Digest

pub record Secret : Type 0 where
  pub value : Text
  pub credential : Identifier

pub record Completion : Type 0 where
  pub operation : Operation
  pub secret : Option Secret

-- `StoredCredential` and `Evidence` of store.rs, of which the surroundings write JSON texts.
pub record StoredCredential : Type 0 where
  pub metadata : Credential
  pub verifier : Digest
  pub request_sha256 : Digest

pub record Evidence : Type 0 where
  pub schema : Text
  pub operation : Identifier
  pub request_sha256 : Digest
  pub before : Snapshot
  pub after : Snapshot
  pub issued_credential_sha256 : Option Digest

-- The journal's surroundings, and the JSON texts that serde_json writes, which does not fail on
-- these types.
pub record TeamExternals : Type 0 where
  pub journal : Externals
  pub permissions_json : Permissions → Text
  pub command_json : Command → Text
  pub subject_json : Subject → Text
  pub credential_json : StoredCredential → Text
  pub evidence_json : Evidence → Text
  pub inventory_json : ℕ → List Subject → List StoredCredential → Text
  pub authorization_json : Credential → ℕ → Permissions → Text

is_bad_route : Text → Bool
is_bad_route route =
    is_empty route || (ltb 256 (length route) || (is_trimmable route || any_control route))

module _ (x : TeamExternals) where
  -- `Permissions::validate`
  unfoldable pub validate_permissions : Permissions → Result Error (Unit {0})
  unfolding is_bad_route
  validate_permissions permissions = do
    reject_if
        (ltb 128 (length permissions.routes)
          || (ltb 256 (length permissions.management) || any is_bad_route permissions.routes))
        invalid_input
    reject_if (ltb 49152 (length (x.permissions_json permissions))) invalid_input

  unfoldable pub check_command : Command → Result Error (Unit {0})
  unfolding validate_permissions
  check_command (register _ permissions) = validate_permissions permissions
  check_command (permissions_change _ permissions) = validate_permissions permissions
  check_command (rotate credential replacement) =
      reject_if (credential == replacement) invalid_input
  check_command _ = ok tt

  -- `Command::digest`
  unfoldable pub digest : Command → Result Error Digest
  unfolding check_command
  digest command = do check_command command; ok (digest_of x.journal (x.command_json command))
