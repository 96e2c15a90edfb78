-- ===== src/Team/Scope.antt =====
-- crates/team-access/src/auth.rs: `Authenticator` as the management API's authenticator.
use agent_response_gateway.Base.{
  Bool, true, false, ◌||◌, Option, none, some, List, [], ◌∷◌, ◌==◌, Eq, Text, Result, ok, err,
  if◌then◌else◌,
}
use agent_response_gateway.Base.Strings.{starts_with}
use agent_response_gateway.Management.Contract.{
  Error, Action, Actor, Digest, digest_eq, Grant, Identifier, Identity, new_actor,
}
use agent_response_gateway.Team.Contract.{Purpose, prefix, Principal, TeamExternals}
use agent_response_gateway.Team.Auth.{Authority, token, identity, answer}

-- `gateway_management_api::CredentialKind` and its `Principal`
pub data CredentialKind : Type 0 where
  management read_only : CredentialKind

unfoldable pub CredentialKind-discrete : Discrete CredentialKind
CredentialKind-discrete = hlevel

instance abbrev pub credential_kind_eq : Eq CredentialKind
credential_kind_eq = record { dec = CredentialKind-discrete }

pub record ManagementPrincipal : Type 0 where
  pub actor : Actor
  pub kind : CredentialKind
  pub authorization_version : Digest

abbrev pub is_read : Action → Bool
is_read Action.read_state = true
is_read Action.read_usage = true
is_read Action.read_operations = true
is_read _ = false

unfoldable pub granted : CredentialKind → List Grant → List Grant
granted kind [] = []
granted kind (g ∷ gs) =
    let rest = granted kind gs in if kind == management || is_read g.action then g ∷ rest else rest

abbrev pub kind_of : Purpose → Option CredentialKind
kind_of Purpose.model = none
kind_of Purpose.management = some management
kind_of Purpose.read_only = some read_only

abbrev pub principal_with :
    CredentialKind → Digest → Result Error Actor → Option ManagementPrincipal
principal_with kind version (ok actor) =
    some (record { actor = actor; kind = kind; authorization_version = version })
principal_with kind version (err _) = none

abbrev pub of_kind : Principal → Option CredentialKind → Option ManagementPrincipal
of_kind principal none = none
of_kind principal (some kind) =
    principal_with kind principal.authorization_version
      (new_actor principal.identity (granted kind principal.permissions.management))

-- `management`
unfoldable pub management_principal : Principal → Option ManagementPrincipal
unfolding granted new_actor
management_principal principal = of_kind principal (kind_of principal.purpose)

abbrev pub and_then : Option Principal → Option ManagementPrincipal
and_then none = none
and_then (some p) = management_principal p

abbrev pub with_version : Digest → Option Principal → Option Principal
with_version version none = none
with_version version (some p) = if p.authorization_version == version then some p else none

abbrev pub purpose_of : Text → Option Purpose
purpose_of text =
    if starts_with (prefix Purpose.management) text
    then some Purpose.management
    else if starts_with (prefix Purpose.read_only) text
    then some Purpose.read_only
    else none

module _ (x : TeamExternals) where
  abbrev pub authenticate_as :
      Identifier → Text → Authority → Option Purpose → Option ManagementPrincipal × Authority
  authenticate_as target text authority none = (none, authority)
  authenticate_as target text authority (some purpose) =
      let (found, after) = answer x target (token purpose text) authority in (and_then found, after)

  -- `ManagementAuthenticator::authenticate`
  unfoldable pub authenticate :
      Identifier → Text → Authority → Option ManagementPrincipal × Authority
  unfolding prefix answer management_principal
  authenticate target text authority = authenticate_as target text authority (purpose_of text)

  -- `ManagementAuthenticator::refresh`
  unfoldable pub refresh :
      Identifier → Identity → Digest → Authority → Option ManagementPrincipal × Authority
  unfolding answer management_principal
  refresh target who version authority =
      let (found, after) = answer x target (identity who) authority in
      (and_then (with_version version found), after)
