-- ===== src/Team/Reach.antt =====
-- The states of crates/team-access/src/store.rs that calls of a `Manager` lead to.
use agent_response_gateway.Base.{
  ◌≡◌, refl, sym, true, false, Option, some, text_eq, inl, inr, ok, ap, ◌∙◌,
}
use agent_response_gateway.Base.Tables.{get}
use agent_response_gateway.Management.Contract.{Identifier, Digest, Request}
use agent_response_gateway.Management.Journal.Store.{json}
use agent_response_gateway.Team.Contract.{
  StoredCredential, TeamExternals, Command, Secret, Principal,
}
use agent_response_gateway.Team.Store.{TeamDb, CredentialRow}
use agent_response_gateway.Team.Manager.{prepare_mapped, apply_prepared}
use agent_response_gateway.Team.Transaction.{Conditions, Prepared, Applied, as_revoked}
use agent_response_gateway.Team.Auth.{Authority, Select, principal}
use agent_response_gateway.Team.Authentic.{Holds, principal-ok}
use agent_response_gateway.Team.Later.{Later, RowLater, same_Later, Later-trans, run_command-Later}
use agent_response_gateway.Team.Applied.{write_effect-Steps, apply_prepared-outcome}

-- A call of `apply` on a prepared command, accepted or not.
abbrev pub apply_with :
    TeamExternals → Conditions → Prepared → Option Identifier → Option Secret → TeamDb → Applied
apply_with x c prepared operation slot db =
    apply_prepared x c (record prepared { operation = operation }) slot db

-- Any sequence of commands, whatever fails on the way.
pub data TeamReach (x : TeamExternals) (target : Identifier) (start : TeamDb)
    : TeamDb → Type 0 where
  here : TeamReach x target start start
  next :
      {db : TeamDb}
      → TeamReach x target start db
      → (c : Conditions) (request : Request) (command : Command) (sha256 : Digest)
      → (operation : Option Identifier) (slot : Option Secret) (prepared : Prepared)
      → prepare_mapped x target request command sha256 slot db ≡ ok prepared
      → TeamReach x target start (apply_with x c prepared operation slot db).db

module _ (x : TeamExternals) where
  apply-Later :
      (c : Conditions) (prepared : Prepared) (slot : Option Secret) (db : TeamDb)
      → Later db.credentials (apply_prepared x c prepared slot db).db.credentials
  apply-Later c prepared slot db = elim (apply_prepared-outcome x c prepared slot db) [
    | inl (same, _, _) ↦ rw same (same_Later db.credentials)
    | inr (operation, written, _, done, e, _) ↦
        let (commanded, secret, ran, _, (_, _, _, _, w)) =
          write_effect-Steps x c prepared operation db written done in
        let t : (apply_prepared x c prepared slot db).db.credentials ≡ commanded.credentials =
          ap (λ d. d.credentials) e ∙ ap (λ v. v.db.credentials) w in
        rw t (run_command-Later x c operation prepared.request_sha256 prepared.command db ran)
  ]

  -- No command, whatever fails on the way, removes a credential or changes it, except that it may become revoked: its row keeps its verifier, and its document is the same, or the same with revoked set.
  pub TeamReach-Later :
      (target : Identifier) (start : TeamDb) {db : TeamDb}
      → TeamReach x target start db
      → Later start.credentials db.credentials
  TeamReach-Later target start here = same_Later start.credentials
  TeamReach-Later target start
        (next {db = db} before c request command sha256 operation slot prepared p) =
      Later-trans start.credentials db.credentials
        (apply_with x c prepared operation slot db).db.credentials
        (TeamReach-Later target start before)
        (apply-Later c (record prepared { operation = operation }) slot db)

  -- A credential that is revoked, by its row.
  abbrev pub IsRevoked : TeamDb → StoredCredential → Type 0
  IsRevoked db key = Holds db key × (key.metadata.revoked ≡ true)

  revoked_row :
      (key : StoredCredential) (row later : CredentialRow)
      → row.document ≡ json key
      → key.metadata.revoked ≡ true
      → RowLater row later
      → (value : StoredCredential) × (later.document ≡ json value) × (value.metadata.revoked ≡ true)
  revoked_row key row later d r (_, inl same) = (key, same ∙ d, r)
  revoked_row key row later d r (_, inr (value, _, e)) = (as_revoked value, e, refl)

  -- After a credential is revoked, principal never answers for it again, with a token or with an identity, whatever commands follow and whatever fails on the way.
  pub revoked_refused :
      (target : Identifier) (start : TeamDb) {db : TeamDb} (key : StoredCredential)
      → IsRevoked start key
      → TeamReach x target start db
      → (authority after : Authority) (selected : Select) (p : Principal) → authority.db ≡ db
      → ¬ (
          (principal x target selected authority ≡ ok (p, after))
          × (p.identity.credential ≡ key.metadata.id))
  revoked_refused target start {db} key ((row, at_row, is_key), revoked) reached authority after
        selected p same (answered, is_its) =
      let (found, owner, (held, at_held, is_found), _, live, _, _, e) =
        principal-ok x target selected authority after p answered in
      let (later, at_later, kept) =
        TeamReach-Later target start reached key.metadata.id.value row at_row in
      let (value, is_value, r) = revoked_row key row later is_key revoked kept in
      let i : found.metadata.id ≡ key.metadata.id =
        sym (ap (λ q. q.identity.credential) e) ∙ is_its in
      let at_value : get key.metadata.id.value authority.db.credentials ≡ some later =
        rw same at_later in
      let at_found : get key.metadata.id.value authority.db.credentials ≡ some held =
        rw (← i) at_held in
      let rows : later ≡ held = cc in
      let v : value ≡ found = cc in
      let contradiction : true ≡ false = sym r ∙ ap (λ k. k.metadata.revoked) v ∙ live in
      absurd (cc)
