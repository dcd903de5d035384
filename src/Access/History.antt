-- ===== src/Access/History.antt =====
-- Histories of calls to the access store.
use hhc_line_function_bot.Prelude.{
  ℕ, String, ◌≡◌, Bool, ◌&&◌, Option, none, some, List, [], ◌∷◌, ◌==◌,
}
use hhc_line_function_bot.JsMap.{JsMap, get}
use hhc_line_function_bot.Capability.{capability_text}
use hhc_line_function_bot.Access.{
  PrincipalType, Principal, FunctionGrant, RoleBinding, AddPrincipalInput, DisablePrincipalInput,
  SuccessInput, AuditInput, AddGrantInput, DisableGrantInput, RoleInput, AccessStore,
}
use hhc_line_function_bot.Access.Unique.{IsTable}
use hhc_line_function_bot.Access.Store.{
  is_principal, add_principal, disable_principal, record_principal_success, record_audit,
  add_group_function_grant, disable_group_function_grant, add_user_function_grant,
  disable_user_function_grant, upsert_role, bind_role_capability, bind_role_to_principal,
}

-- The calls that change the store. An id that a call makes is its argument.
pub data Call (M : Type 0) : Type 0 where
  adds : AddPrincipalInput → String → ℕ → Call M
  disables : DisablePrincipalInput → ℕ → Call M
  succeeds : SuccessInput → Call M
  audits : AuditInput M → String → ℕ → Call M
  adds_group_grant adds_user_grant : AddGrantInput → String → ℕ → Call M
  disables_group_grant disables_user_grant : DisableGrantInput → ℕ → Call M
  upserts_role : RoleInput → String → Call M
  binds_capability : String → String → Call M
  binds_principal : RoleBinding → Call M

module _ {M : Type 0} where
  -- A call that throws leaves the store as it is.
  abbrev pub or_same : AccessStore M → Option (AccessStore M) → AccessStore M
  or_same s none = s
  or_same s (some s') = s'

  unfoldable pub step : AccessStore M → Call M → AccessStore M
  step s (adds input id now) = (add_principal input id now s).0
  step s (disables input now) = (disable_principal input now s).0
  step s (succeeds input) = record_principal_success input s
  step s (audits input id now) = record_audit input id now s
  step s (adds_group_grant input id now) = (add_group_function_grant input id now s).0
  step s (adds_user_grant input id now) = (add_user_function_grant input id now s).0
  step s (disables_group_grant input now) = (disable_group_function_grant input now s).0
  step s (disables_user_grant input now) = (disable_user_function_grant input now s).0
  step s (upserts_role input id) = (upsert_role input id s).0
  step s (binds_capability role_id capability) =
      or_same s (bind_role_capability role_id capability s)
  step s (binds_principal input) = or_same s (bind_role_to_principal input s)

  unfoldable pub run : AccessStore M → List (Call M) → AccessStore M
  run s [] = s
  run s (c ∷ cs) = run (step s c) cs

  -- A generated id is not used yet in the table it is for.
  abbrev pub HasUnusedId : AccessStore M → Call M → Type 0
  HasUnusedId s (adds input id now) = get id s.principals ≡ none
  HasUnusedId s (adds_group_grant input id now) = get id s.group_function_grants ≡ none
  HasUnusedId s (adds_user_grant input id now) = get id s.user_function_grants ≡ none
  HasUnusedId s _ = Unit

  abbrev pub HaveUnusedIds : AccessStore M → List (Call M) → Type 0
  HaveUnusedIds s [] = Unit
  HaveUnusedIds s (c ∷ cs) = HasUnusedId s c × HaveUnusedIds (step s c) cs

-- Whom a principal's entry is about, and what a grant's entry is about.
abbrev pub Person : Type 0
Person = String × PrincipalType × String

abbrev pub is_about : Person → Principal → Bool
is_about (profile_name, kind, principal_id) p = is_principal profile_name kind principal_id p

abbrev pub GrantKey : Type 0
GrantKey = String × String × String

abbrev pub grants : GrantKey → FunctionGrant → Bool
grants (profile_name, holder_id, function_text) g =
    (g.profile_name == profile_name)
    && (g.holder_id == holder_id)
    && (capability_text g.function_name == function_text)

abbrev pub IsPrincipals : JsMap Principal → Type 0
IsPrincipals m = IsTable (λ p. p.id) is_about m

abbrev pub IsGrants : JsMap FunctionGrant → Type 0
IsGrants m = IsTable (λ g. g.id) grants m
