-- ===== src/Access/Store.antt =====
-- The calls of `InMemoryAccessStore`, src/access/memory-access-store.ts. `now` is the clock's reading and
-- `id` the generated id; a call that throws answers `none`. The order of texts that `sort` and
-- `localeCompare` use is the argument `before`, a strict order.
mod Entries
unfoldable pub use Entries.*
use hhc_line_function_bot.Prelude.{
  ℕ, String, Bool, true, false, not, ◌&&◌, ◌||◌, Option, none, some, List, [], ◌∷◌, ◌++◌, map, ◌==◌,
  ltb, if◌then◌else◌, take, select, find, any, sort_by,
}
use hhc_line_function_bot.JsMap.{JsMap, get, set, values}
use hhc_line_function_bot.Capability.{CapabilityName, same_capability, capability_text}
use hhc_line_function_bot.Jobs.{is_some}
use hhc_line_function_bot.Access.{
  PrincipalType, same_type, type_text, Principal, AuditEvent, FunctionGrant, Role, RoleBinding,
  AddPrincipalInput, DisablePrincipalInput, SuccessInput, AuditInput, AddGrantInput,
  DisableGrantInput, RoleInput, AccessStore,
}

-- Roles.

abbrev pub is_role : String → String → Role → Bool
is_role profile_name role_key r = (r.profile_name == profile_name) && (r.role_key == role_key)

abbrev pub id_or : Option Role → String → String
id_or none id = id
id_or (some r) id = r.id

unfoldable pub put_role : RoleInput → String → JsMap Role → JsMap Role × Role
put_role input id m =
    let role_id = id_or (find (is_role input.profile_name input.role_key) (values m)) id in
    let role : Role = record {
      id = role_id;
      profile_name = input.profile_name;
      role_key = input.role_key;
      display_name = input.display_name;
    } in
    (set role_id role m, role)

abbrev pub has_text : String → List String → Bool
has_text c cs = any (λ d. d == c) cs

-- `Set.add`, and `get(…) ?? []`.
abbrev pub add_text : String → List String → List String
add_text c cs = if has_text c cs then cs else cs ++ (c ∷ [])

abbrev pub texts_or_none : Option (List String) → List String
texts_or_none none = []
texts_or_none (some cs) = cs

abbrev pub is_binding : RoleBinding → RoleBinding → Bool
is_binding a b =
    (b.profile_name == a.profile_name)
    && same_type b.principal_type a.principal_type
    && (b.principal_id == a.principal_id)
    && (b.role_id == a.role_id)

abbrev pub is_bound_to : String → PrincipalType → String → RoleBinding → Bool
is_bound_to profile_name kind principal_id b =
    (b.profile_name == profile_name)
    && same_type b.principal_type kind
    && (b.principal_id == principal_id)

abbrev pub add_texts : List String → List String → List String
add_texts [] acc = acc
add_texts (c ∷ cs) acc = add_texts cs (add_text c acc)

-- The loop of `listPrincipalCapabilities`.
unfoldable pub gather :
    (RoleBinding → Bool) → JsMap (List String) → List RoleBinding → List String → List String
gather test caps [] acc = acc
gather test caps (b ∷ bs) acc =
    gather test caps bs (if test b then add_texts (texts_or_none (get b.role_id caps)) acc else acc)

module _ {M : Type 0} where
  unfoldable pub has_active_principal : String → PrincipalType → String → AccessStore M → Bool
  unfolding active_principal
  has_active_principal profile_name kind principal_id s =
      active_principal profile_name kind principal_id s.principals

  unfoldable pub list_principals :
      (String → String → Bool) → String → Bool → AccessStore M → List Principal
  unfolding principals_of
  list_principals before profile_name include_disabled s =
      principals_of before profile_name include_disabled s.principals

  unfoldable pub add_principal :
      AddPrincipalInput → String → ℕ → AccessStore M → AccessStore M × Principal
  unfolding put_principal
  add_principal input id now s =
      let (m, p) = put_principal input id now s.principals in (record s { principals = m }, p)

  unfoldable pub disable_principal :
      DisablePrincipalInput → ℕ → AccessStore M → AccessStore M × Bool
  unfolding shut_principal
  disable_principal input now s =
      let (m, done) = shut_principal input now s.principals in (record s { principals = m }, done)

  unfoldable pub record_principal_success : SuccessInput → AccessStore M → AccessStore M
  unfolding note_success
  record_principal_success input s = record s { principals = note_success input s.principals }

  unfoldable pub record_audit : AuditInput M → String → ℕ → AccessStore M → AccessStore M
  record_audit input id now s = record s {
    audit =
        (record {
          id = id;
          profile_name = input.profile_name;
          actor_user_id = input.actor_user_id;
          action = input.action;
          target_type = input.target_type;
          target_id = input.target_id;
          metadata = input.metadata;
          created_at = now;
        })
        ∷ s.audit;
  }

  unfoldable pub list_audit_events : String → ℕ → AccessStore M → List (AuditEvent M)
  list_audit_events profile_name limit s =
      take limit (select (λ e. e.profile_name == profile_name) s.audit)

  unfoldable pub list_group_function_grants :
      (String → String → Bool) → String → String → AccessStore M → List CapabilityName
  unfolding grants_of
  list_group_function_grants before profile_name group_id s =
      grants_of before profile_name group_id s.group_function_grants

  unfoldable pub list_all_group_function_grants :
      (String → String → Bool) → String → AccessStore M → List FunctionGrant
  unfolding all_grants
  list_all_group_function_grants before profile_name s =
      all_grants before profile_name s.group_function_grants

  unfoldable pub add_group_function_grant :
      AddGrantInput → String → ℕ → AccessStore M → AccessStore M × FunctionGrant
  unfolding put_grant
  add_group_function_grant input id now s =
      let (m, g) = put_grant input id now s.group_function_grants in
      (record s { group_function_grants = m }, g)

  unfoldable pub disable_group_function_grant :
      DisableGrantInput → ℕ → AccessStore M → AccessStore M × Bool
  unfolding shut_grant
  disable_group_function_grant input now s =
      let (m, done) = shut_grant input now s.group_function_grants in
      (record s { group_function_grants = m }, done)

  unfoldable pub list_user_function_grants :
      (String → String → Bool) → String → String → AccessStore M → List CapabilityName
  unfolding grants_of
  list_user_function_grants before profile_name user_id s =
      grants_of before profile_name user_id s.user_function_grants

  unfoldable pub list_all_user_function_grants :
      (String → String → Bool) → String → AccessStore M → List FunctionGrant
  unfolding all_grants
  list_all_user_function_grants before profile_name s =
      all_grants before profile_name s.user_function_grants

  unfoldable pub add_user_function_grant :
      AddGrantInput → String → ℕ → AccessStore M → AccessStore M × FunctionGrant
  unfolding put_grant
  add_user_function_grant input id now s =
      let (m, g) = put_grant input id now s.user_function_grants in
      (record s { user_function_grants = m }, g)

  unfoldable pub disable_user_function_grant :
      DisableGrantInput → ℕ → AccessStore M → AccessStore M × Bool
  unfolding shut_grant
  disable_user_function_grant input now s =
      let (m, done) = shut_grant input now s.user_function_grants in
      (record s { user_function_grants = m }, done)

  unfoldable pub upsert_role : RoleInput → String → AccessStore M → AccessStore M × Role
  unfolding put_role
  upsert_role input id s = let (m, r) = put_role input id s.roles in (record s { roles = m }, r)

  -- `none`: the error `access_role_not_found`.
  unfoldable pub bind_role_capability : String → String → AccessStore M → Option (AccessStore M)
  bind_role_capability role_id capability s =
      if not (is_some (get role_id s.roles))
      then none
      else some (record s {
        role_capabilities =
            set role_id (add_text capability (texts_or_none (get role_id s.role_capabilities)))
              s.role_capabilities;
      })

  -- `none`: the error `access_role_profile_mismatch`.
  unfoldable pub bind_to : RoleBinding → Option Role → AccessStore M → Option (AccessStore M)
  bind_to input none s = none
  bind_to input (some role) s =
      if not (role.profile_name == input.profile_name)
      then none
      else if any (is_binding input) s.role_bindings
      then some s
      else some (record s { role_bindings = s.role_bindings ++ (input ∷ []) })

  unfoldable pub bind_role_to_principal : RoleBinding → AccessStore M → Option (AccessStore M)
  unfolding bind_to
  bind_role_to_principal input s = bind_to input (get input.role_id s.roles) s

  unfoldable pub list_principal_capabilities :
      (String → String → Bool) → String → PrincipalType → String → AccessStore M → List String
  unfolding gather
  list_principal_capabilities before profile_name kind principal_id s =
      sort_by before
        (gather (is_bound_to profile_name kind principal_id) s.role_capabilities s.role_bindings [])
