-- ===== src/Actions/Members.antt =====
-- What the policy lets through: administrators' actions, and what is left to everyone else.
use hhc_line_function_bot.Prelude.{
  ◌≡◌, sym, ◌∙◌, ◌≢◌, ◌↔◌, ◌⊎◌, inl, inr, Bool, true, false, Option, none, some, List, [], ◌∷◌,
  arith, eq_iff, Bool-cases, All,
}
use mathlib.Core.Path.{subst}
use mathlib.Core.Bool.{false≢true}
use hhc_line_function_bot.Capability.{
  CapabilityName, capability_text_injective, capability_text, same_capability, SideEffectLevel,
  read, side_effect_level,
}
use hhc_line_function_bot.Access.{AccessStore}
use hhc_line_function_bot.Line.{Source}
use hhc_line_function_bot.Access.Effective.{is_true, Profile, resolve_effective_access}
use hhc_line_function_bot.Access.Grants.{lists_function}
use hhc_line_function_bot.Access.Admission.{member_functions}
use hhc_line_function_bot.Actions.{
  function_named, admin_named, AdminActionName, invite_code_create, knowledge_source_add,
  knowledge_source_list, knowledge_source_sync, knowledge_source_enable, knowledge_source_disable,
  knowledge_source_remove, PolicyInput, evaluate_action_policy, decide, get_action_definition,
  function_definition, admin_definition, action_requires_confirmation, functions_of,
  function_action, is_disabled, user_function, ActionDefinition, function_scope_grant,
  function_scope_revoke, function_scope_list,
}

-- The administrators' actions that the catalog defines.
abbrev pub is_defined : AdminActionName → Bool
is_defined function_scope_grant = false
is_defined function_scope_revoke = false
is_defined function_scope_list = false
is_defined _ = true

AdminAllowed : PolicyInput → AdminActionName → Type 0
AdminAllowed input name =
    (is_defined name ≡ true)
    × (input.source_kind ≡ "user")
    × (is_true input.requester_is_admin ≡ true)
    × (name ≡ knowledge_source_remove → is_true input.confirmed ≡ true)

decide_admin :
    (input : PolicyInput) (name : AdminActionName)
    → ((decide input (admin_definition name)).allowed ≡ true) ↔ AdminAllowed input name
unfolding decide admin_definition action_requires_confirmation AdminAllowed
decide_admin input invite_code_create = ground (arith, eq_iff input.source_kind "user")
decide_admin input knowledge_source_add = ground (arith, eq_iff input.source_kind "user")
decide_admin input knowledge_source_list = ground (arith, eq_iff input.source_kind "user")
decide_admin input knowledge_source_sync = ground (arith, eq_iff input.source_kind "user")
decide_admin input knowledge_source_enable = ground (arith, eq_iff input.source_kind "user")
decide_admin input knowledge_source_disable = ground (arith, eq_iff input.source_kind "user")
decide_admin input knowledge_source_remove = ground (arith, eq_iff input.source_kind "user")
decide_admin input function_scope_grant = ground (arith, eq_iff input.source_kind "user")
decide_admin input function_scope_revoke = ground (arith, eq_iff input.source_kind "user")
decide_admin input function_scope_list = ground (arith, eq_iff input.source_kind "user")

-- An administrators' action is let through exactly when the catalog defines it, an administrator asks for
-- it in a direct chat and, if it is the removal of a knowledge source, has confirmed it.
pub admin_action_iff :
    (input : PolicyInput) (name : AdminActionName)
    → input.action ≡ admin_named name
    → ((evaluate_action_policy input).allowed ≡ true) ↔ (
        (is_defined name ≡ true)
        × (input.source_kind ≡ "user")
        × (is_true input.requester_is_admin ≡ true)
        × (name ≡ knowledge_source_remove → is_true input.confirmed ≡ true))
unfolding evaluate_action_policy get_action_definition AdminAllowed
admin_action_iff input name e =
    subst (λ a. ((decide input (get_action_definition a)).allowed ≡ true) ↔ AdminAllowed input name)
      (sym e) (decide_admin input name)

decide_enabled :
    (input : PolicyInput) (d : ActionDefinition)
    → (decide input (some d)).allowed ≡ true
    → is_disabled d.kind input.action (functions_of input) ≡ false
unfolding decide action_requires_confirmation
decide_enabled input d h =
    elim (Bool-cases (is_disabled d.kind input.action (functions_of input))) [
      | inl off ↦ absurd (false≢true (sym (refused off) ∙ h))
      | inr on ↦ on
    ]
  where
    refused :
        is_disabled d.kind input.action (functions_of input) ≡ true
        → (decide input (some d)).allowed ≡ false
    refused off = rw (decide, off) (ground arith)

-- A function that the policy lets through is one of the functions it was given, and is in the catalog.
decide_function :
    (input : PolicyInput) (name : CapabilityName) (o : Option SideEffectLevel)
    → input.action ≡ function_named name
    → (decide input (function_definition o)).allowed ≡ true
    → (lists_function name (functions_of input) ≡ true) × (o ≢ none)
unfolding decide
decide_function input name none e h = ground arith
decide_function input name (some level) e h =
    let enabled : is_disabled user_function (function_named name) (functions_of input) ≡ false =
      subst (λ a. is_disabled user_function a (functions_of input) ≡ false) e
        (decide_enabled input (function_action level) h) in
    (ground (arith, enabled), ground arith)

-- A listed function is one for which what holds of all the listed ones holds.
All-lists :
    (P : CapabilityName → Type 0) (name : CapabilityName) (fs : List CapabilityName)
    → All P fs
    → lists_function name fs ≡ true
    → P name
All-lists P name [] h l = absurd (false≢true l)
All-lists P name (f ∷ fs) (p, h) l = elim (Bool-cases (same_capability f name)) [
  | inl same ↦
      subst P
        (capability_text_injective f name
          (ground (arith, eq_iff (capability_text f) (capability_text name))))
        p
  | inr other ↦ All-lists P name fs h (rw other at l)
]

module _ {M : Type 0} where
  -- What members may run. When anyone but an administrator asks for a function, and the policy is given
  -- the functions that the requester's chat is left with, the policy lets through only functions that
  -- just read and, in the profile `main`, the update of one's own profile.
  pub member_actions_read :
      (p : Profile) (source : Source) (s : AccessStore M) (input : PolicyInput)
      (name : CapabilityName)
      → input.action ≡ function_named name
      → is_true input.requester_is_admin ≡ false
      → functions_of input
        ≡ (resolve_effective_access p source input.requester_is_admin s).profile.enabled_functions
      → (evaluate_action_policy input).allowed ≡ true
      → (side_effect_level name ≡ some read)
        ⊎ ((p.name ≡ "main") × (capability_text name ≡ "update_own_profile"))
  unfolding evaluate_action_policy get_action_definition
  member_actions_read p source s input name e member given h =
      let (listed, _) =
        decide_function input name (side_effect_level name) e
          (subst (λ a. (decide input (get_action_definition a)).allowed ≡ true) e h) in
      let (open_, _) =
        All-lists _ name _ (member_functions p source input.requester_is_admin s member)
          (subst (λ fs. lists_function name fs ≡ true) given listed) in
      open_
