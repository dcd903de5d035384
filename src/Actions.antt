-- ===== src/Actions.antt =====
-- What a requester may do, src/actions/policy.ts, over the catalog of actions, src/actions/catalog.ts. Of
-- an action's definition the fields that the policy reads are modelled.
pub mod Members
mod Examples
use hhc_line_function_bot.Prelude.{
  ℕ, zero, suc, ◌+◌, ◌-◌, ◌*◌, ◌≤◌, ◌<◌, min, max, String, ◌≡◌, refl, sym, ap, ◌∙◌, ◌≢◌, ◌↔◌, ◌⊎◌,
  inl, inr, Bool, true, false, not, ◌&&◌, ◌||◌, Option, none, some, List, [], ◌∷◌, ◌++◌, map, arith,
  ◌==◌, eq_iff, eq_self, leb, ltb, if◌then◌else◌, Option-cases, Bool-cases, same_text,
  same_text_iff, is_blank, is_empty, to_bool, length, take, select, find, any, All, length-take,
  length-append, All-select, All-take, find-passes, ltb→lt, lt→ltb, leb→le, le→leb, lt→not_leb,
}
use hhc_line_function_bot.Access.Effective.{is_true}
use hhc_line_function_bot.Capability.{
  CapabilityName, same_capability, SideEffectLevel, read, write, admin, destructive,
  side_effect_level,
}

pub data SystemActionName : Type 0 where
  introduce_bot small_talk show_help account_login show_account : SystemActionName

pub data AdminActionName : Type 0 where
  invite_code_create knowledge_source_add knowledge_source_list knowledge_source_sync :
      AdminActionName
  knowledge_source_enable knowledge_source_disable knowledge_source_remove : AdminActionName
  function_scope_grant function_scope_revoke function_scope_list : AdminActionName

pub data ActionName : Type 0 where
  function_named : CapabilityName → ActionName
  system_named : SystemActionName → ActionName
  admin_named : AdminActionName → ActionName

pub data ActionKind : Type 0 where
  user_function admin_action system_action : ActionKind

pub data ActionAuth : Type 0 where
  anyone registered admin_only : ActionAuth

pub data SourcePolicy : Type 0 where
  direct group direct_or_group : SourcePolicy

pub data SideEffect : Type 0 where
  read_only state_change security_change destroying : SideEffect

pub record ActionDefinition : Type 0 where
  pub kind : ActionKind
  pub auth : ActionAuth
  pub source_policy : SourcePolicy
  pub side_effect : SideEffect

abbrev side_effect_for_function : SideEffectLevel → SideEffect
side_effect_for_function read = read_only
side_effect_for_function destructive = destroying
side_effect_for_function _ = state_change

abbrev pub function_action : SideEffectLevel → ActionDefinition
function_action level = record {
  kind = user_function;
  auth = registered;
  source_policy = direct_or_group;
  side_effect = side_effect_for_function level;
}

abbrev pub function_definition : Option SideEffectLevel → Option ActionDefinition
function_definition none = none
function_definition (some level) = some (function_action level)

unfoldable pub system_definition : SystemActionName → ActionDefinition
system_definition account_login = record {
  kind = system_action;
  auth = anyone;
  source_policy = direct;
  side_effect = security_change;
}
system_definition show_account = record {
  kind = system_action;
  auth = anyone;
  source_policy = direct;
  side_effect = read_only;
}
system_definition _ = record {
  kind = system_action;
  auth = anyone;
  source_policy = direct_or_group;
  side_effect = read_only;
}

abbrev admin_side_effect : AdminActionName → SideEffect
admin_side_effect invite_code_create = security_change
admin_side_effect knowledge_source_list = read_only
admin_side_effect knowledge_source_remove = destroying
admin_side_effect _ = state_change

abbrev direct_admin : AdminActionName → ActionDefinition
direct_admin name = record {
  kind = admin_action;
  auth = admin_only;
  source_policy = direct;
  side_effect = admin_side_effect name;
}

-- The catalog has no definition of the three `function_scope` names.
unfoldable pub admin_definition : AdminActionName → Option ActionDefinition
admin_definition function_scope_grant = none
admin_definition function_scope_revoke = none
admin_definition function_scope_list = none
admin_definition name = some (direct_admin name)

-- `getActionDefinition`: the catalog names each action once.
unfoldable pub get_action_definition : ActionName → Option ActionDefinition
unfolding side_effect_level system_definition admin_definition
get_action_definition (function_named name) = function_definition (side_effect_level name)
get_action_definition (system_named name) = some (system_definition name)
get_action_definition (admin_named name) = admin_definition name

pub record PolicyInput : Type 0 where
  pub action : ActionName
  pub profile_functions : List CapabilityName
  pub source_kind : String
  pub requester_is_admin : Option Bool
  pub effective_functions : Option (List CapabilityName)
  pub confirmed : Option Bool

pub record PolicyDecision : Type 0 where
  pub allowed : Bool
  pub reason : String
  pub requires_confirmation : Option Bool

abbrev pub is_destroying : SideEffect → Bool
is_destroying destroying = true
is_destroying _ = false

unfoldable pub action_requires_confirmation : SideEffect → Bool → Bool
action_requires_confirmation side_effect confirmed = is_destroying side_effect && not confirmed

abbrev pub is_direct : SourcePolicy → Bool
is_direct direct = true
is_direct _ = false

abbrev pub is_group : SourcePolicy → Bool
is_group group = true
is_group _ = false

abbrev pub is_admin_only : ActionAuth → Bool
is_admin_only admin_only = true
is_admin_only _ = false

-- `input.effectiveFunctions ?? input.profile.enabledFunctions`
abbrev pub functions_of : PolicyInput → List CapabilityName
functions_of input = elim input.effective_functions [
  | none ↦ input.profile_functions
  | some fs ↦ fs
]

-- `definition.kind === "user_function" && isCapabilityName(action)`, and the list does not include it.
abbrev pub is_disabled : ActionKind → ActionName → List CapabilityName → Bool
is_disabled user_function (function_named name) fs = not (any (λ f. same_capability f name) fs)
is_disabled _ _ fs = false

abbrev pub refuse : String → PolicyDecision
refuse reason = record { allowed = false; reason = reason; requires_confirmation = none }

unfoldable pub decide : PolicyInput → Option ActionDefinition → PolicyDecision
unfolding action_requires_confirmation
decide input none = refuse "unknown_action"
decide input (some d) =
    if action_requires_confirmation d.side_effect (is_true input.confirmed)
    then record {
      allowed = false;
      reason = "confirmation_required";
      requires_confirmation = some true;
    }
    else if is_direct d.source_policy && not (input.source_kind == "user")
    then refuse "source_direct_required"
    else if is_group d.source_policy && not (input.source_kind == "group")
    then refuse "source_group_required"
    else if is_admin_only d.auth && not (is_true input.requester_is_admin)
    then refuse "admin_required"
    else if is_disabled d.kind input.action (functions_of input)
    then refuse "function_disabled"
    else record { allowed = true; reason = "allowed"; requires_confirmation = none }

unfoldable pub evaluate_action_policy : PolicyInput → PolicyDecision
unfolding decide get_action_definition
evaluate_action_policy input = decide input (get_action_definition input.action)
