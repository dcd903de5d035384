-- ===== src/Actions/Examples.antt =====
-- Decisions of the policy, and the theorems at concrete inputs.
use hhc_line_function_bot.Prelude.{◌⊎◌, ℕ, ◌≡◌, refl, ◌↔◌, true, false, none, some, [], ◌∷◌}
use hhc_line_function_bot.JsMap.{values}
use hhc_line_function_bot.Capability.{
  capability_text, query_schedule, save_memory, side_effect_level, read,
}
use hhc_line_function_bot.Access.{AccessStore, user}
use hhc_line_function_bot.Access.Store.{has_active_principal, active_principal}
use hhc_line_function_bot.Line.{Source}
use hhc_line_function_bot.Access.Effective.{
  Profile, resolve_effective_access, resolve_effective_functions, source_is_authorized,
  user_is_authorized, is_known_user, is_open_to_all, is_default_user_function_available,
}
use hhc_line_function_bot.Actions.{
  function_named, admin_named, knowledge_source_remove, PolicyInput, evaluate_action_policy, decide,
  get_action_definition, admin_definition, action_requires_confirmation,
}
use hhc_line_function_bot.Actions.Members.{is_defined, admin_action_iff, member_actions_read}

abbrev removal : PolicyInput
removal = record {
  action = admin_named knowledge_source_remove;
  profile_functions = [];
  source_kind = "user";
  requester_is_admin = some true;
  effective_functions = none;
  confirmed = none;
}

removal_waits : evaluate_action_policy removal ≡ record {
  allowed = false;
  reason = "confirmation_required";
  requires_confirmation = some true;
}
unfolding evaluate_action_policy decide get_action_definition admin_definition
    action_requires_confirmation
removal_waits = refl

admin_action_iff_example : ((evaluate_action_policy removal).allowed ≡ true) ↔ (
    (is_defined knowledge_source_remove ≡ true)
    × (removal.source_kind ≡ "user")
    × (true ≡ true)
    × (knowledge_source_remove ≡ knowledge_source_remove → false ≡ true))
admin_action_iff_example = admin_action_iff removal knowledge_source_remove refl

abbrev member_store : AccessStore ℕ
member_store = record {
  principals =
      (
        "p1",
        record {
          id = "p1";
          profile_name = "helper";
          kind = user;
          principal_id = "U1";
          display_name = none;
          created_at = 0;
          created_by = "root";
          disabled_at = none;
          disabled_by = none;
          last_success_capability_name = none;
          last_success_at = none;
        },
      )
      ∷ [];
  group_function_grants = [];
  user_function_grants = [];
  roles = [];
  role_capabilities = [];
  role_bindings = [];
  audit = [];
}

abbrev helper : Profile
helper = record {
  name = "helper";
  allow_direct_user = true;
  direct_access_policy = none;
  group_access_policy = none;
  enabled_functions = query_schedule ∷ save_memory ∷ [];
}

abbrev direct_chat : Source
direct_chat = record { kind = "user"; user_id = some "U1"; group_id = none; room_id = none }

abbrev question : PolicyInput
question = record {
  action = function_named query_schedule;
  profile_functions = query_schedule ∷ save_memory ∷ [];
  source_kind = "user";
  requester_is_admin = none;
  effective_functions = some (query_schedule ∷ []);
  confirmed = none;
}

member_actions_read_example :
    (side_effect_level query_schedule ≡ some read)
    ⊎ ((helper.name ≡ "main") × (capability_text query_schedule ≡ "update_own_profile"))
unfolding evaluate_action_policy decide get_action_definition side_effect_level
    action_requires_confirmation resolve_effective_access resolve_effective_functions
    source_is_authorized user_is_authorized is_known_user has_active_principal active_principal
    values is_open_to_all is_default_user_function_available
member_actions_read_example =
    member_actions_read helper direct_chat member_store question query_schedule refl refl refl refl
