-- ===== src/Access/Effective.antt =====
-- What a chat may do with the bot, src/application/access/effective-access.ts: whether its source is
-- authorized, and the functions that are left of the profile's. Of a profile, of an event's source and of
-- the result only the fields that this code reads or sets are modelled.
use hhc_line_function_bot.Prelude.{
  String, Bool, true, false, ◌&&◌, ◌||◌, Option, none, some, List, [], ◌==◌, if◌then◌else◌, select,
}
use hhc_line_function_bot.Capability.{
  CapabilityName, update_own_profile, same_capability, read, side_effect_level,
}
use hhc_line_function_bot.Line.{Source, present}
use hhc_line_function_bot.Access.{user, group, AccessStore}
use hhc_line_function_bot.Access.Store.{has_active_principal}

pub data AccessPolicy : Type 0 where
  blocked managed public : AccessPolicy

pub record Profile : Type 0 where
  pub name : String
  pub allow_direct_user : Bool
  pub direct_access_policy : Option AccessPolicy
  pub group_access_policy : Option AccessPolicy
  pub enabled_functions : List CapabilityName

pub data SourceType : Type 0 where
  from_user from_group from_room : SourceType

pub record EffectiveAccess : Type 0 where
  pub profile : Profile
  pub authorized : Bool
  pub requester_is_admin : Bool
  pub source_type : SourceType

unfoldable pub is_default_user_function_available : CapabilityName → Bool
is_default_user_function_available name = elim (side_effect_level name) [
  | none ↦ false
  | some level ↦ elim level [ read ↦ true | _ ↦ false ]
]

abbrev pub effective_source_type : Source → SourceType
effective_source_type source =
    if source.kind == "user"
    then from_user
    else if source.kind == "group"
    then from_group
    else from_room

abbrev pub direct_access_policy : Profile → AccessPolicy
direct_access_policy p = elim p.direct_access_policy [
  | some policy ↦ policy
  | none ↦ if p.allow_direct_user then managed else blocked
]

abbrev pub group_access_policy : Profile → AccessPolicy
group_access_policy p = elim p.group_access_policy [ some policy ↦ policy | none ↦ blocked ]

module _ {M : Type 0} where
  unfoldable pub is_known_user : Profile → Bool → AccessStore M → Option String → Bool
  is_known_user p requester_is_admin s none = false
  is_known_user p requester_is_admin s (some id) =
      requester_is_admin || has_active_principal p.name user id s

  unfoldable pub user_is_authorized :
      AccessPolicy → Profile → Option String → Bool → AccessStore M → Bool
  unfolding is_known_user
  user_is_authorized blocked p user_id requester_is_admin s = false
  user_is_authorized public p user_id requester_is_admin s = true
  user_is_authorized managed p user_id requester_is_admin s =
      is_known_user p requester_is_admin s (present user_id)

  unfoldable pub is_known_group : Profile → AccessStore M → Option String → Bool
  is_known_group p s none = false
  is_known_group p s (some id) = has_active_principal p.name group id s

  unfoldable pub group_is_authorized : AccessPolicy → Profile → Option String → AccessStore M → Bool
  unfolding is_known_group
  group_is_authorized managed p group_id s = is_known_group p s (present group_id)
  group_is_authorized _ p group_id s = false

  unfoldable pub source_is_authorized : SourceType → Profile → Source → Bool → AccessStore M → Bool
  unfolding user_is_authorized group_is_authorized
  source_is_authorized from_user p source requester_is_admin s =
      user_is_authorized (direct_access_policy p) p source.user_id requester_is_admin s
  source_is_authorized from_group p source requester_is_admin s =
      group_is_authorized (group_access_policy p) p source.group_id s
  source_is_authorized from_room p source requester_is_admin s = false

unfoldable pub is_open_to_all : Profile → CapabilityName → Bool
unfolding is_default_user_function_available
is_open_to_all p f =
    is_default_user_function_available f
    || ((p.name == "main") && same_capability f update_own_profile)

unfoldable pub resolve_effective_functions : Profile → Bool → List CapabilityName
unfolding is_open_to_all
resolve_effective_functions p requester_is_admin =
    if requester_is_admin
    then p.enabled_functions
    else select (is_open_to_all p) p.enabled_functions

-- `value === true`.
abbrev pub is_true : Option Bool → Bool
is_true none = false
is_true (some b) = b

module _ {M : Type 0} where
  unfoldable pub resolve_effective_access :
      Profile → Source → Option Bool → AccessStore M → EffectiveAccess
  unfolding source_is_authorized resolve_effective_functions
  resolve_effective_access p source requester_is_admin s =
      let source_type = effective_source_type source in
      let is_admin = is_true requester_is_admin in
      let authorized = source_is_authorized source_type p source is_admin s in
      record {
        profile = record p {
          enabled_functions = if authorized then resolve_effective_functions p is_admin else [];
        };
        authorized = authorized;
        requester_is_admin = is_admin;
        source_type = source_type;
      }
