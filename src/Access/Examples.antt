-- ===== src/Access/Examples.antt =====
-- Runs of the access store, and the theorems at concrete inputs.
use hhc_line_function_bot.Prelude.{
  ℕ, String, ◌≡◌, refl, Bool, true, false, none, some, List, [], ◌∷◌, arith, eq_iff, select, All,
}
use hhc_line_function_bot.JsMap.{values}
use hhc_line_function_bot.Capability.{
  query_schedule, save_memory, update_own_profile, side_effect_level,
}
use hhc_line_function_bot.Access.{
  user, AccessStore, AddPrincipalInput, DisablePrincipalInput, AddGrantInput, RoleBinding,
}
use hhc_line_function_bot.Access.Store.{has_active_principal, add_principal, disable_principal}
use hhc_line_function_bot.Access.History.{Call, run, adds, adds_group_grant}
use hhc_line_function_bot.Access.Valid.{AreTables}
use hhc_line_function_bot.Access.Revocation.{revocation_lasts}
use hhc_line_function_bot.Access.Grants.{lists_function}
use hhc_line_function_bot.Line.{Source}
use hhc_line_function_bot.Access.Effective.{
  Profile, is_open_to_all, is_default_user_function_available, resolve_effective_access,
}
use hhc_line_function_bot.Access.Admission.{OpenToAll, member_functions, revoked_user_denied}

abbrev empty : AccessStore ℕ
empty = record {
  principals = [];
  group_function_grants = [];
  user_function_grants = [];
  roles = [];
  role_capabilities = [];
  role_bindings = [];
  audit = [];
}

empty-AreTables : AreTables empty
unfolding values
empty-AreTables =
    ((tt, tt, λ k. omega arith), (tt, tt, λ k. omega arith), (tt, tt, λ k. omega arith))

abbrev alice : AddPrincipalInput
alice = record {
  profile_name = "main";
  kind = user;
  principal_id = "U1";
  display_name = none;
  created_by = "root";
}

abbrev take_alice : DisablePrincipalInput
take_alice = record {
  profile_name = "main";
  kind = user;
  principal_id = "U1";
  disabled_by = "root";
}

abbrev bob : AddPrincipalInput
bob = record alice { principal_id = "U2" }

abbrev schedule_grant : AddGrantInput
schedule_grant = record {
  profile_name = "main";
  holder_id = "G1";
  function_name = query_schedule;
  created_by = "root";
}

abbrev calls : List (Call ℕ)
calls = adds bob "p2" 5 ∷ adds_group_grant schedule_grant "g1" 6 ∷ []

abbrev with_alice : AccessStore ℕ
with_alice = (add_principal alice "p1" 1 empty).0

revocation_lasts_example :
    has_active_principal "main" user "U1" (run (disable_principal take_alice 3 empty).0 calls)
    ≡ false
revocation_lasts_example =
    revocation_lasts take_alice 3 empty calls empty-AreTables
      (ground (arith, eq_iff "U1" "U2"), (tt, tt))

abbrev by_text : String → String → Bool
by_text a b = false

abbrev binding : RoleBinding
binding = record {
  profile_name = "main";
  principal_type = user;
  principal_id = "U1";
  role_id = "r1";
}

abbrev with_role : AccessStore ℕ
with_role = record empty {
  roles =
      (
        "r1",
        record { id = "r1"; profile_name = "main"; role_key = "singer"; display_name = "Singer" },
      )
      ∷ [];
  role_capabilities = ("r1", "music" ∷ []) ∷ [];
  role_bindings = binding ∷ [];
}

abbrev main_bot : Profile
main_bot = record {
  name = "main";
  allow_direct_user = true;
  direct_access_policy = none;
  group_access_policy = none;
  enabled_functions = query_schedule ∷ save_memory ∷ update_own_profile ∷ [];
}

abbrev direct_chat : Source
direct_chat = record { kind = "user"; user_id = some "U1"; group_id = none; room_id = none }

-- What is open to all of this profile's functions.
open_functions :
    select (is_open_to_all main_bot) (query_schedule ∷ save_memory ∷ update_own_profile ∷ [])
    ≡ query_schedule ∷ update_own_profile ∷ []
unfolding is_open_to_all is_default_user_function_available side_effect_level
open_functions = refl

member_functions_example :
    All
      (λ f.
        OpenToAll main_bot f
        × (lists_function f (query_schedule ∷ save_memory ∷ update_own_profile ∷ []) ≡ true))
      (resolve_effective_access main_bot direct_chat none with_alice).profile.enabled_functions
member_functions_example = member_functions main_bot direct_chat none with_alice refl

revoked_user_denied_example :
    let access =
      resolve_effective_access main_bot direct_chat none
        (run (disable_principal take_alice 3 empty).0 calls) in
    (access.authorized ≡ false) × (access.profile.enabled_functions ≡ [])
revoked_user_denied_example =
    revoked_user_denied main_bot direct_chat none "root" "U1" 3 empty calls empty-AreTables
      (ground (arith, eq_iff "U1" "U2"), (tt, tt)) refl refl refl refl
