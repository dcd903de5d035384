-- ===== src/Access.antt =====
-- Who may use the bot, src/access/types.ts: principals (administrators, users and groups), the functions
-- granted to a group or to a user, roles, and the audit trail. A time is a number of milliseconds where
-- the source has the `toISOString` text. Ids come from `randomUUID` and are arguments. An audit event's
-- metadata are not looked into: their type `M` is a parameter.
pub mod Table
pub mod Unique
pub mod History
pub mod Valid
pub mod Store
pub mod Letting
pub mod Revocation
pub mod Grants
pub mod Roles
pub mod Effective
pub mod Admission
mod Examples
use hhc_line_function_bot.Prelude.{ℕ, String, Bool, true, false, Option, none, some, List}
use hhc_line_function_bot.JsMap.{JsMap}
use hhc_line_function_bot.Capability.{CapabilityName}

pub data PrincipalType : Type 0 where
  admin user group : PrincipalType

abbrev pub type_text : PrincipalType → String
type_text admin = "admin"
type_text user = "user"
type_text group = "group"

abbrev pub same_type : PrincipalType → PrincipalType → Bool
same_type admin admin = true
same_type user user = true
same_type group group = true
same_type _ _ = false

pub record Principal : Type 0 where
  pub id : String
  pub profile_name : String
  pub kind : PrincipalType
  pub principal_id : String
  pub display_name : Option String
  pub created_at : ℕ
  pub created_by : String
  pub disabled_at : Option ℕ
  pub disabled_by : Option String
  pub last_success_capability_name : Option CapabilityName
  pub last_success_at : Option ℕ

pub record AuditEvent (M : Type 0) : Type 0 where
  pub id : String
  pub profile_name : String
  pub actor_user_id : String
  pub action : String
  pub target_type : Option String
  pub target_id : Option String
  pub metadata : Option M
  pub created_at : ℕ

-- `GroupFunctionGrant` and `UserFunctionGrant`: `holder_id` is the first's `groupId`, the second's
-- `userId`.
pub record FunctionGrant : Type 0 where
  pub id : String
  pub profile_name : String
  pub holder_id : String
  pub function_name : CapabilityName
  pub created_at : ℕ
  pub created_by : String
  pub disabled_at : Option ℕ
  pub disabled_by : Option String

pub record Role : Type 0 where
  pub id : String
  pub profile_name : String
  pub role_key : String
  pub display_name : String

pub record RoleBinding : Type 0 where
  pub profile_name : String
  pub principal_type : PrincipalType
  pub principal_id : String
  pub role_id : String

pub record AddPrincipalInput : Type 0 where
  pub profile_name : String
  pub kind : PrincipalType
  pub principal_id : String
  pub display_name : Option String
  pub created_by : String

pub record DisablePrincipalInput : Type 0 where
  pub profile_name : String
  pub kind : PrincipalType
  pub principal_id : String
  pub disabled_by : String

pub record SuccessInput : Type 0 where
  pub profile_name : String
  pub kind : PrincipalType
  pub principal_id : String
  pub function_name : CapabilityName
  pub occurred_at : ℕ

pub record AuditInput (M : Type 0) : Type 0 where
  pub profile_name : String
  pub actor_user_id : String
  pub action : String
  pub target_type : Option String
  pub target_id : Option String
  pub metadata : Option M

-- `created_by` of the grant inputs of a group and of a user.
pub record AddGrantInput : Type 0 where
  pub profile_name : String
  pub holder_id : String
  pub function_name : CapabilityName
  pub created_by : String

pub record DisableGrantInput : Type 0 where
  pub profile_name : String
  pub holder_id : String
  pub function_name : CapabilityName
  pub disabled_by : String

pub record RoleInput : Type 0 where
  pub profile_name : String
  pub role_key : String
  pub display_name : String

-- `InMemoryAccessStore`'s state; `role_capabilities` holds sets of texts in insertion order.
pub record AccessStore (M : Type 0) : Type 0 where
  pub principals : JsMap Principal
  pub group_function_grants : JsMap FunctionGrant
  pub user_function_grants : JsMap FunctionGrant
  pub roles : JsMap Role
  pub role_capabilities : JsMap (List String)
  pub role_bindings : List RoleBinding
  pub audit : List (AuditEvent M)
