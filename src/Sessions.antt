-- ===== src/Sessions.antt =====
-- Conversation sessions, src/state/session-store.ts and src/state/session-safety.ts: what a session is,
-- and which sessions belong to one requester. A time is a number of milliseconds, and 0 stands for the
-- empty text that `set` replaces. JSON records and the types of other modules that the store does not look
-- into (arguments, resources, tokens) are values of the parameter `J`.
pub mod Store
pub mod History
pub mod Once
pub mod Newest
pub mod Exclusive
pub mod Interactive
pub mod Promotion
mod Examples
use hhc_line_function_bot.Prelude.{
  ℕ, zero, suc, ◌+◌, ◌-◌, ◌*◌, ◌≤◌, ◌<◌, min, max, String, ◌≡◌, refl, sym, ap, ◌∙◌, ◌≢◌, ◌↔◌, ◌⊎◌,
  inl, inr, Bool, true, false, not, ◌&&◌, ◌||◌, Option, none, some, List, [], ◌∷◌, ◌++◌, map, arith,
  ◌==◌, eq_iff, eq_self, leb, ltb, if◌then◌else◌, Option-cases, Bool-cases, same_text,
  same_text_iff, is_blank, is_empty, to_bool, length, take, select, find, any, All, length-take,
  length-append, All-select, All-take, find-passes, ltb→lt, lt→ltb, leb→le, le→leb, lt→not_leb,
}
use hhc_line_function_bot.Line.{Source, present}
use hhc_line_function_bot.Jobs.{is_some}

pub record SelectionItem (J : Type 0) : Type 0 where
  pub id : String
  pub name : String
  pub drive_id : Option String
  pub memory_resource : Option J

pub data AttachmentStage : Type 0 where
  awaiting_opt_in awaiting_purpose awaiting_title awaiting_confirmation : AttachmentStage

pub data MessageType : Type 0 where
  image video audio file : MessageType

pub record Attachment : Type 0 where
  pub message_id : String
  pub message_type : MessageType
  pub file_name : Option String
  pub file_size : Option ℕ

pub record Destination : Type 0 where
  pub source_key : String
  pub item_kind : String
  pub domain : String

pub record AttachmentTarget : Type 0 where
  pub source_key : String
  pub item_kind : String
  pub domain : String
  pub title : String
  pub declared_file_name : Option String

pub record PendingAttachment : Type 0 where
  pub stage : Option AttachmentStage
  pub media_sync_source_key : Option String
  pub attachment : Attachment
  pub destination : Option Destination
  pub target : Option AttachmentTarget

pub data WriteToolName : Type 0 where
  propose_save_schedule propose_save_memory propose_save_resource update_own_profile : WriteToolName

pub record ActionReview (J : Type 0) : Type 0 where
  pub thread_id : Option String
  pub interrupt_id : Option String
  pub tool_name : WriteToolName
  pub arguments_hash : String
  pub draft_arguments : Option J
  pub approval_expires_at : Option ℕ
  pub policy_key : String
  pub result_job_id : String

pub record ProfileUpdate (J : Type 0) : Type 0 where
  pub context_token : Option J
  pub nickname_write_enabled : Option Bool
  pub arguments : J
  pub review_id : Option String

pub record BulletinContinuation (J : Type 0) : Type 0 where
  pub channel_id : String
  pub correlation : J
  pub arguments : J
  pub context_token : J

-- `type`, and the fields that only sessions of that type have.
pub data Body (J : Type 0) : Type 0 where
  ppt_selection : String → List (SelectionItem J) → Body J
  selection : String → List (SelectionItem J) → Option J → Body J
  profile_update : ProfileUpdate J → Body J
  pending_attachment : PendingAttachment → Body J
  upload_intent : Body J
  action_review : ActionReview J → Body J
  bulletin_continuation : BulletinContinuation J → Body J
  -- The texts and the state key.
  group_reply : List String → String → Body J

pub record Session (J : Type 0) : Type 0 where
  pub id : String
  pub profile_name : String
  pub requester_user_id : Option String
  pub source : Source
  pub body : Body J
  pub expires_at : ℕ

-- `PptSelectionLookup`.
pub record Lookup : Type 0 where
  pub profile_name : String
  pub source : Source
  pub requester_user_id : Option String

pub record ReviewLookup : Type 0 where
  pub id : String
  pub profile_name : String
  pub source : Source
  pub requester_user_id : String

abbrev pub requires_requester_user_id : Source → Bool
requires_requester_user_id source = (source.kind == "group") || (source.kind == "room")

unfoldable pub can_create_requester_scoped_session : Source → Bool
can_create_requester_scoped_session source =
    not (requires_requester_user_id source) || is_some (present source.user_id)

-- `Boolean(a && b && a === b)`, and `!a || !b || a === b`.
abbrev pub both_and_equal : Option String → Option String → Bool
both_and_equal none b = false
both_and_equal (some a) none = false
both_and_equal (some a) (some b) = a == b

abbrev pub equal_if_both : Option String → Option String → Bool
equal_if_both none b = true
equal_if_both (some a) none = true
equal_if_both (some a) (some b) = a == b

unfoldable pub requester_matches_for_source : Source → Option String → Option String → Bool
requester_matches_for_source source expected actual =
    if requires_requester_user_id source
    then both_and_equal (present expected) (present actual)
    else equal_if_both (present expected) (present actual)

unfoldable pub line_sources_equal : Source → Source → Bool
line_sources_equal left right =
    (left.kind == right.kind)
    && same_text left.user_id right.user_id
    && same_text left.group_id right.group_id
    && same_text left.room_id right.room_id

unfoldable pub source_matches : Source → Source → Bool
source_matches expected actual =
    if not (expected.kind == actual.kind)
    then false
    else if expected.kind == "group"
    then same_text expected.group_id actual.group_id
    else if expected.kind == "room"
    then same_text expected.room_id actual.room_id
    else if expected.kind == "user"
    then same_text expected.user_id actual.user_id
    else false

module _ {J : Type 0} where
  abbrev pub type_of : Body J → String
  type_of (ppt_selection drive_id items) = "ppt_selection"
  type_of (selection action items arguments) = "selection"
  type_of (profile_update update) = "profile_update"
  type_of (pending_attachment p) = "pending_attachment"
  type_of upload_intent = "upload_intent"
  type_of (action_review review) = "action_review"
  type_of (bulletin_continuation b) = "bulletin_continuation"
  type_of (group_reply texts state_key) = "group_reply"

  abbrev pub is_ppt_selection : Body J → Bool
  is_ppt_selection (ppt_selection drive_id items) = true
  is_ppt_selection _ = false

  abbrev pub is_selection : String → Body J → Bool
  is_selection action (selection a items arguments) = a == action
  is_selection action _ = false

  abbrev pub is_profile_update : Body J → Bool
  is_profile_update (profile_update update) = true
  is_profile_update _ = false

  abbrev pub is_pending_attachment : Body J → Bool
  is_pending_attachment (pending_attachment p) = true
  is_pending_attachment _ = false

  abbrev pub is_upload_intent : Body J → Bool
  is_upload_intent upload_intent = true
  is_upload_intent _ = false

  abbrev pub is_action_review : Body J → Bool
  is_action_review (action_review review) = true
  is_action_review _ = false

  unfoldable pub is_interactive : Session J → Bool
  is_interactive s =
      is_pending_attachment s.body || is_upload_intent s.body || is_action_review s.body

  -- The message that a pending attachment is about.
  abbrev pub message_of : Body J → Option String
  message_of (pending_attachment p) = some p.attachment.message_id
  message_of _ = none
