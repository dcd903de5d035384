-- ===== src/ScanWork.antt =====
-- Attachment scan work, src/attachments/scan-work-store.ts: the work item of one attachment, and what
-- each call of `InMemoryAttachmentScanWorkStore` may make of an item. A timestamp is a number of
-- milliseconds: the source keeps `toISOString` texts, whose order is that of the times. Ids come from
-- `randomUUID` and are arguments. A work item's result is not looked into: its type `R` is a parameter.
pub mod Store
pub mod History
pub mod Kept
pub mod Calls
pub mod Shape
pub mod Diagram
pub mod Lifecycle
pub mod Claims
pub mod Exclusive
pub mod Publication
pub mod Outcome
mod Examples
use Prim.Native.Char.{code}
use Prim.Native.String.{count}
use hhc_line_function_bot.Prelude.{
  ℕ, ◌+◌, ◌-◌, ◌^◌, min, String, Bool, true, false, not, ◌&&◌, ◌||◌, Option, none, some, ◌==◌, leb,
  ltb, if◌then◌else◌, same_text, is_blank, is_empty,
}
use hhc_line_function_bot.Jobs.{Scope, is_some}

pub data Status : Type 0 where
  pending_enqueue queued claimed publishing completed failed : Status

pub data FailureCode : Type 0 where
  enqueue_failed download_failed validation_failed scan_infected scan_unavailable : FailureCode
  signature_stale publish_failed publication_abandoned worker_failed : FailureCode

-- The text of a failure code, which the job store is given.
abbrev pub failure_text : FailureCode → String
failure_text enqueue_failed = "enqueue_failed"
failure_text download_failed = "download_failed"
failure_text validation_failed = "validation_failed"
failure_text scan_infected = "scan_infected"
failure_text scan_unavailable = "scan_unavailable"
failure_text signature_stale = "signature_stale"
failure_text publish_failed = "publish_failed"
failure_text publication_abandoned = "publication_abandoned"
failure_text worker_failed = "worker_failed"

pub record Target : Type 0 where
  pub source_key : String
  pub item_kind : String
  pub domain : String
  pub title : String

-- `external_url` is no property of the input's type: the store refuses an input that has it.
pub record WorkInput : Type 0 where
  pub job_id : String
  pub line_message_id : String
  pub scope : Scope
  pub target : Target
  pub ttl_ms : ℕ
  pub external_url : Option String

pub record UploadDescriptor : Type 0 where
  pub file_name : String
  pub mime_type : String
  pub size_bytes : ℕ
  pub checksum_sha256 : String

pub data JobUpdate (R : Type 0) : Type 0 where
  has_result : R → JobUpdate R
  has_failed : FailureCode → JobUpdate R

pub record Work (R : Type 0) : Type 0 where
  pub id : String
  pub job_id : String
  pub line_message_id : String
  pub asset_id : Option String
  pub upload_descriptor : Option UploadDescriptor
  pub scope : Scope
  pub target : Target
  pub status : Status
  pub failure_code : Option FailureCode
  pub created_at : ℕ
  pub claimed_at : Option ℕ
  pub claim_id : Option String
  pub claim_expires_at : Option ℕ
  pub publishing_at : Option ℕ
  pub publishing_expires_at : Option ℕ
  pub pending_job_update : Option (JobUpdate R)
  pub completed_at : Option ℕ
  pub expires_at : ℕ

abbrev pub is_pending_enqueue : Status → Bool
is_pending_enqueue pending_enqueue = true
is_pending_enqueue _ = false

abbrev pub is_queued : Status → Bool
is_queued queued = true
is_queued _ = false

abbrev pub is_claimed : Status → Bool
is_claimed claimed = true
is_claimed _ = false

abbrev pub is_publishing : Status → Bool
is_publishing publishing = true
is_publishing _ = false

-- `status === "completed" || status === "failed"`
abbrev pub is_terminal : Status → Bool
is_terminal completed = true
is_terminal failed = true
is_terminal _ = false

-- `time && time > now`, and `time && time <= now`.
abbrev pub is_after : Option ℕ → ℕ → Bool
is_after none now = false
is_after (some t) now = ltb now t

abbrev pub has_passed : Option ℕ → ℕ → Bool
has_passed none now = false
has_passed (some t) now = leb t now

is_valid_source : WorkInput → Bool
is_valid_source input = not (is_blank input.line_message_id) && not (is_some input.external_url)

abbrev is_hex : ℕ → Bool
is_hex c = (leb b'0' c && leb c b'9') || (leb b'a' c && leb c b'f')

all_hex : String → Bool
all_hex String.[] = true
all_hex (String.◌∷◌ c s) = is_hex (code c) && all_hex s

-- `isUploadDescriptor` on a value of the descriptor's type, `sizeBytes` a safe integer.
unfoldable pub is_upload_descriptor : UploadDescriptor → Bool
unfolding all_hex
is_upload_descriptor d =
    not (is_empty d.file_name)
    && not (is_empty d.mime_type)
    && leb d.size_bytes (2 ^ 53 - 1)
    && ltb 0 d.size_bytes
    && leb 64 (count d.checksum_sha256)
    && leb (count d.checksum_sha256) 64
    && all_hex d.checksum_sha256

unfoldable pub same_upload_descriptor : UploadDescriptor → UploadDescriptor → Bool
same_upload_descriptor a b =
    (a.file_name == b.file_name)
    && (a.mime_type == b.mime_type)
    && (leb a.size_bytes b.size_bytes && leb b.size_bytes a.size_bytes)
    && (a.checksum_sha256 == b.checksum_sha256)

abbrev pub other_descriptor : Option UploadDescriptor → UploadDescriptor → Bool
other_descriptor none d = false
other_descriptor (some e) d = not (same_upload_descriptor e d)

abbrev min_deadline : ℕ → Option ℕ → ℕ
min_deadline t none = t
min_deadline t (some deadline) = min t deadline

unfoldable pub bounded_expiry : ℕ → ℕ → ℕ → Option ℕ → ℕ
bounded_expiry start lease_ms work_expires_at deadline =
    min_deadline (min (start + lease_ms) work_expires_at) deadline

module _ {R : Type 0} where
  unfoldable pub new_work : WorkInput → String → ℕ → Work R
  new_work input id now = record {
    id = id;
    job_id = input.job_id;
    line_message_id = input.line_message_id;
    asset_id = none;
    upload_descriptor = none;
    scope = input.scope;
    target = input.target;
    status = pending_enqueue;
    failure_code = none;
    created_at = now;
    claimed_at = none;
    claim_id = none;
    claim_expires_at = none;
    publishing_at = none;
    publishing_expires_at = none;
    pending_job_update = none;
    completed_at = none;
    expires_at = now + input.ttl_ms;
  }

  -- `none`: the error `attachment_scan_work_source_invalid`.
  unfoldable pub created : WorkInput → String → ℕ → Option (Work R)
  unfolding is_valid_source new_work
  created input id now = if is_valid_source input then some (new_work input id now) else none

  -- The claimant's guard, which five calls share: the item is claimed under this id, and neither the
  -- claim nor the item has expired.
  abbrev pub has_live_claim : String → ℕ → Work R → Bool
  has_live_claim claim_id now w =
      is_claimed w.status
      && same_text w.claim_id (some claim_id)
      && is_after w.claim_expires_at now
      && ltb now w.expires_at

  unfoldable pub enqueued : Work R → Option (Work R)
  enqueued w = if is_pending_enqueue w.status then some (record w { status = queued }) else none

  unfoldable pub cancelled : FailureCode → ℕ → Work R → Option (Work R)
  cancelled code now w =
      if is_pending_enqueue w.status
      then some (record w { status = failed; failure_code = some code; completed_at = some now })
      else none

  unfoldable pub taken : String → ℕ → ℕ → Work R → Work R
  taken claim_id lease_ms now w = record w {
    status = claimed;
    claimed_at = some now;
    claim_id = some claim_id;
    claim_expires_at = some (now + lease_ms);
    publishing_at = none;
    publishing_expires_at = none;
  }

  unfoldable pub abandoned : ℕ → Work R → Work R
  abandoned now w = record w {
    status = failed;
    failure_code = some publication_abandoned;
    completed_at = some now;
    claim_id = none;
    claim_expires_at = none;
    pending_job_update = some (has_failed publication_abandoned);
  }

  unfoldable pub published : String → ℕ → Option ℕ → ℕ → Work R → Option (Work R)
  published claim_id lease_ms deadline now w =
      let until = bounded_expiry now lease_ms w.expires_at deadline in
      if not (has_live_claim claim_id now w)
      then none
      else if leb until now
      then none
      else some (record w {
        status = publishing;
        claim_expires_at = none;
        publishing_at = some now;
        publishing_expires_at = some until;
      })

  unfoldable pub with_asset : String → String → ℕ → Work R → Option (Work R)
  with_asset claim_id asset_id now w =
      if is_blank asset_id
        || not (has_live_claim claim_id now w)
        || (is_some w.asset_id && not (same_text w.asset_id (some asset_id)))
      then none
      else some (record w { asset_id = some asset_id })

  unfoldable pub with_descriptor : String → UploadDescriptor → ℕ → Work R → Option (Work R)
  with_descriptor claim_id d now w =
      if not (is_upload_descriptor d)
      then none
      else if not (has_live_claim claim_id now w) || other_descriptor w.upload_descriptor d
      then none
      else some (record w { upload_descriptor = some d })

  unfoldable pub released : String → ℕ → Work R → Option (Work R)
  released claim_id now w =
      if not (has_live_claim claim_id now w)
      then none
      else some (record w {
        status = queued;
        claimed_at = none;
        claim_id = none;
        claim_expires_at = none;
      })

  -- `transitionTerminal`: `complete` needs a live publication, `fail` takes a live claim too.
  unfoldable pub ends : Bool → String → ℕ → Work R → Bool
  ends is_fail claim_id now w =
      let live_claim = is_claimed w.status && is_fail && is_after w.claim_expires_at now in
      let live_publication = is_publishing w.status && is_after w.publishing_expires_at now in
      same_text w.claim_id (some claim_id)
      && ltb now w.expires_at
      && (live_claim || live_publication)

  unfoldable pub completed_with : String → R → ℕ → Work R → Option (Work R)
  unfolding ends
  completed_with claim_id result now w =
      if not (ends false claim_id now w)
      then none
      else some (record w {
        status = completed;
        claim_id = none;
        claim_expires_at = none;
        pending_job_update = some (has_result result);
        completed_at = some now;
      })

  unfoldable pub failed_with : String → FailureCode → ℕ → Work R → Option (Work R)
  unfolding ends
  failed_with claim_id code now w =
      if not (ends true claim_id now w)
      then none
      else some (record w {
        status = failed;
        failure_code = some code;
        claim_id = none;
        claim_expires_at = none;
        pending_job_update = some (has_failed code);
        completed_at = some now;
      })
