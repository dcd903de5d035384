-- ===== src/ScanWork/Publication.antt =====
-- Whose publication of an item is under way, apart from the code's own test.
use mathlib.Core.Bool.{false≢true}
use hhc_line_function_bot.Prelude.{
  ℕ, ◌<◌, String, ltb→lt, same_text_iff, ◌≡◌, refl, true, false, Option, none, some, arith,
}
use hhc_line_function_bot.ScanWork.{
  Status, publishing, completed, JobUpdate, Work, is_publishing, is_after, ends,
}

is_publishing-publishing : (t : Status) → is_publishing t ≡ true → t ≡ publishing
is_publishing-publishing publishing h = refl
is_publishing-publishing _ h = ground arith

is_after-Before :
    (o : Option ℕ) (now : ℕ)
    → is_after o now ≡ true
    → (until : ℕ) × (o ≡ some until) × (now < until)
is_after-Before none now h = absurd (false≢true h)
is_after-Before (some until) now h = (until, refl, ltb→lt now until h)

module _ {R : Type 0} where
  -- A publication of the item is under way, by this claimant: its lease and the item have not expired.
  abbrev pub IsPublishedBy : String → ℕ → Work R → Type 0
  IsPublishedBy claim_id now w =
      (w.status ≡ publishing)
      × (w.claim_id ≡ some claim_id)
      × ((until : ℕ) × (w.publishing_expires_at ≡ some until) × (now < until))
      × (now < w.expires_at)

  -- What a completed item is left as.
  abbrev pub as_completed : R → ℕ → Option (JobUpdate R) → Work R → Work R
  as_completed result now pending w = record w {
    status = completed;
    claim_id = none;
    claim_expires_at = none;
    pending_job_update = pending;
    completed_at = some now;
  }

  pub IsPublishedBy-ends :
      (claim_id : String) (now : ℕ) (w : Work R)
      → IsPublishedBy claim_id now w
      → ends false claim_id now w ≡ true
  unfolding ends
  IsPublishedBy-ends claim_id now w (p, c, (until, u, early), live) =
      ground (arith, same_text_iff w.claim_id (some claim_id))

  pub ends-IsPublishedBy :
      (claim_id : String) (now : ℕ) (w : Work R)
      → ends false claim_id now w ≡ true
      → IsPublishedBy claim_id now w
  unfolding ends
  ends-IsPublishedBy claim_id now w h = (
    is_publishing-publishing w.status (ground arith),
    ground (arith, same_text_iff w.claim_id (some claim_id)),
    is_after-Before w.publishing_expires_at now (ground arith),
    ground arith,
  )
