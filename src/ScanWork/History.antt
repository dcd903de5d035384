-- ===== src/ScanWork/History.antt =====
-- Histories of calls to the scan work store, and what every call keeps of one item.
use hhc_line_function_bot.Prelude.{
  ℕ, ◌≤◌, ◌<◌, String, ◌≡◌, true, false, ◌&&◌, ◌||◌, ◌⊎◌, inl, inr, Option, none, some, List, [],
  ◌∷◌, ◌==◌,
}
use hhc_line_function_bot.ScanWork.{
  FailureCode, WorkInput, UploadDescriptor, Work, is_queued, is_claimed, is_publishing, has_passed,
  enqueued, cancelled, taken, abandoned, published, with_asset, with_descriptor, released,
  completed_with, failed_with,
}
use hhc_line_function_bot.ScanWork.Store.{
  Stores, list_pending_enqueue, create, mark_enqueued, cancel_pending_enqueue, cleared,
  claim_for_processing, begin_publishing, record_asset, record_upload_descriptor, release_for_retry,
  terminal_status, complete, fail,
}

pub data Call (R : Type 0) : Type 0 where
  creates : WorkInput → String → ℕ → Call R
  marks : String → ℕ → Call R
  cancels : String → FailureCode → ℕ → ℕ → Call R
  lists : ℕ → (ℕ → ℕ) → Call R
  claims : String → String → ℕ → ℕ → ℕ → Call R
  publishes : String → String → ℕ → Option ℕ → ℕ → Call R
  assets : String → String → String → ℕ → Call R
  descriptors : String → String → UploadDescriptor → ℕ → Call R
  releases : String → String → ℕ → Call R
  asks : String → ℕ → Call R
  completes : String → String → R → ℕ → ℕ → Call R
  fails : String → String → FailureCode → ℕ → ℕ → Call R

module _ {T R : Type 0} where
  unfoldable pub step : Stores T R → Call R → Stores T R
  step s (creates input id now) = (create input id now s).0
  step s (marks id now) = (mark_enqueued id now s).0
  step s (cancels id code now completed_at) = (cancel_pending_enqueue id code now completed_at s).0
  step s (lists limit readings) = record s {
    works = (list_pending_enqueue limit readings s.works).0;
  }
  step s (claims id claim_id lease_ms now job_now) =
      (claim_for_processing id claim_id lease_ms now job_now s).0
  step s (publishes id claim_id lease_ms deadline now) =
      (begin_publishing id claim_id lease_ms deadline now s).0
  step s (assets id claim_id asset_id now) = (record_asset id claim_id asset_id now s).0
  step s (descriptors id claim_id d now) = (record_upload_descriptor id claim_id d now s).0
  step s (releases id claim_id now) = (release_for_retry id claim_id now s).0
  step s (asks id now) = (terminal_status id now s).0
  step s (completes id claim_id result now job_now) = (complete id claim_id result now job_now s).0
  step s (fails id claim_id code now job_now) = (fail id claim_id code now job_now s).0

  unfoldable pub run : Stores T R → List (Call R) → Stores T R
  run s [] = s
  run s (c ∷ cs) = run (step s c) cs

module _ {R : Type 0} where
  -- A call before `until`, by the reading with which it may delete an expired item, and whose generated
  -- id, if it makes one, is not `id`.
  abbrev pub Early : ℕ → String → Call R → Type 0
  Early until id (creates input new_id now) = (new_id == id) ≡ false
  Early until id (marks k now) = now < until
  Early until id (cancels k code now completed_at) = now < until
  Early until id (lists limit readings) = (n : ℕ) → readings n < until
  Early until id (claims k claim_id lease_ms now job_now) = now < until
  Early until id (asks k now) = now < until
  Early until id _ = Unit

  abbrev pub AllEarly : ℕ → String → List (Call R) → Type 0
  AllEarly until id [] = Unit
  AllEarly until id (c ∷ cs) = Early until id c × AllEarly until id cs

  abbrev pub Holds : (Work R → Type 0) → Option (Work R) → Type 0
  Holds P none = ⊥
  Holds P (some w) = P w

  -- The changes that a call may make of an item.
  pub data Change (w : Work R) : Work R → Type 0 where
    by_enqueue : {v : Work R} → enqueued w ≡ some v → Change w v
    by_cancel :
        (code : FailureCode) (now : ℕ) {v : Work R} → cancelled code now w ≡ some v → Change w v
    by_claim :
        (claim_id : String) (lease_ms now : ℕ) {v : Work R}
        → (is_queued w.status || (is_claimed w.status && has_passed w.claim_expires_at now)) ≡ true
        → v ≡ taken claim_id lease_ms now w
        → Change w v
    by_abandon :
        (now : ℕ) {v : Work R}
        → is_publishing w.status ≡ true
        → has_passed w.publishing_expires_at now ≡ true
        → v ≡ abandoned now w
        → Change w v
    by_publish :
        (claim_id : String) (lease_ms : ℕ) (deadline : Option ℕ) (now : ℕ) {v : Work R}
        → published claim_id lease_ms deadline now w ≡ some v
        → Change w v
    by_asset :
        (claim_id asset_id : String) (now : ℕ) {v : Work R}
        → with_asset claim_id asset_id now w ≡ some v
        → Change w v
    by_descriptor :
        (claim_id : String) (d : UploadDescriptor) (now : ℕ) {v : Work R}
        → with_descriptor claim_id d now w ≡ some v
        → Change w v
    by_release :
        (claim_id : String) (now : ℕ) {v : Work R} → released claim_id now w ≡ some v → Change w v
    by_complete :
        (claim_id : String) (result : R) (now : ℕ) {v : Work R}
        → completed_with claim_id result now w ≡ some v
        → Change w v
    by_fail :
        (claim_id : String) (code : FailureCode) (now : ℕ) {v : Work R}
        → failed_with claim_id code now w ≡ some v
        → Change w v
    by_report : {v : Work R} → cleared w ≡ some v → Change w v

  -- What a call may make of an item.
  abbrev pub Made : Call R → Work R → Work R → Type 0
  Made (creates input id now) w v = ⊥
  Made (marks id now) w v = enqueued w ≡ some v
  Made (cancels id code now completed_at) w v = cancelled code completed_at w ≡ some v
  Made (lists limit readings) w v = ⊥
  Made (claims id claim_id lease_ms now job_now) w v =
      (((is_queued w.status || (is_claimed w.status && has_passed w.claim_expires_at now)) ≡ true)
        × (v ≡ taken claim_id lease_ms now w))
      ⊎ ((is_publishing w.status ≡ true)
          × (has_passed w.publishing_expires_at now ≡ true)
          × (v ≡ abandoned now w))
      ⊎ (cleared w ≡ some v)
  Made (publishes id claim_id lease_ms deadline now) w v =
      published claim_id lease_ms deadline now w ≡ some v
  Made (assets id claim_id asset_id now) w v = with_asset claim_id asset_id now w ≡ some v
  Made (descriptors id claim_id d now) w v = with_descriptor claim_id d now w ≡ some v
  Made (releases id claim_id now) w v = released claim_id now w ≡ some v
  Made (asks id now) w v = ⊥
  Made (completes id claim_id result now job_now) w v =
      (completed_with claim_id result now w ≡ some v) ⊎ (cleared w ≡ some v)
  Made (fails id claim_id code now job_now) w v =
      (failed_with claim_id code now w ≡ some v) ⊎ (cleared w ≡ some v)

  pub Made-Change : (c : Call R) (w v : Work R) → Made c w v → Change w v
  Made-Change (creates input id now) w v m = absurd m
  Made-Change (marks id now) w v m = by_enqueue m
  Made-Change (cancels id code now completed_at) w v m = by_cancel code completed_at m
  Made-Change (lists limit readings) w v m = absurd m
  Made-Change (claims id claim_id lease_ms now job_now) w v (inl (free, e)) =
      by_claim claim_id lease_ms now free e
  Made-Change (claims id claim_id lease_ms now job_now) w v (inr (inl (publishing_, passed, e))) =
      by_abandon now publishing_ passed e
  Made-Change (claims id claim_id lease_ms now job_now) w v (inr (inr e)) = by_report e
  Made-Change (publishes id claim_id lease_ms deadline now) w v m =
      by_publish claim_id lease_ms deadline now m
  Made-Change (assets id claim_id asset_id now) w v m = by_asset claim_id asset_id now m
  Made-Change (descriptors id claim_id d now) w v m = by_descriptor claim_id d now m
  Made-Change (releases id claim_id now) w v m = by_release claim_id now m
  Made-Change (asks id now) w v m = absurd m
  Made-Change (completes id claim_id result now job_now) w v (inl e) =
      by_complete claim_id result now e
  Made-Change (completes id claim_id result now job_now) w v (inr e) = by_report e
  Made-Change (fails id claim_id code now job_now) w v (inl e) = by_fail claim_id code now e
  Made-Change (fails id claim_id code now job_now) w v (inr e) = by_report e

  -- A property that every change of a kind keeps, and that says that the item keeps its id and does not
  -- expire before `until`.
  pub record Stable (until : ℕ) (id : String) (C : Work R → Work R → Type 0) (P : Work R → Type 0)
      : Type 0 where
    pub lasting : (w : Work R) → P w → until ≤ w.expires_at
    pub named : (w : Work R) → P w → w.id ≡ id
    pub kept : (w v : Work R) → P w → C w v → P v
