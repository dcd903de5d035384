-- ===== src/ScanWork/Store.antt =====
-- The calls of `InMemoryAttachmentScanWorkStore`, src/attachments/scan-work-store.ts, over its items and
-- the job store that it reports to. `now` is the reading of the call's own clock, `job_now` the one that
-- the job store makes. A call runs to its end: the waits for the in-memory job store, which answers at
-- once, are not points where another call comes between.
use hhc_line_function_bot.Prelude.{
  ℕ, suc, String, Bool, true, false, not, ◌&&◌, ◌||◌, Option, none, some, List, [], ◌∷◌, ◌==◌, leb,
  if◌then◌else◌, take, select,
}
use hhc_line_function_bot.JsMap.{JsMap, get, set, delete, values}
use hhc_line_function_bot.Jobs.{Scope, is_some}
use hhc_line_function_bot.Jobs
use hhc_line_function_bot.ScanWork.{
  Status, failed, FailureCode, publication_abandoned, failure_text, WorkInput, UploadDescriptor,
  JobUpdate, has_result, has_failed, Work, is_queued, is_claimed, is_publishing, is_terminal,
  is_pending_enqueue, has_passed, created, enqueued, cancelled, taken, abandoned, published,
  with_asset, with_descriptor, released, completed_with, failed_with,
}

pub record Stores (T R : Type 0) : Type 0 where
  pub works : JsMap (Work R)
  pub jobs : Jobs.Store T R

pub data Disposition (R : Type 0) : Type 0 where
  taken_on : Work R → Disposition R
  active missing : Disposition R
  -- The terminal status, and the failure code where there is one.
  terminal : Status → Option FailureCode → Disposition R

module _ {R : Type 0} where
  abbrev pub change : Option (Work R) → (Work R → Option (Work R)) → Option (Work R)
  change none f = none
  change (some w) f = f w

  abbrev pub write_back : String → Option (Work R) → JsMap (Work R) → JsMap (Work R) × Bool
  write_back id none m = (m, false)
  write_back id (some w) m = (set id w m, true)

  -- Look the item up, change it or refuse, and write it back.
  unfoldable pub update :
      String → (Work R → Option (Work R)) → JsMap (Work R) → JsMap (Work R) × Bool
  update id f m = write_back id (change (get id m) f) m

  abbrev pub cleared : Work R → Option (Work R)
  cleared w =
      if is_terminal w.status && is_some w.pending_job_update
      then some (record w { pending_job_update = none })
      else none

  -- `live`: an item that has expired is deleted, and found no more.
  abbrev pub prune : String → ℕ → Option (Work R) → JsMap (Work R) → JsMap (Work R)
  prune id now none m = delete id m
  prune id now (some w) m = if leb w.expires_at now then delete id m else m

  abbrev pub unexpired : ℕ → Option (Work R) → Option (Work R)
  unexpired now none = none
  unexpired now (some w) = if leb w.expires_at now then none else some w

  unfoldable pub update_live :
      String → ℕ → (Work R → Option (Work R)) → JsMap (Work R) → JsMap (Work R) × Bool
  update_live id now f m =
      write_back id (change (unexpired now (get id m)) f) (prune id now (get id m) m)

  -- The loop of `listPendingEnqueue`: every item is looked up anew by `live`, which reads
  -- the clock: `readings` are the times that it reads, in order.
  unfoldable pub live_works :
      (ℕ → ℕ) → List (Work R) → JsMap (Work R) → JsMap (Work R) × List (Work R)
  live_works readings [] m = (m, [])
  live_works readings (w ∷ ws) m =
      let found = unexpired (readings 0) (get w.id m) in
      let (m', rest) =
        live_works (λ n. readings (suc n)) ws (prune w.id (readings 0) (get w.id m) m) in
      (m', elim found [ none ↦ rest | some v ↦ v ∷ rest ])

  unfoldable pub list_pending_enqueue :
      ℕ → (ℕ → ℕ) → JsMap (Work R) → JsMap (Work R) × List (Work R)
  unfolding live_works
  list_pending_enqueue limit readings m =
      let (m', live) = live_works readings (values m) m in
      (m', take limit (select (λ w. is_pending_enqueue w.status) live))

module _ {T R : Type 0} where
  unfoldable pub create : WorkInput → String → ℕ → Stores T R → Stores T R × Option (Work R)
  create input id now s = elim (created input id now) [
    | none ↦ (s, none)
    | some w ↦ (record s { works = set w.id w s.works }, some w)
  ]

  abbrev pub on_works : Stores T R → JsMap (Work R) × Bool → Stores T R × Bool
  on_works s (m, answer) = (record s { works = m }, answer)

  unfoldable pub mark_enqueued : String → ℕ → Stores T R → Stores T R × Bool
  unfolding update_live
  mark_enqueued id now s = on_works s (update_live id now enqueued s.works)

  unfoldable pub cancel_pending_enqueue :
      String → FailureCode → ℕ → ℕ → Stores T R → Stores T R × Bool
  unfolding update_live
  cancel_pending_enqueue id code now completed_at s =
      on_works s (update_live id now (cancelled code completed_at) s.works)

  abbrev pub report : Work R → JobUpdate R → ℕ → Jobs.Store T R → Jobs.Store T R
  report w (has_result result) job_now jobs = Jobs.complete w.job_id result none job_now jobs
  report w (has_failed code) job_now jobs = Jobs.fail w.job_id (failure_text code) jobs

  -- `reconcileTerminalJobUpdate`: report the outcome to the job store, then drop the pending report.
  unfoldable pub reconcile_with : Option (JobUpdate R) → Work R → ℕ → Stores T R → Stores T R
  reconcile_with none w job_now s = s
  reconcile_with (some pending) w job_now s = record s {
    jobs = report w pending job_now s.jobs;
    works = (update w.id cleared s.works).0;
  }

  unfoldable pub reconcile : Work R → ℕ → Stores T R → Stores T R
  unfolding reconcile_with update
  reconcile w job_now s = reconcile_with w.pending_job_update w job_now s

  -- What `claimForProcessing` does with an item that is there and has not expired.
  unfoldable pub dispose :
      String → String → ℕ → ℕ → ℕ → Work R → Stores T R → Stores T R × Disposition R
  unfolding taken abandoned
  dispose id claim_id lease_ms now job_now w s =
      if is_terminal w.status
      then (reconcile w job_now s, terminal w.status w.failure_code)
      else if is_publishing w.status
      then (if not (has_passed w.publishing_expires_at now) then (s, active) else (
        reconcile (abandoned now w) job_now (record s { works = set id (abandoned now w) s.works }),
        terminal failed (some publication_abandoned),
      ))
      else if is_queued w.status || (is_claimed w.status && has_passed w.claim_expires_at now)
      then (
        record s { works = set id (taken claim_id lease_ms now w) s.works },
        taken_on (taken claim_id lease_ms now w),
      )
      else (s, active)

  unfoldable pub dispose_found :
      String → String → ℕ → ℕ → ℕ → Option (Work R) → Stores T R → Stores T R × Disposition R
  dispose_found id claim_id lease_ms now job_now none s =
      (record s { works = delete id s.works }, missing)
  dispose_found id claim_id lease_ms now job_now (some w) s =
      if not (w.id == id) || leb w.expires_at now
      then (record s { works = delete id s.works }, missing)
      else dispose id claim_id lease_ms now job_now w s

  unfoldable pub claim_for_processing :
      String → String → ℕ → ℕ → ℕ → Stores T R → Stores T R × Disposition R
  unfolding dispose_found dispose
  claim_for_processing id claim_id lease_ms now job_now s =
      dispose_found id claim_id lease_ms now job_now (get id s.works) s

  unfoldable pub claim : String → String → ℕ → ℕ → ℕ → Stores T R → Stores T R × Option (Work R)
  claim id claim_id lease_ms now job_now s =
      let (s', answer) = claim_for_processing id claim_id lease_ms now job_now s in
      (s', elim answer [ taken_on w ↦ some w | _ ↦ none ])

  unfoldable pub begin_publishing :
      String → String → ℕ → Option ℕ → ℕ → Stores T R → Stores T R × Bool
  unfolding update
  begin_publishing id claim_id lease_ms deadline now s =
      on_works s (update id (published claim_id lease_ms deadline now) s.works)

  unfoldable pub record_asset : String → String → String → ℕ → Stores T R → Stores T R × Bool
  unfolding update
  record_asset id claim_id asset_id now s =
      on_works s (update id (with_asset claim_id asset_id now) s.works)

  unfoldable pub record_upload_descriptor :
      String → String → UploadDescriptor → ℕ → Stores T R → Stores T R × Bool
  unfolding update
  record_upload_descriptor id claim_id d now s =
      on_works s (update id (with_descriptor claim_id d now) s.works)

  unfoldable pub release_for_retry : String → String → ℕ → Stores T R → Stores T R × Bool
  unfolding update
  release_for_retry id claim_id now s = on_works s (update id (released claim_id now) s.works)

  unfoldable pub terminal_status : String → ℕ → Stores T R → Stores T R × Option Status
  terminal_status id now s = (
    record s { works = prune id now (get id s.works) s.works },
    elim (unexpired now (get id s.works)) [
      | none ↦ none
      | some w ↦ if is_terminal w.status then some w.status else none
    ],
  )

  -- `complete` and `fail`: end the item, then report to the job store.
  unfoldable pub conclude : String → Option (Work R) → ℕ → Stores T R → Stores T R × Bool
  unfolding reconcile
  conclude id none job_now s = (s, false)
  conclude id (some w) job_now s =
      (reconcile w job_now (record s { works = set id w s.works }), true)

  unfoldable pub complete : String → String → R → ℕ → ℕ → Stores T R → Stores T R × Bool
  unfolding conclude
  complete id claim_id result now job_now s =
      conclude id (change (get id s.works) (completed_with claim_id result now)) job_now s

  unfoldable pub fail : String → String → FailureCode → ℕ → ℕ → Stores T R → Stores T R × Bool
  unfolding conclude
  fail id claim_id code now job_now s =
      conclude id (change (get id s.works) (failed_with claim_id code now)) job_now s
