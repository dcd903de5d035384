-- ===== src/ScanWork/Examples.antt =====
-- Runs of the scan work store, and the theorems at concrete inputs.
use hhc_line_function_bot.Prelude.{
  ◌⊎◌, is_blank, ℕ, ◌≡◌, refl, true, false, none, some, List, [], ◌∷◌, arith, eq_iff,
}
use hhc_line_function_bot.JsMap.{get, set, delete}
use hhc_line_function_bot.ScanWork.{
  pending_enqueue, queued, claimed, publishing, completed, WorkInput, UploadDescriptor, Work,
  publish_failed, created, new_work, enqueued, taken, published, completed_with, ends,
  bounded_expiry,
}
use hhc_line_function_bot.ScanWork.Store.{
  Stores, active, update, update_live, create, mark_enqueued, reconcile_with, reconcile, dispose,
  dispose_found, claim_for_processing, begin_publishing, record_asset, record_upload_descriptor,
  release_for_retry, conclude, complete, fail,
}
use hhc_line_function_bot.Jobs.{is_some}
use hhc_line_function_bot.ScanWork.History.{
  Call, marks, claims, publishes, assets, releases, completes, step, run, Holds,
}
use hhc_line_function_bot.Jobs
use hhc_line_function_bot.Jobs.{Scope}
use hhc_line_function_bot.ScanWork.Shape.{IsValid, run-IsValid}
use hhc_line_function_bot.ScanWork.Claims.{claim_fences}
use hhc_line_function_bot.ScanWork.Exclusive.{claim_excludes}
use hhc_line_function_bot.ScanWork.Publication.{IsPublishedBy, as_completed}
use hhc_line_function_bot.ScanWork.Outcome.{published_once, complete_reports}

abbrev group : Scope
group = record { profile_name = "helper"; source_key = "group:G"; requester_user_id = some "U" }

abbrev input : WorkInput
input = record {
  job_id = "j1";
  line_message_id = "m1";
  scope = group;
  target = record { source_key = "group:G"; item_kind = "sheet"; domain = "music"; title = "Hymn" };
  ttl_ms = 1000;
  external_url = none;
}

abbrev waiting : Work ℕ
waiting = record {
  id = "w1";
  job_id = "j1";
  line_message_id = "m1";
  asset_id = none;
  upload_descriptor = none;
  scope = group;
  target = input.target;
  status = pending_enqueue;
  failure_code = none;
  created_at = 0;
  claimed_at = none;
  claim_id = none;
  claim_expires_at = none;
  publishing_at = none;
  publishing_expires_at = none;
  pending_job_update = none;
  completed_at = none;
  expires_at = 1000;
}

abbrev in_queue : Work ℕ
in_queue = record waiting { status = queued }

abbrev held : Work ℕ
held = record in_queue {
  status = claimed;
  claimed_at = some 10;
  claim_id = some "c1";
  claim_expires_at = some 60;
}

abbrev on_its_way : Work ℕ
on_its_way = record held {
  status = publishing;
  claim_expires_at = none;
  publishing_at = some 20;
  publishing_expires_at = some 120;
}

abbrev job : Jobs.Job ℕ ℕ
job = record {
  context_token = none;
  id = "j1";
  scope = group;
  capability = none;
  label = "scan";
  status = Jobs.pending;
  result = none;
  error = none;
  execution_started_at = none;
  execution_lease_until = none;
  created_at = 0;
  expires_at = 1000;
}

abbrev holding : Work ℕ → Stores ℕ ℕ
holding w = record { works = ("w1", w) ∷ []; jobs = ("j1", job) ∷ [] }

abbrev calls : List (Call ℕ)
calls =
    marks "w1" 5
    ∷ claims "w1" "c1" 50 10 10
    ∷ publishes "w1" "c1" 100 none 20
    ∷ completes "w1" "c1" 7 30 30
    ∷ []

-- From the queue to the outcome, which the job store is told.
end_to_end : run (holding waiting) calls ≡ (record {
  works =
      ("w1", record on_its_way { status = completed; claim_id = none; completed_at = some 30 })
      ∷ [];
  jobs = ("j1", record job { status = Jobs.completed; result = some 7 }) ∷ [];
})
unfolding run step mark_enqueued update_live enqueued claim_for_processing dispose_found dispose
    taken begin_publishing update published bounded_expiry complete completed_with conclude
    reconcile reconcile_with get set delete ends Jobs.complete
end_to_end = refl

run-IsValid_example : Holds IsValid (
    get "w1"
      (run
        (create {R = ℕ} input "w1" 0 (record { works = []; jobs = ("j1", job) ∷ [] })).0
        calls).works)
unfolding create created is_blank new_work get set
run-IsValid_example =
    run-IsValid input "w1" 0 (record { works = []; jobs = ("j1", job) ∷ [] }) calls {w = waiting}
      refl (omega arith)

abbrev descriptor : UploadDescriptor
descriptor = record {
  file_name = "hymn.pdf";
  mime_type = "application/pdf";
  size_bytes = 9;
  checksum_sha256 = "00";
}

claim_fences_example :
    (begin_publishing "w1" "c2" 100 none 20 (holding held) ≡ (holding held, false))
    × (record_asset "w1" "c2" "a1" 20 (holding held) ≡ (holding held, false))
    × (record_upload_descriptor "w1" "c2" descriptor 20 (holding held) ≡ (holding held, false))
    × (release_for_retry "w1" "c2" 20 (holding held) ≡ (holding held, false))
    × (complete "w1" "c2" 7 20 20 (holding held) ≡ (holding held, false))
    × (fail "w1" "c2" publish_failed 20 20 (holding held) ≡ (holding held, false))
unfolding get
claim_fences_example =
    claim_fences "w1" "c2" "a1" descriptor 7 publish_failed none 100 20 20 (holding held) held refl
      (ground (arith, eq_iff "c1" "c2"))

claim_excludes_example :
    let s' =
      run
        (claim_for_processing "w1" "c1" 50 10 10 (holding in_queue)).0
        (claims "w1" "c3" 50 20 20 ∷ assets "w1" "c1" "a1" 25 ∷ releases "w1" "c2" 26 ∷ []) in
    claim_for_processing "w1" "c2" 50 30 30 s' ≡ (s', active)
unfolding claim_for_processing dispose_found dispose taken get
claim_excludes_example =
    claim_excludes "w1" "c1" "c2" 50 50 10 30 10 30 (holding in_queue)
      (claims "w1" "c3" 50 20 20 ∷ assets "w1" "c1" "a1" 25 ∷ releases "w1" "c2" 26 ∷ []) {w = held}
      refl (omega arith, (tt, (tt, tt))) (omega arith, (tt, (ground (arith, eq_iff "c2" "c1"), tt)))
      (omega arith) (omega arith)

published_once_example :
    let s' = run (begin_publishing "w1" "c1" 100 none 20 (holding held)).0 calls in
    begin_publishing "w1" "c2" 100 none 30 s' ≡ (s', false)
unfolding get begin_publishing update published bounded_expiry
published_once_example =
    published_once "w1" "c1" "c2" 100 100 20 30 none none (holding held) calls held refl refl refl
      (omega arith)

complete_reports_example :
    let r = complete "w1" "c1" 7 30 30 (holding on_its_way) in
    ((r.1 ≡ true)
      × IsPublishedBy "c1" 30 on_its_way
      × (get "w1" r.0.works ≡ some (as_completed 7 30 none on_its_way))
      × (r.0.jobs ≡ Jobs.complete "j1" 7 none 30 (("j1", job) ∷ [])))
    ⊎ ((r ≡ (holding on_its_way, false)) × ¬ IsPublishedBy "c1" 30 on_its_way)
unfolding get
complete_reports_example =
    complete_reports "w1" "c1" 7 30 30 (holding on_its_way) on_its_way refl refl
