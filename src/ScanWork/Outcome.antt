-- ===== src/ScanWork/Outcome.antt =====
-- How a work item ends: one publication, and an outcome that the job store is told.
use hhc_line_function_bot.Prelude.{
  ℕ, ◌≤◌, String, Bool-cases, ◌≡◌, refl, sym, ap, ◌∙◌, ◌⊎◌, inl, inr, Bool, true, false, Option,
  none, some, List, arith, Option-cases,
}
use hhc_line_function_bot.JsMap.{get, set, get-set_self}
use hhc_line_function_bot.ScanWork.{
  Status, publishing, completed, failed, JobUpdate, has_result, Work, is_terminal, enqueued,
  cancelled, taken, abandoned, published, with_asset, with_descriptor, released, completed_with,
  failed_with, ends,
}
use hhc_line_function_bot.ScanWork.Store.{
  Stores, update, report, cleared, reconcile_with, reconcile, begin_publishing, conclude, complete,
  on_works,
}
use hhc_line_function_bot.Jobs.{is_some}
use mathlib.Core.Path.{subst}
use hhc_line_function_bot.ScanWork.History.{
  Call, run, AllEarly, Holds, Change, by_enqueue, by_cancel, by_claim, by_abandon, by_publish,
  by_asset, by_descriptor, by_release, by_complete, by_fail, by_report, Stable,
}
use mathlib.Core.Bool.{false≢true}
use hhc_line_function_bot.Jobs
use hhc_line_function_bot.ScanWork.Calls.{run_keeps}
use hhc_line_function_bot.ScanWork.Publication.{
  IsPublishedBy, as_completed, IsPublishedBy-ends, ends-IsPublishedBy,
}
use hhc_line_function_bot.ScanWork.Claims.{update-accepts, update-refuses}

-- Publication has begun: the item is publishing, completed or failed.
abbrev pub has_begun : Status → Bool
has_begun publishing = true
has_begun completed = true
has_begun failed = true
has_begun _ = false

module _ {R : Type 0} where
  abbrev Begun : ℕ → String → Work R → Type 0
  Begun until id w = (has_begun w.status ≡ true) × (w.id ≡ id) × (until ≤ w.expires_at)

  Change-Begun :
      (until : ℕ) (id : String) (w v : Work R) → Begun until id w → Change w v → Begun until id v
  unfolding enqueued cancelled taken abandoned published with_asset with_descriptor released
      completed_with failed_with
  Change-Begun until id w v p (by_enqueue e) = ground arith
  Change-Begun until id w v p (by_cancel code now e) = ground arith
  Change-Begun until id w v p (by_claim claim_id lease_ms now free e) = ground arith
  Change-Begun until id w v p (by_abandon now b passed e) = ground arith
  Change-Begun until id w v p (by_publish claim_id lease_ms deadline now e) = ground arith
  Change-Begun until id w v p (by_asset claim_id asset_id now e) = ground arith
  Change-Begun until id w v p (by_descriptor claim_id d now e) = ground arith
  Change-Begun until id w v p (by_release claim_id now e) = ground arith
  Change-Begun until id w v p (by_complete claim_id result now e) = ground arith
  Change-Begun until id w v p (by_fail claim_id code now e) = ground arith
  Change-Begun until id w v p (by_report e) = ground arith

  Begun-Stable : (until : ℕ) (id : String) → Stable until id Change (Begun until id)
  Begun-Stable until id = record {
    lasting = λ w p. p.2;
    named = λ w p. p.1;
    kept = λ w v p c. Change-Begun until id w v p c;
  }

  published-Begun :
      (claim_id : String) (lease_ms : ℕ) (deadline : Option ℕ) (now : ℕ) (w v : Work R)
      → published claim_id lease_ms deadline now w ≡ some v
      → Begun w.expires_at w.id v
  unfolding published
  published-Begun claim_id lease_ms deadline now w v e = ground arith

module _ {T R : Type 0} where
  refuses-Begun :
      (until : ℕ) (id claim_id : String) (lease_ms : ℕ) (deadline : Option ℕ) (now : ℕ)
      (s : Stores T R) (o : Option (Work R))
      → get id s.works ≡ o
      → Holds (Begun until id) o
      → begin_publishing id claim_id lease_ms deadline now s ≡ (s, false)
  refuses-Begun until id claim_id lease_ms deadline now s none g h = absurd h
  refuses-Begun until id claim_id lease_ms deadline now s (some w) g h =
      unfold begin_publishing published in
      ap (on_works s)
        (update-refuses id (published claim_id lease_ms deadline now) s.works g (ground arith))

  -- An item is published at most once. When `beginPublishing` has answered `true`, then after any calls
  -- before the item expires, none of which creates its id anew, it answers `false` for the item, under
  -- every claim id, and changes nothing.
  pub published_once :
      (id claim_id other : String) (lease_ms lease_ms' now later : ℕ)
      (deadline deadline' : Option ℕ) (s : Stores T R) (cs : List (Call R)) (w : Work R)
      → get id s.works ≡ some w
      → w.id ≡ id
      → (begin_publishing id claim_id lease_ms deadline now s).1 ≡ true
      → AllEarly w.expires_at id cs
      → let s' = run (begin_publishing id claim_id lease_ms deadline now s).0 cs in
        begin_publishing id other lease_ms' deadline' later s' ≡ (s', false)
  published_once id claim_id other lease_ms lease_ms' now later deadline deadline' s cs w g named ok
        all =
      refuses-Begun w.expires_at id other lease_ms' deadline' later _ _ refl (
        run_keeps w.expires_at id (Begun w.expires_at id) (Begun-Stable w.expires_at id)
          (begin_publishing id claim_id lease_ms deadline now s).0 cs all
          (begins (Option-cases (published claim_id lease_ms deadline now w))))
    where
      begins :
          (published claim_id lease_ms deadline now w ≡ none)
            ⊎ ((v : Work R) × (published claim_id lease_ms deadline now w ≡ some v))
          → Holds
              (Begun w.expires_at id)
              (get id (begin_publishing id claim_id lease_ms deadline now s).0.works)
      begins (inl no_change) =
          let e =
            update-refuses id (published claim_id lease_ms deadline now) s.works g no_change in
          let e' : (begin_publishing id claim_id lease_ms deadline now s).1 ≡ false =
            unfold begin_publishing in ap (λ r. (on_works s r).1) e in
          absurd (false≢true (sym e' ∙ ok))
      begins (inr (v, change_)) =
          let e = update-accepts id (published claim_id lease_ms deadline now) s.works g change_ in
          let e' : (begin_publishing id claim_id lease_ms deadline now s).0.works
              ≡ set id v s.works =
            unfold begin_publishing in ap (λ r. (on_works s r).0.works) e in
          rw (e', get-set_self)
            (subst (λ i. Begun w.expires_at i v) named
              (published-Begun claim_id lease_ms deadline now w v change_))

  -- The report of an item that is terminal and has one pending: the job store is told, and the pending
  -- report is dropped.
  reconciles :
      (id : String) (u : JobUpdate R) (v : Work R) (job_now : ℕ) (s : Stores T R)
      → get id s.works ≡ some v
      → v.id ≡ id
      → is_terminal v.status ≡ true
      → v.pending_job_update ≡ some u
      → (get id (reconcile v job_now s).works ≡ some (record v { pending_job_update = none }))
        × ((reconcile v job_now s).jobs ≡ report v u job_now s.jobs)
  unfolding reconcile reconcile_with
  reconciles id u v job_now s g named over pending =
      let v' = record v { pending_job_update = none } in
      let e =
        update-accepts v.id cleared s.works {w = v} {v = v'} (ap (λ i. get i s.works) named ∙ g)
          (ground arith) in
      told pending (ap (λ r. r.0) e)
    where
      told :
          v.pending_job_update ≡ some u
          → (update v.id cleared s.works).0
            ≡ set v.id (record v { pending_job_update = none }) s.works
          → (get id (reconcile_with v.pending_job_update v job_now s).works
              ≡ some (record v { pending_job_update = none }))
            × ((reconcile_with v.pending_job_update v job_now s).jobs ≡ report v u job_now s.jobs)
      told p e = rw p (rw (reconcile_with, e, named, get-set_self) (refl, refl))

  -- The outcome is told, by the right claimant only. `complete` answers `true` exactly when the item is
  -- publishing under the caller's claim id, and neither the publication's lease nor the item has expired.
  -- Then the item is completed, with its claim given up and no report pending, and the job store has been
  -- told the result for the item's job; else nothing has changed, in the items or the jobs.
  pub complete_reports :
      (id claim_id : String) (result : R) (now job_now : ℕ) (s : Stores T R) (w : Work R)
      → get id s.works ≡ some w
      → w.id ≡ id
      → let r = complete id claim_id result now job_now s in
        ((r.1 ≡ true)
          × IsPublishedBy claim_id now w
          × (get id r.0.works ≡ some (as_completed result now none w))
          × (r.0.jobs ≡ Jobs.complete w.job_id result none job_now s.jobs))
        ⊎ ((r ≡ (s, false)) × ¬ IsPublishedBy claim_id now w)
  complete_reports id claim_id result now job_now s w g named =
      elim (Bool-cases (ends false claim_id now w)) [
        | inl over ↦ inl (
            let v = as_completed result now (some (has_result result)) w in
            let e : completed_with claim_id result now w ≡ some v =
              unfold completed_with in rw over refl in
            let r =
              reconciles id (has_result result) v job_now (record s { works = set id v s.works })
                (get-set_self id v s.works) named refl refl in
            unfold complete conclude in
            rw g (rw e (refl, ends-IsPublishedBy claim_id now w over, r.0, r.1)))
        | inr refused ↦ inr (
          unfold complete completed_with in rw (g, refused) (unfold conclude in refl),
          λ p. false≢true (sym refused ∙ IsPublishedBy-ends claim_id now w p),
        )
      ]
