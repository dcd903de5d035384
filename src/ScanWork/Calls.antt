-- ===== src/ScanWork/Calls.antt =====
-- The same for whole calls and for histories of calls.
use hhc_line_function_bot.Prelude.{
  ℕ, ◌<◌, String, ◌≡◌, refl, sym, ap, ◌∙◌, inl, inr, All, true, false, not, ◌&&◌, ◌||◌, Option,
  none, some, List, [], ◌∷◌, arith, ◌==◌, eq_iff, leb, Bool-cases, lt→not_leb,
}
use hhc_line_function_bot.JsMap.{get, set, values, get-set}
use hhc_line_function_bot.ScanWork.{
  WorkInput, JobUpdate, Work, is_queued, is_claimed, is_publishing, is_terminal, has_passed,
  created, new_work, enqueued, cancelled, taken, abandoned, published, with_asset, with_descriptor,
  released, completed_with, failed_with,
}
use hhc_line_function_bot.ScanWork.Store.{
  Stores, change, list_pending_enqueue, create, mark_enqueued, cancel_pending_enqueue, cleared,
  reconcile_with, reconcile, dispose, dispose_found, claim_for_processing, begin_publishing,
  record_asset, record_upload_descriptor, release_for_retry, terminal_status, conclude, complete,
  fail,
}
use mathlib.Core.Path.{subst}
use hhc_line_function_bot.ScanWork.History.{
  Call, creates, marks, cancels, lists, claims, publishes, assets, descriptors, releases, asks,
  completes, fails, step, run, Early, AllEarly, Holds, Change, Made, Made-Change, Stable,
}
use hhc_line_function_bot.ScanWork.Kept.{
  at_key, set_keeps, delete_keeps, update_keeps, prune_keeps, update_live_keeps, live_works_keeps,
}

All-allowed : {A : Type 0} (xs : List A) → All {0, 0} (λ x. Unit) xs
All-allowed [] = tt
All-allowed (x ∷ xs) = (tt, All-allowed xs)

module _ {T R : Type 0} (until : ℕ) (id : String) (C : Work R → Work R → Type 0)
    (P : Work R → Type 0) (stable : Stable until id C P)
    (reports : (w v : Work R) → cleared w ≡ some v → C w v) where
  reconcile_with_keeps :
      (o : Option (JobUpdate R)) (w : Work R) (job_now : ℕ) (s : Stores T R)
      → Holds P (get id s.works)
      → Holds P (get id (reconcile_with o w job_now s).works)
  unfolding reconcile_with
  reconcile_with_keeps none w job_now s h = h
  reconcile_with_keeps (some pending) w job_now s h =
      update_keeps until id C P stable w.id cleared s.works reports h

  reconcile_keeps :
      (w : Work R) (job_now : ℕ) (s : Stores T R)
      → Holds P (get id s.works)
      → Holds P (get id (reconcile w job_now s).works)
  unfolding reconcile
  reconcile_keeps w job_now s h = reconcile_with_keeps w.pending_job_update w job_now s h

  conclude_keeps :
      (k : String) (f : Work R → Option (Work R)) (o : Option (Work R)) (job_now : ℕ)
      (s : Stores T R)
      → ((w v : Work R) → f w ≡ some v → C w v)
      → Holds P (get id s.works)
      → get k s.works ≡ o
      → Holds P (get id (conclude k (change o f) job_now s).0.works)
  unfolding conclude
  conclude_keeps k f none job_now s make h g = h
  conclude_keeps k f (some w) job_now s make h g = concluded (f w) refl
    where
      concluded :
          (o : Option (Work R)) → f w ≡ o → Holds P (get id (conclude k o job_now s).0.works)
      concluded none e = h
      concluded (some v) e =
          reconcile_keeps v job_now (record s { works = set k v s.works })
            (set_keeps until id C P stable k v s.works h (λ same.
              stable.kept w v (at_key until id C P stable k s.works same h g) (make w v e)))

-- The same for `claimForProcessing`.
module _ {T R : Type 0} (until : ℕ) (id : String) (P : Work R → Type 0) (k claim_id : String)
    (lease_ms now job_now : ℕ)
    (stable : Stable until id (Made (claims k claim_id lease_ms now job_now)) P) where
  dispose_keeps :
      (w : Work R) (s : Stores T R)
      → get k s.works ≡ some w
      → Holds P (get id s.works)
      → Holds P (get id (dispose k claim_id lease_ms now job_now w s).0.works)
  unfolding dispose
  dispose_keeps w s g h = elim (Bool-cases (is_terminal w.status)) [
    | inl over ↦ rw over (reconcile_keeps until id _ P stable (λ w v e. inr (inr e)) w job_now s h)
    | inr open_ ↦ rw open_ (elim (Bool-cases (is_publishing w.status)) [
      | inl publishing_ ↦
          rw publishing_ (elim (Bool-cases (has_passed w.publishing_expires_at now)) [
            | inl passed ↦ rw passed (
                reconcile_keeps until id _ P stable (λ w v e. inr (inr e)) (abandoned now w) job_now
                  (record s { works = set k (abandoned now w) s.works })
                  (set_keeps until id _ P stable k (abandoned now w) s.works h
                    (λ same. changed same (inr (inl (publishing_, passed, refl))))))
            | inr not_yet ↦ rw not_yet h
          ])
      | inr not_publishing ↦
          rw not_publishing
            (elim (Bool-cases
              (is_queued w.status || (is_claimed w.status && has_passed w.claim_expires_at now))) [
                | inl free ↦ rw free (
                    set_keeps until id _ P stable k (taken claim_id lease_ms now w) s.works h
                      (λ same. changed same (inl (free, refl))))
                | inr held ↦ rw held h
              ])
    ])
  ]
    where
      changed :
          {v : Work R} → (k == id) ≡ true → Made (claims k claim_id lease_ms now job_now) w v → P v
      changed {v} same c = stable.kept w v (at_key until id _ P stable k s.works same h g) c

  dispose_found_keeps :
      (o : Option (Work R)) (s : Stores T R)
      → get k s.works ≡ o
      → now < until
      → Holds P (get id s.works)
      → Holds P (get id (dispose_found k claim_id lease_ms now job_now o s).0.works)
  unfolding dispose_found
  dispose_found_keeps o s g early h = elim (Bool-cases (k == id)) [
    | inl same ↦ here same o g
    | inr other ↦ elsewhere other o g
  ]
    where
      here :
          (k == id) ≡ true
          → (o : Option (Work R)) → get k s.works ≡ o
          → Holds P (get id (dispose_found k claim_id lease_ms now job_now o s).0.works)
      here same none g =
          absurd (subst (Holds P) (ap (λ i. get i s.works) (sym ((eq_iff k id).0 same)) ∙ g) h)
      here same (some w) g =
          let p = at_key until id _ P stable k s.works same h g in
          let named : (w.id == k) ≡ true =
            (eq_iff w.id k).1 (stable.named w p ∙ sym ((eq_iff k id).0 same)) in
          let late = stable.lasting w p in
          rw (named, lt→not_leb now w.expires_at (omega arith)) (dispose_keeps w s g h)

      elsewhere :
          (k == id) ≡ false
          → (o : Option (Work R)) → get k s.works ≡ o
          → Holds P (get id (dispose_found k claim_id lease_ms now job_now o s).0.works)
      elsewhere other none g = delete_keeps until id _ P stable k s.works other h
      elsewhere other (some w) g = elim (Bool-cases (not (w.id == k) || leb w.expires_at now)) [
        | inl gone ↦ rw gone (delete_keeps until id _ P stable k s.works other h)
        | inr there ↦ rw there (dispose_keeps w s g h)
      ]

module _ {T R : Type 0} (until : ℕ) (id : String) (P : Work R → Type 0) where
  create_keeps :
      (input : WorkInput) (new_id : String) (now : ℕ) (s : Stores T R)
      → (new_id == id) ≡ false
      → Holds P (get id s.works)
      → Holds P (get id (create input new_id now s).0.works)
  unfolding create created
  create_keeps input new_id now s other h =
      let put : Holds P (get id (set new_id (new_work input new_id now) s.works)) =
        rw (get-set, other) h in
      ground (arith, h, put)

  step_keeps :
      (s : Stores T R) (c : Call R)
      → Stable until id (Made c) P
      → Early until id c
      → Holds P (get id s.works)
      → Holds P (get id (step s c).works)
  unfolding step mark_enqueued cancel_pending_enqueue list_pending_enqueue claim_for_processing
      begin_publishing record_asset record_upload_descriptor release_for_retry terminal_status
      complete fail
  step_keeps s (creates input new_id now) stable e h = create_keeps input new_id now s e h
  step_keeps s (marks k now) stable e h =
      update_live_keeps until id _ P stable k now enqueued s.works (λ w v x. x) e h
  step_keeps s (cancels k code now completed_at) stable e h =
      update_live_keeps until id _ P stable k now (cancelled code completed_at) s.works (λ w v x. x)
        e h
  step_keeps s (lists limit readings) stable e h =
      live_works_keeps until id _ P stable readings (values s.works) s.works e h
  step_keeps s (claims k claim_id lease_ms now job_now) stable e h =
      dispose_found_keeps until id P k claim_id lease_ms now job_now stable _ s refl e h
  step_keeps s (publishes k claim_id lease_ms deadline now) stable e h =
      update_keeps until id _ P stable k (published claim_id lease_ms deadline now) s.works
        (λ w v x. x) h
  step_keeps s (assets k claim_id asset_id now) stable e h =
      update_keeps until id _ P stable k (with_asset claim_id asset_id now) s.works (λ w v x. x) h
  step_keeps s (descriptors k claim_id d now) stable e h =
      update_keeps until id _ P stable k (with_descriptor claim_id d now) s.works (λ w v x. x) h
  step_keeps s (releases k claim_id now) stable e h =
      update_keeps until id _ P stable k (released claim_id now) s.works (λ w v x. x) h
  step_keeps s (asks k now) stable e h = prune_keeps until id _ P stable k now s.works _ refl e h
  step_keeps s (completes k claim_id result now job_now) stable e h =
      conclude_keeps until id _ P stable (λ w v x. inr x) k (completed_with claim_id result now) _
        job_now s (λ w v x. inl x) h refl
  step_keeps s (fails k claim_id code now job_now) stable e h =
      conclude_keeps until id _ P stable (λ w v x. inr x) k (failed_with claim_id code now) _
        job_now s (λ w v x. inl x) h refl

  -- What every call of the history keeps holds of the item after it, until the item expires.
  pub run_allowed_keeps :
      (Allowed : Call R → Type 0)
      → ((c : Call R) → Allowed c → Stable until id (Made c) P)
      → (s : Stores T R) (cs : List (Call R)) → AllEarly until id cs
      → All Allowed cs
      → Holds P (get id s.works)
      → Holds P (get id (run s cs).works)
  unfolding run
  run_allowed_keeps Allowed stable s [] e a h = h
  run_allowed_keeps Allowed stable s (c ∷ cs) (e, rest) (a, others) h =
      run_allowed_keeps Allowed stable (step s c) cs rest others (step_keeps s c (stable c a) e h)

  -- What every change keeps holds of the item after any calls, until it expires.
  pub run_keeps :
      Stable until id Change P
      → (s : Stores T R) (cs : List (Call R)) → AllEarly until id cs
      → Holds P (get id s.works)
      → Holds P (get id (run s cs).works)
  run_keeps stable s cs e h =
      run_allowed_keeps (λ c. Unit)
        (λ c a. record {
          lasting = stable.lasting;
          named = stable.named;
          kept = λ w v p m. stable.kept w v p (Made-Change c w v m);
        })
        s cs e (All-allowed cs) h
