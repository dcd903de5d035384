-- ===== src/ScanWork/Claims.antt =====
-- Who may change a claimed item: the holder of the claim, for as long as it runs.
use hhc_line_function_bot.Prelude.{
  ℕ, ◌+◌, ◌<◌, String, ◌≡◌, refl, ap, ◌≢◌, inl, inr, true, false, not, ◌||◌, Option, none, some,
  arith, ◌==◌, eq_iff, leb, Bool-cases, same_text, same_text_iff,
}
use hhc_line_function_bot.JsMap.{JsMap, get, set, get-set_self}
use hhc_line_function_bot.ScanWork.{
  claimed, publishing, FailureCode, UploadDescriptor, Work, taken, published, with_asset,
  with_descriptor, released, completed_with, failed_with, bounded_expiry,
}
use hhc_line_function_bot.ScanWork.Store.{
  Stores, taken_on, missing, update, dispose, dispose_found, claim_for_processing, begin_publishing,
  record_asset, record_upload_descriptor, release_for_retry, complete, fail, on_works,
}

module _ {R : Type 0} where
  pub update-refuses :
      (id : String) (f : Work R → Option (Work R)) (m : JsMap (Work R)) {w : Work R}
      → get id m ≡ some w
      → f w ≡ none
      → update id f m ≡ (m, false)
  unfolding update
  update-refuses id f m g h = rw (g, update) (rw h)

  pub update-accepts :
      (id : String) (f : Work R → Option (Work R)) (m : JsMap (Work R)) {w v : Work R}
      → get id m ≡ some w
      → f w ≡ some v
      → update id f m ≡ (set id v m, true)
  unfolding update
  update-accepts id f m g h = rw (g, update) (rw h)

module _ {T R : Type 0} where
  -- A stale claimant is fenced off. Of an item whose claim id is another one (or that has none), every
  -- call that a claimant makes under its own id is refused and changes nothing: it cannot publish, record
  -- an asset or a descriptor, release, complete or fail the item.
  pub claim_fences :
      (id claim_id asset_id : String) (d : UploadDescriptor) (result : R) (code : FailureCode)
      (deadline : Option ℕ) (lease_ms now job_now : ℕ) (s : Stores T R) (w : Work R)
      → get id s.works ≡ some w
      → w.claim_id ≢ some claim_id
      → (begin_publishing id claim_id lease_ms deadline now s ≡ (s, false))
        × (record_asset id claim_id asset_id now s ≡ (s, false))
        × (record_upload_descriptor id claim_id d now s ≡ (s, false))
        × (release_for_retry id claim_id now s ≡ (s, false))
        × (complete id claim_id result now job_now s ≡ (s, false))
        × (fail id claim_id code now job_now s ≡ (s, false))
  unfolding begin_publishing record_asset record_upload_descriptor release_for_retry complete fail
      published with_asset with_descriptor released completed_with failed_with
  claim_fences id claim_id asset_id d result code deadline lease_ms now job_now s w g other =
      let differs : same_text w.claim_id (some claim_id) ≡ false =
        ground (arith, same_text_iff w.claim_id (some claim_id)) in
      (
        ap (on_works s) (update-refuses id _ s.works g (ground (arith, differs))),
        ap (on_works s) (update-refuses id _ s.works g (ground (arith, differs))),
        ap (on_works s) (update-refuses id _ s.works g (ground (arith, differs))),
        ap (on_works s) (update-refuses id _ s.works g (ground (arith, differs))),
        rw g (ground (arith, differs)),
        rw g (ground (arith, differs)),
      )

  -- What a granted claim leaves.
  abbrev pub Granted : String → String → ℕ → ℕ → Stores T R → Work R → Type 0
  Granted id claim_id lease_ms now s w =
      (get id s.works ≡ some w)
      × (w.id ≡ id)
      × (w.status ≡ claimed)
      × (w.claim_id ≡ some claim_id)
      × (w.claim_expires_at ≡ some (now + lease_ms))
      × (now < w.expires_at)

  dispose_grants :
      (id claim_id : String) (lease_ms now job_now : ℕ) (u : Work R) (s : Stores T R) {w : Work R}
      → u.id ≡ id
      → now < u.expires_at
      → (dispose id claim_id lease_ms now job_now u s).1 ≡ taken_on w
      → Granted id claim_id lease_ms now (dispose id claim_id lease_ms now job_now u s).0 w
  unfolding dispose taken
  dispose_grants id claim_id lease_ms now job_now u s named live h =
      ground (arith, get-set_self id (taken claim_id lease_ms now u) s.works)

  pub claim_grants :
      (id claim_id : String) (lease_ms now job_now : ℕ) (s : Stores T R) {w : Work R}
      → (claim_for_processing id claim_id lease_ms now job_now s).1 ≡ taken_on w
      → Granted id claim_id lease_ms now
          (claim_for_processing id claim_id lease_ms now job_now s).0
          w
  unfolding claim_for_processing dispose_found
  claim_grants id claim_id lease_ms now job_now s {w} h = found (get id s.works) h
    where
      found :
          (o : Option (Work R))
          → (dispose_found id claim_id lease_ms now job_now o s).1 ≡ taken_on w
          → Granted id claim_id lease_ms now
              (dispose_found id claim_id lease_ms now job_now o s).0
              w
      found none h = cc
      found (some u) h = elim (Bool-cases (not (u.id == id) || leb u.expires_at now)) [
        | inl gone ↦ let h' : missing ≡ taken_on w = rw gone at h in cc
        | inr there ↦ rw there (
            dispose_grants id claim_id lease_ms now job_now u s (ground (arith, eq_iff u.id id))
              (ground arith) (rw there at h))
      ]

  -- The claimant can publish: before its lease ends and the item expires, and with a deadline (the item's
  -- expiry, the publishing lease, or an earlier one that is asked for) that has not come yet, its
  -- `beginPublishing` answers `true`; the item is then publishing until that deadline.
  pub claimant_publishes :
      (id claim_id : String) (lease_ms publishing_ms now later job_now : ℕ) (deadline : Option ℕ)
      (s : Stores T R) {w : Work R}
      → (claim_for_processing id claim_id lease_ms now job_now s).1 ≡ taken_on w
      → later < now + lease_ms
      → later < w.expires_at
      → later < bounded_expiry later publishing_ms w.expires_at deadline
      → let s' = (claim_for_processing id claim_id lease_ms now job_now s).0 in
        let r = begin_publishing id claim_id publishing_ms deadline later s' in
        (r.1 ≡ true)
        × (get id r.0.works
            ≡ some (record w {
              status = publishing;
              claim_expires_at = none;
              publishing_at = some later;
              publishing_expires_at =
                  some (bounded_expiry later publishing_ms w.expires_at deadline);
            }))
  claimant_publishes id claim_id lease_ms publishing_ms now later job_now deadline s {w} h in_lease
        live due =
      let s' = (claim_for_processing id claim_id lease_ms now job_now s).0 in
      let (g, _, status_, c, lease_, _) = claim_grants id claim_id lease_ms now job_now s h in
      let v = record w {
        status = publishing;
        claim_expires_at = none;
        publishing_at = some later;
        publishing_expires_at = some (bounded_expiry later publishing_ms w.expires_at deadline);
      } in
      let e =
        update-accepts id (published claim_id publishing_ms deadline later) s'.works g
          (accepted status_ c lease_) in
      done s' v e
    where
      accepted :
          w.status ≡ claimed
          → w.claim_id ≡ some claim_id
          → w.claim_expires_at ≡ some (now + lease_ms)
          → published claim_id publishing_ms deadline later w
            ≡ some (record w {
              status = publishing;
              claim_expires_at = none;
              publishing_at = some later;
              publishing_expires_at =
                  some (bounded_expiry later publishing_ms w.expires_at deadline);
            })
      accepted status_ c lease_ = unfold published in ground (arith, eq_iff claim_id claim_id)

      done :
          (s' : Stores T R) (v : Work R)
          → update id (published claim_id publishing_ms deadline later) s'.works
            ≡ (set id v s'.works, true)
          → ((begin_publishing id claim_id publishing_ms deadline later s').1 ≡ true)
            × (get id (begin_publishing id claim_id publishing_ms deadline later s').0.works
                ≡ some v)
      done s' v e =
          let e' : begin_publishing id claim_id publishing_ms deadline later s'
              ≡ on_works s' (set id v s'.works, true) =
            unfold begin_publishing in ap (on_works s') e in
          rw e' (refl, get-set_self id v s'.works)
