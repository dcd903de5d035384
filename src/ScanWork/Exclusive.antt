-- ===== src/ScanWork/Exclusive.antt =====
-- A claim excludes all others for as long as it runs.
use hhc_line_function_bot.Prelude.{
  ℕ, ◌+◌, ◌≤◌, ◌<◌, String, ◌≡◌, ◌≢◌, Option, none, some, List, All, arith, eq_iff, same_text_iff,
}
use hhc_line_function_bot.ScanWork.{
  claimed, Work, enqueued, cancelled, taken, abandoned, published, with_asset, with_descriptor,
  released, completed_with, failed_with, ends,
}
use hhc_line_function_bot.ScanWork.Store.{
  Stores, taken_on, active, dispose, dispose_found, claim_for_processing,
}
use hhc_line_function_bot.ScanWork.History.{
  Call, creates, marks, cancels, lists, claims, publishes, assets, descriptors, releases, asks,
  completes, fails, run, AllEarly, Holds, Made, Stable,
}
use hhc_line_function_bot.ScanWork.Calls.{run_allowed_keeps}
use hhc_line_function_bot.ScanWork.Claims.{claim_grants}

module _ {R : Type 0} where
  -- A call that leaves the claim alone: `claimForProcessing` before the lease ends, and no publication,
  -- release or failure under the claim's own id.
  abbrev pub LeavesClaim : String → ℕ → Call R → Type 0
  LeavesClaim claim_id lease_end (claims id other lease_ms now job_now) = now < lease_end
  LeavesClaim claim_id lease_end (publishes id other lease_ms deadline now) = other ≢ claim_id
  LeavesClaim claim_id lease_end (releases id other now) = other ≢ claim_id
  LeavesClaim claim_id lease_end (fails id other code now job_now) = other ≢ claim_id
  LeavesClaim claim_id lease_end _ = Unit

  abbrev IsHeld : ℕ → String → String → ℕ → Work R → Type 0
  IsHeld until id claim_id lease_end w =
      (w.status ≡ claimed)
      × (w.claim_id ≡ some claim_id)
      × (w.claim_expires_at ≡ some lease_end)
      × (w.id ≡ id)
      × (until ≤ w.expires_at)

  Made-IsHeld :
      (until : ℕ) (id claim_id : String) (lease_end : ℕ) (c : Call R)
      → LeavesClaim claim_id lease_end c
      → (w v : Work R) → IsHeld until id claim_id lease_end w
      → Made c w v
      → IsHeld until id claim_id lease_end v
  unfolding enqueued cancelled taken abandoned published with_asset with_descriptor released
      completed_with failed_with ends
  Made-IsHeld until id claim_id lease_end (creates input new_id now) a w v p m = absurd m
  Made-IsHeld until id claim_id lease_end (marks k now) a w v p m = ground arith
  Made-IsHeld until id claim_id lease_end (cancels k code now completed_at) a w v p m = ground arith
  Made-IsHeld until id claim_id lease_end (lists limit readings) a w v p m = absurd m
  Made-IsHeld until id claim_id lease_end (claims k other lease_ms now job_now) a w v p m =
      ground arith
  Made-IsHeld until id claim_id lease_end (publishes k other lease_ms deadline now) a w v p m =
      ground (arith, same_text_iff w.claim_id (some other))
  Made-IsHeld until id claim_id lease_end (assets k other asset_id now) a w v p m = ground arith
  Made-IsHeld until id claim_id lease_end (descriptors k other d now) a w v p m = ground arith
  Made-IsHeld until id claim_id lease_end (releases k other now) a w v p m =
      ground (arith, same_text_iff w.claim_id (some other))
  Made-IsHeld until id claim_id lease_end (asks k now) a w v p m = absurd m
  Made-IsHeld until id claim_id lease_end (completes k other result now job_now) a w v p m =
      ground arith
  Made-IsHeld until id claim_id lease_end (fails k other code now job_now) a w v p m =
      ground (arith, same_text_iff w.claim_id (some other))

  IsHeld-Stable :
      (until : ℕ) (id claim_id : String) (lease_end : ℕ) (c : Call R)
      → LeavesClaim claim_id lease_end c
      → Stable until id (Made c) (IsHeld until id claim_id lease_end)
  IsHeld-Stable until id claim_id lease_end c leaves = record {
    lasting = λ w (_, _, _, _, le). le;
    named = λ w (_, _, _, named, _). named;
    kept = Made-IsHeld until id claim_id lease_end c leaves;
  }

module _ {T R : Type 0} where
  found_refuses :
      (id claim_id other : String) (lease_ms later job_later lease_end until : ℕ) (s : Stores T R)
      (o : Option (Work R))
      → later < lease_end
      → later < until
      → Holds (IsHeld until id claim_id lease_end) o
      → dispose_found id other lease_ms later job_later o s ≡ (s, active)
  unfolding dispose_found dispose
  found_refuses id claim_id other lease_ms later job_later lease_end until s none in_lease live h =
      absurd h
  found_refuses id claim_id other lease_ms later job_later lease_end until s (some w) in_lease live
        (status_, c, lease_, named, le) =
      ground (arith, eq_iff w.id id)

  -- One claimant at a time. When `claimForProcessing` has granted a claim, then after any calls that
  -- follow, and before the claim's lease ends and the item expires, it answers `active` for the item,
  -- under every claim id, and changes nothing. The calls that follow run before the lease ends (where they
  -- are `claimForProcessing`) and the item expires, none of them creates the item's id anew, and none is a
  -- publication, release or failure under the claim's own id; `recordAsset`, `recordUploadDescriptor` and
  -- `complete` may be, and calls under other claim ids are of any kind.
  pub claim_excludes :
      (id claim_id other : String) (lease_ms lease_ms' now later job_now job_later : ℕ)
      (s : Stores T R) (cs : List (Call R)) {w : Work R}
      → (claim_for_processing id claim_id lease_ms now job_now s).1 ≡ taken_on w
      → AllEarly w.expires_at id cs
      → All (LeavesClaim claim_id (now + lease_ms)) cs
      → later < now + lease_ms
      → later < w.expires_at
      → let s' = run (claim_for_processing id claim_id lease_ms now job_now s).0 cs in
        claim_for_processing id other lease_ms' later job_later s' ≡ (s', active)
  claim_excludes id claim_id other lease_ms lease_ms' now later job_now job_later s cs {w} h early
        leave in_lease live =
      let lease_end = now + lease_ms in
      let (g, named, status_, c, lease_, _) = claim_grants id claim_id lease_ms now job_now s h in
      unfold claim_for_processing in
      found_refuses id claim_id other lease_ms' later job_later lease_end w.expires_at _ _ in_lease
        live
        (run_allowed_keeps w.expires_at id (IsHeld w.expires_at id claim_id lease_end)
          (LeavesClaim claim_id lease_end) (IsHeld-Stable w.expires_at id claim_id lease_end)
          (claim_for_processing id claim_id lease_ms now job_now s).0 cs early leave
          (rw g (status_, c, lease_, named, omega arith)))
