-- ===== src/ScanWork/Shape.antt =====
-- The shape of a work item: which fields are set in which status, kept by every call.
use hhc_line_function_bot.Prelude.{
  ℕ, ◌+◌, ◌≤◌, String, ◌≡◌, refl, ◌∙◌, Bool, true, false, ◌||◌, Option, none, some, List, arith,
}
use hhc_line_function_bot.JsMap.{get, set, get-set_self}
use hhc_line_function_bot.ScanWork.{
  Status, failed, WorkInput, Work, is_claimed, is_publishing, is_terminal, created, new_work,
  enqueued, cancelled, taken, abandoned, published, with_asset, with_descriptor, released,
  completed_with, failed_with, bounded_expiry,
}
use hhc_line_function_bot.ScanWork.Store.{Stores, create}
use hhc_line_function_bot.Jobs.{is_some}
use hhc_line_function_bot.ScanWork.History.{
  Call, run, AllEarly, Holds, Change, by_enqueue, by_cancel, by_claim, by_abandon, by_publish,
  by_asset, by_descriptor, by_release, by_complete, by_fail, by_report, Stable,
}
use hhc_line_function_bot.ScanWork.Calls.{run_keeps}

abbrev pub is_failed : Status → Bool
is_failed failed = true
is_failed _ = false

abbrev pub Until : Option ℕ → ℕ → Type 0
Until none e = Unit
Until (some t) e = t ≤ e

module _ {R : Type 0} where
  pub record IsValid (w : Work R) : Type 0 where
    -- A claim id is held exactly while the item is claimed or publishing.
    pub held : is_some w.claim_id ≡ (is_claimed w.status || is_publishing w.status)
    -- A claim lease runs exactly while the item is claimed.
    pub leased : is_some w.claim_expires_at ≡ is_claimed w.status
    -- A publishing item has a publication deadline, and no deadline is past the item's expiry.
    pub dated : is_publishing w.status ≡ true → is_some w.publishing_expires_at ≡ true
    pub bounded : Until w.publishing_expires_at w.expires_at
    -- It is marked as ended exactly when its status is terminal.
    pub ended : is_some w.completed_at ≡ is_terminal w.status
    -- It has a failure code exactly when it has failed.
    pub blamed : is_some w.failure_code ≡ is_failed w.status

  Change-IsValid : (w v : Work R) → IsValid w → Change w v → IsValid v
  unfolding enqueued cancelled taken abandoned published with_asset with_descriptor released
      completed_with failed_with bounded_expiry
  Change-IsValid w v p (by_enqueue e) = ground arith
  Change-IsValid w v p (by_cancel code now e) = ground arith
  Change-IsValid w v p (by_claim claim_id lease_ms now free e) = ground arith
  Change-IsValid w v p (by_abandon now b passed e) = ground arith
  Change-IsValid w v p (by_publish claim_id lease_ms deadline now e) = ground arith
  Change-IsValid w v p (by_asset claim_id asset_id now e) = ground arith
  Change-IsValid w v p (by_descriptor claim_id d now e) = ground arith
  Change-IsValid w v p (by_release claim_id now e) = ground arith
  Change-IsValid w v p (by_complete claim_id result now e) = ground arith
  Change-IsValid w v p (by_fail claim_id code now e) = ground arith
  Change-IsValid w v p (by_report e) = ground arith

  -- The item keeps its id and expiry besides.
  abbrev Sound : ℕ → String → Work R → Type 0
  Sound until id w = IsValid w × (w.id ≡ id) × (until ≤ w.expires_at)

  Change-fixed : (w v : Work R) → Change w v → (v.id ≡ w.id) × (v.expires_at ≡ w.expires_at)
  unfolding enqueued cancelled taken abandoned published with_asset with_descriptor released
      completed_with failed_with
  Change-fixed w v (by_enqueue e) = ground arith
  Change-fixed w v (by_cancel code now e) = ground arith
  Change-fixed w v (by_claim claim_id lease_ms now free e) = ground arith
  Change-fixed w v (by_abandon now b passed e) = ground arith
  Change-fixed w v (by_publish claim_id lease_ms deadline now e) = ground arith
  Change-fixed w v (by_asset claim_id asset_id now e) = ground arith
  Change-fixed w v (by_descriptor claim_id d now e) = ground arith
  Change-fixed w v (by_release claim_id now e) = ground arith
  Change-fixed w v (by_complete claim_id result now e) = ground arith
  Change-fixed w v (by_fail claim_id code now e) = ground arith
  Change-fixed w v (by_report e) = ground arith

  Sound-Stable : (until : ℕ) (id : String) → Stable until id Change (Sound until id)
  Sound-Stable until id = record {
    lasting = λ w p. p.2;
    named = λ w p. p.1;
    kept = λ w v p c.
        let (same_id, same_expiry) = Change-fixed w v c in
        (Change-IsValid w v p.0 c, same_id ∙ p.1, omega (arith, same_expiry));
  }

  Sound-IsValid :
      (until : ℕ) (id : String) (o : Option (Work R)) → Holds (Sound until id) o → Holds IsValid o
  Sound-IsValid until id none h = h
  Sound-IsValid until id (some w) h = h.0

module _ {T R : Type 0} where
  create-Sound :
      (input : WorkInput) (id : String) (now : ℕ) (s : Stores T R) {w : Work R}
      → (create input id now s).1 ≡ some w
      → Holds (Sound (now + input.ttl_ms) id) (get id (create input id now s).0.works)
  unfolding create created
  create-Sound input id now s e =
      let put = get-set_self id (new_work {R = R} input id now) s.works in
      let ok : Holds (Sound (now + input.ttl_ms) id)
          (get id (set id (new_work input id now) s.works)) =
        rw put (
          record {
            held = refl;
            leased = refl;
            dated = λ h. cc;
            bounded = tt;
            ended = refl;
            blamed = refl;
          },
          refl,
          omega arith,
        ) in
      ground (arith, ok)

  -- The shape of an item. Take a work item that `create` makes, with an id that no other `create` makes.
  -- After any calls that follow, as long as it has not expired, it is there and its fields fit its status:
  -- it holds a claim id exactly while it is claimed or publishing, a claim lease exactly while it is
  -- claimed, a publication deadline no later than its expiry while it is publishing, an end time exactly
  -- when it is completed or failed, and a failure code exactly when it has failed.
  pub run-IsValid :
      (input : WorkInput) (id : String) (now : ℕ) (s : Stores T R) (cs : List (Call R)) {w : Work R}
      → (create input id now s).1 ≡ some w
      → AllEarly (now + input.ttl_ms) id cs
      → Holds IsValid (get id (run (create input id now s).0 cs).works)
  run-IsValid input id now s cs e all = Sound-IsValid (now + input.ttl_ms) id _ (
      run_keeps (now + input.ttl_ms) id (Sound (now + input.ttl_ms) id)
        (Sound-Stable (now + input.ttl_ms) id) (create input id now s).0 cs all
        (create-Sound input id now s e))
