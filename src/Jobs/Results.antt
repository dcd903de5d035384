-- ===== src/Jobs/Results.antt =====
-- What a requester gets back: results stay, an execution starts once, and creation is idempotent.
use hhc_line_function_bot.Prelude.{
  ℕ, ◌≤◌, ◌<◌, String, ◌≡◌, refl, sym, ap, ◌∙◌, ◌≢◌, inl, inr, true, false, Option, none, some,
  List, arith, eq_iff, if◌then◌else◌, Option-cases,
}
use mathlib.Core.Bool.{false≢true}
use hhc_line_function_bot.Capability.{CapabilityName}
use hhc_line_function_bot.JsMap.{get, set, sweep, Distinct, get-set_self, get-sweep, set-Distinct}
use hhc_line_function_bot.Jobs.{
  Scope, pending, completed, failed, Job, PendingInput, Store, expired, create_pending, new_job,
  started, renewed, finished, given_up, mark_started, complete, fail, get_job, project_job,
  scope_matches, scope_conflict, job, place, is_settled, is_some, first_of_two,
}
use hhc_line_function_bot.Jobs.History.{
  Call, run, AllEarly, Holds, Stable, run_keeps, update-accepts, update-refuses,
}

module _ {T R : Type 0} where
  -- The job as `complete` leaves it.
  abbrev pub with_result : Option CapabilityName → R → Job T R → Job T R
  with_result capability result j = record j {
    capability = first_of_two capability j.capability;
    status = completed;
    result = some result;
  }

  settled-Stable : (j : Job T R) → is_settled j.status ≡ true → Stable j.expires_at (λ k. k ≡ j)
  unfolding started renewed finished given_up
  settled-Stable j h = record {
    lasting = λ k e. ground arith;
    starting = λ now lease_ms k k' e f. ground arith;
    renewing = λ now lease_ms k k' e f. ground arith;
    finishing = λ now result capability k k' e f. ground arith;
    giving_up = λ error k k' e f. ground arith;
  }

  got : (j : Job T R) (o : Option (Job T R)) → Holds (λ k. k ≡ j) o → o ≡ some j
  got j none h = absurd h
  got j (some k) h = ap some h

  completes :
      (id : String) (result : R) (capability : Option CapabilityName) (now : ℕ) (s : Store T R)
      (j : Job T R)
      → get id s ≡ some j
      → is_settled j.status ≡ false
      → now < j.expires_at
      → complete id result capability now s ≡ set id (with_result capability result j) s
  unfolding complete finished
  completes id result capability now s j g open_ early =
      ap (λ x. x.0) (update-accepts id (finished now result capability) s g (ground arith))

  -- A result stays. Complete a job that has neither completed nor failed, before it expires. Whatever
  -- calls follow (at any id, and with the same id too) whose sweeps run before the job expires, its
  -- requester then gets that result, with status `completed`, and with the capability that this
  -- `complete` was given, or the job's own where it was given none; the job is otherwise as it was.
  pub result_stays :
      (id : String) (scope : Scope) (result : R) (capability : Option CapabilityName)
      (now asked projected_at : ℕ) (cs : List (Call T R)) (s : Store T R) (j : Job T R)
      → Distinct s
      → get id s ≡ some j
      → is_settled j.status ≡ false
      → now < j.expires_at
      → AllEarly j.expires_at cs
      → scope_matches j.scope scope ≡ true
      → asked < j.expires_at
      → (get_job id scope asked projected_at (run (complete id result capability now s) cs)).1
        ≡ some (with_result capability result j)
  unfolding get_job project_job
  result_stays id scope result capability now asked projected_at cs s j d g open_ early all match
        on_time =
      let j' = with_result capability result j in
      let s' = complete id result capability now s in
      let e = completes id result capability now s j g open_ early in
      let here : get id s' ≡ some j' = rw e (get-set_self id j' s) in
      let d' : Distinct s' = rw e (set-Distinct id j' s d) in
      let kept = got j' _ (
        run_keeps j.expires_at (λ k. k ≡ j') (settled-Stable j' refl) id s' cs d' all
          (rw here refl)) in
      rw kept (ground arith)

  -- A failed job stays failed: fail a pending job with an error other than `execution_uncertain`, and
  -- whatever calls follow whose sweeps run before the job expires, it is still stored as failed with
  -- that error, with no result and otherwise as it was.
  pub failure_stays :
      (id : String) (error : String) (cs : List (Call T R)) (s : Store T R) (j : Job T R)
      → Distinct s
      → get id s ≡ some j
      → j.status ≡ pending
      → error ≢ "execution_uncertain"
      → AllEarly j.expires_at cs
      → get id (run (fail id error s) cs) ≡ some (record j { status = failed; error = some error })
  unfolding fail given_up
  failure_stays id error cs s j d g open_ other all =
      let j' = record j { status = failed; error = some error } in
      let s' = fail id error s in
      let e : s' ≡ set id j' s =
        ap (λ x. x.0)
          (update-accepts id (given_up error) s g
            (ground (arith, eq_iff error "execution_uncertain"))) in
      let here : get id s' ≡ some j' = rw e (get-set_self id j' s) in
      let d' : Distinct s' = rw e (set-Distinct id j' s d) in
      got j' _ (
        run_keeps j.expires_at (λ k. k ≡ j') (settled-Stable j' refl) id s' cs d' all
          (rw here refl))

  begun-Stable :
      (until : ℕ)
      → Stable until
          (λ (k : Job T R). (until ≤ k.expires_at) × (is_some k.execution_started_at ≡ true))
  unfolding started renewed finished given_up
  begun-Stable until = record {
    lasting = λ k e. e.0;
    starting = λ now lease_ms k k' e f. ground arith;
    renewing = λ now lease_ms k k' e f. ground arith;
    finishing = λ now result capability k k' e f. ground arith;
    giving_up = λ error k k' e f. ground arith;
  }

  starts :
      (id : String) (lease_ms now : ℕ) (s : Store T R) (j : Job T R)
      → Distinct s
      → get id s ≡ some j
      → (mark_started id lease_ms now s).1 ≡ true
      → Holds
          (λ k. (j.expires_at ≤ k.expires_at) × (is_some k.execution_started_at ≡ true))
          (get id (mark_started id lease_ms now s).0)
        × Distinct (mark_started id lease_ms now s).0
  unfolding mark_started
  starts id lease_ms now s j d g ok = elim (Option-cases (started now lease_ms j)) [
    | inl no_change ↦
        let e = update-refuses id (started now lease_ms) s g no_change in
        absurd (false≢true (sym (ap (λ x. x.1) e) ∙ ok))
    | inr (j', change_) ↦
        let e = update-accepts id (started now lease_ms) s g change_ in
        rw (e, get-set_self) (begun j j' change_, set-Distinct id j' s d)
  ]
    where
      begun :
          (j j' : Job T R)
          → started now lease_ms j ≡ some j'
          → (j.expires_at ≤ j'.expires_at) × (is_some j'.execution_started_at ≡ true)
      begun j j' h = unfold started in ground arith

  refused :
      (until lease_ms now : ℕ) (id : String) (s : Store T R) (o : Option (Job T R))
      → get id s ≡ o
      → Holds (λ k. (until ≤ k.expires_at) × (is_some k.execution_started_at ≡ true)) o
      → mark_started id lease_ms now s ≡ (s, false)
  unfolding mark_started started
  refused until lease_ms now id s none g h = absurd h
  refused until lease_ms now id s (some j) g h =
      update-refuses id (started now lease_ms) s g (ground arith)

  -- An execution starts once. If `markStarted` has answered `true` for a job, then whatever calls follow
  -- whose sweeps run before the job expires, it answers `false` for that id, and changes nothing.
  pub started_once :
      (id : String) (lease_ms now lease_ms' later : ℕ) (cs : List (Call T R)) (s : Store T R)
      (j : Job T R)
      → Distinct s
      → get id s ≡ some j
      → (mark_started id lease_ms now s).1 ≡ true
      → AllEarly j.expires_at cs
      → let s' = run (mark_started id lease_ms now s).0 cs in
        mark_started id lease_ms' later s' ≡ (s', false)
  started_once id lease_ms now lease_ms' later cs s j d g ok all =
      let s' = (mark_started id lease_ms now s).0 in
      let (h, d') = starts id lease_ms now s j d g ok in
      refused j.expires_at lease_ms' later id (run s' cs) _ refl (
        run_keeps j.expires_at
          (λ k. (j.expires_at ≤ k.expires_at) × (is_some k.execution_started_at ≡ true))
          (begun-Stable j.expires_at) id s' cs d' all h)

  -- Creation is idempotent. While a job is stored and has not expired, creating its id again in its own
  -- scope answers that very job, and in another scope the error; neither changes what is stored for
  -- the id.
  pub create_again :
      (input : PendingInput T) (generated : String) (now : ℕ) (s : Store T R) (j : Job T R)
      → Distinct s
      → get (new_job {R = R} input generated now).id s ≡ some j
      → now < j.expires_at
      → let r = create_pending input generated now s in
        (r.1 ≡ (if scope_matches j.scope input.scope then job j else scope_conflict))
        × (get (new_job {R = R} input generated now).id r.0 ≡ some j)
  unfolding create_pending place
  create_again input generated now s j d g early =
      let k = (new_job {R = R} input generated now).id in
      let kept : get k (sweep (expired now) s) ≡ some j =
        rw (get-sweep (expired now) k s d, g) (ground arith) in
      rw (kept, place) (ground (arith, kept))
