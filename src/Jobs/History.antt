-- ===== src/Jobs/History.antt =====
-- Histories of calls to the job store, and what a call keeps of one job.
use hhc_line_function_bot.Prelude.{
  ℕ, ◌≤◌, ◌<◌, String, ◌≡◌, refl, sym, ap, ◌∙◌, true, false, Option, none, some, List, [], ◌∷◌,
  arith, ◌==◌, eq_iff, Bool-cases, inl, inr,
}
use mathlib.Core.Path.{subst}
use hhc_line_function_bot.Capability.{CapabilityName}
use hhc_line_function_bot.JsMap.{
  get, set, delete, sweep, drop_if, Distinct, get-set, get-delete, get-sweep, set-Distinct,
  delete-Distinct, sweep-Distinct,
}
use hhc_line_function_bot.Jobs.{
  Scope, Job, PendingInput, Store, expired, create_pending, new_job, started, renewed, finished,
  given_up, change, write_back, update, mark_started, renew_execution, complete, fail, get_job,
  place, answer,
}

pub data Call (T R : Type 0) : Type 0 where
  creates : PendingInput T → String → ℕ → Call T R
  starts : String → ℕ → ℕ → Call T R
  renews : String → ℕ → ℕ → Call T R
  completes : String → R → Option CapabilityName → ℕ → Call T R
  fails : String → String → Call T R
  asks : String → Scope → ℕ → ℕ → Call T R

module _ {T R : Type 0} where
  unfoldable pub step : Store T R → Call T R → Store T R
  step s (creates input generated now) = (create_pending input generated now s).0
  step s (starts id lease_ms now) = (mark_started id lease_ms now s).0
  step s (renews id lease_ms now) = (renew_execution id lease_ms now s).0
  step s (completes id result capability now) = complete id result capability now s
  step s (fails id error) = fail id error s
  step s (asks id scope now projected_at) = (get_job id scope now projected_at s).0

  unfoldable pub run : Store T R → List (Call T R) → Store T R
  run s [] = s
  run s (c ∷ cs) = run (step s c) cs

  -- The readings by which a call drops expired jobs are before `until`.
  abbrev pub Early : ℕ → Call T R → Type 0
  Early until (creates input generated now) = now < until
  Early until (asks id scope now projected_at) = now < until
  Early until _ = Unit

  abbrev pub AllEarly : ℕ → List (Call T R) → Type 0
  AllEarly until [] = Unit
  AllEarly until (c ∷ cs) = Early until c × AllEarly until cs

  abbrev pub Holds : (Job T R → Type 0) → Option (Job T R) → Type 0
  Holds P none = ⊥
  Holds P (some j) = P j

  update-Distinct :
      (id : String) (f : Job T R → Option (Job T R)) (s : Store T R)
      → Distinct s
      → Distinct (update id f s).0
  unfolding update
  update-Distinct id f s d = written (change (get id s) f)
    where
      written : (o : Option (Job T R)) → Distinct (write_back id o s).0
      written none = d
      written (some j) = set-Distinct id j s d

  pub step-Distinct : (s : Store T R) (c : Call T R) → Distinct s → Distinct (step s c)
  unfolding step mark_started renew_execution complete fail create_pending get_job
  step-Distinct s (creates input generated now) d = grind (arith, set-Distinct, sweep-Distinct)
  step-Distinct s (starts id lease_ms now) d = update-Distinct id (started now lease_ms) s d
  step-Distinct s (renews id lease_ms now) d = update-Distinct id (renewed now lease_ms) s d
  step-Distinct s (completes id result capability now) d =
      update-Distinct id (finished now result capability) s d
  step-Distinct s (fails id error) d = update-Distinct id (given_up error) s d
  step-Distinct s (asks id scope now projected_at) d = grind (arith, delete-Distinct)

  pub update-accepts :
      (id : String) (f : Job T R → Option (Job T R)) (s : Store T R) {j j' : Job T R}
      → get id s ≡ some j
      → f j ≡ some j'
      → update id f s ≡ (set id j' s, true)
  unfolding update
  update-accepts id f s g h = rw (g, update) (rw h)

  pub update-refuses :
      (id : String) (f : Job T R → Option (Job T R)) (s : Store T R) {j : Job T R}
      → get id s ≡ some j
      → f j ≡ none
      → update id f s ≡ (s, false)
  unfolding update
  update-refuses id f s g h = rw (g, update) (rw h)

  -- A property of a job that outlives every call: each change keeps it, and it says that the job does
  -- not expire before `until`.
  pub record Stable (until : ℕ) (P : Job T R → Type 0) : Type 0 where
    pub lasting : (j : Job T R) → P j → until ≤ j.expires_at
    pub starting :
        (now lease_ms : ℕ) (j j' : Job T R) → P j → started now lease_ms j ≡ some j' → P j'
    pub renewing :
        (now lease_ms : ℕ) (j j' : Job T R) → P j → renewed now lease_ms j ≡ some j' → P j'
    pub finishing :
        (now : ℕ) (result : R) (capability : Option CapabilityName) (j j' : Job T R)
        → P j
        → finished now result capability j ≡ some j'
        → P j'
    pub giving_up : (error : String) (j j' : Job T R) → P j → given_up error j ≡ some j' → P j'

module _ {T R : Type 0} (until : ℕ) (P : Job T R → Type 0) (stable : Stable until P)
    (id : String) where
  update_keeps :
      (k : String) (f : Job T R → Option (Job T R)) (s : Store T R)
      → ((j j' : Job T R) → P j → f j ≡ some j' → P j')
      → Holds P (get id s)
      → Holds P (get id (update k f s).0)
  unfolding update
  update_keeps k f s keep h = found (get k s) refl
    where
      written :
          (o : Option (Job T R))
          → ((j' : Job T R) → o ≡ some j' → (k == id) ≡ true → P j')
          → Holds P (get id (write_back k o s).0)
      written none c = h
      written (some j') c = elim (Bool-cases (k == id)) [
        | inl same ↦ rw (get-set, same) (c j' refl same)
        | inr other ↦ rw (get-set, other) h
      ]

      found :
          (o : Option (Job T R)) → get k s ≡ o → Holds P (get id (write_back k (change o f) s).0)
      found none e = h
      found (some j) e = written (f j) (λ j' e' same.
          keep j j' (subst (Holds P) (ap (λ i. get i s) (sym ((eq_iff k id).0 same)) ∙ e) h) e')

  swept : (now : ℕ) (o : Option (Job T R)) → now < until → Holds P o → drop_if (expired now) o ≡ o
  swept now none early h = refl
  swept now (some j) early h = let late = stable.lasting j h in ground arith

  place_keeps :
      (input : PendingInput T) (now : ℕ) (created : Job T R) (s : Store T R)
      → now < until
      → Holds P (get id s)
      → (o : Option (Job T R)) → get created.id s ≡ o
      → Holds P (get id (place input now created s o).0)
  unfolding place
  place_keeps input now created s early h o e = elim (Bool-cases (created.id == id)) [
    | inl same ↦ here ((eq_iff created.id id).0 same) o e
    | inr other ↦ elsewhere other o
  ]
    where
      put : (created.id == id) ≡ false → Holds P (get id (set created.id created s))
      put other = rw (get-set, other) h

      elsewhere :
          (created.id == id) ≡ false
          → (o : Option (Job T R)) → Holds P (get id (place input now created s o).0)
      elsewhere other none = put other
      elsewhere other (some j) = ground (arith, put other, h)

      here :
          created.id ≡ id
          → (o : Option (Job T R)) → get created.id s ≡ o
          → Holds P (get id (place input now created s o).0)
      here same none e = absurd (subst (Holds P) (ap (λ i. get i s) (sym same) ∙ e) h)
      here same (some j) e =
          let late = stable.lasting j (subst (Holds P) (ap (λ i. get i s) (sym same) ∙ e) h) in
          ground (arith, h)

  create_keeps :
      (input : PendingInput T) (generated : String) (now : ℕ) (s : Store T R)
      → Distinct s
      → now < until
      → Holds P (get id s)
      → Holds P (get id (create_pending input generated now s).0)
  unfolding create_pending
  create_keeps input generated now s d early h =
      place_keeps input now (new_job input generated now) (sweep (expired now) s) early
        (rw (get-sweep (expired now) id s d, swept now (get id s) early h) h) _ refl

  answer_keeps :
      (k : String) (scope : Scope) (now projected_at : ℕ) (s : Store T R)
      → now < until
      → Holds P (get id s)
      → (o : Option (Job T R)) → get k s ≡ o
      → Holds P (get id (answer k scope now projected_at s o).0)
  unfolding answer
  answer_keeps k scope now projected_at s early h none e = h
  answer_keeps k scope now projected_at s early h (some j) e = elim (Bool-cases (k == id)) [
    | inl same ↦
        let late =
          stable.lasting j
            (subst (Holds P) (ap (λ i. get i s) (sym ((eq_iff k id).0 same)) ∙ e) h) in
        ground (arith, h)
    | inr other ↦
        let kept : Holds P (get id (delete k s)) = rw (get-delete, other) h in
        ground (arith, kept, h)
  ]

  step_keeps :
      (s : Store T R) (c : Call T R)
      → Distinct s
      → Early until c
      → Holds P (get id s)
      → Holds P (get id (step s c))
  unfolding step mark_started renew_execution complete fail get_job
  step_keeps s (creates input generated now) d early h =
      create_keeps input generated now s d early h
  step_keeps s (starts k lease_ms now) d early h =
      update_keeps k (started now lease_ms) s (stable.starting now lease_ms) h
  step_keeps s (renews k lease_ms now) d early h =
      update_keeps k (renewed now lease_ms) s (stable.renewing now lease_ms) h
  step_keeps s (completes k result capability now) d early h =
      update_keeps k (finished now result capability) s (stable.finishing now result capability) h
  step_keeps s (fails k error) d early h =
      update_keeps k (given_up error) s (stable.giving_up error) h
  step_keeps s (asks k scope now projected_at) d early h =
      answer_keeps k scope now projected_at s early h _ refl

  -- What every change keeps holds of the job after any calls, until it expires.
  pub run_keeps :
      (s : Store T R) (cs : List (Call T R))
      → Distinct s
      → AllEarly until cs
      → Holds P (get id s)
      → Holds P (get id (run s cs))
  unfolding run
  run_keeps s [] d early h = h
  run_keeps s (c ∷ cs) d (early, rest) h =
      run_keeps (step s c) cs (step-Distinct s c d) rest (step_keeps s c d early h)
