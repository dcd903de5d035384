-- ===== src/Jobs/Lifecycle.antt =====
-- The status of a job: which may follow which, over every call.
use hhc_line_function_bot.Prelude.{
  ℕ, String, ◌≡◌, refl, ◌∙◌, ◌⊎◌, inl, inr, false, Option, some, List, arith,
}
use hhc_line_function_bot.JsMap.{get, Distinct}
use hhc_line_function_bot.Jobs.{
  Status, pending, completed, failed, uncertain, Job, Store, started, renewed, finished, given_up,
  is_settled,
}
use hhc_line_function_bot.Capability.{CapabilityName}
use hhc_line_function_bot.Jobs.History.{Call, run, AllEarly, Holds, Stable, run_keeps}

-- An uncertain job may still complete: its worker was only late.
infix 40 ◌⟶◌
pub data ◌⟶◌ : Status → Status → Type 0 where
  stay : {p : Status} → p ⟶ p
  finish : pending ⟶ completed
  break_off : pending ⟶ failed
  doubt : pending ⟶ uncertain
  recover : uncertain ⟶ completed

ruleset moves = (stay, finish, break_off, doubt, recover)

⟶-trans : {p q r : Status} → p ⟶ q → q ⟶ r → p ⟶ r
⟶-trans stay b = b
⟶-trans finish stay = finish
⟶-trans break_off stay = break_off
⟶-trans doubt stay = doubt
⟶-trans doubt recover = finish
⟶-trans recover stay = recover

finish_from : (p : Status) → is_settled p ≡ false → p ⟶ completed
finish_from pending h = finish
finish_from completed h = stay
finish_from failed h = cc
finish_from uncertain h = recover

give_up_from : (p q : Status) → p ≡ pending → (q ≡ uncertain) ⊎ (q ≡ failed) → p ⟶ q
give_up_from p q e (inl f) = rw (e, f) doubt
give_up_from p q e (inr f) = rw (e, f) break_off

module _ {T R : Type 0} where
  -- What never changes in a job, with the status moving along the diagram.
  pub record Advances (j k : Job T R) : Type 0 where
    pub moved : j.status ⟶ k.status
    pub same_id : k.id ≡ j.id
    pub same_scope : k.scope ≡ j.scope
    pub same_expiry : k.expires_at ≡ j.expires_at
    pub same_creation : k.created_at ≡ j.created_at

  Advances-trans : {j k l : Job T R} → Advances j k → Advances k l → Advances j l
  Advances-trans a b = record {
    moved = ⟶-trans a.moved b.moved;
    same_id = b.same_id ∙ a.same_id;
    same_scope = b.same_scope ∙ a.same_scope;
    same_expiry = b.same_expiry ∙ a.same_expiry;
    same_creation = b.same_creation ∙ a.same_creation;
  }

  started-Advances :
      (now lease_ms : ℕ) (j k : Job T R) → started now lease_ms j ≡ some k → Advances j k
  unfolding started
  started-Advances now lease_ms j k e = record {
    moved = let same : k.status ≡ j.status = ground arith in rw same stay;
    same_id = ground arith;
    same_scope = ground arith;
    same_expiry = ground arith;
    same_creation = ground arith;
  }

  renewed-Advances :
      (now lease_ms : ℕ) (j k : Job T R) → renewed now lease_ms j ≡ some k → Advances j k
  unfolding renewed
  renewed-Advances now lease_ms j k e = record {
    moved = let same : k.status ≡ j.status = ground arith in rw same stay;
    same_id = ground arith;
    same_scope = ground arith;
    same_expiry = ground arith;
    same_creation = ground arith;
  }

  finished-Advances :
      (now : ℕ) (result : R) (capability : Option CapabilityName) (j k : Job T R)
      → finished now result capability j ≡ some k
      → Advances j k
  unfolding finished
  finished-Advances now result capability j k e = record {
    moved =
        let done : k.status ≡ completed = ground arith in
        rw done (finish_from j.status (ground arith));
    same_id = ground arith;
    same_scope = ground arith;
    same_expiry = ground arith;
    same_creation = ground arith;
  }

  given_up-Advances : (error : String) (j k : Job T R) → given_up error j ≡ some k → Advances j k
  unfolding given_up
  given_up-Advances error j k e = record {
    moved = give_up_from j.status k.status (ground arith) (ground arith);
    same_id = ground arith;
    same_scope = ground arith;
    same_expiry = ground arith;
    same_creation = ground arith;
  }

  Advances-Stable : (j : Job T R) → Stable j.expires_at (Advances j)
  Advances-Stable j = record {
    lasting = λ k a. omega (arith, a.same_expiry);
    starting = λ now lease_ms k k' a e. Advances-trans a (started-Advances now lease_ms k k' e);
    renewing = λ now lease_ms k k' a e. Advances-trans a (renewed-Advances now lease_ms k k' e);
    finishing = λ now result capability k k' a e.
        Advances-trans a (finished-Advances now result capability k k' e);
    giving_up = λ error k k' a e. Advances-trans a (given_up-Advances error k k' e);
  }

  -- The life of a job. After any calls whose sweeps run before a stored job expires, there is still a
  -- job under its id, of the same id, scope, creation time and expiry, and its status has moved along the
  -- diagram: from pending to any other status, from uncertain to completed only, and from completed and
  -- failed to none.
  pub run-Advances :
      (id : String) (cs : List (Call T R)) (s : Store T R) (j : Job T R)
      → Distinct s
      → get id s ≡ some j
      → AllEarly j.expires_at cs
      → Holds (Advances j) (get id (run s cs))
  run-Advances id cs s j d g all =
      run_keeps j.expires_at (Advances j) (Advances-Stable j) id s cs d all (
        rw g (record {
          moved = stay;
          same_id = refl;
          same_scope = refl;
          same_expiry = refl;
          same_creation = refl;
        }))
