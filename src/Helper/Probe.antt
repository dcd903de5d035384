-- ===== src/Helper/Probe.antt =====
-- The circuit over histories: it stays open after a failure, and one request at a time probes recovery.
use Prim.Native.String.{◌++◌}
use mathlib.Core.Path.{subst}
use text.Mathlib.TextLemmas.{append_cancel_left}
use hhc_line_function_bot.Prelude.{
  ℕ, ◌+◌, ◌≤◌, ◌<◌, String, ◌≡◌, refl, sym, ap, ◌∙◌, ◌≢◌, ◌⊎◌, inl, inr, Bool, true, false, none,
  some, List, [], ◌∷◌, arith, ◌==◌, eq_iff, eq_self, if◌then◌else◌, Bool-cases, Option-cases,
}
use hhc_line_function_bot.Redis.{
  Redis, IsLawful, set_nx_new, set_nx_old, Holds, Holds-later, Holds-psetex, Holds-psetex_other,
  Holds-del_other, absent-later,
}
use hhc_line_function_bot.Helper.Circuit.{
  cooldown, recovering, probe, is_there, is_value, exists, acquire, is_stale, fail, succeed,
}

pub data Call : Type 0 where
  acquires : String → Call
  fails : String → Bool → Call
  succeeds : String → Call

apart : (p a b : String) → (a == b) ≡ false → p ++ a ≢ p ++ b
apart p a b h e = ground (arith, eq_iff a b, append_cancel_left p a b e)

-- Times that do not go back and stay before `until`.
abbrev pub Within : ℕ → ℕ → List (ℕ × Call) → Type 0
Within low until [] = Unit
Within low until ((now, c) ∷ h) = (low ≤ now) × (now < until) × Within now until h

abbrev pub last_time : ℕ → List (ℕ × Call) → ℕ
last_time low [] = low
last_time low ((now, c) ∷ h) = last_time now h

abbrev pub NotBy : String → Call → Type 0
NotBy token (fails lease permanent) = lease ≢ token
NotBy token (succeeds lease) = lease ≢ token
NotBy token (acquires other) = Unit

-- No failure or success is reported under the lease.
abbrev pub NoneBy : String → List (ℕ × Call) → Type 0
NoneBy token [] = Unit
NoneBy token ((now, c) ∷ h) = NotBy token c × NoneBy token h

module _ (r : Redis) (law : IsLawful r) (prefix : String) where
  pub step : r.State → ℕ × Call → r.State
  step s (now, acquires token) = (acquire r prefix now token s).0
  step s (now, fails lease permanent) = fail r prefix now lease permanent s
  step s (now, succeeds lease) = succeed r prefix now lease s

  pub run : r.State → List (ℕ × Call) → r.State
  run s [] = s
  run s (c ∷ h) = run (step s c) h

  -- The circuit is open until `until` at least, and nobody probes.
  abbrev IsOpen : ℕ → r.State → ℕ → Type 0
  IsOpen until s now =
      Holds r law s now (cooldown prefix) "1" until × (r.read s now (probe prefix) ≡ none)

  -- The circuit is open, or the token probes.
  abbrev IsGuarded : String → ℕ → r.State → ℕ → Type 0
  IsGuarded token until s now = IsOpen until s now ⊎ Holds r law s now (probe prefix) token until

  acquire_open :
      (until now : ℕ) (token : String) (s : r.State)
      → IsOpen until s now
      → acquire r prefix now token s ≡ (s, none)
  unfolding acquire
  acquire_open until now token s ((e, h, kept), gone) = rw (ap is_there h) refl

  acquire_guarded :
      (token other : String) (until now : ℕ) (s : r.State)
      → IsGuarded token until s now
      → (acquire r prefix now other s ≡ (s, none))
        ⊎ (acquire r prefix now other s ≡ (s, some "closed"))
  unfolding acquire
  acquire_guarded token other until now s (inl o) =
      inl (unfold acquire in acquire_open until now other s o)
  acquire_guarded token other until now s (inr (e, h, kept)) =
      let old = set_nx_old r s now (probe prefix) 30000 other {i = (token, e)} h in
      elim (Bool-cases (exists r prefix s now (cooldown prefix))) [
        | inl cool ↦ inl (rw cool refl)
        | inr warm ↦ elim (Bool-cases (exists r prefix s now (recovering prefix))) [
          | inl back ↦ inl (rw (warm, back) (rw old refl))
          | inr fresh ↦ inr (rw (warm, fresh) refl)
        ]
      ]

  failed-IsOpen :
      (until now ttl : ℕ) (s : r.State)
      → 1 ≤ ttl
      → until ≤ now + ttl
      → IsOpen until
          (r.del
            (r.psetex
              (r.psetex s now (cooldown prefix) ttl "1")
              now
              (recovering prefix)
              86400000
              "1")
            (probe prefix))
          now
  failed-IsOpen until now ttl s pos le =
      let s1 = r.psetex s now (cooldown prefix) ttl "1" in
      let s2 = r.psetex s1 now (recovering prefix) 86400000 "1" in
      let (e, h, kept) =
        Holds-del_other r law s2 now (probe prefix) (cooldown prefix) "1" (now + ttl)
          (apart prefix ":probe" ":cooldown" refl)
          (Holds-psetex_other r law s1 now (recovering prefix) 86400000 "1" (cooldown prefix) "1"
            (now + ttl) (omega arith) (apart prefix ":recovering" ":cooldown" refl)
            (Holds-psetex r law s now (cooldown prefix) ttl "1" pos)) in
      (
        (e, h, omega arith),
        law.read-del s2 (probe prefix) now (probe prefix) ∙ ground (arith, eq_self (probe prefix)),
      )

  fail-keeps :
      (until now : ℕ) (lease : String) (permanent : Bool) (P : r.State → Type 0) (s : r.State)
      → until ≤ now + 60000
      → P s
      → ((t : r.State) → IsOpen until t now → P t)
      → P (fail r prefix now lease permanent s)
  unfolding fail
  fail-keeps until now lease permanent P s le p o =
      elim (Bool-cases (is_stale r prefix now lease s)) [
        | inl stale ↦ rw stale p
        | inr valid ↦ rw valid (
            o _
              (elim permanent
                as (λ b.
                  IsOpen until
                    (r.del
                      (r.psetex
                        (r.psetex s now (cooldown prefix) (if b then 3600000 else 60000) "1") now
                        (recovering prefix) 86400000 "1")
                      (probe prefix))
                    now) [
                      | true ↦ failed-IsOpen until now 3600000 s (omega arith) (omega arith)
                      | false ↦ failed-IsOpen until now 60000 s (omega arith) le
                    ]))
      ]

  -- A probe's success is no other lease's.
  succeed_ignored :
      (now : ℕ) (lease : String) (s : r.State)
      → is_value (r.read s now (probe prefix)) lease ≡ false
      → succeed r prefix now lease s ≡ s
  unfolding succeed
  succeed_ignored now lease s h = ground (arith, h)

  step-IsOpen :
      (until now : ℕ) (c : Call) (s : r.State)
      → until ≤ now + 60000
      → IsOpen until s now
      → IsOpen until (step s (now, c)) now
  unfolding step
  step-IsOpen until now (acquires token) s le o =
      subst (λ x. IsOpen until x.0 now) (sym (acquire_open until now token s o)) o
  step-IsOpen until now (fails lease permanent) s le o =
      fail-keeps until now lease permanent (λ t. IsOpen until t now) s le o (λ t p. p)
  step-IsOpen until now (succeeds lease) s le (cool, gone) =
      subst (λ x. IsOpen until x now)
        (sym (succeed_ignored now lease s (ap (λ o. is_value o lease) gone))) (cool, gone)

  step-IsGuarded :
      (token : String) (until now : ℕ) (c : Call) (s : r.State)
      → NotBy token c
      → until ≤ now + 60000
      → IsGuarded token until s now
      → IsGuarded token until (step s (now, c)) now
  unfolding step
  step-IsGuarded token until now c s n le (inl o) = inl (step-IsOpen until now c s le o)
  step-IsGuarded token until now (acquires other) s n le (inr p) =
      elim (acquire_guarded token other until now s (inr p)) [
        | inl e ↦ subst (λ x. IsGuarded token until x.0 now) (sym e) (inr p)
        | inr e ↦ subst (λ x. IsGuarded token until x.0 now) (sym e) (inr p)
      ]
  step-IsGuarded token until now (fails lease permanent) s n le (inr p) =
      fail-keeps until now lease permanent (λ t. IsGuarded token until t now) s le (inr p)
        (λ t o. inl o)
  step-IsGuarded token until now (succeeds lease) s other le (inr (e, held, kept)) =
      subst (λ x. IsGuarded token until x now)
        (sym (
          succeed_ignored now lease s
            (ap (λ o. is_value o lease) held ∙ ground (arith, eq_iff token lease))))
        (inr (e, held, kept))

  -- The invariants outlast a history before `until`.
  run-IsOpen :
      (until low : ℕ) (h : List (ℕ × Call)) (s : r.State)
      → until ≤ low + 60000
      → Within low until h
      → IsOpen until s low
      → IsOpen until (run s h) (last_time low h) × (low ≤ last_time low h)
  unfolding run
  run-IsOpen until low [] s le w o = (o, omega arith)
  run-IsOpen until low ((now, c) ∷ h) s le (after, early, w) (cool, gone) =
      let o : IsOpen until s now = (
        Holds-later r law s low now (cooldown prefix) "1" until after early cool,
        absent-later r law s low now (probe prefix) after gone,
      ) in
      let (o', after') =
        run-IsOpen until now h (step s (now, c)) (omega arith) w
          (step-IsOpen until now c s (omega arith) o) in
      (o', omega arith)

  IsGuarded-later :
      (token : String) (until low now : ℕ) (s : r.State)
      → low ≤ now
      → now < until
      → IsGuarded token until s low
      → IsGuarded token until s now
  IsGuarded-later token until low now s after early (inl (cool, gone)) = inl (
    Holds-later r law s low now (cooldown prefix) "1" until after early cool,
    absent-later r law s low now (probe prefix) after gone,
  )
  IsGuarded-later token until low now s after early (inr p) =
      inr (Holds-later r law s low now (probe prefix) token until after early p)

  run-IsGuarded :
      (token : String) (until low : ℕ) (h : List (ℕ × Call)) (s : r.State)
      → until ≤ low + 60000
      → Within low until h
      → NoneBy token h
      → IsGuarded token until s low
      → IsGuarded token until (run s h) (last_time low h)
  unfolding run
  run-IsGuarded token until low [] s le w n g = g
  run-IsGuarded token until low ((now, c) ∷ h) s le (after, early, w) (n, ns) g =
      run-IsGuarded token until now h (step s (now, c)) (omega arith) w ns (
        step-IsGuarded token until now c s n (omega arith)
          (IsGuarded-later token until low now s after early g))

  fail_closed-IsOpen :
      (t : ℕ) (permanent : Bool) (s : r.State)
      → IsOpen (t + 60000) (fail r prefix t "closed" permanent s) t
  unfolding fail
  fail_closed-IsOpen t true s = failed-IsOpen (t + 60000) t 3600000 s (omega arith) (omega arith)
  fail_closed-IsOpen t false s = failed-IsOpen (t + 60000) t 60000 s (omega arith) (omega arith)

  open-answer :
      (until low now : ℕ) (token : String) (s : r.State)
      → low ≤ now
      → now < until
      → IsOpen until s low
      → (acquire r prefix now token s).1 ≡ none
  open-answer until low now token s after early (cool, gone) =
      ap (λ x. x.1)
        (acquire_open until now token s (
          Holds-later r law s low now (cooldown prefix) "1" until after early cool,
          absent-later r law s low now (probe prefix) after gone,
        ))

  -- The probe that a request was given.
  acquired :
      (t : ℕ) (token : String) (s : r.State)
      → token ≢ "closed"
      → (acquire r prefix t token s).1 ≡ some token
      → Holds r law (acquire r prefix t token s).0 t (probe prefix) token (t + 30000)
  unfolding acquire
  acquired t token s differs got = elim (Bool-cases (exists r prefix s t (cooldown prefix))) [
    | inl cool ↦ ground (arith, got)
    | inr warm ↦ elim (Bool-cases (exists r prefix s t (recovering prefix))) [
      | inr fresh ↦ ground (arith, got)
      | inl back ↦ elim (Option-cases (r.read s t (probe prefix))) [
        | inl free ↦
            rw (warm, back)
              (rw (set_nx_new r s t (probe prefix) 30000 token free)
                (Holds-psetex r law s t (probe prefix) 30000 token (omega arith)))
        | inr (i, taken) ↦
            let old = set_nx_old r s t (probe prefix) 30000 token {i = i} taken in
            let none_done = ap (λ x. x.1) old in ground (arith, got)
      ]
    ]
  ]

  -- A failure opens the circuit for a minute. When a request that went through the closed circuit has
  -- failed, then whatever calls follow (requests, failures, successes of stale probes), a request within
  -- the next 60,000 ms gets no lease.
  pub stays_open :
      (t now : ℕ) (token : String) (permanent : Bool) (h : List (ℕ × Call)) (s : r.State)
      → Within t (t + 60000) h
      → last_time t h ≤ now
      → now < t + 60000
      → (acquire r prefix now token (run (fail r prefix t "closed" permanent s) h)).1 ≡ none
  stays_open t now token permanent h s w after early =
      let s' = fail r prefix t "closed" permanent s in
      let (o, _) =
        run-IsOpen (t + 60000) t h s' (omega arith) w (fail_closed-IsOpen t permanent s) in
      open-answer (t + 60000) (last_time t h) now token (run s' h) after early o

  -- One request at a time probes recovery. When `acquire` has given a request the probe, under its own
  -- token, then for the next 30,000 ms, whatever calls follow that are not the report of that request, no
  -- other request gets the probe: its lease is none, or `closed` once the failure is forgotten.
  pub one_probe :
      (t now : ℕ) (token other : String) (h : List (ℕ × Call)) (s : r.State)
      → token ≢ "closed"
      → (acquire r prefix t token s).1 ≡ some token
      → Within t (t + 30000) h
      → NoneBy token h
      → last_time t h ≤ now
      → now < t + 30000
      → let answer = (acquire r prefix now other (run (acquire r prefix t token s).0 h)).1 in
        (answer ≡ none) ⊎ (answer ≡ some "closed")
  one_probe t now token other h s differs got w n after early =
      let s' = (acquire r prefix t token s).0 in
      let g =
        run-IsGuarded token (t + 30000) t h s' (omega arith) w n
          (inr (acquired t token s differs got)) in
      elim (acquire_guarded token other (t + 30000) now (run s' h)
        (IsGuarded-later token (t + 30000) (last_time t h) now (run s' h) after early g)) [
          | inl e ↦ inl (ap (λ x. x.1) e)
          | inr e ↦ inr (ap (λ x. x.1) e)
        ]
