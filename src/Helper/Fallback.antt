-- ===== src/Helper/Fallback.antt =====
-- When the second provider is asked.
use mathlib.Core.Bool.{false≢true}
use hhc_line_function_bot.Prelude.{
  ◌≡◌, refl, sym, ◌∙◌, Bool, true, false, String, Option, none, some, [], ◌∷◌, ◌++◌, arith, any,
  any-append,
}
use hhc_line_function_bot.Helper.Failover.{
  Thrown, Category, fallback_error, Event, acquired, asked_primary, switched, failed_as,
  circuit_open, circuit_failed, circuit_succeeded, pinned, asked_fallback, Reply, gave, raised,
  Outside, Run, then_do, ask_fallback, pin_and_fall_back, switch, after_primary, with_lease,
  generate, is_permanent,
}

abbrev pub asks_fallback : Event → Bool
asks_fallback asked_fallback = true
asks_fallback _ = false

-- The second provider has not been asked.
abbrev pub Fresh : Run → Type 0
Fresh r = any asks_fallback r.events ≡ false

Fresh-note :
    (e : Event) (r : Run)
    → asks_fallback e ≡ false
    → Fresh r
    → Fresh (record r { events = r.events ++ e ∷ [] })
Fresh-note e r other fresh = ground (arith, any-append asks_fallback r.events (e ∷ []))

-- The second provider was asked only after `pin` had given `p`, which is no error, and by a pinned session.
abbrev pub IsPersisted : {A : Type 0} → Reply Unit → Run × Reply A → Type 0
IsPersisted p (r, reply) = any asks_fallback r.events ≡ true → (r.is_pinned ≡ true) × (p ≡ gave tt)

never : {A : Type 0} {b : Bool} → b ≡ false → b ≡ true → A
never e h = absurd (false≢true (sym e ∙ h))

module _ {R : Type 0} where
  ask-IsPersisted :
      (o : Outside R) (p : Reply Unit) (r : Run)
      → r.is_pinned ≡ true
      → p ≡ gave tt
      → IsPersisted p (ask_fallback o r)
  unfolding ask_fallback
  ask-IsPersisted o p r pin e = from o.before_fallback o.fallback
    where
      from :
          (b : Reply Unit) (f : Reply R)
          → IsPersisted p (ask_fallback (record o { before_fallback = b; fallback = f }) r)
      from (raised t) f = λ h. (pin, e)
      from (gave u) (raised t) = λ h. (pin, e)
      from (gave u) (gave a) = λ h. (pin, e)

  pin-IsPersisted : (o : Outside R) (r : Run) → Fresh r → IsPersisted o.pin (pin_and_fall_back o r)
  unfolding pin_and_fall_back
  pin-IsPersisted o r fresh = from o.pin
    where
      from : (p : Reply Unit) → IsPersisted p (pin_and_fall_back (record o { pin = p }) r)
      from (raised t) = λ h. never (Fresh-note pinned r refl fresh) h
      from (gave u) =
          ask-IsPersisted (record o { pin = gave u }) (gave u)
            (record { is_pinned = true; events = r.events ++ pinned ∷ [] }) refl refl

  switch-IsPersisted :
      (o : Outside R) (lease : String) (t : Thrown) (c : Option Category) (r : Run)
      → Fresh r
      → IsPersisted o.pin (switch o lease t c r)
  unfolding switch
  switch-IsPersisted o lease t none r fresh = λ h. never fresh h
  switch-IsPersisted o lease t (some c) r fresh = from o.is_aborted o.fail
    where
      from :
          (a : Bool) (f : Reply Unit)
          → IsPersisted o.pin (switch (record o { is_aborted = a; fail = f }) lease t (some c) r)
      from true f = λ h. never fresh h
      from false (raised e) =
          λ h. never (Fresh-note (circuit_failed lease (is_permanent c)) r refl fresh) h
      from false (gave u) =
          let e = circuit_failed lease (is_permanent c) in
          pin-IsPersisted (record o { is_aborted = false; fail = gave u })
            (record r { events = (r.events ++ e ∷ []) ++ switched (failed_as c) ∷ [] })
            (Fresh-note (switched (failed_as c)) (record r { events = r.events ++ e ∷ [] }) refl
              (Fresh-note e r refl fresh))

  primary-IsPersisted :
      (o : Outside R) (lease : String) (p : Reply R) (r : Run)
      → Fresh r
      → IsPersisted o.pin (after_primary o lease p r)
  unfolding after_primary
  primary-IsPersisted o lease (raised t) r fresh =
      switch-IsPersisted o lease t (fallback_error t) r fresh
  primary-IsPersisted o lease (gave a) r fresh = from o.succeed
    where
      from :
          (x : Reply Unit)
          → IsPersisted o.pin (after_primary (record o { succeed = x }) lease (gave a) r)
      from (raised e) = λ h. never (Fresh-note (circuit_succeeded lease) r refl fresh) h
      from (gave u) = λ h. never (Fresh-note (circuit_succeeded lease) r refl fresh) h

  lease-IsPersisted :
      (o : Outside R) (lease : Option String) (r : Run)
      → Fresh r
      → IsPersisted o.pin (with_lease o lease r)
  unfolding with_lease
  lease-IsPersisted o none r fresh =
      pin-IsPersisted o (record r { events = r.events ++ switched circuit_open ∷ [] })
        (Fresh-note (switched circuit_open) r refl fresh)
  lease-IsPersisted o (some lease) r fresh =
      primary-IsPersisted o lease o.primary (record r { events = r.events ++ asked_primary ∷ [] })
        (Fresh-note asked_primary r refl fresh)

  -- The switch is persisted before the second provider is asked. In a session that is not pinned yet: when
  -- `_generate`, in whatever way what it awaits ends, has asked the second provider, then `pin` had been
  -- called with success, and the session is pinned.
  pub generate-IsPersisted :
      (o : Outside R) (r : Run) → r.is_pinned ≡ false → Fresh r → IsPersisted o.pin (generate o r)
  unfolding generate
  generate-IsPersisted o r open_ fresh = rw open_ (from o.acquire)
    where
      from :
          (x : Reply (Option String))
          → IsPersisted o.pin
              (then_do (with_lease o) (record r { events = r.events ++ acquired ∷ [] }, x))
      from (raised e) = λ h. never (Fresh-note acquired r refl fresh) h
      from (gave lease) =
          lease-IsPersisted o lease (record r { events = r.events ++ acquired ∷ [] })
            (Fresh-note acquired r refl fresh)
