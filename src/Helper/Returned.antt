-- ===== src/Helper/Returned.antt =====
-- Which errors of the primary provider go back to the caller, and which are held against the provider.
use text.Mathlib.Text.{starts_with}
use mathlib.Core.Bool.{false≢true}
use mathlib.Core.List.{append_assoc}
use hhc_line_function_bot.Prelude.{
  ℕ, zero, suc, ◌<◌, String, ◌≡◌, refl, ap, ◌∙◌, ◌⊎◌, inl, inr, Bool, true, false, Option, none,
  some, List, [], ◌∷◌, ◌++◌, arith, eq_iff, if◌then◌else◌, Bool-cases,
}
use hhc_line_function_bot.Helper.Failover.{
  Fault, Thrown, error, no_error, Category, transient, is_agent_error, is_network_error, within,
  fallback_error, Event, acquired, asked_primary, switched, failed_as, circuit_failed, pinned,
  prepared, asked_fallback, Reply, gave, raised, Outside, Run, then_do, ask_fallback,
  pin_and_fall_back, switch, after_primary, with_lease, generate,
}

-- The error at a depth of the chain of causes, and whether there is one of a kind among the first five.
unfoldable pub nth_error : ℕ → Thrown → Option Fault
nth_error n no_error = none
nth_error zero (error f cause) = some f
nth_error (suc n) (error f cause) = nth_error n cause

abbrev pub HasWithin : ℕ → (Fault → Type 0) → Thrown → Type 0
HasWithin depth P t = (n : ℕ) × (f : Fault) × (n < depth) × (nth_error n t ≡ some f) × P f

-- The agent's own error, or an abort.
abbrev pub IsOwn : Fault → Type 0
IsOwn f = (starts_with f.message "agent_" ≡ true) ⊎ (f.name ≡ "AbortError")

abbrev pub IsNetworkCode : String → Type 0
IsNetworkCode code =
    (code ≡ "ECONNRESET")
    ⊎ (code ≡ "ECONNREFUSED")
    ⊎ (code ≡ "ENETUNREACH")
    ⊎ (code ≡ "EHOSTUNREACH")
    ⊎ (code ≡ "ETIMEDOUT")
    ⊎ (code ≡ "ENOTFOUND")
    ⊎ (code ≡ "EAI_AGAIN")
    ⊎ (code ≡ "UND_ERR_SOCKET")
    ⊎ (code ≡ "UND_ERR_CONNECT_TIMEOUT")
    ⊎ (code ≡ "UND_ERR_HEADERS_TIMEOUT")
    ⊎ (code ≡ "UND_ERR_BODY_TIMEOUT")

abbrev pub IsNetwork : Fault → Type 0
IsNetwork f = (code : String) × (f.code ≡ some code) × IsNetworkCode code

within-HasWithin :
    (test : Fault → Bool) (P : Fault → Type 0)
    → ((f : Fault) → P f → test f ≡ true)
    → (depth n : ℕ) (f : Fault) (t : Thrown) → n < depth
    → nth_error n t ≡ some f
    → P f
    → within depth test t ≡ true
unfolding within nth_error
within-HasWithin test P passes zero n f t lt e p = absurd (omega (arith, lt))
within-HasWithin test P passes (suc depth) n f no_error lt e p = cc
within-HasWithin test P passes (suc depth) zero f (error g cause) lt e p =
    ground (arith, passes f p)
within-HasWithin test P passes (suc depth) (suc n) f (error g cause) lt e p =
    ground (arith, within-HasWithin test P passes depth n f cause (omega (arith, lt)) e p)

HasWithin-within :
    (test : Fault → Bool) (P : Fault → Type 0)
    → ((f : Fault) → test f ≡ true → P f)
    → (depth : ℕ) (t : Thrown) → within depth test t ≡ true
    → HasWithin depth P t
unfolding within nth_error
HasWithin-within test P means zero t h = absurd (false≢true h)
HasWithin-within test P means (suc depth) no_error h = absurd (false≢true h)
HasWithin-within test P means (suc depth) (error f cause) h = elim (Bool-cases (test f)) [
  | inl here ↦ (0, f, omega arith, refl, means f here)
  | inr not_here ↦
      let (n, g, lt, e, p) =
        HasWithin-within test P means depth cause (ground (arith, h, not_here)) in
      (suc n, g, omega (arith, lt), e, p)
]

IsOwn-is_agent_error : (f : Fault) → IsOwn f → is_agent_error f ≡ true
IsOwn-is_agent_error f (inl e) = rw e refl
IsOwn-is_agent_error f (inr e) = ground (arith, eq_iff f.name "AbortError")

is_agent_error-IsOwn : (f : Fault) → is_agent_error f ≡ true → IsOwn f
is_agent_error-IsOwn f h = elim (Bool-cases (starts_with f.message "agent_")) [
  | inl own ↦ inl own
  | inr not_own ↦ inr (ground (arith, eq_iff f.name "AbortError"))
]

is_network :
    (f : Fault) (code : String)
    → f.code ≡ some code
    → IsNetworkCode code
    → is_network_error f ≡ true
is_network f code c (inl e) = rw (c, e) refl
is_network f code c (inr (inl e)) = rw (c, e) refl
is_network f code c (inr (inr (inl e))) = rw (c, e) refl
is_network f code c (inr (inr (inr (inl e)))) = rw (c, e) refl
is_network f code c (inr (inr (inr (inr (inl e))))) = rw (c, e) refl
is_network f code c (inr (inr (inr (inr (inr (inl e)))))) = rw (c, e) refl
is_network f code c (inr (inr (inr (inr (inr (inr (inl e))))))) = rw (c, e) refl
is_network f code c (inr (inr (inr (inr (inr (inr (inr (inl e)))))))) = rw (c, e) refl
is_network f code c (inr (inr (inr (inr (inr (inr (inr (inr (inl e))))))))) = rw (c, e) refl
is_network f code c (inr (inr (inr (inr (inr (inr (inr (inr (inr (inl e)))))))))) = rw (c, e) refl
is_network f code c (inr (inr (inr (inr (inr (inr (inr (inr (inr (inr e)))))))))) = rw (c, e) refl

own_stays : (t : Thrown) → HasWithin 5 IsOwn t → fallback_error t ≡ none
unfolding fallback_error
own_stays no_error h = refl
own_stays (error f cause) (n, g, lt, e, p) =
    rw (within-HasWithin is_agent_error IsOwn IsOwn-is_agent_error 5 n g (error f cause) lt e p)
      refl

network_switches :
    (t : Thrown)
    → ¬ HasWithin 5 IsOwn t
    → HasWithin 5 IsNetwork t
    → fallback_error t ≡ some transient
unfolding fallback_error
network_switches no_error clean (n, g, lt, e, p) = unfold nth_error in cc
network_switches (error f cause) clean (n, g, lt, e, p) =
    elim (Bool-cases (within 5 is_agent_error (error f cause))) [
      | inl own ↦
          absurd (
            clean
              (HasWithin-within is_agent_error IsOwn is_agent_error-IsOwn 5 (error f cause) own))
      | inr not_own ↦
          rw
            (
              not_own,
              within-HasWithin is_network_error IsNetwork
                  (λ g (code, c, listed). is_network g code c listed) 5 n g (error f cause) lt e p,
            )
            refl
    ]

-- The second list goes on from the first.
abbrev pub GoesOn : List Event → List Event → Type 0
GoesOn es es' = (more : List Event) × (es' ≡ es ++ more)

GoesOn-here : (es : List Event) → GoesOn es es
GoesOn-here [] = ([], refl)
GoesOn-here (e ∷ es) = let (more, same) = GoesOn-here es in (more, ap (λ xs. e ∷ xs) same)

GoesOn-next : (es es' : List Event) (e : Event) → GoesOn es es' → GoesOn es (es' ++ e ∷ [])
GoesOn-next es es' e (more, same) =
    (more ++ e ∷ [], ap (λ xs. xs ++ e ∷ []) same ∙ append_assoc es more (e ∷ []))

-- The lease has been acquired and the primary provider asked.
abbrev pub asked : Run → Run
asked r = record r { events = (r.events ++ acquired ∷ []) ++ asked_primary ∷ [] }

module _ {R : Type 0} where
  generated :
      (o : Outside R) (r : Run) (lease : String) (t : Thrown)
      → r.is_pinned ≡ false
      → o.acquire ≡ gave (some lease)
      → o.primary ≡ raised t
      → generate o r ≡ switch o lease t (fallback_error t) (asked r)
  unfolding generate with_lease after_primary
  generated o r lease t open_ got threw =
      let r1 = record r { events = r.events ++ acquired ∷ [] } in
      ap (λ b. if b then ask_fallback o r else then_do (with_lease o) (r1, o.acquire)) open_
      ∙ ap (λ x. then_do (with_lease o) (r1, x)) got
      ∙ ap (λ x. after_primary o lease x (asked r)) threw

  switch_refuses :
      (o : Outside R) (lease : String) (t : Thrown) (c : Option Category) (r : Run)
      → (c ≡ none) ⊎ (o.is_aborted ≡ true)
      → switch o lease t c r ≡ (r, raised t)
  unfolding switch
  switch_refuses o lease t none r w = refl
  switch_refuses o lease t (some c) r (inl e) = cc
  switch_refuses o lease t (some c) r (inr a) = rw a refl

  ask-GoesOn :
      (o : Outside R) (r : Run) (es : List Event)
      → GoesOn es r.events
      → GoesOn es (ask_fallback o r).0.events
  unfolding ask_fallback
  ask-GoesOn o r es g = from o.before_fallback o.fallback
    where
      prepared_ : GoesOn es (r.events ++ prepared ∷ [])
      prepared_ = GoesOn-next es r.events prepared g

      from :
          (b : Reply Unit) (f : Reply R)
          → GoesOn es (ask_fallback (record o { before_fallback = b; fallback = f }) r).0.events
      from (raised t) f = prepared_
      from (gave u) (raised t) = GoesOn-next es (r.events ++ prepared ∷ []) asked_fallback prepared_
      from (gave u) (gave a) = GoesOn-next es (r.events ++ prepared ∷ []) asked_fallback prepared_

  pin-GoesOn :
      (o : Outside R) (r : Run) (es : List Event)
      → GoesOn es r.events
      → GoesOn es (pin_and_fall_back o r).0.events
  unfolding pin_and_fall_back
  pin-GoesOn o r es g = from o.pin
    where
      from : (p : Reply Unit) → GoesOn es (pin_and_fall_back (record o { pin = p }) r).0.events
      from (raised t) = GoesOn-next es r.events pinned g
      from (gave u) =
          ask-GoesOn (record o { pin = gave u })
            (record { is_pinned = true; events = r.events ++ pinned ∷ [] }) es
            (GoesOn-next es r.events pinned g)

  told :
      (o : Outside R) (lease : String) (t : Thrown) (r : Run)
      → o.is_aborted ≡ false
      → GoesOn
          (r.events ++ circuit_failed lease false ∷ [])
          (switch o lease t (some transient) r).0.events
  unfolding switch
  told o lease t r live = rw live (from o.fail)
    where
      es : List Event
      es = r.events ++ circuit_failed lease false ∷ []

      from :
          (f : Reply Unit)
          → GoesOn es
              (switch
                (record o { is_aborted = false; fail = f })
                lease
                t
                (some transient)
                r).0.events
      from (raised e) = GoesOn-here es
      from (gave u) =
          pin-GoesOn (record o { is_aborted = false; fail = gave u })
            (record r { events = es ++ switched (failed_as transient) ∷ [] }) es
            (GoesOn-next es es (switched (failed_as transient)) (GoesOn-here es))

  -- Which errors go back to the caller. In a session that is not pinned and has a lease, when the primary
  -- provider throws: if one of the first five errors of the chain of causes is the agent's own (its message
  -- starts with `agent_`) or an abort, or the request has been aborted, then `_generate` throws the same,
  -- and has done nothing but acquire the lease and ask the primary provider: the circuit is not told, and
  -- the session is not pinned. If there is no such error among the five and the request has not been
  -- aborted, but one of the five has the code of a broken network, then the next that is done is to tell the
  -- circuit of a failure that is not permanent.
  pub error_returned :
      (o : Outside R) (r : Run) (lease : String) (t : Thrown)
      → r.is_pinned ≡ false
      → o.acquire ≡ gave (some lease)
      → o.primary ≡ raised t
      → (HasWithin 5 IsOwn t ⊎ (o.is_aborted ≡ true) → generate o r ≡ (asked r, raised t))
        × (¬ HasWithin 5 IsOwn t
            → o.is_aborted ≡ false
            → HasWithin 5 IsNetwork t
            → GoesOn ((asked r).events ++ circuit_failed lease false ∷ []) (generate o r).0.events)
  error_returned o r lease t open_ got threw = rw (generated o r lease t open_ got threw) (
    λ why.
        switch_refuses o lease t (fallback_error t) (asked r)
          (elim why [ inl own ↦ inl (own_stays t own) | inr aborted ↦ inr aborted ]),
    λ clean live broken. rw (network_switches t clean broken) (told o lease t (asked r) live),
  )
