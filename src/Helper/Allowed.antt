-- ===== src/Helper/Allowed.antt =====
-- No handler runs but for a call that the profile, the catalog, the account and the budget allow.
use mathlib.Core.Path.{subst}
use hhc_line_function_bot.Prelude.{
  ℕ, ◌+◌, ◌≡◌, refl, ◌≢◌, inl, inr, Bool, true, false, not, ◌&&◌, ◌||◌, Option, none, some, arith,
  if◌then◌else◌, Bool-cases, All,
}
use hhc_line_function_bot.Capability.{
  CapabilityName, SideEffectLevel, read, write, admin, destructive, side_effect_level,
}
use hhc_line_function_bot.Helper.Gateway.{
  Budget, take_tool_call, Json, Fields, is_strict_subset, strict_only, validated_arguments,
  has_model_review_argument, isolated_read, allowed_source, Attempt, gave, failed, Event, ran,
  reported, Gateway, is_claimed, includes, after_run, run_handler, authorized, is_read,
  check_account, check_arguments, check_definition, with_budget, execute,
}

module _ {R : Type 0} (g : Gateway R) where
  -- The account was asked about the function and allows it.
  abbrev pub IsAuthorized : CapabilityName → Type 0
  IsAuthorized name =
      (ask : CapabilityName → Attempt Bool) × (g.authorize ≡ some ask) × (ask name ≡ gave true)

  -- What holds when a handler is given `parsed` for the arguments of a call.
  abbrev pub IsAllowed : CapabilityName → Fields → Json → Type 0
  IsAllowed name args parsed =
      (includes g.enabled_functions name ≡ true)
      × (allowed_source g.source_kind name ≡ true)
      × (g.safe_parse name args ≡ some parsed)
      × (is_strict_subset g.property args parsed ≡ true)
      × (side_effect_level name ≢ some read
          → (has_model_review_argument args ≡ false) × IsAuthorized name)
      × (includes g.permission_required_functions name ≡ true → IsAuthorized name)
      × (isolated_read name ≡ true → is_claimed g.claim_isolated_read ≡ true)

  -- An event is one of the call, with arguments that have the property.
  abbrev pub IsOf : CapabilityName → (Json → Type 0) → Event R → Type 0
  IsOf name C (ran n parsed) = (n ≡ name) × C parsed
  IsOf name C (reported n parsed result order) = (n ≡ name) × C parsed

  run_handler-IsOf :
      (name : CapabilityName) (C : Json → Type 0) (parsed : Json) (order : ℕ)
      (o : Option (Json → Attempt R))
      → ((isolated_read name ≡ true → is_claimed g.claim_isolated_read ≡ true) → C parsed)
      → All (IsOf name C) (run_handler g name parsed order o).0
  unfolding run_handler
  run_handler-IsOf name C parsed order none c = tt
  run_handler-IsOf name C parsed order (some h) c =
      elim (Bool-cases (isolated_read name && not (is_claimed g.claim_isolated_read))) [
        | inl taken ↦ rw taken tt
        | inr free ↦ rw free (attempt (h parsed) (c (λ i. ground arith)))
      ]
    where
      attempt : (x : Attempt R) → C parsed → All (IsOf name C) (after_run g name parsed order x).0
      attempt failed p = ((refl, p), tt)
      attempt (gave result) p = ((refl, p), ((refl, p), tt))

  authorized-IsOf :
      (name : CapabilityName) (C : Json → Type 0) (parsed : Json) (order : ℕ) (x : Attempt Bool)
      → (x ≡ gave true
          → (isolated_read name ≡ true → is_claimed g.claim_isolated_read ≡ true)
          → C parsed)
      → All (IsOf name C) (authorized g name parsed order x).0
  unfolding authorized
  authorized-IsOf name C parsed order failed c = tt
  authorized-IsOf name C parsed order (gave false) c = tt
  authorized-IsOf name C parsed order (gave true) c =
      run_handler-IsOf name C parsed order (g.handler name) (c refl)

  check_account-IsOf :
      (name : CapabilityName) (C : Json → Type 0) (requires : Bool) (parsed : Json) (order : ℕ)
      (o : Option (CapabilityName → Attempt Bool))
      → g.authorize ≡ o
      → ((requires ≡ true → IsAuthorized name)
          → (isolated_read name ≡ true → is_claimed g.claim_isolated_read ≡ true)
          → C parsed)
      → All (IsOf name C) (check_account g name requires parsed order o).0
  unfolding check_account
  check_account-IsOf name C true parsed order none e c = tt
  check_account-IsOf name C false parsed order none e c =
      run_handler-IsOf name C parsed order (g.handler name) (c (λ r. ground arith))
  check_account-IsOf name C requires parsed order (some ask) e c =
      authorized-IsOf name C parsed order (ask name) (λ y. c (λ r. (ask, e, y)))

  not_read :
      (l : SideEffectLevel) (o : Option SideEffectLevel)
      → o ≡ some l
      → o ≢ some read
      → is_read g l ≡ false
  not_read read o e d = absurd (d e)
  not_read write o e d = refl
  not_read admin o e d = refl
  not_read destructive o e d = refl

  strict-parsed :
      (args : Fields) (o : Option Json) {parsed : Json}
      → strict_only g.property args o ≡ some parsed
      → (o ≡ some parsed) × (is_strict_subset g.property args parsed ≡ true)
  strict-parsed args none h = cc
  strict-parsed args (some p) {parsed} h = kept (is_strict_subset g.property args p) refl h
    where
      kept :
          (b : Bool)
          → is_strict_subset g.property args p ≡ b
          → (if b then some p else none) ≡ some parsed
          → (some p ≡ some parsed) × (is_strict_subset g.property args parsed ≡ true)
      kept false e h = cc
      kept true e h =
          let same : p ≡ parsed = ground arith in
          (h, subst (λ x. is_strict_subset g.property args x ≡ true) same e)

  check_arguments-IsOf :
      (name : CapabilityName) (level : SideEffectLevel) (args : Fields) (order : ℕ)
      (o : Option Json)
      → side_effect_level name ≡ some level
      → validated_arguments g.property (g.safe_parse name) args ≡ o
      → All (IsOf name (IsAllowed name args)) (check_arguments g name level args order o).0
  unfolding check_arguments validated_arguments
  check_arguments-IsOf name level args order none e v = tt
  check_arguments-IsOf name level args order (some parsed) e v =
      elim (Bool-cases (
        not (includes g.enabled_functions name)
        || not (allowed_source g.source_kind name)
        || not (is_read g level) && has_model_review_argument args)) [
          | inl refused ↦ rw refused tt
          | inr passed ↦ rw passed (
              let (safe, strict) =
                strict-parsed args (g.safe_parse name args) {parsed = parsed} v in
              let enabled : includes g.enabled_functions name ≡ true = ground arith in
              let here : allowed_source g.source_kind name ≡ true = ground arith in
              check_account-IsOf name (IsAllowed name args)
                (not (is_read g level) || includes g.permission_required_functions name) parsed
                order g.authorize refl
                (λ account isolated. (
                  enabled,
                  here,
                  safe,
                  strict,
                  λ writes.
                      let w = not_read level (side_effect_level name) e writes in
                      (ground (arith, w), account (rw w refl)),
                  λ needed. account (ground (arith, needed)),
                  isolated,
                )))
        ]

  check_definition-IsOf :
      (name : CapabilityName) (o : Option SideEffectLevel) (args : Fields) (order : ℕ)
      → side_effect_level name ≡ o
      → All (IsOf name (IsAllowed name args)) (check_definition g name o args order).0
  unfolding check_definition
  check_definition-IsOf name none args order e = tt
  check_definition-IsOf name (some level) args order e =
      check_arguments-IsOf name level args order _ e refl

  -- No handler runs unless it may. In whatever state of the budget a tool is called: every handler that
  -- the call runs, and every result that it reports, is of the named function, which the profile enables
  -- and the catalog allows in the kind of chat; its arguments are what the schema made of the call's, of
  -- which none was dropped; if it does not just read, or needs permission, the account was asked about it
  -- and allowed it; if it does not just read, the call has no `confirm` or `cancel` argument; and if it is
  -- an isolated read, the turn's only one was claimed for it.
  pub execute-IsAllowed :
      (budget : Option Budget) (order : ℕ) (name : CapabilityName) (args : Fields)
      → All (IsOf name (IsAllowed name args)) (execute g budget order name args).events
  unfolding execute
  execute-IsAllowed budget order name args = taken (take_tool_call budget)
    where
      taken :
          (o : Option (Option Budget))
          → All (IsOf name (IsAllowed name args)) (with_budget g budget order name args o).events
      taken none = tt
      taken (some left) = check_definition-IsOf name (side_effect_level name) args (order + 1) refl
