-- ===== src/Helper/Gateway.antt =====
-- The gateway of the helper's tools, src/helper-agent/policy-gateway.ts, and its budget of tool calls,
-- src/helper-agent/budget.ts. What the gateway asks of others is what it is given: the schemas' `safeParse`,
-- `authorize`, the handlers (of which one that throws or runs out of time has `failed`), and the answer of
-- `claimIsolatedRead`, which is the same for every call that is given the same `Gateway` (the source's
-- callback claims once in a run, which is not modelled). `property` gives an array's own properties in
-- JavaScript.
use hhc_line_function_bot.Prelude.{
  ℕ, zero, suc, ◌+◌, String, Bool, true, false, not, ◌&&◌, ◌||◌, Option, none, some, List, [], ◌∷◌,
  ◌==◌, any, if◌then◌else◌,
}
use hhc_line_function_bot.Capability.{
  CapabilityName, download_weekly_paper, update_own_profile, query_public_web, same_capability,
  SideEffectLevel, read, side_effect_level,
}

-- The budget of `runWithAgentBudget`; `none` outside of a run.
pub record Budget : Type 0 where
  pub model_calls : ℕ
  pub tool_calls : ℕ

-- `normal`.
abbrev pub limits : Budget
limits = record { model_calls = 4; tool_calls = 4 }

-- What is left of the budget, or none when the call throws.
unfoldable pub take_tool_call : Option Budget → Option (Option Budget)
take_tool_call none = some none
take_tool_call (some b) = elim b.tool_calls [
  | zero ↦ none
  | suc n ↦ some (some (record b { tool_calls = n }))
]

unfoldable pub take_model_call : Option Budget → Option (Option Budget)
take_model_call none = some none
take_model_call (some b) = elim b.model_calls [
  | zero ↦ none
  | suc n ↦ some (some (record b { model_calls = n }))
]

mutual
  pub data Json : Type 0 where
    null : Json
    boolean : Bool → Json
    number : String → Json
    text : String → Json
    array : Items → Json
    object : Fields → Json

  pub data Items : Type 0 where
    no_items : Items
    item : Json → Items → Items

  pub data Fields : Type 0 where
    no_fields : Fields
    field : String → Json → Fields → Fields

unfoldable pub own : String → Fields → Option Json
own key no_fields = none
own key (field k v rest) = if k == key then some v else own key rest

abbrev pub is_some {ℓ} : {A : Type ℓ} → Option A → Bool
is_some none = false
is_some (some a) = true

module _ (property : Items → String → Option Json) where
  -- The property of a parsed value, if it is an object (an array is one) that has it.
  abbrev pub property_of : Json → String → Option Json
  property_of (object fields) key = own key fields
  property_of (array items) key = property items key
  property_of _ key = none

  abbrev pub is_object : Json → Bool
  is_object (object _) = true
  is_object (array _) = true
  is_object _ = false

  abbrev pub is_found : (Json → Bool) → Option Json → Bool
  is_found test none = false
  is_found test (some p) = test p

  unfoldable mutual
    pub is_strict_value : Json → Json → Bool
    is_strict_value (array items) (array parsed) = are_strict items parsed
    is_strict_value (array items) _ = false
    is_strict_value (object fields) parsed = is_object parsed && has_all fields parsed
    is_strict_value _ parsed = true

    -- The same length, and each item strict.
    pub are_strict : Items → Items → Bool
    are_strict no_items no_items = true
    are_strict (item v vs) (item p ps) = is_strict_value v p && are_strict vs ps
    are_strict _ _ = false

    -- Each entry has its own counterpart.
    pub has_all : Fields → Json → Bool
    has_all no_fields parsed = true
    has_all (field k v rest) parsed =
        is_found (λ p. is_strict_value v p) (property_of parsed k) && has_all rest parsed

  -- `isStrictSubset`.
  abbrev pub is_strict_subset : Fields → Json → Bool
  is_strict_subset args parsed = is_object parsed && has_all args parsed

  abbrev pub strict_only : Fields → Option Json → Option Json
  strict_only args none = none
  strict_only args (some parsed) = if is_strict_subset args parsed then some parsed else none

  unfoldable pub validated_arguments : (Fields → Option Json) → Fields → Option Json
  validated_arguments safe_parse args = strict_only args (safe_parse args)

unfoldable pub has_model_review_argument : Fields → Bool
has_model_review_argument args = is_some (own "confirm" args) || is_some (own "cancel" args)

-- `allowedSources` and `agentCapability.isolatedRead` of the catalog.
unfoldable pub allowed_in_groups : CapabilityName → Bool
allowed_in_groups download_weekly_paper = false
allowed_in_groups update_own_profile = false
allowed_in_groups _ = true

unfoldable pub isolated_read : CapabilityName → Bool
isolated_read query_public_web = true
isolated_read _ = false

unfoldable pub allowed_source : String → CapabilityName → Bool
unfolding allowed_in_groups
allowed_source source_kind name =
    (source_kind == "user") || (source_kind == "group") && allowed_in_groups name

-- What a call of others gives: a value, or none when it throws.
pub data Attempt (A : Type 0) : Type 0 where
  gave : A → Attempt A
  failed : Attempt A

pub data Event (R : Type 0) : Type 0 where
  ran : CapabilityName → Json → Event R
  -- `onDomainResult`, with the order of the invocation.
  reported : CapabilityName → Json → R → ℕ → Event R

pub data Outcome (R : Type 0) : Type 0 where
  denied unavailable : Outcome R
  -- `projectToolResult` of the result.
  projected : R → Outcome R

pub record Gateway (R : Type 0) : Type 0 where
  pub source_kind : String
  pub enabled_functions : List CapabilityName
  pub permission_required_functions : List CapabilityName
  pub safe_parse : CapabilityName → Fields → Option Json
  pub property : Items → String → Option Json
  pub authorize : Option (CapabilityName → Attempt Bool)
  pub handler : CapabilityName → Option (Json → Attempt R)
  pub claim_isolated_read : Option Bool

-- `claimIsolatedRead?.()`.
abbrev pub is_claimed : Option Bool → Bool
is_claimed none = false
is_claimed (some b) = b

abbrev pub includes : List CapabilityName → CapabilityName → Bool
includes names name = any (λ f. same_capability f name) names

module _ {R : Type 0} (g : Gateway R) where
  abbrev pub after_run : CapabilityName → Json → ℕ → Attempt R → List (Event R) × Outcome R
  after_run name args order failed = (ran name args ∷ [], unavailable)
  after_run name args order (gave result) =
      (ran name args ∷ reported name args result order ∷ [], projected result)

  unfoldable pub run_handler :
      CapabilityName → Json → ℕ → Option (Json → Attempt R) → List (Event R) × Outcome R
  run_handler name args order none = ([], unavailable)
  run_handler name args order (some h) =
      if isolated_read name && not (is_claimed g.claim_isolated_read)
      then ([], denied)
      else after_run name args order (h args)

  unfoldable pub authorized : CapabilityName → Json → ℕ → Attempt Bool → List (Event R) × Outcome R
  unfolding run_handler
  authorized name args order failed = ([], unavailable)
  authorized name args order (gave yes_) =
      if not yes_ then ([], denied) else run_handler name args order (g.handler name)

  abbrev pub is_read : SideEffectLevel → Bool
  is_read read = true
  is_read _ = false

  unfoldable pub check_account :
      CapabilityName
      → Bool
      → Json
      → ℕ
      → Option (CapabilityName → Attempt Bool)
      → List (Event R) × Outcome R
  unfolding authorized run_handler
  check_account name requires_account args order none =
      if requires_account then ([], denied) else run_handler name args order (g.handler name)
  check_account name requires_account args order (some ask) = authorized name args order (ask name)

  unfoldable pub check_arguments :
      CapabilityName → SideEffectLevel → Fields → ℕ → Option Json → List (Event R) × Outcome R
  unfolding check_account
  check_arguments name level args order none = ([], denied)
  check_arguments name level args order (some parsed) =
      if not (includes g.enabled_functions name)
        || not (allowed_source g.source_kind name)
        || not (is_read level) && has_model_review_argument args
      then ([], denied)
      else check_account name (not (is_read level) || includes g.permission_required_functions name)
          parsed order g.authorize

  unfoldable pub check_definition :
      CapabilityName → Option SideEffectLevel → Fields → ℕ → List (Event R) × Outcome R
  unfolding check_arguments
  check_definition name none args order = ([], denied)
  check_definition name (some level) args order =
      check_arguments name level args order
        (validated_arguments g.property (g.safe_parse name) args)

  -- The state of a gateway is its counter of invocations.
  pub record Step : Type 0 where
    pub budget : Option Budget
    pub order : ℕ
    pub events : List (Event R)
    -- `none` when the call throws, its budget spent.
    pub outcome : Option (Outcome R)

  abbrev pub settled : Option Budget → ℕ → List (Event R) × Outcome R → Step
  settled budget order (events, outcome) = record {
    budget = budget;
    order = order;
    events = events;
    outcome = some outcome;
  }

  abbrev pub with_budget :
      Option Budget → ℕ → CapabilityName → Fields → Option (Option Budget) → Step
  with_budget budget order name args none = record {
    budget = budget;
    order = order;
    events = [];
    outcome = none;
  }
  with_budget budget order name args (some left) =
      settled left (order + 1) (check_definition name (side_effect_level name) args (order + 1))

  unfoldable pub execute : Option Budget → ℕ → CapabilityName → Fields → Step
  unfolding check_definition take_tool_call
  execute budget order name args = with_budget budget order name args (take_tool_call budget)
