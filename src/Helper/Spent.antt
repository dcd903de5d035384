-- ===== src/Helper/Spent.antt =====
-- The budget of a run: how many tool calls it settles, and how many handlers they run.
use hhc_line_function_bot.Prelude.{
  ℕ, zero, suc, ◌+◌, ◌≤◌, min, ◌≡◌, Bool, true, false, not, ◌||◌, Option, none, some, List, [], ◌∷◌,
  arith, length,
}
use hhc_line_function_bot.Capability.{CapabilityName, SideEffectLevel, side_effect_level}
use hhc_line_function_bot.Helper.Gateway.{
  Budget, limits, take_tool_call, Json, Fields, Attempt, gave, failed, Event, ran, reported,
  Outcome, Gateway, includes, run_handler, after_run, authorized, is_read, check_account,
  check_arguments, check_definition, Step, execute,
}

abbrev pub runs : {R : Type 0} → List (Event R) → ℕ
runs [] = 0
runs (ran name args ∷ events) = suc (runs events)
runs (reported name args result order ∷ events) = runs events

module _ {R : Type 0} (g : Gateway R) where
  -- The calls of one run, one after the other.
  unfoldable pub execute_all : Option Budget → ℕ → List (CapabilityName × Fields) → List (Step g)
  execute_all budget order [] = []
  execute_all budget order ((name, args) ∷ calls) =
      let s = execute g budget order name args in s ∷ execute_all s.budget s.order calls

  abbrev pub total_runs : List (Step g) → ℕ
  total_runs [] = 0
  total_runs (s ∷ steps) = runs s.events + total_runs steps

  -- The calls that gave an outcome, and did not throw.
  abbrev is_settled : Option (Outcome R) → ℕ
  is_settled none = 0
  is_settled (some outcome) = 1

  abbrev pub settled_calls : List (Step g) → ℕ
  settled_calls [] = 0
  settled_calls (s ∷ steps) = is_settled s.outcome + settled_calls steps

  runs-handler :
      (name : CapabilityName) (parsed : Json) (order : ℕ) (o : Option (Json → Attempt R))
      → runs (run_handler g name parsed order o).0 ≤ 1
  unfolding run_handler
  runs-handler name parsed order none = omega arith
  runs-handler name parsed order (some h) = let one = attempt (h parsed) in ground arith
    where
      attempt : (x : Attempt R) → runs (after_run g name parsed order x).0 ≤ 1
      attempt failed = omega arith
      attempt (gave result) = omega arith

  runs-authorized :
      (name : CapabilityName) (parsed : Json) (order : ℕ) (x : Attempt Bool)
      → runs (authorized g name parsed order x).0 ≤ 1
  unfolding authorized
  runs-authorized name parsed order failed = omega arith
  runs-authorized name parsed order (gave false) = omega arith
  runs-authorized name parsed order (gave true) = runs-handler name parsed order (g.handler name)

  runs-account :
      (name : CapabilityName) (requires : Bool) (parsed : Json) (order : ℕ)
      (o : Option (CapabilityName → Attempt Bool))
      → runs (check_account g name requires parsed order o).0 ≤ 1
  unfolding check_account
  runs-account name true parsed order none = omega arith
  runs-account name false parsed order none = runs-handler name parsed order (g.handler name)
  runs-account name requires parsed order (some ask) = runs-authorized name parsed order (ask name)

  runs-arguments :
      (name : CapabilityName) (level : SideEffectLevel) (args : Fields) (order : ℕ)
      (o : Option Json)
      → runs (check_arguments g name level args order o).0 ≤ 1
  unfolding check_arguments
  runs-arguments name level args order none = omega arith
  runs-arguments name level args order (some parsed) =
      let one =
        runs-account name (not (is_read g level) || includes g.permission_required_functions name)
          parsed order g.authorize in
      ground (arith, one)

  runs-definition :
      (name : CapabilityName) (o : Option SideEffectLevel) (args : Fields) (order : ℕ)
      → runs (check_definition g name o args order).0 ≤ 1
  unfolding check_definition
  runs-definition name none args order = omega arith
  runs-definition name (some level) args order = runs-arguments name level args order _

  -- As many calls are settled as the budget has, and they run no more handlers.
  tool_budget :
      (model_calls tool_calls order : ℕ) (calls : List (CapabilityName × Fields))
      → let steps =
          execute_all
            (some (record { model_calls = model_calls; tool_calls = tool_calls }))
            order
            calls in
        (settled_calls steps ≡ min tool_calls (length calls))
        × (total_runs steps ≤ settled_calls steps)
  unfolding execute_all execute take_tool_call
  tool_budget model_calls tool_calls order [] = (omega arith, omega arith)
  tool_budget model_calls zero order ((name, args) ∷ calls) =
      let (count, bound) = tool_budget model_calls zero order calls in
      (omega (arith, count), omega (arith, bound))
  tool_budget model_calls (suc n) order ((name, args) ∷ calls) =
      let (count, bound) = tool_budget model_calls n (order + 1) calls in
      let one = runs-definition name (side_effect_level name) args (order + 1) in
      (omega (arith, count), omega (arith, bound, one))

  -- A run of the agent settles four tool calls. Of any calls made one after the other in a run, which
  -- starts with the budget of `normal`, as many give an outcome as there are calls, but four at most: every
  -- further call throws. They run no more handlers than that.
  pub run_budget :
      (order : ℕ) (calls : List (CapabilityName × Fields))
      → let steps = execute_all (some limits) order calls in
        (settled_calls steps ≡ min 4 (length calls)) × (total_runs steps ≤ settled_calls steps)
  run_budget order calls = tool_budget 4 4 order calls
