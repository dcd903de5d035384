-- ===== src/Helper/Examples.antt =====
-- Runs of the circuit, the gateway and the failover, and the theorems at concrete inputs.
use hhc_line_function_bot.Prelude.{
  eq_iff, ◌≤◌, min, String, ◌≡◌, refl, ◌⊎◌, inl, true, false, none, some, List, [], ◌∷◌, arith, All,
  length,
}
use hhc_line_function_bot.JsMap.{get, set, delete}
use hhc_line_function_bot.Redis.{map_redis, map_redis-IsLawful, set_nx}
use hhc_line_function_bot.Capability.{
  CapabilityName, query_schedule, save_memory, side_effect_level,
}
use hhc_line_function_bot.Helper.Circuit.{acquire, fail}
use hhc_line_function_bot.Helper.Probe.{acquires, fails, succeeds, run, stays_open, one_probe}
use hhc_line_function_bot.Helper.Gateway.{
  text, object, Fields, no_fields, field, Gateway, projected, gave, execute, limits, take_tool_call,
  check_definition, check_arguments, check_account, authorized, run_handler, own, has_all,
  is_strict_value, validated_arguments, has_model_review_argument, allowed_source,
  allowed_in_groups, isolated_read,
}
use hhc_line_function_bot.Helper.Allowed.{IsOf, IsAllowed, execute-IsAllowed}
use hhc_line_function_bot.Helper.Spent.{execute_all, settled_calls, total_runs, run_budget}
use hhc_line_function_bot.Helper.Failover.{
  Thrown, error, no_error, Outside, Run, deepseek, generate, fallback_error, within, by_status,
  transient, pinned, prepared, asked_fallback, acquired, asked_primary, circuit_failed, switched,
  failed_as, with_lease, after_primary, switch, pin_and_fall_back, ask_fallback, Reply, raised,
}
use hhc_line_function_bot.Helper.Fallback.{IsPersisted, generate-IsPersisted}
use hhc_line_function_bot.Helper.Returned.{nth_error, error_returned}

opened :
    fail map_redis "p" 0 "closed" false []
    ≡ ("p:cooldown", ("1", 60000)) ∷ ("p:recovering", ("1", 86400000)) ∷ []
unfolding fail get set delete
opened = refl

stays_open_example :
    (acquire map_redis "p" 59000 "t2" (
      run map_redis map_redis-IsLawful "p"
        (fail map_redis "p" 0 "closed" false [])
        ((10, acquires "t1") ∷ (20, fails "closed" true) ∷ []))).1
    ≡ none
stays_open_example =
    stays_open map_redis map_redis-IsLawful "p" 0 59000 "t2" false
      ((10, acquires "t1") ∷ (20, fails "closed" true) ∷ []) []
      (omega arith, omega arith, (omega arith, omega arith, tt)) (omega arith) (omega arith)

-- After the cooldown one request probes, and another gets no lease.
one_probe_example :
    let s = fail map_redis "p" 0 "closed" false [] in
    let answer =
      (acquire map_redis "p" 70100 "t2" (
        run map_redis map_redis-IsLawful "p"
          (acquire map_redis "p" 70000 "t1" s).0
          ((70050, succeeds "t3") ∷ []))).1 in
    (answer ≡ none) ⊎ (answer ≡ some "closed")
unfolding fail acquire set_nx get set delete
one_probe_example =
    one_probe map_redis map_redis-IsLawful "p" 70000 70100 "t1" "t2" ((70050, succeeds "t3") ∷ [])
      (fail map_redis "p" 0 "closed" false []) (λ e. ground (arith, eq_iff "t1" "closed")) refl
      (omega arith, omega arith, tt) ((λ e. ground (arith, eq_iff "t3" "t1")), tt) (omega arith)
      (omega arith)

abbrev helper : Gateway String
helper = record {
  source_kind = "group";
  enabled_functions = query_schedule ∷ save_memory ∷ [];
  permission_required_functions = [];
  safe_parse = λ name args. some (object args);
  property = λ items key. none;
  authorize = some (λ name. gave true);
  handler = λ name. some (λ args. gave "done");
  claim_isolated_read = none;
}

abbrev question : Fields
question = field "query" (text "sunday") no_fields

asked : (execute helper (some limits) 0 query_schedule question).outcome ≡ some (projected "done")
unfolding execute take_tool_call check_definition check_arguments check_account authorized
    run_handler own has_all is_strict_value validated_arguments has_model_review_argument
    allowed_source allowed_in_groups isolated_read side_effect_level
asked = refl

execute-IsAllowed_example :
    All
      (IsOf helper save_memory (IsAllowed helper save_memory question))
      (execute helper (some limits) 0 save_memory question).events
execute-IsAllowed_example = execute-IsAllowed helper (some limits) 0 save_memory question

abbrev calls : List (CapabilityName × Fields)
calls =
    (query_schedule, question)
    ∷ (query_schedule, question)
    ∷ (query_schedule, question)
    ∷ (query_schedule, question)
    ∷ (query_schedule, question)
    ∷ []

run_budget_example :
    let steps = execute_all helper (some limits) 0 calls in
    (settled_calls helper steps ≡ min 4 (length calls))
    × (total_runs helper steps ≤ settled_calls helper steps)
run_budget_example = run_budget helper 0 calls

abbrev overloaded : Thrown
overloaded =
    error
      (record {
        name = "Error";
        message = "busy";
        constructor_name = "APIError";
        code = none;
        status = some 503;
      })
      no_error

abbrev outside : Outside String
outside = record {
  acquire = Reply.gave (some "closed");
  primary = raised overloaded;
  is_aborted = false;
  fail = Reply.gave tt;
  succeed = Reply.gave tt;
  pin = Reply.gave tt;
  before_fallback = Reply.gave tt;
  fallback = Reply.gave "hello";
}

abbrev open_run : Run
open_run = record { is_pinned = false; events = [] }

falls_back : generate outside open_run ≡ (
  record {
    is_pinned = true;
    events =
        acquired
        ∷ asked_primary
        ∷ circuit_failed "closed" false
        ∷ switched (failed_as transient)
        ∷ pinned
        ∷ prepared
        ∷ asked_fallback
        ∷ [];
  },
  Reply.gave (deepseek "hello"),
)
unfolding generate with_lease after_primary switch pin_and_fall_back ask_fallback fallback_error
    within by_status
falls_back = refl

generate-IsPersisted_example : IsPersisted outside.pin (generate outside open_run)
generate-IsPersisted_example = generate-IsPersisted outside open_run refl refl

-- An error whose cause is the agent's own.
abbrev wrapped : Thrown
wrapped =
    error
      (record {
        name = "Error";
        message = "busy";
        constructor_name = "APIError";
        code = none;
        status = some 503;
      })
      (error
        (record {
          name = "Error";
          message = "agent_call_limit";
          constructor_name = "Error";
          code = none;
          status = none;
        })
        no_error)

error_returned_example :
    generate (record outside { primary = raised wrapped }) open_run
    ≡ (record { is_pinned = false; events = acquired ∷ asked_primary ∷ [] }, raised wrapped)
unfolding nth_error
error_returned_example =
    (error_returned (record outside { primary = raised wrapped }) open_run "closed" wrapped refl
        refl refl).0
      (inl (1, _, omega arith, refl, inl refl))
