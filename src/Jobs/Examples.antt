-- ===== src/Jobs/Examples.antt =====
-- Runs of the job store, and the theorems at concrete inputs.
use hhc_line_function_bot.Prelude.{ℕ, ◌<◌, ◌≡◌, refl, ap, false, none, some, List, [], ◌∷◌, arith}
use hhc_line_function_bot.Capability.{query_schedule}
use hhc_line_function_bot.JsMap.{get, set, sweep, values}
use hhc_line_function_bot.Jobs.{
  Scope, pending, Job, PendingInput, Store, create_pending, mark_started, complete, get_job,
  project_job, scope_matches, latest, is_candidate, candidates, insert_newest, sort_newest,
}
use hhc_line_function_bot.Jobs.History.{Call, asks, starts, fails, completes, run, Holds}
use hhc_line_function_bot.Jobs.Lifecycle.{Advances, run-Advances}
use hhc_line_function_bot.Jobs.Isolation.{get_job_mine}
use hhc_line_function_bot.Jobs.Results.{with_result, result_stays, started_once}

abbrev group : Scope
group = record { profile_name = "helper"; source_key = "group:G"; requester_user_id = some "U" }

abbrev other_user : Scope
other_user = record {
  profile_name = "helper";
  source_key = "group:G";
  requester_user_id = some "V";
}

abbrev input : PendingInput ℕ
input = record {
  context_token = none;
  id = some "j1";
  scope = group;
  capability = none;
  label = "schedule";
  ttl_ms = 1000;
}

abbrev waiting : Job ℕ ℕ
waiting = record {
  context_token = none;
  id = "j1";
  scope = group;
  capability = none;
  label = "schedule";
  status = pending;
  result = none;
  error = none;
  execution_started_at = none;
  execution_lease_until = none;
  created_at = 0;
  expires_at = 1000;
}

abbrev one_job : Store ℕ ℕ
one_job = ("j1", waiting) ∷ []

create_first : (create_pending {R = ℕ} input "unused" 0 []).0 ≡ one_job
unfolding create_pending get set sweep
create_first = refl

abbrev calls : List (Call ℕ ℕ)
calls =
    starts "j1" 10 20 ∷ fails "j1" "late" ∷ asks "j1" group 30 30 ∷ completes "j1" 8 none 40 ∷ []

result_stays_example :
    (get_job "j1" group 50 50 (run (complete "j1" 7 (some query_schedule) 10 one_job) calls)).1
    ≡ some (with_result (some query_schedule) 7 waiting)
unfolding get scope_matches
result_stays_example =
    result_stays "j1" group 7 (some query_schedule) 10 50 50 calls one_job waiting (refl, tt) refl
      refl (omega arith) (omega arith) refl (omega arith)

started_once_example :
    (mark_started "j1" 10 60 (run (mark_started "j1" 10 5 one_job).0 calls)).1 ≡ false
unfolding get mark_started
started_once_example =
    ap (λ r. r.1)
      (started_once "j1" 10 5 10 60 calls one_job waiting (refl, tt) refl refl (omega arith))

run-Advances_example : Holds (Advances waiting) (get "j1" (run one_job calls))
unfolding get
run-Advances_example = run-Advances "j1" calls one_job waiting (refl, tt) refl (omega arith)

get_job_mine_example :
    (j : Job ℕ ℕ) × (get "j1" one_job ≡ some j)
    × (j.scope ≡ group)
    × (10 < j.expires_at)
    × (waiting ≡ project_job j 10)
unfolding get_job get scope_matches project_job
get_job_mine_example = get_job_mine "j1" group 10 10 one_job {j' = waiting} refl

abbrev two_jobs : Store ℕ ℕ
two_jobs = ("j1", waiting) ∷ ("j2", record waiting { id = "j2"; created_at = 5 }) ∷ []

latest_is_second :
    latest group none 10 10 two_jobs ≡ some (record waiting { id = "j2"; created_at = 5 })
unfolding latest candidates is_candidate scope_matches sort_newest insert_newest values project_job
latest_is_second = refl
