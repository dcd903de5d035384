-- ===== src/Jobs.antt =====
-- Agent jobs, src/agent/jobs.ts: `InMemoryAgentJobStore`, which keeps the slow turns of a conversation
-- until their requester asks for the result. Times are milliseconds; each reading of `this.now()` is
-- an argument (`latest` reads the clock once for each job: the model takes one reading for the call).
-- `randomUUID` is the argument `generated`. The store never looks into a result or a context token,
-- so their types `R` and `T` are parameters.
pub mod History
pub mod Lifecycle
pub mod Isolation
pub mod Results
mod Examples
use hhc_line_function_bot.Prelude.{
  ℕ, ◌+◌, String, Bool, true, false, not, ◌&&◌, ◌||◌, Option, none, some, List, [], ◌∷◌, ◌==◌, leb,
  ltb, if◌then◌else◌, same_text, select,
}
use mathlib.Core.List.{reverse, head?}
use hhc_line_function_bot.Capability.{CapabilityName}
use hhc_line_function_bot.JsMap.{JsMap, get, set, delete, sweep, values}

pub record Scope : Type 0 where
  pub profile_name : String
  pub source_key : String
  pub requester_user_id : Option String

pub data Status : Type 0 where
  pending completed failed uncertain : Status

pub record Job (T R : Type 0) : Type 0 where
  pub context_token : Option T
  pub id : String
  pub scope : Scope
  pub capability : Option CapabilityName
  pub label : String
  pub status : Status
  pub result : Option R
  pub error : Option String
  pub execution_started_at : Option ℕ
  pub execution_lease_until : Option ℕ
  pub created_at : ℕ
  pub expires_at : ℕ

pub record PendingInput (T : Type 0) : Type 0 where
  pub context_token : Option T
  pub id : Option String
  pub scope : Scope
  pub capability : Option CapabilityName
  pub label : String
  pub ttl_ms : ℕ

-- What `createPending` answers: a job, or the error `agent_job_scope_conflict`.
pub data Created (T R : Type 0) : Type 0 where
  job : Job T R → Created T R
  scope_conflict : Created T R

unfoldable pub scope_matches : Scope → Scope → Bool
scope_matches a b =
    (a.profile_name == b.profile_name)
    && (a.source_key == b.source_key)
    && same_text a.requester_user_id b.requester_user_id

abbrev pub or_else {ℓ} : {A : Type ℓ} → Option A → A → A
or_else none a = a
or_else (some b) a = b

abbrev pub first_of_two {ℓ} : {A : Type ℓ} → Option A → Option A → Option A
first_of_two none b = b
first_of_two (some a) b = some a

abbrev pub is_some {ℓ} : {A : Type ℓ} → Option A → Bool
is_some none = false
is_some (some a) = true

-- `leaseUntil && leaseUntil <= now`
abbrev pub lapsed : Option ℕ → ℕ → Bool
lapsed none now = false
lapsed (some t) now = leb t now

abbrev pub is_pending : Status → Bool
is_pending pending = true
is_pending _ = false

-- `status === "completed" || status === "failed"`
abbrev pub is_settled : Status → Bool
is_settled completed = true
is_settled failed = true
is_settled _ = false

abbrev pub Store : Type 0 → Type 0 → Type 0
Store T R = JsMap (Job T R)

module _ {T R : Type 0} where
  abbrev pub expired : ℕ → Job T R → Bool
  expired now j = leb j.expires_at now

  -- A pending job whose execution lease has lapsed is shown as uncertain.
  unfoldable pub project_job : Job T R → ℕ → Job T R
  project_job j now =
      if is_pending j.status && lapsed j.execution_lease_until now
      then record j { status = uncertain; error = some "execution_uncertain" }
      else j

  -- Newest first. JavaScript's sort is stable: of equal times the earlier element stays first.
  unfoldable pub insert_newest : Job T R → List (Job T R) → List (Job T R)
  insert_newest j [] = j ∷ []
  insert_newest j (k ∷ ks) =
      if ltb j.created_at k.created_at then k ∷ insert_newest j ks else j ∷ k ∷ ks

  unfoldable pub sort_newest : List (Job T R) → List (Job T R)
  sort_newest [] = []
  sort_newest (j ∷ js) = insert_newest j (sort_newest js)

  unfoldable pub is_candidate : Scope → Option String → ℕ → Job T R → Bool
  is_candidate scope excluding_id now j =
      not (same_text (some j.id) excluding_id)
      && scope_matches j.scope scope
      && ltb now j.expires_at

  unfoldable pub candidates : Scope → Option String → ℕ → Store T R → List (Job T R)
  candidates scope excluding_id now s =
      sort_newest (select (is_candidate scope excluding_id now) (reverse (values s)))

  abbrev pub project_found : ℕ → Option (Job T R) → Option (Job T R)
  project_found now none = none
  project_found now (some j) = some (project_job j now)

  unfoldable pub latest : Scope → Option String → ℕ → ℕ → Store T R → Option (Job T R)
  latest scope excluding_id now projected_at s =
      project_found projected_at (head? (candidates scope excluding_id now s))

  pub new_job : PendingInput T → String → ℕ → Job T R
  new_job input generated now = record {
    context_token = input.context_token;
    id = or_else input.id generated;
    scope = input.scope;
    capability = input.capability;
    label = input.label;
    status = pending;
    result = none;
    error = none;
    execution_started_at = none;
    execution_lease_until = none;
    created_at = now;
    expires_at = now + input.ttl_ms;
  }

  pub place : PendingInput T → ℕ → Job T R → Store T R → Option (Job T R) → Store T R × Created T R
  place input now created s none = (set created.id created s, job created)
  place input now created s (some existing) =
      if ltb now existing.expires_at
      then if not (scope_matches existing.scope input.scope)
        then (s, scope_conflict)
        else (s, job existing)
      else (set created.id created s, job created)

  unfoldable pub create_pending : PendingInput T → String → ℕ → Store T R → Store T R × Created T R
  unfolding new_job place
  create_pending input generated now s =
      let s' = sweep (expired now) s in
      let created : Job T R = new_job input generated now in
      place input now created s' (get created.id s')

  -- The calls that change one job: the job that replaces it, or none where the call refuses.
  unfoldable pub started : ℕ → ℕ → Job T R → Option (Job T R)
  started now lease_ms j =
      if not (is_pending j.status) || is_some j.execution_started_at || leb j.expires_at now
      then none
      else some (record j {
        execution_started_at = some now;
        execution_lease_until = some (now + lease_ms);
      })

  unfoldable pub renewed : ℕ → ℕ → Job T R → Option (Job T R)
  renewed now lease_ms j =
      if not (is_pending j.status)
        || not (is_some j.execution_lease_until)
        || lapsed j.execution_lease_until now
      then none
      else some (record j { execution_lease_until = some (now + lease_ms) })

  unfoldable pub finished : ℕ → R → Option CapabilityName → Job T R → Option (Job T R)
  finished now result capability j =
      if is_settled j.status || leb j.expires_at now
      then none
      else some (record j {
        capability = first_of_two capability j.capability;
        status = completed;
        result = some result;
      })

  unfoldable pub given_up : String → Job T R → Option (Job T R)
  given_up error j =
      if not (is_pending j.status)
      then none
      else some (record j {
        status = if error == "execution_uncertain" then uncertain else failed;
        error = some error;
      })

  abbrev pub change {ℓ} : {A : Type ℓ} → Option A → (A → Option (Job T R)) → Option (Job T R)
  change none f = none
  change (some a) f = f a

  abbrev pub write_back : String → Option (Job T R) → Store T R → Store T R × Bool
  write_back id none s = (s, false)
  write_back id (some j) s = (set id j s, true)

  unfoldable pub update : String → (Job T R → Option (Job T R)) → Store T R → Store T R × Bool
  update id f s = write_back id (change (get id s) f) s

  unfoldable pub mark_started : String → ℕ → ℕ → Store T R → Store T R × Bool
  unfolding started update
  mark_started id lease_ms now s = update id (started now lease_ms) s

  unfoldable pub renew_execution : String → ℕ → ℕ → Store T R → Store T R × Bool
  unfolding renewed update
  renew_execution id lease_ms now s = update id (renewed now lease_ms) s

  unfoldable pub complete : String → R → Option CapabilityName → ℕ → Store T R → Store T R
  unfolding finished update
  complete id result capability now s = (update id (finished now result capability) s).0

  unfoldable pub fail : String → String → Store T R → Store T R
  unfolding given_up update
  fail id error s = (update id (given_up error) s).0

  pub answer : String → Scope → ℕ → ℕ → Store T R → Option (Job T R) → Store T R × Option (Job T R)
  answer id scope now projected_at s none = (s, none)
  answer id scope now projected_at s (some j) =
      if not (scope_matches j.scope scope)
      then (s, none)
      else if leb j.expires_at now
      then (delete id s, none)
      else (s, some (project_job j projected_at))

  unfoldable pub get_job : String → Scope → ℕ → ℕ → Store T R → Store T R × Option (Job T R)
  unfolding answer
  get_job id scope now projected_at s = answer id scope now projected_at s (get id s)
