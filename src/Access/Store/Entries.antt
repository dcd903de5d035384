-- ===== src/Access/Store/Entries.antt =====
-- Principals and function grants as `InMemoryAccessStore` looks them up, adds and disables them,
-- src/access/memory-access-store.ts. `now` is the clock's reading and `id` the generated id; the order of
-- texts that `sort` and `localeCompare` use is the argument `before`, a strict order.
use hhc_line_function_bot.Prelude.{
  ℕ, String, Bool, true, false, not, ◌&&◌, ◌||◌, Option, none, some, List, map, ◌==◌, ltb,
  if◌then◌else◌, select, find, any, sort_by,
}
use hhc_line_function_bot.JsMap.{JsMap, set, values}
use hhc_line_function_bot.Capability.{CapabilityName, same_capability, capability_text}
use hhc_line_function_bot.Jobs.{is_some}
use hhc_line_function_bot.Access.{
  PrincipalType, same_type, type_text, Principal, FunctionGrant, AddPrincipalInput,
  DisablePrincipalInput, SuccessInput, AddGrantInput, DisableGrantInput,
}

-- The tests that the source writes out at each look-up.
abbrev pub is_principal : String → PrincipalType → String → Principal → Bool
is_principal profile_name kind principal_id p =
    (p.profile_name == profile_name) && same_type p.kind kind && (p.principal_id == principal_id)

abbrev pub is_enabled : Principal → Bool
is_enabled p = not (is_some p.disabled_at)

abbrev pub is_grant : String → String → CapabilityName → FunctionGrant → Bool
is_grant profile_name holder_id function_name g =
    (g.profile_name == profile_name)
    && (g.holder_id == holder_id)
    && same_capability g.function_name function_name

abbrev pub is_in_force : FunctionGrant → Bool
is_in_force g = not (is_some g.disabled_at)

-- `a ?? b`.
abbrev or_else : Option String → Option String → Option String
or_else none b = b
or_else (some a) b = some a

-- Principals.

unfoldable pub active_principal : String → PrincipalType → String → JsMap Principal → Bool
active_principal profile_name kind principal_id m =
    any (λ p. is_principal profile_name kind principal_id p && is_enabled p) (values m)

before_principal : (String → String → Bool) → Principal → Principal → Bool
before_principal before a b =
    let tie = not (before (type_text b.kind) (type_text a.kind)) in
    before (type_text a.kind) (type_text b.kind) || (tie && before a.principal_id b.principal_id)

unfoldable pub principals_of :
    (String → String → Bool) → String → Bool → JsMap Principal → List Principal
unfolding before_principal
principals_of before profile_name include_disabled m = sort_by (before_principal before) (
    select (λ p. (p.profile_name == profile_name) && (include_disabled || is_enabled p)) (values m))

unfoldable pub new_principal : AddPrincipalInput → String → ℕ → Principal
new_principal input id now = record {
  id = id;
  profile_name = input.profile_name;
  kind = input.kind;
  principal_id = input.principal_id;
  display_name = input.display_name;
  created_at = now;
  created_by = input.created_by;
  disabled_at = none;
  disabled_by = none;
  last_success_capability_name = none;
  last_success_at = none;
}

unfoldable pub enabled_again : AddPrincipalInput → Principal → Principal
enabled_again input p = record p {
  display_name = or_else input.display_name p.display_name;
  disabled_at = none;
  disabled_by = none;
}

unfoldable pub with_principal :
    AddPrincipalInput
    → String
    → ℕ
    → Option Principal
    → JsMap Principal
    → JsMap Principal × Principal
unfolding new_principal enabled_again
with_principal input id now none m =
    (set id (new_principal input id now) m, new_principal input id now)
with_principal input id now (some p) m = (set p.id (enabled_again input p) m, enabled_again input p)

unfoldable pub put_principal :
    AddPrincipalInput → String → ℕ → JsMap Principal → JsMap Principal × Principal
unfolding with_principal
put_principal input id now m =
    with_principal input id now
      (find (is_principal input.profile_name input.kind input.principal_id) (values m)) m

unfoldable pub disabled_principal : DisablePrincipalInput → ℕ → Principal → Principal
disabled_principal input now p = record p {
  disabled_at = some now;
  disabled_by = some input.disabled_by;
}

unfoldable pub close_principal :
    DisablePrincipalInput → ℕ → Option Principal → JsMap Principal → JsMap Principal × Bool
unfolding disabled_principal
close_principal input now none m = (m, false)
close_principal input now (some p) m = (set p.id (disabled_principal input now p) m, true)

unfoldable pub shut_principal : DisablePrincipalInput → ℕ → JsMap Principal → JsMap Principal × Bool
unfolding close_principal
shut_principal input now m =
    let test = is_principal input.profile_name input.kind input.principal_id in
    close_principal input now (find (λ p. test p && is_enabled p) (values m)) m

-- The last success is later than this one.
abbrev pub is_outdated : Option ℕ → ℕ → Bool
is_outdated none t = false
is_outdated (some last) t = ltb t last

unfoldable pub succeeded : SuccessInput → Principal → Principal
succeeded input p = record p {
  last_success_capability_name = some input.function_name;
  last_success_at = some input.occurred_at;
}

unfoldable pub note_found : SuccessInput → Option Principal → JsMap Principal → JsMap Principal
unfolding succeeded
note_found input none m = m
note_found input (some p) m =
    if is_outdated p.last_success_at input.occurred_at then m else set p.id (succeeded input p) m

unfoldable pub note_success : SuccessInput → JsMap Principal → JsMap Principal
unfolding note_found
note_success input m =
    let test = is_principal input.profile_name input.kind input.principal_id in
    note_found input (find (λ p. test p && is_enabled p) (values m)) m

-- The grants of a group, and in the same words those of a user.

unfoldable pub grants_of :
    (String → String → Bool) → String → String → JsMap FunctionGrant → List CapabilityName
grants_of before profile_name holder_id m =
    sort_by (λ a b. before (capability_text a) (capability_text b))
      (map (λ g. g.function_name)
        (select
          (λ g. (g.profile_name == profile_name) && (g.holder_id == holder_id) && is_in_force g)
          (values m)))

before_grant : (String → String → Bool) → FunctionGrant → FunctionGrant → Bool
before_grant before a b =
    before a.holder_id b.holder_id
    || (not (before b.holder_id a.holder_id)
        && before (capability_text a.function_name) (capability_text b.function_name))

unfoldable pub all_grants :
    (String → String → Bool) → String → JsMap FunctionGrant → List FunctionGrant
unfolding before_grant
all_grants before profile_name m =
    sort_by (before_grant before)
      (select (λ g. (g.profile_name == profile_name) && is_in_force g) (values m))

unfoldable pub new_grant : AddGrantInput → String → ℕ → FunctionGrant
new_grant input id now = record {
  id = id;
  profile_name = input.profile_name;
  holder_id = input.holder_id;
  function_name = input.function_name;
  created_at = now;
  created_by = input.created_by;
  disabled_at = none;
  disabled_by = none;
}

unfoldable pub with_grant :
    AddGrantInput
    → String
    → ℕ
    → Option FunctionGrant
    → JsMap FunctionGrant
    → JsMap FunctionGrant × FunctionGrant
unfolding new_grant
with_grant input id now none m = (set id (new_grant input id now) m, new_grant input id now)
with_grant input id now (some g) m =
    let enabled = record g { disabled_at = none; disabled_by = none } in
    (set g.id enabled m, enabled)

unfoldable pub put_grant :
    AddGrantInput → String → ℕ → JsMap FunctionGrant → JsMap FunctionGrant × FunctionGrant
unfolding with_grant
put_grant input id now m =
    with_grant input id now
      (find (is_grant input.profile_name input.holder_id input.function_name) (values m)) m

unfoldable pub disabled_grant : DisableGrantInput → ℕ → FunctionGrant → FunctionGrant
disabled_grant input now g = record g {
  disabled_at = some now;
  disabled_by = some input.disabled_by;
}

unfoldable pub close_grant :
    DisableGrantInput → ℕ → Option FunctionGrant → JsMap FunctionGrant → JsMap FunctionGrant × Bool
unfolding disabled_grant
close_grant input now none m = (m, false)
close_grant input now (some g) m = (set g.id (disabled_grant input now g) m, true)

unfoldable pub shut_grant : DisableGrantInput → ℕ → JsMap FunctionGrant → JsMap FunctionGrant × Bool
unfolding close_grant
shut_grant input now m =
    let test = is_grant input.profile_name input.holder_id input.function_name in
    close_grant input now (find (λ g. test g && is_in_force g) (values m)) m
