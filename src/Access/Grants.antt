-- ===== src/Access/Grants.antt =====
-- Function grants given and taken: what the add and disable calls mean for the lists of a group's and of
-- a user's functions.
use hhc_line_function_bot.Prelude.{
  ℕ, String, ◌≡◌, refl, ◌∙◌, Bool, true, false, ◌&&◌, Option, none, some, List, arith, ◌==◌,
  eq_self, select, find, any, find-passes,
}
use hhc_line_function_bot.JsMap.{JsMap, values}
use hhc_line_function_bot.Prelude.{any-same, any-map, any-select, any-sort_by, any-find}
use hhc_line_function_bot.Capability.{CapabilityName, same_capability, capability_text}
use hhc_line_function_bot.Access.{FunctionGrant, AddGrantInput, DisableGrantInput, AccessStore}
use hhc_line_function_bot.Access.Table.{any-set, any-set_off}
use hhc_line_function_bot.Access.Store.{
  is_grant, is_in_force, grants_of, put_grant, with_grant, new_grant, shut_grant, close_grant,
  disabled_grant, add_group_function_grant, disable_group_function_grant, add_user_function_grant,
  disable_user_function_grant, list_group_function_grants, list_user_function_grants,
}
use hhc_line_function_bot.Access.History.{IsGrants}
use hhc_line_function_bot.Access.Valid.{AreTables}

abbrev pub lists_function : CapabilityName → List CapabilityName → Bool
lists_function function_name names = any (λ f. same_capability f function_name) names

abbrev in_force : String → String → CapabilityName → FunctionGrant → Bool
in_force profile_name holder_id function_name g =
    is_grant profile_name holder_id function_name g && is_in_force g

-- A function is listed exactly when a grant of it is in force.
lists-grants_of :
    (before : String → String → Bool) (profile_name holder_id : String)
    (function_name : CapabilityName) (m : JsMap FunctionGrant)
    → lists_function function_name (grants_of before profile_name holder_id m)
      ≡ any (in_force profile_name holder_id function_name) (values m)
unfolding grants_of
lists-grants_of before profile_name holder_id function_name m =
    any-sort_by (λ a b. before (capability_text a) (capability_text b))
      (λ f. same_capability f function_name) _
    ∙ any-map (λ f. same_capability f function_name) (λ g. g.function_name)
        (select
          (λ g. (g.profile_name == profile_name) && (g.holder_id == holder_id) && is_in_force g)
          (values m))
    ∙ any-select (λ g. same_capability g.function_name function_name)
        (λ g. (g.profile_name == profile_name) && (g.holder_id == holder_id) && is_in_force g)
        (values m)
    ∙ any-same _ (in_force profile_name holder_id function_name) (values m) (λ g. ground arith)

close_takes :
    (input : DisableGrantInput) (now : ℕ) (o : Option FunctionGrant) (m : JsMap FunctionGrant)
    → IsGrants m
    → find (in_force input.profile_name input.holder_id input.function_name) (values m) ≡ o
    → any
        (in_force input.profile_name input.holder_id input.function_name)
        (values (close_grant input now o m).0)
      ≡ false
unfolding close_grant disabled_grant
close_takes input now none m v h =
    any-find (in_force input.profile_name input.holder_id input.function_name) (values m) h
close_takes input now (some g) m (f, d, c) h =
    any-set_off (λ g. g.id) (is_grant input.profile_name input.holder_id input.function_name)
      is_in_force (disabled_grant input now g) m f d
      (c (input.profile_name, input.holder_id, capability_text input.function_name)) h refl

with_gives :
    (input : AddGrantInput) (id : String) (now : ℕ) (o : Option FunctionGrant)
    (m : JsMap FunctionGrant)
    → find (is_grant input.profile_name input.holder_id input.function_name) (values m) ≡ o
    → any
        (in_force input.profile_name input.holder_id input.function_name)
        (values (with_grant input id now o m).0)
      ≡ true
unfolding with_grant
with_gives input id now none m h =
    any-set (in_force input.profile_name input.holder_id input.function_name) id
      (new_grant input id now) m
      (unfold new_grant in
        ground (
          arith,
          eq_self input.profile_name,
          eq_self input.holder_id,
          eq_self (capability_text input.function_name),
        ))
with_gives input id now (some g) m h =
    any-set (in_force input.profile_name input.holder_id input.function_name) g.id _ m (
      ground (
        arith,
        find-passes (is_grant input.profile_name input.holder_id input.function_name) (values m)
            {x = g} h,
      ))

module _ {M : Type 0} where
  -- A grant that is taken is gone from the list. In a store that has one entry at most for each subject,
  -- after a function grant of a group is disabled, the group's functions do not list it; after one of a
  -- user is disabled, the user's do not.
  pub disabled_grant_gone :
      (before : String → String → Bool) (input : DisableGrantInput) (now : ℕ) (s : AccessStore M)
      → AreTables s
      → (lists_function input.function_name (
            list_group_function_grants before input.profile_name input.holder_id
              (disable_group_function_grant input now s).0)
          ≡ false)
        × (lists_function input.function_name (
              list_user_function_grants before input.profile_name input.holder_id
                (disable_user_function_grant input now s).0)
            ≡ false)
  unfolding list_group_function_grants list_user_function_grants disable_group_function_grant
      disable_user_function_grant shut_grant
  disabled_grant_gone before input now s (_, g, u) = (
    lists-grants_of before input.profile_name input.holder_id input.function_name _
        ∙ close_takes input now _ s.group_function_grants g refl,
    lists-grants_of before input.profile_name input.holder_id input.function_name _
        ∙ close_takes input now _ s.user_function_grants u refl,
  )

  -- A grant that is given is in the list: after a function grant is added for a group, the group's
  -- functions list it, and after one is added for a user, the user's do.
  pub added_grant_listed :
      (before : String → String → Bool) (input : AddGrantInput) (id : String) (now : ℕ)
      (s : AccessStore M)
      → (lists_function input.function_name (
            list_group_function_grants before input.profile_name input.holder_id
              (add_group_function_grant input id now s).0)
          ≡ true)
        × (lists_function input.function_name (
              list_user_function_grants before input.profile_name input.holder_id
                (add_user_function_grant input id now s).0)
            ≡ true)
  unfolding list_group_function_grants list_user_function_grants add_group_function_grant
      add_user_function_grant put_grant
  added_grant_listed before input id now s = (
    lists-grants_of before input.profile_name input.holder_id input.function_name _
        ∙ with_gives input id now _ s.group_function_grants refl,
    lists-grants_of before input.profile_name input.holder_id input.function_name _
        ∙ with_gives input id now _ s.user_function_grants refl,
  )
