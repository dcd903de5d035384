-- ===== src/Access/Valid.antt =====
-- What every call keeps of the access store's tables.
use hhc_line_function_bot.Prelude.{
  ℕ, String, ◌≡◌, refl, ◌↔◌, inl, inr, Bool, true, not, Option, none, some, List, [], ◌∷◌, arith,
  ◌==◌, eq_iff, eq_self, Bool-cases, find, any,
}
use hhc_line_function_bot.JsMap.{JsMap, get, values}
use hhc_line_function_bot.Capability.{capability_text}
use hhc_line_function_bot.Access.{
  Role, PrincipalType, admin, user, group, same_type, Principal, FunctionGrant, AddPrincipalInput,
  DisablePrincipalInput, SuccessInput, AddGrantInput, DisableGrantInput, AccessStore,
}
use hhc_line_function_bot.Access.Unique.{replace-IsTable, add-IsTable}
use hhc_line_function_bot.Access.Store.{
  close_principal, note_found, succeeded, close_grant, disabled_grant, bind_to, is_binding,
  is_outdated, put_principal, with_principal, new_principal, enabled_again, shut_principal,
  disabled_principal, note_success, put_grant, with_grant, new_grant, shut_grant, add_principal,
  disable_principal, record_principal_success, record_audit, add_group_function_grant,
  disable_group_function_grant, add_user_function_grant, disable_user_function_grant, upsert_role,
  bind_role_capability, bind_role_to_principal,
}
use hhc_line_function_bot.Jobs.{is_some}
use hhc_line_function_bot.Access.History.{
  Call, adds, disables, succeeds, audits, adds_group_grant, adds_user_grant, disables_group_grant,
  disables_user_grant, upserts_role, binds_capability, binds_principal, or_same, step, run,
  HasUnusedId, HaveUnusedIds, Person, is_about, GrantKey, grants, IsPrincipals, IsGrants,
}

pub same_type_iff : (a b : PrincipalType) → (same_type a b ≡ true) ↔ (a ≡ b)
same_type_iff admin admin = ground arith
same_type_iff admin user = ground arith
same_type_iff admin group = ground arith
same_type_iff user admin = ground arith
same_type_iff user user = ground arith
same_type_iff user group = ground arith
same_type_iff group admin = ground arith
same_type_iff group user = ground arith
same_type_iff group group = ground arith

pub same_type_refl : (a : PrincipalType) → same_type a a ≡ true
same_type_refl admin = refl
same_type_refl user = refl
same_type_refl group = refl

one_person : (k j : Person) (p : Principal) → is_about k p ≡ true → is_about j p ≡ true → k ≡ j
one_person (a, b, c) (a', b', c') p h g = ground (
  arith,
  eq_iff p.profile_name a,
  eq_iff p.profile_name a',
  same_type_iff p.kind b,
  same_type_iff p.kind b',
  eq_iff p.principal_id c,
  eq_iff p.principal_id c',
)

one_grant : (k j : GrantKey) (g : FunctionGrant) → grants k g ≡ true → grants j g ≡ true → k ≡ j
one_grant (a, b, c) (a', b', c') g h h' = ground (
  arith,
  eq_iff g.profile_name a,
  eq_iff g.profile_name a',
  eq_iff g.holder_id b,
  eq_iff g.holder_id b',
  eq_iff (capability_text g.function_name) c,
  eq_iff (capability_text g.function_name) c',
)

pub put_principal-IsPrincipals :
    (input : AddPrincipalInput) (id : String) (now : ℕ) (m : JsMap Principal)
    → IsPrincipals m
    → get id m ≡ none
    → IsPrincipals (put_principal input id now m).0
unfolding put_principal with_principal enabled_again
put_principal-IsPrincipals input id now m t unused = found (find (is_about key) (values m)) refl
  where
    key : Person
    key = (input.profile_name, input.kind, input.principal_id)

    found :
        (o : Option Principal)
        → find (is_about key) (values m) ≡ o
        → IsPrincipals (with_principal input id now o m).0
    found none h =
        add-IsTable (λ p. p.id) is_about one_person key m (new_principal input id now) t h unused
          (unfold new_principal in
            ground (
              arith,
              eq_self input.profile_name,
              same_type_refl input.kind,
              eq_self input.principal_id,
            ))
    found (some p) h =
        replace-IsTable (λ p. p.id) is_about (is_about key) m (enabled_again input p) t h refl
          (λ k. refl)

close_principal-IsPrincipals :
    (input : DisablePrincipalInput) (now : ℕ) (t : Principal → Bool) (o : Option Principal)
    (m : JsMap Principal)
    → IsPrincipals m
    → find t (values m) ≡ o
    → IsPrincipals (close_principal input now o m).0
unfolding close_principal disabled_principal
close_principal-IsPrincipals input now t none m v h = v
close_principal-IsPrincipals input now t (some p) m v h =
    replace-IsTable (λ p. p.id) is_about t m (disabled_principal input now p) v h refl (λ k. refl)

pub shut_principal-IsPrincipals :
    (input : DisablePrincipalInput) (now : ℕ) (m : JsMap Principal)
    → IsPrincipals m
    → IsPrincipals (shut_principal input now m).0
unfolding shut_principal
shut_principal-IsPrincipals input now m v = close_principal-IsPrincipals input now _ _ m v refl

note_found-IsPrincipals :
    (input : SuccessInput) (t : Principal → Bool) (o : Option Principal) (m : JsMap Principal)
    → IsPrincipals m
    → find t (values m) ≡ o
    → IsPrincipals (note_found input o m)
unfolding note_found succeeded
note_found-IsPrincipals input t none m v h = v
note_found-IsPrincipals input t (some p) m v h =
    elim (Bool-cases (is_outdated p.last_success_at input.occurred_at)) [
      | inl outdated ↦ rw outdated v
      | inr newer ↦
          rw newer
            (replace-IsTable (λ p. p.id) is_about t m (succeeded input p) v h refl (λ k. refl))
    ]

pub note_success-IsPrincipals :
    (input : SuccessInput) (m : JsMap Principal)
    → IsPrincipals m
    → IsPrincipals (note_success input m)
unfolding note_success
note_success-IsPrincipals input m v = note_found-IsPrincipals input _ _ m v refl

put_grant-IsGrants :
    (input : AddGrantInput) (id : String) (now : ℕ) (m : JsMap FunctionGrant)
    → IsGrants m
    → get id m ≡ none
    → IsGrants (put_grant input id now m).0
unfolding put_grant with_grant
put_grant-IsGrants input id now m t unused = found (find (grants key) (values m)) refl
  where
    key : GrantKey
    key = (input.profile_name, input.holder_id, capability_text input.function_name)

    found :
        (o : Option FunctionGrant)
        → find (grants key) (values m) ≡ o
        → IsGrants (with_grant input id now o m).0
    found none h =
        add-IsTable (λ g. g.id) grants one_grant key m (new_grant input id now) t h unused
          (unfold new_grant in
            ground (
              arith,
              eq_self input.profile_name,
              eq_self input.holder_id,
              eq_self (capability_text input.function_name),
            ))
    found (some g) h = replace-IsTable (λ g. g.id) grants (grants key) m _ t h refl (λ k. refl)

close_grant-IsGrants :
    (input : DisableGrantInput) (now : ℕ) (t : FunctionGrant → Bool) (o : Option FunctionGrant)
    (m : JsMap FunctionGrant)
    → IsGrants m
    → find t (values m) ≡ o
    → IsGrants (close_grant input now o m).0
unfolding close_grant disabled_grant
close_grant-IsGrants input now t none m v h = v
close_grant-IsGrants input now t (some g) m v h =
    replace-IsTable (λ g. g.id) grants t m (disabled_grant input now g) v h refl (λ k. refl)

shut_grant-IsGrants :
    (input : DisableGrantInput) (now : ℕ) (m : JsMap FunctionGrant)
    → IsGrants m
    → IsGrants (shut_grant input now m).0
unfolding shut_grant
shut_grant-IsGrants input now m v = close_grant-IsGrants input now _ _ m v refl

module _ {M : Type 0} where
  -- Each of the three tables has one entry at most for each subject.
  abbrev pub AreTables : AccessStore M → Type 0
  AreTables s =
      IsPrincipals s.principals × IsGrants s.group_function_grants × IsGrants s.user_function_grants

  pub step-AreTables :
      (s : AccessStore M) (c : Call M) → AreTables s → HasUnusedId s c → AreTables (step s c)
  unfolding bind_to step add_principal disable_principal record_principal_success record_audit
      add_group_function_grant disable_group_function_grant add_user_function_grant
      disable_user_function_grant upsert_role bind_role_capability bind_role_to_principal
  step-AreTables s (adds input id now) (p, g, u) h =
      (put_principal-IsPrincipals input id now s.principals p h, g, u)
  step-AreTables s (disables input now) (p, g, u) h =
      (shut_principal-IsPrincipals input now s.principals p, g, u)
  step-AreTables s (succeeds input) (p, g, u) h =
      (note_success-IsPrincipals input s.principals p, g, u)
  step-AreTables s (audits input id now) t h = t
  step-AreTables s (adds_group_grant input id now) (p, g, u) h =
      (p, put_grant-IsGrants input id now s.group_function_grants g h, u)
  step-AreTables s (adds_user_grant input id now) (p, g, u) h =
      (p, g, put_grant-IsGrants input id now s.user_function_grants u h)
  step-AreTables s (disables_group_grant input now) (p, g, u) h =
      (p, shut_grant-IsGrants input now s.group_function_grants g, u)
  step-AreTables s (disables_user_grant input now) (p, g, u) h =
      (p, g, shut_grant-IsGrants input now s.user_function_grants u)
  step-AreTables s (upserts_role input id) t h = t
  step-AreTables s (binds_capability role_id capability) t h =
      elim (Bool-cases (not (is_some (get role_id s.roles)))) [ inl e ↦ rw e t | inr e ↦ rw e t ]
  step-AreTables s (binds_principal input) t h = bound (get input.role_id s.roles)
    where
      bound : (o : Option Role) → AreTables (or_same s (bind_to input o s))
      bound none = t
      bound (some r) = elim (Bool-cases (not (r.profile_name == input.profile_name))) [
        | inl wrong ↦ rw (bind_to, wrong) t
        | inr right ↦
            rw (bind_to, right)
              (elim (Bool-cases (any (is_binding input) s.role_bindings)) [
                | inl there ↦ rw there t
                | inr fresh ↦ rw fresh t
              ])
      ]

  -- One entry for each subject. After any calls from a store that has it, whose generated ids are unused,
  -- the entries of principals, of group grants and of user grants stand under their own ids, and for each
  -- profile, kind and id of a principal, or profile, holder and function of a grant, there is at most one.
  pub tables_stay :
      (s : AccessStore M) (cs : List (Call M))
      → AreTables s
      → HaveUnusedIds s cs
      → AreTables (run s cs)
  unfolding run
  tables_stay s [] t h = t
  tables_stay s (c ∷ cs) t (h, hs) = tables_stay (step s c) cs (step-AreTables s c t h) hs
