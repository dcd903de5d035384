-- ===== src/Access/Revocation.antt =====
-- Access given and taken: what `addPrincipal` and `disablePrincipal` mean for `hasActivePrincipal`, at once
-- and after the calls that follow.
pub use hhc_line_function_bot.Access.Letting.{added, disabled}
use hhc_line_function_bot.Access.Letting.{
  active, put_other, close_other, note_other, put_in, close_in, note_in, add_gives, disable_takes,
}
use hhc_line_function_bot.Prelude.{
  ℕ, String, ◌≡◌, refl, ◌≢◌, true, false, Option, none, some, List, [], ◌∷◌, arith, any,
}
use hhc_line_function_bot.JsMap.{get, values}
use hhc_line_function_bot.Access.{
  Role, RoleBinding, AddPrincipalInput, DisablePrincipalInput, AccessStore,
}
use hhc_line_function_bot.Access.Store.{
  bind_to, put_principal, shut_principal, note_success, add_principal, disable_principal,
  record_principal_success, record_audit, add_group_function_grant, disable_group_function_grant,
  add_user_function_grant, disable_user_function_grant, upsert_role, bind_role_capability,
  bind_role_to_principal, active_principal, has_active_principal,
}
use hhc_line_function_bot.Access.History.{
  Call, adds, disables, succeeds, audits, adds_group_grant, adds_user_grant, disables_group_grant,
  disables_user_grant, upserts_role, binds_capability, binds_principal, or_same, step, run,
  HasUnusedId, HaveUnusedIds, Person,
}
use hhc_line_function_bot.Access.Valid.{AreTables, step-AreTables}

module _ {M : Type 0} where
  -- The call is not an `addPrincipal` of the subject.
  abbrev pub AddsOther : Person → Call M → Type 0
  AddsOther k (adds input id now) = added input ≢ k
  AddsOther k _ = Unit

  abbrev pub AllAddOther : Person → List (Call M) → Type 0
  AllAddOther k [] = Unit
  AllAddOther k (c ∷ cs) = AddsOther k c × AllAddOther k cs

  -- The call is not a `disablePrincipal` of the subject.
  abbrev pub DisablesOther : Person → Call M → Type 0
  DisablesOther k (disables input now) = disabled input ≢ k
  DisablesOther k _ = Unit

  abbrev pub AllDisableOther : Person → List (Call M) → Type 0
  AllDisableOther k [] = Unit
  AllDisableOther k (c ∷ cs) = DisablesOther k c × AllDisableOther k cs

  -- What the roles' calls leave of the principals.
  pub bind_to-principals :
      (input : RoleBinding) (o : Option Role) (s : AccessStore M)
      → (or_same s (bind_to input o s)).principals ≡ s.principals
  unfolding bind_to
  bind_to-principals input none s = refl
  bind_to-principals input (some r) s = ground arith

  stays_out :
      (k : Person) (s : AccessStore M) (c : Call M)
      → AddsOther k c
      → any (active k) (values s.principals) ≡ false
      → any (active k) (values (step s c).principals) ≡ false
  unfolding step add_principal disable_principal record_principal_success record_audit
      add_group_function_grant disable_group_function_grant add_user_function_grant
      disable_user_function_grant upsert_role bind_role_capability bind_role_to_principal
      put_principal shut_principal note_success
  stays_out k s (adds input id now) h a = put_other k input id now _ s.principals h refl a
  stays_out k s (disables input now) h a = close_other k input now _ s.principals a
  stays_out k s (succeeds input) h a = note_other k input _ _ s.principals refl a
  stays_out k s (audits input id now) h a = a
  stays_out k s (adds_group_grant input id now) h a = a
  stays_out k s (adds_user_grant input id now) h a = a
  stays_out k s (disables_group_grant input now) h a = a
  stays_out k s (disables_user_grant input now) h a = a
  stays_out k s (upserts_role input id) h a = a
  stays_out k s (binds_capability role_id capability) h a = ground arith
  stays_out k s (binds_principal input) h a =
      rw (bind_to-principals input (get input.role_id s.roles) s) a

  run_out :
      (k : Person) (s : AccessStore M) (cs : List (Call M))
      → AllAddOther k cs
      → any (active k) (values s.principals) ≡ false
      → any (active k) (values (run s cs).principals) ≡ false
  unfolding run
  run_out k s [] h a = a
  run_out k s (c ∷ cs) (h, hs) a = run_out k (step s c) cs hs (stays_out k s c h a)

  -- Access that is taken stays taken. In a store that has one entry at most for each subject, once
  -- `disablePrincipal` has been called for a principal, it is not active, after any calls that follow as
  -- long as none is `addPrincipal` for it.
  pub revocation_lasts :
      (input : DisablePrincipalInput) (now : ℕ) (s : AccessStore M) (cs : List (Call M))
      → AreTables s
      → AllAddOther (disabled input) cs
      → let s' = run (disable_principal input now s).0 cs in
        has_active_principal input.profile_name input.kind input.principal_id s' ≡ false
  unfolding has_active_principal active_principal disable_principal shut_principal
  revocation_lasts input now s cs (v, _, _) h =
      run_out (disabled input) (disable_principal input now s).0 cs h
        (disable_takes input now _ s.principals v refl)

  stays_in :
      (k : Person) (s : AccessStore M) (c : Call M)
      → AreTables s
      → HasUnusedId s c
      → DisablesOther k c
      → any (active k) (values s.principals) ≡ true
      → any (active k) (values (step s c).principals) ≡ true
  unfolding step add_principal disable_principal record_principal_success record_audit
      add_group_function_grant disable_group_function_grant add_user_function_grant
      disable_user_function_grant upsert_role bind_role_capability bind_role_to_principal
      put_principal shut_principal note_success
  stays_in k s (adds input id now) (v, _, _) u h a =
      put_in k input id now _ _ s.principals v u refl a
  stays_in k s (disables input now) (v, _, _) u h a = close_in k input now _ s.principals v h refl a
  stays_in k s (succeeds input) (v, _, _) u h a = note_in k input _ _ s.principals v refl a
  stays_in k s (audits input id now) v u h a = a
  stays_in k s (adds_group_grant input id now) v u h a = a
  stays_in k s (adds_user_grant input id now) v u h a = a
  stays_in k s (disables_group_grant input now) v u h a = a
  stays_in k s (disables_user_grant input now) v u h a = a
  stays_in k s (upserts_role input id) v u h a = a
  stays_in k s (binds_capability role_id capability) v u h a = ground arith
  stays_in k s (binds_principal input) v u h a =
      rw (bind_to-principals input (get input.role_id s.roles) s) a

  run_in :
      (k : Person) (s : AccessStore M) (cs : List (Call M))
      → AreTables s
      → HaveUnusedIds s cs
      → AllDisableOther k cs
      → any (active k) (values s.principals) ≡ true
      → any (active k) (values (run s cs).principals) ≡ true
  unfolding run
  run_in k s [] v u h a = a
  run_in k s (c ∷ cs) v (u, us) (h, hs) a =
      run_in k (step s c) cs (step-AreTables s c v u) us hs (stays_in k s c v u h a)

  -- Access that is given lasts. In a store that has one entry at most for each subject, once
  -- `addPrincipal` has been called for a principal, it is active, after any calls that follow as long as
  -- none is `disablePrincipal` for it and the ids that they and it generate are unused.
  pub access_lasts :
      (input : AddPrincipalInput) (id : String) (now : ℕ) (s : AccessStore M) (cs : List (Call M))
      → AreTables s
      → HaveUnusedIds s (adds input id now ∷ cs)
      → AllDisableOther (added input) cs
      → let s' = run (add_principal input id now s).0 cs in
        has_active_principal input.profile_name input.kind input.principal_id s' ≡ true
  unfolding has_active_principal active_principal step
  access_lasts input id now s cs v (u, us) h =
      run_in (added input) (add_principal input id now s).0 cs
        (step-AreTables s (adds input id now) v u) us h
        (unfold add_principal put_principal in add_gives input id now _ s.principals refl)
