-- ===== src/Access/Admission.antt =====
-- Who is let in, from the calls of the access store to the functions of a chat.
use hhc_line_function_bot.Prelude.{
  ℕ, String, ◌≡◌, refl, ◌∙◌, ◌⊎◌, inl, inr, Bool, true, false, Option, none, some, List, [], ◌∷◌,
  arith, eq_iff, eq_self, Bool-cases, select, All,
}
use hhc_line_function_bot.Capability.{
  CapabilityName, capability_text, SideEffectLevel, read, side_effect_level,
}
use hhc_line_function_bot.Access.{user, AccessStore, DisablePrincipalInput}
use hhc_line_function_bot.Access.Store.{has_active_principal, disable_principal}
use hhc_line_function_bot.Access.History.{Call, run}
use hhc_line_function_bot.Access.Valid.{AreTables}
use hhc_line_function_bot.Access.Revocation.{AllAddOther, revocation_lasts}
use hhc_line_function_bot.Access.Grants.{lists_function}
use hhc_line_function_bot.Line.{Source, present}
use hhc_line_function_bot.Access.Effective.{
  managed, Profile, is_default_user_function_available, effective_source_type, direct_access_policy,
  is_known_user, user_is_authorized, source_is_authorized, is_open_to_all,
  resolve_effective_functions, is_true, resolve_effective_access,
}

-- What a function that is open to everyone is.
abbrev pub OpenToAll : Profile → CapabilityName → Type 0
OpenToAll p f =
    (side_effect_level f ≡ some read)
    ⊎ ((p.name ≡ "main") × (capability_text f ≡ "update_own_profile"))

reads :
    (f : CapabilityName)
    → is_default_user_function_available f ≡ true
    → side_effect_level f ≡ some read
unfolding is_default_user_function_available
reads f h = level (side_effect_level f) h
  where
    level :
        (o : Option SideEffectLevel)
        → (elim o as (λ o. Bool) [
          | none ↦ false
          | some l ↦ elim l as (λ l. Bool) [ read ↦ true | _ ↦ false ]
        ])
          ≡ true
        → o ≡ some read
    level none h = ground arith
    level (some read) h = refl
    level (some _) h = ground arith

is_open-OpenToAll : (p : Profile) (f : CapabilityName) → is_open_to_all p f ≡ true → OpenToAll p f
unfolding is_open_to_all
is_open-OpenToAll p f h = elim (Bool-cases (is_default_user_function_available f)) [
  | inl available ↦ inl (reads f available)
  | inr not_available ↦
      inr (ground (arith, eq_iff p.name "main", eq_iff (capability_text f) "update_own_profile"))
]

select-OpenToAll :
    (p : Profile) (fs : List CapabilityName)
    → All (λ f. OpenToAll p f × (lists_function f fs ≡ true)) (select (is_open_to_all p) fs)
select-OpenToAll p fs = from fs (λ f h. h)
  where
    from :
        (gs : List CapabilityName)
        → ((f : CapabilityName) → lists_function f gs ≡ true → lists_function f fs ≡ true)
        → All (λ f. OpenToAll p f × (lists_function f fs ≡ true)) (select (is_open_to_all p) gs)
    from [] inside = tt
    from (g ∷ gs) inside =
        let rest = from gs (λ f h. inside f (ground arith)) in
        elim (Bool-cases (is_open_to_all p g)) [
          | inl open_ ↦ rw open_ (
            (is_open-OpenToAll p g open_, inside g (ground (arith, eq_self (capability_text g)))),
            rest,
          )
          | inr shut ↦ rw shut rest
        ]

module _ {M : Type 0} where
  -- What anyone but an administrator may run: each of the functions that a chat is left with is one of the
  -- profile's, and it only reads, or the profile is `main` and the function is `update_own_profile`.
  pub member_functions :
      (p : Profile) (source : Source) (admin : Option Bool) (s : AccessStore M)
      → is_true admin ≡ false
      → All
          (λ f. OpenToAll p f × (lists_function f p.enabled_functions ≡ true))
          (resolve_effective_access p source admin s).profile.enabled_functions
  unfolding resolve_effective_access resolve_effective_functions
  member_functions p source admin s h =
      elim (Bool-cases
        (source_is_authorized (effective_source_type source) p source (is_true admin) s)) [
          | inl in_ ↦ rw in_ (rw h (select-OpenToAll p p.enabled_functions))
          | inr out ↦ rw out tt
        ]

  user_needs_principal :
      (p : Profile) (source : Source) (admin : Option Bool) (s : AccessStore M) (id : String)
      → source.kind ≡ "user"
      → present source.user_id ≡ some id
      → direct_access_policy p ≡ managed
      → is_true admin ≡ false
      → (resolve_effective_access p source admin s).authorized
        ≡ has_active_principal p.name user id s
  unfolding resolve_effective_access source_is_authorized user_is_authorized
  user_needs_principal p source admin s id k i d h =
      rw k (rw d (rw (user_is_authorized, i) (rw (is_known_user, h) refl)))

  denied_nothing :
      (p : Profile) (source : Source) (admin : Option Bool) (s : AccessStore M)
      → (resolve_effective_access p source admin s).authorized ≡ false
      → (resolve_effective_access p source admin s).profile.enabled_functions ≡ []
  unfolding resolve_effective_access
  denied_nothing p source admin s out = rw out refl

  -- A user whose access is taken is out. In a store that has one entry at most for each subject, once
  -- `disablePrincipal` has been called for a user of a profile whose direct access is managed, and after
  -- any calls that follow and are not `addPrincipal` for that user, the user's own chat is not authorized
  -- and is left with no function, unless it is an administrator's.
  pub revoked_user_denied :
      (p : Profile) (source : Source) (admin : Option Bool) (by : String) (id : String) (now : ℕ)
      (s : AccessStore M) (cs : List (Call M))
      → AreTables s
      → AllAddOther (p.name, user, id) cs
      → source.kind ≡ "user"
      → present source.user_id ≡ some id
      → direct_access_policy p ≡ managed
      → is_true admin ≡ false
      → let gone =
          disable_principal
            (record { profile_name = p.name; kind = user; principal_id = id; disabled_by = by })
            now
            s in
        let access = resolve_effective_access p source admin (run gone.0 cs) in
        (access.authorized ≡ false) × (access.profile.enabled_functions ≡ [])
  revoked_user_denied p source admin by id now s cs v others k i d h =
      let input : DisablePrincipalInput = record {
        profile_name = p.name;
        kind = user;
        principal_id = id;
        disabled_by = by;
      } in
      let s' = run (disable_principal input now s).0 cs in
      let out =
        user_needs_principal p source admin s' id k i d h
        ∙ revocation_lasts input now s cs v others in
      (out, denied_nothing p source admin s' out)
