-- ===== src/Access/Roles.antt =====
-- Roles: a principal's capabilities are those of the roles bound to it, and a role is bound only within
-- its own profile.
use hhc_line_function_bot.Prelude.{
  String, ◌≡◌, refl, ◌∙◌, inl, inr, Bool, not, ◌&&◌, ◌||◌, Option, none, some, List, [], ◌∷◌, ◌++◌,
  arith, ◌==◌, eq_iff, Bool-cases, find, any, All, find-passes,
}
use hhc_line_function_bot.JsMap.{JsMap, get, set, values, Distinct, get-set, set-Distinct}
use hhc_line_function_bot.Prelude.{any-sort_by, any-append}
use hhc_line_function_bot.Jobs.{is_some}
use hhc_line_function_bot.Access.{PrincipalType, Role, RoleBinding, RoleInput, AccessStore}
use hhc_line_function_bot.Access.Store.{
  has_text, add_text, add_texts, texts_or_none, is_bound_to, gather, list_principal_capabilities,
  bind_role_capability, bind_role_to_principal, bind_to, is_binding, upsert_role, put_role, id_or,
  is_role, add_principal, disable_principal, record_principal_success, record_audit,
  add_group_function_grant, disable_group_function_grant, add_user_function_grant,
  disable_user_function_grant,
}
use hhc_line_function_bot.Access.Table.{Filed, set-Filed, get-find}
use hhc_line_function_bot.Access.History.{
  Call, adds, disables, succeeds, audits, adds_group_grant, adds_user_grant, disables_group_grant,
  disables_user_grant, upserts_role, binds_capability, binds_principal, or_same, step, run,
}

has-add_text :
    (c d : String) (cs : List String) → has_text c (add_text d cs) ≡ ((d == c) || has_text c cs)
has-add_text c d cs = elim (Bool-cases (has_text d cs)) [
  | inl there ↦ ground (arith, eq_iff d c)
  | inr fresh ↦ rw fresh (ground (arith, any-append (λ e. e == c) cs (d ∷ [])))
]

has-add_texts :
    (c : String) (ds acc : List String)
    → has_text c (add_texts ds acc) ≡ (has_text c ds || has_text c acc)
has-add_texts c [] acc = refl
has-add_texts c (d ∷ ds) acc =
    ground (arith, has-add_texts c ds (add_text d acc), has-add_text c d acc)

-- The capability is one of a role's.
abbrev gives : String → JsMap (List String) → RoleBinding → Bool
gives c caps b = has_text c (texts_or_none (get b.role_id caps))

has-gather :
    (c : String) (test : RoleBinding → Bool) (caps : JsMap (List String)) (bs : List RoleBinding)
    (acc : List String)
    → has_text c (gather test caps bs acc)
      ≡ (has_text c acc || any (λ b. test b && gives c caps b) bs)
unfolding gather
has-gather c test caps [] acc = ground arith
has-gather c test caps (b ∷ bs) acc = elim (Bool-cases (test b)) [
  | inl mine ↦ rw mine (
      ground (
        arith,
        has-gather c test caps bs (add_texts (texts_or_none (get b.role_id caps)) acc),
        has-add_texts c (texts_or_none (get b.role_id caps)) acc,
      ))
  | inr other ↦ rw other (has-gather c test caps bs acc)
]

-- The binding is of a role that is there, and that is the binding's own profile's.
abbrev pub IsOwnRole : JsMap Role → RoleBinding → Type 0
IsOwnRole roles b = (r : Role) × (get b.role_id roles ≡ some r) × (r.profile_name ≡ b.profile_name)

module _ {M : Type 0} where
  -- What `listPrincipalCapabilities` lists: a capability is in a principal's list exactly when some role
  -- that is bound to the principal in the profile has it.
  pub principal_capabilities_lem :
      (before : String → String → Bool) (profile_name principal_id c : String)
      (kind : PrincipalType) (s : AccessStore M)
      → has_text c (list_principal_capabilities before profile_name kind principal_id s)
        ≡ any
            (λ b. is_bound_to profile_name kind principal_id b && gives c s.role_capabilities b)
            s.role_bindings
  unfolding list_principal_capabilities
  principal_capabilities_lem before profile_name principal_id c kind s =
      any-sort_by before (λ d. d == c)
        (gather (is_bound_to profile_name kind principal_id) s.role_capabilities s.role_bindings [])
      ∙ has-gather c (is_bound_to profile_name kind principal_id) s.role_capabilities
          s.role_bindings []

  abbrev pub AreRoles : AccessStore M → Type 0
  AreRoles s =
      Filed (λ r. r.id) s.roles × Distinct s.roles × All (IsOwnRole s.roles) s.role_bindings

  -- A generated role id is not used yet.
  abbrev pub HasUnusedRole : AccessStore M → Call M → Type 0
  HasUnusedRole s (upserts_role input id) = get id s.roles ≡ none
  HasUnusedRole s _ = Unit

  abbrev pub HaveUnusedRoles : AccessStore M → List (Call M) → Type 0
  HaveUnusedRoles s [] = Unit
  HaveUnusedRoles s (c ∷ cs) = HasUnusedRole s c × HaveUnusedRoles (step s c) cs

All-append-one :
    {A : Type 0} (P : A → Type 0) (xs : List A) (y : A) → All P xs → P y → All P (xs ++ (y ∷ []))
All-append-one P [] y h p = (p, tt)
All-append-one P (x ∷ xs) y (q, h) p = (q, All-append-one P xs y h p)

All-mono :
    {A : Type 0} (P Q : A → Type 0) (xs : List A) → ((x : A) → P x → Q x) → All P xs → All Q xs
All-mono P Q [] f h = tt
All-mono P Q (x ∷ xs) f (p, h) = (f x p, All-mono P Q xs f h)

abbrev role_from : RoleInput → String → Option Role → Role
role_from input id o = record {
  id = id_or o id;
  profile_name = input.profile_name;
  role_key = input.role_key;
  display_name = input.display_name;
}

role_stays :
    (input : RoleInput) (id : String) (o : Option Role) (m : JsMap Role) (b : RoleBinding)
    → Filed (λ r. r.id) m
    → Distinct m
    → get id m ≡ none
    → find (is_role input.profile_name input.role_key) (values m) ≡ o
    → IsOwnRole m b
    → IsOwnRole (set (id_or o id) (role_from input id o) m) b
role_stays input id none m b f d unused h (r, g, e) =
    (r, ground (arith, eq_iff id b.role_id, get-set id b.role_id (role_from input id none) m), e)
role_stays input id (some q) m b f d unused h (r, g, e) = elim (Bool-cases (q.id == b.role_id)) [
  | inl same ↦ (
    role_from input id (some q),
    ground (arith, get-set q.id b.role_id (role_from input id (some q)) m),
    ground (
      arith,
      eq_iff q.id b.role_id,
      eq_iff q.profile_name input.profile_name,
      get-find (λ r. r.id) (is_role input.profile_name input.role_key) m {e = q} f d h,
      find-passes (is_role input.profile_name input.role_key) (values m) {x = q} h,
    ),
  )
  | inr other ↦ (r, ground (arith, get-set q.id b.role_id (role_from input id (some q)) m), e)
]

module _ {M : Type 0} where
  bind_to-AreRoles :
      (input : RoleBinding) (o : Option Role) (s : AccessStore M)
      → AreRoles s
      → get input.role_id s.roles ≡ o
      → AreRoles (or_same s (bind_to input o s))
  unfolding bind_to
  bind_to-AreRoles input none s v g = v
  bind_to-AreRoles input (some r) s (f, d, h) g =
      elim (Bool-cases (r.profile_name == input.profile_name)) [
        | inr wrong ↦ rw wrong (f, d, h)
        | inl right ↦ rw right (elim (Bool-cases (any (is_binding input) s.role_bindings)) [
          | inl there ↦ rw there (f, d, h)
          | inr fresh ↦ rw fresh (
            f,
            d,
            All-append-one (IsOwnRole s.roles) s.role_bindings input h
                (r, g, ground (arith, eq_iff r.profile_name input.profile_name)),
          )
        ])
      ]

  step-AreRoles :
      (s : AccessStore M) (c : Call M) → AreRoles s → HasUnusedRole s c → AreRoles (step s c)
  unfolding step add_principal disable_principal record_principal_success record_audit
      add_group_function_grant disable_group_function_grant add_user_function_grant
      disable_user_function_grant upsert_role put_role bind_role_capability bind_role_to_principal
  step-AreRoles s (adds input id now) v u = v
  step-AreRoles s (disables input now) v u = v
  step-AreRoles s (succeeds input) v u = v
  step-AreRoles s (audits input id now) v u = v
  step-AreRoles s (adds_group_grant input id now) v u = v
  step-AreRoles s (adds_user_grant input id now) v u = v
  step-AreRoles s (disables_group_grant input now) v u = v
  step-AreRoles s (disables_user_grant input now) v u = v
  step-AreRoles s (upserts_role input id) (f, d, h) u =
      let o = find (is_role input.profile_name input.role_key) (values s.roles) in
      (
        set-Filed (λ r. r.id) (role_from input id o) s.roles f,
        set-Distinct (id_or o id) (role_from input id o) s.roles d,
        All-mono (IsOwnRole s.roles) (IsOwnRole (set (id_or o id) (role_from input id o) s.roles))
            s.role_bindings (λ b. role_stays input id o s.roles b f d u refl) h,
      )
  step-AreRoles s (binds_capability role_id capability) v u =
      elim (Bool-cases (not (is_some (get role_id s.roles)))) [ inl e ↦ rw e v | inr e ↦ rw e v ]
  step-AreRoles s (binds_principal input) v u = bind_to-AreRoles input _ s v refl

  -- Roles stay within their profiles. After any calls from a store in which every binding is of a role of
  -- its own profile, the same holds, as long as the role ids that the calls generate are unused: no call
  -- gives a principal a role of another profile, also when a role is renamed or a call throws.
  pub roles_stay_home :
      (s : AccessStore M) (cs : List (Call M))
      → AreRoles s
      → HaveUnusedRoles s cs
      → AreRoles (run s cs)
  unfolding run
  roles_stay_home s [] v u = v
  roles_stay_home s (c ∷ cs) v (u, us) = roles_stay_home (step s c) cs (step-AreRoles s c v u) us
