-- ===== src/Access/Letting.antt =====
-- What one change of the principals' table leaves of who is active.
use hhc_line_function_bot.Prelude.{
  any-found, any-find, ℕ, String, ◌≡◌, refl, ◌≢◌, inl, inr, Bool, true, false, ◌&&◌, Option, none,
  some, arith, eq_iff, Bool-cases, find, any, find-passes,
}
use hhc_line_function_bot.JsMap.{JsMap, get, values}
use hhc_line_function_bot.Access.{Principal, AddPrincipalInput, DisablePrincipalInput, SuccessInput}
use hhc_line_function_bot.Access.Table.{
  any-set, any-set_off, any-set_failing, any-set_keeps, get-find,
}
use hhc_line_function_bot.Access.Store.{
  close_principal, note_found, succeeded, is_outdated, is_enabled, with_principal, new_principal,
  enabled_again, disabled_principal,
}
use hhc_line_function_bot.Access.History.{Person, is_about, IsPrincipals}
use hhc_line_function_bot.Access.Valid.{same_type_iff}

abbrev pub active : Person → Principal → Bool
active k p = is_about k p && is_enabled p

abbrev pub added : AddPrincipalInput → Person
added input = (input.profile_name, input.kind, input.principal_id)

abbrev pub disabled : DisablePrincipalInput → Person
disabled input = (input.profile_name, input.kind, input.principal_id)

is_about_self :
    (k : Person) (p : Principal)
    → (p.profile_name, p.kind, p.principal_id) ≡ k
    → is_about k p ≡ true
is_about_self (a, b, c) p e =
    ground (arith, eq_iff p.profile_name a, same_type_iff p.kind b, eq_iff p.principal_id c)

is_about_only :
    (k : Person) (p : Principal)
    → is_about k p ≡ true
    → (p.profile_name, p.kind, p.principal_id) ≡ k
is_about_only (a, b, c) p e =
    ground (arith, eq_iff p.profile_name a, same_type_iff p.kind b, eq_iff p.principal_id c)

-- Nobody is let in but by `addPrincipal` of that very subject.
pub put_other :
    (k : Person) (input : AddPrincipalInput) (id : String) (now : ℕ) (o : Option Principal)
    (m : JsMap Principal)
    → added input ≢ k
    → find (is_about (added input)) (values m) ≡ o
    → any (active k) (values m) ≡ false
    → any (active k) (values (with_principal input id now o m).0) ≡ false
unfolding with_principal enabled_again
put_other k input id now none m other h a =
    any-set_failing (active k) id (new_principal input id now) m
      (unfold new_principal in ground (arith, is_about_only k (new_principal input id now))) a
put_other k input id now (some p) m other h a =
    any-set_failing (active k) p.id (enabled_again input p) m
      (unfold enabled_again in
        ground (
          arith,
          is_about_only k p,
          is_about_only (added input) p,
          find-passes (is_about (added input)) (values m) {x = p} h,
        ))
      a

pub close_other :
    (k : Person) (input : DisablePrincipalInput) (now : ℕ) (o : Option Principal)
    (m : JsMap Principal)
    → any (active k) (values m) ≡ false
    → any (active k) (values (close_principal input now o m).0) ≡ false
unfolding close_principal disabled_principal
close_other k input now none m a = a
close_other k input now (some p) m a =
    any-set_failing (active k) p.id (disabled_principal input now p) m (ground arith) a

pub note_other :
    (k : Person) (input : SuccessInput) (t : Principal → Bool) (o : Option Principal)
    (m : JsMap Principal)
    → find t (values m) ≡ o
    → any (active k) (values m) ≡ false
    → any (active k) (values (note_found input o m)) ≡ false
unfolding note_found succeeded
note_other k input t none m h a = a
note_other k input t (some p) m h a =
    elim (Bool-cases (is_outdated p.last_success_at input.occurred_at)) [
      | inl outdated ↦ rw outdated a
      | inr newer ↦ rw newer (
          any-set_failing (active k) p.id (succeeded input p) m
            (unfold succeeded in any-found t (active k) (values m) {x = p} h a) a)
    ]

pub disable_takes :
    (input : DisablePrincipalInput) (now : ℕ) (o : Option Principal) (m : JsMap Principal)
    → IsPrincipals m
    → find (active (disabled input)) (values m) ≡ o
    → any (active (disabled input)) (values (close_principal input now o m).0) ≡ false
unfolding close_principal disabled_principal
disable_takes input now none m v h = any-find (active (disabled input)) (values m) h
disable_takes input now (some p) m (f, d, c) h =
    any-set_off (λ p. p.id) (is_about (disabled input)) is_enabled (disabled_principal input now p)
      m f d (c (disabled input)) h refl

-- Nobody who is in is put out but by `disablePrincipal` of that very subject.
pub put_in :
    (k : Person) (input : AddPrincipalInput) (id : String) (now : ℕ) (t : Principal → Bool)
    (o : Option Principal) (m : JsMap Principal)
    → IsPrincipals m
    → get id m ≡ none
    → find t (values m) ≡ o
    → any (active k) (values m) ≡ true
    → any (active k) (values (with_principal input id now o m).0) ≡ true
unfolding with_principal enabled_again
put_in k input id now t none m v unused h a =
    any-set_keeps (active k) id (new_principal input id now) m none unused (inl refl) a
put_in k input id now t (some p) m (f, d, _) unused h a =
    any-set_keeps (active k) p.id (enabled_again input p) m (some p)
      (get-find (λ p. p.id) t m f d h)
      (elim (Bool-cases (is_about k p)) [
        | inl yes_ ↦ inr (ground arith)
        | inr no_ ↦ inl (ground arith)
      ])
      a

pub close_in :
    (k : Person) (input : DisablePrincipalInput) (now : ℕ) (o : Option Principal)
    (m : JsMap Principal)
    → IsPrincipals m
    → disabled input ≢ k
    → find (active (disabled input)) (values m) ≡ o
    → any (active k) (values m) ≡ true
    → any (active k) (values (close_principal input now o m).0) ≡ true
unfolding close_principal disabled_principal
close_in k input now none m v other h a = a
close_in k input now (some p) m (f, d, _) other h a =
    any-set_keeps (active k) p.id (disabled_principal input now p) m (some p)
      (get-find (λ p. p.id) (active (disabled input)) m f d h)
      (inl (
        ground (
          arith,
          is_about_only k p,
          is_about_only (disabled input) p,
          find-passes (active (disabled input)) (values m) {x = p} h,
        )))
      a

pub note_in :
    (k : Person) (input : SuccessInput) (t : Principal → Bool) (o : Option Principal)
    (m : JsMap Principal)
    → IsPrincipals m
    → find t (values m) ≡ o
    → any (active k) (values m) ≡ true
    → any (active k) (values (note_found input o m)) ≡ true
unfolding note_found succeeded
note_in k input t none m v h a = a
note_in k input t (some p) m (f, d, _) h a =
    elim (Bool-cases (is_outdated p.last_success_at input.occurred_at)) [
      | inl outdated ↦ rw outdated a
      | inr newer ↦ rw newer (
          any-set_keeps (active k) p.id (succeeded input p) m (some p)
            (get-find (λ p. p.id) t m f d h)
            (elim (Bool-cases (active k p)) [ inl yes_ ↦ inr yes_ | inr no_ ↦ inl (ground arith) ])
            a)
    ]

pub add_gives :
    (input : AddPrincipalInput) (id : String) (now : ℕ) (o : Option Principal) (m : JsMap Principal)
    → find (is_about (added input)) (values m) ≡ o
    → any (active (added input)) (values (with_principal input id now o m).0) ≡ true
unfolding with_principal enabled_again
add_gives input id now none m h = any-set (active (added input)) id (new_principal input id now) m (
    unfold new_principal in
    ground (
      arith,
      is_about_self (added input) (new_principal input id now) (unfold new_principal in refl),
    ))
add_gives input id now (some p) m h =
    any-set (active (added input)) p.id (enabled_again input p) m (
      unfold enabled_again in
      ground (arith, find-passes (is_about (added input)) (values m) {x = p} h))
