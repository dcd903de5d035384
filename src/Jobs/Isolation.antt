-- ===== src/Jobs/Isolation.antt =====
-- Who may see a job: only a requester of its own scope, and of several jobs the newest.
use hhc_line_function_bot.Prelude.{
  ℕ, ◌≤◌, ◌<◌, String, ◌≡◌, ap, refl, sym, ◌∙◌, ◌↔◌, inl, inr, Bool, true, false, Option, none,
  some, List, [], ◌∷◌, ◌++◌, arith, ◌==◌, eq_iff, ltb, Bool-cases, same_text, same_text_iff, select,
  All, All-select,
}
use mathlib.Core.Path.{subst}
use mathlib.Core.Bool.{false≢true}
use mathlib.Core.List.{reverse, head?, reverse-cons}
use hhc_line_function_bot.JsMap.{JsMap, get, values}
use hhc_line_function_bot.Jobs.{
  Scope, Job, Store, get_job, project_job, scope_matches, answer, latest, project_found, candidates,
  is_candidate, sort_newest, insert_newest,
}

pub scope_matches_iff : (a b : Scope) → (scope_matches a b ≡ true) ↔ (a ≡ b)
unfolding scope_matches
scope_matches_iff a b = (there, back)
  where
    there : scope_matches a b ≡ true → a ≡ b
    there h = ground (
      arith,
      eq_iff a.profile_name b.profile_name,
      eq_iff a.source_key b.source_key,
      same_text_iff a.requester_user_id b.requester_user_id,
    )

    back : a ≡ b → scope_matches a b ≡ true
    back e = rw e (
        ground (
          arith,
          eq_iff b.profile_name b.profile_name,
          eq_iff b.source_key b.source_key,
          same_text_iff b.requester_user_id b.requester_user_id,
        ))

All-append {ℓ κ} :
    {A : Type ℓ} (P : A → Type κ) (xs ys : List A) → All P (xs ++ ys) → All P xs × All P ys
All-append P [] ys h = (tt, h)
All-append P (x ∷ xs) ys (p, h) = let (a, b) = All-append P xs ys h in ((p, a), b)

All-reverse {ℓ κ} : {A : Type ℓ} (P : A → Type κ) (xs : List A) → All P (reverse xs) → All P xs
All-reverse P [] h = tt
All-reverse P (x ∷ xs) h =
    let (a, b) = All-append P (reverse xs) (x ∷ []) (subst (All P) (reverse-cons x xs) h) in
    (b.0, All-reverse P xs a)

All-values {ℓ κ} :
    {V : Type ℓ} (P : V → Type κ) (k : String) (m : JsMap V) {v : V}
    → All P (values m)
    → get k m ≡ some v
    → P v
unfolding get values
All-values P k [] h g = cc
All-values P k ((j, w) ∷ m) {v} h g = elim (Bool-cases (j == k)) [
  | inl same ↦ let e : w ≡ v = ground arith in subst P e h.0
  | inr other ↦ All-values P k m h.1 (rw other at g)
]

select-implies {ℓ κ} :
    {A : Type ℓ} (P : A → Type κ) (p : A → Bool) (xs : List A)
    → All P (select p xs)
    → All (λ x. p x ≡ true → P x) xs
select-implies P p [] h = tt
select-implies P p (x ∷ xs) h = elim (Bool-cases (p x)) [
  | inl passes ↦
      let h' : P x × All P (select p xs) = rw passes at h in (λ _. h'.0, select-implies P p xs h'.1)
  | inr fails ↦ (λ e. absurd (false≢true (sym fails ∙ e)), select-implies P p xs (rw fails at h))
]

module _ {T R : Type 0} where
  abbrev NoNewerThan : Job T R → List (Job T R) → Type 0
  NoNewerThan j = All λ k. k.created_at ≤ j.created_at

  abbrev Leads : Option (Job T R) → List (Job T R) → Type 0
  Leads none js = js ≡ []
  Leads (some j) js = NoNewerThan j js

  NoNewerThan-trans :
      (i j : Job T R) (ks : List (Job T R))
      → j.created_at ≤ i.created_at
      → NoNewerThan j ks
      → NoNewerThan i ks
  NoNewerThan-trans i j [] le h = tt
  NoNewerThan-trans i j (k ∷ ks) le h = (omega arith, NoNewerThan-trans i j ks le h.1)

  insert-Leads :
      (j : Job T R) (sorted js : List (Job T R))
      → Leads (head? sorted) js
      → Leads (head? (insert_newest j sorted)) (j ∷ js)
  unfolding insert_newest
  insert-Leads j [] js h = rw h (omega arith, tt)
  insert-Leads j (k ∷ ks) js h = elim (Bool-cases (ltb j.created_at k.created_at)) [
    | inl older ↦ rw older (ground arith, h)
    | inr newer ↦ rw newer (omega arith, NoNewerThan-trans j k js (ground arith) h)
  ]

  sort-Leads : (js : List (Job T R)) → Leads (head? (sort_newest js)) js
  unfolding sort_newest
  sort-Leads [] = refl
  sort-Leads (j ∷ js) = insert-Leads j (sort_newest js) js (sort-Leads js)

  insert-All :
      (P : Job T R → Type 0) (j : Job T R) (js : List (Job T R))
      → P j
      → All P js
      → All P (insert_newest j js)
  unfolding insert_newest
  insert-All P j [] p h = (p, tt)
  insert-All P j (k ∷ ks) p h = elim (Bool-cases (ltb j.created_at k.created_at)) [
    | inl older ↦ rw older (h.0, insert-All P j ks p h.1)
    | inr newer ↦ rw newer (p, h)
  ]

  sort-All : (P : Job T R → Type 0) (js : List (Job T R)) → All P js → All P (sort_newest js)
  unfolding sort_newest
  sort-All P [] h = tt
  sort-All P (j ∷ js) h = insert-All P j (sort_newest js) h.0 (sort-All P js h.1)

  project_same :
      (j : Job T R) (now : ℕ)
      → ((project_job j now).scope ≡ j.scope)
        × ((project_job j now).expires_at ≡ j.expires_at)
        × ((project_job j now).created_at ≡ j.created_at)
  unfolding project_job
  project_same j now = ground arith

  -- A job is shown only to its own scope: when `get` answers a job, one of that scope (the same profile,
  -- source and requester) is stored under the id and has not expired, and the answer is that job, or its
  -- uncertain view if it is pending and its lease has lapsed.
  pub get_job_mine :
      (id : String) (scope : Scope) (now projected_at : ℕ) (s : Store T R) {j' : Job T R}
      → (get_job id scope now projected_at s).1 ≡ some j'
      → (j : Job T R) × (get id s ≡ some j)
        × (j.scope ≡ scope)
        × (now < j.expires_at)
        × (j' ≡ project_job j projected_at)
  unfolding get_job
  get_job_mine id scope now projected_at s {j'} h = found (get id s) refl h
    where
      found :
          (o : Option (Job T R))
          → get id s ≡ o
          → (answer id scope now projected_at s o).1 ≡ some j'
          → (j : Job T R) × (get id s ≡ some j)
            × (j.scope ≡ scope)
            × (now < j.expires_at)
            × (j' ≡ project_job j projected_at)
      found none g h = cc
      found (some j) g h =
          (j, g, ground (arith, scope_matches_iff j.scope scope), ground arith, ground arith)

  candidate_mine :
      (scope : Scope) (excluding_id : Option String) (now : ℕ) (j : Job T R)
      → is_candidate scope excluding_id now j ≡ true
      → (j.scope ≡ scope) × (now < j.expires_at) × (same_text (some j.id) excluding_id ≡ false)
  unfolding is_candidate
  candidate_mine scope excluding_id now j h = ground (arith, scope_matches_iff j.scope scope)

  All-head {ℓ} :
      (P : Job T R → Type ℓ) (js : List (Job T R)) {j : Job T R}
      → head? js ≡ some j
      → All P js
      → P j
  All-head P [] h all = cc
  All-head P (k ∷ ks) {j} h all = let e : k ≡ j = cc in subst P e all.0

  -- What holds of every picked job holds of a stored one that passes the test.
  stored_picked :
      (P : Job T R → Type 0) (test : Job T R → Bool) (id : String) (s : Store T R) {k : Job T R}
      → get id s ≡ some k
      → test k ≡ true
      → All P (select test (reverse (values s)))
      → P k
  stored_picked P test id s g c h =
      All-values (λ x. test x ≡ true → P x) id s
        (All-reverse _ (values s) (select-implies P test (reverse (values s)) h)) g c

  leader :
      (test : Job T R → Bool) (id : String) (s : Store T R) {k : Job T R}
      → get id s ≡ some k
      → test k ≡ true
      → (o : Option (Job T R)) → head? (sort_newest (select test (reverse (values s)))) ≡ o
      → (j : Job T R) × (o ≡ some j) × (test j ≡ true) × (k.created_at ≤ j.created_at)
  leader test id s g c none h = absurd (
      stored_picked (λ _. ⊥) test id s g c
        (let empty =
            subst (λ o. Leads o (select test (reverse (values s)))) h
              (sort-Leads (select test (reverse (values s)))) in
          subst (All (λ _. ⊥)) (sym empty) tt))
  leader test id s {k} g c (some j) h =
      let picked = select test (reverse (values s)) in
      (
        j,
        refl,
        All-head (λ x. test x ≡ true) _ h
            (sort-All (λ x. test x ≡ true) picked (All-select test _)),
        stored_picked (λ x. x.created_at ≤ j.created_at) test id s g c
            (subst (λ o. Leads o picked) h (sort-Leads picked)),
      )

  -- The newest job of a scope is found: while some job of the scope is stored that has not expired and is
  -- not the excluded one, `latest` answers a job of that scope that has not expired, is not the excluded
  -- one, and was created no earlier.
  pub latest_newest :
      (scope : Scope) (excluding_id : Option String) (now projected_at : ℕ) (id : String)
      (s : Store T R) {k : Job T R}
      → get id s ≡ some k
      → is_candidate scope excluding_id now k ≡ true
      → (j : Job T R) × (latest scope excluding_id now projected_at s
          ≡ some (project_job j projected_at))
        × (j.scope ≡ scope)
        × (now < j.expires_at)
        × (same_text (some j.id) excluding_id ≡ false)
        × (k.created_at ≤ j.created_at)
  unfolding latest candidates
  latest_newest scope excluding_id now projected_at id s g c =
      let (j, e, passes, newest) = leader (is_candidate scope excluding_id now) id s g c _ refl in
      let (mine, live, other) = candidate_mine scope excluding_id now j passes in
      (j, ap (project_found projected_at) e, mine, live, other, newest)

  -- And `latest` answers nothing but such a job: of the asked scope, not expired and not the excluded one.
  pub latest_mine :
      (scope : Scope) (excluding_id : Option String) (now projected_at : ℕ) (s : Store T R)
      {j' : Job T R}
      → latest scope excluding_id now projected_at s ≡ some j'
      → (j : Job T R) × (j' ≡ project_job j projected_at)
        × (j.scope ≡ scope)
        × (now < j.expires_at)
        × (same_text (some j.id) excluding_id ≡ false)
  unfolding latest candidates
  latest_mine scope excluding_id now projected_at s {j'} h =
      found (head? (sort_newest picked)) refl h
    where
      picked : List (Job T R)
      picked = select (is_candidate scope excluding_id now) (reverse (values s))

      found :
          (o : Option (Job T R))
          → head? (sort_newest picked) ≡ o
          → project_found projected_at o ≡ some j'
          → (j : Job T R) × (j' ≡ project_job j projected_at)
            × (j.scope ≡ scope)
            × (now < j.expires_at)
            × (same_text (some j.id) excluding_id ≡ false)
      found none e h = cc
      found (some j) e h =
          let passes =
            All-head (λ x. is_candidate scope excluding_id now x ≡ true) _ e
              (sort-All (λ x. is_candidate scope excluding_id now x ≡ true) picked
                (All-select (is_candidate scope excluding_id now) (reverse (values s)))) in
          let (mine, live, other) = candidate_mine scope excluding_id now j passes in
          (j, ground arith, mine, live, other)
