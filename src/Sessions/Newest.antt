-- ===== src/Sessions/Newest.antt =====
-- What a lookup finds: a live session that fits, and the one that expires last.
use hhc_line_function_bot.Prelude.{
  ℕ, ◌≤◌, ◌<◌, String, ◌≡◌, Bool, true, false, not, Option, none, some, List, [], ◌∷◌, arith, ltb,
  eq_iff, select, All, leb→le, le→leb, ltb→lt, lt→ltb, sort_by, insert_by,
}
use hhc_line_function_bot.JsMap.{JsMap, get, values}
use hhc_line_function_bot.Sessions.{Session}
use hhc_line_function_bot.Sessions.Store.{has_expired, lives, head, newest, find_newest}
use hhc_line_function_bot.Sessions.History.{IsValid}

module _ {J : Type 0} where
  abbrev later : Session J → Session J → Bool
  later a b = ltb b.expires_at a.expires_at

  All-insert_by :
      (P : Session J → Type 0) (x : Session J) (ys : List (Session J))
      → P x
      → All P ys
      → All P (insert_by later x ys)
  All-insert_by P x [] p h = (p, tt)
  All-insert_by P x (y ∷ ys) p (q, h) = ground (arith, All-insert_by P x ys p h)

  All-sort_by :
      (P : Session J → Type 0) (xs : List (Session J)) → All P xs → All P (sort_by later xs)
  All-sort_by P [] h = tt
  All-sort_by P (x ∷ xs) (p, h) = All-insert_by P x (sort_by later xs) p (All-sort_by P xs h)

  -- The first of a list expires last.
  abbrev Leads : List (Session J) → Type 0
  Leads [] = Unit
  Leads (x ∷ xs) = All (λ y. y.expires_at ≤ x.expires_at) xs × Leads xs

  below :
      (low high : ℕ) (ys : List (Session J))
      → low ≤ high
      → All (λ y. y.expires_at ≤ low) ys
      → All (λ y. y.expires_at ≤ high) ys
  below low high [] le h = tt
  below low high (y ∷ ys) le (q, h) = (omega arith, below low high ys le h)

  insert_by-Leads :
      (x : Session J) (ys : List (Session J)) → Leads ys → Leads (insert_by later x ys)
  insert_by-Leads x [] h = (tt, tt)
  insert_by-Leads x (y ∷ ys) (b, h) = ground (
    arith,
    insert_by-Leads x ys h,
    lt→ltb x.expires_at y.expires_at,
    ltb→lt x.expires_at y.expires_at,
    below y.expires_at x.expires_at ys,
    All-insert_by (λ z. z.expires_at ≤ y.expires_at) x ys,
  )

  sort_by-Leads : (xs : List (Session J)) → Leads (sort_by later xs)
  sort_by-Leads [] = tt
  sort_by-Leads (x ∷ xs) = insert_by-Leads x (sort_by later xs) (sort_by-Leads xs)

  All-insert_by_back :
      (P : Session J → Type 0) (x : Session J) (ys : List (Session J))
      → All P (insert_by later x ys)
      → P x × All P ys
  All-insert_by_back P x [] (p, h) = (p, tt)
  All-insert_by_back P x (y ∷ ys) h = ground (arith, All-insert_by_back P x ys)

  All-sort_by_back :
      (P : Session J → Type 0) (xs : List (Session J)) → All P (sort_by later xs) → All P xs
  All-sort_by_back P [] h = tt
  All-sort_by_back P (x ∷ xs) h =
      let (p, h') = All-insert_by_back P x (sort_by later xs) h in (p, All-sort_by_back P xs h')

  All-select_back :
      (P : Session J → Type 0) (q : Session J → Bool) (xs : List (Session J))
      → All P (select q xs)
      → All (λ x. q x ≡ true → P x) xs
  All-select_back P q [] h = tt
  All-select_back P q (x ∷ xs) h = ground (arith, All-select_back P q xs)

  All-selected :
      (P : Session J → Type 0) (q : Session J → Bool) (xs : List (Session J))
      → All P xs
      → All (λ x. P x × (q x ≡ true)) (select q xs)
  All-selected P q [] h = tt
  All-selected P q (x ∷ xs) (p, h) = ground (arith, All-selected P q xs h)

  pub All-values :
      (P : Session J → Type 0) (m : JsMap (Session J)) (k : String) {s : Session J}
      → All P (values m)
      → get k m ≡ some s
      → P s
  unfolding get values
  All-values P [] k h g = cc
  All-values P ((j, r) ∷ m) k {s} (p, h) g = ground (arith, All-values P m k {s = s} h)

  pub All-implies :
      (P Q : Session J → Type 0) (xs : List (Session J))
      → ((x : Session J) → P x → Q x)
      → All P xs
      → All Q xs
  All-implies P Q [] f h = tt
  All-implies P Q (x ∷ xs) f (p, h) = (f x p, All-implies P Q xs f h)

  -- A stored session is what its id gives.
  pub All-stored : (m : JsMap (Session J)) → IsValid m → All (λ s. get s.id m ≡ some s) (values m)
  unfolding get values
  All-stored [] v = tt
  All-stored ((j, r) ∷ m) ((fresh, d), (e, h)) = (
    ground (arith, eq_iff j r.id),
    All-implies (λ s. get s.id m ≡ some s) (λ s. get s.id ((j, r) ∷ m) ≡ some s) (values m)
        (λ s g. ground (arith, eq_iff j s.id)) (All-stored m (d, h)),
  )

  -- What is known of a found session, and of each of the others.
  abbrev pub IsNewest : (Session J → Bool) → ℕ → JsMap (Session J) → Option (Session J) → Type 0
  IsNewest test now m none =
      (k : String) (t : Session J) → get k m ≡ some t → now < t.expires_at → test t ≡ false
  IsNewest test now m (some s) =
      (get s.id m ≡ some s)
      × (test s ≡ true)
      × (now < s.expires_at)
      × ((k : String) (t : Session J)
          → get k m ≡ some t
          → now < t.expires_at
          → test t ≡ true
          → t.expires_at ≤ s.expires_at)

  alive : (now : ℕ) (s : Session J) → not (has_expired now s) ≡ true → now < s.expires_at
  alive now s h = ground (arith, le→leb s.expires_at now)

  alive_back : (now : ℕ) (s : Session J) → now < s.expires_at → not (has_expired now s) ≡ true
  alive_back now s h = ground (arith, leb→le s.expires_at now)

  head-IsNewest :
      (test : Session J → Bool) (now : ℕ) (m : JsMap (Session J)) (xs : List (Session J))
      → All (λ s. ((get s.id m ≡ some s) × (not (has_expired now s) ≡ true)) × (test s ≡ true)) xs
      → Leads xs
      → ((P : Session J → Type 0) (k : String) (t : Session J)
          → All P xs
          → get k m ≡ some t
          → now < t.expires_at
          → test t ≡ true
          → P t)
      → IsNewest test now m (head xs)
  head-IsNewest test now m [] a l reach =
      λ k t g early. ground (arith, reach (λ x. ⊥) k t tt g early)
  head-IsNewest test now m (x ∷ xs) (((g, fine), p), a) (l, ls) reach = (
    g,
    p,
    alive now x fine,
    λ k t gt early passes.
        reach (λ y. y.expires_at ≤ x.expires_at) k t (omega arith, l) gt early passes,
  )

  -- A lookup finds the newest session. In a store where every session stands once and under its own id:
  -- when `findNewest` returns a session, it is a stored one that passes the test and has not expired, and
  -- no stored session that passes and has not expired expires later; when it returns none, every stored
  -- session that has not expired fails the test.
  pub find_newest-IsNewest :
      (test : Session J → Bool) (now : ℕ) (m : JsMap (Session J))
      → IsValid m
      → IsNewest test now m (find_newest test now m).1
  unfolding find_newest newest lives
  find_newest-IsNewest test now m v =
      let chosen = select test (select (λ s. not (has_expired now s)) (values m)) in
      head-IsNewest test now m (sort_by later chosen)
        (All-sort_by _ chosen (
          All-selected _ test (select (λ s. not (has_expired now s)) (values m))
            (All-selected _ (λ s. not (has_expired now s)) (values m) (All-stored m v))))
        (sort_by-Leads chosen)
        (λ P k t a g early passes.
          All-values (λ x. not (has_expired now x) ≡ true → test x ≡ true → P x) m k {s = t}
            (All-select_back (λ x. test x ≡ true → P x) (λ s. not (has_expired now s)) (values m)
              (All-select_back P test (select (λ s. not (has_expired now s)) (values m))
                (All-sort_by_back P chosen a)))
            g (alive_back now t early) passes)
