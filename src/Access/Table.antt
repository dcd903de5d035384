-- ===== src/Access/Table.antt =====
-- Tables of the access store, src/access/memory-access-store.ts: entries filed by their own ids, of which
-- a call looks one up by what it is about (`find` over the values) and replaces it under its id.
use hhc_line_function_bot.Prelude.{
  Option, ◌⊎◌, ℕ, suc, ◌≤◌, String, ◌≡◌, refl, Bool, true, false, ◌&&◌, none, some, [], ◌∷◌, arith,
  eq_iff, if◌then◌else◌, length, select, find, any,
}
use hhc_line_function_bot.JsMap.{JsMap, get, set, values, drop_if, Distinct}

module _ {V : Type 0} (id_of : V → String) where
  -- Every entry is filed under its own id.
  abbrev pub Filed : JsMap V → Type 0
  Filed [] = Unit
  Filed ((k, v) ∷ m) = (k ≡ id_of v) × Filed m

  pub set-Filed : (v : V) (m : JsMap V) → Filed m → Filed (set (id_of v) v m)
  unfolding set
  set-Filed v [] f = (refl, tt)
  set-Filed v ((k, w) ∷ m) (e, f) = ground (arith, eq_iff k (id_of v), set-Filed v m f)

  -- What a look-up finds is filed under its id.
  pub get-find :
      (p : V → Bool) (m : JsMap V) {e : V}
      → Filed m
      → Distinct m
      → find p (values m) ≡ some e
      → get (id_of e) m ≡ some e
  unfolding values get
  get-find p [] f d h = cc
  get-find p ((k, w) ∷ m) {e} (same, f) (fresh, d) h =
      ground (arith, eq_iff k (id_of e), get-find p m {e = e} f d)

module _ {V : Type 0} where
  -- How many entries are about the subject that `p` tests.
  abbrev pub count : (V → Bool) → JsMap V → ℕ
  count p m = length (select p (values m))

  none_counted :
      (p q : V → Bool) (m : JsMap V) → count p m ≡ 0 → any (λ v. p v && q v) (values m) ≡ false
  unfolding values
  none_counted p q [] h = refl
  none_counted p q ((k, w) ∷ m) h = ground (arith, none_counted p q m)

  pub count-find : (p : V → Bool) (m : JsMap V) → find p (values m) ≡ none → count p m ≡ 0
  unfolding values
  count-find p [] h = refl
  count-find p ((k, w) ∷ m) h = ground (arith, count-find p m)

  -- Entries that fail a test are not counted: writing one over another changes nothing for the test.
  pub select-set_other :
      (p : V → Bool) (k : String) (v : V) (m : JsMap V)
      → p v ≡ false
      → drop_if p (get k m) ≡ get k m
      → select p (values (set k v m)) ≡ select p (values m)
  unfolding values set get
  select-set_other p k v [] h g = ground arith
  select-set_other p k v ((j, w) ∷ m) h g = ground (arith, select-set_other p k v m h)

  pub count-set_over :
      (p : V → Bool) (k : String) (v w : V) (m : JsMap V)
      → get k m ≡ some w
      → p v ≡ p w
      → count p (set k v m) ≡ count p m
  unfolding values set get
  count-set_over p k v w [] g h = cc
  count-set_over p k v w ((j, u) ∷ m) g h = ground (arith, count-set_over p k v w m)

  pub count-set_new :
      (p : V → Bool) (k : String) (v : V) (m : JsMap V)
      → get k m ≡ none
      → count p (set k v m) ≡ (if p v then suc (count p m) else count p m)
  unfolding values set get
  count-set_new p k v [] g = ground arith
  count-set_new p k v ((j, u) ∷ m) g = ground (arith, count-set_new p k v m)

  -- Writing an entry that fails a test leaves what passes it as it was, or less.
  pub any-set_failing :
      (p : V → Bool) (k : String) (v : V) (m : JsMap V)
      → p v ≡ false
      → any p (values m) ≡ false
      → any p (values (set k v m)) ≡ false
  unfolding values set
  any-set_failing p k v [] h n = ground arith
  any-set_failing p k v ((j, w) ∷ m) h n = ground (arith, any-set_failing p k v m h)

  pub any-set :
      (p : V → Bool) (k : String) (v : V) (m : JsMap V)
      → p v ≡ true
      → any p (values (set k v m)) ≡ true
  unfolding values set
  any-set p k v [] h = ground arith
  any-set p k v ((j, w) ∷ m) h = ground (arith, any-set p k v m h)

  -- Where a subject has one entry at most, replacing the one that passes `q` by one that does not leaves
  -- none.
  pub any-set_off :
      (id_of : V → String) (p q : V → Bool) (v : V) (m : JsMap V) {e : V}
      → Filed id_of m
      → Distinct m
      → count p m ≤ 1
      → find (λ u. p u && q u) (values m) ≡ some e
      → q v ≡ false
      → any (λ u. p u && q u) (values (set (id_of e) v m)) ≡ false
  unfolding values set get
  any-set_off id_of p q v [] f d c h off = cc
  any-set_off id_of p q v ((k, w) ∷ m) {e} (same, f) (fresh, d) c h off = ground (
    arith,
    eq_iff k (id_of e),
    none_counted p q m,
    any-set_off id_of p q v m {e = e} f d,
    get-find id_of (λ u. p u && q u) m {e = e} f d,
  )

  -- Where the entry under a key passed the test, so does the one that replaces it.
  pub any-set_keeps :
      (p : V → Bool) (k : String) (v : V) (m : JsMap V) (o : Option V)
      → get k m ≡ o
      → drop_if p o ≡ o ⊎ (p v ≡ true)
      → any p (values m) ≡ true
      → any p (values (set k v m)) ≡ true
  unfolding values set get
  any-set_keeps p k v [] o g h a = ground arith
  any-set_keeps p k v ((j, w) ∷ m) o g h a = ground (arith, any-set_keeps p k v m o)
