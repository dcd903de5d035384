-- ===== src/JsMap.antt =====
-- JavaScript's `Map` with text keys, as the in-memory stores use it: an association list in
-- insertion order. `set` on a key that is there keeps its place; a new key goes to the end.
use hhc_line_function_bot.Prelude.{
  ◌≤◌, String, ◌≡◌, refl, ◌≢◌, Bool, Option, none, some, List, [], ◌∷◌, arith, ◌==◌, eq_iff,
  if◌then◌else◌, length,
}

abbrev pub JsMap {ℓ} : Type ℓ → Type ℓ
JsMap V = List (String × V)

-- What is left of a looked-up value once the ones that `p` holds of are dropped.
abbrev pub drop_if {ℓ} : {V : Type ℓ} → (V → Bool) → Option V → Option V
drop_if p none = none
drop_if p (some v) = if p v then none else some v

module _ {ℓ} {V : Type ℓ} where
  unfoldable pub get : String → JsMap V → Option V
  get k [] = none
  get k ((j, v) ∷ m) = if j == k then some v else get k m

  unfoldable pub set : String → V → JsMap V → JsMap V
  set k v [] = (k, v) ∷ []
  set k v ((j, w) ∷ m) = if j == k then (j, v) ∷ m else (j, w) ∷ set k v m

  unfoldable pub delete : String → JsMap V → JsMap V
  delete k [] = []
  delete k ((j, v) ∷ m) = let rest = delete k m in if j == k then rest else (j, v) ∷ rest

  -- `for (const [key, value] of map) if (p(value)) map.delete(key)`.
  unfoldable pub sweep : (V → Bool) → JsMap V → JsMap V
  sweep p [] = []
  sweep p ((j, v) ∷ m) = let rest = sweep p m in if p v then rest else (j, v) ∷ rest

  unfoldable pub values : JsMap V → List V
  values [] = []
  values ((j, v) ∷ m) = v ∷ values m

  -- A key stands once, as in every JavaScript `Map`.
  abbrev pub Distinct : JsMap V → Type ℓ
  Distinct [] = Unit
  Distinct ((j, v) ∷ m) = (get j m ≡ none) × Distinct m

  pub get-set :
      (k j : String) (v : V) (m : JsMap V)
      → get j (set k v m) ≡ (if k == j then some v else get j m)
  unfolding get set
  get-set k j v [] = refl
  get-set k j v ((i, w) ∷ m) = ground (arith, eq_iff k j, eq_iff i k, eq_iff i j, get-set k j v m)

  pub get-set_self : (k : String) (v : V) (m : JsMap V) → get k (set k v m) ≡ some v
  get-set_self k v m = ground (arith, get-set k k v m, eq_iff k k)

  pub get-set_other : (k j : String) (v : V) (m : JsMap V) → k ≢ j → get j (set k v m) ≡ get j m
  get-set_other k j v m h = ground (arith, get-set k j v m, eq_iff k j)

  pub get-delete :
      (k j : String) (m : JsMap V) → get j (delete k m) ≡ (if k == j then none else get j m)
  unfolding get delete
  get-delete k j [] = ground arith
  get-delete k j ((i, w) ∷ m) = ground (arith, eq_iff k j, eq_iff i k, eq_iff i j, get-delete k j m)

  pub get-delete_self : (k : String) (m : JsMap V) → get k (delete k m) ≡ none
  get-delete_self k m = ground (arith, get-delete k k m, eq_iff k k)

  pub get-delete_other : (k j : String) (m : JsMap V) → k ≢ j → get j (delete k m) ≡ get j m
  get-delete_other k j m h = ground (arith, get-delete k j m, eq_iff k j)

  get-sweep-none :
      (p : V → Bool) (k : String) (m : JsMap V) → get k m ≡ none → get k (sweep p m) ≡ none
  unfolding get sweep
  get-sweep-none p k [] h = refl
  get-sweep-none p k ((j, v) ∷ m) h = ground (arith, get-sweep-none p k m)

  pub get-sweep :
      (p : V → Bool) (k : String) (m : JsMap V)
      → Distinct m
      → get k (sweep p m) ≡ drop_if p (get k m)
  unfolding get sweep
  get-sweep p k [] d = refl
  get-sweep p k ((j, v) ∷ m) (fresh, d) =
      ground (arith, eq_iff j k, get-sweep p k m d, get-sweep-none p j m fresh)

  pub set-Distinct : (k : String) (v : V) (m : JsMap V) → Distinct m → Distinct (set k v m)
  unfolding get set
  set-Distinct k v [] d = (refl, tt)
  set-Distinct k v ((j, w) ∷ m) (fresh, d) =
      ground (arith, eq_iff j k, eq_iff k j, get-set k j v m, set-Distinct k v m d)

  pub delete-Distinct : (k : String) (m : JsMap V) → Distinct m → Distinct (delete k m)
  unfolding get delete
  delete-Distinct k [] d = tt
  delete-Distinct k ((j, w) ∷ m) (fresh, d) =
      ground (arith, eq_iff j k, eq_iff k j, get-delete k j m, delete-Distinct k m d)

  pub sweep-Distinct : (p : V → Bool) (m : JsMap V) → Distinct m → Distinct (sweep p m)
  unfolding get sweep
  sweep-Distinct p [] d = tt
  sweep-Distinct p ((j, w) ∷ m) (fresh, d) =
      ground (arith, get-sweep-none p j m fresh, sweep-Distinct p m d)

  pub length-sweep : (p : V → Bool) (m : JsMap V) → length (sweep p m) ≤ length m
  unfolding sweep
  length-sweep p [] = omega arith
  length-sweep p ((j, w) ∷ m) = ground (arith, length-sweep p m)

pub ruleset map_laws = (get-set_self, get-delete_self)
