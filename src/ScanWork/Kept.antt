-- ===== src/ScanWork/Kept.antt =====
-- Every call keeps, of an item that has not expired, what all the changes of an item keep.
use hhc_line_function_bot.Prelude.{
  ℕ, suc, ◌<◌, String, ◌≡◌, refl, sym, ap, ◌∙◌, inl, inr, true, false, Option, none, some, List, [],
  ◌∷◌, arith, ◌==◌, eq_iff, Bool-cases, lt→not_leb,
}
use hhc_line_function_bot.JsMap.{JsMap, get, set, delete, get-set, get-delete}
use hhc_line_function_bot.ScanWork.{Work}
use hhc_line_function_bot.ScanWork.Store.{
  change, write_back, update, prune, unexpired, update_live, live_works,
}
use mathlib.Core.Path.{subst}
use hhc_line_function_bot.ScanWork.History.{Holds, Stable}

module _ {R : Type 0} (until : ℕ) (id : String) (C : Work R → Work R → Type 0) (P : Work R → Type 0)
    (stable : Stable until id C P) where
  -- What is stored under the id has the property.
  pub at_key :
      (k : String) (m : JsMap (Work R)) {w : Work R}
      → (k == id) ≡ true
      → Holds P (get id m)
      → get k m ≡ some w
      → P w
  at_key k m same h g = subst (Holds P) (ap (λ i. get i m) (sym ((eq_iff k id).0 same)) ∙ g) h

  pub set_keeps :
      (k : String) (v : Work R) (m : JsMap (Work R))
      → Holds P (get id m)
      → ((k == id) ≡ true → P v)
      → Holds P (get id (set k v m))
  set_keeps k v m h new = elim (Bool-cases (k == id)) [
    | inl same ↦ rw (get-set, same) (new same)
    | inr other ↦ rw (get-set, other) h
  ]

  pub delete_keeps :
      (k : String) (m : JsMap (Work R))
      → (k == id) ≡ false
      → Holds P (get id m)
      → Holds P (get id (delete k m))
  delete_keeps k m other h = rw (get-delete, other) h

  -- A write of the item that `f` makes of what is stored under `k`, in a map with the same item.
  write_keeps :
      (k : String) (f : Work R → Option (Work R)) (m n : JsMap (Work R)) (o : Option (Work R))
      → ((w v : Work R) → f w ≡ some v → C w v)
      → Holds P (get id m)
      → Holds P (get id n)
      → ((w : Work R) → o ≡ some w → get k m ≡ some w)
      → Holds P (get id (write_back k (change o f) n).0)
  write_keeps k f m n none make h h' from = h'
  write_keeps k f m n (some w) make h h' from = written (f w) refl
    where
      written : (o : Option (Work R)) → f w ≡ o → Holds P (get id (write_back k o n).0)
      written none e = h'
      written (some v) e =
          set_keeps k v n h'
            (λ same. stable.kept w v (at_key k m same h (from w refl)) (make w v e))

  pub update_keeps :
      (k : String) (f : Work R → Option (Work R)) (m : JsMap (Work R))
      → ((w v : Work R) → f w ≡ some v → C w v)
      → Holds P (get id m)
      → Holds P (get id (update k f m).0)
  unfolding update
  update_keeps k f m make h = write_keeps k f m m (get k m) make h h (λ w e. e)

  pub prune_keeps :
      (k : String) (now : ℕ) (m : JsMap (Work R)) (o : Option (Work R))
      → get k m ≡ o
      → now < until
      → Holds P (get id m)
      → Holds P (get id (prune k now o m))
  prune_keeps k now m o g early h = elim (Bool-cases (k == id)) [
    | inl same ↦ here same o g
    | inr other ↦ elsewhere other o
  ]
    where
      here :
          (k == id) ≡ true
          → (o : Option (Work R)) → get k m ≡ o
          → Holds P (get id (prune k now o m))
      here same none g =
          absurd (subst (Holds P) (ap (λ i. get i m) (sym ((eq_iff k id).0 same)) ∙ g) h)
      here same (some w) g =
          let late = stable.lasting w (at_key k m same h g) in
          rw (lt→not_leb now w.expires_at (omega arith)) h

      elsewhere : (k == id) ≡ false → (o : Option (Work R)) → Holds P (get id (prune k now o m))
      elsewhere other none = delete_keeps k m other h
      elsewhere other (some w) = ground (arith, h, delete_keeps k m other h)

  pub unexpired-same :
      (now : ℕ) (o : Option (Work R)) (w : Work R) → unexpired now o ≡ some w → o ≡ some w
  unexpired-same now none w e = e
  unexpired-same now (some v) w e = ground arith

  pub update_live_keeps :
      (k : String) (now : ℕ) (f : Work R → Option (Work R)) (m : JsMap (Work R))
      → ((w v : Work R) → f w ≡ some v → C w v)
      → now < until
      → Holds P (get id m)
      → Holds P (get id (update_live k now f m).0)
  unfolding update_live
  update_live_keeps k now f m make early h =
      write_keeps k f m (prune k now (get k m) m) (unexpired now (get k m)) make h
        (prune_keeps k now m (get k m) refl early h) (λ w e. unexpired-same now (get k m) w e)

  pub live_works_keeps :
      (readings : ℕ → ℕ) (ws : List (Work R)) (m : JsMap (Work R))
      → ((n : ℕ) → readings n < until)
      → Holds P (get id m)
      → Holds P (get id (live_works readings ws m).0)
  unfolding live_works
  live_works_keeps readings [] m early h = h
  live_works_keeps readings (w ∷ ws) m early h =
      live_works_keeps (λ n. readings (suc n)) ws (prune w.id (readings 0) (get w.id m) m)
        (λ n. early (suc n)) (prune_keeps w.id (readings 0) m (get w.id m) refl (early 0) h)
