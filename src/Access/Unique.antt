-- ===== src/Access/Unique.antt =====
-- One entry for each subject: tables in which the entries are filed under their ids and every subject has
-- one entry at most.
use hhc_line_function_bot.Prelude.{
  ◌≤◌, String, ◌≡◌, inl, inr, Bool, true, none, some, arith, Bool-cases, find,
}
use hhc_line_function_bot.JsMap.{JsMap, get, set, values, Distinct, set-Distinct}
use mathlib.Core.Path.{subst}
use hhc_line_function_bot.Access.Table.{
  Filed, set-Filed, get-find, count, count-find, count-set_over, count-set_new,
}

module _ {V S : Type 0} (id_of : V → String) (test : S → V → Bool) where
  abbrev pub IsTable : JsMap V → Type 0
  IsTable m = Filed id_of m × Distinct m × ((k : S) → count (test k) m ≤ 1)

  -- An entry that a look-up finds is replaced by one with its id and its subject.
  pub replace-IsTable :
      (p : V → Bool) (m : JsMap V) {e : V} (v : V)
      → IsTable m
      → find p (values m) ≡ some e
      → id_of v ≡ id_of e
      → ((k : S) → test k v ≡ test k e)
      → IsTable (set (id_of e) v m)
  replace-IsTable p m {e} v (f, d, c) h same agrees = (
    subst (λ i. Filed id_of (set i v m)) same (set-Filed id_of v m f),
    set-Distinct (id_of e) v m d,
    λ k. rw (count-set_over (test k) (id_of e) v e m (get-find id_of p m f d h) (agrees k)) (c k),
  )

  -- An entry with an unused id, about a subject that has none, is added.
  pub add-IsTable :
      ((k j : S) (v : V) → test k v ≡ true → test j v ≡ true → k ≡ j)
      → (k : S) (m : JsMap V) (v : V) → IsTable m
      → find (test k) (values m) ≡ none
      → get (id_of v) m ≡ none
      → test k v ≡ true
      → IsTable (set (id_of v) v m)
  add-IsTable one k m v (f, d, c) h unused mine =
      (set-Filed id_of v m f, set-Distinct (id_of v) v m d, at_most_one)
    where
      at_most_one : (j : S) → count (test j) (set (id_of v) v m) ≤ 1
      at_most_one j =
          rw (count-set_new (test j) (id_of v) v m unused) (elim (Bool-cases (test j v)) [
            | inl his ↦
                let none_yet : count (test j) m ≡ 0 =
                  subst (λ i. count (test i) m ≡ 0) (one k j v mine his)
                    (count-find (test k) m h) in
                ground arith
            | inr other ↦ rw other (c j)
          ])
