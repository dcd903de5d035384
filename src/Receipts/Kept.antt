-- ===== src/Receipts/Kept.antt =====
-- What each part of a call keeps of the entry under a key: that it has begun, and its retention.
use hhc_line_function_bot.Prelude.{
  ℕ, ◌+◌, ◌≤◌, ◌<◌, String, ◌≡◌, refl, sym, ap, ◌∙◌, inl, inr, false, ◌&&◌, Option, none, some,
  arith, ◌==◌, eq_iff, ltb, Bool-cases,
}
use mathlib.Core.Path.{subst}
use hhc_line_function_bot.JsMap.{get, drop_if, Distinct, get-set}
use hhc_line_function_bot.Receipts.{
  uncertain, Delivery, Transition, Lease, Receipt, Entry, seen, receipt, Store, expired, current,
  admitted, judge, settle, holds, move, store_back, bind, deliver,
}
use hhc_line_function_bot.Receipts.Ownership.{get-current}
use hhc_line_function_bot.Receipts.History.{is_admitting}

-- The retention of a receipt was set no later than `low`.
abbrev pub Timed : ℕ → Option Entry → Type 0
Timed low (some (receipt r)) = r.expires_at ≤ low + r.retention_ms
Timed low _ = Unit

-- A receipt that has left `admitting` and stays until `until`.
abbrev pub Begun : ℕ → ℕ → Option Entry → Type 0
Begun until low (some (receipt r)) =
    (is_admitting r.phase ≡ false) × (until ≤ r.expires_at) × (r.expires_at ≤ low + r.retention_ms)
Begun until low _ = ⊥

pub Timed-current :
    (low now : ℕ) (k : String) (s : Store)
    → Distinct s
    → Timed low (get k s)
    → Timed low (get k (current now s))
Timed-current low now k s d t = rw (get-current now k s d) (drop low now (get k s) t)
  where
    drop : (low now : ℕ) (o : Option Entry) → Timed low o → Timed low (drop_if (expired now) o)
    drop low now none t = tt
    drop low now (some (seen u)) t = ground arith
    drop low now (some (receipt r)) t = ground arith

pub Begun-current :
    (until low now : ℕ) (k : String) (s : Store)
    → Distinct s
    → now < until
    → Begun until low (get k s)
    → Begun until low (get k (current now s))
Begun-current until low now k s d early b = rw (get-current now k s d) (drop (get k s) b)
  where
    drop : (o : Option Entry) → Begun until low o → Begun until low (drop_if (expired now) o)
    drop none b = absurd b
    drop (some (seen u)) b = absurd b
    drop (some (receipt r)) b = ground arith

abbrev pub gave_up : ℕ → Receipt → Receipt
gave_up now r = record r { phase = uncertain; expires_at = now + r.retention_ms }

pub settle-Begun :
    (until low now end ttl : ℕ) (k j : String) (l : Lease) (s : Store) (o : Option Entry)
    → get j s ≡ o
    → low ≤ now
    → now ≤ end
    → Begun until low (get k s)
    → Begun until end (get k (settle j now ttl l s (judge now o)).0)
unfolding settle judge
settle-Begun until low now end ttl k j l s none g le le' b =
    ground (arith, eq_iff j k, get-set j k (receipt (admitted now ttl l)) s)
settle-Begun until low now end ttl k j l s (some (seen u)) g le le' b = ground arith
settle-Begun until low now end ttl k j l s (some (receipt r)) g le le' b = ground (
  arith,
  eq_iff j k,
  get-set j k (receipt (admitted now ttl l)) s,
  get-set j k (receipt (gave_up now r)) s,
)

pub Timed-weaken : (low end : ℕ) (o : Option Entry) → low ≤ end → Timed low o → Timed end o
Timed-weaken low end none le t = tt
Timed-weaken low end (some (seen u)) le t = tt
Timed-weaken low end (some (receipt r)) le t = omega arith

pub settle-Timed :
    (low now end ttl : ℕ) (k j : String) (l : Lease) (s : Store) (o : Option Entry)
    → get j s ≡ o
    → low ≤ now
    → now ≤ end
    → Timed low (get k s)
    → Timed end (get k (settle j now ttl l s (judge now o)).0)
unfolding settle judge admitted
settle-Timed low now end ttl k j l s none g le le' b = ground (
  arith,
  eq_iff j k,
  get-set j k (receipt (admitted now ttl l)) s,
  Timed-weaken low end (get k s) (omega arith) b,
)
settle-Timed low now end ttl k j l s (some (seen u)) g le le' b =
    Timed-weaken low end (get k s) (omega arith) b
settle-Timed low now end ttl k j l s (some (receipt r)) g le le' b = ground (
  arith,
  eq_iff j k,
  get-set j k (receipt (admitted now ttl l)) s,
  get-set j k (receipt (gave_up now r)) s,
  Timed-weaken low end (get k s) (omega arith) b,
)

-- A change that an owner makes keeps what has begun, and the retention.
pub move-Begun :
    (t : Transition) (until low now : ℕ) (l : Lease) (r r' : Receipt)
    → low ≤ now
    → Begun until low (some (receipt r))
    → move t r.phase now l r ≡ some r'
    → Begun until now (some (receipt r'))
unfolding move
move-Begun t until low now l r r' le b h = ground arith

pub move-Timed :
    (t : Transition) (low now : ℕ) (l : Lease) (r r' : Receipt)
    → low ≤ now
    → Timed low (some (receipt r))
    → move t r.phase now l r ≡ some r'
    → Timed now (some (receipt r'))
unfolding move
move-Timed t low now l r r' le b h = ground arith

pub deliver-same :
    (status : Delivery) (r r' : Receipt)
    → deliver status r.delivery r ≡ some r'
    → (r'.phase ≡ r.phase) × (r'.expires_at ≡ r.expires_at) × (r'.retention_ms ≡ r.retention_ms)
unfolding deliver
deliver-same status r r' h = ground arith

pub Begun-weaken :
    (until low end : ℕ) (o : Option Entry) → low ≤ end → Begun until low o → Begun until end o
Begun-weaken until low end none le b = b
Begun-weaken until low end (some (seen u)) le b = b
Begun-weaken until low end (some (receipt r)) le b = ground arith

-- What a call under a lease does, for a predicate on the entry of `k` that its change keeps.
module _ (k j : String) (P Q : Option Entry → Type 0)
    (weaken : (o : Option Entry) → P o → Q o) where
  pub store_back_keeps :
      (s : Store) (o : Option Receipt)
      → ((r' : Receipt) → o ≡ some r' → j ≡ k → Q (some (receipt r')))
      → P (get k s)
      → Q (get k (store_back j s o).0)
  store_back_keeps s none change p = weaken (get k s) p
  store_back_keeps s (some r') change p = elim (Bool-cases (j == k)) [
    | inl same ↦ rw (get-set, same) (change r' refl ((eq_iff j k).0 same))
    | inr other ↦ rw (get-set, other) (weaken (get k s) p)
  ]

  -- The change is the lease's owner's, of the receipt under its key.
  pub own_keeps :
      (now : ℕ) (l : Lease) (s : Store) (f : Receipt → Option Receipt) (o : Option Entry)
      → get j s ≡ o
      → ((r r' : Receipt)
          → j ≡ k
          → r.owner ≡ l.owner
          → P (some (receipt r))
          → f r ≡ some r'
          → Q (some (receipt r')))
      → P (get k s)
      → Q (get k (store_back j s (bind (holds now l o) f)).0)
  own_keeps now l s f none g keep p = weaken (get k s) p
  own_keeps now l s f (some (seen u)) g keep p = weaken (get k s) p
  own_keeps now l s f (some (receipt r)) g keep p =
      elim (Bool-cases ((r.owner == l.owner) && ltb now r.lease_until)) [
        | inl mine ↦
            rw (mine, store_back)
              (store_back_keeps s (f r)
                (λ r' e same.
                  keep r r' same (ground (arith, eq_iff r.owner l.owner))
                    (subst P (ap (λ i. get i s) (sym same) ∙ g) p) e)
                p)
        | inr not_mine ↦ rw (not_mine, store_back) (weaken (get k s) p)
      ]

  pub held_keeps :
      (now : ℕ) (l : Lease) (s : Store) (f : Receipt → Option Receipt) (o : Option Entry)
      → get j s ≡ o
      → ((r r' : Receipt) → P (some (receipt r)) → f r ≡ some r' → Q (some (receipt r')))
      → P (get k s)
      → Q (get k (store_back j s (bind (holds now l o) f)).0)
  held_keeps now l s f o g keep p = own_keeps now l s f o g (λ r r' same mine. keep r r') p
