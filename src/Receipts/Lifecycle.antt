-- ===== src/Receipts/Lifecycle.antt =====
-- The life of a receipt: which phase may follow which, over every call.
use hhc_line_function_bot.Prelude.{
  ℕ, ◌+◌, ◌≤◌, max, String, ◌≡◌, refl, ap, sym, ◌∙◌, ◌⊎◌, inl, inr, Bool, true, false, Option, none,
  some, arith, ◌==◌, eq_iff, ltb, if◌then◌else◌, Bool-cases,
}
use mathlib.Core.Path.{subst}
use hhc_line_function_bot.JsMap.{get, set, Distinct, get-set, get-set_self}
use hhc_line_function_bot.Receipts.{
  Phase, admitting, started, completed, uncertain, Delivery, Transition, Lease, Receipt, Entry,
  seen, receipt, Clock, Store, serialize, lease_key, current, admitted, Verdict, refuse, give_up,
  admit, judge, settle, claim, move, transition, judge_receipt, deliver, delivery, try_start,
  StartResult, repeated, fresh,
}
use hhc_line_function_bot.Receipts.Ownership.{get-current}
use hhc_line_function_bot.Receipts.History.{Call, try_starts, claims, transitions, deliveries, step}
use hhc_line_function_bot.Receipts.Kept.{held_keeps}

-- The phases, as the lease's owner moves through them.
infix 40 ◌⟶◌
pub data ◌⟶◌ : Phase → Phase → Type 0 where
  stay : {p : Phase} → p ⟶ p
  begin : admitting ⟶ started
  skip : admitting ⟶ completed
  finish : started ⟶ completed
  doubt : admitting ⟶ uncertain
  lose : started ⟶ uncertain

move-⟶ :
    (t : Transition) (p : Phase) (now : ℕ) (l : Lease) (r r' : Receipt)
    → r.phase ≡ p
    → move t p now l r ≡ some r'
    → (r'.owner ≡ r.owner) × (p ⟶ r'.phase)
unfolding move
move-⟶ t p now l r r' e h = grind (arith, stay, begin, skip, finish, doubt, lose)

-- A new claim takes the place of a receipt: one that has expired by the sweep, or one that was
-- never started and whose lease has run out.
abbrev pub Replaced : Clock → Receipt → Receipt → Type 0
Replaced c r r' =
    (r'.phase ≡ admitting)
    × ((r.expires_at ≤ c.second) ⊎ ((r.phase ≡ admitting) × (r.lease_until ≤ c.first)))

-- The receipt had expired, by a sweep of the call.
abbrev pub Lapsed : Clock → Receipt → Type 0
Lapsed c r = (r.expires_at ≤ c.first) ⊎ (r.expires_at ≤ c.second)

abbrev pub Follows : Clock → Receipt → Option Entry → Type 0
Follows c r (some (receipt r')) = ((r'.owner ≡ r.owner) × (r.phase ⟶ r'.phase)) ⊎ Replaced c r r'
Follows c r _ = Lapsed c r

-- An entry as the sweep leaves it.
abbrev Swept : Receipt → ℕ → Option Entry → Type 0
Swept r now o = (o ≡ some (receipt r)) ⊎ ((o ≡ none) × (r.expires_at ≤ now))

Swept-current :
    (now : ℕ) (k : String) (s : Store) (r : Receipt)
    → Distinct s
    → get k s ≡ some (receipt r)
    → Swept r now (get k (current now s))
Swept-current now k s r d g = rw (get-current now k s d, g) (ground arith)

seen-not-Swept : (r : Receipt) (now u : ℕ) → Swept r now (some (seen u)) → ⊥
seen-not-Swept r now u (inl e) = cc
seen-not-Swept r now u (inr (e, le)) = cc

Swept-Follows :
    (c : Clock) (r : Receipt) (now : ℕ) (o : Option Entry)
    → (r.expires_at ≤ now → Lapsed c r)
    → Swept r now o
    → Follows c r o
Swept-Follows c r now none past (inl e) = cc
Swept-Follows c r now none past (inr (e, le)) = past le
Swept-Follows c r now (some (seen u)) past h = absurd (seen-not-Swept r now u h)
Swept-Follows c r now (some (receipt r')) past h =
    let e : r' ≡ r = ground arith in inl (ap (λ x. x.owner) e, rw e stay)

pub settle_other :
    (now ttl : ℕ) (k j : String) (l : Lease) (s : Store) (v : Verdict)
    → (j == k) ≡ false
    → get k (settle j now ttl l s v).0 ≡ get k s
unfolding settle
settle_other now ttl k j l s (refuse a) h = refl
settle_other now ttl k j l s (give_up r) h = rw (get-set, h)
settle_other now ttl k j l s admit h = rw (get-set, h)

-- What the claim of an event does to the event's own receipt.
settle_own :
    (c : Clock) (ttl : ℕ) (k : String) (l : Lease) (s : Store) (r : Receipt) (p : Phase)
    → r.phase ≡ p
    → get k s ≡ some (receipt r)
    → Follows c r (get k (settle k c.first ttl l s (judge_receipt p c.first r)).0)
unfolding settle judge_receipt admitted
settle_own c ttl k l s r completed e g = rw g (inl (refl, stay))
settle_own c ttl k l s r uncertain e g = rw g (inl (refl, stay))
settle_own c ttl k l s r started e g = elim (Bool-cases (ltb c.first r.lease_until)) [
  | inl live ↦ rw (live, g) (inl (refl, stay))
  | inr late ↦ rw (late, get-set_self) (inl (refl, rw e lose))
]
settle_own c ttl k l s r admitting e g = elim (Bool-cases (ltb c.first r.lease_until)) [
  | inl live ↦ rw (live, g) (inl (refl, stay))
  | inr late ↦ rw (late, get-set_self) (inr (refl, inr (e, ground arith)))
]

settle-Follows :
    (c : Clock) (ttl : ℕ) (k j : String) (l : Lease) (s : Store) (r : Receipt)
    → Swept r c.second (get k s)
    → Follows c r (get k (settle j c.first ttl l s (judge c.first (get j s))).0)
unfolding judge settle
settle-Follows c ttl k j l s r w = elim (Bool-cases (j == k)) [
  | inr other ↦
      rw (settle_other c.first ttl k j l s _ other) (Swept-Follows c r c.second (get k s) inr w)
  | inl same ↦ rw ((eq_iff j k).0 same) (own w)
]
  where
    own :
        Swept r c.second (get k s)
        → Follows c r (get k (settle k c.first ttl l s (judge c.first (get k s))).0)
    own (inl here) = rw here (settle_own c ttl k l s r r.phase refl here)
    own (inr (gone, past)) = rw (gone, get-set_self) (inr (refl, inl past))

Swept-same : (r q : Receipt) (now : ℕ) → Swept r now (some (receipt q)) → q ≡ r
Swept-same r q now w = ground arith

deliver-⟶ :
    (status : Delivery) (q r' : Receipt)
    → deliver status q.delivery q ≡ some r'
    → (r'.owner ≡ q.owner) × (q.phase ⟶ r'.phase)
unfolding deliver
deliver-⟶ status q r' h = let e : r'.phase ≡ q.phase = ground arith in (ground arith, rw e stay)

moved :
    (c : Clock) (r q r' : Receipt) (now : ℕ)
    → Swept r now (some (receipt q))
    → (r'.owner ≡ q.owner) × (q.phase ⟶ r'.phase)
    → Follows c r (some (receipt r'))
moved c r q r' now w m =
    inl (subst (λ x. (r'.owner ≡ x.owner) × (x.phase ⟶ r'.phase)) (Swept-same r q now w) m)

try_start-Follows :
    (c : Clock) (k p e : String) (ttl : ℕ) (s : Store) (r : Receipt)
    → Swept r c.first (get k (current c.first s))
    → Follows c r (get k (try_start c p e ttl s).0)
unfolding try_start
try_start-Follows c k p e ttl s r w = start_with (get (serialize p e) s') refl
  where
    s' : Store
    s' = current c.first s

    marked :
        get (serialize p e) s' ≡ none
        → (b : Bool) → (serialize p e == k) ≡ b
        → Follows c r (if b then some (seen (c.second + max 1 ttl)) else get k s')
    marked free false other = Swept-Follows c r c.first (get k s') inl w
    marked free true same = gone w
      where
        gone : Swept r c.first (get k s') → Lapsed c r
        gone (inl here) =
            let e : none ≡ some (receipt r) =
              sym free ∙ ap (λ i. get i s') ((eq_iff (serialize p e) k).0 same) ∙ here in
            cc
        gone (inr (e, le)) = inl le

    start_with :
        (o : Option Entry)
        → get (serialize p e) s' ≡ o
        → Follows c r (
            get k
              (elim o as (λ _. Store × StartResult) [
                | some _ ↦ (s', repeated)
                | none ↦ (set (serialize p e) (seen (c.second + max 1 ttl)) s', fresh)
              ]).0)
    start_with (some _) g = Swept-Follows c r c.first (get k s') inl w
    start_with none g = rw get-set (marked g (serialize p e == k) refl)

-- The life of a receipt. Whatever one call does, at any key and by any owner: if an event has a
-- receipt before it, then after it the event has a receipt of the same owner, whose phase has moved
-- along the diagram (`completed` and `uncertain` are final); or it has a new claim in `admitting`,
-- and the receipt before had expired, or had not been started and had outlived its lease; or it has no
-- receipt (nothing, or the mark of `tryStart`), and the receipt before had expired.
pub step-Follows :
    (sha256_hex : String → String) (c : Clock) (x : Call) (k : String) (s : Store) (r : Receipt)
    → Distinct s
    → get k s ≡ some (receipt r)
    → Follows c r (get k (step sha256_hex s (c, x)))
unfolding step claim transition delivery try_start
step-Follows sha256_hex c (claims owner p e ttl lease) k s r d g =
    settle-Follows c ttl k (serialize p e) _ (current c.second s) r
      (Swept-current c.second k s r d g)
step-Follows sha256_hex c (transitions l t) k s r d g =
    held_keeps k (lease_key l) (Swept r c.first) (Follows c r)
      (λ o. Swept-Follows c r c.first o inl) c.second l (current c.first s) _ _ refl
      (λ q r' w e. moved c r q r' c.first w (move-⟶ t q.phase c.third l q r' refl e))
      (Swept-current c.first k s r d g)
step-Follows sha256_hex c (deliveries l status) k s r d g =
    held_keeps k (lease_key l) (Swept r c.first) (Follows c r)
      (λ o. Swept-Follows c r c.first o inl) c.second l (current c.first s) _ _ refl
      (λ q r' w e. moved c r q r' c.first w (deliver-⟶ status q r' e))
      (Swept-current c.first k s r d g)
step-Follows sha256_hex c (try_starts p e ttl) k s r d g =
    try_start-Follows c k p e ttl s r (Swept-current c.first k s r d g)
