-- ===== src/Receipts/Exclusive.antt =====
-- One claim of an event at a time, for as long as its lease runs.
use hhc_line_function_bot.Prelude.{
  ℕ, ◌+◌, ◌<◌, max, String, ◌≡◌, refl, sym, ap, ◌∙◌, ◌≢◌, ◌⊎◌, inl, inr, Bool, true, false, Option,
  none, some, [], ◌∷◌, All, arith, ◌==◌, eq_iff, if◌then◌else◌, Bool-cases,
}
use mathlib.Core.Path.{subst}
use hhc_line_function_bot.JsMap.{get, set, drop_if, Distinct, get-set}
use hhc_line_function_bot.Receipts.{
  Phase, admitting, started, Delivery, Transition, start, Lease, Receipt, Entry, seen, receipt,
  StartResult, fresh, repeated, claimed, duplicate, Clock, Store, serialize, lease_key, expired,
  current, new_lease, admitted, settle, judge, judge_receipt, claim, move, transition, deliver,
  delivery, try_start,
}
use hhc_line_function_bot.Receipts.Ownership.{get-current, claim-grants, claim-Distinct}
use hhc_line_function_bot.Receipts.History.{
  Call, try_starts, claims, transitions, deliveries, History, step, run, step-Distinct,
}
use hhc_line_function_bot.Receipts.Kept.{own_keeps}
use hhc_line_function_bot.Receipts.Lifecycle.{settle_other}

-- The receipt is this owner's, admitting or started, under a lease until `lease_end`.
abbrev pub IsLeased : String → ℕ → ℕ → Option Entry → Type 0
IsLeased owner lease_end until none = ⊥
IsLeased owner lease_end until (some (seen u)) = ⊥
IsLeased owner lease_end until (some (receipt r)) =
    (r.owner ≡ owner)
    × ((r.phase ≡ admitting) ⊎ (r.phase ≡ started))
    × (r.lease_until ≡ lease_end)
    × (r.expires_at ≡ until)

-- A call before the lease and the receipt end, that does not end or renew the lease: a transition under
-- the key is `start`, or under a lease of another owner.
abbrev pub LeavesLease : String → String → ℕ → ℕ → Clock × Call → Type 0
LeavesLease k owner lease_end until (c, try_starts p e ttl) = c.first < until
LeavesLease k owner lease_end until (c, claims other p e ttl lease) =
    (c.first < lease_end) × (c.second < until)
LeavesLease k owner lease_end until (c, transitions l t) =
    (c.first < until) × ((t ≡ start) ⊎ (l.owner ≢ owner) ⊎ (lease_key l ≢ k))
LeavesLease k owner lease_end until (c, deliveries l status) = c.first < until

module _ (k owner : String) (lease_end until : ℕ) where
  abbrev Leased : Option Entry → Type 0
  Leased = IsLeased owner lease_end until

  Leased-current :
      (now : ℕ) (s : Store)
      → Distinct s
      → now < until
      → Leased (get k s)
      → Leased (get k (current now s))
  Leased-current now s d early h = rw (get-current now k s d) (drop (get k s) h)
    where
      drop : (o : Option Entry) → Leased o → Leased (drop_if (expired now) o)
      drop none h = absurd h
      drop (some (seen u)) h = absurd h
      drop (some (receipt r)) h = ground arith

  -- A claim of the event is refused.
  judge_refuses :
      (now ttl : ℕ) (l : Lease) (s : Store) (o : Option Entry)
      → now < lease_end
      → Leased o
      → settle k now ttl l s (judge now o) ≡ (s, duplicate)
  unfolding settle judge judge_receipt
  judge_refuses now ttl l s none early h = absurd h
  judge_refuses now ttl l s (some (seen u)) early h = absurd h
  judge_refuses now ttl l s (some (receipt r)) early (o, inl p, e, x) = rw p (ground arith)
  judge_refuses now ttl l s (some (receipt r)) early (o, inr p, e, x) = rw p (ground arith)

  settle-Leased :
      (now ttl : ℕ) (j : String) (l : Lease) (s : Store)
      → now < lease_end
      → Leased (get k s)
      → Leased (get k (settle j now ttl l s (judge now (get j s))).0)
  settle-Leased now ttl j l s early h = elim (Bool-cases (j == k)) [
    | inl same ↦ rw ((eq_iff j k).0 same) (rw (judge_refuses now ttl l s (get k s) early h) h)
    | inr other ↦ rw (settle_other now ttl k j l s _ other) h
  ]

  try_start-Leased :
      (c : Clock) (p e : String) (ttl : ℕ) (s : Store)
      → Leased (get k (current c.first s))
      → Leased (get k (try_start c p e ttl s).0)
  unfolding try_start
  try_start-Leased c p e ttl s h = start_with (get (serialize p e) s') refl
    where
      s' : Store
      s' = current c.first s

      marked :
          get (serialize p e) s' ≡ none
          → (b : Bool) → (serialize p e == k) ≡ b
          → Leased (if b then some (seen (c.second + max 1 ttl)) else get k s')
      marked free false other = h
      marked free true same =
          absurd
            (subst Leased (ap (λ i. get i s') (sym ((eq_iff (serialize p e) k).0 same)) ∙ free) h)

      start_with :
          (o : Option Entry)
          → get (serialize p e) s' ≡ o
          → Leased (
              get k
                (elim o as (λ _. Store × StartResult) [
                  | some _ ↦ (s', repeated)
                  | none ↦ (set (serialize p e) (seen (c.second + max 1 ttl)) s', fresh)
                ]).0)
      start_with (some _) g = h
      start_with none g = rw get-set (marked g (serialize p e == k) refl)

  move-Leased :
      (t : Transition) (p : Phase) (now : ℕ) (l : Lease) (r r' : Receipt)
      → r.phase ≡ p
      → t ≡ start
      → Leased (some (receipt r))
      → move t p now l r ≡ some r'
      → Leased (some (receipt r'))
  unfolding move
  move-Leased t p now l r r' at begins h e = ground arith

  deliver-Leased :
      (status : Delivery) (r r' : Receipt)
      → Leased (some (receipt r))
      → deliver status r.delivery r ≡ some r'
      → Leased (some (receipt r'))
  unfolding deliver
  deliver-Leased status r r' h e = ground arith

  move_left :
      (t : Transition) (now : ℕ) (l : Lease) (r r' : Receipt)
      → (t ≡ start) ⊎ (l.owner ≢ owner) ⊎ (lease_key l ≢ k)
      → lease_key l ≡ k
      → r.owner ≡ l.owner
      → Leased (some (receipt r))
      → move t r.phase now l r ≡ some r'
      → Leased (some (receipt r'))
  move_left t now l r r' (inl begins) same mine h e =
      move-Leased t r.phase now l r r' refl begins h e
  move_left t now l r r' (inr (inl other)) same mine h e = absurd (other (sym mine ∙ h.0))
  move_left t now l r r' (inr (inr elsewhere)) same mine h e = absurd (elsewhere same)

  step-Leased :
      (sha256_hex : String → String) (s : Store) (x : Clock × Call)
      → Distinct s
      → LeavesLease k owner lease_end until x
      → Leased (get k s)
      → Leased (get k (step sha256_hex s x))
  unfolding step claim transition delivery
  step-Leased sha256_hex s (c, try_starts p e ttl) d early h =
      try_start-Leased c p e ttl s (Leased-current c.first s d early h)
  step-Leased sha256_hex s (c, claims other p e ttl lease) d (early, fresh_) h =
      settle-Leased c.first ttl (serialize p e) _ (current c.second s) early
        (Leased-current c.second s d fresh_ h)
  step-Leased sha256_hex s (c, transitions l t) d (early, leaves) h =
      own_keeps k (lease_key l) Leased Leased (λ o p. p) c.second l (current c.first s) _ _ refl
        (λ r r' same mine p e. move_left t c.third l r r' leaves same mine p e)
        (Leased-current c.first s d early h)
  step-Leased sha256_hex s (c, deliveries l status) d early h =
      own_keeps k (lease_key l) Leased Leased (λ o p. p) c.second l (current c.first s) _ _ refl
        (λ r r' same mine p e. deliver-Leased status r r' p e) (Leased-current c.first s d early h)

  run-Leased :
      (sha256_hex : String → String) (s : Store) (h : History)
      → Distinct s
      → All (LeavesLease k owner lease_end until) h
      → Leased (get k s)
      → Distinct (run sha256_hex s h) × Leased (get k (run sha256_hex s h))
  unfolding run
  run-Leased sha256_hex s [] d leaves p = (d, p)
  run-Leased sha256_hex s (x ∷ h) d (leave, leaves) p =
      run-Leased sha256_hex (step sha256_hex s x) h (step-Distinct sha256_hex s x d) leaves
        (step-Leased sha256_hex s x d leave p)

-- A granted claim excludes every other. When `claim` has granted an event, then after any calls that
-- follow, and before its lease runs out and its retention ends, a claim of the event, by whatever owner,
-- is answered `duplicate`, and the receipt under the event's key is still the first claim's: its owner's,
-- `admitting` or `started`, with the same lease time and expiry. The calls that follow are before these
-- times too, and none of them is a transition of the receipt by its owner other than `start`, which may
-- end or renew the lease: the owner's `start` and delivery marks, claims, `tryStart`, and the transitions
-- of other owners and other events may be there.
pub claim_exclusive :
    (sha256_hex : String → String) (c d : Clock) (owner other p e : String)
    (ttl lease ttl' lease' : ℕ) (s : Store) (h : History) {l : Lease}
    → Distinct s
    → (claim sha256_hex c owner p e ttl lease s).1 ≡ claimed l
    → All (LeavesLease (serialize p e) owner (c.first + max 1 lease) (c.first + ttl)) h
    → d.first < c.first + max 1 lease
    → d.second < c.first + ttl
    → let s' = run sha256_hex (claim sha256_hex c owner p e ttl lease s).0 h in
      let r = claim sha256_hex d other p e ttl' lease' s' in
      (r.1 ≡ duplicate)
      × IsLeased owner (c.first + max 1 lease) (c.first + ttl) (get (serialize p e) r.0)
claim_exclusive sha256_hex c d owner other p e ttl lease ttl' lease' s h {l} distinct granted leaves
      live fresh_ =
    let k = serialize p e in
    let lease_end = c.first + max 1 lease in
    let until = c.first + ttl in
    let s' = (claim sha256_hex c owner p e ttl lease s).0 in
    let (same, g) = claim-grants sha256_hex c owner p e ttl lease s granted in
    let first_claim : IsLeased owner lease_end until (get k s') =
      rw (g, same) (unfold admitted new_lease in (refl, inl refl, refl, refl)) in
    let (d', kept) =
      run-Leased k owner lease_end until sha256_hex s' h
        (claim-Distinct sha256_hex c owner p e ttl lease s distinct) leaves first_claim in
    let s'' = run sha256_hex s' h in
    let swept = Leased-current k owner lease_end until d.second s'' d' fresh_ kept in
    unfold claim in
    rw (judge_refuses k owner lease_end until d.first ttl' _ (current d.second s'') _ live swept)
      (refl, swept)
