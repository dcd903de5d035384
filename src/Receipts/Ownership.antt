-- ===== src/Receipts/Ownership.antt =====
-- Who holds a receipt: what a granted claim leaves, and no change without the lease.
use hhc_line_function_bot.Prelude.{
  ℕ, ◌+◌, ◌≤◌, ◌<◌, max, String, ◌≡◌, ◌≢◌, true, false, Option, none, some, arith, eq_iff,
}
use hhc_line_function_bot.JsMap.{
  get, drop_if, Distinct, get-sweep, get-set_self, set-Distinct, sweep-Distinct,
}
use hhc_line_function_bot.Receipts.{
  started, Delivery, Transition, Lease, Receipt, receipt, claimed, Clock, Store, serialize,
  lease_key, expired, current, new_lease, admitted, claim, store_back, transition, start, delivery,
  try_start,
}

-- The key of an event, in a store where every key stands once: what a sweep leaves of its entry.
pub get-current :
    (now : ℕ) (k : String) (s : Store)
    → Distinct s
    → get k (current now s) ≡ drop_if (expired now) (get k s)
get-current now k s d = get-sweep (expired now) k s d

-- A granted claim leaves a receipt of its own under the key.
pub claim-grants :
    (sha256_hex : String → String) (c : Clock) (owner p e : String) (ttl lease : ℕ) (s : Store)
    {l : Lease}
    → (claim sha256_hex c owner p e ttl lease s).1 ≡ claimed l
    → (l ≡ new_lease sha256_hex owner p e lease)
      × (get (serialize p e) (claim sha256_hex c owner p e ttl lease s).0
          ≡ some (receipt (admitted c.first ttl l)))
unfolding claim
claim-grants sha256_hex c owner p e ttl lease s h =
    let key = serialize p e in
    let s' = current c.second s in
    let l = new_lease sha256_hex owner p e lease in
    ground (arith, get-set_self key (receipt (admitted c.first ttl l)) s')

pub claim-Distinct :
    (sha256_hex : String → String) (c : Clock) (owner p e : String) (ttl lease : ℕ) (s : Store)
    → Distinct s
    → Distinct (claim sha256_hex c owner p e ttl lease s).0
unfolding claim
claim-Distinct sha256_hex c owner p e ttl lease s d = grind (arith, set-Distinct, sweep-Distinct)

pub try_start-Distinct :
    (c : Clock) (p e : String) (ttl : ℕ) (s : Store)
    → Distinct s
    → Distinct (try_start c p e ttl s).0
unfolding try_start
try_start-Distinct c p e ttl s d = grind (arith, set-Distinct, sweep-Distinct)

store_back-Distinct :
    (k : String) (s : Store) (o : Option Receipt) → Distinct s → Distinct (store_back k s o).0
store_back-Distinct k s none d = d
store_back-Distinct k s (some r) d = set-Distinct k (receipt r) s d

pub transition-Distinct :
    (c : Clock) (l : Lease) (t : Transition) (s : Store)
    → Distinct s
    → Distinct (transition c l t s).0
unfolding transition
transition-Distinct c l t s d =
    store_back-Distinct (lease_key l) _ _ (sweep-Distinct (expired c.first) s d)

pub delivery-Distinct :
    (c : Clock) (l : Lease) (status : Delivery) (s : Store)
    → Distinct s
    → Distinct (delivery c l status s).0
unfolding delivery
delivery-Distinct c l status s d =
    store_back-Distinct (lease_key l) _ _ (sweep-Distinct (expired c.first) s d)

-- A lease that is not the receipt's own changes nothing but the sweep: the transition and the
-- delivery mark are both refused, in every phase and at every time.
pub owner_fences :
    (c : Clock) (l : Lease) (t : Transition) (status : Delivery) (s : Store) (r : Receipt)
    → Distinct s
    → get (lease_key l) s ≡ some (receipt r)
    → r.owner ≢ l.owner
    → (transition c l t s ≡ (current c.first s, false))
      × (delivery c l status s ≡ (current c.first s, false))
unfolding transition delivery
owner_fences c l t status s r d g other =
    let e = get-current c.first (lease_key l) s d in
    (ground (arith, e, eq_iff r.owner l.owner), ground (arith, e, eq_iff r.owner l.owner))

-- So does a lease whose time has run out, though the receipt be its own.
pub late_lease_fences :
    (c : Clock) (l : Lease) (t : Transition) (status : Delivery) (s : Store) (r : Receipt)
    → Distinct s
    → get (lease_key l) s ≡ some (receipt r)
    → r.lease_until ≤ c.second
    → (transition c l t s ≡ (current c.first s, false))
      × (delivery c l status s ≡ (current c.first s, false))
unfolding transition delivery
late_lease_fences c l t status s r d g late =
    let e = get-current c.first (lease_key l) s d in (ground (arith, e), ground (arith, e))

-- The claimant can start its event: within the lease and the retention, `start` answers `true` and
-- leaves the receipt started, all else as the claim left it.
pub claim_then_start :
    (sha256_hex : String → String) (c d : Clock) (owner p e : String) (ttl lease : ℕ) (s : Store)
    {l : Lease}
    → Distinct s
    → (claim sha256_hex c owner p e ttl lease s).1 ≡ claimed l
    → d.first < c.first + ttl
    → d.second < c.first + max 1 lease
    → let s' = (claim sha256_hex c owner p e ttl lease s).0 in
      let r = transition d l start s' in
      (r.1 ≡ true)
      × (get (serialize p e) r.0
          ≡ some (receipt (record (admitted c.first ttl l) { phase = started })))
unfolding transition new_lease admitted
claim_then_start sha256_hex c d owner p e ttl lease s {l} distinct h fresh live =
    let s' = (claim sha256_hex c owner p e ttl lease s).0 in
    let (same, g) = claim-grants sha256_hex c owner p e ttl lease s h in
    let e' =
      get-current d.first (serialize p e) s'
        (claim-Distinct sha256_hex c owner p e ttl lease s distinct) in
    let r = record (admitted c.first ttl l) { phase = started } in
    ground (
      arith,
      same,
      g,
      e',
      eq_iff owner owner,
      get-set_self (serialize p e) (receipt r) (current d.first s'),
    )
