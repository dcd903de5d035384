-- ===== src/Receipts/Execution.antt =====
-- At most one execution: what holds of a receipt over any history of calls whose clock readings do
-- not go back.
use hhc_line_function_bot.Prelude.{
  ℕ, ◌+◌, ◌≤◌, ◌<◌, max, String, ◌≡◌, refl, sym, false, Option, none, some, [], ◌∷◌, arith, eq_iff,
}
use mathlib.Core.Path.{subst}
use hhc_line_function_bot.JsMap.{get, Distinct, get-set}
use hhc_line_function_bot.Receipts.{
  Receipt, Entry, seen, receipt, Clock, Store, serialize, lease_key, current, new_lease, judge,
  settle, claim, transition, delivery, try_start,
}
use hhc_line_function_bot.Receipts.History.{
  Call, try_starts, claims, transitions, deliveries, History, Within, last_reading, is_admitting,
  is_granted, step, run, step-Distinct,
}
use hhc_line_function_bot.Receipts.Kept.{
  Timed, Begun, Timed-current, Begun-current, settle-Begun, settle-Timed, Timed-weaken,
  Begun-weaken, move-Begun, move-Timed, deliver-same, held_keeps,
}

abbrev InOrder : ℕ → Clock → Type 0
InOrder low c = (low ≤ c.first) × (c.first ≤ c.second) × (c.second ≤ c.third)

try_start-Begun :
    (until low : ℕ) (k : String) (c : Clock) (p e : String) (ttl : ℕ) (s : Store)
    → Distinct s
    → InOrder low c
    → c.third < until
    → Begun until low (get k s)
    → Begun until c.third (get k (try_start c p e ttl s).0)
unfolding try_start
try_start-Begun until low k c p e ttl s d o early b =
    let s' = current c.first s in
    let b' = Begun-current until low c.first k s d (omega arith) b in
    let key = serialize p e in
    ground (
      arith,
      Begun-weaken until low c.third (get k s') (omega arith) b',
      b',
      eq_iff key k,
      get-set key k (seen (c.second + max 1 ttl)) s',
    )

step-Begun :
    (sha256_hex : String → String) (until low : ℕ) (k : String) (c : Clock) (x : Call) (s : Store)
    → Distinct s
    → InOrder low c
    → c.third < until
    → Begun until low (get k s)
    → Begun until c.third (get k (step sha256_hex s (c, x)))
unfolding step claim transition delivery
step-Begun sha256_hex until low k c (try_starts p e ttl) s d o early b =
    try_start-Begun until low k c p e ttl s d o early b
step-Begun sha256_hex until low k c (claims owner p e ttl lease) s d o early b =
    settle-Begun until low c.first c.third ttl k (serialize p e) _ (current c.second s) _ refl o.0
      (omega arith) (Begun-current until low c.second k s d (omega arith) b)
step-Begun sha256_hex until low k c (transitions l t) s d o early b =
    held_keeps k (lease_key l) (Begun until low) (Begun until c.third)
      (λ q. Begun-weaken until low c.third q (omega arith)) c.second l (current c.first s) _ _ refl
      (λ r r' p e. move-Begun t until low c.third l r r' (omega arith) p e)
      (Begun-current until low c.first k s d (omega arith) b)
step-Begun sha256_hex until low k c (deliveries l status) s d o early b =
    held_keeps k (lease_key l) (Begun until low) (Begun until c.third)
      (λ q. Begun-weaken until low c.third q (omega arith)) c.second l (current c.first s) _ _ refl
      (λ r r' p e. ground (arith, deliver-same status r r' e))
      (Begun-current until low c.first k s d (omega arith) b)

try_start-Timed :
    (low : ℕ) (k : String) (c : Clock) (p e : String) (ttl : ℕ) (s : Store)
    → Distinct s
    → InOrder low c
    → Timed low (get k s)
    → Timed c.third (get k (try_start c p e ttl s).0)
unfolding try_start
try_start-Timed low k c p e ttl s d o b =
    let s' = current c.first s in
    let key = serialize p e in
    ground (
      arith,
      Timed-weaken low c.third (get k s') (omega arith) (Timed-current low c.first k s d b),
      eq_iff key k,
      get-set key k (seen (c.second + max 1 ttl)) s',
    )

step-Timed :
    (sha256_hex : String → String) (low : ℕ) (k : String) (c : Clock) (x : Call) (s : Store)
    → Distinct s
    → InOrder low c
    → Timed low (get k s)
    → Timed c.third (get k (step sha256_hex s (c, x)))
unfolding step claim transition delivery
step-Timed sha256_hex low k c (try_starts p e ttl) s d o b = try_start-Timed low k c p e ttl s d o b
step-Timed sha256_hex low k c (claims owner p e ttl lease) s d o b =
    settle-Timed low c.first c.third ttl k (serialize p e) _ (current c.second s) _ refl o.0
      (omega arith) (Timed-current low c.second k s d b)
step-Timed sha256_hex low k c (transitions l t) s d o b =
    held_keeps k (lease_key l) (Timed low) (Timed c.third)
      (λ q. Timed-weaken low c.third q (omega arith)) c.second l (current c.first s) _ _ refl
      (λ r r' p e. move-Timed t low c.third l r r' (omega arith) p e)
      (Timed-current low c.first k s d b)
step-Timed sha256_hex low k c (deliveries l status) s d o b =
    held_keeps k (lease_key l) (Timed low) (Timed c.third)
      (λ q. Timed-weaken low c.third q (omega arith)) c.second l (current c.first s) _ _ refl
      (λ r r' p e. ground (arith, deliver-same status r r' e)) (Timed-current low c.first k s d b)

run-Begun :
    (sha256_hex : String → String) (until low : ℕ) (k : String) (s : Store) (h : History)
    → Distinct s
    → Within low until h
    → Begun until low (get k s)
    → Begun until (last_reading low h) (get k (run sha256_hex s h)) × Distinct (run sha256_hex s h)
unfolding run
run-Begun sha256_hex until low k s [] d w b = (b, d)
run-Begun sha256_hex until low k s ((c, x) ∷ h) d (w, w', w'', early, rest) b =
    run-Begun sha256_hex until c.third k (step sha256_hex s (c, x)) h
      (step-Distinct sha256_hex s (c, x) d) rest
      (step-Begun sha256_hex until low k c x s d (w, w', w'') early b)

run-Timed :
    (sha256_hex : String → String) (until low : ℕ) (k : String) (s : Store) (h : History)
    → Distinct s
    → Within low until h
    → Timed low (get k s)
    → Timed (last_reading low h) (get k (run sha256_hex s h)) × Distinct (run sha256_hex s h)
unfolding run
run-Timed sha256_hex until low k s [] d w b = (b, d)
run-Timed sha256_hex until low k s ((c, x) ∷ h) d (w, w', w'', early, rest) b =
    run-Timed sha256_hex until c.third k (step sha256_hex s (c, x)) h
      (step-Distinct sha256_hex s (c, x) d) rest
      (step-Timed sha256_hex low k c x s d (w, w', w'') b)

claim-Begun :
    (sha256_hex : String → String) (until low : ℕ) (c : Clock) (owner p e : String) (ttl lease : ℕ)
    (s : Store)
    → Distinct s
    → c.second < until
    → Begun until low (get (serialize p e) s)
    → is_granted (claim sha256_hex c owner p e ttl lease s).1 ≡ false
unfolding claim judge settle
claim-Begun sha256_hex until low c owner p e ttl lease s d early b =
    refused (get (serialize p e) (current c.second s)) refl
      (Begun-current until low c.second (serialize p e) s d early b)
  where
    refused :
        (o : Option Entry)
        → get (serialize p e) (current c.second s) ≡ o
        → Begun until low o
        → is_granted
            (settle
              (serialize p e)
              c.first
              ttl
              (new_lease sha256_hex owner p e lease)
              (current c.second s)
              (judge c.first (get (serialize p e) (current c.second s)))).1
          ≡ false
    refused none g b = absurd b
    refused (some (seen u)) g b = absurd b
    refused (some (receipt r)) g b = rw g (ground arith)

-- At most one execution. Take any history of calls on an empty store, after which the receipt of an
-- event has left `admitting` (its work was started, completed or left uncertain) and is retained
-- until `until` at least. Whatever calls follow, with readings that do not go back and stay before
-- `until`, and whatever owner then claims the event before `until`: the claim is not granted.
pub no_second_execution :
    (sha256_hex : String → String) (h later : History) (until : ℕ) (c : Clock) (owner p e : String)
    (ttl lease : ℕ) {r : Receipt}
    → Within 0 until h
    → get (serialize p e) (run sha256_hex [] h) ≡ some (receipt r)
    → is_admitting r.phase ≡ false
    → until ≤ r.expires_at
    → Within (last_reading 0 h) until later
    → c.second < until
    → is_granted
        (claim sha256_hex c owner p e ttl lease (run sha256_hex (run sha256_hex [] h) later)).1
      ≡ false
unfolding get
no_second_execution sha256_hex h later until c owner p e ttl lease {r} w g begun kept w' early =
    let k = serialize p e in
    let (timed, d) = run-Timed sha256_hex until 0 k [] h tt w tt in
    let low = last_reading 0 h in
    let b : Begun until low (get k (run sha256_hex [] h)) =
      subst (Begun until low) (sym g) (begun, kept, subst (Timed low) g timed) in
    let (b', d') = run-Begun sha256_hex until low k (run sha256_hex [] h) later d w' b in
    claim-Begun sha256_hex until (last_reading low later) c owner p e ttl lease
      (run sha256_hex (run sha256_hex [] h) later) d' early b'
