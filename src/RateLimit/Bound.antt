-- ===== src/RateLimit/Bound.antt =====
-- The limiter's promise over a history of checks.
use hhc_line_function_bot.Prelude.{
  ℕ, suc, ◌+◌, ◌-◌, ◌≤◌, ◌<◌, String, ◌≡◌, refl, sym, ◌∙◌, Bool, true, false, ◌&&◌, Option, none,
  some, List, [], ◌∷◌, arith, ◌==◌, eq_iff, if◌then◌else◌,
}
use hhc_line_function_bot.JsMap.{JsMap, get, sweep, drop_if, Distinct, get-sweep, sweep-Distinct}
use mathlib.Core.Path.{subst}
use mathlib.Core.Bool.{false≢true}
use hhc_line_function_bot.RateLimit.{
  Config, Bucket, RateLimitResult, Check, group_limit, bucket_keys, hit_both, is_over, check_keys,
  check,
}
use hhc_line_function_bot.RateLimit.Window.{
  used, Lasts, Goes, Fits, both-Goes, requester-Fits, chat-Fits,
}

-- Whether a request is counted in a bucket: as its requester's, or as its chat's.
abbrev pub is_requester : String → Option (String × Option String) → Bool
is_requester k none = false
is_requester k (some (requester, group)) = requester == k

abbrev pub is_chat : String → Option (String × Option String) → Bool
is_chat k none = false
is_chat k (some (requester, none)) = false
is_chat k (some (requester, some group)) = group == k

-- How many of the checks that `p` picks let the request through.
unfoldable pub let_through : (Check → Bool) → Config → JsMap Bucket → List (ℕ × Check) → ℕ
let_through p config m [] = 0
let_through p config m ((now, c) ∷ cs) =
    let r = check config now c m in
    let rest = let_through p config r.0 cs in if p c && r.1.allowed then suc rest else rest

-- All the checks are made within a window.
abbrev pub Within : ℕ → ℕ → List (ℕ × Check) → Type 0
Within from until [] = Unit
Within from until ((now, c) ∷ cs) = ((from ≤ now) × (now < until)) × Within from until cs

get-sweep_lasting :
    (now until : ℕ) (k : String) (m : JsMap Bucket)
    → now < until
    → Distinct m
    → Lasts until (get k m)
    → get k (sweep (is_over now) m) ≡ get k m
get-sweep_lasting now until k m early d h = get-sweep (is_over now) k m d ∙ stays (get k m) h
  where
    stays : (o : Option Bucket) → Lasts until o → drop_if (is_over now) o ≡ o
    stays none h = refl
    stays (some b) h = ground arith

swept-Fits :
    (k : String) (limit : ℕ) (m swept : JsMap Bucket) (r : JsMap Bucket × RateLimitResult)
    → get k swept ≡ get k m
    → Fits k limit swept r
    → Fits k limit m r
swept-Fits k limit m swept r e fits ok =
    subst (λ b. (used b + 1 ≤ used (get k r.0)) × (used b + 1 ≤ limit)) e (fits ok)

module _ (config : Config) (from now until : ℕ) (k : String) (after : from ≤ now)
    (before : now < until) (window : until ≡ from + config.window_ms) where
  keys_go :
      (o : Option (String × Option String)) (m : JsMap Bucket)
      → Distinct m
      → Lasts until (get k m)
      → Goes until k m (check_keys config now o m).0
  unfolding check_keys
  keys_go none m d h = (d, h, omega arith)
  keys_go (some (requester, group)) m d h =
      let e = get-sweep_lasting now until k m before d h in
      let (d', h', u) =
        both-Goes config from now until k after before window requester group
          (sweep (is_over now) m) (sweep-Distinct (is_over now) m d)
          (subst (Lasts until) (sym e) h) in
      (
        d',
        h',
        subst
            (λ b.
              used b ≤ used (get k (hit_both config now requester group (sweep (is_over now) m)).0))
            e u,
      )

  requester_keys_fit :
      (o : Option (String × Option String)) (m : JsMap Bucket)
      → Distinct m
      → Lasts until (get k m)
      → is_requester k o ≡ true
      → Fits k config.max_requests m (check_keys config now o m)
  unfolding check_keys
  requester_keys_fit none m d h mine = absurd (false≢true mine)
  requester_keys_fit (some (requester, group)) m d h mine =
      let e = get-sweep_lasting now until k m before d h in
      let swept = sweep (is_over now) m in
      subst (λ q. Fits k config.max_requests m (hit_both config now q group swept))
        (ground (arith, eq_iff requester k))
        (swept-Fits k config.max_requests m swept (hit_both config now k group swept) e (
          requester-Fits config from now until k after before window group swept
            (sweep-Distinct (is_over now) m d) (subst (Lasts until) (sym e) h)))

  chat_keys_fit :
      (o : Option (String × Option String)) (m : JsMap Bucket)
      → Distinct m
      → Lasts until (get k m)
      → is_chat k o ≡ true
      → Fits k (group_limit config) m (check_keys config now o m)
  unfolding check_keys
  chat_keys_fit none m d h mine = absurd (false≢true mine)
  chat_keys_fit (some (requester, none)) m d h mine = absurd (false≢true mine)
  chat_keys_fit (some (requester, some group)) m d h mine =
      let e = get-sweep_lasting now until k m before d h in
      let swept = sweep (is_over now) m in
      subst (λ q. Fits k (group_limit config) m (hit_both config now requester (some q) swept))
        (ground (arith, eq_iff group k))
        (swept-Fits k (group_limit config) m swept (hit_both config now requester (some k) swept) e
          (chat-Fits config from now until k after before window requester swept
            (sweep-Distinct (is_over now) m d) (subst (Lasts until) (sym e) h)))

-- What holds of one check bounds a history of them.
bounded_run :
    (config : Config) (from until : ℕ) (k : String) (limit : ℕ) (p : Check → Bool)
    (m : JsMap Bucket) (cs : List (ℕ × Check))
    → ((now : ℕ) (c : Check) (m : JsMap Bucket)
        → (from ≤ now) × (now < until)
        → Distinct m
        → Lasts until (get k m)
        → Goes until k m (check config now c m).0
          × (p c ≡ true → Fits k limit m (check config now c m)))
    → Distinct m
    → Lasts until (get k m)
    → Within from until cs
    → let_through p config m cs ≤ limit - used (get k m)
unfolding let_through
bounded_run config from until k limit p m [] one d h w = omega arith
bounded_run config from until k limit p m ((now, c) ∷ cs) one d h (w, ws) =
    let ((d', h', more), fits) = one now c m w d h in
    let r = check config now c m in
    let rest = bounded_run config from until k limit p r.0 cs one d' h' ws in
    counted (p c) r.1.allowed (λ a b. fits a b) more rest
  where
    counted :
        (a b : Bool) {u v n : ℕ}
        → (a ≡ true → b ≡ true → (u + 1 ≤ v) × (u + 1 ≤ limit))
        → u ≤ v
        → n ≤ limit - v
        → (if a && b then suc n else n) ≤ limit - u
    counted true true f more rest = let (x, y) = f refl refl in omega arith
    counted true false f more rest = omega arith
    counted false b f more rest = omega arith

enabled_check :
    (config : Config) (now : ℕ) (c : Check) (m : JsMap Bucket)
    → config.enabled ≡ true
    → check_keys config now (bucket_keys c) m ≡ check config now c m
unfolding check
enabled_check config now c m on = rw on refl

-- A requester's limit. When the limiter is enabled and the requester's key has no bucket yet, then of the
-- checks that are made within one window's length, whatever others are made between them, at most
-- `maxRequests` of that requester's are let through.
pub requester_limit :
    (config : Config) (from : ℕ) (k : String) (m : JsMap Bucket) (cs : List (ℕ × Check))
    → config.enabled ≡ true
    → Distinct m
    → get k m ≡ none
    → Within from (from + config.window_ms) cs
    → let_through (λ c. is_requester k (bucket_keys c)) config m cs ≤ config.max_requests
requester_limit config from k m cs on d g w =
    let until = from + config.window_ms in
    let bound =
      bounded_run config from until k config.max_requests (λ c. is_requester k (bucket_keys c)) m cs
        (λ now c m (a, b) d h.
          subst
            (λ r.
              Goes until k m r.0
              × (is_requester k (bucket_keys c) ≡ true → Fits k config.max_requests m r))
            (enabled_check config now c m on)
            (
              keys_go config from now until k a b refl (bucket_keys c) m d h,
              requester_keys_fit config from now until k a b refl (bucket_keys c) m d h,
            ))
        d (rw g tt) w in
    omega (arith, bound)

-- A chat's limit. When the limiter is enabled and the chat's key has no bucket yet, then of the checks
-- that are made within one window's length, at most `groupMaxRequests` of that group's or room's, or the
-- larger of 100 and `maxRequests` without that setting, are let through, whoever sends them.
pub chat_limit :
    (config : Config) (from : ℕ) (k : String) (m : JsMap Bucket) (cs : List (ℕ × Check))
    → config.enabled ≡ true
    → Distinct m
    → get k m ≡ none
    → Within from (from + config.window_ms) cs
    → let_through (λ c. is_chat k (bucket_keys c)) config m cs ≤ group_limit config
chat_limit config from k m cs on d g w =
    let until = from + config.window_ms in
    let bound =
      bounded_run config from until k (group_limit config) (λ c. is_chat k (bucket_keys c)) m cs
        (λ now c m (a, b) d h.
          subst
            (λ r.
              Goes until k m r.0
              × (is_chat k (bucket_keys c) ≡ true → Fits k (group_limit config) m r))
            (enabled_check config now c m on)
            (
              keys_go config from now until k a b refl (bucket_keys c) m d h,
              chat_keys_fit config from now until k a b refl (bucket_keys c) m d h,
            ))
        d (rw g tt) w in
    omega (arith, bound)
