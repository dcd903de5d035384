-- ===== src/RateLimit/Window.antt =====
-- The limiter's bound: how many requests one window lets through.
use hhc_line_function_bot.Prelude.{
  ℕ, ◌+◌, ◌≤◌, ◌<◌, String, ◌≡◌, refl, ◌∙◌, inl, inr, Bool, true, false, Option, none, some, arith,
  ◌==◌, eq_iff, eq_self, leb, if◌then◌else◌, Bool-cases,
}
use hhc_line_function_bot.JsMap.{JsMap, get, Distinct, get-set, set-Distinct}
use mathlib.Core.Bool.{false≢true}
use hhc_line_function_bot.RateLimit.{
  Config, Bucket, RateLimitResult, group_limit, bucket_or_new, hit, hit_group, hit_both,
}

-- The requests counted in a bucket, and whether it outlasts `until`.
abbrev pub used : Option Bucket → ℕ
used none = 0
used (some b) = b.count

abbrev pub Lasts : ℕ → Option Bucket → Type 0
Lasts until none = Unit
Lasts until (some b) = until ≤ b.reset_at

-- What one hit does to a bucket: it opens the key's bucket or adds one to it, and leaves the others alone.
hit_keeps :
    (config : Config) (from now until : ℕ) (key k : String) (limit : ℕ) (m : JsMap Bucket)
    → from ≤ now
    → until ≡ from + config.window_ms
    → Lasts until (get k m)
    → Lasts until (get k (hit config now key limit m).0)
      × (used (get k m) + (if key == k then 1 else 0) ≤ used (get k (hit config now key limit m).0))
unfolding hit
hit_keeps config from now until key k limit m after window lasts =
    rw get-set (elim (Bool-cases (key == k)) [
      | inl same ↦ rw same (at_key (get key m) (get k m) (ground (arith, eq_iff key k)) lasts)
      | inr other ↦ rw other (lasts, omega arith)
    ])
  where
    at_key :
        (o o' : Option Bucket)
        → o ≡ o'
        → Lasts until o'
        → (until ≤ (bucket_or_new config now o).reset_at)
          × (used o' + 1 ≤ (bucket_or_new config now o).count + 1)
    at_key none none e h = ground arith
    at_key none (some b) e h = ground arith
    at_key (some b) none e h = ground arith
    at_key (some b) (some b') e h = ground arith

hit_allows :
    (config : Config) (now : ℕ) (key : String) (limit : ℕ) (m : JsMap Bucket)
    → (hit config now key limit m).1.allowed ≡ true
    → used (get key m) + 1 ≤ limit
unfolding hit
hit_allows config now key limit m h = at_key (get key m) h
  where
    at_key :
        (o : Option Bucket)
        → leb ((bucket_or_new config now o).count + 1) limit ≡ true
        → used o + 1 ≤ limit
    at_key none h = ground arith
    at_key (some b) h = ground arith

-- A state of the buckets, one key of it, and what comes after it.
abbrev pub Goes : ℕ → String → JsMap Bucket → JsMap Bucket → Type 0
Goes until k m m' = Distinct m' × Lasts until (get k m') × (used (get k m) ≤ used (get k m'))

-- A request that is let through is counted, and there was room for it.
abbrev pub Fits : String → ℕ → JsMap Bucket → JsMap Bucket × RateLimitResult → Type 0
Fits k limit m r =
    r.1.allowed ≡ true → (used (get k m) + 1 ≤ used (get k r.0)) × (used (get k m) + 1 ≤ limit)

-- One of two results is taken, by whether the first let the request through.
pick-Goes :
    (until : ℕ) (k : String) (m : JsMap Bucket) (b : Bool) (x y : JsMap Bucket × RateLimitResult)
    → Goes until k m x.0
    → Goes until k m y.0
    → Goes until k m (if b then x else y).0
pick-Goes until k m true x y hx hy = hx
pick-Goes until k m false x y hx hy = hy

pick-Fits :
    (k : String) (limit : ℕ) (m : JsMap Bucket) (b : Bool) (x y : JsMap Bucket × RateLimitResult)
    → (b ≡ true → Fits k limit m x)
    → b ≡ y.1.allowed
    → Fits k limit m (if b then x else y)
pick-Fits k limit m true x y hx e ok = hx refl ok
pick-Fits k limit m false x y hx e ok = absurd (false≢true (e ∙ ok))

pick_through :
    (b : Bool) (x y : RateLimitResult)
    → b ≡ y.allowed
    → (if b then x else y).allowed ≡ true
    → b ≡ true
pick_through true x y e ok = refl
pick_through false x y e ok = e ∙ ok

module _ (config : Config) (from now until : ℕ) (k : String) (after : from ≤ now)
    (before : now < until) (window : until ≡ from + config.window_ms) where
  hit-Goes :
      (key : String) (limit : ℕ) (m : JsMap Bucket)
      → Distinct m
      → Lasts until (get k m)
      → Goes until k m (hit config now key limit m).0
  unfolding hit
  hit-Goes key limit m d h =
      let (lasts, more) = hit_keeps config from now until key k limit m after window h in
      (set-Distinct key _ m d, unfold hit in lasts, omega (arith, more))

  hit-Fits :
      (limit : ℕ) (m : JsMap Bucket)
      → Lasts until (get k m)
      → Fits k limit m (hit config now k limit m)
  hit-Fits limit m h ok =
      let more = (hit_keeps config from now until k k limit m after window h).1 in
      (ground (arith, eq_self k, more), hit_allows config now k limit m ok)

  group-Goes :
      (o : Option String) (r : JsMap Bucket × RateLimitResult)
      → Distinct r.0
      → Lasts until (get k r.0)
      → Goes until k r.0 (hit_group config now o r).0
  unfolding hit_group
  group-Goes none r d h = (d, h, omega arith)
  group-Goes (some key) r d h = hit-Goes key (group_limit config) r.0 d h

  -- The group's bucket lets a request through only if it has room.
  group-Fits :
      (r : JsMap Bucket × RateLimitResult)
      → Lasts until (get k r.0)
      → Fits k (group_limit config) r.0 (hit_group config now (some k) r)
  unfolding hit_group
  group-Fits r h ok =
      let g = hit config now k (group_limit config) r.0 in
      hit-Fits (group_limit config) r.0 h (pick_through g.1.allowed r.1 g.1 refl ok)

  pub both-Goes :
      (requester : String) (group : Option String) (m : JsMap Bucket)
      → Distinct m
      → Lasts until (get k m)
      → Goes until k m (hit_both config now requester group m).0
  unfolding hit_both
  both-Goes requester group m d h =
      let r = hit config now requester config.max_requests m in
      let (d1, h1, u1) = hit-Goes requester config.max_requests m d h in
      let (d2, h2, u2) = group-Goes group r d1 h1 in
      pick-Goes until k m r.1.allowed (hit_group config now group r) r
        (d2, h2, omega (arith, u1, u2)) (d1, h1, u1)

  pub requester-Fits :
      (group : Option String) (m : JsMap Bucket)
      → Distinct m
      → Lasts until (get k m)
      → Fits k config.max_requests m (hit_both config now k group m)
  unfolding hit_both
  requester-Fits group m d h =
      let r = hit config now k config.max_requests m in
      let (d1, h1, u1) = hit-Goes k config.max_requests m d h in
      let (d2, h2, u2) = group-Goes group r d1 h1 in
      pick-Fits k config.max_requests m r.1.allowed (hit_group config now group r) r
        (λ through ok.
          (let (counted, room) = hit-Fits config.max_requests m h through in
            (omega (arith, counted, u2), room)))
        refl

  pub chat-Fits :
      (requester : String) (m : JsMap Bucket)
      → Distinct m
      → Lasts until (get k m)
      → Fits k (group_limit config) m (hit_both config now requester (some k) m)
  unfolding hit_both
  chat-Fits requester m d h =
      let r = hit config now requester config.max_requests m in
      let (d1, h1, u1) = hit-Goes requester config.max_requests m d h in
      pick-Fits k (group_limit config) m r.1.allowed (hit_group config now (some k) r) r
        (λ through ok.
          (let (counted, room) = group-Fits r h1 ok in
            (omega (arith, counted, u1), omega (arith, room, u1))))
        refl
