-- ===== src/RateLimit.antt =====
-- The in-memory rate limiter, src/rate-limit.ts: fixed windows of requests, for each requester and for
-- each group or room. Times are milliseconds.
pub mod Window
pub mod Bound
mod Examples
use hhc_line_function_bot.Prelude.{
  ◌^◌, ℕ, zero, suc, ◌+◌, ◌-◌, ◌*◌, ◌≤◌, ◌<◌, min, max, String, ◌≡◌, refl, sym, ap, ◌∙◌, ◌≢◌, ◌↔◌,
  ◌⊎◌, inl, inr, Bool, true, false, not, ◌&&◌, ◌||◌, Option, none, some, List, [], ◌∷◌, map, arith,
  ◌==◌, eq_iff, eq_self, leb, ltb, if◌then◌else◌, Option-cases, Bool-cases, same_text,
  same_text_iff, is_blank, is_empty, to_bool, length, take, select, find, any, All, length-take,
  length-append, All-select, All-take, find-passes, ltb→lt, lt→ltb, leb→le, le→leb, lt→not_leb,
}
use hhc_line_function_bot.Line.{Source, present}
use hhc_line_function_bot.JsMap.{JsMap, get, set, sweep}
use Prim.Native.String.{◌++◌}

pub record Config : Type 0 where
  pub group_max_requests : Option ℕ
  pub enabled : Bool
  pub window_ms : ℕ
  pub max_requests : ℕ

pub record Bucket : Type 0 where
  pub count : ℕ
  pub reset_at : ℕ
  pub notified : Bool

pub record RateLimitResult : Type 0 where
  pub allowed : Bool
  pub remaining : ℕ
  pub reset_at : ℕ
  pub should_notify : Bool

pub record Check : Type 0 where
  pub profile_name : String
  pub source : Source

unfoldable pub group_limit : Config → ℕ
group_limit config = elim config.group_max_requests [
  | some n ↦ n
  | none ↦ max 100 config.max_requests
]

abbrev or_anonymous : Option String → String
or_anonymous none = "anonymous"
or_anonymous (some id) = id

abbrev user_keys : String → Option String → Option (String × Option String)
user_keys profile_name none = none
user_keys profile_name (some id) = some (profile_name ++ ":user:" ++ id, none)

abbrev chat_keys : String → String → Option String → Option String → Option (String × Option String)
chat_keys profile_name kind none user_id = none
chat_keys profile_name kind (some chat) user_id =
    let group = profile_name ++ ":" ++ kind ++ ":" ++ chat in
    some (group ++ ":requester:" ++ or_anonymous user_id, some group)

-- The requester's key, and the chat's where there is one.
unfoldable pub bucket_keys : Check → Option (String × Option String)
bucket_keys input =
    let source = input.source in
    if source.kind == "user"
    then user_keys input.profile_name (present source.user_id)
    else let chat =
        if source.kind == "group"
        then source.group_id
        else if source.kind == "room"
        then source.room_id
        else none in
      chat_keys input.profile_name source.kind (present chat) (present source.user_id)

unfoldable pub unrestricted : ℕ → RateLimitResult
unrestricted now = record {
  allowed = true;
  remaining = 2 ^ 53 - 1;
  reset_at = now;
  should_notify = false;
}

unfoldable pub unidentified : ℕ → RateLimitResult
unidentified now = record { allowed = false; remaining = 0; reset_at = now; should_notify = false }

abbrev pub bucket_or_new : Config → ℕ → Option Bucket → Bucket
bucket_or_new config now none = record {
  count = 0;
  reset_at = now + config.window_ms;
  notified = false;
}
bucket_or_new config now (some b) = b

unfoldable pub hit : Config → ℕ → String → ℕ → JsMap Bucket → JsMap Bucket × RateLimitResult
hit config now key limit m =
    let b = bucket_or_new config now (get key m) in
    let count = b.count + 1 in
    let is_allowed = leb count limit in
    let notify = not is_allowed && not b.notified in
    (
      set key (record { count = count; reset_at = b.reset_at; notified = b.notified || notify }) m,
      record {
        allowed = is_allowed;
        remaining = limit - count;
        reset_at = b.reset_at;
        should_notify = notify;
      },
    )

unfoldable pub hit_group :
    Config → ℕ → Option String → JsMap Bucket × RateLimitResult → JsMap Bucket × RateLimitResult
unfolding hit group_limit
hit_group config now none r = r
hit_group config now (some key) r =
    let g = hit config now key (group_limit config) r.0 in (g.0, if g.1.allowed then r.1 else g.1)

unfoldable pub hit_both :
    Config → ℕ → String → Option String → JsMap Bucket → JsMap Bucket × RateLimitResult
unfolding hit hit_group
hit_both config now requester group m =
    let r = hit config now requester config.max_requests m in
    let both = hit_group config now group r in if r.1.allowed then both else r

abbrev pub is_over : ℕ → Bucket → Bool
is_over now b = leb b.reset_at now

unfoldable pub check_keys :
    Config → ℕ → Option (String × Option String) → JsMap Bucket → JsMap Bucket × RateLimitResult
unfolding hit_both unidentified
check_keys config now none m = (m, unidentified now)
check_keys config now (some (requester, group)) m =
    hit_both config now requester group (sweep (is_over now) m)

unfoldable pub check : Config → ℕ → Check → JsMap Bucket → JsMap Bucket × RateLimitResult
unfolding check_keys unrestricted bucket_keys
check config now input m =
    let limited = check_keys config now (bucket_keys input) m in
    if not config.enabled then (m, unrestricted now) else limited
