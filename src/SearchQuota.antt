-- ===== src/SearchQuota.antt =====
-- The daily quota of public searches, src/state/public-search-quota.ts: the script `RESERVE` and what
-- decides before it. `digest` is the HMAC in hexadecimal, `day_of` the first ten characters of
-- `toISOString`, `start_of` the parsed midnight of such a day, and `show` and `number_of` are Redis's
-- decimal texts of numbers. `now` is the reading of the clock, which the server is taken to share.
pub mod Daily
mod Examples
use Prim.Native.String.{◌++◌}
use hhc_line_function_bot.Prelude.{
  ℕ, ◌+◌, ◌-◌, String, Bool, true, false, not, ◌&&◌, ◌||◌, Option, none, some, ◌==◌, leb,
  if◌then◌else◌,
}
use hhc_line_function_bot.Line.{Source, present}
use hhc_line_function_bot.Redis.{Item, Redis}

-- The fields of `SearchSettingsInput` that are read.
pub record Settings : Type 0 where
  pub enabled : Bool
  pub direct_daily_limit : ℕ
  pub group_daily_limit : ℕ

pub record Keys : Type 0 where
  pub counter : String
  pub event : String
  pub today : String
  pub yesterday : String

pub record Texts : Type 0 where
  pub digest : String → String
  pub day_of : ℕ → String
  pub start_of : String → ℕ
  pub show : ℕ → String
  pub number_of : String → ℕ

abbrev pub number_at : Texts → Option Item → ℕ
number_at t none = 0
number_at t (some (text, until)) = t.number_of text

module _ (r : Redis) (t : Texts) where
  -- The count that is used so far, which is written if there is none.
  unfoldable pub used_so_far : ℕ → Keys → Option Item → r.State → r.State × ℕ
  used_so_far now keys (some (text, until)) s = (s, t.number_of text)
  used_so_far now keys none s =
      let used =
        number_at t (r.read s now keys.today) + number_at t (r.read s now keys.yesterday) in
      (r.psetex s now keys.counter 172800000 (t.show used), used)

  -- `INCR` with `EXPIRE` of the counter, after the event is noted.
  unfoldable pub take_one : ℕ → Keys → ℕ → r.State × ℕ → r.State × Bool
  take_one now keys limit (s, used) = if leb limit used then (s, false) else (
    r.psetex (r.psetex s now keys.event 172800000 "1") now keys.counter 172800000
        (t.show (used + 1)),
    true,
  )

  unfoldable pub reserve_unseen : ℕ → Keys → ℕ → Option Item → r.State → r.State × Bool
  unfolding take_one used_so_far
  reserve_unseen now keys limit (some seen) s = (s, false)
  reserve_unseen now keys limit none s =
      take_one now keys limit (used_so_far now keys (r.read s now keys.counter) s)

  unfoldable pub reserve_script : ℕ → Keys → ℕ → r.State → r.State × Bool
  unfolding reserve_unseen
  reserve_script now keys limit s = reserve_unseen now keys limit (r.read s now keys.event) s

  -- Whom the search counts for.
  abbrev pub group_subject : Option String → Option String
  group_subject none = none
  group_subject (some id) = some ("group:" ++ id)

  abbrev pub subject_of : Source → String → Option String
  subject_of source user_id =
      if source.kind == "user"
      then some ("user:" ++ user_id)
      else if source.kind == "group"
      then group_subject (present source.group_id)
      else none

  abbrev pub key_prefix : String → String → String
  key_prefix prefix profile = prefix ++ ":public-search:" ++ t.digest profile

  unfoldable pub keys_of : String → String → String → String → ℕ → Keys
  keys_of prefix profile subject event_id now =
      let p = key_prefix prefix profile in
      let day = t.day_of (now + 28800000) in
      record {
        counter = p ++ ":taipei:" ++ day ++ ":" ++ t.digest subject;
        event = p ++ ":event:" ++ t.digest event_id;
        today = p ++ ":" ++ day;
        yesterday = p ++ ":" ++ t.day_of (t.start_of day - 86400000);
      }

  abbrev pub limit_of : Source → Settings → ℕ
  limit_of source settings =
      if source.kind == "user" then settings.direct_daily_limit else settings.group_daily_limit

  -- `settings` is none when it cannot be read.
  unfoldable pub reserve_subject :
      String
      → String
      → Source
      → String
      → Option Settings
      → ℕ
      → Option String
      → r.State
      → r.State × Bool
  unfolding reserve_script keys_of
  reserve_subject prefix profile source event_id settings now none s = (s, false)
  reserve_subject prefix profile source event_id none now (some subject) s = (s, false)
  reserve_subject prefix profile source event_id (some settings) now (some subject) s =
      let limit = limit_of source settings in
      if not settings.enabled || leb limit 0 || leb 10001 limit
      then (s, false)
      else reserve_script now (keys_of prefix profile subject event_id now) limit s

  abbrev pub subject_for : Source → Option String → Option String
  subject_for source none = none
  subject_for source (some user_id) = subject_of source user_id

  unfoldable pub reserve :
      String → String → Source → String → Option Settings → ℕ → r.State → r.State × Bool
  unfolding reserve_subject
  reserve prefix profile source event_id settings now s =
      if not (profile == "helper") || event_id == ""
      then (s, false)
      else reserve_subject prefix profile source event_id settings now
          (subject_for source (present source.user_id)) s
