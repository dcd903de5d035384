-- ===== src/InviteCodes/Spent.antt =====
-- A registration invite code lets one person in, and once.
use hhc_line_function_bot.Prelude.{
  ℕ, ◌*◌, ◌≤◌, max, String, ◌≡◌, refl, ◌∙◌, ◌≢◌, false, Option, none, some, List, [], ◌∷◌, arith,
  eq_iff, eq_self,
}
use hhc_line_function_bot.JsMap.{JsMap, get, get-set_other, get-delete, get-delete_self}
use hhc_line_function_bot.Redis.{Item, Redis, IsLawful, absent-later}
use hhc_line_function_bot.InviteCodes.{
  Input, Record, Codec, invite_code_key, new_record, create_code, consume_record, consume_code,
  redis_code_key, redis_create_code, redis_consume_found, redis_consume_code,
}

pub data Call : Type 0 where
  creates : Input → String → ℕ → Call
  consumes : String → String → ℕ → Call

abbrev pub time_of : Call → ℕ
time_of (creates input code now) = now
time_of (consumes profile_name code now) = now

-- No call creates a code under the key, of the keys that `key` gives a profile and a code.
abbrev pub NoneCreates : (String → String → String) → String → List Call → Type 0
NoneCreates key k [] = Unit
NoneCreates key k (creates input code now ∷ cs) =
    (key input.profile_name code ≢ k) × NoneCreates key k cs
NoneCreates key k (consumes profile_name code now ∷ cs) = NoneCreates key k cs

-- The calls come one after the other, from `low` to `high`.
abbrev pub InOrder : ℕ → List Call → ℕ → Type 0
InOrder low [] high = low ≤ high
InOrder low (c ∷ cs) high = (low ≤ time_of c) × InOrder (time_of c) cs high

-- The calls to a store on Redis, each after the reading of the store's own clock that it makes.
abbrev pub calls_of : List (ℕ × Call) → List Call
calls_of [] = []
calls_of ((own, c) ∷ cs) = c ∷ calls_of cs

module _ (sha256_hex : String → String) where
  unfoldable pub step : JsMap Record → Call → JsMap Record
  step m (creates input code now) = (create_code sha256_hex input code now m).0
  step m (consumes profile_name code now) = (consume_code sha256_hex profile_name code now m).0

  unfoldable pub run : JsMap Record → List Call → JsMap Record
  run m [] = m
  run m (c ∷ cs) = run (step m c) cs

  consume_absent :
      (j k : String) (now : ℕ) (o : Option Record) (m : JsMap Record)
      → get k m ≡ none
      → get k (consume_record sha256_hex j now o m).0 ≡ none
  unfolding consume_record
  consume_absent j k now none m g = g
  consume_absent j k now (some q) m g = ground (arith, get-delete j k m)

  stays_absent :
      (k : String) (m : JsMap Record) (cs : List Call)
      → NoneCreates (invite_code_key sha256_hex) k cs
      → get k m ≡ none
      → get k (run m cs) ≡ none
  unfolding run step create_code consume_code
  stays_absent k m [] h g = g
  stays_absent k m (creates input code now ∷ cs) (h, hs) g =
      stays_absent k (step m (creates input code now)) cs hs (
        get-set_other (invite_code_key sha256_hex input.profile_name code) k
          (new_record sha256_hex input now) m h
        ∙ g)
  stays_absent k m (consumes profile_name code now ∷ cs) hs g =
      stays_absent k (step m (consumes profile_name code now)) cs hs
        (consume_absent (invite_code_key sha256_hex profile_name code) k now _ m g)

  consume_deletes :
      (k : String) (now : ℕ) (o : Option Record) (m : JsMap Record)
      → get k m ≡ o
      → get k (consume_record sha256_hex k now o m).0 ≡ none
  unfolding consume_record
  consume_deletes k now none m h = h
  consume_deletes k now (some q) m h = get-delete_self k m

  -- A code is used once, whatever `consume` answered. After a `consume` of a code and any calls that
  -- follow, none of which creates a code under the same key, `consume` of it answers false.
  pub spent_once :
      (profile_name code : String) (now later : ℕ) (m : JsMap Record) (cs : List Call)
      → NoneCreates (invite_code_key sha256_hex) (invite_code_key sha256_hex profile_name code) cs
      → let m' = run (consume_code sha256_hex profile_name code now m).0 cs in
        consume_code sha256_hex profile_name code later m' ≡ (m', false)
  unfolding consume_code
  spent_once profile_name code now later m cs fresh =
      let k = invite_code_key sha256_hex profile_name code in
      let m' = run (consume_code sha256_hex profile_name code now m).0 cs in
      let gone : get k m' ≡ none =
        stays_absent k (consume_code sha256_hex profile_name code now m).0 cs fresh
          (consume_deletes k now (get k m) m refl) in
      rw gone (unfold consume_record in refl)

  module _ (r : Redis) (law : IsLawful r) (codec : Codec) (prefix : String) where
    abbrev key_of : String → String → String
    key_of = redis_code_key sha256_hex r codec prefix

    unfoldable pub redis_step : r.State → ℕ × Call → r.State
    redis_step s (own, creates input code now) =
        (redis_create_code sha256_hex r codec prefix input code own now s).0
    redis_step s (own, consumes profile_name code now) =
        (redis_consume_code sha256_hex r codec prefix profile_name code own now s).0

    unfoldable pub redis_run : r.State → List (ℕ × Call) → r.State
    redis_run s [] = s
    redis_run s (c ∷ cs) = redis_run (redis_step s c) cs

    redis_consume_absent :
        (j k profile_name : String) (own now : ℕ) (o : Option Item) (s : r.State)
        → r.read s now k ≡ none
        → r.read (redis_consume_found sha256_hex r codec prefix j profile_name own o s).0 now k
          ≡ none
    unfolding redis_consume_found
    redis_consume_absent j k profile_name own now none s g = g
    redis_consume_absent j k profile_name own now (some (v, until)) s g =
        ground (arith, law.read-del s j now k)

    redis_stays_absent :
        (k : String) (low high : ℕ) (s : r.State) (cs : List (ℕ × Call))
        → NoneCreates key_of k (calls_of cs)
        → InOrder low (calls_of cs) high
        → r.read s low k ≡ none
        → r.read (redis_run s cs) high k ≡ none
    unfolding redis_run redis_step redis_create_code redis_consume_code
    redis_stays_absent k low high s [] h le g = absent-later r law s low high k le g
    redis_stays_absent k low high s ((own, creates input code now) ∷ cs) (h, hs) (le, os) g =
        let ttl = max 1 (input.ttl_minutes * 60) * 1000 in
        let v = codec.encode (new_record sha256_hex input own) in
        redis_stays_absent k now high (redis_step s (own, creates input code now)) cs hs os (
          law.read-psetex s now (key_of input.profile_name code) ttl v k (omega arith)
          ∙ ground (
            arith,
            eq_iff (key_of input.profile_name code) k,
            absent-later r law s low now k le g,
          ))
    redis_stays_absent k low high s ((own, consumes profile_name code now) ∷ cs) hs (le, os) g =
        redis_stays_absent k now high (redis_step s (own, consumes profile_name code now)) cs hs os
          (redis_consume_absent (key_of profile_name code) k profile_name own now _ s
            (absent-later r law s low now k le g))

    redis_consume_deletes :
        (k profile_name : String) (own now : ℕ) (o : Option Item) (s : r.State)
        → r.read s now k ≡ o
        → r.read (redis_consume_found sha256_hex r codec prefix k profile_name own o s).0 now k
          ≡ none
    unfolding redis_consume_found
    redis_consume_deletes k profile_name own now none s h = h
    redis_consume_deletes k profile_name own now (some (v, until)) s h =
        law.read-del s k now k ∙ ground (arith, eq_self k)

    -- On a Redis server that keeps to the documented behaviour of the commands a code is used once too:
    -- after a `consume` of a code and any calls that follow at times of the server that do not go back, none of which
    -- creates a code under the same key, `consume` of it answers false.
    pub redis_spent_once :
        (profile_name code : String) (own now again later : ℕ) (s : r.State) (cs : List (ℕ × Call))
        → NoneCreates key_of (key_of profile_name code) (calls_of cs)
        → InOrder now (calls_of cs) later
        → let s' =
            redis_run
              (redis_consume_code sha256_hex r codec prefix profile_name code own now s).0
              cs in
          redis_consume_code sha256_hex r codec prefix profile_name code again later s'
          ≡ (s', false)
    unfolding redis_consume_code
    redis_spent_once profile_name code own now again later s cs fresh order =
        let k = key_of profile_name code in
        let s' =
          redis_run (redis_consume_code sha256_hex r codec prefix profile_name code own now s).0
            cs in
        let gone : r.read s' later k ≡ none =
          redis_stays_absent k now later
            (redis_consume_code sha256_hex r codec prefix profile_name code own now s).0 cs fresh
            order (redis_consume_deletes k profile_name own now (r.read s now k) s refl) in
        rw gone (unfold redis_consume_found in refl)
