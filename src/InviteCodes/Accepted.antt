-- ===== src/InviteCodes/Accepted.antt =====
-- A registration invite code is accepted until it expires, on Redis.
use hhc_line_function_bot.Prelude.{
  ℕ, ◌+◌, ◌*◌, ◌≤◌, max, String, ◌≡◌, ◌∙◌, ◌≢◌, Option, none, some, List, [], ◌∷◌, arith, eq_iff,
  eq_self, ltb, ◌&&◌,
}
use hhc_line_function_bot.Redis.{Item, Redis, IsLawful, Ends, Ends-later}
use hhc_line_function_bot.InviteCodes.{
  Input, Record, Codec, new_record, redis_code_key, redis_create_code, redis_consume_found,
  redis_consume_code,
}
use hhc_line_function_bot.InviteCodes.Spent.{
  Call, creates, consumes, InOrder, calls_of, redis_step, redis_run,
}

-- No call is about the key.
abbrev pub NoneTouches : (String → String → String) → String → List Call → Type 0
NoneTouches key k [] = Unit
NoneTouches key k (creates input code now ∷ cs) =
    (key input.profile_name code ≢ k) × NoneTouches key k cs
NoneTouches key k (consumes profile_name code now ∷ cs) =
    (key profile_name code ≢ k) × NoneTouches key k cs

module _ (sha256_hex : String → String) (r : Redis) (law : IsLawful r) (codec : Codec)
    (prefix : String) where
  abbrev key_of : String → String → String
  key_of = redis_code_key sha256_hex r codec prefix

  Ends-consume_other :
      (j k profile_name : String) (own now : ℕ) (o : Option Item) (s : r.State) (i : Item)
      → j ≢ k
      → Ends r law s now k i
      → Ends r law (redis_consume_found sha256_hex r codec prefix j profile_name own o s).0 now k i
  unfolding redis_consume_found
  Ends-consume_other j k profile_name own now none s i differs h = h
  Ends-consume_other j k profile_name own now (some (v, until)) s i differs h =
      law.read-del s j now k ∙ ground (arith, eq_iff j k)

  Ends-run :
      (k : String) (i : Item) (low high : ℕ) (s : r.State) (cs : List (ℕ × Call))
      → NoneTouches key_of k (calls_of cs)
      → InOrder low (calls_of cs) high
      → Ends r law s low k i
      → Ends r law (redis_run sha256_hex r law codec prefix s cs) high k i
  unfolding redis_run redis_step redis_create_code redis_consume_code
  Ends-run k i low high s [] h le e = Ends-later r law s low high k i le e
  Ends-run k i low high s ((own, creates input code now) ∷ cs) (h, hs) (le, os) e =
      let ttl = max 1 (input.ttl_minutes * 60) * 1000 in
      let v = codec.encode (new_record sha256_hex input own) in
      Ends-run k i now high
        (redis_step sha256_hex r law codec prefix s (own, creates input code now)) cs hs os
        (law.read-psetex s now (key_of input.profile_name code) ttl v k (omega arith)
          ∙ ground (
            arith,
            eq_iff (key_of input.profile_name code) k,
            Ends-later r law s low now k i le e,
          ))
  Ends-run k i low high s ((own, consumes profile_name code now) ∷ cs) (h, hs) (le, os) e =
      Ends-run k i now high
        (redis_step sha256_hex r law codec prefix s (own, consumes profile_name code now)) cs hs os
        (Ends-consume_other (key_of profile_name code) k profile_name own now _ s i h
          (Ends-later r law s low now k i le e))

  answer :
      (k : String) (input : Input) (made asked later until : ℕ) (s : r.State)
      → ((q : Record) → codec.decode (codec.encode q) ≡ some q)
      → Ends r law s later k (codec.encode (new_record sha256_hex input made), until)
      → (redis_consume_found sha256_hex r codec prefix k input.profile_name asked
          (r.read s later k)
          s).1
        ≡ (ltb later until && ltb asked (made + input.ttl_minutes * 60 * 1000))
  unfolding redis_consume_found
  answer k input made asked later until s trip e =
      rw e (ground (arith, trip (new_record sha256_hex input made), eq_self input.profile_name))

  -- A code is accepted until it expires, and no longer. Of a server that keeps to the documented behaviour
  -- of the commands, and records that can be read back: when a code is created for a minute or more, and
  -- then calls follow at times of the server that do not go back, none of them about the code's key,
  -- `consume` of it in the same profile answers whether its time is not over, by the server's clock (from
  -- the server's time of `create`) and by the store's own (from its own).
  pub accepted_until :
      (input : Input) (code : String) (made now asked later : ℕ) (s : r.State)
      (cs : List (ℕ × Call))
      → ((q : Record) → codec.decode (codec.encode q) ≡ some q)
      → 1 ≤ input.ttl_minutes
      → NoneTouches key_of (key_of input.profile_name code) (calls_of cs)
      → InOrder now (calls_of cs) later
      → let (s', created) = redis_create_code sha256_hex r codec prefix input code made now s in
        (redis_consume_code sha256_hex r codec prefix input.profile_name code asked later
          (redis_run sha256_hex r law codec prefix s' cs)).1
        ≡ (ltb later (now + input.ttl_minutes * 60 * 1000) && ltb asked created.expires_at)
  unfolding redis_consume_code redis_create_code
  accepted_until input code made now asked later s cs trip pos spared order =
      let k = key_of input.profile_name code in
      let until = now + input.ttl_minutes * 60 * 1000 in
      let v = codec.encode (new_record sha256_hex input made) in
      let s' = r.psetex s now k (max 1 (input.ttl_minutes * 60) * 1000) v in
      let e : Ends r law s' now k (v, until) =
        law.read-psetex s now k (max 1 (input.ttl_minutes * 60) * 1000) v k (omega arith)
        ∙ ground (arith, eq_self k) in
      answer k input made asked later until _ trip
        (Ends-run k (v, until) now later s' cs spared order e)
