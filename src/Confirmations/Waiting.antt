-- ===== src/Confirmations/Waiting.antt =====
-- A confirmation on Redis waits for its actor.
use hhc_line_function_bot.Prelude.{
  ℕ, ◌+◌, ◌*◌, ◌≤◌, ◌<◌, max, String, ◌≡◌, refl, ◌∙◌, ap, sym, ◌≢◌, ◌⊎◌, inl, inr, Option, none,
  some, List, [], ◌∷◌, arith, eq_iff, eq_self, Bool-cases, ◌==◌,
}
use mathlib.Core.Path.{subst}
use hhc_line_function_bot.JsMap.{drop_if}
use hhc_line_function_bot.Redis.{Item, Redis, IsLawful, Ends, Ends-later, has_passed}
use hhc_line_function_bot.Confirmations.{Request, CreateInput, new_request}
use hhc_line_function_bot.Confirmations.Once.{Call, creates, consumes}
use hhc_line_function_bot.Confirmations.OnRedis.{
  Codec, redis_confirmation_key, redis_create, redis_consume, consume_value, consume_decoded,
  consume_script, accept_text, accept_request,
}

String-same : (s t : String) → (s ≡ t) ⊎ (s ≢ t)
String-same s t = elim (Bool-cases (s == t)) [
  | inl e ↦ inl (ground (arith, eq_iff s t))
  | inr e ↦ inr (ground (arith, eq_iff s t))
]

module _ {N : Type 0} (sha256_hex : String → String) (r : Redis) (law : IsLawful r)
    (codec : Codec N) (prefix : String)
    (back : (q : Request N)
      → (codec.decode (codec.encode q) ≡ some q)
        × (codec.lua_decode (codec.encode q) ≡ some q)) where
  abbrev key_of : String → String → String
  key_of = redis_confirmation_key sha256_hex r codec prefix

  abbrev pub time_of : Call N → ℕ
  time_of (creates input id now) = now
  time_of (consumes id actor_user_id profile_name now) = now

  -- The calls come one after the other, from `low` to `high`.
  abbrev pub InOrder : ℕ → List (Call N) → ℕ → Type 0
  InOrder low [] high = low ≤ high
  InOrder low (c ∷ cs) high = (low ≤ time_of c) × InOrder (time_of c) cs high

  -- No call creates a confirmation under the key, and a call that would use it is by another actor.
  abbrev pub NoneTakes : String → String → List (Call N) → Type 0
  NoneTakes k actor [] = Unit
  NoneTakes k actor (creates input id now ∷ cs) =
      (key_of input.profile_name id ≢ k) × NoneTakes k actor cs
  NoneTakes k actor (consumes id actor_user_id profile_name now ∷ cs) =
      ((key_of profile_name id ≢ k) ⊎ (actor_user_id ≢ actor)) × NoneTakes k actor cs

  -- A call, after the reading of the store's own clock that it makes.
  abbrev pub calls_of : List (ℕ × Call N) → List (Call N)
  calls_of [] = []
  calls_of ((own, c) ∷ cs) = c ∷ calls_of cs

  unfoldable pub redis_step : r.State → ℕ × Call N → r.State
  redis_step s (own, creates input id now) =
      (redis_create sha256_hex r codec prefix input id own now s).0
  redis_step s (own, consumes id actor_user_id profile_name now) =
      (redis_consume sha256_hex r codec prefix id actor_user_id profile_name own now s).0

  unfoldable pub redis_run : r.State → List (ℕ × Call N) → r.State
  redis_run s [] = s
  redis_run s (c ∷ cs) = redis_run (redis_step s c) cs

  -- The script deletes nothing but its own key.
  Ends-decoded_other :
      (j k profile_name actor_user_id value : String) (now : ℕ) (o : Option (Request N))
      (s : r.State) (i : Item)
      → j ≢ k
      → Ends r law s now k i
      → Ends r law
          (consume_decoded sha256_hex r codec prefix j profile_name actor_user_id value o s).0
          now
          k
          i
  unfolding consume_decoded
  Ends-decoded_other j k profile_name actor_user_id value now none s i differs h = h
  Ends-decoded_other j k profile_name actor_user_id value now (some q) s i differs h =
      ground (arith, law.read-del s j now k, eq_iff j k)

  Ends-value_other :
      (j k profile_name actor_user_id : String) (now : ℕ) (o : Option Item) (s : r.State) (i : Item)
      → j ≢ k
      → Ends r law s now k i
      → Ends r law
          (consume_value sha256_hex r codec prefix j profile_name actor_user_id o s).0
          now
          k
          i
  unfolding consume_value
  Ends-value_other j k profile_name actor_user_id now none s i differs h = h
  Ends-value_other j k profile_name actor_user_id now (some (v, until)) s i differs h =
      Ends-decoded_other j k profile_name actor_user_id v now (codec.lua_decode v) s i differs h

  -- For another actor the script changes nothing.
  refused :
      (k profile_name actor_user_id : String) (now until : ℕ) (q : Request N) (s : r.State)
      → actor_user_id ≢ q.actor_user_id
      → (consume_value sha256_hex r codec prefix k profile_name actor_user_id
          (drop_if (has_passed now) (some (codec.encode q, until)))
          s).0
        ≡ s
  unfolding consume_value consume_decoded
  refused k profile_name actor_user_id now until q s differs =
      ground (arith, (back q).1, eq_iff q.actor_user_id actor_user_id)

  Ends-refused :
      (k profile_name actor_user_id : String) (now until : ℕ) (q : Request N) (s : r.State)
      → actor_user_id ≢ q.actor_user_id
      → Ends r law s now k (codec.encode q, until)
      → Ends r law
          (consume_script sha256_hex r codec prefix now k profile_name actor_user_id s).0
          now
          k
          (codec.encode q, until)
  unfolding consume_script
  Ends-refused k profile_name actor_user_id now until q s differs h =
      let same = refused k profile_name actor_user_id now until q s differs in
      ap
        (λ o.
          r.read (consume_value sha256_hex r codec prefix k profile_name actor_user_id o s).0 now k)
        h
      ∙ ap (λ s'. r.read s' now k) same
      ∙ h

  Ends-consume :
      (j k profile_name actor_user_id : String) (now until : ℕ) (q : Request N) (s : r.State)
      → (j ≢ k) ⊎ (actor_user_id ≢ q.actor_user_id)
      → Ends r law s now k (codec.encode q, until)
      → Ends r law
          (consume_script sha256_hex r codec prefix now j profile_name actor_user_id s).0
          now
          k
          (codec.encode q, until)
  unfolding consume_script
  Ends-consume j k profile_name actor_user_id now until q s (inl differs) h =
      Ends-value_other j k profile_name actor_user_id now (r.read s now j) s (codec.encode q, until)
        differs h
  Ends-consume j k profile_name actor_user_id now until q s (inr differs) h =
      elim (String-same j k) [
        | inl e ↦
            subst
              (λ x.
                Ends r law
                  (consume_script sha256_hex r codec prefix now x profile_name actor_user_id s).0
                  now k (codec.encode q, until))
              (sym e) (Ends-refused k profile_name actor_user_id now until q s differs h)
        | inr other ↦
            Ends-value_other j k profile_name actor_user_id now (r.read s now j) s
              (codec.encode q, until) other h
      ]

  Ends-run :
      (k : String) (q : Request N) (until low high : ℕ) (s : r.State) (cs : List (ℕ × Call N))
      → NoneTakes k q.actor_user_id (calls_of cs)
      → InOrder low (calls_of cs) high
      → Ends r law s low k (codec.encode q, until)
      → Ends r law (redis_run s cs) high k (codec.encode q, until)
  unfolding redis_run redis_step redis_create redis_consume
  Ends-run k q until low high s [] h le e =
      Ends-later r law s low high k (codec.encode q, until) le e
  Ends-run k q until low high s ((own, creates input id now) ∷ cs) (h, hs) (le, os) e =
      let ttl = max 1 (input.ttl_minutes * 60) * 1000 in
      let v = codec.encode (new_request input id own) in
      Ends-run k q until now high (redis_step s (own, creates input id now)) cs hs os (
        law.read-psetex s now (key_of input.profile_name id) ttl v k (omega arith)
        ∙ ground (
          arith,
          eq_iff (key_of input.profile_name id) k,
          Ends-later r law s low now k (codec.encode q, until) le e,
        ))
  Ends-run k q until low high s ((own, consumes id actor_user_id profile_name now) ∷ cs) (h, hs)
        (le, os) e =
      Ends-run k q until now high (redis_step s (own, consumes id actor_user_id profile_name now))
        cs hs os
        (Ends-consume (key_of profile_name id) k profile_name actor_user_id now until q s h
          (Ends-later r law s low now k (codec.encode q, until) le e))

  taken :
      (k : String) (own now until : ℕ) (q : Request N) (s : r.State)
      → now < until
      → own < q.expires_at
      → let (s', text) =
          consume_value sha256_hex r codec prefix k q.profile_name q.actor_user_id
            (drop_if (has_passed now) (some (codec.encode q, until)))
            s in
        (accept_text sha256_hex r codec prefix q.profile_name q.actor_user_id own text ≡ some q)
        × (r.read s' now k ≡ none)
  unfolding consume_value consume_decoded accept_text accept_request
  taken k own now until q s there early = (
    ground (arith, (back q).0, (back q).1, eq_self q.actor_user_id, eq_self q.profile_name),
    ground (
      arith,
      (back q).1,
      eq_self q.actor_user_id,
      eq_self q.profile_name,
      law.read-del s k now k,
      eq_self k,
    ),
  )

  -- A confirmation waits for its actor, and for one use. Of a server that keeps to the documented
  -- behaviour of the commands, and requests that can be read back: when a confirmation is created for a
  -- minute or more, and then calls follow at times of the server that do not go back, none of which
  -- creates one under its key or is a `consume` of it by its actor (any by other actors may be there),
  -- `consume` by the actor before its time is over, by the server's clock and by the store's, returns the
  -- request; and right after, `consume` of it returns none to every actor, and changes nothing.
  pub waits_for_actor :
      (input : CreateInput N) (id other_actor : String) (made now asked later again : ℕ)
      (s : r.State) (cs : List (ℕ × Call N))
      → 1 ≤ input.ttl_minutes
      → NoneTakes (key_of input.profile_name id) input.actor_user_id (calls_of cs)
      → InOrder now (calls_of cs) later
      → later < now + input.ttl_minutes * 60 * 1000
      → let (s', request) = redis_create sha256_hex r codec prefix input id made now s in
        asked < request.expires_at
        → let (s'', answer) =
            redis_consume sha256_hex r codec prefix id input.actor_user_id input.profile_name asked
              later
              (redis_run s' cs) in
          (answer ≡ some request)
          × (redis_consume sha256_hex r codec prefix id other_actor input.profile_name again later
                s''
              ≡ (s'', none))
  unfolding redis_create redis_consume consume_script new_request
  waits_for_actor input id other_actor made now asked later again s cs pos spared order there
        early =
      let k = key_of input.profile_name id in
      let q = new_request input id made in
      let until = now + input.ttl_minutes * 60 * 1000 in
      let s' = r.psetex s now k (max 1 (input.ttl_minutes * 60) * 1000) (codec.encode q) in
      let e : Ends r law s' now k (codec.encode q, until) =
        law.read-psetex s now k (max 1 (input.ttl_minutes * 60) * 1000) (codec.encode q) k
          (omega arith)
        ∙ ground (arith, eq_self k) in
      let found = Ends-run k q until now later s' cs spared order e in
      let (answered, gone) = taken k asked later until q (redis_run s' cs) there early in
      rw found (answered, rw gone (unfold consume_value in unfold accept_text in refl))
