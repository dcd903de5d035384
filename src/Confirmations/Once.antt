-- ===== src/Confirmations/Once.antt =====
-- A confirmation is for one actor, and for one use.
use hhc_line_function_bot.Prelude.{
  ℕ, ◌<◌, String, ◌≡◌, refl, ◌∙◌, ◌≢◌, Option, none, some, List, [], ◌∷◌, arith, eq_iff, eq_self,
}
use hhc_line_function_bot.JsMap.{
  JsMap, get, delete, get-set_self, get-set_other, get-delete, get-delete_self,
}
use hhc_line_function_bot.Confirmations.{
  Request, CreateInput, key, new_request, create, consume, consume_found,
}

pub data Call (N : Type 0) : Type 0 where
  creates : CreateInput N → String → ℕ → Call N
  consumes : String → String → String → ℕ → Call N

module _ {N : Type 0} (sha256_hex : String → String) where
  unfoldable pub step : JsMap (Request N) → Call N → JsMap (Request N)
  step m (creates input id now) = (create sha256_hex input id now m).0
  step m (consumes id actor_user_id profile_name now) =
      (consume sha256_hex id actor_user_id profile_name now m).0

  unfoldable pub run : JsMap (Request N) → List (Call N) → JsMap (Request N)
  run m [] = m
  run m (c ∷ cs) = run (step m c) cs

  -- No call makes a confirmation under the key.
  abbrev pub NoneCreates : String → List (Call N) → Type 0
  NoneCreates k [] = Unit
  NoneCreates k (creates input id now ∷ cs) =
      (key sha256_hex input.profile_name id ≢ k) × NoneCreates k cs
  NoneCreates k (consumes id actor_user_id profile_name now ∷ cs) = NoneCreates k cs

  consume_absent :
      (j k actor_user_id profile_name : String) (now : ℕ) (o : Option (Request N))
      (m : JsMap (Request N))
      → get k m ≡ none
      → get k (consume_found j actor_user_id profile_name now o m).0 ≡ none
  unfolding consume_found
  consume_absent j k actor_user_id profile_name now none m g = g
  consume_absent j k actor_user_id profile_name now (some r) m g = ground (arith, get-delete j k m)

  stays_absent :
      (k : String) (m : JsMap (Request N)) (cs : List (Call N))
      → NoneCreates k cs
      → get k m ≡ none
      → get k (run m cs) ≡ none
  unfolding run step create consume
  stays_absent k m [] h g = g
  stays_absent k m (creates input id now ∷ cs) (h, hs) g =
      stays_absent k (step m (creates input id now)) cs hs
        (get-set_other (key sha256_hex input.profile_name id) k (new_request input id now) m h ∙ g)
  stays_absent k m (consumes id actor_user_id profile_name now ∷ cs) hs g =
      stays_absent k (step m (consumes id actor_user_id profile_name now)) cs hs
        (consume_absent (key sha256_hex profile_name id) k actor_user_id profile_name now _ m g)

  consume_deletes :
      (k actor_user_id profile_name : String) (now : ℕ) (o : Option (Request N))
      (m : JsMap (Request N)) {r : Request N}
      → (consume_found k actor_user_id profile_name now o m).1 ≡ some r
      → get k (consume_found k actor_user_id profile_name now o m).0 ≡ none
  unfolding consume_found
  consume_deletes k actor_user_id profile_name now none m h = cc
  consume_deletes k actor_user_id profile_name now (some q) m h =
      ground (arith, get-delete_self k m)

  -- A confirmation is used once. When `consume` has returned a confirmation, then after any calls that
  -- follow, none of which creates one under the same key, `consume` of it returns none, for every actor,
  -- and changes nothing.
  pub consumed_once :
      (id actor_user_id other_actor profile_name : String) (now later : ℕ) (m : JsMap (Request N))
      (cs : List (Call N)) {r : Request N}
      → (consume sha256_hex id actor_user_id profile_name now m).1 ≡ some r
      → NoneCreates (key sha256_hex profile_name id) cs
      → let m' = run (consume sha256_hex id actor_user_id profile_name now m).0 cs in
        consume sha256_hex id other_actor profile_name later m' ≡ (m', none)
  unfolding consume
  consumed_once id actor_user_id other_actor profile_name now later m cs {r} h fresh =
      let k = key sha256_hex profile_name id in
      let m' = run (consume sha256_hex id actor_user_id profile_name now m).0 cs in
      let gone : get k m' ≡ none =
        stays_absent k (consume sha256_hex id actor_user_id profile_name now m).0 cs fresh
          (consume_deletes k actor_user_id profile_name now (get k m) m {r = r} h) in
      rw gone (unfold consume_found in refl)

  -- A confirmation is for its actor. Right after `create`, `consume` by the same actor in the same profile
  -- returns the request and removes it, if it has not expired; by another actor it returns none and
  -- changes nothing.
  pub create_then_consume :
      (input : CreateInput N) (id actor_user_id : String) (now later : ℕ) (m : JsMap (Request N))
      → let (m', r) = create sha256_hex input id now m in
        (actor_user_id ≡ input.actor_user_id
          → later < r.expires_at
          → consume sha256_hex id actor_user_id input.profile_name later m'
            ≡ (delete (key sha256_hex input.profile_name id) m', some r))
        × (actor_user_id ≢ input.actor_user_id
            → consume sha256_hex id actor_user_id input.profile_name later m' ≡ (m', none))
  unfolding create consume consume_found new_request
  create_then_consume input id actor_user_id now later m =
      rw get-set_self
        (ground (arith, eq_iff input.actor_user_id actor_user_id, eq_self input.profile_name))
