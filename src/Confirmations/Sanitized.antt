-- ===== src/Confirmations/Sanitized.antt =====
-- What is left of the arguments that a confirmation keeps.
use hhc_line_function_bot.Prelude.{
  ℕ, String, ◌≡◌, refl, ◌⊎◌, inl, inr, Bool, true, false, ◌&&◌, Option, none, some, List, [], ◌∷◌,
  arith, ◌==◌, eq_iff, if◌then◌else◌, Bool-cases, is_empty, All,
}
use hhc_line_function_bot.JsMap.{JsMap, get, get-set, get-set_self, get-delete}
use hhc_line_function_bot.Confirmations.{
  ArgValue, text, number, boolean, other, Request, CreateInput, is_source_key, sanitized,
  sanitize_entries, sanitize_args, new_request, create, key, consume, consume_found,
}
use hhc_line_function_bot.Confirmations.Once.{Call, creates, consumes, run, step}

-- A kept text says only whether there was one, but for a source key under its name.
abbrev pub IsSafeText : String → String → Type 0
IsSafeText k v = (v ≡ "present") ⊎ (v ≡ "empty") ⊎ ((k ≡ "sourceKey") × (is_source_key v ≡ true))

kept-IsSafeText :
    (k v : String) (b : Bool)
    → ((k == "sourceKey") && is_source_key v) ≡ b
    → IsSafeText k (if b then v else if is_empty v then "empty" else "present")
kept-IsSafeText k v true h = inr (inr (ground (arith, eq_iff k "sourceKey")))
kept-IsSafeText k v false h = elim (Bool-cases (is_empty v)) [
  | inl blank ↦ rw blank (inr (inl refl))
  | inr filled ↦ rw filled (inl refl)
]

module _ {N : Type 0} where
  abbrev pub IsSafe : String × ArgValue N → Type 0
  IsSafe (k, text v) = IsSafeText k v
  IsSafe (k, other) = ⊥
  IsSafe _ = Unit

  abbrev pub SafeArgs : Option (List (String × ArgValue N)) → Type 0
  SafeArgs none = Unit
  SafeArgs (some args) = All IsSafe args

  sanitize_entries-IsSafe : (args : List (String × ArgValue N)) → All IsSafe (sanitize_entries args)
  unfolding sanitize_entries sanitized
  sanitize_entries-IsSafe [] = tt
  sanitize_entries-IsSafe ((k, text v) ∷ args) =
      elim (Bool-cases ((k == "sourceKey") && is_source_key v)) [
        | inl named ↦ rw named (kept-IsSafeText k v true named, sanitize_entries-IsSafe args)
        | inr hidden ↦ rw hidden (kept-IsSafeText k v false hidden, sanitize_entries-IsSafe args)
      ]
  sanitize_entries-IsSafe ((k, number n) ∷ args) = (tt, sanitize_entries-IsSafe args)
  sanitize_entries-IsSafe ((k, boolean b) ∷ args) = (tt, sanitize_entries-IsSafe args)
  sanitize_entries-IsSafe ((k, other) ∷ args) = sanitize_entries-IsSafe args

  new_request-SafeArgs :
      (input : CreateInput N) (id : String) (now : ℕ) → SafeArgs (new_request input id now).args
  unfolding new_request
  new_request-SafeArgs input id now = safe input.args
    where
      safe : (args : Option (List (String × ArgValue N))) → SafeArgs (sanitize_args args)
      safe none = tt
      safe (some args) = sanitize_entries-IsSafe args

  -- A stored confirmation's arguments are safe.
  abbrev pub HoldsSafe : Option (Request N) → Type 0
  HoldsSafe none = Unit
  HoldsSafe (some q) = SafeArgs q.args

  consume-HoldsSafe :
      (j k actor_user_id profile_name : String) (now : ℕ) (o : Option (Request N))
      (m : JsMap (Request N))
      → HoldsSafe (get k m)
      → HoldsSafe (get k (consume_found j actor_user_id profile_name now o m).0)
  unfolding consume_found
  consume-HoldsSafe j k actor_user_id profile_name now none m h = h
  consume-HoldsSafe j k actor_user_id profile_name now (some q) m h =
      ground (arith, get-delete j k m)

  module _ (sha256_hex : String → String) where
    run-HoldsSafe :
        (k : String) (m : JsMap (Request N)) (cs : List (Call N))
        → HoldsSafe (get k m)
        → HoldsSafe (get k (run sha256_hex m cs))
    unfolding run step create consume
    run-HoldsSafe k m [] h = h
    run-HoldsSafe k m (creates input id now ∷ cs) h =
        run-HoldsSafe k (step sha256_hex m (creates input id now)) cs
          (rw get-set (put (key sha256_hex input.profile_name id == k)))
      where
        put : (b : Bool) → HoldsSafe (if b then some (new_request input id now) else get k m)
        put true = new_request-SafeArgs input id now
        put false = h
    run-HoldsSafe k m (consumes id actor_user_id profile_name now ∷ cs) h =
        run-HoldsSafe k (step sha256_hex m (consumes id actor_user_id profile_name now)) cs (
          consume-HoldsSafe (key sha256_hex profile_name id) k actor_user_id profile_name now _ m h)

    -- No argument text is stored or returned. After any calls of a store that starts empty, every
    -- confirmation that is stored, under whatever key, has safe arguments: numbers, Booleans, and texts of
    -- which each is `present`, `empty`, or a well-formed source key under the name `sourceKey`. So has the
    -- one that a further `create` returns, and that one is what is then stored under its key.
    pub create-SafeArgs :
        (cs : List (Call N)) (k : String) (input : CreateInput N) (id : String) (now : ℕ)
        → let m = run sha256_hex [] cs in
          let (m', request) = create sha256_hex input id now m in
          HoldsSafe (get k m)
          × SafeArgs request.args
          × (get (key sha256_hex input.profile_name id) m' ≡ some request)
    unfolding create get
    create-SafeArgs cs k input id now = (
      run-HoldsSafe k [] cs tt,
      new_request-SafeArgs input id now,
      get-set_self (key sha256_hex input.profile_name id) (new_request input id now)
          (run sha256_hex [] cs),
    )
