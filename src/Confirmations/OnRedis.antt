-- ===== src/Confirmations/OnRedis.antt =====
-- Confirmations on Redis, src/actions/confirmation-store.ts: `RedisConfirmationStore` and its script. The
-- two readers of a stored text, cjson in the script and `JSON.parse` in the store, are parameters.
use Prim.Native.String.{◌++◌}
use hhc_line_function_bot.Prelude.{
  ℕ, ◌*◌, max, String, Bool, Option, none, some, ◌&&◌, ◌==◌, leb, if◌then◌else◌,
}
use hhc_line_function_bot.Redis.{Item, Redis}
use hhc_line_function_bot.Confirmations.{Request, CreateInput, trimmed, new_request}

pub record Codec (N : Type 0) : Type 0 where
  pub encode : Request N → String
  pub lua_decode : String → Option (Request N)
  pub decode : String → Option (Request N)

module _ {N : Type 0} (sha256_hex : String → String) (r : Redis) (codec : Codec N)
    (prefix : String) where
  unfoldable pub redis_confirmation_key : String → String → String
  redis_confirmation_key profile_name id =
      prefix ++ ":confirm:" ++ profile_name ++ ":" ++ sha256_hex (trimmed id)

  -- `own` is the reading of the store's own clock, `now` the server's.
  unfoldable pub redis_create : CreateInput N → String → ℕ → ℕ → r.State → r.State × Request N
  unfolding redis_confirmation_key
  redis_create input id own now s =
      let request = new_request input id own in
      (
        r.psetex s now (redis_confirmation_key input.profile_name id)
            (max 1 (input.ttl_minutes * 60) * 1000) (codec.encode request),
        request,
      )

  abbrev pub is_for : String → String → Request N → Bool
  is_for profile_name actor_user_id q =
      (q.profile_name == profile_name) && (q.actor_user_id == actor_user_id)

  unfoldable pub consume_decoded :
      String → String → String → String → Option (Request N) → r.State → r.State × Option String
  consume_decoded k profile_name actor_user_id value none s = (s, none)
  consume_decoded k profile_name actor_user_id value (some q) s =
      if is_for profile_name actor_user_id q then (r.del s k, some value) else (s, none)

  unfoldable pub consume_value :
      String → String → String → Option Item → r.State → r.State × Option String
  unfolding consume_decoded
  consume_value k profile_name actor_user_id none s = (s, none)
  consume_value k profile_name actor_user_id (some (value, until)) s =
      consume_decoded k profile_name actor_user_id value (codec.lua_decode value) s

  unfoldable pub consume_script : ℕ → String → String → String → r.State → r.State × Option String
  unfolding consume_value
  consume_script now k profile_name actor_user_id s =
      consume_value k profile_name actor_user_id (r.read s now k) s

  -- What the store makes of a text that the script returned.
  unfoldable pub accept_request : String → String → ℕ → Option (Request N) → Option (Request N)
  accept_request profile_name actor_user_id now none = none
  accept_request profile_name actor_user_id now (some q) =
      if is_for profile_name actor_user_id q
      then (if leb q.expires_at now then none else some q)
      else none

  unfoldable pub accept_text : String → String → ℕ → Option String → Option (Request N)
  unfolding accept_request
  accept_text profile_name actor_user_id now none = none
  accept_text profile_name actor_user_id now (some value) =
      accept_request profile_name actor_user_id now (codec.decode value)

  unfoldable pub redis_consume :
      String → String → String → ℕ → ℕ → r.State → r.State × Option (Request N)
  unfolding consume_script accept_text redis_confirmation_key
  redis_consume id actor_user_id profile_name own now s =
      let (s', value) =
        consume_script now (redis_confirmation_key profile_name id) profile_name actor_user_id s in
      (s', accept_text profile_name actor_user_id own value)
