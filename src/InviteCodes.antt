-- ===== src/InviteCodes.antt =====
-- Registration invite codes, src/access/registration-invite-code-store.ts: the in-memory store and the one
-- on Redis. SHA-256 in hexadecimal is the argument `sha256_hex`, the generated code the argument `code`,
-- and JSON the codec of a record.
pub mod Spent
pub mod Accepted
mod Examples
use Prim.Native.String.{◌++◌}
use hhc_line_function_bot.Prelude.{
  ℕ, ◌+◌, ◌*◌, max, String, Bool, true, false, Option, none, some, ◌&&◌, ◌==◌, ltb,
}
use hhc_line_function_bot.JsMap.{JsMap, get, set, delete}
use hhc_line_function_bot.Redis.{Item, Redis}
use hhc_line_function_bot.Confirmations.{trimmed}

pub record Created : Type 0 where
  pub code : String
  pub expires_at : ℕ

pub record Input : Type 0 where
  pub profile_name : String
  pub created_by : String
  pub ttl_minutes : ℕ

pub record Record : Type 0 where
  pub profile_name : String
  pub created_by : String
  pub created_at : ℕ
  pub expires_at : ℕ

pub record Codec : Type 0 where
  pub encode : Record → String
  pub decode : String → Option Record

module _ (sha256_hex : String → String) where
  unfoldable pub invite_code_key : String → String → String
  invite_code_key profile_name code = profile_name ++ ":" ++ sha256_hex (trimmed code)

  abbrev pub new_record : Input → ℕ → Record
  new_record input now = record {
    profile_name = input.profile_name;
    created_by = input.created_by;
    created_at = now;
    expires_at = now + input.ttl_minutes * 60 * 1000;
  }

  unfoldable pub create_code : Input → String → ℕ → JsMap Record → JsMap Record × Created
  unfolding invite_code_key
  create_code input code now m = (
    set (invite_code_key input.profile_name code) (new_record input now) m,
    record { code = code; expires_at = now + input.ttl_minutes * 60 * 1000 },
  )

  unfoldable pub consume_record : String → ℕ → Option Record → JsMap Record → JsMap Record × Bool
  consume_record key now none m = (m, false)
  consume_record key now (some record_) m = (delete key m, ltb now record_.expires_at)

  unfoldable pub consume_code : String → String → ℕ → JsMap Record → JsMap Record × Bool
  unfolding consume_record invite_code_key
  consume_code profile_name code now m =
      let key = invite_code_key profile_name code in consume_record key now (get key m) m

  module _ (r : Redis) (codec : Codec) (prefix : String) where
    unfoldable pub redis_code_key : String → String → String
    redis_code_key profile_name code =
        prefix ++ ":registration-invite:" ++ profile_name ++ ":" ++ sha256_hex (trimmed code)

    -- `SETEX` takes seconds. `own` is the reading of the store's own clock, `now` the server's.
    unfoldable pub redis_create_code : Input → String → ℕ → ℕ → r.State → r.State × Created
    unfolding redis_code_key
    redis_create_code input code own now s = (
      r.psetex s now (redis_code_key input.profile_name code)
          (max 1 (input.ttl_minutes * 60) * 1000) (codec.encode (new_record input own)),
      record { code = code; expires_at = own + input.ttl_minutes * 60 * 1000 },
    )

    abbrev pub is_good : String → ℕ → Option Record → Bool
    is_good profile_name now none = false
    is_good profile_name now (some q) = (q.profile_name == profile_name) && ltb now q.expires_at

    unfoldable pub redis_consume_found :
        String → String → ℕ → Option Item → r.State → r.State × Bool
    redis_consume_found key profile_name own none s = (s, false)
    redis_consume_found key profile_name own (some (text, until)) s =
        (r.del s key, is_good profile_name own (codec.decode text))

    -- `GETDEL`.
    unfoldable pub redis_consume_code : String → String → ℕ → ℕ → r.State → r.State × Bool
    unfolding redis_consume_found redis_code_key
    redis_consume_code profile_name code own now s =
        let key = redis_code_key profile_name code in
        redis_consume_found key profile_name own (r.read s now key) s
