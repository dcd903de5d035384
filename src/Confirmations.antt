-- ===== src/Confirmations.antt =====
-- Confirmations of administrators' actions, src/actions/confirmation-store.ts: the in-memory store (OnRedis has the other). The
-- SHA-256 of a text in hexadecimal is the argument `sha256_hex`. A number among an action's arguments is
-- not looked into: the type of numbers `N` is a parameter, and a value that is no text, number or Boolean
-- is `other`.
pub mod Sanitized
pub mod Once
pub mod OnRedis
pub mod Waiting
mod Examples
mod RedisExamples
use hhc_line_function_bot.Prelude.{
  ℕ, zero, suc, ◌+◌, ◌-◌, ◌*◌, ◌≤◌, ◌<◌, min, max, String, ◌≡◌, refl, sym, ap, ◌∙◌, ◌≢◌, ◌↔◌, ◌⊎◌,
  inl, inr, Bool, true, false, not, ◌&&◌, ◌||◌, Option, none, some, List, [], ◌∷◌, map, arith, ◌==◌,
  eq_iff, eq_self, leb, ltb, if◌then◌else◌, Option-cases, Bool-cases, same_text, same_text_iff,
  is_blank, is_empty, to_bool, length, take, select, find, any, All, length-take, length-append,
  All-select, All-take, find-passes, ltb→lt, lt→ltb, leb→le, le→leb, lt→not_leb,
}
use Prim.Native.Char.{Char, code}
use Prim.Native.String.{◌++◌}
use hhc_line_function_bot.Prelude.{is_space}
use hhc_line_function_bot.JsMap.{JsMap, get, set, delete}
use hhc_line_function_bot.Actions.{AdminActionName}

pub data ArgValue (N : Type 0) : Type 0 where
  text : String → ArgValue N
  number : N → ArgValue N
  boolean : Bool → ArgValue N
  other : ArgValue N

pub record Request (N : Type 0) : Type 0 where
  pub id : String
  pub profile_name : String
  pub actor_user_id : String
  pub action : AdminActionName
  pub args : Option (List (String × ArgValue N))
  pub created_at : ℕ
  pub expires_at : ℕ

pub record CreateInput (N : Type 0) : Type 0 where
  pub profile_name : String
  pub actor_user_id : String
  pub action : AdminActionName
  pub args : Option (List (String × ArgValue N))
  pub ttl_minutes : ℕ

-- `trim`.
trim_end : String → String
trim_end String.[] = String.[]
trim_end (String.◌∷◌ c s) =
    let rest = trim_end s in
    if is_empty rest && is_space (code c) then String.[] else String.◌∷◌ c rest

trim_start : String → String
trim_start String.[] = String.[]
trim_start (String.◌∷◌ c s) =
    let rest = trim_start s in if is_space (code c) then rest else String.◌∷◌ c s

unfoldable pub trimmed : String → String
unfolding trim_end trim_start
trimmed s = trim_end (trim_start s)

unfoldable pub key : (String → String) → String → String → String
unfolding trimmed
key sha256_hex profile_name id = profile_name ++ ":" ++ sha256_hex (trimmed id)

abbrev is_between : ℕ → ℕ → ℕ → Bool
is_between low high c = leb low c && leb c high

abbrev is_key_start : ℕ → Bool
is_key_start c = is_between b'a' b'z' c || is_between b'0' b'9' c

abbrev is_key_rest : ℕ → Bool
is_key_rest c = is_key_start c || leb 95 c && leb c 95 || leb 45 c && leb c 45

-- `[a-z0-9_-]{0,n}` up to the end.
matches_rest : ℕ → String → Bool
matches_rest n String.[] = true
matches_rest zero (String.◌∷◌ c s) = false
matches_rest (suc n) (String.◌∷◌ c s) = is_key_rest (code c) && matches_rest n s

unfoldable pub is_source_key : String → Bool
unfolding matches_rest
is_source_key String.[] = false
is_source_key (String.◌∷◌ c s) = is_key_start (code c) && matches_rest 63 s

module _ {N : Type 0} where
  -- What an argument is kept as, if it is kept.
  unfoldable pub sanitized : String → ArgValue N → Option (ArgValue N)
  sanitized k (text v) =
      if (k == "sourceKey") && is_source_key v
      then some (text v)
      else some (text (if is_empty v then "empty" else "present"))
  sanitized k (number n) = some (number n)
  sanitized k (boolean b) = some (boolean b)
  sanitized k other = none

  abbrev pub keep :
      String → Option (ArgValue N) → List (String × ArgValue N) → List (String × ArgValue N)
  keep k none rest = rest
  keep k (some v) rest = (k, v) ∷ rest

  unfoldable pub sanitize_entries : List (String × ArgValue N) → List (String × ArgValue N)
  unfolding sanitized
  sanitize_entries [] = []
  sanitize_entries ((k, v) ∷ args) = keep k (sanitized k v) (sanitize_entries args)

  abbrev pub sanitize_args :
      Option (List (String × ArgValue N)) → Option (List (String × ArgValue N))
  sanitize_args none = none
  sanitize_args (some args) = some (sanitize_entries args)

  unfoldable pub new_request : CreateInput N → String → ℕ → Request N
  unfolding sanitize_entries
  new_request input id now = record {
    id = id;
    profile_name = input.profile_name;
    actor_user_id = input.actor_user_id;
    action = input.action;
    args = sanitize_args input.args;
    created_at = now;
    expires_at = now + input.ttl_minutes * 60 * 1000;
  }

  unfoldable pub create :
      (String → String)
      → CreateInput N
      → String
      → ℕ
      → JsMap (Request N)
      → JsMap (Request N) × Request N
  unfolding new_request key
  create sha256_hex input id now m =
      let request = new_request input id now in
      (set (key sha256_hex input.profile_name id) request m, request)

  unfoldable pub consume_found :
      String
      → String
      → String
      → ℕ
      → Option (Request N)
      → JsMap (Request N)
      → JsMap (Request N) × Option (Request N)
  consume_found k actor_user_id profile_name now none m = (m, none)
  consume_found k actor_user_id profile_name now (some r) m =
      if not (r.actor_user_id == actor_user_id) || not (r.profile_name == profile_name)
      then (m, none)
      else if leb r.expires_at now
      then (delete k m, none)
      else (delete k m, some r)

  unfoldable pub consume :
      (String → String)
      → String
      → String
      → String
      → ℕ
      → JsMap (Request N)
      → JsMap (Request N) × Option (Request N)
  unfolding consume_found key
  consume sha256_hex id actor_user_id profile_name now m =
      let k = key sha256_hex profile_name id in
      consume_found k actor_user_id profile_name now (get k m) m
