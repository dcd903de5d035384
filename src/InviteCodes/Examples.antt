-- ===== src/InviteCodes/Examples.antt =====
-- Runs of the invite code stores, and the theorems at concrete inputs.
use hhc_line_function_bot.Prelude.{
  String, ◌≡◌, refl, ◌≢◌, ◌==◌, true, false, some, [], ◌∷◌, arith, eq_iff,
}
use hhc_line_function_bot.Packing.{
  pack_number, unpack_number, unpack-pack_number, pack_text, unpack_text, unpack-pack_text,
}
use hhc_line_function_bot.JsMap.{get, set, delete}
use hhc_line_function_bot.Confirmations.{trimmed}
use hhc_line_function_bot.Redis.{map_redis, map_redis-IsLawful}
use hhc_line_function_bot.InviteCodes.{
  Input, Record, Codec, invite_code_key, create_code, consume_record, consume_code, redis_code_key,
  redis_create_code, redis_consume_code,
}
use hhc_line_function_bot.InviteCodes.Spent.{creates, consumes, redis_run, redis_spent_once}
use hhc_line_function_bot.InviteCodes.Accepted.{accepted_until}

abbrev sha : String → String
sha t = t

abbrev input : Input
input = record { profile_name = "main"; created_by = "U1"; ttl_minutes = 5 }

-- A code is accepted with blanks around it, once, and not after five minutes.
runs :
    ((consume_code sha "main" " abc " 299999 (create_code sha input "abc" 0 []).0).1 ≡ true)
    × ((consume_code sha "main" "abc" 300000 (create_code sha input "abc" 0 []).0).1 ≡ false)
    × ((consume_code sha "main" "abc" 2
          (consume_code sha "main" "abc" 1 (create_code sha input "abc" 0 []).0).0).1
        ≡ false)
    × ((consume_code sha "helper" "abc" 1 (create_code sha input "abc" 0 []).0).1 ≡ false)
unfolding consume_code consume_record create_code invite_code_key get set delete trimmed
runs = (refl, refl, refl, refl)

abbrev codec : Codec
codec = record {
  encode = λ q.
      pack_text q.profile_name
        (pack_text q.created_by (pack_number q.created_at (pack_number q.expires_at "")));
  decode = λ s.
      let profile = unpack_text s in
      let creator = unpack_text profile.1 in
      let at = unpack_number creator.1 in
      let until = unpack_number at.1 in
      some (record {
        profile_name = profile.0;
        created_by = creator.0;
        created_at = at.0;
        expires_at = until.0;
      });
}

packed_back : (q : Record) → codec.decode (codec.encode q) ≡ some q
packed_back q =
    let end = pack_number q.expires_at "" in
    let middle = pack_number q.created_at end in
    let tail = pack_text q.created_by middle in
    rw
      (
        unpack-pack_text q.profile_name tail,
        unpack-pack_text q.created_by middle,
        unpack-pack_number q.created_at end,
        unpack-pack_number q.expires_at "",
      )
      refl

differ : (s t : String) → (s == t) ≡ false → s ≢ t
differ s t h = ground (arith, eq_iff s t)

abbrev redis_start : map_redis.State
redis_start = (redis_create_code sha map_redis codec "bot" input "abc" 9 0 []).0

redis_spent_once_example :
    let s' =
      redis_run sha map_redis map_redis-IsLawful codec "bot"
        (redis_consume_code sha map_redis codec "bot" "main" "abc" 5 1 redis_start).0
        ((6, consumes "main" "abc" 2) ∷ (7, creates input "xyz" 3) ∷ []) in
    redis_consume_code sha map_redis codec "bot" "main" "abc" 8 4 s' ≡ (s', false)
unfolding redis_code_key trimmed
redis_spent_once_example =
    redis_spent_once sha map_redis map_redis-IsLawful codec "bot" "main" "abc" 5 1 8 4 redis_start
      ((6, consumes "main" "abc" 2) ∷ (7, creates input "xyz" 3) ∷ [])
      (differ "bot:registration-invite:main:xyz" "bot:registration-invite:main:abc" refl, tt)
      (omega arith, (omega arith, omega arith))

accepted_until_example :
    (redis_consume_code sha map_redis codec "bot" "main" "abc" 300008 299999 (
      redis_run sha map_redis map_redis-IsLawful codec "bot" redis_start
        ((11, consumes "main" "xyz" 2) ∷ []))).1
    ≡ true
unfolding redis_code_key trimmed redis_create_code
accepted_until_example =
    accepted_until sha map_redis map_redis-IsLawful codec "bot" input "abc" 9 0 300008 299999 []
      ((11, consumes "main" "xyz" 2) ∷ []) packed_back (omega arith)
      (differ "bot:registration-invite:main:xyz" "bot:registration-invite:main:abc" refl, tt)
      (omega arith, omega arith)
