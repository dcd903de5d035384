-- ===== src/Confirmations/RedisExamples.antt =====
-- The confirmation store on a Redis server of a map, with packed texts in place of JSON.
use hhc_line_function_bot.Prelude.{
  ℕ, zero, suc, String, ◌≡◌, refl, ap, ◌≢◌, inr, true, false, Option, none, some, List, [], ◌∷◌,
  arith, eq_iff, ◌==◌,
}
use hhc_line_function_bot.Packing.{
  pack_number, unpack_number, unpack-pack_number, pack_text, unpack_text, unpack-pack_text,
}
use hhc_line_function_bot.Redis.{map_redis, map_redis-IsLawful}
use hhc_line_function_bot.Actions.{
  AdminActionName, invite_code_create, knowledge_source_add, knowledge_source_list,
  knowledge_source_sync, knowledge_source_enable, knowledge_source_disable, knowledge_source_remove,
  function_scope_grant, function_scope_revoke, function_scope_list,
}
use hhc_line_function_bot.Confirmations.{
  ArgValue, text, number, boolean, other, Request, CreateInput, trimmed, new_request,
}
use hhc_line_function_bot.Confirmations.Once.{consumes, creates}
use hhc_line_function_bot.Confirmations.OnRedis.{
  Codec, redis_confirmation_key, redis_create, redis_consume,
}
use hhc_line_function_bot.Confirmations.Waiting.{redis_run, waits_for_actor}

pack_value : ArgValue ℕ → String → String
pack_value (text s) rest = pack_number 0 (pack_text s rest)
pack_value (number n) rest = pack_number 1 (pack_number n rest)
pack_value (boolean false) rest = pack_number 2 rest
pack_value (boolean true) rest = pack_number 3 rest
pack_value other rest = pack_number 4 rest

abbrev as_text : String × String → ArgValue ℕ × String
as_text (s, rest) = (text s, rest)

abbrev as_number : ℕ × String → ArgValue ℕ × String
as_number (n, rest) = (number n, rest)

value_of : ℕ × String → ArgValue ℕ × String
value_of (zero, s) = as_text (unpack_text s)
value_of (suc zero, s) = as_number (unpack_number s)
value_of (suc (suc zero), s) = (boolean false, s)
value_of (suc (suc (suc zero)), s) = (boolean true, s)
value_of (suc (suc (suc (suc n))), s) = (other, s)

value_back :
    (v : ArgValue ℕ) (rest : String) → value_of (unpack_number (pack_value v rest)) ≡ (v, rest)
unfolding pack_value value_of
value_back (text s) rest =
    rw (unpack-pack_number 0 (pack_text s rest), unpack-pack_text s rest) refl
value_back (number n) rest =
    rw (unpack-pack_number 1 (pack_number n rest), unpack-pack_number n rest) refl
value_back (boolean false) rest = rw (unpack-pack_number 2 rest) refl
value_back (boolean true) rest = rw (unpack-pack_number 3 rest) refl
value_back other rest = rw (unpack-pack_number 4 rest) refl

count : List (String × ArgValue ℕ) → ℕ
count [] = 0
count (e ∷ args) = suc (count args)

pack_args : List (String × ArgValue ℕ) → String → String
pack_args [] rest = rest
pack_args ((k, v) ∷ args) rest = pack_text k (pack_value v (pack_args args rest))

unpack_args : ℕ → String → List (String × ArgValue ℕ) × String
unpack_args zero s = ([], s)
unpack_args (suc n) s =
    let key = unpack_text s in
    let value = value_of (unpack_number key.1) in
    let rest = unpack_args n value.1 in ((key.0, value.0) ∷ rest.0, rest.1)

args_back :
    (args : List (String × ArgValue ℕ)) (rest : String)
    → unpack_args (count args) (pack_args args rest) ≡ (args, rest)
unfolding pack_args unpack_args count
args_back [] rest = refl
args_back ((k, v) ∷ args) rest =
    let tail = pack_args args rest in
    rw (unpack-pack_text k (pack_value v tail), value_back v tail, args_back args rest) refl

pack_option : Option (List (String × ArgValue ℕ)) → String → String
pack_option none rest = pack_number 0 rest
pack_option (some args) rest = pack_number (suc (count args)) (pack_args args rest)

abbrev as_some : List (String × ArgValue ℕ) × String → Option (List (String × ArgValue ℕ)) × String
as_some (args, rest) = (some args, rest)

option_of : ℕ × String → Option (List (String × ArgValue ℕ)) × String
option_of (zero, s) = (none, s)
option_of (suc n, s) = as_some (unpack_args n s)

option_back :
    (o : Option (List (String × ArgValue ℕ))) (rest : String)
    → option_of (unpack_number (pack_option o rest)) ≡ (o, rest)
unfolding pack_option option_of
option_back none rest = rw (unpack-pack_number 0 rest) refl
option_back (some args) rest =
    rw (unpack-pack_number (suc (count args)) (pack_args args rest))
      (ap as_some (args_back args rest))

action_number : AdminActionName → ℕ
action_number invite_code_create = 0
action_number knowledge_source_add = 1
action_number knowledge_source_list = 2
action_number knowledge_source_sync = 3
action_number knowledge_source_enable = 4
action_number knowledge_source_disable = 5
action_number knowledge_source_remove = 6
action_number function_scope_grant = 7
action_number function_scope_revoke = 8
action_number function_scope_list = 9

action_of : ℕ → AdminActionName
action_of zero = invite_code_create
action_of (suc zero) = knowledge_source_add
action_of (suc (suc zero)) = knowledge_source_list
action_of (suc (suc (suc zero))) = knowledge_source_sync
action_of (suc (suc (suc (suc zero)))) = knowledge_source_enable
action_of (suc (suc (suc (suc (suc zero))))) = knowledge_source_disable
action_of (suc (suc (suc (suc (suc (suc zero)))))) = knowledge_source_remove
action_of (suc (suc (suc (suc (suc (suc (suc zero))))))) = function_scope_grant
action_of (suc (suc (suc (suc (suc (suc (suc (suc zero)))))))) = function_scope_revoke
action_of (suc (suc (suc (suc (suc (suc (suc (suc (suc n))))))))) = function_scope_list

action_back : (a : AdminActionName) → action_of (action_number a) ≡ a
unfolding action_of action_number
action_back invite_code_create = refl
action_back knowledge_source_add = refl
action_back knowledge_source_list = refl
action_back knowledge_source_sync = refl
action_back knowledge_source_enable = refl
action_back knowledge_source_disable = refl
action_back knowledge_source_remove = refl
action_back function_scope_grant = refl
action_back function_scope_revoke = refl
action_back function_scope_list = refl

encode : Request ℕ → String
encode q = pack_text q.id (
    pack_text q.profile_name (
      pack_text q.actor_user_id (
        pack_number (action_number q.action)
          (pack_number q.created_at (pack_number q.expires_at (pack_option q.args ""))))))

decode : String → Option (Request ℕ)
decode s =
    let id = unpack_text s in
    let profile = unpack_text id.1 in
    let actor = unpack_text profile.1 in
    let action = unpack_number actor.1 in
    let at = unpack_number action.1 in
    let until = unpack_number at.1 in
    let args = option_of (unpack_number until.1) in
    some (record {
      id = id.0;
      profile_name = profile.0;
      actor_user_id = actor.0;
      action = action_of action.0;
      args = args.0;
      created_at = at.0;
      expires_at = until.0;
    })

decoded_back : (q : Request ℕ) → decode (encode q) ≡ some q
unfolding encode decode
decoded_back q =
    let args = pack_option q.args "" in
    let until = pack_number q.expires_at args in
    let at = pack_number q.created_at until in
    let action = pack_number (action_number q.action) at in
    let actor = pack_text q.actor_user_id action in
    let profile = pack_text q.profile_name actor in
    rw
      (
        unpack-pack_text q.id profile,
        unpack-pack_text q.profile_name actor,
        unpack-pack_text q.actor_user_id action,
        unpack-pack_number (action_number q.action) at,
        unpack-pack_number q.created_at until,
        unpack-pack_number q.expires_at args,
        option_back q.args "",
        action_back q.action,
      )
      refl

abbrev codec : Codec ℕ
codec = record { encode = encode; lua_decode = decode; decode = decode }

abbrev sha : String → String
sha t = t

abbrev input : CreateInput ℕ
input = record {
  profile_name = "main";
  actor_user_id = "U1";
  action = knowledge_source_remove;
  args = none;
  ttl_minutes = 5;
}

differ : (s t : String) → (s == t) ≡ false → s ≢ t
differ s t h = ground (arith, eq_iff s t)

waits_for_actor_example :
    let (s', request) = redis_create sha map_redis codec "bot" input "c1" 1 0 [] in
    let (s'', answer) = redis_consume sha map_redis codec "bot" "c1" "U1" "main" 12 10 (
      redis_run sha map_redis map_redis-IsLawful codec "bot"
        (λ q. (decoded_back q, decoded_back q))
        s'
        ((7, consumes "c1" "U2" "main" 5) ∷ (8, creates input "c2" 6) ∷ [])) in
    (answer ≡ some request)
    × (redis_consume sha map_redis codec "bot" "c1" "U2" "main" 13 10 s'' ≡ (s'', none))
unfolding redis_confirmation_key trimmed redis_create new_request
waits_for_actor_example =
    waits_for_actor sha map_redis map_redis-IsLawful codec "bot"
      (λ q. (decoded_back q, decoded_back q)) input "c1" "U2" 1 0 12 10 13 []
      ((7, consumes "c1" "U2" "main" 5) ∷ (8, creates input "c2" 6) ∷ []) (omega arith)
      (inr (differ "U2" "U1" refl), (differ "bot:confirm:main:c2" "bot:confirm:main:c1" refl, tt))
      (omega arith, (omega arith, omega arith)) (omega arith) (omega arith)
