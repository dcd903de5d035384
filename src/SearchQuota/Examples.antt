-- ===== src/SearchQuota/Examples.antt =====
-- A day of searches, and the theorem at concrete inputs.
use hhc_line_function_bot.Prelude.{
  ℕ, ◌≤◌, String, ◌≡◌, refl, true, false, Option, none, some, List, [], ◌∷◌, arith, eq_iff, ap,
}
use hhc_line_function_bot.JsMap.{get, set}
use hhc_line_function_bot.Line.{Source}
use hhc_line_function_bot.Packing.{pack_number, unpack_number, unpack-pack_number}
use hhc_line_function_bot.Redis.{map_redis, map_redis-IsLawful}
use hhc_line_function_bot.SearchQuota.{
  Settings, Keys, Texts, used_so_far, take_one, reserve_unseen, reserve_script, reserve,
  reserve_subject, keys_of,
}
use hhc_line_function_bot.SearchQuota.Daily.{Call, granted, granted_bound}

abbrev texts : Texts
texts = record {
  digest = λ t. t;
  day_of = λ n. "2026-01-02";
  start_of = λ d. 86400000;
  show = λ n. pack_number n "";
  number_of = λ s. (unpack_number s).0;
}

read_back : (n : ℕ) → texts.number_of (texts.show n) ≡ n
read_back n = ap (λ x. x.0) (unpack-pack_number n "")

abbrev chat : Source
chat = record { kind = "group"; user_id = some "U1"; group_id = some "G1"; room_id = none }

abbrev settings : Option Settings
settings = some (record { enabled = true; direct_daily_limit = 5; group_daily_limit = 1 })

first_search : (reserve map_redis texts "b" "helper" chat "e1" settings 10 []).1 ≡ true
unfolding reserve reserve_subject reserve_script reserve_unseen used_so_far take_one keys_of get set
    unpack_number pack_number
first_search = refl

second_search :
    (reserve map_redis texts "b" "helper" chat "e2" settings 20
      (reserve map_redis texts "b" "helper" chat "e1" settings 10 []).0).1
    ≡ false
unfolding reserve reserve_subject reserve_script reserve_unseen used_so_far take_one keys_of get set
    unpack_number pack_number
second_search = refl

abbrev keys : String → Keys
keys event = record { counter = "c"; event = event; today = "t"; yesterday = "y" }

abbrev searches : List Call
searches =
    record { now = 10; keys = keys "e1"; limit = 1 }
    ∷ record { now = 20; keys = keys "e2"; limit = 1 }
    ∷ []

granted_bound_example : granted map_redis map_redis-IsLawful texts read_back "c" 1 0 [] searches ≤ 1
unfolding get
granted_bound_example =
    granted_bound map_redis map_redis-IsLawful texts read_back "c" 1 0 [] searches refl (
      omega arith,
      omega arith,
      (λ e. ground (arith, eq_iff "e1" "c")),
      (λ e. omega arith),
      (omega arith, omega arith, (λ e. ground (arith, eq_iff "e2" "c")), (λ e. omega arith), tt),
    )
