-- ===== src/RateLimit/Examples.antt =====
-- Runs of the limiter, and the theorems at concrete inputs.
use hhc_line_function_bot.Prelude.{ℕ, ◌≤◌, ◌≡◌, refl, true, false, none, some, List, [], ◌∷◌, arith}
use hhc_line_function_bot.JsMap.{get, set, sweep}
use hhc_line_function_bot.RateLimit.{
  Config, Check, group_limit, bucket_keys, check, check_keys, hit_both, hit_group, hit,
}
use hhc_line_function_bot.RateLimit.Bound.{
  is_requester, is_chat, let_through, requester_limit, chat_limit,
}

abbrev config : Config
config = record { group_max_requests = none; enabled = true; window_ms = 60; max_requests = 1 }

abbrev from_group : Check
from_group = record {
  profile_name = "main";
  source = record { kind = "group"; user_id = some "U"; group_id = some "G"; room_id = none };
}

keys_of_group : bucket_keys from_group ≡ some ("main:group:G:requester:U", some "main:group:G")
unfolding bucket_keys
keys_of_group = refl

-- The third request is refused as the second is, and is not notified of again.
third_request :
    let first = (check config 10 from_group []).0 in
    let second = (check config 11 from_group first).0 in
    (check config 12 from_group second).1
    ≡ record { allowed = false; remaining = 0; reset_at = 70; should_notify = false }
unfolding check check_keys bucket_keys hit_both hit_group hit group_limit get set sweep
third_request = refl

abbrev checks : List (ℕ × Check)
checks = (10, from_group) ∷ (11, from_group) ∷ (12, from_group) ∷ []

requester_limit_example :
    let_through (λ c. is_requester "main:group:G:requester:U" (bucket_keys c)) config [] checks ≤ 1
unfolding get
requester_limit_example =
    requester_limit config 10 "main:group:G:requester:U" [] checks refl tt refl (omega arith)

chat_limit_example :
    let_through (λ c. is_chat "main:group:G" (bucket_keys c)) config [] checks ≤ 100
unfolding get group_limit
chat_limit_example = chat_limit config 10 "main:group:G" [] checks refl tt refl (omega arith)
