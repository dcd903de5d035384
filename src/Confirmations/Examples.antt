-- ===== src/Confirmations/Examples.antt =====
-- Runs of the confirmation store, and the theorems at concrete inputs.
use hhc_line_function_bot.Prelude.{ℕ, String, ◌≡◌, refl, none, some, [], ◌∷◌}
use hhc_line_function_bot.JsMap.{get}
use hhc_line_function_bot.Prelude.{String, ℕ}
use hhc_line_function_bot.Actions.{knowledge_source_remove}
use hhc_line_function_bot.Confirmations.{
  text, number, other, Request, CreateInput, key, is_source_key, sanitize_entries, sanitized,
  new_request, create, trimmed, consume, consume_found,
}
use hhc_line_function_bot.Confirmations.Sanitized.{SafeArgs, HoldsSafe, create-SafeArgs}
use hhc_line_function_bot.Confirmations.Once.{creates, consumes, run, consumed_once}

abbrev sha : String → String
sha t = t

abbrev input : CreateInput ℕ
input = record {
  profile_name = "main";
  actor_user_id = "U1";
  action = knowledge_source_remove;
  args = some (
      ("sourceKey", text "hymns-2")
      ∷ ("note", text "secret")
      ∷ ("size", number 3)
      ∷ ("x", other)
      ∷ []);
  ttl_minutes = 5;
}

hidden_args :
    (create sha input "c1" 0 []).1.args
    ≡ some (("sourceKey", text "hymns-2") ∷ ("note", text "present") ∷ ("size", number 3) ∷ [])
unfolding create new_request sanitize_entries sanitized is_source_key
hidden_args = refl

create-SafeArgs_example :
    let m = run sha [] (creates input "c1" 0 ∷ []) in
    let (m', request) = create sha input "c2" 1 m in
    HoldsSafe (get "main:c1" m) × SafeArgs request.args × (get "main:c2" m' ≡ some request)
unfolding key trimmed
create-SafeArgs_example = create-SafeArgs sha (creates input "c1" 0 ∷ []) "main:c1" input "c2" 1

abbrev removal : Request ℕ
removal = record {
  id = "c1";
  profile_name = "main";
  actor_user_id = "U1";
  action = knowledge_source_remove;
  args = none;
  created_at = 0;
  expires_at = 300000;
}

consumed_once_example :
    let m' =
      run sha
        (consume sha "c1" "U1" "main" 10 (("main:c1", removal) ∷ [])).0
        (consumes "c1" "U2" "main" 11 ∷ []) in
    consume sha "c1" "U1" "main" 12 m' ≡ (m', none)
unfolding consume consume_found key get
consumed_once_example =
    consumed_once sha "c1" "U1" "U1" "main" 10 12 (("main:c1", removal) ∷ [])
      (consumes "c1" "U2" "main" 11 ∷ []) {r = removal} refl tt
