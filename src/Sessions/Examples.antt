-- ===== src/Sessions/Examples.antt =====
-- Runs of the session store, and the theorems at concrete inputs.
use hhc_line_function_bot.Prelude.{
  ℕ, ◌<◌, String, ◌≡◌, refl, ap, inl, true, none, some, List, [], ◌∷◌, arith,
}
use hhc_line_function_bot.JsMap.{JsMap, get, set, delete, values}
use hhc_line_function_bot.Line.{Source}
use hhc_line_function_bot.Sessions.{
  Session, ReviewLookup, Body, upload_intent, pending_attachment, action_review,
  propose_save_memory, image, is_interactive, is_action_review, source_matches,
  requester_matches_for_source, line_sources_equal,
}
use hhc_line_function_bot.Sessions.Store.{
  find_newest, newest, lives, fits, drop_all_dead, take_action_review, take_review, promote_found,
  promote_upload_intent, restore_upload_intent_promotion, set_session, delete_conflicts, conflicts,
}
use hhc_line_function_bot.Sessions.History.{Call, sets, gets, promotes, run, step}
use hhc_line_function_bot.Sessions.Once.{review_once, review_owner}
use hhc_line_function_bot.Sessions.Newest.{IsNewest, find_newest-IsNewest}
use hhc_line_function_bot.Sessions.Exclusive.{chat_of}
use hhc_line_function_bot.Sessions.Interactive.{one_interactive}
use hhc_line_function_bot.Sessions.Promotion.{promotion_undone}

abbrev choir : Source
choir = record { kind = "group"; user_id = some "U1"; group_id = some "G1"; room_id = none }

abbrev session : String → Body ℕ → ℕ → Session ℕ
session id body expires_at = record {
  id = id;
  profile_name = "main";
  requester_user_id = some "U1";
  source = choir;
  body = body;
  expires_at = expires_at;
}

abbrev review : Session ℕ
review =
    session "r1"
      (action_review (record {
        thread_id = none;
        interrupt_id = none;
        tool_name = propose_save_memory;
        arguments_hash = "h";
        draft_arguments = none;
        approval_expires_at = none;
        policy_key = "p";
        result_job_id = "j";
      }))
      900

abbrev intent : Session ℕ
intent = session "u1" upload_intent 500

abbrev photo : Session ℕ
photo =
    session "p1"
      (pending_attachment (record {
        stage = none;
        media_sync_source_key = none;
        attachment = record {
          message_id = "m1";
          message_type = image;
          file_name = none;
          file_size = none;
        };
        destination = none;
        target = none;
      }))
      700

abbrev ask : ReviewLookup
ask = record { id = "r1"; profile_name = "main"; source = choir; requester_user_id = "U1" }

abbrev one_intent : JsMap (Session ℕ)
one_intent = ("u1", intent) ∷ []

abbrev one_review : JsMap (Session ℕ)
one_review = ("r1", review) ∷ []

abbrev two_sessions : JsMap (Session ℕ)
two_sessions = ("u1", intent) ∷ ("r1", review) ∷ []

abbrev json : Session ℕ → String
json s = s.id

stored_review : run json [] (sets 100 review 10 ∷ []) ≡ (("r1", review) ∷ [])
unfolding run step set_session delete_conflicts is_interactive set values
stored_review = refl

replaced_by_intent :
    run json [] (sets 100 review 10 ∷ sets 100 intent 20 ∷ []) ≡ (("u1", intent) ∷ [])
unfolding run step set_session delete_conflicts conflicts is_interactive set values delete
    source_matches requester_matches_for_source
replaced_by_intent = refl

review_once_example :
    let m = run json [] (sets 100 review 10 ∷ []) in
    let m' = run json (take_action_review ask 20 m).0 (gets "r1" 30 ∷ []) in
    take_action_review ask 40 m' ≡ (m', none)
unfolding run step set_session delete_conflicts is_interactive set values get take_action_review
    take_review line_sources_equal
review_once_example =
    review_once json (sets 100 review 10 ∷ []) (gets "r1" 30 ∷ []) ask ask 20 40 {s = review} refl
      (tt, tt) refl

review_owner_example :
    (get "r1" one_review ≡ some review)
    × (20 < review.expires_at)
    × (is_action_review review.body ≡ true)
    × (review.profile_name ≡ ask.profile_name)
    × (review.requester_user_id ≡ some ask.requester_user_id)
    × (review.source.kind ≡ ask.source.kind)
    × (review.source.user_id ≡ ask.source.user_id)
    × (review.source.group_id ≡ ask.source.group_id)
    × (review.source.room_id ≡ ask.source.room_id)
unfolding get take_action_review take_review line_sources_equal
review_owner_example = review_owner ask 20 one_review {s = review} refl

find_newest-IsNewest_example :
    IsNewest is_interactive 20 two_sessions (find_newest is_interactive 20 two_sessions).1
unfolding get
find_newest-IsNewest_example =
    find_newest-IsNewest is_interactive 20 two_sessions ((refl, (refl, tt)), (refl, (refl, tt)))

abbrev uploads : List (Call ℕ)
uploads = sets 100 review 10 ∷ sets 100 intent 20 ∷ promotes photo 30 ∷ []

after_uploads : run json [] uploads ≡ (("p1", photo) ∷ [])
unfolding run step set_session delete_conflicts conflicts is_interactive set values delete
    source_matches requester_matches_for_source promote_upload_intent promote_found find_newest
    newest lives fits drop_all_dead
after_uploads = refl

one_interactive_example : photo.id ≡ "p1"
unfolding get is_interactive chat_of
one_interactive_example =
    one_interactive json uploads "p1" "p1" {s = photo} {t = photo}
      (λ _. ("U1", refl, refl), (λ _. ("U1", refl, refl), (("U1", refl, refl), tt)))
      (ap (get "p1") after_uploads) (ap (get "p1") after_uploads) refl refl
      (refl, (inl refl, refl, refl), refl)

promotion_undone_example :
    let (restored, answer) =
      restore_upload_intent_promotion
        (record { pending = photo; replaced = some intent })
        40
        (promote_upload_intent photo 30 one_intent).0 in
    (answer ≡ true)
    × ((j : String) → get j restored ≡ get j (drop_all_dead 30 (values one_intent) one_intent))
unfolding get promote_upload_intent promote_found find_newest newest lives fits drop_all_dead values
    source_matches requester_matches_for_source
promotion_undone_example =
    promotion_undone photo 30 40 one_intent {p = record { pending = photo; replaced = some intent }}
      {u = intent} ((refl, tt), (refl, tt)) refl refl refl refl (omega arith) (omega arith)
