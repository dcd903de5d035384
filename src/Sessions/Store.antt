-- ===== src/Sessions/Store.antt =====
-- The calls of `InMemorySessionStore`, src/state/session-store.ts. `now` is the clock's reading: the
-- readings of one call are one. `stringify` is `JSON.stringify` of a session.
use hhc_line_function_bot.Prelude.{
  ℕ, ◌+◌, String, Bool, true, false, not, ◌&&◌, ◌||◌, Option, none, some, List, [], ◌∷◌, ◌==◌, leb,
  ltb, if◌then◌else◌, same_text, length, select,
}
use hhc_line_function_bot.JsMap.{JsMap, get, set, delete, values}
use hhc_line_function_bot.Prelude.{sort_by}
use hhc_line_function_bot.Sessions.{
  Session, Lookup, ReviewLookup, type_of, is_ppt_selection, is_selection, is_profile_update,
  is_pending_attachment, is_upload_intent, is_action_review, is_interactive, message_of,
  source_matches, line_sources_equal, requester_matches_for_source,
}

pub record Promotion (J : Type 0) : Type 0 where
  pub pending : Session J
  pub replaced : Option (Session J)

pub record Summary : Type 0 where
  pub total : ℕ
  pub by_type : JsMap ℕ

module _ {J : Type 0} where
  abbrev pub has_expired : ℕ → Session J → Bool
  has_expired now s = leb s.expires_at now

  -- `liveSession`: what is left of the sessions, and the session if it is live.
  abbrev pub live : ℕ → Option (Session J) → Option (Session J)
  live now none = none
  live now (some s) = if has_expired now s then none else some s

  abbrev pub drop_dead : ℕ → Option (Session J) → JsMap (Session J) → JsMap (Session J)
  drop_dead now none m = m
  drop_dead now (some s) m = if has_expired now s then delete s.id m else m

  -- `liveSession` of each of the sessions.
  unfoldable pub drop_all_dead : ℕ → List (Session J) → JsMap (Session J) → JsMap (Session J)
  drop_all_dead now [] m = m
  drop_all_dead now (s ∷ ss) m = drop_all_dead now ss (drop_dead now (some s) m)

  unfoldable pub lives : ℕ → JsMap (Session J) → List (Session J)
  lives now m = select (λ s. not (has_expired now s)) (values m)

  abbrev pub head : List (Session J) → Option (Session J)
  head [] = none
  head (s ∷ ss) = some s

  -- The session that expires last, and of those the first.
  unfoldable pub newest : (Session J → Bool) → ℕ → JsMap (Session J) → Option (Session J)
  unfolding lives
  newest test now m =
      head (sort_by (λ a b. ltb b.expires_at a.expires_at) (select test (lives now m)))

  unfoldable pub fits : Lookup → Session J → Bool
  fits lookup s =
      (s.profile_name == lookup.profile_name)
      && source_matches s.source lookup.source
      && requester_matches_for_source lookup.source s.requester_user_id lookup.requester_user_id

  unfoldable pub find_newest :
      (Session J → Bool) → ℕ → JsMap (Session J) → JsMap (Session J) × Option (Session J)
  unfolding newest drop_all_dead
  find_newest test now m = (drop_all_dead now (values m) m, newest test now m)

  abbrev pub delete_found : Option (Session J) → JsMap (Session J) → JsMap (Session J)
  delete_found none m = m
  delete_found (some s) m = delete s.id m

  unfoldable pub get_session :
      String → ℕ → JsMap (Session J) → JsMap (Session J) × Option (Session J)
  get_session id now m = (drop_dead now (get id m) m, live now (get id m))

  unfoldable pub take_found :
      String → Option (Session J) → JsMap (Session J) → JsMap (Session J) × Option (Session J)
  take_found id none m = (m, none)
  take_found id (some s) m = (delete id m, some s)

  unfoldable pub take_session :
      String → ℕ → JsMap (Session J) → JsMap (Session J) × Option (Session J)
  unfolding take_found
  take_session id now m = take_found id (live now (get id m)) (drop_dead now (get id m) m)

  unfoldable pub find_ppt_selection :
      Lookup → ℕ → JsMap (Session J) → JsMap (Session J) × Option (Session J)
  unfolding find_newest fits
  find_ppt_selection lookup now m =
      find_newest (λ s. is_ppt_selection s.body && fits lookup s) now m

  unfoldable pub find_selection :
      String → Lookup → ℕ → JsMap (Session J) → JsMap (Session J) × Option (Session J)
  unfolding find_newest fits
  find_selection action lookup now m =
      find_newest (λ s. is_selection action s.body && fits lookup s) now m

  unfoldable pub find_profile_update :
      Lookup → ℕ → JsMap (Session J) → JsMap (Session J) × Option (Session J)
  unfolding find_newest fits
  find_profile_update lookup now m =
      find_newest (λ s. is_profile_update s.body && fits lookup s) now m

  unfoldable pub find_pending_attachment :
      Lookup → ℕ → JsMap (Session J) → JsMap (Session J) × Option (Session J)
  unfolding find_newest fits
  find_pending_attachment lookup now m =
      find_newest (λ s. is_pending_attachment s.body && fits lookup s) now m

  unfoldable pub is_json_of : (Session J → String) → Option (Session J) → Session J → Bool
  is_json_of stringify none expected = false
  is_json_of stringify (some s) expected = stringify s == stringify expected

  abbrev pub is_other : (Session J → String) → Option (Session J) → Option (Session J) → Bool
  is_other stringify found none = false
  is_other stringify found (some expected) = not (is_json_of stringify found expected)

  unfoldable pub take_pending_attachment :
      (Session J → String)
      → Lookup
      → Option (Session J)
      → ℕ
      → JsMap (Session J)
      → JsMap (Session J) × Option (Session J)
  unfolding find_pending_attachment is_json_of
  take_pending_attachment stringify lookup expected now m =
      let (m', found) = find_pending_attachment lookup now m in
      if is_other stringify found expected then (m', none) else (delete_found found m', found)

  unfoldable pub take_upload_intent :
      Lookup → ℕ → JsMap (Session J) → JsMap (Session J) × Option (Session J)
  unfolding find_newest fits
  take_upload_intent lookup now m =
      let (m', found) = find_newest (λ s. is_upload_intent s.body && fits lookup s) now m in
      (delete_found found m', found)

  abbrev pub is_review_for : ReviewLookup → Session J → Bool
  is_review_for lookup s =
      is_action_review s.body
      && (s.profile_name == lookup.profile_name)
      && same_text s.requester_user_id (some lookup.requester_user_id)
      && line_sources_equal s.source lookup.source

  unfoldable pub take_review :
      ReviewLookup → Option (Session J) → JsMap (Session J) → JsMap (Session J) × Option (Session J)
  take_review lookup none m = (m, none)
  take_review lookup (some s) m =
      if not (is_review_for lookup s) then (m, none) else (delete s.id m, some s)

  unfoldable pub take_action_review :
      ReviewLookup → ℕ → JsMap (Session J) → JsMap (Session J) × Option (Session J)
  unfolding take_review
  take_action_review lookup now m =
      take_review lookup (live now (get lookup.id m)) (drop_dead now (get lookup.id m) m)

  unfoldable pub find_action_review :
      Lookup → ℕ → JsMap (Session J) → JsMap (Session J) × Option (Session J)
  unfolding find_newest
  find_action_review lookup now m =
      find_newest
        (λ s.
          is_action_review s.body
          && (s.profile_name == lookup.profile_name)
          && line_sources_equal s.source lookup.source
          && same_text s.requester_user_id lookup.requester_user_id)
        now m

  -- The lookup of `promoteUploadIntent`, by the fields of the pending attachment.
  abbrev pub lookup_of : Session J → Lookup
  lookup_of s = record {
    profile_name = s.profile_name;
    source = s.source;
    requester_user_id = s.requester_user_id;
  }

  unfoldable pub promote_found :
      Session J → Option (Session J) → JsMap (Session J) → JsMap (Session J) × Option (Promotion J)
  promote_found pending none m = (m, none)
  promote_found pending (some current) m =
      if is_pending_attachment current.body
      then if same_text (message_of current.body) (message_of pending.body)
        then (m, some (record { pending = current; replaced = none }))
        else (m, none)
      else (
        set pending.id pending (delete current.id m),
        some (record { pending = pending; replaced = some current }),
      )

  unfoldable pub promote_upload_intent :
      Session J → ℕ → JsMap (Session J) → JsMap (Session J) × Option (Promotion J)
  unfolding promote_found find_newest fits
  promote_upload_intent pending now m =
      let (m', found) =
        find_newest
          (λ s.
            (is_upload_intent s.body || is_pending_attachment s.body) && fits (lookup_of pending) s)
          now m in
      promote_found pending found m'

  unfoldable pub restore_found :
      Session J → Session J → ℕ → Option (Session J) → JsMap (Session J) → JsMap (Session J) × Bool
  restore_found pending replaced now none m = (m, false)
  restore_found pending replaced now (some current) m =
      if not (is_pending_attachment current.body)
        || not (same_text (message_of current.body) (message_of pending.body))
      then (m, false)
      else (
        if ltb now replaced.expires_at
            then set replaced.id replaced (delete current.id m)
            else delete current.id m,
        true,
      )

  unfoldable pub restore_upload_intent :
      Promotion J → Option (Session J) → ℕ → JsMap (Session J) → JsMap (Session J) × Bool
  unfolding restore_found
  restore_upload_intent promotion none now m = (m, false)
  restore_upload_intent promotion (some replaced) now m =
      restore_found promotion.pending replaced now (live now (get promotion.pending.id m))
        (drop_dead now (get promotion.pending.id m) m)

  unfoldable pub restore_upload_intent_promotion :
      Promotion J → ℕ → JsMap (Session J) → JsMap (Session J) × Bool
  unfolding restore_upload_intent
  restore_upload_intent_promotion promotion now m =
      restore_upload_intent promotion promotion.replaced now m

  unfoldable pub update_pending_attachment :
      (Session J → String)
      → Session J
      → Session J
      → ℕ
      → JsMap (Session J)
      → JsMap (Session J) × Bool
  unfolding is_json_of
  update_pending_attachment stringify expected updated now m =
      let m' = drop_dead now (get expected.id m) m in
      if not (updated.id == expected.id)
        || not (is_json_of stringify (live now (get expected.id m)) expected)
      then (m', false)
      else (set updated.id updated m', true)

  -- The sessions that a new interactive session of its requester replaces.
  unfoldable pub conflicts : Session J → Session J → Bool
  conflicts s existing =
      not (existing.id == s.id)
      && is_interactive existing
      && (existing.profile_name == s.profile_name)
      && source_matches existing.source s.source
      && requester_matches_for_source s.source existing.requester_user_id s.requester_user_id

  unfoldable pub delete_conflicts :
      Session J → List (Session J) → JsMap (Session J) → JsMap (Session J)
  unfolding conflicts
  delete_conflicts s [] m = m
  delete_conflicts s (e ∷ es) m = delete_conflicts s es (if conflicts s e then delete e.id m else m)

  unfoldable pub set_session : ℕ → Session J → ℕ → JsMap (Session J) → JsMap (Session J)
  unfolding delete_conflicts is_interactive
  set_session ttl_ms s now m =
      let cleared = if is_interactive s then delete_conflicts s (values m) m else m in
      set s.id (record s { expires_at = if leb s.expires_at 0 then now + ttl_ms else s.expires_at })
        cleared

  abbrev pub delete_session : String → JsMap (Session J) → JsMap (Session J)
  delete_session id m = delete id m

  unfoldable pub count_types : List (Session J) → JsMap ℕ → JsMap ℕ
  count_types [] counts = counts
  count_types (s ∷ ss) counts =
      let k = type_of s.body in
      count_types ss (set k (elim (get k counts) [ none ↦ 1 | some n ↦ n + 1 ]) counts)

  unfoldable pub summary : ℕ → JsMap (Session J) → JsMap (Session J) × Summary
  unfolding count_types lives drop_all_dead
  summary now m = (
    drop_all_dead now (values m) m,
    record { total = length (lives now m); by_type = count_types (lives now m) [] },
  )

  unfoldable pub clear : JsMap (Session J) → JsMap (Session J) × ℕ
  clear m = ([], length m)
