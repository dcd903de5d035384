-- ===== src/Sessions/Once.antt =====
-- A session that is taken is used once.
use hhc_line_function_bot.Prelude.{
  ℕ, ◌<◌, String, ◌≡◌, refl, true, Option, none, some, List, [], arith, eq_iff, same_text_iff,
  leb→le, le→leb,
}
use hhc_line_function_bot.JsMap.{JsMap, get, get-delete_self}
use hhc_line_function_bot.Sessions.{Session, ReviewLookup, is_action_review, line_sources_equal}
use hhc_line_function_bot.Sessions.Store.{
  live, drop_dead, is_review_for, take_review, take_action_review,
}
use hhc_line_function_bot.Sessions.History.{
  Call, run, NoneStores, stays_absent, run-IsValid, get-Keyed,
}

module _ {J : Type 0} where
  take_review-deletes :
      (lookup : ReviewLookup) (o : Option (Session J)) (m : JsMap (Session J)) {s : Session J}
      → ((r : Session J) → o ≡ some r → r.id ≡ lookup.id)
      → (take_review lookup o m).1 ≡ some s
      → get lookup.id (take_review lookup o m).0 ≡ none
  unfolding take_review
  take_review-deletes lookup none m named h = cc
  take_review-deletes lookup (some r) m named h =
      ground (arith, get-delete_self lookup.id m, named r refl)

  live-stored :
      (now : ℕ) (o : Option (Session J)) (r : Session J) → live now o ≡ some r → o ≡ some r
  live-stored now none r h = cc
  live-stored now (some s) r h = ground arith

  -- A review is taken once. After any history of calls on an empty store let `takeActionReview` return a
  -- review. Then after any further calls, none of which stores a session under that id, no lookup of the
  -- id, whoever asks and whenever, takes a review again, and it changes nothing.
  pub review_once :
      (stringify : Session J → String) (before after : List (Call J)) (lookup again : ReviewLookup)
      (now later : ℕ) {s : Session J}
      → let m = run stringify [] before in
        (take_action_review lookup now m).1 ≡ some s
        → NoneStores lookup.id after
        → again.id ≡ lookup.id
        → let m' = run stringify (take_action_review lookup now m).0 after in
          take_action_review again later m' ≡ (m', none)
  unfolding take_action_review
  review_once stringify before after lookup again now later {s} h fresh same =
      let m = run stringify [] before in
      let (_, keyed) = run-IsValid stringify before in
      let found = live now (get lookup.id m) in
      let named : (r : Session J) → found ≡ some r → r.id ≡ lookup.id =
        λ r e. get-Keyed lookup.id m {s = r} keyed (live-stored now (get lookup.id m) r e) in
      let gone =
        take_review-deletes lookup found (drop_dead now (get lookup.id m) m) {s = s} named h in
      let absent = stays_absent stringify lookup.id after _ fresh gone in
      rw same (rw absent (unfold take_review in refl))

  judged :
      (lookup : ReviewLookup) (o : Option (Session J)) (m : JsMap (Session J)) (s : Session J)
      → (take_review lookup o m).1 ≡ some s
      → (o ≡ some s) × (is_review_for lookup s ≡ true)
  unfolding take_review
  judged lookup none m s h = cc
  judged lookup (some r) m s h = ground arith

  live-unexpired :
      (now : ℕ) (o : Option (Session J)) (r : Session J) → live now o ≡ some r → now < r.expires_at
  live-unexpired now none r h = cc
  live-unexpired now (some s) r h = ground (arith, leb→le s.expires_at now, le→leb s.expires_at now)

  -- A review is only for its requester. A review that `takeActionReview` returns is one stored under the
  -- id of the lookup, has not expired, is an action review, is of the same profile, and its requester and
  -- all four fields of its source are those of the lookup.
  pub review_owner :
      (lookup : ReviewLookup) (now : ℕ) (m : JsMap (Session J)) {s : Session J}
      → (take_action_review lookup now m).1 ≡ some s
      → (get lookup.id m ≡ some s)
        × (now < s.expires_at)
        × (is_action_review s.body ≡ true)
        × (s.profile_name ≡ lookup.profile_name)
        × (s.requester_user_id ≡ some lookup.requester_user_id)
        × (s.source.kind ≡ lookup.source.kind)
        × (s.source.user_id ≡ lookup.source.user_id)
        × (s.source.group_id ≡ lookup.source.group_id)
        × (s.source.room_id ≡ lookup.source.room_id)
  unfolding take_action_review line_sources_equal
  review_owner lookup now m {s} h =
      let o = get lookup.id m in
      let (found, matching) = judged lookup (live now o) (drop_dead now o m) s h in
      let stored = live-stored now o s found in
      let early = live-unexpired now o s found in
      ground (
        arith,
        stored,
        early,
        matching,
        eq_iff s.profile_name lookup.profile_name,
        same_text_iff s.requester_user_id (some lookup.requester_user_id),
        eq_iff s.source.kind lookup.source.kind,
        same_text_iff s.source.user_id lookup.source.user_id,
        same_text_iff s.source.group_id lookup.source.group_id,
        same_text_iff s.source.room_id lookup.source.room_id,
      )
