-- ===== src/Sessions/Promotion.antt =====
-- An upload intent that a pending attachment replaced comes back when the promotion is undone.
use mathlib.Core.Path.{subst}
use hhc_line_function_bot.Sessions.Interactive.{is_uploading}
use hhc_line_function_bot.Prelude.{
  ℕ, ◌<◌, String, ◌≡◌, ap, ◌∙◌, ◌≢◌, true, false, Option, none, some, List, [], ◌∷◌, arith, leb→le,
  lt→ltb, eq_iff, same_text_iff, All,
}
use hhc_line_function_bot.JsMap.{JsMap, get, set, delete, values, get-set, get-set_self, get-delete}
use hhc_line_function_bot.Sessions.{Session, is_pending_attachment, message_of}
use hhc_line_function_bot.Sessions.Store.{
  Promotion, promote_found, promote_upload_intent, find_newest, drop_dead, drop_all_dead,
  has_expired, restore_found, restore_upload_intent, restore_upload_intent_promotion,
}
use hhc_line_function_bot.Sessions.History.{IsValid, drop_all_dead-keeps}
use hhc_line_function_bot.Sessions.Newest.{IsNewest, find_newest-IsNewest, All-stored, All-implies}

module _ {J : Type 0} where
  drop_dead-spares :
      (now : ℕ) (x s : Session J) (m : JsMap (Session J)) (k : String)
      → get k m ≡ some s
      → now < s.expires_at
      → (x.id ≡ k → x ≡ s)
      → get k (drop_dead now (some x) m) ≡ some s
  drop_dead-spares now x s m k g early only =
      let alive : x.id ≡ k → has_expired now x ≡ false =
        λ e. ap (has_expired now) (only e) ∙ ground (arith, leb→le s.expires_at now) in
      ground (arith, get-delete x.id k m, eq_iff x.id k)

  -- A live session is not dropped.
  live-stays :
      (now : ℕ) (ss : List (Session J)) (m : JsMap (Session J)) (k : String) (s : Session J)
      → get k m ≡ some s
      → now < s.expires_at
      → All (λ x. x.id ≡ k → x ≡ s) ss
      → get k (drop_all_dead now ss m) ≡ some s
  unfolding drop_all_dead
  live-stays now [] m k s g early a = g
  live-stays now (x ∷ ss) m k s g early (only, a) =
      live-stays now ss (drop_dead now (some x) m) k s (drop_dead-spares now x s m k g early only)
        early a

  stored-only :
      (m : JsMap (Session J)) (k : String) (s : Session J)
      → IsValid m
      → get k m ≡ some s
      → All (λ x. x.id ≡ k → x ≡ s) (values m)
  stored-only m k s v g =
      All-implies (λ x. get x.id m ≡ some x) (λ x. x.id ≡ k → x ≡ s) (values m)
        (λ x h e. ground (arith, ap (λ i. get i m) e)) (All-stored m v)

  -- The replaced session of a promotion is an upload intent that was found.
  promoted :
      (pending u : Session J) (o : Option (Session J)) (n : JsMap (Session J)) (p : Promotion J)
      → (promote_found pending o n).1 ≡ some p
      → p.replaced ≡ some u
      → (o ≡ some u)
        × (p.pending ≡ pending)
        × ((promote_found pending o n).0 ≡ set pending.id pending (delete u.id n))
  unfolding promote_found
  promoted pending u none n p h r = cc
  promoted pending u (some current) n p h r = ground arith

  -- Putting `u` back for `pending`.
  back :
      (pending u : Session J) (n : JsMap (Session J)) (later : ℕ)
      → is_pending_attachment pending.body ≡ true
      → later < u.expires_at
      → restore_found pending u later (some pending) n ≡ (set u.id u (delete pending.id n), true)
  unfolding restore_found
  back pending u n later i early = ground (
    arith,
    lt→ltb later u.expires_at,
    same_text_iff (message_of pending.body) (message_of pending.body),
  )

  back_where :
      (pending u : Session J) (n : JsMap (Session J)) (j : String)
      → pending.id ≢ u.id
      → get u.id n ≡ some u
      → get pending.id n ≡ none
      → get j (set u.id u (delete pending.id (set pending.id pending (delete u.id n)))) ≡ get j n
  back_where pending u n j differs gu gp = ground (
    arith,
    get-set u.id j u (delete pending.id (set pending.id pending (delete u.id n))),
    get-delete pending.id j (set pending.id pending (delete u.id n)),
    get-set pending.id j pending (delete u.id n),
    get-delete u.id j n,
    eq_iff u.id j,
    eq_iff pending.id j,
  )

  undone :
      (p : Promotion J) (pending u : Session J) (later : ℕ) (n m' : JsMap (Session J))
      → p.replaced ≡ some u
      → p.pending ≡ pending
      → m' ≡ set pending.id pending (delete u.id n)
      → is_pending_attachment pending.body ≡ true
      → later < pending.expires_at
      → later < u.expires_at
      → restore_upload_intent_promotion p later m'
        ≡ (set u.id u (delete pending.id (set pending.id pending (delete u.id n))), true)
  unfolding restore_upload_intent_promotion restore_upload_intent
  undone p pending u later n m' r e after i early early' =
      let n' = set pending.id pending (delete u.id n) in
      let held : get pending.id n' ≡ some pending =
        get-set_self pending.id pending (delete u.id n) in
      let alive : has_expired later pending ≡ false =
        ground (arith, leb→le pending.expires_at later) in
      rw (r, e, after) (rw held (rw alive (back pending u n' later i early')))

  -- A promotion can be undone. In a store where every session stands once and under its own id, let
  -- `promoteUploadIntent` store a pending attachment, under an id that the store did not have, for an
  -- upload intent. Then `restoreUploadIntentPromotion`, while neither of the two has expired, answers
  -- that it restored, and leaves under every id what the store had, but for what had expired when the
  -- promotion was made.
  pub promotion_undone :
      (pending : Session J) (now later : ℕ) (m : JsMap (Session J)) {p : Promotion J}
      {u : Session J}
      → IsValid m
      → get pending.id m ≡ none
      → is_pending_attachment pending.body ≡ true
      → (promote_upload_intent pending now m).1 ≡ some p
      → p.replaced ≡ some u
      → later < pending.expires_at
      → later < u.expires_at
      → let (restored, answer) =
          restore_upload_intent_promotion p later (promote_upload_intent pending now m).0 in
        (answer ≡ true) × ((j : String) → get j restored ≡ get j (drop_all_dead now (values m) m))
  unfolding promote_upload_intent restore_upload_intent_promotion restore_upload_intent find_newest
  promotion_undone pending now later m {p} {u} v new i h r early early' =
      let n = drop_all_dead now (values m) m in
      let (found, same, after) = promoted pending u _ n p h r in
      let (g, passes, live_u, last) =
        subst (IsNewest (is_uploading pending) now m) found
          (unfold find_newest in find_newest-IsNewest (is_uploading pending) now m v) in
      let kept = live-stays now (values m) m u.id u g live_u (stored-only m u.id u v g) in
      let absent =
        drop_all_dead-keeps (λ k. get pending.id k ≡ none)
          (λ k q a. ground (arith, get-delete k pending.id q)) now (values m) m new in
      let differs : pending.id ≢ u.id = λ e. ground (arith, ap (λ k. get k m) e) in
      let e = undone p pending u later n _ r same after i early early' in
      (ap (λ x. x.1) e, λ j. ap (λ x. get j x.0) e ∙ back_where pending u n j differs kept absent)
