-- ===== src/Sessions/Interactive.antt =====
-- Every call keeps one interactive session for a requester. `restoreUploadIntentPromotion`, which puts
-- back what a promotion replaced whoever owns it, is not among the calls here.
use mathlib.Core.Path.{subst}
use hhc_line_function_bot.Prelude.{
  ℕ, String, ◌≡◌, refl, ap, sym, ◌∙◌, ◌≢◌, inl, inr, Bool, true, false, not, ◌&&◌, ◌||◌, Option,
  none, some, List, [], ◌∷◌, arith, if◌then◌else◌, ◌==◌, eq_iff, eq_self, Bool-cases, All,
}
use hhc_line_function_bot.JsMap.{JsMap, get, set, delete, values, get-delete}
use hhc_line_function_bot.Sessions.{
  Session, is_interactive, is_pending_attachment, is_upload_intent,
}
use hhc_line_function_bot.Sessions.Store.{
  conflicts, delete_conflicts, set_session, promote_found, promote_upload_intent, find_newest, fits,
  lookup_of, drop_dead, drop_all_dead, live, clear, is_json_of, update_pending_attachment,
}
use hhc_line_function_bot.Sessions.History.{
  deletes, Call, sets, gets, takes, finds, takes_pending, takes_upload, takes_review, promotes,
  restores, updates, clears, step, run, get-Keyed, drop_dead-keeps, drop_all_dead-keeps,
  delete_conflicts-keeps, quiet-keeps,
}
use hhc_line_function_bot.Sessions.Newest.{IsNewest, find_newest-IsNewest, All-values}
use hhc_line_function_bot.Sessions.Exclusive.{
  SameChat, same_owner, Owned, SameOwner, owner-SameOwner, SameOwner-owner, SameOwner-sym,
  SameOwner-trans, Sound, delete-Sound, set-Sound,
}

module _ {J : Type 0} where
  -- What a store has left of another.
  abbrev Within : JsMap (Session J) → JsMap (Session J) → Type 0
  Within m n = (k : String) (s : Session J) → get k n ≡ some s → get k m ≡ some s

  delete-Within :
      (m : JsMap (Session J)) (k : String) (n : JsMap (Session J))
      → Within m n
      → Within m (delete k n)
  delete-Within m k n h j s g = h j s (ground (arith, get-delete k j n))

  left_by_conflicts :
      (s : Session J) (es : List (Session J)) (m : JsMap (Session J))
      → Within m (delete_conflicts s es m)
  left_by_conflicts s es m = delete_conflicts-keeps (Within m) (delete-Within m) s es m (λ k t g. g)

  gone_first :
      (s e : Session J) (es : List (Session J)) (m : JsMap (Session J)) (k : String) (t : Session J)
      (b : Bool)
      → conflicts s e ≡ b
      → get k (delete_conflicts s es (if b then delete e.id m else m)) ≡ some t
      → e.id ≡ k
      → conflicts s e ≡ false
  gone_first s e es m k t false kept h same = kept
  gone_first s e es m k t true gone h same =
      ground (arith, left_by_conflicts s es (delete e.id m) k t h, get-delete e.id k m, eq_self k)

  -- No conflicting session is left.
  conflicts-gone :
      (s : Session J) (es : List (Session J)) (m : JsMap (Session J)) (k : String) (t : Session J)
      → get k (delete_conflicts s es m) ≡ some t
      → All (λ e. e.id ≡ k → conflicts s e ≡ false) es
  unfolding delete_conflicts
  conflicts-gone s [] m k t g = tt
  conflicts-gone s (e ∷ es) m k t g = (
    gone_first s e es m k t (conflicts s e) refl g,
    conflicts-gone s es (if conflicts s e then delete e.id m else m) k t g,
  )

  no_conflict-differs :
      (s t : Session J)
      → conflicts s t ≡ false
      → is_interactive t ≡ true
      → same_owner t s ≡ true
      → s.id ≡ t.id
  unfolding conflicts same_owner
  no_conflict-differs s t h i o = ground (arith, eq_iff t.id s.id)

  -- After the conflicting sessions are deleted, the new session is the only one of its owner.
  cleared-alone :
      (s : Session J) (m : JsMap (Session J)) (j : String) (t : Session J)
      → Sound m
      → Owned s
      → get j (delete_conflicts s (values m) m) ≡ some t
      → is_interactive t ≡ true
      → SameOwner t s
      → s.id ≡ j
  cleared-alone s m j t ((d, keyed), owned, one) own g i same =
      let stored = left_by_conflicts s (values m) m j t g in
      let named = get-Keyed j m {s = t} keyed stored in
      let gone =
        All-values (λ e. e.id ≡ j → conflicts s e ≡ false) m j {s = t}
          (conflicts-gone s (values m) m j t g) stored named in
      no_conflict-differs s t gone i (SameOwner-owner t s (owned j t stored i) own same) ∙ named

  set-keeps :
      (ttl_ms : ℕ) (s : Session J) (now : ℕ) (m : JsMap (Session J))
      → (is_interactive s ≡ true → Owned s)
      → Sound m
      → Sound (set_session ttl_ms s now m)
  unfolding set_session is_interactive
  set-keeps ttl_ms s now m own sound = elim (Bool-cases (is_interactive s)) [
    | inl i ↦ rw i (
        set-Sound (record s { expires_at = _ }) (delete_conflicts s (values m) m)
          (delete_conflicts-keeps Sound delete-Sound s (values m) m sound) own
          (λ j t g u w same. cleared-alone s m j t sound (own i) g w same))
    | inr quiet ↦ rw quiet (
        set-Sound (record s { expires_at = _ }) m sound own
          (λ j t g u w same. ground (arith, quiet)))
  ]

  -- The owner of the session that a promotion replaces has no other interactive session.
  promoted-Sound :
      (pending current : Session J) (m n : JsMap (Session J))
      → Sound m
      → Sound n
      → Within m n
      → Owned pending
      → get current.id m ≡ some current
      → is_interactive current ≡ true
      → same_owner current pending ≡ true
      → Sound (set pending.id pending (delete current.id n))
  promoted-Sound pending current m n (v, owned, one) sound within own g i o =
      set-Sound pending (delete current.id n) (delete-Sound current.id n sound) (λ _. own) alone
    where
      alone :
          (j : String) (t : Session J)
          → get j (delete current.id n) ≡ some t
          → is_interactive pending ≡ true
          → is_interactive t ≡ true
          → SameOwner t pending
          → pending.id ≡ j
      alone j t h u w same =
          let left : (current.id ≢ j) × (get j n ≡ some t) =
            ground (arith, get-delete current.id j n, eq_iff current.id j) in
          let other = owner-SameOwner current pending (owned current.id current g i) own o in
          let back = SameOwner-trans current pending t other (SameOwner-sym t pending same) in
          absurd (left.0 (one current.id j current t g (within j t left.1) i w back))

  abbrev pub is_uploading : Session J → Session J → Bool
  is_uploading pending s =
      (is_upload_intent s.body || is_pending_attachment s.body) && fits (lookup_of pending) s

  uploading-owner :
      (pending s : Session J)
      → is_uploading pending s ≡ true
      → (is_interactive s ≡ true) × (same_owner s pending ≡ true)
  unfolding is_interactive fits same_owner
  uploading-owner pending s h = ground arith

  promote_found-Sound :
      (pending : Session J) (o : Option (Session J)) (m n : JsMap (Session J)) (now : ℕ)
      → Sound m
      → Sound n
      → Within m n
      → Owned pending
      → IsNewest (is_uploading pending) now m o
      → Sound (promote_found pending o n).0
  unfolding promote_found
  promote_found-Sound pending none m n now sm sn w own f = sn
  promote_found-Sound pending (some current) m n now sm sn w own (g, passes, early, last) =
      let (i, o) = uploading-owner pending current passes in
      let p = promoted-Sound pending current m n sm sn w own g i o in ground (arith, sn, p)

  promote-keeps :
      (pending : Session J) (now : ℕ) (m : JsMap (Session J))
      → Owned pending
      → Sound m
      → Sound (promote_upload_intent pending now m).0
  unfolding promote_upload_intent find_newest
  promote-keeps pending now m own sound =
      promote_found-Sound pending _ m (drop_all_dead now (values m) m) now sound
        (drop_all_dead-keeps Sound delete-Sound now (values m) m sound)
        (drop_all_dead-keeps (Within m) (delete-Within m) now (values m) m (λ k s g. g)) own
        (unfold find_newest in find_newest-IsNewest (is_uploading pending) now m sound.0)

  -- What an update may change: not whom the attachment is for.
  abbrev pub SameAttachment : Session J → Session J → Type 0
  SameAttachment expected updated =
      (is_interactive expected ≡ true)
      × (updated.profile_name ≡ expected.profile_name)
      × (updated.source ≡ expected.source)
      × (updated.requester_user_id ≡ expected.requester_user_id)

  updated-Sound :
      (expected updated : Session J) (m : JsMap (Session J))
      → Sound m
      → SameAttachment expected updated
      → get updated.id m ≡ some expected
      → Sound (set updated.id updated m)
  updated-Sound expected updated m (v, owned, one) (i, p, s, r) g =
      let (u, named, filled) = owned updated.id expected g i in
      let moved : (t : Session J) → SameOwner t updated → SameOwner expected t = λ t same.
        let (p', c, r') = SameOwner-sym t updated same in
        (sym p ∙ p', subst (λ x. SameChat x t.source) s c, sym r ∙ r') in
      set-Sound updated m (v, owned, one) (λ _. (u, r ∙ named, filled))
        (λ j t h a w same. one updated.id j expected t g h i w (moved t same))

  live-stored :
      (now : ℕ) (id : String) (m : JsMap (Session J)) {s : Session J}
      → live now (get id m) ≡ some s
      → (get id m ≡ some s) × (drop_dead now (get id m) m ≡ m)
  live-stored now id m {s} h = kept (get id m) refl h
    where
      kept :
          (o : Option (Session J))
          → get id m ≡ o
          → live now o ≡ some s
          → (o ≡ some s) × (drop_dead now o m ≡ m)
      kept none g l = cc
      kept (some r) g l = ground arith

  json-same :
      (stringify : Session J → String) (o : Option (Session J)) (expected : Session J)
      → is_json_of stringify o expected ≡ true
      → (s : Session J) × (o ≡ some s) × (stringify s ≡ stringify expected)
  unfolding is_json_of
  json-same stringify none expected h = cc
  json-same stringify (some s) expected h =
      (s, refl, ground (arith, eq_iff (stringify s) (stringify expected)))

  -- Whatever session has the JSON of `expected`, the update keeps whom it is for.
  abbrev pub KeepsOwner : (Session J → String) → Session J → Session J → Type 0
  KeepsOwner stringify expected updated =
      (s : Session J) → stringify s ≡ stringify expected → SameAttachment s updated

  update-keeps :
      (stringify : Session J → String) (expected updated : Session J) (now : ℕ)
      (m : JsMap (Session J))
      → KeepsOwner stringify expected updated
      → Sound m
      → Sound (update_pending_attachment stringify expected updated now m).0
  unfolding update_pending_attachment
  update-keeps stringify expected updated now m same sound =
      elim (Bool-cases (
        not (updated.id == expected.id)
        || not (is_json_of stringify (live now (get expected.id m)) expected))) [
          | inl refused ↦
              rw refused (drop_dead-keeps Sound delete-Sound now (get expected.id m) m sound)
          | inr allowed ↦ rw allowed (
              let matched : is_json_of stringify (live now (get expected.id m)) expected ≡ true =
                ground arith in
              let e : updated.id ≡ expected.id = ground (arith, eq_iff updated.id expected.id) in
              let (s, found, json) =
                json-same stringify (live now (get expected.id m)) expected matched in
              let (g, left) = live-stored now expected.id m {s = s} found in
              rw left (updated-Sound s updated m sound (same s json) (ap (λ k. get k m) e ∙ g)))
        ]

  -- A session is stored with its requester, an attachment is promoted with its requester, an update keeps
  -- whom the attachment is for, and nothing is put back by `restoreUploadIntentPromotion`.
  abbrev pub IsProper : (Session J → String) → Call J → Type 0
  IsProper stringify (sets ttl_ms s now) = is_interactive s ≡ true → Owned s
  IsProper stringify (promotes pending now) = Owned pending
  IsProper stringify (updates expected updated now) = KeepsOwner stringify expected updated
  IsProper stringify (restores promotion now) = ⊥
  IsProper stringify _ = Unit

  abbrev pub AllProper : (Session J → String) → List (Call J) → Type 0
  AllProper stringify [] = Unit
  AllProper stringify (c ∷ cs) = IsProper stringify c × AllProper stringify cs

  step-Sound :
      (stringify : Session J → String) (c : Call J) (m : JsMap (Session J))
      → IsProper stringify c
      → Sound m
      → Sound (step stringify m c)
  unfolding step clear get
  step-Sound stringify (sets ttl_ms s now) m p sound = set-keeps ttl_ms s now m p sound
  step-Sound stringify (promotes pending now) m p sound = promote-keeps pending now m p sound
  step-Sound stringify (updates expected updated now) m p sound =
      update-keeps stringify expected updated now m p sound
  step-Sound stringify (restores promotion now) m p sound = absurd p
  step-Sound stringify clears m p sound =
      ((tt, tt), λ k s g. ground arith, λ k j s t g. ground arith)
  step-Sound stringify (deletes id) m p sound = delete-Sound id m sound
  step-Sound stringify (gets id now) m p sound =
      quiet-keeps Sound delete-Sound stringify (gets id now) m tt sound
  step-Sound stringify (takes id now) m p sound =
      quiet-keeps Sound delete-Sound stringify (takes id now) m tt sound
  step-Sound stringify (finds test now) m p sound =
      quiet-keeps Sound delete-Sound stringify (finds test now) m tt sound
  step-Sound stringify (takes_pending lookup expected now) m p sound =
      quiet-keeps Sound delete-Sound stringify (takes_pending lookup expected now) m tt sound
  step-Sound stringify (takes_upload lookup now) m p sound =
      quiet-keeps Sound delete-Sound stringify (takes_upload lookup now) m tt sound
  step-Sound stringify (takes_review lookup now) m p sound =
      quiet-keeps Sound delete-Sound stringify (takes_review lookup now) m tt sound

  run-Sound :
      (stringify : Session J → String) (cs : List (Call J)) (m : JsMap (Session J))
      → AllProper stringify cs
      → Sound m
      → Sound (run stringify m cs)
  unfolding run
  run-Sound stringify [] m p sound = sound
  run-Sound stringify (c ∷ cs) m (p, ps) sound =
      run-Sound stringify cs (step stringify m c) ps (step-Sound stringify c m p sound)

  -- At most one interactive session for a requester. After any calls on an
  -- empty store, none of which is `restoreUploadIntentPromotion`, whose interactive sessions are stored
  -- and promoted with a requester, and whose updates keep the profile, source and requester of any
  -- session that has the JSON of the expected one, two stored interactive sessions of the same profile, the same user, group or room,
  -- and the same requester stand under one key.
  pub one_interactive :
      (stringify : Session J → String) (cs : List (Call J)) (k j : String) {s t : Session J}
      → AllProper stringify cs
      → get k (run stringify [] cs) ≡ some s
      → get j (run stringify [] cs) ≡ some t
      → is_interactive s ≡ true
      → is_interactive t ≡ true
      → SameOwner s t
      → k ≡ j
  unfolding get
  one_interactive stringify cs k j {s} {t} p g h =
      let (_, _, one) =
        run-Sound stringify cs [] p ((tt, tt), λ i r e. ground arith, λ i l r q e. ground arith) in
      one k j s t g h
