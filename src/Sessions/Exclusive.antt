-- ===== src/Sessions/Exclusive.antt =====
-- One interactive session for a requester: storing one replaces the others of the same owner.
use hhc_line_function_bot.Prelude.{
  String, ◌≡◌, sym, ◌∙◌, ◌⊎◌, inl, inr, Bool, true, false, ◌&&◌, Option, some, arith, if◌then◌else◌,
  ◌==◌, eq_iff, same_text_iff, is_empty,
}
use hhc_line_function_bot.JsMap.{JsMap, get, set, delete, get-set, get-delete}
use hhc_line_function_bot.Line.{Source}
use hhc_line_function_bot.Sessions.{
  Session, is_interactive, source_matches, requester_matches_for_source,
}
use hhc_line_function_bot.Sessions.History.{IsValid, set-IsValid, delete-IsValid}

-- `existing` is of the same profile, source and requester as `s`.
unfoldable pub same_owner : {J : Type 0} → Session J → Session J → Bool
same_owner existing s =
    (existing.profile_name == s.profile_name)
    && source_matches existing.source s.source
    && requester_matches_for_source s.source existing.requester_user_id s.requester_user_id

-- The id of the chat that a source is of.
unfoldable pub chat_of : Source → Option String
chat_of a =
    if a.kind == "group" then a.group_id else if a.kind == "room" then a.room_id else a.user_id

abbrev pub IsKnownKind : String → Type 0
IsKnownKind kind = (kind ≡ "group") ⊎ (kind ≡ "room") ⊎ (kind ≡ "user")

abbrev pub SameChat : Source → Source → Type 0
SameChat a b = IsKnownKind a.kind × (a.kind ≡ b.kind) × (chat_of a ≡ chat_of b)

matches-SameChat : (a b : Source) → source_matches a b ≡ true → SameChat a b
unfolding source_matches chat_of
matches-SameChat a b h = ground (
  arith,
  eq_iff a.kind b.kind,
  eq_iff a.kind "group",
  eq_iff a.kind "room",
  eq_iff a.kind "user",
  eq_iff b.kind "group",
  eq_iff b.kind "room",
  same_text_iff a.group_id b.group_id,
  same_text_iff a.room_id b.room_id,
  same_text_iff a.user_id b.user_id,
)

SameChat-matches : (a b : Source) → SameChat a b → source_matches a b ≡ true
unfolding source_matches chat_of
SameChat-matches a b (known, k, h) = ground (
  arith,
  known,
  k,
  h,
  eq_iff a.kind b.kind,
  eq_iff a.kind "group",
  eq_iff a.kind "room",
  eq_iff a.kind "user",
  eq_iff b.kind "group",
  eq_iff b.kind "room",
  same_text_iff a.group_id b.group_id,
  same_text_iff a.room_id b.room_id,
  same_text_iff a.user_id b.user_id,
)

requester-named :
    (source : Source) (a b : Option String) (u v : String)
    → a ≡ some u
    → is_empty u ≡ false
    → b ≡ some v
    → is_empty v ≡ false
    → requester_matches_for_source source a b ≡ (u == v)
unfolding requester_matches_for_source
requester-named source a b u v ea fu eb fv = rw (ea, eb) (rw (fu, fv) (ground arith))

module _ {J : Type 0} where
  -- The session says who it is for.
  abbrev pub Owned : Session J → Type 0
  Owned s = (u : String) × (s.requester_user_id ≡ some u) × (is_empty u ≡ false)

  -- The same profile, chat and requester.
  abbrev pub SameOwner : Session J → Session J → Type 0
  SameOwner s t =
      (s.profile_name ≡ t.profile_name)
      × SameChat s.source t.source
      × (s.requester_user_id ≡ t.requester_user_id)

  pub owner-SameOwner :
      (s t : Session J) → Owned s → Owned t → same_owner s t ≡ true → SameOwner s t
  unfolding same_owner
  owner-SameOwner s t (u, su, fu) (v, tv, fv) h =
      let matched : source_matches s.source t.source ≡ true = ground arith in
      let named =
        requester-named t.source s.requester_user_id t.requester_user_id u v su fu tv fv in
      let same : u ≡ v = ground (arith, eq_iff u v) in
      (
        ground (arith, eq_iff s.profile_name t.profile_name),
        matches-SameChat s.source t.source matched,
        cc,
      )

  pub SameOwner-owner :
      (s t : Session J) → Owned s → Owned t → SameOwner s t → same_owner s t ≡ true
  unfolding same_owner
  SameOwner-owner s t (u, su, fu) (v, tv, fv) (p, c, r) =
      let matched = SameChat-matches s.source t.source c in
      let named =
        requester-named t.source s.requester_user_id t.requester_user_id u v su fu tv fv in
      let same : u ≡ v = ground arith in
      ground (arith, eq_iff s.profile_name t.profile_name, eq_iff u v)

  pub SameOwner-sym : (s t : Session J) → SameOwner s t → SameOwner t s
  SameOwner-sym s t (p, (known, k, c), r) = ground (arith, p, known, k, c, r)

  pub SameOwner-trans : (s t u : Session J) → SameOwner s t → SameOwner t u → SameOwner s u
  SameOwner-trans s t u (p, (known, k, c), r) (p', (known', k', c'), r') =
      (p ∙ p', (known, k ∙ k', c ∙ c'), r ∙ r')

  -- An interactive session says who it is for.
  abbrev pub AllOwned : JsMap (Session J) → Type 0
  AllOwned m = (k : String) (s : Session J) → get k m ≡ some s → is_interactive s ≡ true → Owned s

  -- Two interactive sessions of one owner are one.
  abbrev pub Exclusive : JsMap (Session J) → Type 0
  Exclusive m =
      (k j : String) (s t : Session J)
      → get k m ≡ some s
      → get j m ≡ some t
      → is_interactive s ≡ true
      → is_interactive t ≡ true
      → SameOwner s t
      → k ≡ j

  abbrev pub Sound : JsMap (Session J) → Type 0
  Sound m = IsValid m × AllOwned m × Exclusive m

  pub delete-Sound : (k : String) (m : JsMap (Session J)) → Sound m → Sound (delete k m)
  delete-Sound k m ((d, keyed), owned, one) = (
    delete-IsValid k m (d, keyed),
    λ j s g. owned j s (stored j s g),
    λ i j s t gs gt. one i j s t (stored i s gs) (stored j t gt),
  )
    where
      stored : (j : String) (s : Session J) → get j (delete k m) ≡ some s → get j m ≡ some s
      stored j s g = ground (arith, get-delete k j m)

  -- Storing a session that no other interactive session has the owner of.
  pub set-Sound :
      (s : Session J) (m : JsMap (Session J))
      → Sound m
      → (is_interactive s ≡ true → Owned s)
      → ((j : String) (t : Session J)
          → get j m ≡ some t
          → is_interactive s ≡ true
          → is_interactive t ≡ true
          → SameOwner t s
          → s.id ≡ j)
      → Sound (set s.id s m)
  set-Sound s m (v, owned, one) own alone = (set-IsValid s m v, owned', one')
    where
      owned' : AllOwned (set s.id s m)
      owned' k t g i = ground (arith, get-set s.id k s m, owned k t, own)

      split :
          (k : String) (t : Session J)
          → get k (set s.id s m) ≡ some t
          → ((s.id ≡ k) × (s ≡ t)) ⊎ (get k m ≡ some t)
      split k t g = ground (arith, get-set s.id k s m, eq_iff s.id k)

      one' : Exclusive (set s.id s m)
      one' k j x y gx gy ix iy same = elim (split k x gx) [
        | inl (ek, ex) ↦ elim (split j y gy) [
          | inl (ej, ey) ↦ sym ek ∙ ej
          | inr hy ↦ sym ek ∙ ground (arith, alone j y hy, SameOwner-sym x y same)
        ]
        | inr hx ↦ elim (split j y gy) [
          | inl (ej, ey) ↦ ground (arith, alone k x hx)
          | inr hy ↦ one k j x y hx hy ix iy same
        ]
      ]
