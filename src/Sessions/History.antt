-- ===== src/Sessions/History.antt =====
-- Histories of calls to one session store, and what every call keeps: a property of the stored sessions
-- that deleting keeps, and that storing the sessions of the calls keeps.
use hhc_line_function_bot.Prelude.{
  ℕ, ◌+◌, String, ◌≡◌, refl, ◌∙◌, ◌≢◌, Bool, true, false, Option, none, some, List, [], ◌∷◌, arith,
  leb, if◌then◌else◌, Bool-cases, eq_iff, inl, inr,
}
use hhc_line_function_bot.JsMap.{
  JsMap, get, set, delete, values, Distinct, get-set_other, get-delete, set-Distinct,
  delete-Distinct,
}
use hhc_line_function_bot.Sessions.{Session, Lookup, ReviewLookup, is_interactive}
use hhc_line_function_bot.Sessions.Store.{
  delete_session, Promotion, drop_dead, drop_all_dead, find_newest, delete_found, get_session,
  take_found, take_session, find_pending_attachment, take_pending_attachment, take_upload_intent,
  take_review, take_action_review, promote_found, promote_upload_intent, restore_found,
  restore_upload_intent, restore_upload_intent_promotion, update_pending_attachment, conflicts,
  delete_conflicts, set_session, clear,
}

pub data Call (J : Type 0) : Type 0 where
  sets : ℕ → Session J → ℕ → Call J
  gets : String → ℕ → Call J
  takes : String → ℕ → Call J
  finds : (Session J → Bool) → ℕ → Call J
  takes_pending : Lookup → Option (Session J) → ℕ → Call J
  takes_upload : Lookup → ℕ → Call J
  takes_review : ReviewLookup → ℕ → Call J
  promotes : Session J → ℕ → Call J
  restores : Promotion J → ℕ → Call J
  updates : Session J → Session J → ℕ → Call J
  deletes : String → Call J
  clears : Call J

module _ {J : Type 0} (stringify : Session J → String) where
  unfoldable pub step : JsMap (Session J) → Call J → JsMap (Session J)
  step m (sets ttl_ms s now) = set_session ttl_ms s now m
  step m (gets id now) = (get_session id now m).0
  step m (takes id now) = (take_session id now m).0
  step m (finds test now) = (find_newest test now m).0
  step m (takes_pending lookup expected now) =
      (take_pending_attachment stringify lookup expected now m).0
  step m (takes_upload lookup now) = (take_upload_intent lookup now m).0
  step m (takes_review lookup now) = (take_action_review lookup now m).0
  step m (promotes pending now) = (promote_upload_intent pending now m).0
  step m (restores promotion now) = (restore_upload_intent_promotion promotion now m).0
  step m (updates expected updated now) =
      (update_pending_attachment stringify expected updated now m).0
  step m (deletes id) = delete_session id m
  step m clears = (clear m).0

  unfoldable pub run : JsMap (Session J) → List (Call J) → JsMap (Session J)
  run m [] = m
  run m (c ∷ cs) = run (step m c) cs

abbrev pub IfSome : {J : Type 0} → (Session J → Type 0) → Option (Session J) → Type 0
IfSome P none = Unit
IfSome P (some s) = P s

-- The sessions that a call may store.
abbrev pub Stores : {J : Type 0} → (Session J → Type 0) → Call J → Type 0
Stores P (sets ttl_ms s now) = (e : ℕ) → P (record s { expires_at = e })
Stores P (promotes pending now) = P pending
Stores P (restores promotion now) = IfSome P promotion.replaced
Stores P (updates expected updated now) = P updated
Stores P _ = Unit

abbrev pub AllStore : {J : Type 0} → (Session J → Type 0) → List (Call J) → Type 0
AllStore P [] = Unit
AllStore P (c ∷ cs) = Stores P c × AllStore P cs

-- A property of stores that deleting keeps is kept by all that drops sessions.
module _ {J : Type 0} (P : JsMap (Session J) → Type 0)
    (closed : (k : String) (m : JsMap (Session J)) → P m → P (delete k m)) where
  pub drop_dead-keeps :
      (now : ℕ) (o : Option (Session J)) (m : JsMap (Session J)) → P m → P (drop_dead now o m)
  drop_dead-keeps now none m p = p
  drop_dead-keeps now (some s) m p = ground (arith, closed s.id m p)

  pub drop_all_dead-keeps :
      (now : ℕ) (ss : List (Session J)) (m : JsMap (Session J)) → P m → P (drop_all_dead now ss m)
  unfolding drop_all_dead
  drop_all_dead-keeps now [] m p = p
  drop_all_dead-keeps now (s ∷ ss) m p =
      drop_all_dead-keeps now ss (drop_dead now (some s) m) (drop_dead-keeps now (some s) m p)

  pub delete_found-keeps :
      (o : Option (Session J)) (m : JsMap (Session J)) → P m → P (delete_found o m)
  delete_found-keeps none m p = p
  delete_found-keeps (some s) m p = closed s.id m p

  pub delete_conflicts-keeps :
      (s : Session J) (es : List (Session J)) (m : JsMap (Session J))
      → P m
      → P (delete_conflicts s es m)
  unfolding delete_conflicts
  delete_conflicts-keeps s [] m p = p
  delete_conflicts-keeps s (e ∷ es) m p = elim (Bool-cases (conflicts s e)) [
    | inl yes' ↦ rw yes' (delete_conflicts-keeps s es (delete e.id m) (closed e.id m p))
    | inr no' ↦ rw no' (delete_conflicts-keeps s es m p)
  ]

  pub take_found-keeps :
      (id : String) (o : Option (Session J)) (m : JsMap (Session J)) → P m → P (take_found id o m).0
  unfolding take_found
  take_found-keeps id none m p = p
  take_found-keeps id (some s) m p = closed id m p

  pub take_review-keeps :
      (lookup : ReviewLookup) (o : Option (Session J)) (m : JsMap (Session J))
      → P m
      → P (take_review lookup o m).0
  unfolding take_review
  take_review-keeps lookup none m p = p
  take_review-keeps lookup (some s) m p = ground (arith, closed s.id m p)

  pub take_pending-keeps :
      (stringify : Session J → String) (lookup : Lookup) (expected : Option (Session J)) (now : ℕ)
      (m : JsMap (Session J))
      → P m
      → P (take_pending_attachment stringify lookup expected now m).0
  unfolding take_pending_attachment
  take_pending-keeps stringify lookup expected now m p =
      let (m', found) = find_pending_attachment lookup now m in
      let p' : P m' =
        unfold find_pending_attachment find_newest in drop_all_dead-keeps now (values m) m p in
      ground (arith, p', delete_found-keeps found m' p')

  -- The calls that store nothing.
  abbrev pub IsQuiet : Call J → Type 0
  IsQuiet (sets ttl_ms s now) = ⊥
  IsQuiet (promotes pending now) = ⊥
  IsQuiet (restores promotion now) = ⊥
  IsQuiet (updates expected updated now) = ⊥
  IsQuiet clears = ⊥
  IsQuiet _ = Unit

  pub quiet-keeps :
      (stringify : Session J → String) (c : Call J) (m : JsMap (Session J))
      → IsQuiet c
      → P m
      → P (step stringify m c)
  unfolding step get_session take_session find_newest take_upload_intent take_action_review
  quiet-keeps stringify (gets id now) m q p = drop_dead-keeps now _ m p
  quiet-keeps stringify (takes id now) m q p =
      take_found-keeps id _ _ (drop_dead-keeps now (get id m) m p)
  quiet-keeps stringify (finds test now) m q p = drop_all_dead-keeps now (values m) m p
  quiet-keeps stringify (takes_pending lookup expected now) m q p =
      take_pending-keeps stringify lookup expected now m p
  quiet-keeps stringify (takes_upload lookup now) m q p =
      delete_found-keeps _ _ (drop_all_dead-keeps now (values m) m p)
  quiet-keeps stringify (takes_review lookup now) m q p =
      take_review-keeps lookup _ _ (drop_dead-keeps now (get lookup.id m) m p)
  quiet-keeps stringify (deletes id) m q p = closed id m p
  quiet-keeps stringify (sets ttl_ms s now) m q p = absurd q
  quiet-keeps stringify (promotes pending now) m q p = absurd q
  quiet-keeps stringify (restores promotion now) m q p = absurd q
  quiet-keeps stringify (updates expected updated now) m q p = absurd q
  quiet-keeps stringify clears m q p = absurd q

  module _ (Admits : Session J → Type 0)
      (stored : (s : Session J) (m : JsMap (Session J)) → Admits s → P m → P (set s.id s m)) where
    set_session-keeps :
        (ttl_ms : ℕ) (s : Session J) (now : ℕ) (m : JsMap (Session J))
        → ((e : ℕ) → Admits (record s { expires_at = e }))
        → P m
        → P (set_session ttl_ms s now m)
    unfolding set_session
    set_session-keeps ttl_ms s now m a p =
        let e = if leb s.expires_at 0 then now + ttl_ms else s.expires_at in
        stored (record s { expires_at = e }) _ (a e) (cleared (is_interactive s) p)
      where
        cleared : (b : Bool) → P m → P (if b then delete_conflicts s (values m) m else m)
        cleared true q = delete_conflicts-keeps s (values m) m q
        cleared false q = q

    promote_found-keeps :
        (pending : Session J) (o : Option (Session J)) (m : JsMap (Session J))
        → Admits pending
        → P m
        → P (promote_found pending o m).0
    unfolding promote_found
    promote_found-keeps pending none m a p = p
    promote_found-keeps pending (some current) m a p =
        let q = stored pending (delete current.id m) a (closed current.id m p) in
        ground (arith, p, q)

    restore_found-keeps :
        (pending replaced : Session J) (now : ℕ) (o : Option (Session J)) (m : JsMap (Session J))
        → Admits replaced
        → P m
        → P (restore_found pending replaced now o m).0
    unfolding restore_found
    restore_found-keeps pending replaced now none m a p = p
    restore_found-keeps pending replaced now (some current) m a p =
        let d = closed current.id m p in
        let q = stored replaced (delete current.id m) a d in ground (arith, p, d, q)

    update-keeps :
        (stringify : Session J → String) (expected updated : Session J) (now : ℕ)
        (m : JsMap (Session J))
        → Admits updated
        → P m
        → P (update_pending_attachment stringify expected updated now m).0
    unfolding update_pending_attachment
    update-keeps stringify expected updated now m a p =
        let m' = drop_dead now (get expected.id m) m in
        let d : P m' = drop_dead-keeps now (get expected.id m) m p in
        ground (arith, d, stored updated m' a d)

    pub step-keeps :
        (stringify : Session J → String) (c : Call J) (m : JsMap (Session J))
        → P []
        → Stores Admits c
        → P m
        → P (step stringify m c)
    unfolding step clear promote_upload_intent find_newest restore_upload_intent_promotion
        restore_upload_intent
    step-keeps stringify (sets ttl_ms s now) m empty a p = set_session-keeps ttl_ms s now m a p
    step-keeps stringify (promotes pending now) m empty a p =
        promote_found-keeps pending _ _ a (drop_all_dead-keeps now (values m) m p)
    step-keeps stringify (restores promotion now) m empty a p = restored promotion.replaced a
      where
        restored :
            (o : Option (Session J))
            → IfSome Admits o
            → P (restore_upload_intent promotion o now m).0
        restored none u = p
        restored (some replaced) u =
            restore_found-keeps promotion.pending replaced now _ _ u
              (drop_dead-keeps now (get promotion.pending.id m) m p)
    step-keeps stringify (updates expected updated now) m empty a p =
        update-keeps stringify expected updated now m a p
    step-keeps stringify (deletes id) m empty a p = closed id m p
    step-keeps stringify clears m empty a p = empty
    step-keeps stringify (gets id now) m empty a p = quiet-keeps stringify (gets id now) m tt p
    step-keeps stringify (takes id now) m empty a p = quiet-keeps stringify (takes id now) m tt p
    step-keeps stringify (finds test now) m empty a p =
        quiet-keeps stringify (finds test now) m tt p
    step-keeps stringify (takes_pending lookup expected now) m empty a p =
        quiet-keeps stringify (takes_pending lookup expected now) m tt p
    step-keeps stringify (takes_upload lookup now) m empty a p =
        quiet-keeps stringify (takes_upload lookup now) m tt p
    step-keeps stringify (takes_review lookup now) m empty a p =
        quiet-keeps stringify (takes_review lookup now) m tt p

    pub run-keeps :
        (stringify : Session J → String) (cs : List (Call J)) (m : JsMap (Session J))
        → P []
        → AllStore Admits cs
        → P m
        → P (run stringify m cs)
    unfolding run
    run-keeps stringify [] m empty a p = p
    run-keeps stringify (c ∷ cs) m empty (a, rest) p =
        run-keeps stringify cs (step stringify m c) empty rest (step-keeps stringify c m empty a p)

module _ {J : Type 0} where
  -- Every session stands under its own id, and no id stands twice.
  abbrev pub Keyed : JsMap (Session J) → Type 0
  Keyed [] = Unit
  Keyed ((k, s) ∷ m) = (s.id ≡ k) × Keyed m

  abbrev pub IsValid : JsMap (Session J) → Type 0
  IsValid m = Distinct m × Keyed m

  set-Keyed : (s : Session J) (m : JsMap (Session J)) → Keyed m → Keyed (set s.id s m)
  unfolding set
  set-Keyed s [] h = (refl, tt)
  set-Keyed s ((k, r) ∷ m) (e, h) = ground (arith, eq_iff k s.id, set-Keyed s m h)

  delete-Keyed : (k : String) (m : JsMap (Session J)) → Keyed m → Keyed (delete k m)
  unfolding delete
  delete-Keyed k [] h = tt
  delete-Keyed k ((j, r) ∷ m) (e, h) = ground (arith, delete-Keyed k m h)

  pub set-IsValid : (s : Session J) (m : JsMap (Session J)) → IsValid m → IsValid (set s.id s m)
  set-IsValid s m (d, h) = (set-Distinct s.id s m d, set-Keyed s m h)

  pub delete-IsValid : (k : String) (m : JsMap (Session J)) → IsValid m → IsValid (delete k m)
  delete-IsValid k m (d, h) = (delete-Distinct k m d, delete-Keyed k m h)

  pub get-Keyed :
      (k : String) (m : JsMap (Session J)) {s : Session J} → Keyed m → get k m ≡ some s → s.id ≡ k
  unfolding get
  get-Keyed k [] h g = cc
  get-Keyed k ((j, r) ∷ m) {s} (e, h) g = ground (arith, eq_iff j k, get-Keyed k m {s = s} h)

  pub run-IsValid :
      (stringify : Session J → String) (cs : List (Call J)) → IsValid (run stringify [] cs)
  run-IsValid stringify cs =
      run-keeps IsValid delete-IsValid (λ _. Unit) (λ s m u v. set-IsValid s m v) stringify cs []
        (tt, tt) (all cs) (tt, tt)
    where
      back : (o : Option (Session J)) → IfSome (λ _. Unit) o
      back none = tt
      back (some r) = tt

      one : (c : Call J) → Stores (λ _. Unit) c
      one (sets ttl_ms s now) = λ e. tt
      one (promotes pending now) = tt
      one (restores promotion now) = back promotion.replaced
      one (updates expected updated now) = tt
      one (gets id now) = tt
      one (takes id now) = tt
      one (finds test now) = tt
      one (takes_pending lookup expected now) = tt
      one (takes_upload lookup now) = tt
      one (takes_review lookup now) = tt
      one (deletes id) = tt
      one clears = tt

      all : (ds : List (Call J)) → AllStore (λ _. Unit) ds
      all [] = tt
      all (d ∷ ds) = (one d, all ds)

  -- No session of the id is stored by the calls.
  abbrev pub NoneStores : String → List (Call J) → Type 0
  NoneStores id cs = AllStore (λ s. s.id ≢ id) cs

  pub stays_absent :
      (stringify : Session J → String) (id : String) (cs : List (Call J)) (m : JsMap (Session J))
      → NoneStores id cs
      → get id m ≡ none
      → get id (run stringify m cs) ≡ none
  unfolding get
  stays_absent stringify id cs m a g =
      run-keeps (λ n. get id n ≡ none) (λ k n p. ground (arith, get-delete k id n)) (λ s. s.id ≢ id)
        (λ s n other p. get-set_other s.id id s n other ∙ p) stringify cs m refl a g
