-- ===== src/Receipts/SameAnswers.antt =====
-- Every call of the Redis store answers what the in-memory store does, and keeps the refinement.
use mathlib.Core.Path.{subst}
use hhc_line_function_bot.Prelude.{
  ℕ, ◌+◌, ◌-◌, ◌≤◌, ◌<◌, max, String, ◌≡◌, refl, sym, ap, ◌∙◌, inl, inr, Bool, true, false, not,
  ◌&&◌, ◌||◌, Option, none, some, arith, ◌==◌, eq_iff, leb, ltb, Bool-cases, leb→le, le→leb,
}
use hhc_line_function_bot.JsMap.{get, set, drop_if}
use hhc_line_function_bot.Redis.{Redis, IsLawful, set_nx_new, set_nx_old}
use hhc_line_function_bot.Receipts.{
  admit, Phase, admitting, started, completed, uncertain, Delivery, not_attempted, attempted,
  accepted, unknown, Transition, start, complete, to_uncertain, release, renew, Receipt, Entry,
  seen, receipt, Lease, Store, expiry, expired, current, serialize, lease_key, try_start, fresh,
  repeated, Claim, claim, judge, judge_receipt, settle, new_lease, admitted, transition, delivery,
  holds, move, deliver, store_back, bind,
}
use hhc_line_function_bot.Receipts.Scripts.{
  ScriptAnswer, now_claimed, Stored, Codec, Outcome, returned, redis_key, redis_try_start,
  redis_claim, claim_script, claim_found, claim_verdict, first_claim, claim_of, judge_stored,
  transition_script, transition_found, change_decoded, write_changed, ttl_after, change, moves,
  delivers, Operation, move_stored, deliver_stored, mutate, redis_transition, redis_delivery,
}
use hhc_line_function_bot.Receipts.Ownership.{get-current}
use hhc_line_function_bot.Receipts.Refinement.{
  stored_of, IsCodec, image, images, at, Refines, swept, sweep-Refines, write-Refines,
}

module _ (r : Redis) (law : IsLawful r) (codec : Codec) (json : IsCodec codec)
    (prefix : String) where
  abbrev pub Same : {A : Type 0} → ℕ → Store × A → r.State × A → Type 0
  Same now (m, a) (s, b) = Refines r law codec prefix now m s × (a ≡ b)

  Same-by :
      {A : Type 0} (now : ℕ) {x x' : Store × A} {y y' : r.State × A}
      → x ≡ x'
      → y ≡ y'
      → Same now x' y'
      → Same now x y
  Same-by now {x} {x'} {y} {y'} e f h =
      subst (λ v. Same now v y) (sym e) (subst (Same now x') (sym f) h)

  -- What a call finds on either side.
  found_image :
      (now : ℕ) (m : Store) (s : r.State) (k : String) {o : Option Entry}
      → Refines r law codec prefix now m s
      → get k (current now m) ≡ o
      → r.read s now (redis_key prefix k) ≡ images codec o
  found_image now m s k ref g = swept r law codec prefix now m s k ref ∙ ap (images codec) g

  pub try_start-Same :
      (now : ℕ) (p e : String) (ttl : ℕ) (m : Store) (s : r.State)
      → Refines r law codec prefix now m s
      → Same now (try_start (at now) p e ttl m) (redis_try_start r prefix now p e ttl s)
  unfolding try_start redis_try_start image
  try_start-Same now p e ttl m s ref = found (get (serialize p e) (current now m)) refl
    where
      key : String
      key = redis_key prefix (serialize p e)

      found :
          (o : Option Entry)
          → get (serialize p e) (current now m) ≡ o
          → Same now (try_start (at now) p e ttl m) (redis_try_start r prefix now p e ttl s)
      found none g =
          Same-by now {x' = (set (serialize p e) (seen (now + max 1 ttl)) (current now m), fresh)}
            {y' = (r.psetex s now (redis_key prefix (serialize p e)) (max 1 ttl) "1", fresh)}
            (ground (arith, g))
            (rw
              (set_nx_new r s now (redis_key prefix (serialize p e)) (max 1 ttl) "1"
                (found_image now m s (serialize p e) ref g))
              refl)
            (
              write-Refines r law codec prefix now m s (serialize p e) (seen (now + max 1 ttl))
                  (max 1 ttl) "1" ref (omega arith) refl tt,
              refl,
            )
      found (some x) g =
          Same-by now {x' = (current now m, repeated)} {y' = (s, repeated)} (ground (arith, g))
            (rw
              (set_nx_old r s now (redis_key prefix (serialize p e)) (max 1 ttl) "1"
                {i = image codec x} (found_image now m s (serialize p e) ref g))
              refl)
            (sweep-Refines r law codec prefix now m s ref, refl)

  abbrev pub answering : {A : Type 0} → Store × A → Store × Outcome A
  answering (m, a) = (m, returned a)

  abbrev claiming : Lease → r.State × ScriptAnswer → r.State × Outcome Claim
  claiming l (s, a) = (s, returned (claim_of l a))

  module _ (now ttl : ℕ) (k : String) (l : Lease) (m : Store) (s : r.State) (pos : 1 ≤ ttl)
      (ref : Refines r law codec prefix now m s) where
    first-Same :
        Same now
          (answering (settle k now ttl l (current now m) admit))
          (claiming l (first_claim r codec s now (redis_key prefix k) l ttl, now_claimed))
    unfolding settle admitted first_claim image
    first-Same = (
      write-Refines r law codec prefix now m s k (receipt (admitted now ttl l)) ttl _ ref pos refl
          pos,
      refl,
    )

    judged-Same :
        (ph : Phase) (q : Receipt)
        → 1 ≤ q.retention_ms
        → Same now (answering (settle k now ttl l (current now m) (judge_receipt ph now q))) (
            claiming l (
              claim_verdict r codec s now
                (redis_key prefix k)
                l
                ttl
                q.expires_at
                (judge_stored ph now (stored_of q))))
    unfolding settle judge_receipt judge_stored claim_verdict stored_of image
    judged-Same completed q kept = (sweep-Refines r law codec prefix now m s ref, refl)
    judged-Same uncertain q kept = (sweep-Refines r law codec prefix now m s ref, refl)
    judged-Same admitting q kept = elim (Bool-cases (ltb now q.lease_until)) [
      | inl live ↦ rw live (sweep-Refines r law codec prefix now m s ref, refl)
      | inr dead ↦ rw dead first-Same
    ]
    judged-Same started q kept = elim (Bool-cases (ltb now q.lease_until)) [
      | inl live ↦ rw live (sweep-Refines r law codec prefix now m s ref, refl)
      | inr dead ↦ rw dead (
        write-Refines r law codec prefix now m s k
            (receipt (record q { phase = uncertain; expires_at = now + q.retention_ms }))
            q.retention_ms _ ref kept refl kept,
        refl,
      )
    ]

    found-Same :
        (o : Option Entry)
        → get k (current now m) ≡ o
        → Same now
            (answering (settle k now ttl l (current now m) (judge now o)))
            (claiming l (claim_found r codec s now (redis_key prefix k) l ttl (images codec o)))
    unfolding claim_found judge image settle claim_verdict
    found-Same none g = first-Same
    found-Same (some (seen until)) g = (sweep-Refines r law codec prefix now m s ref, refl)
    found-Same (some (receipt q)) g =
        let raw = codec.encode (stored_of q) in
        let not_seen : (raw == "1") ≡ false =
          ground (arith, eq_iff raw "1", json.encode-not_one (stored_of q)) in
        let (d, ret, a) = sweep-Refines r law codec prefix now m s ref in
        rw not_seen (
          rw (json.decode-encode (stored_of q))
            (unfold stored_of in judged-Same q.phase q (ret k (receipt q) g)))

  pub claim-Same :
      (sha256_hex : String → String) (now : ℕ) (owner p e : String) (ttl lease : ℕ) (m : Store)
      (s : r.State)
      → 1 ≤ ttl
      → Refines r law codec prefix now m s
      → Same now
          (answering (claim sha256_hex (at now) owner p e ttl lease m))
          (redis_claim r codec prefix true sha256_hex now owner p e ttl lease s)
  unfolding claim redis_claim claim_script
  claim-Same sha256_hex now owner p e ttl lease m s pos ref =
      let k = serialize p e in
      let most : max 1 ttl ≡ ttl = ground arith in
      rw (most, found_image now m s k ref refl)
        (found-Same now ttl k (new_lease sha256_hex owner p e lease) m s pos ref
          (get k (current now m)) refl)

  -- A change of a receipt: in memory, and of what Redis stores.
  abbrev memory_change : Operation → ℕ → Lease → Receipt → Option Receipt
  memory_change (moves t) now l q = move t q.phase now l q
  memory_change (delivers status) now l q = deliver status q.delivery q

  -- What is written back is the image of what the in-memory store writes back.
  abbrev Written : ℕ → Operation → Lease → Receipt → Option Receipt → Option Stored → Type 0
  Written now operation l q none none = Unit
  Written now operation l q (some v) (some w) =
      (w ≡ stored_of v)
      × (v.retention_ms ≡ q.retention_ms)
      × (now + ttl_after operation (some q.retention_ms) (q.expires_at - now) ≡ v.expires_at)
      × (1 ≤ ttl_after operation (some q.retention_ms) (q.expires_at - now))
  Written now operation l q _ _ = ⊥

  move-Written :
      (t : Transition) (ph : Phase) (now : ℕ) (l : Lease) (q : Receipt)
      → 1 ≤ q.retention_ms
      → now < q.expires_at
      → Written now
          (moves t)
          l
          q
          (move t ph now l q)
          (move_stored t ph now l.lease_ms (stored_of q))
  unfolding move move_stored stored_of ttl_after
  move-Written start completed now l q kept live = tt
  move-Written start uncertain now l q kept live = tt
  move-Written start started now l q kept live = tt
  move-Written start admitting now l q kept live = (refl, refl, omega arith, omega arith)
  move-Written complete completed now l q kept live = tt
  move-Written complete uncertain now l q kept live = tt
  move-Written complete started now l q kept live = (refl, refl, refl, kept)
  move-Written complete admitting now l q kept live = (refl, refl, refl, kept)
  move-Written to_uncertain completed now l q kept live = tt
  move-Written to_uncertain uncertain now l q kept live = tt
  move-Written to_uncertain started now l q kept live = (refl, refl, refl, kept)
  move-Written to_uncertain admitting now l q kept live = (refl, refl, refl, kept)
  move-Written release completed now l q kept live = tt
  move-Written release uncertain now l q kept live = tt
  move-Written release started now l q kept live = tt
  move-Written release admitting now l q kept live = (refl, refl, omega arith, omega arith)
  move-Written renew completed now l q kept live = tt
  move-Written renew uncertain now l q kept live = tt
  move-Written renew started now l q kept live = (refl, refl, omega arith, omega arith)
  move-Written renew admitting now l q kept live = (refl, refl, omega arith, omega arith)

  deliver-Written :
      (status d : Delivery) (now : ℕ) (l : Lease) (q : Receipt)
      → 1 ≤ q.retention_ms
      → now < q.expires_at
      → Written now
          (delivers status)
          l
          q
          (deliver status d q)
          (deliver_stored status d (stored_of q))
  unfolding deliver deliver_stored stored_of ttl_after
  deliver-Written not_attempted not_attempted now l q kept live = tt
  deliver-Written not_attempted attempted now l q kept live = (refl, refl, omega arith, omega arith)
  deliver-Written not_attempted accepted now l q kept live = tt
  deliver-Written not_attempted unknown now l q kept live = tt
  deliver-Written attempted not_attempted now l q kept live = (refl, refl, omega arith, omega arith)
  deliver-Written attempted attempted now l q kept live = tt
  deliver-Written attempted accepted now l q kept live = tt
  deliver-Written attempted unknown now l q kept live = tt
  deliver-Written accepted not_attempted now l q kept live = tt
  deliver-Written accepted attempted now l q kept live = (refl, refl, omega arith, omega arith)
  deliver-Written accepted accepted now l q kept live = tt
  deliver-Written accepted unknown now l q kept live = tt
  deliver-Written unknown not_attempted now l q kept live = tt
  deliver-Written unknown attempted now l q kept live = (refl, refl, omega arith, omega arith)
  deliver-Written unknown accepted now l q kept live = tt
  deliver-Written unknown unknown now l q kept live = tt

  change-Written :
      (operation : Operation) (now : ℕ) (l : Lease) (q : Receipt)
      → 1 ≤ q.retention_ms
      → now < q.expires_at
      → Written now operation l q
          (memory_change operation now l q)
          (change operation now l.lease_ms (stored_of q))
  unfolding stored_of
  change-Written (moves t) now l q kept live =
      unfold stored_of in move-Written t q.phase now l q kept live
  change-Written (delivers status) now l q kept live =
      unfold stored_of in deliver-Written status q.delivery now l q kept live

  abbrev returning : r.State × Bool → r.State × Outcome Bool
  returning (s, b) = (s, returned b)

  module _ (now : ℕ) (operation : Operation) (l : Lease) (m : Store) (s : r.State)
      (ref : Refines r law codec prefix now m s) where
    Written-Same :
        (q : Receipt) (o : Option Receipt) (w : Option Stored)
        → 1 ≤ q.retention_ms
        → Written now operation l q o w
        → Same now (answering (store_back (lease_key l) (current now m) o)) (
            returning (
              write_changed r codec s now
                (redis_key prefix (lease_key l))
                (ttl_after operation (some q.retention_ms) (q.expires_at - now))
                w))
    unfolding write_changed image
    Written-Same q none none kept h = (sweep-Refines r law codec prefix now m s ref, refl)
    Written-Same q none (some w) kept h = absurd h
    Written-Same q (some v) none kept h = absurd h
    Written-Same q (some v) (some w) kept (e, same, until, pos) = (
      write-Refines r law codec prefix now m s (lease_key l) (receipt v) _ _ ref pos
          (rw (e, until) refl) (subst (λ n. 1 ≤ n) (sym same) kept),
      refl,
    )

    live_entry :
        (q : Receipt) → get (lease_key l) (current now m) ≡ some (receipt q) → now < q.expires_at
    live_entry q g = dropped (get (lease_key l) m) (sym (get-current now (lease_key l) m ref.0) ∙ g)
      where
        dropped :
            (o : Option Entry) → drop_if (expired now) o ≡ some (receipt q) → now < q.expires_at
        dropped none h = cc
        dropped (some e) h =
            let same : e ≡ receipt q = ground arith in
            let until : expiry e ≡ q.expires_at = ap expiry same in
            ground (arith, leb→le (expiry e) now, le→leb (expiry e) now)

    -- The receipt that a call finds, by its owner or another.
    held-Same :
        (q : Receipt)
        → 1 ≤ q.retention_ms
        → now < q.expires_at
        → Same now
            (answering (
              store_back
                (lease_key l)
                (current now m)
                (bind (holds now l (some (receipt q))) (memory_change operation now l))))
            (returning (
              change_decoded r codec s now
                (redis_key prefix (lease_key l))
                l.owner
                operation
                l.lease_ms
                (q.expires_at - now)
                (some (stored_of q))))
    unfolding change_decoded
    held-Same q kept live = elim (Bool-cases ((q.owner == l.owner) && ltb now q.lease_until)) [
      | inl mine ↦
          let granted : not (q.owner == l.owner)
                || leb (q.expires_at - now) 0
                || leb q.lease_until now
              ≡ false =
            ground arith in
          rw mine (
            unfold stored_of in
            rw granted (Written-Same q _ _ kept (change-Written operation now l q kept live)))
      | inr other ↦
          let refused : not (q.owner == l.owner)
                || leb (q.expires_at - now) 0
                || leb q.lease_until now
              ≡ true =
            ground arith in
          rw other
            (unfold stored_of in rw refused (sweep-Refines r law codec prefix now m s ref, refl))
    ]

    changed-Same :
        (o : Option Entry)
        → get (lease_key l) (current now m) ≡ o
        → Same now
            (answering (
              store_back
                (lease_key l)
                (current now m)
                (bind (holds now l o) (memory_change operation now l))))
            (returning (
              transition_found r codec s now
                (redis_key prefix (lease_key l))
                l.owner
                operation
                l.lease_ms
                (images codec o)))
    unfolding transition_found change_decoded image
    changed-Same none g = (sweep-Refines r law codec prefix now m s ref, refl)
    changed-Same (some (seen until)) g = (sweep-Refines r law codec prefix now m s ref, refl)
    changed-Same (some (receipt q)) g =
        let raw = codec.encode (stored_of q) in
        let not_seen : (raw == "1") ≡ false =
          ground (arith, eq_iff raw "1", json.encode-not_one (stored_of q)) in
        let (d, ret, a) = sweep-Refines r law codec prefix now m s ref in
        rw not_seen (
          rw (json.decode-encode (stored_of q))
            (held-Same q (ret (lease_key l) (receipt q) g) (live_entry q g)))

  pub transition-Same :
      (now : ℕ) (l : Lease) (t : Transition) (m : Store) (s : r.State)
      → Refines r law codec prefix now m s
      → Same now
          (answering (transition (at now) l t m))
          (redis_transition r codec prefix true now l t s)
  unfolding transition redis_transition mutate transition_script
  transition-Same now l t m s ref =
      rw (found_image now m s (lease_key l) ref refl)
        (changed-Same now (moves t) l m s ref (get (lease_key l) (current now m)) refl)

  pub delivery-Same :
      (now : ℕ) (l : Lease) (status : Delivery) (m : Store) (s : r.State)
      → Refines r law codec prefix now m s
      → Same now
          (answering (delivery (at now) l status m))
          (redis_delivery r codec prefix true now l status s)
  unfolding delivery redis_delivery mutate transition_script
  delivery-Same now l status m s ref =
      rw (found_image now m s (lease_key l) ref refl)
        (changed-Same now (delivers status) l m s ref (get (lease_key l) (current now m)) refl)
