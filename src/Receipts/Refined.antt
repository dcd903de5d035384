-- ===== src/Receipts/Refined.antt =====
-- The two receipt stores over whole histories: the same answers, and so at most one execution on Redis.
use mathlib.Core.Path.{subst}
use hhc_line_function_bot.Prelude.{
  ℕ, ◌≤◌, ◌<◌, String, ◌≡◌, refl, sym, ap, ◌∙◌, Bool, true, false, Option, none, some, List, [],
  ◌∷◌, map, arith,
}
use hhc_line_function_bot.JsMap.{get, drop_if}
use hhc_line_function_bot.Redis.{Redis, IsLawful}
use hhc_line_function_bot.Receipts.{
  Clock, Receipt, Entry, seen, receipt, Store, StartResult, Claim, claim, transition, delivery,
  try_start, serialize, expired,
}
use hhc_line_function_bot.Receipts.History.{
  Call, try_starts, claims, transitions, deliveries, Within, last_reading, is_admitting, is_granted,
  step, run,
}
use hhc_line_function_bot.Receipts.Execution.{no_second_execution}
use hhc_line_function_bot.Receipts.Scripts.{
  Stored, Codec, Outcome, returned, threw, redis_key, redis_try_start, redis_claim,
  redis_transition, redis_delivery,
}
use hhc_line_function_bot.Receipts.Refinement.{
  stored_of, IsCodec, image, images, at, Refines, later-Refines,
}
use hhc_line_function_bot.Receipts.SameAnswers.{
  try_start-Same, claim-Same, transition-Same, delivery-Same,
}

-- Calls with the time of each.
abbrev pub Timeline : Type 0
Timeline = List (ℕ × Call)

pub data Answer : Type 0 where
  on_start : StartResult → Answer
  on_claim : Outcome Claim → Answer
  on_change : Outcome Bool → Answer

abbrev IsKept : Call → Type 0
IsKept (claims owner p e ttl lease) = 1 ≤ ttl
IsKept _ = Unit

-- Times that do not go back, and receipts that are kept for a millisecond at least.
abbrev pub InOrder : ℕ → Timeline → Type 0
InOrder low [] = Unit
InOrder low ((now, c) ∷ h) = (low ≤ now) × IsKept c × InOrder now h

abbrev pub last_time : ℕ → Timeline → ℕ
last_time low [] = low
last_time low ((now, c) ∷ h) = last_time now h

abbrev pub at_once : ℕ × Call → Clock × Call
at_once (now, c) = (at now, c)

module _ (sha256_hex : String → String) where
  unfoldable pub memory_answer : Store → ℕ → Call → Answer
  memory_answer m now (try_starts p e ttl) = on_start (try_start (at now) p e ttl m).1
  memory_answer m now (claims owner p e ttl lease) =
      on_claim (returned (claim sha256_hex (at now) owner p e ttl lease m).1)
  memory_answer m now (transitions l t) = on_change (returned (transition (at now) l t m).1)
  memory_answer m now (deliveries l status) = on_change (returned (delivery (at now) l status m).1)

  unfoldable pub memory_answers : Store → Timeline → List Answer
  unfolding memory_answer
  memory_answers m [] = []
  memory_answers m ((now, c) ∷ h) =
      memory_answer m now c ∷ memory_answers (step sha256_hex m (at now, c)) h

  module _ (r : Redis) (codec : Codec) (prefix : String) where
    unfoldable pub redis_step : r.State → ℕ → Call → r.State × Answer
    redis_step s now (try_starts p e ttl) =
        let (s', a) = redis_try_start r prefix now p e ttl s in (s', on_start a)
    redis_step s now (claims owner p e ttl lease) =
        let (s', a) = redis_claim r codec prefix true sha256_hex now owner p e ttl lease s in
        (s', on_claim a)
    redis_step s now (transitions l t) =
        let (s', a) = redis_transition r codec prefix true now l t s in (s', on_change a)
    redis_step s now (deliveries l status) =
        let (s', a) = redis_delivery r codec prefix true now l status s in (s', on_change a)

    unfoldable pub redis_run : r.State → Timeline → r.State
    unfolding redis_step
    redis_run s [] = s
    redis_run s ((now, c) ∷ h) = redis_run (redis_step s now c).0 h

    unfoldable pub redis_answers : r.State → Timeline → List Answer
    unfolding redis_step
    redis_answers s [] = []
    redis_answers s ((now, c) ∷ h) = let (s', a) = redis_step s now c in a ∷ redis_answers s' h

module _ (r : Redis) (law : IsLawful r) (codec : Codec) (json : IsCodec codec)
    (sha256_hex : String → String) (prefix : String) where
  step-Refines :
      (now : ℕ) (c : Call) (m : Store) (s : r.State)
      → IsKept c
      → Refines r law codec prefix now m s
      → Refines r law codec prefix now
          (step sha256_hex m (at now, c))
          (redis_step sha256_hex r codec prefix s now c).0
        × (memory_answer sha256_hex m now c ≡ (redis_step sha256_hex r codec prefix s now c).1)
  unfolding step redis_step memory_answer
  step-Refines now (try_starts p e ttl) m s kept ref =
      let (ref', same) = try_start-Same r law codec json prefix now p e ttl m s ref in
      (ref', ap on_start same)
  step-Refines now (claims owner p e ttl lease) m s kept ref =
      let (ref', same) =
        claim-Same r law codec json prefix sha256_hex now owner p e ttl lease m s kept ref in
      (ref', ap on_claim same)
  step-Refines now (transitions l t) m s kept ref =
      let (ref', same) = transition-Same r law codec json prefix now l t m s ref in
      (ref', ap on_change same)
  step-Refines now (deliveries l status) m s kept ref =
      let (ref', same) = delivery-Same r law codec json prefix now l status m s ref in
      (ref', ap on_change same)

  run-Refines :
      (low : ℕ) (h : Timeline) (m : Store) (s : r.State)
      → InOrder low h
      → Refines r law codec prefix low m s
      → Refines r law codec prefix
          (last_time low h)
          (run sha256_hex m (map at_once h))
          (redis_run sha256_hex r codec prefix s h)
        × (memory_answers sha256_hex m h ≡ redis_answers sha256_hex r codec prefix s h)
  unfolding run redis_run memory_answers redis_answers
  run-Refines low [] m s o ref = (ref, refl)
  run-Refines low ((now, c) ∷ h) m s (le, kept, o) ref =
      let now_ref = later-Refines r law codec prefix low now m s le ref in
      let (ref', same) = step-Refines now c m s kept now_ref in
      let (end, rest) = run-Refines now h _ _ o ref' in (end, cc (same, rest))

  -- At first both stores are empty.
  empty-Refines : Refines r law codec prefix 0 [] r.empty
  unfolding get
  empty-Refines = (tt, λ k e g. ground arith, λ k. law.read-empty 0 (redis_key prefix k))

  -- The Redis store refines the in-memory store. Of a server that keeps to the documented behaviour of
  -- the commands, and JSON texts that can be read back: for every sequence of `tryStart`, `claim`,
  -- `transition` and `delivery` calls on empty stores, at times that do not go back and with retentions of
  -- a millisecond at least, both stores give the same answers.
  pub redis_answers_lem :
      (h : Timeline)
      → InOrder 0 h
      → redis_answers sha256_hex r codec prefix r.empty h ≡ memory_answers sha256_hex [] h
  redis_answers_lem h o = sym (run-Refines 0 h [] r.empty o empty-Refines).1

-- Every call is made before a time.
abbrev pub AllBefore : ℕ → Timeline → Type 0
AllBefore until [] = Unit
AllBefore until ((now, c) ∷ h) = (now < until) × AllBefore until h

abbrev pub grants : Outcome Claim → Bool
grants (returned c) = is_granted c
grants (threw e) = false

module _ (r : Redis) (law : IsLawful r) (codec : Codec) (json : IsCodec codec)
    (sha256_hex : String → String) (prefix : String) where
  within :
      (low until : ℕ) (h : Timeline)
      → InOrder low h
      → AllBefore until h
      → Within low until (map at_once h)
  within low until [] o b = tt
  within low until ((now, c) ∷ h) (le, kept, o) (early, b) =
      (le, omega arith, omega arith, early, within now until h o b)

  last-at_once : (low : ℕ) (h : Timeline) → last_reading low (map at_once h) ≡ last_time low h
  last-at_once low [] = refl
  last-at_once low ((now, c) ∷ h) = last-at_once now h

  -- What Redis holds as a receipt is one in memory.
  held_in_memory :
      (now : ℕ) (o : Option Entry) (q : Stored) (until : ℕ)
      → images codec (drop_if (expired now) o) ≡ some (codec.encode q, until)
      → (v : Receipt) × (o ≡ some (receipt v)) × (stored_of v ≡ q) × (v.expires_at ≡ until)
  unfolding image
  held_in_memory now none q until h = cc
  held_in_memory now (some (seen u)) q until h =
      let one : codec.encode q ≡ "1" = ground arith in absurd (json.encode-not_one q one)
  held_in_memory now (some (receipt v)) q until h =
      let text : codec.encode (stored_of v) ≡ codec.encode q = ground arith in
      let back : some (stored_of v) ≡ some q =
        sym (json.decode-encode (stored_of v)) ∙ ap codec.decode text ∙ json.decode-encode q in
      (v, refl, ground arith, ground arith)

  -- At most one execution, on Redis. Of a server that keeps to the documented behaviour of the commands,
  -- and JSON texts that can be read back: take any calls on the empty store, at times that do not go back
  -- and with retentions of a millisecond at least, after which Redis holds, until `until` or later, a
  -- receipt of the event that has left `admitting`. Whatever such calls follow before `until`, and whatever
  -- owner then claims the event before `until`, the claim is not granted.
  pub redis_no_second_execution :
      (h later : Timeline) (until now kept : ℕ) (owner p e : String) (ttl lease : ℕ) (q : Stored)
      → InOrder 0 h
      → AllBefore until h
      → r.read
          (redis_run sha256_hex r codec prefix r.empty h)
          (last_time 0 h)
          (redis_key prefix (serialize p e))
        ≡ some (codec.encode q, kept)
      → is_admitting q.phase ≡ false
      → until ≤ kept
      → InOrder (last_time 0 h) later
      → AllBefore until later
      → last_time (last_time 0 h) later ≤ now
      → now < until
      → 1 ≤ ttl
      → grants
          (redis_claim r codec prefix true sha256_hex now owner p e ttl lease (
            redis_run sha256_hex r codec prefix
              (redis_run sha256_hex r codec prefix r.empty h)
              later)).1
        ≡ false
  redis_no_second_execution h later until now kept owner p e ttl lease q o b held begun le o' b'
        after early pos =
      let m = run sha256_hex [] (map at_once h) in
      let s = redis_run sha256_hex r codec prefix r.empty h in
      let (ref, answers) =
        run-Refines r law codec json sha256_hex prefix 0 h [] r.empty o
          (empty-Refines r law codec json sha256_hex prefix) in
      let (_, _, agrees) = ref in
      let (v, stored, same, until_v) =
        held_in_memory (last_time 0 h) (get (serialize p e) m) q kept
          (sym (agrees (serialize p e)) ∙ held) in
      let (ref', _) =
        run-Refines r law codec json sha256_hex prefix (last_time 0 h) later m s o' ref in
      let (_, same') =
        claim-Same r law codec json prefix sha256_hex now owner p e ttl lease _ _ pos
          (later-Refines r law codec prefix _ now _ _ after ref') in
      let phase : is_admitting v.phase ≡ false =
        unfold stored_of in (ap (λ x. is_admitting x.phase) same ∙ begun) in
      let end = last-at_once 0 h in
      sym (ap grants same')
      ∙ no_second_execution sha256_hex (map at_once h) (map at_once later) until (at now) owner p e
          ttl lease {r = v} (within 0 until h o b) stored phase (omega arith)
          (subst (λ x. Within x until (map at_once later)) (sym end)
            (within (last_time 0 h) until later o' b'))
          early
