-- ===== src/Receipts/Scripts.antt =====
-- Webhook receipts on Redis, src/idempotency/webhook-event-store.ts: the scripts `CLAIM` and `TRANSITION`,
-- and `RedisWebhookEventStore`. `now` is the server's clock in one call. cjson is a parameter: `decode`
-- is none of a text that is no JSON object. A decoded receipt has every field but, if it is an old one,
-- `retentionMs`.
use Prim.Native.String.{◌++◌}
use hhc_line_function_bot.Prelude.{
  ℕ, ◌+◌, ◌-◌, max, String, Bool, true, false, not, ◌||◌, Option, none, some, ◌==◌, leb, ltb,
  if◌then◌else◌,
}
use hhc_line_function_bot.Redis.{Item, Redis, set_nx}
use hhc_line_function_bot.Receipts.{
  Phase, admitting, started, completed, uncertain, Delivery, not_attempted, attempted, Transition,
  start, complete, to_uncertain, release, renew, Lease, StartResult, fresh, repeated, Claim,
  claimed, duplicate, in_doubt, serialize, lease_key, new_lease,
}

pub record Stored : Type 0 where
  pub owner : String
  pub operation_id : String
  pub phase : Phase
  pub delivery : Delivery
  pub lease_until : ℕ
  pub retention_ms : Option ℕ

pub record Codec : Type 0 where
  pub encode : Stored → String
  pub decode : String → Option Stored

pub data ScriptAnswer : Type 0 where
  now_claimed now_duplicate now_uncertain : ScriptAnswer

-- What `CLAIM` does about the receipt that it finds.
pub data ScriptVerdict : Type 0 where
  answers : ScriptAnswer → ScriptVerdict
  gives_up : Stored → ScriptVerdict
  admits : ScriptVerdict

abbrev pub or_else : Option ℕ → ℕ → ℕ
or_else none n = n
or_else (some k) n = k

unfoldable pub judge_stored : Phase → ℕ → Stored → ScriptVerdict
judge_stored completed now q = answers now_duplicate
judge_stored uncertain now q = answers now_uncertain
judge_stored started now q = if ltb now q.lease_until then answers now_duplicate else gives_up q
judge_stored admitting now q = if ltb now q.lease_until then answers now_duplicate else admits

abbrev pub judge_decoded : ℕ → Option Stored → ScriptVerdict
judge_decoded now none = answers now_duplicate
judge_decoded now (some q) = judge_stored q.phase now q

pub data Operation : Type 0 where
  moves : Transition → Operation
  delivers : Delivery → Operation

unfoldable pub deliver_stored : Delivery → Delivery → Stored → Option Stored
deliver_stored attempted not_attempted q = some (record q { delivery = attempted })
deliver_stored attempted _ q = none
deliver_stored status attempted q = some (record q { delivery = status })
deliver_stored status _ q = none

unfoldable pub move_stored : Transition → Phase → ℕ → ℕ → Stored → Option Stored
move_stored _ completed now lease_ms q = none
move_stored _ uncertain now lease_ms q = none
move_stored start admitting now lease_ms q = some (record q { phase = started })
move_stored start started now lease_ms q = none
move_stored complete _ now lease_ms q = some (record q { phase = completed })
move_stored to_uncertain _ now lease_ms q = some (record q { phase = uncertain })
move_stored release admitting now lease_ms q = some (record q { lease_until = 0 })
move_stored release started now lease_ms q = none
move_stored renew _ now lease_ms q = some (record q { lease_until = now + lease_ms })

abbrev pub change : Operation → ℕ → ℕ → Stored → Option Stored
change (moves t) now lease_ms q = move_stored t q.phase now lease_ms q
change (delivers status) now lease_ms q = deliver_stored status q.delivery q

-- The time to live that is written back.
unfoldable pub ttl_after : Operation → Option ℕ → ℕ → ℕ
ttl_after (moves complete) retention ttl = or_else retention ttl
ttl_after (moves to_uncertain) retention ttl = or_else retention ttl
ttl_after _ retention ttl = ttl

-- What a call gives: an answer, or the message of the error that it throws.
pub data Outcome (A : Type 0) : Type 0 where
  returned : A → Outcome A
  threw : String → Outcome A

abbrev pub redis_key : String → String → String
redis_key prefix k = prefix ++ ":webhook-event:v1:" ++ k

abbrev pub claim_of : Lease → ScriptAnswer → Claim
claim_of l now_claimed = claimed l
claim_of l now_duplicate = duplicate
claim_of l now_uncertain = in_doubt

unfoldable pub redis_try_start :
    (r : Redis) → String → ℕ → String → String → ℕ → r.State → r.State × StartResult
redis_try_start r prefix now profile_name event_id ttl_ms s =
    let (s', done) =
      set_nx r s now (redis_key prefix (serialize profile_name event_id)) (max 1 ttl_ms) "1" in
    (s', if done then fresh else repeated)

module _ (r : Redis) (codec : Codec) where
  unfoldable pub first_claim : r.State → ℕ → String → Lease → ℕ → r.State
  first_claim s now key l retention = r.psetex s now key retention (
      codec.encode (record {
        owner = l.owner;
        operation_id = l.operation_id;
        phase = admitting;
        delivery = not_attempted;
        lease_until = now + l.lease_ms;
        retention_ms = some retention;
      }))

  unfoldable pub claim_verdict :
      r.State → ℕ → String → Lease → ℕ → ℕ → ScriptVerdict → r.State × ScriptAnswer
  unfolding first_claim
  claim_verdict s now key l retention until (answers a) = (s, a)
  claim_verdict s now key l retention until (gives_up q) = (
    r.psetex s now key (or_else q.retention_ms (max 1 (until - now)))
        (codec.encode (record q { phase = uncertain })),
    now_uncertain,
  )
  claim_verdict s now key l retention until admits =
      (first_claim s now key l retention, now_claimed)

  unfoldable pub claim_found :
      r.State → ℕ → String → Lease → ℕ → Option Item → r.State × ScriptAnswer
  unfolding first_claim judge_stored claim_verdict
  claim_found s now key l retention none = (first_claim s now key l retention, now_claimed)
  claim_found s now key l retention (some (raw, until)) =
      if raw == "1"
      then (s, now_duplicate)
      else claim_verdict s now key l retention until (judge_decoded now (codec.decode raw))

  unfoldable pub claim_script : r.State → ℕ → String → Lease → ℕ → r.State × ScriptAnswer
  unfolding claim_found
  claim_script s now key l retention = claim_found s now key l retention (r.read s now key)

  unfoldable pub write_changed : r.State → ℕ → String → ℕ → Option Stored → r.State × Bool
  write_changed s now key ttl none = (s, false)
  write_changed s now key ttl (some q) = (r.psetex s now key ttl (codec.encode q), true)

  unfoldable pub change_decoded :
      r.State → ℕ → String → String → Operation → ℕ → ℕ → Option Stored → r.State × Bool
  unfolding move_stored deliver_stored ttl_after write_changed
  change_decoded s now key owner operation lease_ms ttl none = (s, false)
  change_decoded s now key owner operation lease_ms ttl (some q) =
      if not (q.owner == owner) || leb ttl 0 || leb q.lease_until now
      then (s, false)
      else write_changed s now key (ttl_after operation q.retention_ms ttl)
          (change operation now lease_ms q)

  unfoldable pub transition_found :
      r.State → ℕ → String → String → Operation → ℕ → Option Item → r.State × Bool
  unfolding change_decoded
  transition_found s now key owner operation lease_ms none = (s, false)
  transition_found s now key owner operation lease_ms (some (raw, until)) =
      if raw == "1"
      then (s, false)
      else change_decoded s now key owner operation lease_ms (until - now) (codec.decode raw)

  unfoldable pub transition_script : r.State → ℕ → String → String → Operation → ℕ → r.State × Bool
  unfolding transition_found
  transition_script s now key owner operation lease_ms =
      transition_found s now key owner operation lease_ms (r.read s now key)

  -- `RedisWebhookEventStore`: its key prefix, and whether its client has `eval`.
  module _ (prefix : String) (has_eval : Bool) where
    unfoldable pub redis_claim :
        (String → String) → ℕ → String → String → String → ℕ → ℕ → r.State → r.State × Outcome Claim
    unfolding claim_script new_lease
    redis_claim sha256_hex now owner profile_name event_id ttl_ms lease_ms s =
        if not has_eval
        then (s, threw "webhook_receipt_atomic_store_required")
        else let l = new_lease sha256_hex owner profile_name event_id lease_ms in
          let (s', answer) =
            claim_script s now (redis_key prefix (serialize profile_name event_id)) l
              (max 1 ttl_ms) in
          (s', returned (claim_of l answer))

    unfoldable pub mutate : ℕ → Lease → Operation → r.State → r.State × Outcome Bool
    unfolding transition_script
    mutate now l operation s =
        if not has_eval
        then (s, threw "webhook_receipt_atomic_store_required")
        else let (s', done) =
            transition_script s now (redis_key prefix (lease_key l)) l.owner operation l.lease_ms in
          (s', returned done)

    unfoldable pub redis_transition : ℕ → Lease → Transition → r.State → r.State × Outcome Bool
    unfolding mutate
    redis_transition now l t s = mutate now l (moves t) s

    unfoldable pub redis_delivery : ℕ → Lease → Delivery → r.State → r.State × Outcome Bool
    unfolding mutate
    redis_delivery now l status s = mutate now l (delivers status) s
