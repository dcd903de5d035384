-- ===== src/Receipts.antt =====
-- Webhook receipts, src/idempotency/webhook-event-store.ts: `InMemoryWebhookEventStore`.
-- A receipt makes a LINE webhook event run at most once: a worker claims the event under a lease,
-- starts it, and completes it or leaves it uncertain. Each call takes the clock readings that it
-- makes, in order, as a `Clock`; `randomUUID` is the argument `owner`, and SHA-256 a parameter.
pub mod Ownership
pub mod History
pub mod Kept
pub mod Lifecycle
pub mod Exclusive
pub mod Execution
pub mod Scripts
pub mod Refinement
pub mod SameAnswers
pub mod Refined
mod RedisExamples
mod Examples
use hhc_line_function_bot.Prelude.{
  ℕ, ◌+◌, max, String, Bool, true, false, Option, none, some, ◌&&◌, ◌==◌, leb, ltb, if◌then◌else◌,
}
use Prim.Native.String.{◌++◌}
use hhc_line_function_bot.Prelude.Uri.{encode_uri_component}
use hhc_line_function_bot.JsMap.{JsMap, get, set, sweep}

pub data Phase : Type 0 where
  admitting started completed uncertain : Phase

pub data Delivery : Type 0 where
  not_attempted attempted accepted unknown : Delivery

pub data Transition : Type 0 where
  start complete to_uncertain release renew : Transition

pub record Lease : Type 0 where
  pub profile_name : String
  pub event_id : String
  pub owner : String
  pub operation_id : String
  pub lease_ms : ℕ

pub record Receipt : Type 0 where
  pub owner : String
  pub operation_id : String
  pub phase : Phase
  pub delivery : Delivery
  pub lease_until : ℕ
  pub expires_at : ℕ
  pub retention_ms : ℕ

-- `number | Receipt`: `tryStart` leaves only the time at which the entry expires.
pub data Entry : Type 0 where
  seen : ℕ → Entry
  receipt : Receipt → Entry

pub data StartResult : Type 0 where
  fresh repeated : StartResult

pub data Claim : Type 0 where
  claimed : Lease → Claim
  duplicate in_doubt : Claim

-- The readings of `this.now()` that one call makes, in order.
pub record Clock : Type 0 where
  pub first : ℕ
  pub second : ℕ
  pub third : ℕ

abbrev pub Store : Type 0
Store = JsMap Entry

unfoldable pub serialize : String → String → String
serialize profile_name event_id =
    encode_uri_component profile_name ++ ":" ++ encode_uri_component event_id

abbrev pub lease_key : Lease → String
lease_key l = serialize l.profile_name l.event_id

abbrev pub expiry : Entry → ℕ
expiry (seen until) = until
expiry (receipt r) = r.expires_at

abbrev pub expired : ℕ → Entry → Bool
expired now e = leb (expiry e) now

-- `current`: drop what has expired, then look the key up in what is left.
abbrev pub current : ℕ → Store → Store
current now s = sweep (expired now) s

pub new_lease : (String → String) → String → String → String → ℕ → Lease
new_lease sha256_hex owner profile_name event_id lease_ms = record {
  profile_name = profile_name;
  event_id = event_id;
  owner = owner;
  lease_ms = max 1 lease_ms;
  operation_id = sha256_hex (serialize profile_name event_id);
}

pub try_start : Clock → String → String → ℕ → Store → Store × StartResult
try_start c profile_name event_id ttl_ms s =
    let key = serialize profile_name event_id in
    let s' = current c.first s in
    elim (get key s') [
      | some _ ↦ (s', repeated)
      | none ↦ (set key (seen (c.second + max 1 ttl_ms)) s', fresh)
    ]

pub admitted : ℕ → ℕ → Lease → Receipt
admitted now ttl_ms l = record {
  owner = l.owner;
  operation_id = l.operation_id;
  phase = admitting;
  delivery = not_attempted;
  lease_until = now + l.lease_ms;
  expires_at = now + ttl_ms;
  retention_ms = ttl_ms;
}

-- What `claim` does about the entry that it finds: refuse, give the event up as uncertain, or go on
-- to a lease of its own.
pub data Verdict : Type 0 where
  refuse : Claim → Verdict
  give_up : Receipt → Verdict
  admit : Verdict

judge_receipt : Phase → ℕ → Receipt → Verdict
judge_receipt completed now r = refuse duplicate
judge_receipt uncertain now r = refuse in_doubt
judge_receipt started now r =
    if ltb now r.lease_until
    then refuse duplicate
    else give_up (record r { phase = uncertain; expires_at = now + r.retention_ms })
judge_receipt admitting now r = if ltb now r.lease_until then refuse duplicate else admit

pub judge : ℕ → Option Entry → Verdict
unfolding judge_receipt
judge now none = admit
judge now (some (seen _)) = refuse duplicate
judge now (some (receipt r)) = judge_receipt r.phase now r

pub settle : String → ℕ → ℕ → Lease → Store → Verdict → Store × Claim
unfolding admitted
settle key now ttl_ms l s (refuse answer) = (s, answer)
settle key now ttl_ms l s (give_up r) = (set key (receipt r) s, in_doubt)
settle key now ttl_ms l s admit = (set key (receipt (admitted now ttl_ms l)) s, claimed l)

pub claim : (String → String) → Clock → String → String → String → ℕ → ℕ → Store → Store × Claim
unfolding judge settle new_lease
claim sha256_hex c owner profile_name event_id ttl_ms lease_ms s =
    let key = serialize profile_name event_id in
    let s' = current c.second s in
    settle key c.first ttl_ms (new_lease sha256_hex owner profile_name event_id lease_ms) s'
      (judge c.first (get key s'))

-- The receipt, if the lease's owner holds it and the lease has not run out.
abbrev pub holds : ℕ → Lease → Option Entry → Option Receipt
holds now l none = none
holds now l (some (seen _)) = none
holds now l (some (receipt r)) =
    if (r.owner == l.owner) && ltb now r.lease_until then some r else none

pub move : Transition → Phase → ℕ → Lease → Receipt → Option Receipt
move _ completed now l r = none
move _ uncertain now l r = none
move start admitting now l r = some (record r { phase = started })
move start started now l r = none
move complete _ now l r = some (record r { phase = completed; expires_at = now + r.retention_ms })
move to_uncertain _ now l r =
    some (record r { phase = uncertain; expires_at = now + r.retention_ms })
move release admitting now l r = some (record r { lease_until = 0 })
move release started now l r = none
move renew _ now l r = some (record r { lease_until = now + l.lease_ms })

abbrev pub bind {ℓ κ} : {A : Type ℓ} {B : Type κ} → Option A → (A → Option B) → Option B
bind none f = none
bind (some a) f = f a

-- Write a changed receipt back, or answer `false`.
abbrev pub store_back : String → Store → Option Receipt → Store × Bool
store_back key s none = (s, false)
store_back key s (some r) = (set key (receipt r) s, true)

pub transition : Clock → Lease → Transition → Store → Store × Bool
unfolding move
transition c l t s =
    let s' = current c.first s in
    store_back (lease_key l) s'
      (bind (holds c.second l (get (lease_key l) s')) (λ r. move t r.phase c.third l r))

-- `delivery`: an attempt is recorded once, and its outcome only after the attempt.
pub deliver : Delivery → Delivery → Receipt → Option Receipt
deliver attempted not_attempted r = some (record r { delivery = attempted })
deliver attempted _ r = none
deliver status attempted r = some (record r { delivery = status })
deliver status _ r = none

pub delivery : Clock → Lease → Delivery → Store → Store × Bool
unfolding deliver
delivery c l status s =
    let s' = current c.first s in
    store_back (lease_key l) s'
      (bind (holds c.second l (get (lease_key l) s')) (λ r. deliver status r.delivery r))
