-- ===== src/Helper/Failover.antt =====
-- The failover to a second model provider, src/helper-agent/provider-failover.ts: which errors switch, and
-- what `FailoverChatOpenAI._generate` does in which order. What it awaits gives a value or throws, as the
-- record `Outside` says; `R` is the type of a model's answer, `E` of what is thrown.
use text.Mathlib.Text.{starts_with}
use hhc_line_function_bot.Prelude.{
  ℕ, zero, suc, String, Bool, true, false, ◌&&◌, ◌||◌, Option, none, some, List, [], ◌∷◌, ◌++◌,
  ◌==◌, leb, any, if◌then◌else◌,
}

-- What is thrown: an `Error` with its cause, or something else (as an absent cause is).
pub record Fault : Type 0 where
  pub name : String
  pub message : String
  pub constructor_name : String
  pub code : Option String
  pub status : Option ℕ

pub data Thrown : Type 0 where
  error : Fault → Thrown → Thrown
  no_error : Thrown

pub data Category : Type 0 where
  transient permanent : Category

abbrev pub is_agent_error : Fault → Bool
is_agent_error f = starts_with f.message "agent_" || f.name == "AbortError"

abbrev pub is_one_of : List String → Option String → Bool
is_one_of names none = false
is_one_of names (some code) = any (λ n. n == code) names

abbrev pub network_codes : List String
network_codes =
    "ECONNRESET" ∷ "ECONNREFUSED" ∷ "ENETUNREACH" ∷ "EHOSTUNREACH" ∷ "ETIMEDOUT" ∷ "ENOTFOUND"
    ∷ "EAI_AGAIN" ∷ "UND_ERR_SOCKET" ∷ "UND_ERR_CONNECT_TIMEOUT" ∷ "UND_ERR_HEADERS_TIMEOUT"
    ∷ "UND_ERR_BODY_TIMEOUT" ∷ []

abbrev pub is_network_error : Fault → Bool
is_network_error f = is_one_of network_codes f.code

-- The test of one of the first `depth` errors, from the outermost to its causes.
unfoldable pub within : ℕ → (Fault → Bool) → Thrown → Bool
within zero test t = false
within (suc depth) test no_error = false
within (suc depth) test (error f cause) = test f || within depth test cause

abbrev is_status : Option ℕ → ℕ → Bool
is_status none n = false
is_status (some status) n = leb n status && leb status n

abbrev is_server_status : Option ℕ → Bool
is_server_status none = false
is_server_status (some status) = leb 500 status && leb status 599

unfoldable pub by_status : Fault → Option Category
by_status f =
    if is_status f.status 401 || is_status f.status 403
    then some permanent
    else if is_status f.status 429
    then if is_one_of ("insufficient_quota" ∷ "organization_usage_limit_exceeded" ∷ []) f.code
      then some permanent
      else some transient
    else if is_status f.status 408 || is_server_status f.status
    then some transient
    else if is_one_of ("APIConnectionError" ∷ "APIConnectionTimeoutError" ∷ "APITimeoutError" ∷ [])
        (some f.constructor_name)
    then some transient
    else none

unfoldable pub fallback_error : Thrown → Option Category
unfolding within by_status
fallback_error no_error = none
fallback_error (error f cause) =
    if within 5 is_agent_error (error f cause)
    then none
    else if within 5 is_network_error (error f cause)
    then some transient
    else if f.name == "TimeoutError"
    then some transient
    else by_status f

pub data Reason : Type 0 where
  pinned_before circuit_open : Reason
  failed_as : Category → Reason

-- What is done, in order.
pub data Event : Type 0 where
  acquired asked_primary : Event
  switched : Reason → Event
  circuit_failed : String → Bool → Event
  circuit_succeeded : String → Event
  pinned prepared asked_fallback : Event

pub data Reply (A : Type 0) : Type 0 where
  gave : A → Reply A
  raised : Thrown → Reply A

pub record Outside (R : Type 0) : Type 0 where
  pub acquire : Reply (Option String)
  pub primary : Reply R
  pub is_aborted : Bool
  pub fail : Reply Unit
  pub succeed : Reply Unit
  pub pin : Reply Unit
  pub before_fallback : Reply Unit
  pub fallback : Reply R

-- The answer says which provider gave it.
pub data Answer (R : Type 0) : Type 0 where
  openai deepseek : R → Answer R

-- `session.pinned`, and what has been done.
pub record Run : Type 0 where
  pub is_pinned : Bool
  pub events : List Event

abbrev pub M : Type 0 → Type 0
M A = Run → Run × Reply A

infixl 5 ◌>>=◌ ◌>>◌
abbrev pub then_do : {A B : Type 0} → (A → M B) → Run × Reply A → Run × Reply B
then_do f (r, gave a) = f a r
then_do f (r, raised t) = (r, raised t)

abbrev pub ◌>>=◌ : {A B : Type 0} → M A → (A → M B) → M B
◌>>=◌ m f r = then_do f (m r)

abbrev pub ◌>>◌ : {A B : Type 0} → M A → M B → M B
m >> k = m >>= λ _. k

abbrev pub pure : {A : Type 0} → A → M A
pure a r = (r, gave a)

-- Something is done, with its result.
abbrev pub await : {A : Type 0} → Event → Reply A → M A
await e reply r = (record r { events = r.events ++ e ∷ [] }, reply)

abbrev pub throw : {A : Type 0} → Thrown → M A
throw t r = (r, raised t)

abbrev pub note : Event → M Unit
note e = await e (gave tt)

abbrev pub is_permanent : Category → Bool
is_permanent permanent = true
is_permanent transient = false

module _ {R : Type 0} (o : Outside R) where
  set_pinned : M Unit
  set_pinned r = (record r { is_pinned = true }, gave tt)

  unfoldable pub ask_fallback : M (Answer R)
  ask_fallback = do
    await prepared o.before_fallback
    r ← await asked_fallback o.fallback
    pure (deepseek r)

  unfoldable pub pin_and_fall_back : M (Answer R)
  unfolding ask_fallback set_pinned
  pin_and_fall_back = do await pinned o.pin; set_pinned; ask_fallback

  -- What is done about an error of the primary.
  unfoldable pub switch : String → Thrown → Option Category → M (Answer R)
  unfolding pin_and_fall_back
  switch lease t none = throw t
  switch lease t (some category) = if o.is_aborted then throw t else do
    await (circuit_failed lease (is_permanent category)) o.fail
    note (switched (failed_as category))
    pin_and_fall_back

  unfoldable pub after_primary : String → Reply R → M (Answer R)
  unfolding switch fallback_error
  after_primary lease (gave r) = do await (circuit_succeeded lease) o.succeed; pure (openai r)
  after_primary lease (raised t) = switch lease t (fallback_error t)

  unfoldable pub with_lease : Option String → M (Answer R)
  unfolding after_primary pin_and_fall_back
  with_lease none = do note (switched circuit_open); pin_and_fall_back
  with_lease (some lease) = do note asked_primary; after_primary lease o.primary

  -- `_generate` of a session that is there.
  unfoldable pub generate : M (Answer R)
  unfolding with_lease ask_fallback
  generate r = if r.is_pinned then ask_fallback r else (await acquired o.acquire >>= with_lease) r
