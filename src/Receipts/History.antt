-- ===== src/Receipts/History.antt =====
-- Histories of calls to one receipt store, at any keys and by any owners, with the clock readings
-- that each call makes.
use hhc_line_function_bot.Prelude.{ℕ, ◌≤◌, ◌<◌, String, Bool, true, false, List, [], ◌∷◌}
use hhc_line_function_bot.JsMap.{Distinct}
use hhc_line_function_bot.Receipts.{
  Phase, admitting, Delivery, Transition, Lease, Claim, claimed, Clock, Store, claim, transition,
  delivery, try_start,
}
use hhc_line_function_bot.Receipts.Ownership.{
  claim-Distinct, try_start-Distinct, transition-Distinct, delivery-Distinct,
}

pub data Call : Type 0 where
  try_starts : String → String → ℕ → Call
  claims : String → String → String → ℕ → ℕ → Call
  transitions : Lease → Transition → Call
  deliveries : Lease → Delivery → Call

-- The entries of a history, each with the readings that its call makes.
abbrev pub History : Type 0
History = List (Clock × Call)

-- A history whose readings go forward from `low` and stay before `until`.
abbrev pub Within : ℕ → ℕ → History → Type 0
Within low until [] = Unit
Within low until ((c, _) ∷ h) =
    (low ≤ c.first)
    × (c.first ≤ c.second)
    × (c.second ≤ c.third)
    × (c.third < until)
    × Within c.third until h

-- The last reading of a history.
abbrev pub last_reading : ℕ → History → ℕ
last_reading low [] = low
last_reading low ((c, _) ∷ h) = last_reading c.third h

abbrev pub is_admitting : Phase → Bool
is_admitting admitting = true
is_admitting _ = false

abbrev pub is_granted : Claim → Bool
is_granted (claimed _) = true
is_granted _ = false

module _ (sha256_hex : String → String) where
  unfoldable pub step : Store → Clock × Call → Store
  step s (c, try_starts p e ttl) = (try_start c p e ttl s).0
  step s (c, claims owner p e ttl lease) = (claim sha256_hex c owner p e ttl lease s).0
  step s (c, transitions l t) = (transition c l t s).0
  step s (c, deliveries l status) = (delivery c l status s).0

  unfoldable pub run : Store → History → Store
  run s [] = s
  run s (x ∷ h) = run (step s x) h

  pub step-Distinct : (s : Store) (x : Clock × Call) → Distinct s → Distinct (step s x)
  unfolding step
  step-Distinct s (c, try_starts p e ttl) d = try_start-Distinct c p e ttl s d
  step-Distinct s (c, claims owner p e ttl lease) d =
      claim-Distinct sha256_hex c owner p e ttl lease s d
  step-Distinct s (c, transitions l t) d = transition-Distinct c l t s d
  step-Distinct s (c, deliveries l status) d = delivery-Distinct c l status s d
