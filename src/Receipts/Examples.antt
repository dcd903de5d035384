-- ===== src/Receipts/Examples.antt =====
-- Runs of the receipt store, and the theorems at concrete inputs.
use hhc_line_function_bot.Prelude.{ℕ, String, ◌≡◌, refl, inl, inr, eq_iff, false, [], ◌∷◌, arith}
use hhc_line_function_bot.Prelude.Uri.{encode_uri_component}
use hhc_line_function_bot.JsMap.{get, set, sweep}
use hhc_line_function_bot.Receipts.{
  admitting, started, Delivery, Lease, Receipt, receipt, claimed, duplicate, Clock, Store,
  serialize, claim, transition, start, complete,
}
use hhc_line_function_bot.Receipts.Exclusive.{claim_exclusive}
use hhc_line_function_bot.Receipts.History.{
  History, claims, transitions, try_starts, run, is_granted, step,
}
use hhc_line_function_bot.Receipts.Execution.{no_second_execution}
use hhc_line_function_bot.Receipts.Lifecycle.{Follows, step-Follows}

encode_example : encode_uri_component "main bot:頁/😀~" ≡ "main%20bot%3A%E9%A0%81%2F%F0%9F%98%80~"
unfolding encode_uri_component
encode_example = refl

abbrev sha : String → String
sha text = text

abbrev at : ℕ → Clock
at t = record { first = t; second = t; third = t }

abbrev lease : String → Lease
lease owner = record {
  profile_name = "helper";
  event_id = "e1";
  owner = owner;
  operation_id = "helper:e1";
  lease_ms = 50;
}

abbrev first_receipt : Receipt
first_receipt = record {
  owner = "w1";
  operation_id = "helper:e1";
  phase = admitting;
  delivery = Delivery.not_attempted;
  lease_until = 60;
  expires_at = 1010;
  retention_ms = 1000;
}

abbrev claimed_store : Store
claimed_store = ("helper:e1", receipt first_receipt) ∷ []

first_claim :
    claim sha (at 10) "w1" "helper" "e1" 1000 50 [] ≡ (claimed_store, claimed (lease "w1"))
unfolding claim get set sweep serialize encode_uri_component
first_claim = refl

abbrev meanwhile : History
meanwhile =
    (at 15, transitions (lease "w1") start)
    ∷ (at 16, transitions (lease "w9") complete)
    ∷ (at 17, try_starts "helper" "e1" 5)
    ∷ (at 18, claims "w3" "helper" "e1" 9 9)
    ∷ []

claim_exclusive_example :
    (claim sha
      (at 20)
      "w2"
      "helper"
      "e1"
      9
      9
      (run sha (claim sha (at 10) "w1" "helper" "e1" 1000 50 []).0 meanwhile)).1
    ≡ duplicate
unfolding claim get set sweep serialize encode_uri_component
claim_exclusive_example =
    (claim_exclusive sha (at 10) (at 20) "w1" "w2" "helper" "e1" 1000 50 9 9 [] meanwhile
      {l = lease "w1"} tt refl
      (
        (omega arith, inl refl),
        (
          (omega arith, inr (inl (ground (arith, eq_iff "w9" "w1")))),
          (omega arith, ((omega arith, omega arith), tt)),
        ),
      )
      (omega arith) (omega arith)).0

abbrev started_once : History
started_once =
    (at 10, claims "w1" "helper" "e1" 1000 50) ∷ (at 20, transitions (lease "w1") start) ∷ []

abbrev afterwards : History
afterwards =
    (at 70, claims "w2" "helper" "e1" 1000 50) ∷ (at 80, transitions (lease "w1") complete) ∷ []

no_second_execution_example :
    is_granted
      (claim sha
        (at 900)
        "w3"
        "helper"
        "e1"
        1000
        50
        (run sha (run sha [] started_once) afterwards)).1
    ≡ false
unfolding run step claim transition get set sweep serialize encode_uri_component
no_second_execution_example =
    no_second_execution sha started_once afterwards 1010 (at 900) "w3" "helper" "e1" 1000 50
      {r = record first_receipt { phase = started }} (omega arith) refl refl (omega arith)
      (omega arith) (omega arith)

step-Follows_example :
    Follows
      (at 70)
      first_receipt
      (get "helper:e1" (step sha claimed_store (at 70, claims "w2" "helper" "e1" 1000 50)))
unfolding get
step-Follows_example =
    step-Follows sha (at 70) (claims "w2" "helper" "e1" 1000 50) "helper:e1" claimed_store
      first_receipt (refl, tt) refl
