-- ===== src/Receipts/RedisExamples.antt =====
-- The Redis receipt store on a server of a map, with packed texts in place of JSON.
use Prim.Native.Char.{code}
use hhc_line_function_bot.Prelude.{
  ℕ, zero, suc, leb, String, ◌≡◌, refl, ap, ◌≢◌, Bool, true, false, Option, none, some, [], ◌∷◌,
  arith,
}
use hhc_line_function_bot.Prelude.Uri.{encode_uri_component}
use hhc_line_function_bot.JsMap.{get, set}
use hhc_line_function_bot.Packing.{
  pack_number, unpack_number, unpack-pack_number, pack_text, unpack_text, unpack-pack_text,
  from_option, to_option,
}
use hhc_line_function_bot.Redis.{map_redis, map_redis-IsLawful}
use hhc_line_function_bot.Receipts.{
  Phase, admitting, started, completed, uncertain, Delivery, not_attempted, attempted, accepted,
  unknown, Lease, start, serialize, claimed,
}
use hhc_line_function_bot.Receipts.History.{claims, transitions}
use hhc_line_function_bot.Receipts.Scripts.{
  Stored, Codec, returned, redis_claim, claim_script, claim_found, first_claim, transition_script,
  transition_found, change_decoded, write_changed, move_stored, ttl_after, redis_transition, mutate,
}
use hhc_line_function_bot.Receipts.Refinement.{IsCodec}
use hhc_line_function_bot.Receipts.Refined.{
  Timeline, memory_answers, redis_answers, redis_run, redis_step, redis_answers_lem, grants,
  redis_no_second_execution, on_claim, on_change,
}

phase_number : Phase → ℕ
phase_number admitting = 0
phase_number started = 1
phase_number completed = 2
phase_number uncertain = 3

phase_of : ℕ → Phase
phase_of zero = admitting
phase_of (suc zero) = started
phase_of (suc (suc zero)) = completed
phase_of (suc (suc (suc n))) = uncertain

phase_back : (p : Phase) → phase_of (phase_number p) ≡ p
unfolding phase_of phase_number
phase_back admitting = refl
phase_back started = refl
phase_back completed = refl
phase_back uncertain = refl

delivery_number : Delivery → ℕ
delivery_number not_attempted = 0
delivery_number attempted = 1
delivery_number accepted = 2
delivery_number unknown = 3

delivery_of : ℕ → Delivery
delivery_of zero = not_attempted
delivery_of (suc zero) = attempted
delivery_of (suc (suc zero)) = accepted
delivery_of (suc (suc (suc n))) = unknown

delivery_back : (d : Delivery) → delivery_of (delivery_number d) ≡ d
unfolding delivery_of delivery_number
delivery_back not_attempted = refl
delivery_back attempted = refl
delivery_back accepted = refl
delivery_back unknown = refl

back_option : (o : Option ℕ) → to_option (from_option o) ≡ o
back_option none = refl
back_option (some n) = refl

write : Stored → String
unfolding phase_number delivery_number
write q = String.◌∷◌ "{" (
    pack_text q.owner (
      pack_text q.operation_id (
        pack_number (phase_number q.phase) (
          pack_number (delivery_number q.delivery)
            (pack_number q.lease_until (pack_number (from_option q.retention_ms) ""))))))

scan : String → Stored
unfolding phase_of delivery_of
scan s =
    let (owner, s1) = unpack_text s in
    let (operation_id, s2) = unpack_text s1 in
    let (phase, s3) = unpack_number s2 in
    let (delivery, s4) = unpack_number s3 in
    let (lease_until, s5) = unpack_number s4 in
    let (retention, s6) = unpack_number s5 in
    record {
      owner = owner;
      operation_id = operation_id;
      phase = phase_of phase;
      delivery = delivery_of delivery;
      lease_until = lease_until;
      retention_ms = to_option retention;
    }

abbrev packed : Codec
packed = record {
  encode = write;
  decode = λ t. elim t [ String.[] ↦ none | String.◌∷◌ c s ↦ some (scan s) ];
}

scan-write : (q : Stored) → packed.decode (packed.encode q) ≡ some q
unfolding write scan
scan-write q =
    rw
      (
        unpack-pack_text, unpack-pack_text, unpack-pack_number, unpack-pack_number,
        unpack-pack_number, unpack-pack_number,
      )
      (rw (phase_back, delivery_back, back_option) refl)

abbrev opens : String → Bool
opens String.[] = false
opens (String.◌∷◌ c s) = leb 100 (code c)

write-not_one : (q : Stored) → write q ≢ "1"
unfolding write
write-not_one q e = let d : true ≡ false = ap opens e in cc

abbrev packed-IsCodec : IsCodec packed
packed-IsCodec = record { decode-encode = scan-write; encode-not_one = write-not_one }

abbrev sha : String → String
sha text = text

abbrev lease : Lease
lease = record {
  profile_name = "helper";
  event_id = "e1";
  owner = "w1";
  operation_id = "helper:e1";
  lease_ms = 50;
}

abbrev started_once : Timeline
started_once = (10, claims "w1" "helper" "e1" 1000 50) ∷ (20, transitions lease start) ∷ []

started_answers :
    redis_answers sha map_redis packed "bot" [] started_once
    ≡ (on_claim (returned (claimed lease)) ∷ on_change (returned true) ∷ [])
unfolding redis_answers redis_step redis_claim claim_script claim_found first_claim redis_transition
    mutate transition_script transition_found change_decoded move_stored ttl_after write_changed
    write scan pack_text unpack_text pack_number unpack_number phase_of phase_number delivery_of
    delivery_number set get serialize encode_uri_component
started_answers = refl

abbrev now_started : Stored
now_started = record {
  owner = "w1";
  operation_id = "helper:e1";
  phase = started;
  delivery = not_attempted;
  lease_until = 60;
  retention_ms = some 1000;
}

redis_answers_lem_example :
    redis_answers sha map_redis packed "bot" [] started_once ≡ memory_answers sha [] started_once
redis_answers_lem_example =
    redis_answers_lem map_redis map_redis-IsLawful packed packed-IsCodec sha "bot" started_once
      (omega arith, omega arith, (omega arith, tt, tt))

redis_no_second_execution_example :
    grants
      (redis_claim map_redis packed "bot" true sha 500 "w2" "helper" "e1" 1000 50 (
        redis_run sha map_redis packed "bot"
          (redis_run sha map_redis packed "bot" [] started_once)
          [])).1
    ≡ false
unfolding redis_run redis_step redis_claim claim_script claim_found first_claim redis_transition
    mutate transition_script transition_found change_decoded move_stored ttl_after write_changed
    write scan pack_text unpack_text pack_number unpack_number phase_of phase_number delivery_of
    delivery_number set get serialize encode_uri_component
redis_no_second_execution_example =
    redis_no_second_execution map_redis map_redis-IsLawful packed packed-IsCodec sha "bot"
      started_once [] 1000 500 1010 "w2" "helper" "e1" 1000 50 now_started
      (omega arith, omega arith, (omega arith, tt, tt)) (omega arith, (omega arith, tt)) refl refl
      (omega arith) tt tt (omega arith) (omega arith) (omega arith)
