-- ===== src/Tests/Segments.antt =====
-- The segment engine at concrete inputs.
use device_telemetry_gateway.Common.{
  ℕ, ◌≡◌, refl, ◌↔◌, arith, Bool, true, false, not, ◌&&◌, ite, List, [], ◌∷◌, none, String,
  String_discrete, Distinct, contains, length, drop, lookup, insert, reference, remove,
}
use device_telemetry_gateway.Common.Int.{pos, ◌+ℤ◌, ◌-ℤ◌}
use device_telemetry_gateway.Proto.{StorefrontEvent}
use device_telemetry_gateway.Common.Decimal.{decimal}
use device_telemetry_gateway.Segment.Definitions.{Segment, generate_test_segments}
use device_telemetry_gateway.Segment.Diff.{exact, diff_sets}
use device_telemetry_gateway.Segment.Diff.Laws.{exact-diff_sets}
use device_telemetry_gateway.Segment.Redis.{run_all, exec, segments_key, touched_profiles}
use device_telemetry_gateway.Segment.ParseInt.{parse_int}
use device_telemetry_gateway.Segment.Durations.{time_sub, hours}
use device_telemetry_gateway.Segment.Evaluate.{field, evaluate_profile, no_read_fault, matching}
use device_telemetry_gateway.Segment.Evaluate.Batch.{ids}
use device_telemetry_gateway.Segment.Evaluate.Frame.{current}
use device_telemetry_gateway.Segment.Incremental.{
  fine, failed, event_commands, apply_event, finalize, reevaluate, lacking, distinct_ids, delta,
}
use device_telemetry_gateway.Segment.Incremental.Edits.{in_segments, in_members}
use device_telemetry_gateway.Segment.Incremental.Membership.{Mirrored, no_faults}
use device_telemetry_gateway.Segment.Incremental.Events.{
  apply_event-Mirrored, Finalized, finalize-Finalized,
}
use device_telemetry_gateway.Segment.Incremental.Torn.{
  torn, reevaluated, nothing, torn_membership_stays,
}
use device_telemetry_gateway.Tests.MiniRedis.{
  mini_redis, whole_prices, Database, empty_database, Key_discrete,
}

-- The test of segment_test.go: fifty segments, no two with one id.
fifty_segments : length (generate_test_segments whole_prices) ≡ 50
unfolding generate_test_segments
fifty_segments = refl

abbrev is_distinct : List String → Bool
is_distinct [] = true
is_distinct (x ∷ xs) = not (contains String_discrete xs x) && is_distinct xs

is_distinct-Distinct : (xs : List String) → is_distinct xs ≡ true → Distinct String_discrete xs
is_distinct-Distinct [] h = tt
is_distinct-Distinct (x ∷ xs) h = (ground arith, is_distinct-Distinct xs (ground arith))

abbrev fifty : List (Segment ℕ)
fifty = generate_test_segments whole_prices

fifty_unlike : Distinct String_discrete (ids fifty)
unfolding generate_test_segments contains String_discrete
fifty_unlike = is_distinct-Distinct (ids fifty) refl

abbrev view : StorefrontEvent
view = record {
  event_id = "e1";
  profile_id = "p1";
  event_type = "page_view";
  timestamp_ms = pos 1000;
  attributes = ("category", "books") ∷ [];
}

abbrev viewed : Database
viewed = run_all mini_redis (event_commands mini_redis whole_prices fifty view) empty_database

-- What the profile is after one view: recently active, and never a purchaser.
viewed_now :
    current mini_redis whole_prices fifty viewed "p1" (pos 1000)
    ≡ "recently_active_1h" ∷ "recently_active_6h" ∷ "recently_active_24h" ∷ "recently_active_72h"
      ∷ "never_purchased" ∷ []
unfolding evaluate_profile generate_test_segments event_commands field parse_int String_discrete
    Key_discrete lookup insert decimal remove contains ◌+ℤ◌ ◌-ℤ◌ time_sub hours
viewed_now = refl

apply_event-Mirrored_example :
    let (s', result) =
      apply_event mini_redis whole_prices fifty empty_database view none no_faults in
    (result ≡ fine)
    × ((q id : String)
        → in_segments mini_redis s' q id
          ≡ ite
              (String_discrete q "p1")
              (contains String_discrete
                (current mini_redis whole_prices fifty viewed "p1" (pos 1000))
                id)
              (in_segments mini_redis empty_database q id))
    × Mirrored mini_redis s'
unfolding contains
apply_event-Mirrored_example =
    apply_event-Mirrored mini_redis whole_prices fifty empty_database view fifty_unlike
      (λ p id. refl)

finalize-Finalized_example :
    let s = (apply_event mini_redis whole_prices fifty empty_database view none no_faults).0 in
    let (s', result, count) =
      finalize mini_redis whole_prices fifty s (pos 5000) false (λ p. no_faults) in
    (result ≡ fine)
    × (count ≡ length (s touched_profiles).set)
    × Finalized mini_redis whole_prices fifty s s' (s touched_profiles).set (pos 5000)
finalize-Finalized_example =
    finalize-Finalized mini_redis whole_prices fifty
      (apply_event mini_redis whole_prices fifty empty_database view none no_faults).0 (pos 5000)
      fifty_unlike apply_event-Mirrored_example.2

exact-diff_sets_example : (exact (diff_sets "s" ("p1" ∷ "p2" ∷ []) ("p2" ∷ "p3" ∷ [])) ≡ true) ↔ (
    (x : String)
    → contains String_discrete ("p1" ∷ "p2" ∷ []) x ≡ contains String_discrete ("p2" ∷ "p3" ∷ []) x)
exact-diff_sets_example = exact-diff_sets "s" ("p1" ∷ "p2" ∷ []) ("p2" ∷ "p3" ∷ [])

abbrev five : List String
five =
    "recently_active_1h" ∷ "recently_active_6h" ∷ "recently_active_24h" ∷ "recently_active_72h"
    ∷ "never_purchased" ∷ []

abbrev broken : Database
broken =
    (reevaluate mini_redis whole_prices fifty viewed "p1" (pos 1000)
      (torn mini_redis whole_prices fifty)).0

viewed_answer :
    evaluate_profile mini_redis whole_prices fifty viewed "p1" (pos 1000) no_read_fault
    ≡ matching five
unfolding evaluate_profile generate_test_segments event_commands field parse_int String_discrete
    Key_discrete lookup insert decimal remove contains ◌+ℤ◌ ◌-ℤ◌ time_sub hours
viewed_answer = refl

first_command :
    lacking (distinct_ids five) (viewed (segments_key "p1")).set
    ≡ "recently_active_1h" ∷ drop 1 five
unfolding event_commands lacking distinct_ids reference String_discrete Key_discrete contains lookup
first_command = refl

not_indexed : in_members mini_redis viewed "recently_active_1h" "p1" ≡ false
unfolding event_commands String_discrete Key_discrete contains lookup
not_indexed = refl

broken_answer :
    evaluate_profile mini_redis whole_prices fifty broken "p1" (pos 1000) no_read_fault
    ≡ matching five
unfolding reevaluate evaluate_profile generate_test_segments event_commands field parse_int
    String_discrete Key_discrete lookup insert decimal remove contains lacking distinct_ids
    reference ◌+ℤ◌ ◌-ℤ◌ exec delta time_sub hours
broken_answer = refl

torn_membership_stays_example :
    let again = (reevaluate mini_redis whole_prices fifty broken "p1" (pos 1000) no_faults).0 in
    ((reevaluate mini_redis whole_prices fifty viewed "p1"
        (pos 1000)
        (torn mini_redis whole_prices fifty)).1
      ≡ failed)
    × (in_segments mini_redis again "p1" "recently_active_1h" ≡ true)
    × (in_members mini_redis again "recently_active_1h" "p1" ≡ false)
unfolding contains String_discrete
torn_membership_stays_example =
    torn_membership_stays mini_redis whole_prices fifty viewed _ "p1" (pos 1000) five (drop 1 five)
      "recently_active_1h" viewed_answer first_command not_indexed
      (reevaluated (pos 1000) five nothing broken_answer refl)
