-- ===== src/Tests/Recompute.antt =====
-- The recomputation at concrete inputs, and hashes of the small Redis.
use device_telemetry_gateway.Common.{
  ℕ, suc, ◌+◌, ◌≡◌, refl, ap, ◌∙◌, leb, true, false, inl, inr, List, [], ◌∷◌, String_discrete,
  contains, lookup, lookup-insert, Distinct, map, insert, remove, arith,
}
use device_telemetry_gateway.Common.Int.{pos, ◌+ℤ◌, ◌-ℤ◌}
use device_telemetry_gateway.Common.Decimal.{decimal}
use device_telemetry_gateway.Proto.{StorefrontEvent}
use device_telemetry_gateway.Segment.Definitions.{Segment, recently_active_hours, never_purchased}
use device_telemetry_gateway.Segment.Redis.{h_set, h_incr_by, touched_profiles, exec}
use device_telemetry_gateway.Segment.Evaluate.{evaluate_profile}
use device_telemetry_gateway.Segment.Evaluate.Batch.{ids}
use device_telemetry_gateway.Segment.Hashes.{Hashes, parse_int-entry}
use device_telemetry_gateway.Segment.Durations.{time_sub, hours}
use device_telemetry_gateway.Segment.Incremental.{finalize, event_commands}
use device_telemetry_gateway.Segment.Incremental.Edits.{in_segments}
use device_telemetry_gateway.Segment.Incremental.Membership.{no_faults}
use device_telemetry_gateway.Segment.Incremental.Applied.{apply_all}
use device_telemetry_gateway.Segment.Recompute.{recompute, ch_row, query_profile_ids}
use device_telemetry_gateway.Segment.Recompute.Agree.{Run, finalize-recompute}
use device_telemetry_gateway.Segment.Recompute.{accepted}
use device_telemetry_gateway.Commands.SegmentBench.{Bench, consume_all}
use device_telemetry_gateway.Common.{some, none}
use device_telemetry_gateway.Commands.SegmentBench.Laws.{
  Arrival, arrives, ticks, sound, consume_all-apply_all,
}
use device_telemetry_gateway.Tests.MiniRedis.{
  mini_redis, whole_prices, Value, empty_database, Key_discrete, print, run_self,
}

mini_sum : (m n : ℕ) → print (pos m +ℤ pos n) ≡ decimal (m + n)
unfolding ◌+ℤ◌
mini_sum m n =
    let small : leb (0 + 0) (m + n) ≡ true = ground arith in rw small (ap decimal (omega arith))

mini_hashes : Hashes mini_redis
mini_hashes = record {
  lookup-h_set = λ s k f n g.
      ap (λ (v : Value). lookup String_discrete g v.hash) (run_self (h_set k f (pos n)) s)
      ∙ lookup-insert String_discrete f g (decimal n) (s k).hash;
  lookup-h_incr_by = λ s k f m n g h small.
      ap (λ (v : Value). lookup String_discrete g v.hash) (run_self (h_incr_by k f (suc n)) s)
      ∙ ap
          (λ z.
            lookup String_discrete g
              (insert String_discrete f (print (z +ℤ pos (suc n))) (s k).hash))
          (parse_int-entry (s k).hash f m h (omega arith))
      ∙ ap (λ t. lookup String_discrete g (insert String_discrete f t (s k).hash))
          (mini_sum m (suc n))
      ∙ lookup-insert String_discrete f g (decimal (m + suc n)) (s k).hash;
}

abbrev recently_active : Segment ℕ
recently_active = record {
  id = "recently_active_1h";
  family = recently_active_hours;
  min_count = 0;
  window_days = 0;
  category = "";
  min_value = 0;
  min_hours = 1;
  min_days = 0;
  min_distinct = 0;
}

abbrev two : List (Segment ℕ)
two =
    record recently_active { id = "never_purchased"; family = never_purchased }
    ∷ recently_active
    ∷ []

two_unlike : Distinct String_discrete (ids two)
unfolding contains String_discrete
two_unlike = (refl, (refl, tt))

abbrev add : StorefrontEvent
add = record {
  event_id = "e1";
  profile_id = "p1";
  event_type = "add_to_cart";
  timestamp_ms = pos 2000;
  attributes = [];
}

abbrev session : List StorefrontEvent
session =
    add ∷ record add { event_id = "e2"; event_type = "purchase"; timestamp_ms = pos 3000 } ∷ []

session-Run : Run mini_redis empty_database session "p1" 9000
unfolding String_discrete
session-Run = record {
  no_stats = refl;
  no_views = refl;
  after_epoch = (omega arith, (omega arith, tt));
  in_order = (omega arith, (omega arith, tt));
  timed = ((omega arith, omega arith, omega arith), ((omega arith, omega arith, omega arith), tt));
  few = omega arith;
  early = omega arith;
}

session_touched :
    contains String_discrete
      (apply_all mini_redis whole_prices two empty_database session touched_profiles).set
      "p1"
    ≡ true
unfolding apply_all contains String_discrete exec evaluate_profile event_commands Key_discrete
    insert lookup ◌+ℤ◌ decimal ◌-ℤ◌ remove time_sub hours
session_touched = refl

finalize-recompute_example :
    let after = apply_all mini_redis whole_prices two empty_database session in
    let found =
      query_profile_ids whole_prices (λ t. 0) (map ch_row session) recently_active (pos 9000) in
    (recompute whole_prices (λ t. 0) (map ch_row session) recently_active (pos 9000) false none
      ≡ some found)
    × (in_segments mini_redis
          (finalize mini_redis whole_prices two after (pos 9000) false (λ q. no_faults)).0
          "p1"
          "recently_active_1h"
        ≡ contains String_discrete found "p1")
unfolding contains
finalize-recompute_example =
    finalize-recompute mini_redis mini_hashes whole_prices (λ t. 0) two empty_database session "p1"
      9000 recently_active none two_unlike (λ p id. refl) session-Run (inr (inl refl)) (omega arith)
      session_touched

abbrev bench : Bench mini_redis whole_prices two
bench = record { store = empty_database; log = []; ch_batch = []; consumed = 0 }

consume_all-apply_all_example :
    let b' =
      consume_all mini_redis whole_prices two bench
        (map
          (sound mini_redis whole_prices two)
          (arrives add ∷ ticks ∷ arrives (record add { event_id = "e3" }) ∷ []))
        accepted in
    let events = add ∷ record add { event_id = "e3" } ∷ [] in
    (b'.log ≡ map ch_row events)
    × (b'.store ≡ apply_all mini_redis whole_prices two empty_database events)
    × (b'.ch_batch ≡ [])
    × (b'.consumed ≡ 2)
consume_all-apply_all_example =
    consume_all-apply_all mini_redis whole_prices two bench
      (arrives add ∷ ticks ∷ arrives (record add { event_id = "e3" }) ∷ [])

abbrev arrivals : List (Arrival mini_redis whole_prices two)
arrivals =
    arrives add
    ∷ ticks
    ∷ arrives (record add { event_id = "e2"; event_type = "purchase"; timestamp_ms = pos 3000 })
    ∷ []
