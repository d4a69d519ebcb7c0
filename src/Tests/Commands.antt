-- ===== src/Tests/Commands.antt =====
-- The commands and the dashboard queries at concrete inputs.
use device_telemetry_gateway.Common.{
  ◌≡◌, ◌↔◌, refl, arith, true, false, ne_of_unequal, if◌then◌else◌, List, [], ◌∷◌, map, none, some,
  String_discrete, contains, lookup, reference, SameItems,
}
use device_telemetry_gateway.Common.Decimal.{padded}
use device_telemetry_gateway.Common.Int.{pos, negsuc, leb_ℤ}
use device_telemetry_gateway.Proto.{DeliveryWebhook}
use device_telemetry_gateway.Kafka.{acked}
use device_telemetry_gateway.DeliveryStats.{reference_dedup}
use device_telemetry_gateway.DeliveryStats.Store.{
  Tables, Pair, RollupKey, RollupKey_discrete, runs, refresh_rollup,
}
use device_telemetry_gateway.DeliveryStats.Store.Dashboard.{
  times, dashboard_raw_query, dashboard_rollup_query,
}
use device_telemetry_gateway.DeliveryStats.Store.Windows.{dashboards_agree}
use device_telemetry_gateway.DeliveryStats.SimWebhooks.{
  MessageDraw, build, with_retries, with_retries-build,
}
use device_telemetry_gateway.Commands.DedupBench.{delivery_gen}
use device_telemetry_gateway.Commands.DedupBench.Laws.{delivery_gen_matches}
use device_telemetry_gateway.Commands.Lag.{Poll, failed, answered, final_lag}
use device_telemetry_gateway.Commands.Lag.Laws.{CaughtUpOnce, AllFailed, final_lag_meaning}
use device_telemetry_gateway.Commands.Scale.{compare, pair_key}
use device_telemetry_gateway.Commands.Scale.Compare.{extra_pair_unseen}
use device_telemetry_gateway.Tests.Samples.{webhook}

-- A run on a topic that still holds a webhook of an earlier run.
delivery_gen_matches_example :
    (delivery_gen
      (webhook "old" ∷ [])
      (map (λ w. (w, acked)) (webhook "w1" ∷ webhook "w2" ∷ webhook "w1" ∷ []))
      some).1
    ≡ some false
unfolding reference_dedup reference contains String_discrete
delivery_gen_matches_example =
    delivery_gen_matches (webhook "old" ∷ []) (webhook "w1" ∷ webhook "w2" ∷ webhook "w1" ∷ [])
      (webhook "old" ∷ webhook "w1" ∷ webhook "w2" ∷ []) some (omega arith) refl (λ p. refl)

abbrev at_minute_two : DeliveryWebhook
at_minute_two = record (webhook "w2") { timestamp_ms = pos 125000 }

abbrev log_of_two : Tables
log_of_two = record { events = webhook "w1" ∷ at_minute_two ∷ []; rollup = [] }

abbrev minute_two : RollupKey
minute_two = record { minute = pos 2; pair = record { channel = "SMS"; status = "SENT" } }

dashboards_agree_example :
    let t' = (refresh_rollup log_of_two runs runs).0 in
    lookup RollupKey_discrete minute_two (dashboard_rollup_query t' (times 1000 (pos 60))) ≡ (
      if leb_ℤ (times 1000 (pos 60)) (times 60000 minute_two.minute)
      then lookup RollupKey_discrete minute_two (dashboard_raw_query t' (times 1000 (pos 60)))
      else none)
unfolding refresh_rollup contains String_discrete
dashboards_agree_example =
    dashboards_agree log_of_two runs runs (pos 60) minute_two refl (refl, (refl, tt))

abbrev polls : List Poll
polls = failed ∷ answered ((0, pos 5) ∷ (1, pos 3) ∷ []) (pos 4 ∷ pos 3 ∷ []) ∷ []

final_lag_meaning_example :
    ((final_lag polls ≡ pos 0) ↔ CaughtUpOnce polls)
    × ((final_lag polls ≡ negsuc 0) ↔ AllFailed polls)
final_lag_meaning_example = final_lag_meaning polls

polls_lag : final_lag polls ≡ pos 1
unfolding final_lag
polls_lag = refl

abbrev sms_sent : Pair
sms_sent = record { channel = "sms"; status = "sent" }

abbrev sms_failed : Pair
sms_failed = record { channel = "sms"; status = "failed" }

extra_pair_unseen_example :
    compare ((sms_sent, 4) ∷ []) ((sms_failed, 9) ∷ (sms_sent, 4) ∷ [])
    ≡ compare ((sms_sent, 4) ∷ []) ((sms_sent, 4) ∷ [])
unfolding pair_key
extra_pair_unseen_example =
    extra_pair_unseen ((sms_sent, 4) ∷ []) [] ((sms_sent, 4) ∷ []) sms_failed 9
      (ne_of_unequal (pair_key sms_sent) (pair_key sms_failed) refl, tt)

abbrev two_messages : List MessageDraw
two_messages =
    record { channel = 1; sent_at = pos 1000; below_90 = true; below_97 = true; delay = 4 }
    ∷ record { channel = 2; sent_at = pos 2000; below_90 = false; below_97 = true; delay = 0 }
    ∷ []

with_retries-build_example :
    (map (λ w. w.message_id) (build two_messages)
      ≡ "msg-000000000" ∷ "msg-000000000" ∷ "msg-000000001" ∷ "msg-000000001" ∷ [])
    × (map (λ w. w.status) (build two_messages) ≡ "sent" ∷ "delivered" ∷ "sent" ∷ "bounced" ∷ [])
    × SameItems
        (reference_dedup (with_retries (build two_messages) (3 ∷ 0 ∷ []) ((0, 5) ∷ (1, 2) ∷ [])))
        (build two_messages)
unfolding padded
with_retries-build_example = with_retries-build two_messages (3 ∷ 0 ∷ []) ((0, 5) ∷ (1, 2) ∷ [])
