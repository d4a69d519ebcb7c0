-- ===== src/Commands/SegmentBench/Agree.antt =====
-- A whole run of cmd/segmentbench: the events, the final pass, and the comparison.
use device_telemetry_gateway.Common.{ℕ, ◌≡◌, false, List, [], String, String_discrete, Distinct}
use device_telemetry_gateway.Common.Int.{pos}
use device_telemetry_gateway.Proto.{StorefrontEvent}
use device_telemetry_gateway.Segment.Floats.{Floats}
use device_telemetry_gateway.Segment.Definitions.{Segment}
use device_telemetry_gateway.Segment.Redis.{Redis}
use device_telemetry_gateway.Segment.Evaluate.Batch.{ids}
use device_telemetry_gateway.Segment.Hashes.{Hashes}
use device_telemetry_gateway.Segment.Incremental.{finalize}
use device_telemetry_gateway.Segment.Incremental.Edits.{in_segments}
use device_telemetry_gateway.Segment.Incremental.Membership.{Mirrored, no_faults}
use device_telemetry_gateway.Segment.Incremental.Applied.{apply_all}
use device_telemetry_gateway.Segment.Incremental.Touched.{touched}
use device_telemetry_gateway.Segment.Recompute.Agree.{Run}
use device_telemetry_gateway.Commands.SegmentBench.{Bench}

module _ (redis : Redis) (hashes : Hashes redis) (floats : Floats)
    (to_float_or_zero : String → floats.Float) (segments : List (Segment floats.Float))
    (d : Distinct String_discrete (ids segments)) (s : redis.Store) (evs : List StorefrontEvent)
    (a : ℕ) (mirrored : Mirrored redis s)
    (unknown : (p id : String) → in_segments redis s p id ≡ false)
    (untouched : (p : String) → touched redis floats segments s p ≡ false)
    (runs : (p : String) → Run redis s evs p a) where
  abbrev after : redis.Store
  after = apply_all redis floats segments s evs

  abbrev final : redis.Store
  final = (finalize redis floats segments after (pos a) false (λ p. no_faults)).0

abbrev pub new_bench :
    (redis : Redis) (floats : Floats) (segments : List (Segment floats.Float))
    → redis.Store
    → Bench redis floats segments
new_bench redis floats segments s = record { store = s; log = []; ch_batch = []; consumed = 0 }
