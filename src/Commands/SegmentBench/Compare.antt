-- ===== src/Commands/SegmentBench/Compare.antt =====
-- cmd/segmentbench/main.go: the comparison of the engine with the recomputation, segment by segment.
use device_telemetry_gateway.Common.{
  ℕ, ◌+◌, if◌then◌else◌, Bool, true, false, List, [], ◌∷◌, Option, none, some, String,
}
use device_telemetry_gateway.Common.Int.{ℤ}
use device_telemetry_gateway.Segment.Floats.{Floats}
use device_telemetry_gateway.Segment.Definitions.{Segment}
use device_telemetry_gateway.Segment.Diff.{SegmentDiff, exact, diff_sets}
use device_telemetry_gateway.Segment.Redis.{Redis}
use device_telemetry_gateway.Segment.Incremental.{members_of}
use device_telemetry_gateway.Segment.Recompute.{ChRow, recompute}

-- `exactSegments` and `totalMismatch`.
pub record Matches : Type 0 where
  pub exact_segments : ℕ
  pub total_mismatch : ℕ

unfoldable pub judge : Matches → SegmentDiff → Matches
judge m d =
    if exact d
    then record m { exact_segments = m.exact_segments + 1 }
    else record m { total_mismatch = m.total_mismatch + (d.only_incremental + d.only_recompute) }

module _ (redis : Redis) (floats : Floats) (to_float_or_zero : String → floats.Float) where
  -- One round; `none` is the end of the program on an error of one of the two reads. The two flags are
  -- these errors, and `other` is what ClickHouse answers to a query that is not the intended one.
  unfoldable pub compare_segment :
      redis.Store
      → List ChRow
      → ℤ
      → Segment floats.Float
      → Bool × Bool
      → Option (List String)
      → Option Matches
      → Option Matches
  unfolding judge members_of recompute
  compare_segment s log as_of seg faults other none = none
  compare_segment s log as_of seg (true, query_fails) other (some m) = none
  compare_segment s log as_of seg (false, query_fails) other (some m) =
      judged m (recompute floats to_float_or_zero log seg as_of query_fails other)
    where
      judged : Matches → Option (List String) → Option Matches
      judged m none = none
      judged m (some found) = some (judge m (diff_sets seg.id (members_of redis s seg.id) found))

  unfoldable pub compare_segments :
      redis.Store
      → List ChRow
      → ℤ
      → (String → Bool × Bool)
      → (String → Option (List String))
      → List (Segment floats.Float)
      → Option Matches
      → Option Matches
  unfolding compare_segment
  compare_segments s log as_of faults others [] m = m
  compare_segments s log as_of faults others (seg ∷ segs) m =
      compare_segments s log as_of faults others segs
        (compare_segment s log as_of seg (faults seg.id) (others seg.id) m)
