-- ===== src/Commands/Lag.antt =====
-- cmd/deliveryburst and cmd/segmentbench: the lag of the stream readers, and the loop that waits until the
-- backlog is drained. The two commands have the same text here.
pub mod Laws
use device_telemetry_gateway.Common.{
  ℕ, zero, suc, ◌+◌, ◌==◌, if◌then◌else◌, List, [], ◌∷◌, Option, none, some,
}
use device_telemetry_gateway.Common.Int.{ℤ, pos, negsuc, pos_part, ◌-ℤ◌}

-- `cur[pid]`: zero for a partition that the reader does not have.
unfoldable pub offset_of : List ℤ → ℕ → ℤ
offset_of [] pid = pos 0
offset_of (c ∷ cur) zero = c
offset_of (c ∷ cur) (suc pid) = offset_of cur pid

-- `ends` are the partitions with the offsets `Last` of the broker, in the order of the map's iteration.
pub lag_of : List (ℕ × ℤ) → List ℤ → ℕ
unfolding offset_of ◌-ℤ◌
lag_of [] cur = 0
lag_of ((pid, last) ∷ ends) cur = pos_part (last -ℤ offset_of cur pid) + lag_of ends cur

-- One round of the loop: `PartitionOffsets` fails, or it answers and the reader is asked for its offsets.
pub data Poll : Type 0 where
  failed : Poll
  answered : List (ℕ × ℤ) → List ℤ → Poll

-- The rounds that fit before the deadline, from a value of `finalLag`.
pub drain_loop : ℤ → List Poll → ℤ
unfolding lag_of
drain_loop final [] = final
drain_loop final (failed ∷ polls) = drain_loop final polls
drain_loop final (answered ends cur ∷ polls) =
    let rest = drain_loop (pos (lag_of ends cur)) polls in
    if lag_of ends cur == 0 then pos (lag_of ends cur) else rest

unfoldable pub final_lag : List Poll → ℤ
unfolding drain_loop
final_lag = drain_loop (negsuc 0)
