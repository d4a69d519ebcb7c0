-- ===== src/Ingest/Dedup/Valid.antt =====
-- The invariant of the deduplication state, and the bound on the entries it remembers.
use device_telemetry_gateway.Common.{
  ℕ, ◌*◌, ◌≤◌, List, [], ◌∷◌, String, String_discrete, ℕ_discrete, length, All, lookup,
  Option-cases, inl, inr, arith, All-lookup, insert-All,
}
use device_telemetry_gateway.Proto.{Reading}
use device_telemetry_gateway.Fifo.Valid.{IsFifo, empty-IsFifo, admit-IsFifo}
use device_telemetry_gateway.Ingest.Dedup.{
  Dedup, DeviceSeen, max_sequences_per_device, new_dedup, device_seen, admit, admit_all,
  entry_count, device_count, total_entries,
}

-- Every device's record is a valid bounded set.
abbrev pub IsDeviceSeen : DeviceSeen → Type 0
IsDeviceSeen = IsFifo ℕ_discrete max_sequences_per_device

abbrev pub IsDedup : Dedup → Type 0
IsDedup d = All (λ e. IsDeviceSeen e.1) d.seen

pub device_seen-IsDeviceSeen :
    (d : Dedup) (device_id : String) → IsDedup d → IsDeviceSeen (device_seen d device_id)
unfolding device_seen
device_seen-IsDeviceSeen d device_id v =
    elim (Option-cases (lookup String_discrete device_id d.seen)) [
      | inl miss ↦ rw miss (empty-IsFifo ℕ_discrete max_sequences_per_device)
      | inr (ds, hit) ↦ rw hit (All-lookup String_discrete IsDeviceSeen device_id d.seen v hit)
    ]

pub admit-IsDedup :
    (d : Dedup) (device_id : String) (sequence : ℕ)
    → IsDedup d
    → IsDedup (admit d device_id sequence).0
unfolding admit
admit-IsDedup d device_id sequence v =
    insert-All String_discrete IsDeviceSeen device_id _ d.seen
      (admit-IsFifo ℕ_discrete _ (device_seen d device_id) sequence
        (device_seen-IsDeviceSeen d device_id v))
      v

pub admit_all-IsDedup : (d : Dedup) (rs : List Reading) → IsDedup d → IsDedup (admit_all d rs).0
unfolding admit_all
admit_all-IsDedup d [] v = v
admit_all-IsDedup d (r ∷ rs) v =
    admit_all-IsDedup (admit d r.device_id r.sequence).0 rs
      (admit-IsDedup d r.device_id r.sequence v)

total_entries-le :
    (m : List (String × DeviceSeen))
    → All (λ e. IsDeviceSeen e.1) m
    → total_entries m ≤ length m * max_sequences_per_device
unfolding total_entries
total_entries-le [] v = omega arith
total_entries-le ((k, ds) ∷ m) v = omega (arith, total_entries-le m v.1, v.0.sizes, v.0.bounded)

-- After any traffic the memory is bounded by the number of devices: what the soak run measures.
pub entry_count_bounded :
    (rs : List Reading)
    → let d = (admit_all new_dedup rs).0 in
      entry_count d ≤ device_count d * max_sequences_per_device
unfolding entry_count device_count
entry_count_bounded rs = total_entries-le _ (admit_all-IsDedup new_dedup rs tt)
