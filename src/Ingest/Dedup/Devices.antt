-- ===== src/Ingest/Dedup/Devices.antt =====
-- Devices do not disturb one another.
use device_telemetry_gateway.Common.{
  ℕ, ◌≡◌, ◌≢◌, refl, Bool, true, false, List, [], ◌∷◌, String, String_discrete, ℕ_discrete,
  lookup-insert_self, lookup-insert_ne, ite, select, arith, Bool-cases, inl, inr,
}
use device_telemetry_gateway.Proto.{Reading}
use device_telemetry_gateway.Fifo
use device_telemetry_gateway.Fifo.{Fifo}
use device_telemetry_gateway.Ingest.Dedup.{
  Dedup, max_sequences_per_device, device_seen, admit, admit_all,
}

abbrev pub is_device : String → Reading → Bool
is_device device_id r = ite (String_discrete r.device_id device_id) true false

-- The call changes the record of its own device as the bounded set does.
pub device_seen-admit_self :
    (d : Dedup) (device_id : String) (sequence : ℕ)
    → device_seen (admit d device_id sequence).0 device_id
      ≡ (Fifo.admit ℕ_discrete max_sequences_per_device (device_seen d device_id) sequence).0
unfolding device_seen admit
device_seen-admit_self d device_id sequence =
    rw (lookup-insert_self String_discrete device_id _ d.seen)

-- It leaves the record of every other device alone.
pub device_seen-admit_ne :
    (d : Dedup) (device_id other : String) (sequence : ℕ)
    → other ≢ device_id
    → device_seen (admit d device_id sequence).0 other ≡ device_seen d other
unfolding device_seen admit
device_seen-admit_ne d device_id other sequence h =
    rw (lookup-insert_ne String_discrete device_id other _ d.seen h)

step_own :
    (d : Dedup) (device_id : String) (r : Reading)
    → is_device device_id r ≡ true
    → let alone =
        Fifo.admit ℕ_discrete max_sequences_per_device (device_seen d device_id) r.sequence in
      (device_seen (admit d r.device_id r.sequence).0 device_id ≡ alone.0)
      × ((admit d r.device_id r.sequence).1 ≡ alone.1)
step_own d device_id r mine =
    let same : r.device_id ≡ device_id = ground arith in
    rw (← same) (device_seen-admit_self d r.device_id r.sequence, unfold admit in refl)

step_other :
    (d : Dedup) (device_id : String) (r : Reading)
    → is_device device_id r ≡ false
    → device_seen (admit d r.device_id r.sequence).0 device_id ≡ device_seen d device_id
step_other d device_id r other =
    device_seen-admit_ne d r.device_id device_id r.sequence (λ e. ground arith)

-- What a device sees of a run, however its readings interleave with those of other devices, is the
-- run of its own readings alone: the same readings are admitted, and the same record is left.
pub admit_all-device :
    (d : Dedup) (device_id : String) (rs : List Reading)
    → let alone =
        Fifo.admit_all ℕ_discrete max_sequences_per_device
          (λ (r : Reading). r.sequence)
          (device_seen d device_id)
          (select (is_device device_id) rs) in
      (device_seen (admit_all d rs).0 device_id ≡ alone.0)
      × (select (is_device device_id) (admit_all d rs).1 ≡ alone.1)
unfolding admit_all Fifo.admit_all
admit_all-device d device_id [] = (refl, refl)
admit_all-device d device_id (r ∷ rs) =
    let (left, out) = admit_all-device (admit d r.device_id r.sequence).0 device_id rs in
    elim (Bool-cases (is_device device_id r)) [
      | inl mine ↦
          let (same_record, same_verdict) = step_own d device_id r mine in
          ground (arith, left, out, same_record, same_verdict)
      | inr other ↦ ground (arith, left, out, step_other d device_id r other)
    ]
