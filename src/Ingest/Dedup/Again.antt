-- ===== src/Ingest/Dedup/Again.antt =====
-- A reading that was just offered is refused.
use device_telemetry_gateway.Common.{ℕ, ◌≡◌, ap, false, String, ℕ_discrete, arith}
use device_telemetry_gateway.Fifo.Again.{admit_again as fifo_admit_again}
use device_telemetry_gateway.Ingest.Dedup.{Dedup, max_sequences_per_device, device_seen, admit}
use device_telemetry_gateway.Ingest.Dedup.Valid.{IsDedup, device_seen-IsDeviceSeen}
use device_telemetry_gateway.Ingest.Dedup.Devices.{device_seen-admit_self}

pub admit_again :
    (d : Dedup) (device_id : String) (sequence : ℕ)
    → IsDedup d
    → (admit (admit d device_id sequence).0 device_id sequence).1 ≡ false
unfolding admit
admit_again d device_id sequence v = rw (device_seen-admit_self d device_id sequence) (
    ap (λ p. p.1)
      (fifo_admit_again ℕ_discrete max_sequences_per_device (device_seen d device_id) sequence
        (omega arith) (device_seen-IsDeviceSeen d device_id v)))
