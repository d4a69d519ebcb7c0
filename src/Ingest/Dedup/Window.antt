-- ===== src/Ingest/Dedup/Window.antt =====
-- Which repeats the bounded memory of a device still recognises.
use device_telemetry_gateway.Common.{
  ℕ, ◌≡◌, ◌∙◌, not, List, String, ℕ_discrete, select, ap, map, contains, lookup,
}
use device_telemetry_gateway.Proto.{Reading}
use device_telemetry_gateway.Fifo
use device_telemetry_gateway.Fifo.Newest.{newest}
use device_telemetry_gateway.Fifo.Valid.{empty-IsFifo, admit_verdict}
use device_telemetry_gateway.Fifo.Runs.{order-admit_all}
use device_telemetry_gateway.Ingest.Dedup.{
  max_sequences_per_device, new_dedup, device_seen, admit, admit_all,
}
use device_telemetry_gateway.Ingest.Dedup.Valid.{device_seen-IsDeviceSeen, admit_all-IsDedup}
use device_telemetry_gateway.Ingest.Dedup.Devices.{is_device, admit_all-device}

-- The sequences of one device that a run admitted, in order.
abbrev pub admitted_of : String → List Reading → List ℕ
admitted_of device_id rs =
    map (λ r. r.sequence) (select (is_device device_id) (admit_all new_dedup rs).1)

order-admitted_of :
    (device_id : String) (rs : List Reading)
    → (device_seen (admit_all new_dedup rs).0 device_id).order
      ≡ newest max_sequences_per_device (admitted_of device_id rs)
unfolding device_seen lookup
order-admitted_of device_id rs =
    let (same_record, same_out) = admit_all-device new_dedup device_id rs in
    rw (same_record, same_out)
      (order-admit_all ℕ_discrete max_sequences_per_device (λ (r : Reading). r.sequence) Fifo.empty
        (select (is_device device_id) rs) (empty-IsFifo ℕ_discrete max_sequences_per_device))

-- After any traffic, a call is refused exactly when its sequence is among the newest 4096 sequences
-- admitted for that device.
pub admit_window :
    (rs : List Reading) (device_id : String) (sequence : ℕ)
    → (admit (admit_all new_dedup rs).0 device_id sequence).1
      ≡ not (
          contains ℕ_discrete (newest max_sequences_per_device (admitted_of device_id rs)) sequence)
unfolding admit
admit_window rs device_id sequence =
    let d = (admit_all new_dedup rs).0 in
    admit_verdict ℕ_discrete max_sequences_per_device (device_seen d device_id) sequence
      (device_seen-IsDeviceSeen d device_id (admit_all-IsDedup new_dedup rs tt))
    ∙ ap (λ (o : List ℕ). not (contains ℕ_discrete o sequence)) (order-admitted_of device_id rs)
