-- ===== src/Tests/Ingest.antt =====
-- The telemetry path at concrete inputs.
use device_telemetry_gateway.Common.{
  ℕ, ◌*◌, ◌++◌, take, ◌==◌, if◌then◌else◌, ◌≤◌, ◌≡◌, refl, arith, Bool, List, [], ◌∷◌, none, some,
  String, String_discrete, ℕ_discrete, length, select, SameItems, Option, contains, remove, lookup,
  insert, not, Bool-cases, inl, inr,
}
use device_telemetry_gateway.Proto.{Reading}
use device_telemetry_gateway.Kafka.{Outcome, acked, refused, unacked, is_acked, lands}
use device_telemetry_gateway.Fifo
use device_telemetry_gateway.Fifo.Newest.{newest}
use device_telemetry_gateway.Ingest.Dedup
use device_telemetry_gateway.Ingest.Dedup.{
  new_dedup, device_seen, admit_all, reference_dedup, entry_count, device_count,
  max_sequences_per_device, Key_discrete,
}
use device_telemetry_gateway.Ingest.Dedup.Devices.{is_device, admit_all-device}
use device_telemetry_gateway.Ingest.Dedup.Exact.{admit_all-reference_dedup}
use device_telemetry_gateway.Ingest.Dedup.Valid.{entry_count_bounded}
use device_telemetry_gateway.Ingest.Dedup.Window.{admit_window, admitted_of}
use device_telemetry_gateway.Ingest.Spool.{
  read_loop, Spool, new_spool, frame, write, drain, no_fault, ok, err, write_error, put_uint32,
  read_records, size_bytes,
}
use device_telemetry_gateway.Ingest.Spool.Frames.{
  frames, decoded, read_records-frames, read_loop_enough,
}
use device_telemetry_gateway.Ingest.Spool.Laws.{
  Holds, new_spool-Holds, write-Holds, restart_after_torn_write,
}
use device_telemetry_gateway.Ingest.Spool.Faults.{
  calls, write_call, drain_call, failed_write_is_final,
}
use device_telemetry_gateway.Ingest.Pipeline.{
  Pipeline, Gateway, start, arrive, settle, start_drain, Step, arrival, settled, Reach, started,
  next, ingest, Retries, start_retries, produce_again, write_back, produces, writes, DrainOnce,
  drained, and_then,
}
use device_telemetry_gateway.Ingest.Pipeline.Conserve.{Conserved, Reach-Conserved}
use device_telemetry_gateway.Ingest.Pipeline.Exact.{quiet-delivered}
use device_telemetry_gateway.Ingest.Pipeline.Branches.{
  ingest-Holds, resend_after_error_is_swallowed,
}
use device_telemetry_gateway.Ingest.Pipeline.Drain.{Returns, drain_once-Holds}
use device_telemetry_gateway.Tests.Samples.{reading, test_codec}

length-select : {A : Type 0} (p : A → Bool) (xs : List A) → length (select p xs) ≤ length xs
length-select p [] = omega arith
length-select p (x ∷ xs) = elim (Bool-cases (p x)) [
  | inl pass ↦ rw pass (omega (arith, length-select p xs))
  | inr fail ↦ rw fail (omega (arith, length-select p xs))
]

few_distinct :
    (rs : List Reading)
    → length (reference_dedup rs) ≤ max_sequences_per_device
    → (device_id : String)
    → length (select (is_device device_id) (reference_dedup rs)) ≤ max_sequences_per_device
few_distinct rs h device_id =
    omega (arith, length-select (is_device device_id) (reference_dedup rs))

abbrev arrivals : List Reading
arrivals = reading "a" 1 ∷ reading "b" 1 ∷ reading "a" 1 ∷ reading "a" 2 ∷ []

few_arrivals : length (reference_dedup arrivals) ≤ max_sequences_per_device
unfolding reference_dedup contains Key_discrete
few_arrivals = omega arith

admit_all-reference_dedup_example : (admit_all new_dedup arrivals).1 ≡ reference_dedup arrivals
admit_all-reference_dedup_example =
    admit_all-reference_dedup arrivals (few_distinct arrivals few_arrivals)

admit_window_example :
    (Dedup.admit (admit_all new_dedup arrivals).0 "a" 2).1
    ≡ not (contains ℕ_discrete (newest max_sequences_per_device (admitted_of "a" arrivals)) 2)
admit_window_example = admit_window arrivals "a" 2

abbrev at_a : List Reading
at_a = select (is_device "a") arrivals

admit_all-device_example :
    let alone =
      Fifo.admit_all ℕ_discrete max_sequences_per_device
        (λ (r : Reading). r.sequence)
        (device_seen new_dedup "a")
        at_a in
    (device_seen (admit_all new_dedup arrivals).0 "a" ≡ alone.0)
    × (select (is_device "a") (admit_all new_dedup arrivals).1 ≡ alone.1)
admit_all-device_example = admit_all-device new_dedup "a" arrivals

entry_count_bounded_example :
    entry_count (admit_all new_dedup arrivals).0
    ≤ device_count (admit_all new_dedup arrivals).0 * max_sequences_per_device
entry_count_bounded_example = entry_count_bounded arrivals

-- A spool file with a corrupt record in the middle and a torn end.
abbrev payloads : List (List ℕ)
payloads = (7 ∷ 0 ∷ 0 ∷ 9 ∷ []) ∷ (5 ∷ []) ∷ (8 ∷ 0 ∷ 0 ∷ 9 ∷ []) ∷ []

read_records-frames_example :
    read_records test_codec (frames payloads ++ take 6 (frame (1 ∷ 2 ∷ 3 ∷ [])))
    ≡ decoded test_codec payloads
unfolding frame put_uint32
read_records-frames_example =
    read_records-frames test_codec payloads 6 (1 ∷ 2 ∷ 3 ∷ [])
      (omega arith, (omega arith, (omega arith, tt))) (omega arith) (omega arith)

abbrev one_record : Spool
one_record = (write test_codec (new_spool []) (reading "a" 1) none).0

one_record-Holds : Holds test_codec one_record (reading "a" 1 ∷ [])
unfolding String_discrete
one_record-Holds =
    (write-Holds test_codec (new_spool []) [] (reading "a" 1) _ refl (new_spool-Holds test_codec)).1

restart_after_torn_write_example :
    (drain test_codec
      (new_spool (write test_codec one_record (reading "a" 2) (some 5)).0.file)
      no_fault).1
    ≡ ok (reading "a" 1 ∷ [])
unfolding frame String_discrete put_uint32
restart_after_torn_write_example =
    restart_after_torn_write test_codec one_record (reading "a" 1 ∷ []) (reading "a" 2)
      (2 ∷ 0 ∷ 0 ∷ 1000 ∷ []) 5 refl (omega arith) one_record-Holds

failed_write_is_final_example :
    calls test_codec
      (write test_codec one_record (reading "a" 2) (some 0)).0
      (write_call (reading "a" 3) none ∷ drain_call no_fault ∷ [])
    ≡ ((write test_codec one_record (reading "a" 2) (some 0)).0, [])
unfolding write String_discrete new_spool
failed_write_is_final_example =
    failed_write_is_final test_codec one_record (reading "a" 2) (2 ∷ 0 ∷ 0 ∷ 1000 ∷ []) 0
      (write_call (reading "a" 3) none ∷ drain_call no_fault ∷ []) refl refl

abbrev one_spooled : Pipeline
one_spooled = record { dedup = new_dedup; spool = one_record; topic = [] }

ingest-Holds_example :
    let (dedup', fresh) = Dedup.admit new_dedup "a" 2 in
    let (after, result) = ingest test_codec one_spooled (reading "a" 2) unacked none in
    (result ≡ ok tt)
    × (after.dedup ≡ dedup')
    × (after.topic ≡ (if fresh then reading "a" 2 ∷ [] else []))
    × Holds test_codec after.spool
        (if fresh then reading "a" 1 ∷ reading "a" 2 ∷ [] else reading "a" 1 ∷ [])
unfolding String_discrete
ingest-Holds_example =
    ingest-Holds test_codec one_spooled (reading "a" 2) unacked (reading "a" 1 ∷ [])
      (2 ∷ 0 ∷ 0 ∷ 1000 ∷ []) refl one_record-Holds

abbrev broker : Reading → Outcome
broker r = if r.sequence == 1 then unacked else acked

abbrev answers : Reading → Outcome × Option ℕ
answers r = (broker r, none)

abbrev two_spooled : Pipeline
two_spooled = record one_spooled { spool = (write test_codec one_record (reading "a" 2) none).0 }

two_records-Holds :
    Holds test_codec
      (write test_codec one_record (reading "a" 2) none).0
      (reading "a" 1 ∷ reading "a" 2 ∷ [])
unfolding String_discrete
two_records-Holds =
    (write-Holds test_codec one_record (reading "a" 1 ∷ []) (reading "a" 2) _ refl
      one_record-Holds).1

-- The second record is produced first, then the first, which times out and is written back.
abbrev retried_once : Retries
retried_once =
    produce_again test_codec
      (record (start_retries test_codec two_spooled no_fault) { waiting = reading "a" 1 ∷ [] })
      (reading "a" 2) (broker (reading "a" 2))

abbrev retried_twice : Retries
retried_twice =
    produce_again test_codec (record retried_once { waiting = [] }) (reading "a" 1)
      (broker (reading "a" 1))

abbrev returned : Retries
returned = write_back test_codec (record retried_twice { failed = [] }) (reading "a" 1) none

run_of_two : DrainOnce test_codec answers (start_retries test_codec two_spooled no_fault) returned
unfolding String_discrete start_retries drain write new_spool put_uint32 produce_again
run_of_two =
    and_then
      (and_then (and_then drained (produces (reading "a" 1 ∷ []) [] (reading "a" 2) refl refl))
        (produces [] [] (reading "a" 1) refl refl))
      (writes [] [] (reading "a" 1) refl refl)

drain_once-Holds_example :
    ((landed : List Reading) × (returned.pipeline.topic ≡ landed)
      × SameItems
          (landed ++ [])
          (select (λ r. lands (broker r)) (reading "a" 1 ∷ reading "a" 2 ∷ [])))
    × ((respooled : List Reading) × Holds test_codec returned.pipeline.spool respooled
        × SameItems
            (respooled ++ [])
            (select (λ r. not (is_acked (broker r))) (reading "a" 1 ∷ reading "a" 2 ∷ [])))
    × Returns test_codec answers returned
unfolding String_discrete write_back produce_again
drain_once-Holds_example =
    drain_once-Holds test_codec two_spooled (reading "a" 1 ∷ reading "a" 2 ∷ []) broker
      ((_, refl), ((_, refl), tt)) two_records-Holds returned run_of_two

resend_after_error_is_swallowed_example :
    let first = ingest test_codec one_spooled (reading "a" 2) refused (some 3) in
    let second = ingest test_codec first.0 (reading "a" 2) acked none in
    (first.1 ≡ err write_error)
    × (second.1 ≡ ok tt)
    × (second.0.topic ≡ [])
    × (second.0.spool ≡ first.0.spool)
unfolding String_discrete Fifo.admit new_spool Dedup.admit device_seen lookup contains write
resend_after_error_is_swallowed_example =
    resend_after_error_is_swallowed test_codec one_spooled (reading "a" 2) (2 ∷ 0 ∷ 0 ∷ 1000 ∷ []) 3
      acked none tt refl refl refl

-- A reading arrives twice; Kafka refuses it, it is spooled, drained and delivered.
abbrev spooled_gateway : Gateway
spooled_gateway =
    settle test_codec
      (record (arrive test_codec (arrive test_codec start (reading "a" 1)) (reading "a" 1)) {
        in_flight = [];
      })
      (reading "a" 1) refused

abbrev quiet_gateway : Gateway
quiet_gateway =
    settle test_codec (record (start_drain test_codec spooled_gateway) { in_flight = [] })
      (reading "a" 1) acked

quiet_reached : Reach test_codec quiet_gateway
unfolding String_discrete ℕ_discrete Fifo.admit new_spool Dedup.admit device_seen lookup contains
    write arrive settle start_drain drain remove insert frame put_uint32
quiet_reached =
    next
      (next
        (next (next (next started (arrival (reading "a" 1) refl)) (arrival (reading "a" 1) refl))
          (settled [] [] (reading "a" 1) refused refl refl))
        (Step.drain refl))
      (settled [] [] (reading "a" 1) acked refl refl)

Reach-Conserved_example : Conserved test_codec quiet_gateway
Reach-Conserved_example = Reach-Conserved test_codec quiet_reached

quiet-delivered_example : SameItems quiet_gateway.delivered (reference_dedup quiet_gateway.arrived)
unfolding String_discrete ℕ_discrete Fifo.admit new_spool Dedup.admit device_seen lookup contains
    write arrive settle start_drain drain remove insert frame put_uint32 reference_dedup
    Key_discrete size_bytes
quiet-delivered_example =
    quiet-delivered test_codec quiet_reached ((_, refl), ((_, refl), tt))
      (few_distinct (reading "a" 1 ∷ reading "a" 1 ∷ []) (omega arith)) refl refl

read_loop_enough_example :
    read_loop test_codec 80 (0 ∷ 0 ∷ 0 ∷ 9 ∷ 1 ∷ [])
    ≡ some (read_records test_codec (0 ∷ 0 ∷ 0 ∷ 9 ∷ 1 ∷ []))
read_loop_enough_example = read_loop_enough test_codec 80 (0 ∷ 0 ∷ 0 ∷ 9 ∷ 1 ∷ []) (omega arith)
