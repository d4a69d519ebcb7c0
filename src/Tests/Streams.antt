-- ===== src/Tests/Streams.antt =====
-- The stream readers at concrete inputs.
use device_telemetry_gateway.Common.{◌≡◌, ◌≤◌, refl, none, length, false, List, [], ◌∷◌, SameItems}
use device_telemetry_gateway.Common.Int.{negsuc}
use device_telemetry_gateway.Proto.{Reading}
use device_telemetry_gateway.Kafka.Stream.{
  Record, Reader, Stream, new_stream, read_message, Reach, here, next, read, channel_capacity,
}
use device_telemetry_gateway.Kafka.Stream.Flow.{everything, of_partitions, stream-Conserved}
use device_telemetry_gateway.Kafka.Stream.Progress.{stream_can_deliver}
use device_telemetry_gateway.Tests.Samples.{test_codec}

-- Two partitions; the second record of the first one is corrupt.
abbrev partitions : List (List Record)
partitions =
    (record { offset = 0; value = 1 ∷ 0 ∷ 0 ∷ 1000 ∷ [] }
      ∷ record { offset = 1; value = 9 ∷ [] }
      ∷ [])
    ∷ (record { offset = 4; value = 2 ∷ 0 ∷ 0 ∷ 1000 ∷ [] } ∷ [])
    ∷ []

abbrev first : Stream Reading
first = new_stream (negsuc 1) partitions

idle_reader : List Record → Reader Reading
idle_reader records = record { ahead = records; offset = negsuc 1; hand = none; stopped = false }

-- The reader of the first partition holds its first message.
abbrev one_held : Stream Reading
one_held = record first {
  readers =
      read_message test_codec
        (idle_reader (
          record { offset = 0; value = 1 ∷ 0 ∷ 0 ∷ 1000 ∷ [] }
          ∷ record { offset = 1; value = 9 ∷ [] }
          ∷ []))
        (record { offset = 0; value = 1 ∷ 0 ∷ 0 ∷ 1000 ∷ [] })
        (record { offset = 1; value = 9 ∷ [] } ∷ [])
      ∷ idle_reader (record { offset = 4; value = 2 ∷ 0 ∷ 0 ∷ 1000 ∷ [] } ∷ [])
      ∷ [];
}

one_held-Reach : Reach test_codec first one_held
unfolding new_stream idle_reader
one_held-Reach = next here (
    read [] (idle_reader (record { offset = 4; value = 2 ∷ 0 ∷ 0 ∷ 1000 ∷ [] } ∷ []) ∷ [])
      (idle_reader (
        record { offset = 0; value = 1 ∷ 0 ∷ 0 ∷ 1000 ∷ [] }
        ∷ record { offset = 1; value = 9 ∷ [] }
        ∷ []))
      (record { offset = 0; value = 1 ∷ 0 ∷ 0 ∷ 1000 ∷ [] })
      (record { offset = 1; value = 9 ∷ [] } ∷ []) refl refl refl refl)

stream-Conserved_example :
    (length one_held.channel ≤ channel_capacity)
    × SameItems (everything test_codec one_held) (of_partitions test_codec partitions)
    × (one_held.cancelled ≡ false → one_held.dropped ≡ [])
stream-Conserved_example = stream-Conserved test_codec (negsuc 1) partitions one_held-Reach

stream_can_deliver_example :
    (t : Stream Reading) × Reach test_codec one_held t
    × SameItems t.received (of_partitions test_codec partitions)
unfolding read_message idle_reader new_stream
stream_can_deliver_example =
    stream_can_deliver test_codec (negsuc 1) partitions one_held-Reach refl (refl, (refl, tt))
