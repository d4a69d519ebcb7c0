-- ===== src/Tests/Simulators.antt =====
-- The simulators at concrete inputs.
use device_telemetry_gateway.Common.{◌≡◌, refl, List, [], ◌∷◌, SameItems, String_discrete, contains}
use device_telemetry_gateway.Common.Int.{pos, negsuc}
use device_telemetry_gateway.Proto.{StorefrontEvent}
use device_telemetry_gateway.Ingest.Dedup.{reference_dedup}
use device_telemetry_gateway.SimDevice.{DeviceStream, all_unique}
use device_telemetry_gateway.SimDevice.Oracle.{deliveries, all_unique-reference_dedup}
use device_telemetry_gateway.SimStorefront.{sort_events}
use device_telemetry_gateway.SimStorefront.Sorted.{Chronological, sort_events-Chronological}
use device_telemetry_gateway.Tests.Samples.{reading, event}

abbrev streams : List DeviceStream
streams =
    record { device_id = "a"; delivery = reading "a" 2 ∷ reading "a" 1 ∷ reading "a" 2 ∷ [] }
    ∷ record { device_id = "b"; delivery = reading "b" 2 ∷ [] }
    ∷ []

all_unique-reference_dedup_example : all_unique streams ≡ reference_dedup (deliveries streams)
unfolding contains String_discrete
all_unique-reference_dedup_example =
    all_unique-reference_dedup streams (refl, (refl, tt))
      ((refl, (refl, (refl, tt))), ((refl, tt), tt))

abbrev history : List StorefrontEvent
history =
    record (event "e1") { timestamp_ms = pos 30 }
    ∷ record (event "e2") { timestamp_ms = negsuc 4 }
    ∷ record (event "e3") { timestamp_ms = pos 7 }
    ∷ []

sort_events-Chronological_example :
    Chronological (sort_events history) × SameItems (sort_events history) history
sort_events-Chronological_example = sort_events-Chronological history
