-- ===== src/SimStorefront.antt =====
-- internal/simstorefront/corpus.go: the chronological order of a profile's events, and the stream of all
-- profiles.
pub mod Sorted
pub mod Corpus
use device_telemetry_gateway.Common.{Bool, if◌then◌else◌, List, [], ◌∷◌, ◌++◌, String}
use device_telemetry_gateway.Common.Int.{ltb_ℤ}
use device_telemetry_gateway.Proto.{StorefrontEvent}

pub record ProfileEvents : Type 0 where
  pub profile_id : String
  pub events : List StorefrontEvent

-- The inner loop: the slice up to the event is held with its end first, and the event moves towards the
-- beginning past every later event.
pub sink : StorefrontEvent → List StorefrontEvent → List StorefrontEvent
sink e [] = e ∷ []
sink e (before ∷ rest) =
    let moved = sink e rest in
    if ltb_ℤ e.timestamp_ms before.timestamp_ms then before ∷ moved else e ∷ before ∷ rest

-- The outer loop, from the sorted part and the events that follow it.
pub sort_loop : List StorefrontEvent → List StorefrontEvent → List StorefrontEvent
unfolding sink
sort_loop sorted [] = sorted
sort_loop sorted (e ∷ es) = sort_loop (sink e sorted) es

abbrev pub backwards : List StorefrontEvent → List StorefrontEvent → List StorefrontEvent
backwards [] out = out
backwards (e ∷ es) out = backwards es (e ∷ out)

pub sort_events : List StorefrontEvent → List StorefrontEvent
unfolding sort_loop
sort_events events = backwards (sort_loop [] events) []

pub flatten : List ProfileEvents → List StorefrontEvent
flatten [] = []
flatten (p ∷ ps) = p.events ++ flatten ps
