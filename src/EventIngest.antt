-- ===== src/EventIngest.antt =====
-- internal/eventingest: the storefront edge, deduplicating on event_id. `Admit`, `Ingest` and the
-- reference have the shape of module Edge, with the constant and the id of this package.
pub mod Laws
use device_telemetry_gateway.Common.{ℕ, Bool, List, [], String, String_discrete, reference}
use device_telemetry_gateway.Proto.{StorefrontEvent}
use device_telemetry_gateway.Fifo
use device_telemetry_gateway.Fifo.{Fifo}
use device_telemetry_gateway.Edge
use device_telemetry_gateway.Edge.{Edge, Ingested, new_edge}
use device_telemetry_gateway.Kafka.{Outcome}

abbrev pub max_event_ids : ℕ
max_event_ids = 4_000_000

abbrev pub EventDedup : Type 0
EventDedup = Fifo String

abbrev pub new_event_dedup : EventDedup
new_event_dedup = Fifo.empty

unfoldable pub admit : EventDedup → String → EventDedup × Bool
unfolding Fifo.admit
admit = Fifo.admit String_discrete max_event_ids

abbrev pub event_key : StorefrontEvent → String
event_key e = e.event_id

-- The deduplication, and what has landed in Kafka.
abbrev pub Pipeline : Type 0
Pipeline = Edge StorefrontEvent

abbrev pub new_pipeline : Pipeline
new_pipeline = new_edge

unfoldable pub ingest : Pipeline → StorefrontEvent → Outcome → Pipeline × Ingested
unfolding Edge.ingest
ingest = Edge.ingest event_key max_event_ids

unfoldable pub ingest_all : Pipeline → List (StorefrontEvent × Outcome) → Pipeline × List Ingested
unfolding Edge.ingest_all
ingest_all = Edge.ingest_all event_key max_event_ids

unfoldable pub entry_count : Pipeline → ℕ
unfolding Edge.entry_count
entry_count = Edge.entry_count

unfoldable pub reference_dedup : List StorefrontEvent → List StorefrontEvent
unfolding reference
reference_dedup = reference String_discrete event_key []
