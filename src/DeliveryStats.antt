-- ===== src/DeliveryStats.antt =====
-- internal/deliverystats: the delivery-webhook edge, deduplicating on webhook_id. `Admit`, `Ingest` and the
-- reference have the shape of module Edge, with the constant and the id of this package.
pub mod EdgeLaws
pub mod Store
pub mod SimWebhooks
use device_telemetry_gateway.Common.{ℕ, Bool, List, [], String, String_discrete, reference}
use device_telemetry_gateway.Proto.{DeliveryWebhook}
use device_telemetry_gateway.Fifo
use device_telemetry_gateway.Fifo.{Fifo}
use device_telemetry_gateway.Edge
use device_telemetry_gateway.Edge.{Edge, Ingested, new_edge}
use device_telemetry_gateway.Kafka.{Outcome}

abbrev pub max_webhook_ids : ℕ
max_webhook_ids = 4_000_000

abbrev pub WebhookDedup : Type 0
WebhookDedup = Fifo String

abbrev pub new_webhook_dedup : WebhookDedup
new_webhook_dedup = Fifo.empty

unfoldable pub admit : WebhookDedup → String → WebhookDedup × Bool
unfolding Fifo.admit
admit = Fifo.admit String_discrete max_webhook_ids

abbrev pub webhook_key : DeliveryWebhook → String
webhook_key w = w.webhook_id

-- The deduplication, and what has landed in Kafka.
abbrev pub Pipeline : Type 0
Pipeline = Edge DeliveryWebhook

abbrev pub new_pipeline : Pipeline
new_pipeline = new_edge

unfoldable pub ingest : Pipeline → DeliveryWebhook → Outcome → Pipeline × Ingested
unfolding Edge.ingest
ingest = Edge.ingest webhook_key max_webhook_ids

unfoldable pub ingest_all : Pipeline → List (DeliveryWebhook × Outcome) → Pipeline × List Ingested
unfolding Edge.ingest_all
ingest_all = Edge.ingest_all webhook_key max_webhook_ids

unfoldable pub entry_count : Pipeline → ℕ
unfolding Edge.entry_count
entry_count = Edge.entry_count

unfoldable pub reference_dedup : List DeliveryWebhook → List DeliveryWebhook
unfolding reference
reference_dedup = reference String_discrete webhook_key []
