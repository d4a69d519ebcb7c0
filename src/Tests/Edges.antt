-- ===== src/Tests/Edges.antt =====
-- The storefront edge and the delivery-webhook edge at concrete inputs.
use device_telemetry_gateway.Common.{
  ◌≡◌, refl, arith, true, false, List, [], ◌∷◌, reference, String_discrete, contains,
}
use device_telemetry_gateway.Proto.{StorefrontEvent, DeliveryWebhook}
use device_telemetry_gateway.Kafka.{Outcome, acked, refused, unacked}
use device_telemetry_gateway.Fifo
use device_telemetry_gateway.Edge
use device_telemetry_gateway.EventIngest as events
use device_telemetry_gateway.EventIngest.Laws.{events-first_calls}
use device_telemetry_gateway.DeliveryStats as webhooks
use device_telemetry_gateway.DeliveryStats.EdgeLaws.{
  webhooks-reference_dedup, webhooks-first_calls, webhook_count_bounded,
  resent_webhook_is_swallowed,
}
use device_telemetry_gateway.DeliveryStats.EdgeLaws as webhook_laws
use device_telemetry_gateway.Tests.Samples.{event, webhook}

abbrev stream : List StorefrontEvent
stream = event "e1" ∷ event "e2" ∷ event "e1" ∷ []

abbrev event_calls : List (StorefrontEvent × Outcome)
event_calls = (event "e1", refused) ∷ (event "e2", unacked) ∷ (event "e1", acked) ∷ []

abbrev webhook_stream : List DeliveryWebhook
webhook_stream = webhook "w1" ∷ webhook "w2" ∷ webhook "w1" ∷ []

abbrev webhook_calls : List (DeliveryWebhook × Outcome)
webhook_calls = (webhook "w1", refused) ∷ (webhook "w2", unacked) ∷ (webhook "w1", acked) ∷ []

events-first_calls_example :
    (events.ingest_all events.new_pipeline event_calls).0.topic ≡ event "e2" ∷ []
unfolding reference contains String_discrete
events-first_calls_example = events-first_calls event_calls (omega arith)

webhooks-reference_dedup_example :
    (webhooks.ingest_all webhooks.new_pipeline (webhook_laws.all_acked webhook_stream)).0.topic
    ≡ webhooks.reference_dedup webhook_stream
unfolding webhooks.reference_dedup reference contains String_discrete
webhooks-reference_dedup_example = webhooks-reference_dedup webhook_stream (omega arith)

resent_webhook_is_swallowed_example :
    let p = (webhooks.ingest_all webhooks.new_pipeline webhook_calls).0 in
    let first = webhooks.ingest p (webhook "w3") refused in
    let second = webhooks.ingest first.0 (webhook "w3") acked in
    (first.1 ≡ record { accepted = true; failed = true })
    × (second.1 ≡ record { accepted = false; failed = false })
    × (second.0.topic ≡ p.topic)
unfolding webhooks.admit webhooks.ingest_all Edge.ingest_all Edge.ingest Fifo.admit contains
    String_discrete
resent_webhook_is_swallowed_example =
    resent_webhook_is_swallowed webhook_calls (webhook "w3") acked refl
