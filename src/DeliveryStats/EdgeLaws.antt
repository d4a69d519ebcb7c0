-- ===== src/DeliveryStats/EdgeLaws.antt =====
-- The delivery-webhook edge against its reference, its memory, and a webhook that is sent again.
use device_telemetry_gateway.Common.{
  ◌≤◌, ◌≡◌, true, false, List, [], map, String_discrete, length, reference, arith,
}
use device_telemetry_gateway.Proto.{DeliveryWebhook}
use device_telemetry_gateway.Fifo.Valid.{empty-IsFifo}
use device_telemetry_gateway.Edge.Runs as runs
use device_telemetry_gateway.Edge.Runs.{landed}
use device_telemetry_gateway.Edge.Resend as resend
use device_telemetry_gateway.Kafka.{Outcome, acked, refused}
use device_telemetry_gateway.DeliveryStats.{
  max_webhook_ids, webhook_key, admit, new_pipeline, ingest, ingest_all, entry_count,
  reference_dedup,
}

-- A stream with a broker that acknowledges every message.
abbrev pub all_acked : List DeliveryWebhook → List (DeliveryWebhook × Outcome)
all_acked = map (λ m. (m, acked))

-- As long as a stream has at most 4,000,000 distinct ids and every produce is acknowledged, what the
-- edge puts into Kafka is the independent reference of the stream: the first webhook with each id, in
-- the order of arrival, however often each is sent.
pub webhooks-reference_dedup :
    (stream : List DeliveryWebhook)
    → length (reference_dedup stream) ≤ max_webhook_ids
    → (ingest_all new_pipeline (all_acked stream)).0.topic ≡ reference_dedup stream
unfolding ingest_all reference_dedup
webhooks-reference_dedup = runs.topic-ingest_all_acked webhook_key max_webhook_ids

-- With any outcomes of the producer, what lands is the first call with each id, if that call landed: a
-- later call with the id never makes up for it.
pub webhooks-first_calls :
    (calls : List (DeliveryWebhook × Outcome))
    → length (reference String_discrete (λ c. webhook_key c.0) [] calls) ≤ max_webhook_ids
    → (ingest_all new_pipeline calls).0.topic
      ≡ landed webhook_key max_webhook_ids
          (reference String_discrete (λ c. webhook_key c.0) [] calls)
unfolding ingest_all
webhooks-first_calls = runs.topic-ingest_all webhook_key max_webhook_ids

-- The memory of ids stays within its bound after any traffic.
pub webhook_count_bounded :
    (calls : List (DeliveryWebhook × Outcome))
    → entry_count (ingest_all new_pipeline calls).0 ≤ max_webhook_ids
unfolding ingest_all entry_count
webhook_count_bounded = runs.entry_count_bounded webhook_key max_webhook_ids

-- After any traffic, a new webhook that Kafka refuses is reported as accepted with an error; the same
-- webhook sent again is reported as a duplicate without an error, whatever Kafka would do with it then,
-- and it does not reach the topic.
pub resent_webhook_is_swallowed :
    (calls : List (DeliveryWebhook × Outcome)) (m : DeliveryWebhook) (outcome : Outcome)
    → (admit (ingest_all new_pipeline calls).0.dedup (webhook_key m)).1 ≡ true
    → let p = (ingest_all new_pipeline calls).0 in
      let first = ingest p m refused in
      let second = ingest first.0 m outcome in
      (first.1 ≡ record { accepted = true; failed = true })
      × (second.1 ≡ record { accepted = false; failed = false })
      × (second.0.topic ≡ p.topic)
unfolding ingest_all ingest admit
resent_webhook_is_swallowed calls m outcome =
    resend.resend_after_refusal_is_swallowed webhook_key max_webhook_ids
      (ingest_all new_pipeline calls).0 m outcome (omega arith)
      (runs.ingest_all-IsFifo webhook_key max_webhook_ids new_pipeline calls
        (empty-IsFifo String_discrete max_webhook_ids))
