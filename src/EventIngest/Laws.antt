-- ===== src/EventIngest/Laws.antt =====
-- The storefront edge against its reference, its memory, and an event that is sent again.
use device_telemetry_gateway.Common.{
  ◌≤◌, ◌≡◌, true, false, List, [], map, String_discrete, length, reference, arith,
}
use device_telemetry_gateway.Proto.{StorefrontEvent}
use device_telemetry_gateway.Fifo.Valid.{empty-IsFifo}
use device_telemetry_gateway.Edge.Runs as runs
use device_telemetry_gateway.Edge.Runs.{landed}
use device_telemetry_gateway.Edge.Resend as resend
use device_telemetry_gateway.Kafka.{Outcome, acked, refused}
use device_telemetry_gateway.EventIngest.{
  max_event_ids, event_key, admit, new_pipeline, ingest, ingest_all, entry_count, reference_dedup,
}

-- A stream with a broker that acknowledges every message.
abbrev pub all_acked : List StorefrontEvent → List (StorefrontEvent × Outcome)
all_acked = map (λ m. (m, acked))

-- As long as a stream has at most 4,000,000 distinct ids and every produce is acknowledged, what the
-- edge puts into Kafka is the independent reference of the stream: the first event with each id, in
-- the order of arrival, however often each is sent.
pub events-reference_dedup :
    (stream : List StorefrontEvent)
    → length (reference_dedup stream) ≤ max_event_ids
    → (ingest_all new_pipeline (all_acked stream)).0.topic ≡ reference_dedup stream
unfolding ingest_all reference_dedup
events-reference_dedup = runs.topic-ingest_all_acked event_key max_event_ids

-- As long as the calls have at most 4,000,000 distinct ids, with any outcomes of the producer: what lands is
-- the first call with each id, if that call landed. Within this bound no later call with the id makes up
-- for it.
pub events-first_calls :
    (calls : List (StorefrontEvent × Outcome))
    → length (reference String_discrete (λ c. event_key c.0) [] calls) ≤ max_event_ids
    → (ingest_all new_pipeline calls).0.topic
      ≡ landed event_key max_event_ids (reference String_discrete (λ c. event_key c.0) [] calls)
unfolding ingest_all
events-first_calls = runs.topic-ingest_all event_key max_event_ids

-- The memory of ids stays within its bound after any traffic.
pub event_count_bounded :
    (calls : List (StorefrontEvent × Outcome))
    → entry_count (ingest_all new_pipeline calls).0 ≤ max_event_ids
unfolding ingest_all entry_count
event_count_bounded = runs.entry_count_bounded event_key max_event_ids

-- After any traffic, a new event that Kafka refuses is reported as accepted with an error; the same
-- event sent again is reported as a duplicate without an error, whatever Kafka would do with it then,
-- and it does not reach the topic.
pub resent_event_is_swallowed :
    (calls : List (StorefrontEvent × Outcome)) (m : StorefrontEvent) (outcome : Outcome)
    → (admit (ingest_all new_pipeline calls).0.dedup (event_key m)).1 ≡ true
    → let p = (ingest_all new_pipeline calls).0 in
      let first = ingest p m refused in
      let second = ingest first.0 m outcome in
      (first.1 ≡ record { accepted = true; failed = true })
      × (second.1 ≡ record { accepted = false; failed = false })
      × (second.0.topic ≡ p.topic)
unfolding ingest_all ingest admit
resent_event_is_swallowed calls m outcome =
    resend.resend_after_refusal_is_swallowed event_key max_event_ids
      (ingest_all new_pipeline calls).0 m outcome (omega arith)
      (runs.ingest_all-IsFifo event_key max_event_ids new_pipeline calls
        (empty-IsFifo String_discrete max_event_ids))
