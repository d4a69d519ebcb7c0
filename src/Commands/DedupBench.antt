-- ===== src/Commands/DedupBench.antt =====
-- cmd/deliverygen and cmd/eventgen: send a stream with repeats through a new edge, read the topic back and
-- compare its ids with those of the independent reference. The two commands have the same text for their
-- two messages. What the producer does with each message, and what the broker returns, are arguments.
pub mod Laws
use device_telemetry_gateway.Common.{
  ℕ, ◌+◌, ◌==◌, ite, if◌then◌else◌, Bool, true, false, List, [], ◌∷◌, map, Option, none, some,
  String, String_discrete, length,
}
use device_telemetry_gateway.Common.Sort.{sort, text_order, text_le}
use device_telemetry_gateway.Proto.{StorefrontEvent, DeliveryWebhook}
use device_telemetry_gateway.Fifo
use device_telemetry_gateway.Edge
use device_telemetry_gateway.Edge.{Edge, Ingested}
use device_telemetry_gateway.Kafka.{Outcome}
use device_telemetry_gateway.DeliveryStats
use device_telemetry_gateway.EventIngest

pub record Counts : Type 0 where
  pub accepted : ℕ
  pub rejected : ℕ
  pub produce_errs : ℕ

-- What one result of `Ingest` adds.
pub count : Counts → Ingested → Counts
count n r =
    if r.failed
    then record n { produce_errs = n.produce_errs + 1 }
    else if r.accepted
    then record n { accepted = n.accepted + 1 }
    else record n { rejected = n.rejected + 1 }

module _ {M : Type 0} (ingest : Edge M → M → Outcome → Edge M × Ingested) where
  -- The send phase.
  pub send_loop : Edge M → Counts → List (M × Outcome) → Edge M × Counts
  unfolding count
  send_loop p n [] = (p, n)
  send_loop p n ((m, outcome) ∷ calls) =
      let (next, result) = ingest p m outcome in send_loop next (count n result) calls

-- `idSet`: the sorted ids, repeats included.
pub id_set : {M : Type 0} → (M → String) → List M → List String
unfolding sort text_le
id_set id ms = sort text_order (map id ms)

-- The loop of `equalIDSets` over the indices of two slices of one length.
pub equal_from : List String → List String → Bool
unfolding String_discrete
equal_from (x ∷ xs) (y ∷ ys) = ite (String_discrete x y) (equal_from xs ys) false
equal_from _ _ = true

unfoldable pub equal_id_sets : List String → List String → Bool
unfolding equal_from
equal_id_sets a b = if length a == length b then equal_from a b else false

abbrev pub no_counts : Counts
no_counts = record { accepted = 0; rejected = 0; produce_errs = 0 }

abbrev pub delivery_id_set : List DeliveryWebhook → List String
delivery_id_set = id_set (λ w. w.webhook_id)

abbrev pub event_id_set : List StorefrontEvent → List String
event_id_set = id_set (λ e. e.event_id)

-- The end of both commands: whether they report a match. With an error of the read-back they exit
-- without a verdict.
pub verdict : {M : Type 0} → (List M → List String) → Option (List M) → List M → Option Bool
unfolding id_set equal_id_sets
verdict ids none wanted = none
verdict ids (some landed) wanted = some (equal_id_sets (ids landed) (ids wanted))

-- cmd/deliverygen from the delivered stream on: `before` is what the topic holds at the start, and
-- `read_back` what `ConsumeAvailableDelivery` returns for what it holds at the end.
unfoldable pub delivery_gen :
    List DeliveryWebhook
    → List (DeliveryWebhook × Outcome)
    → (List DeliveryWebhook → Option (List DeliveryWebhook))
    → Counts × Option Bool
unfolding send_loop verdict DeliveryStats.ingest DeliveryStats.reference_dedup
delivery_gen before calls read_back =
    let (p, n) =
      send_loop DeliveryStats.ingest (record { dedup = Fifo.empty; topic = before }) no_counts
        calls in
    (
      n,
      verdict delivery_id_set (read_back p.topic)
          (DeliveryStats.reference_dedup (map (λ c. c.0) calls)),
    )

-- cmd/eventgen likewise.
unfoldable pub event_gen :
    List StorefrontEvent
    → List (StorefrontEvent × Outcome)
    → (List StorefrontEvent → Option (List StorefrontEvent))
    → Counts × Option Bool
unfolding send_loop verdict EventIngest.ingest EventIngest.reference_dedup
event_gen before calls read_back =
    let (p, n) =
      send_loop EventIngest.ingest (record { dedup = Fifo.empty; topic = before }) no_counts
        calls in
    (
      n,
      verdict event_id_set (read_back p.topic) (EventIngest.reference_dedup (map (λ c. c.0) calls)),
    )
