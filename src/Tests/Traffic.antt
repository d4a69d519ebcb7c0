-- ===== src/Tests/Traffic.antt =====
-- The WebSocket server, the delivery gateway and the Kafka clients at concrete inputs.
use device_telemetry_gateway.Common.{
  ◌≤◌, ltb, ℕ, ◌^◌, ◌<◌, ◌≡◌, refl, sym, ap, arith, true, false, List, [], ◌∷◌, Option, none, some,
  String, String_discrete, ℕ_discrete, length, lookup, map,
}
use device_telemetry_gateway.Common.Int.{ℤ, pos}
use device_telemetry_gateway.Proto.{DeliveryWebhook, Codec}
use device_telemetry_gateway.Kafka.{acked, refused}
use device_telemetry_gateway.Kafka.Consumer.{consume_available}
use device_telemetry_gateway.Kafka.Consumer.Laws.{Stored, serving, consume_available-fetched}
use device_telemetry_gateway.Kafka.Producer.{produce_batch, Carries, produce_batch-decoded}
use device_telemetry_gateway.Ingest.Dedup.{new_dedup}
use device_telemetry_gateway.Ingest.Spool.{new_spool}
use device_telemetry_gateway.Ingest.Spool.Frames.{decoded}
use device_telemetry_gateway.Ingest.Spool.Laws.{new_spool-Holds}
use device_telemetry_gateway.Ingest.Pipeline.{Pipeline}
use device_telemetry_gateway.WsServer.{handle_ingest}
use device_telemetry_gateway.WsServer.Laws.{Connected, handle_ingest-Holds}
use device_telemetry_gateway.DeliveryStats.{new_pipeline, ingest_all}
use device_telemetry_gateway.DeliveryStats.Store.{
  Tables, Pair, Pair_discrete, runs, fails, refresh_rollup, rollup_channel_status_counts,
  recompute_channel_status_counts,
}
use device_telemetry_gateway.DeliveryStats.Store.Laws.{
  Exact, refresh_rollup-Exact, count_of, refresh_rollup_undercounts,
}
use device_telemetry_gateway.DeliveryGateway.{
  payload, invalid_json, Call, handle_all, Round, received, ticked, new_consumer, rounds,
}
use device_telemetry_gateway.DeliveryGateway.Laws.{
  valid_calls, webhooks_of, Batched, handle_all-ingest_all, rounds-Batched,
}
use device_telemetry_gateway.Tests.Samples.{reading, webhook, test_codec}

-- Two readings with a corrupt frame between them.
abbrev messages : List (List ℕ)
messages = (1 ∷ 0 ∷ 0 ∷ 1000 ∷ []) ∷ (9 ∷ []) ∷ (2 ∷ 0 ∷ 0 ∷ 1000 ∷ []) ∷ []

abbrev idle : Pipeline
idle = record { dedup = new_dedup; spool = new_spool []; topic = [] }

handle_ingest-Holds_example :
    Connected test_codec idle []
      (decoded test_codec messages)
      (λ r. refused)
      (handle_ingest test_codec idle messages (λ r. (refused, none)))
unfolding String_discrete
handle_ingest-Holds_example =
    handle_ingest-Holds test_codec idle messages (λ r. refused) [] ((_, refl), ((_, refl), tt))
      (new_spool-Holds test_codec)

-- Larger than the buffer of the example.
abbrev too_large : List ℕ
too_large = 1 ∷ 2 ∷ 3 ∷ 4 ∷ 5 ∷ []

abbrev stored : List Stored
stored =
    record { first = 5; messages = messages; fetched = 3; filled = 0 }
    ∷ record { first = 0; messages = messages; fetched = 1; filled = 0 }
    ∷ record { first = 7; messages = too_large ∷ messages; fetched = 4; filled = 0 }
    ∷ []

consume_available-fetched_example :
    consume_available test_codec 4 (some (map serving stored))
    ≡ some (reading "a" 1 ∷ reading "a" 2 ∷ reading "a" 1 ∷ [])
consume_available-fetched_example = consume_available-fetched test_codec 4 stored (
  (omega arith, (omega arith, (omega arith, tt))),
  (
    (omega arith, (omega arith, (omega arith, tt))),
    ((omega arith, (omega arith, (omega arith, (omega arith, tt)))), tt),
  ),
)

-- A codec for the webhook "w1" alone.
abbrev marshal_if : (w : DeliveryWebhook) → Dec (w ≡ webhook "w1") → Option (List ℕ)
marshal_if w (yes _) = some (1 ∷ [])
marshal_if w (no _) = none

webhook_discrete : Discrete DeliveryWebhook
unfolding String_discrete
webhook_discrete = hlevel (String_discrete, ℕ_discrete)

abbrev unmarshal : List ℕ → Option DeliveryWebhook
unmarshal (x ∷ []) = some (webhook "w1")
unmarshal _ = none

webhook_reads_back :
    (w : DeliveryWebhook) (b : List ℕ) (d : Dec (w ≡ webhook "w1"))
    → marshal_if w d ≡ some b
    → unmarshal b ≡ some w
webhook_reads_back w b (yes p) e =
    let same : 1 ∷ [] ≡ b = ground arith in rw (← same) (ap some (sym p))
webhook_reads_back w b (no p) e = ground arith

webhook_fits :
    (w : DeliveryWebhook) (b : List ℕ) (d : Dec (w ≡ webhook "w1"))
    → marshal_if w d ≡ some b
    → length b < 2 ^ 31
webhook_fits w b (yes p) e = let same : 1 ∷ [] ≡ b = ground arith in rw (← same) (omega arith)
webhook_fits w b (no p) e = ground arith

abbrev webhook_codec : Codec DeliveryWebhook
webhook_codec = record {
  marshal = λ w. marshal_if w (webhook_discrete w (webhook "w1"));
  unmarshal = unmarshal;
  reads_back = λ w b. webhook_reads_back w b (webhook_discrete w (webhook "w1"));
  fits = λ w b. webhook_fits w b (webhook_discrete w (webhook "w1"));
}

produce_batch-decoded_example :
    Carries webhook_codec (webhook "w1" ∷ []) (record { key = "m1"; value = 1 ∷ [] } ∷ [])
unfolding produce_batch webhook_discrete ℕ_discrete
produce_batch-decoded_example =
    produce_batch-decoded webhook_codec (webhook "w1" ∷ [])
      (record { key = "m1"; value = 1 ∷ [] } ∷ []) refl

abbrev post : String → ℤ → Call
post id time = record {
  request = record {
    method = "POST";
    body = payload (record {
      webhook_id = id;
      message_id = "m1";
      channel = "SMS";
      status = "SENT";
      provider = "x";
      timestamp = time;
    });
  };
  now = pos 77;
  outcome = acked;
}

abbrev requests : List Call
requests =
    post "w1" (pos 0)
    ∷ post "" (pos 5)
    ∷ record {
      request = record { method = "GET"; body = invalid_json };
      now = pos 78;
      outcome = acked;
    }
    ∷ post "w1" (pos 6)
    ∷ []

handle_all-ingest_all_example :
    handle_all new_pipeline requests ≡ (ingest_all new_pipeline (valid_calls requests)).0
handle_all-ingest_all_example = handle_all-ingest_all new_pipeline requests

abbrev some_rounds : List Round
some_rounds =
    received (webhook "w1") true ∷ ticked false ∷ ticked true ∷ received (webhook "w2") true ∷ []

rounds-Batched_example : Batched (webhooks_of some_rounds) (rounds new_consumer some_rounds)
rounds-Batched_example = rounds-Batched some_rounds

abbrev tables : Tables
tables = record {
  events = webhook "w1" ∷ webhook "w2" ∷ [];
  rollup = (record { minute = pos 3; pair = record { channel = "OLD"; status = "SENT" } }, 5) ∷ [];
}

abbrev sent : Pair
sent = record { channel = "SMS"; status = "SENT" }

refresh_rollup-Exact_example :
    let t' = (refresh_rollup tables runs runs).0 in (t'.events ≡ tables.events) × Exact t'
unfolding refresh_rollup
refresh_rollup-Exact_example = refresh_rollup-Exact tables runs runs refl

-- The count of the pair is the number of its webhooks.
recomputed : lookup Pair_discrete sent (recompute_channel_status_counts tables) ≡ some 2
unfolding recompute_channel_status_counts Pair_discrete lookup
recomputed = refl

refresh_rollup_undercounts_example :
    let t' = (refresh_rollup tables runs (fails (λ n. ltb 0 n))).0 in
    (t'.events ≡ tables.events)
    × (count_of sent (rollup_channel_status_counts t')
        ≤ count_of sent (recompute_channel_status_counts tables))
unfolding refresh_rollup
refresh_rollup_undercounts_example =
    refresh_rollup_undercounts tables runs (fails (λ n. ltb 0 n)) sent
