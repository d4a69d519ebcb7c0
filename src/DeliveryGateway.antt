-- ===== src/DeliveryGateway.antt =====
-- cmd/deliverygateway/main.go: the webhook endpoint, and the loop that moves what Kafka delivers into
-- ClickHouse in batches.
pub mod Laws
use device_telemetry_gateway.Common.{
  ℕ, zero, ◌+◌, leb, ltb, if◌then◌else◌, ite, Bool, true, false, ◌||◌, List, [], ◌∷◌, ◌++◌, Option,
  none, some, String, String_discrete, length,
}
use device_telemetry_gateway.Common.Int.{ℤ, pos}
use device_telemetry_gateway.Proto.{DeliveryWebhook}
use device_telemetry_gateway.Kafka.{Outcome}
use device_telemetry_gateway.DeliveryStats.{Pipeline, ingest}
use device_telemetry_gateway.Edge.{Ingested}

pub record WebhookPayload : Type 0 where
  pub webhook_id : String
  pub message_id : String
  pub channel : String
  pub status : String
  pub provider : String
  pub timestamp : ℤ

-- The body of a request: `ReadAll` fails, or it is no JSON of the payload's shape, or it is one.
pub data Body : Type 0 where
  unreadable : Body
  invalid_json : Body
  payload : WebhookPayload → Body

pub record Request : Type 0 where
  pub method : String
  pub body : Body

pub data Response : Type 0 where
  accepted_json : Bool → Response
  method_not_allowed : Response
  bad_request : Response
  bad_gateway : Response

-- A timestamp of 0 is replaced by the clock.
pub timestamp_or : ℤ → ℤ → ℤ
timestamp_or (pos zero) now = now
timestamp_or t now = t

pub to_webhook : WebhookPayload → ℤ → DeliveryWebhook
unfolding timestamp_or
to_webhook p now = record {
  webhook_id = p.webhook_id;
  message_id = p.message_id;
  channel = p.channel;
  status = p.status;
  timestamp_ms = timestamp_or p.timestamp now;
  provider = p.provider;
}

pub is_blank : String → Bool
is_blank s = ite (String_discrete s "") true false

pub incomplete : WebhookPayload → Bool
unfolding is_blank
incomplete p = is_blank p.webhook_id || is_blank p.channel

respond : Pipeline × Ingested → Pipeline × Response
respond (s, result) = (s, if result.failed then bad_gateway else accepted_json result.accepted)

handle_body : Pipeline → Body → ℤ → Outcome → Pipeline × Response
unfolding respond to_webhook incomplete
handle_body s unreadable now outcome = (s, bad_request)
handle_body s invalid_json now outcome = (s, bad_request)
handle_body s (payload p) now outcome =
    if incomplete p then (s, bad_request) else respond (ingest s (to_webhook p now) outcome)

-- The handler of `/webhook/`. `now` is the clock, and `outcome` what Kafka does with a message.
pub handle_webhook : Pipeline → Request → ℤ → Outcome → Pipeline × Response
unfolding handle_body
handle_webhook s r now outcome =
    ite (String_discrete r.method "POST") (handle_body s r.body now outcome) (s, method_not_allowed)

-- A request, with the clock and the outcome that it meets.
pub record Call : Type 0 where
  pub request : Request
  pub now : ℤ
  pub outcome : Outcome

-- The handlers take the lock of the deduplication one after the other.
pub handle_all : Pipeline → List Call → Pipeline
unfolding handle_webhook
handle_all s [] = s
handle_all s (c ∷ cs) = handle_all (handle_webhook s c.request c.now c.outcome).0 cs

abbrev pub ch_batch_size : ℕ
ch_batch_size = 200

-- The consuming goroutine between two rounds. `flushed` are the batches handed to `InsertBatch`, with
-- whether it succeeded: a failure is only logged.
pub record Consumer : Type 0 where
  pub ch_batch : List DeliveryWebhook
  pub flushed : List (List DeliveryWebhook × Bool)

abbrev pub new_consumer : Consumer
new_consumer = record { ch_batch = []; flushed = [] }

-- `flushCH`; `inserted` is the success of an insert.
pub flush_ch : Consumer → Bool → Consumer
flush_ch c inserted = flush_batch c.ch_batch
  where
    flush_batch : List DeliveryWebhook → Consumer
    flush_batch [] = record c { ch_batch = [] }
    flush_batch (w ∷ ws) = record {
      ch_batch = [];
      flushed = c.flushed ++ ((w ∷ ws, inserted) ∷ []);
    }

-- What a round of `select` receives.
pub data Round : Type 0 where
  received : DeliveryWebhook → Bool → Round
  ticked : Bool → Round

pub round : Consumer → Round → Consumer
unfolding flush_ch
round c (received w inserted) =
    let grown = record c { ch_batch = c.ch_batch ++ (w ∷ []) } in
    if leb ch_batch_size (length grown.ch_batch) then flush_ch grown inserted else grown
round c (ticked inserted) = flush_ch c inserted

pub rounds : Consumer → List Round → Consumer
unfolding round
rounds c [] = c
rounds c (r ∷ rs) = rounds (round c r) rs
