-- ===== src/DeliveryGateway/Laws.antt =====
-- The webhook endpoint against the pipeline behind it, and the batches of the consumer.
use device_telemetry_gateway.Common.{
  ◌<◌, ◌≤◌, ◌≡◌, refl, sym, ap, ◌∙◌, leb, if◌then◌else◌, ite, Bool, List, [], ◌∷◌, ◌++◌,
  String_discrete, length, length-append, All, All-append, append_assoc, append-nil, arith,
  Bool-cases, inl, inr, zero, suc, ltb, true, false,
}
use device_telemetry_gateway.Common.Int.{ℤ, pos, negsuc}
use device_telemetry_gateway.Proto.{DeliveryWebhook}
use device_telemetry_gateway.Kafka.{Outcome}
use device_telemetry_gateway.DeliveryStats.{Pipeline, ingest, ingest_all}
use device_telemetry_gateway.Edge
use device_telemetry_gateway.DeliveryGateway.{
  WebhookPayload, Body, unreadable, invalid_json, payload, incomplete, is_blank, timestamp_or,
  to_webhook, respond, handle_body, handle_webhook, Call, handle_all, ch_batch_size, Consumer,
  new_consumer, flush_ch, Round, received, ticked, round, rounds,
}

abbrev stamp : ℤ → ℤ → ℤ
stamp (pos n) now = if ltb 0 n then pos n else now
stamp (negsuc n) now = negsuc n

-- The webhook of the fields, with the clock's time in place of a timestamp of 0.
abbrev webhook_of : WebhookPayload → ℤ → DeliveryWebhook
webhook_of p now = record {
  webhook_id = p.webhook_id;
  message_id = p.message_id;
  channel = p.channel;
  status = p.status;
  provider = p.provider;
  timestamp_ms = stamp p.timestamp now;
}

-- A body counts if it has a webhook id and a channel.
abbrev call_of : Body → ℤ → Outcome → List (DeliveryWebhook × Outcome)
call_of (payload p) now outcome =
    ite (String_discrete p.webhook_id "") []
      (ite (String_discrete p.channel "") [] ((webhook_of p now, outcome) ∷ []))
call_of _ now outcome = []

abbrev pub valid_calls : List Call → List (DeliveryWebhook × Outcome)
valid_calls [] = []
valid_calls (c ∷ cs) =
    ite (String_discrete c.request.method "POST") (call_of c.request.body c.now c.outcome) []
    ++ valid_calls cs

abbrev pub webhooks_of : List Round → List DeliveryWebhook
webhooks_of [] = []
webhooks_of (received w inserted ∷ rs) = w ∷ webhooks_of rs
webhooks_of (ticked inserted ∷ rs) = webhooks_of rs

abbrev pub joined : List (List DeliveryWebhook × Bool) → List DeliveryWebhook
joined [] = []
joined ((ws, inserted) ∷ rest) = ws ++ joined rest

joined-append :
    (bs cs : List (List DeliveryWebhook × Bool)) → joined (bs ++ cs) ≡ joined bs ++ joined cs
joined-append [] cs = refl
joined-append ((ws, inserted) ∷ bs) cs = ap (λ t. ws ++ t) (joined-append bs cs) ∙ rw append_assoc

-- The order of arrival is kept, no batch is empty or above the limit, and what waits is below it.
pub record Batched (seen : List DeliveryWebhook) (c : Consumer) : Type 0 where
  pub order : joined c.flushed ++ c.ch_batch ≡ seen
  pub sizes : All (λ b. (0 < length b.0) × (length b.0 ≤ ch_batch_size)) c.flushed
  pub waiting : length c.ch_batch < ch_batch_size

flush_ch-Batched :
    (seen : List DeliveryWebhook) (ws : List DeliveryWebhook)
    (flushed : List (List DeliveryWebhook × Bool)) (inserted : Bool)
    → joined flushed ++ ws ≡ seen
    → All (λ b. (0 < length b.0) × (length b.0 ≤ ch_batch_size)) flushed
    → length ws ≤ ch_batch_size
    → Batched seen (flush_ch (record { ch_batch = ws; flushed = flushed }) inserted)
unfolding flush_ch
flush_ch-Batched seen [] flushed inserted order sizes h = record {
  order = order;
  sizes = sizes;
  waiting = omega arith;
}
flush_ch-Batched seen (w ∷ ws) flushed inserted order sizes h = record {
  order = rw append-nil (joined-append flushed ((w ∷ ws, inserted) ∷ []) ∙ rw append-nil order);
  sizes = All-append _ flushed ((w ∷ ws, inserted) ∷ []) sizes ((omega arith, h), tt);
  waiting = omega arith;
}

round-Batched :
    (seen : List DeliveryWebhook) (c : Consumer) (r : Round)
    → Batched seen c
    → Batched (seen ++ webhooks_of (r ∷ [])) (round c r)
unfolding round
round-Batched seen c (ticked inserted) b =
    rw append-nil (
      flush_ch-Batched seen c.ch_batch c.flushed inserted b.order b.sizes
        (omega (arith, b.waiting)))
round-Batched seen c (received w inserted) b =
    let grown = c.ch_batch ++ (w ∷ []) in
    let order : joined c.flushed ++ grown ≡ seen ++ (w ∷ []) =
      sym (append_assoc (joined c.flushed) c.ch_batch (w ∷ [])) ∙ ap (λ t. t ++ (w ∷ [])) b.order in
    elim (Bool-cases (leb ch_batch_size (length grown))) [
      | inl full ↦ rw full (
          flush_ch-Batched (seen ++ (w ∷ [])) grown c.flushed inserted order b.sizes
            (omega (arith, b.waiting, length-append c.ch_batch (w ∷ []))))
      | inr room ↦ rw room (record { order = order; sizes = b.sizes; waiting = ground arith })
    ]

rounds-Batched_from :
    (seen : List DeliveryWebhook) (c : Consumer) (rs : List Round)
    → Batched seen c
    → Batched (seen ++ webhooks_of rs) (rounds c rs)
unfolding rounds
rounds-Batched_from seen c [] b = rw append-nil b
rounds-Batched_from seen c (ticked inserted ∷ rs) b =
    rounds-Batched_from seen (round c (ticked inserted)) rs
      (rw append-nil at (round-Batched seen c (ticked inserted) b))
rounds-Batched_from seen c (received w inserted ∷ rs) b =
    rw (← append_assoc seen (w ∷ []) (webhooks_of rs)) (
      rounds-Batched_from (seen ++ (w ∷ [])) (round c (received w inserted)) rs
        (round-Batched seen c (received w inserted) b))

-- After any rounds of the consumer, whatever the inserts answer: the batches handed to ClickHouse and the
-- waiting webhooks are, in order, exactly the webhooks received; no batch is empty or has more than 200
-- webhooks; and fewer than 200 wait.
pub rounds-Batched : (rs : List Round) → Batched (webhooks_of rs) (rounds new_consumer rs)
rounds-Batched rs =
    rounds-Batched_from [] new_consumer rs
      (record { order = refl; sizes = tt; waiting = omega arith })

timestamp_or-stamp : (t now : ℤ) → timestamp_or t now ≡ stamp t now
unfolding timestamp_or
timestamp_or-stamp (pos zero) now = ground arith
timestamp_or-stamp (pos (suc n)) now = ground arith
timestamp_or-stamp (negsuc n) now = refl

to_webhook-webhook_of : (p : WebhookPayload) (now : ℤ) → to_webhook p now ≡ webhook_of p now
unfolding to_webhook
to_webhook-webhook_of p now =
    ap (λ (t : ℤ). record (webhook_of p now) { timestamp_ms = t })
      (timestamp_or-stamp p.timestamp now)

incomplete_lem :
    (p : WebhookPayload)
    → incomplete p
      ≡ ite (String_discrete p.webhook_id "") true (ite (String_discrete p.channel "") true false)
unfolding incomplete is_blank
incomplete_lem p = ground arith

call_of_lem :
    (p : WebhookPayload) (now : ℤ) (outcome : Outcome)
    → call_of (payload p) now outcome
      ≡ (if incomplete p then [] else (to_webhook p now, outcome) ∷ [])
call_of_lem p now outcome = rw (to_webhook-webhook_of p now, incomplete_lem p) (ground arith)

handle_payload :
    (s : Pipeline) (p : WebhookPayload) (now : ℤ) (outcome : Outcome)
    → (handle_body s (payload p) now outcome).0
      ≡ (ingest_all s (if incomplete p then [] else (to_webhook p now, outcome) ∷ [])).0
unfolding handle_body respond ingest_all ingest Edge.ingest_all
handle_payload s p now outcome = elim (Bool-cases (incomplete p)) [
  | inl bad ↦ rw bad
  | inr good ↦ rw good
]

handle_body-ingest_all :
    (s : Pipeline) (b : Body) (now : ℤ) (outcome : Outcome)
    → (handle_body s b now outcome).0 ≡ (ingest_all s (call_of b now outcome)).0
unfolding handle_body respond ingest_all ingest Edge.ingest_all
handle_body-ingest_all s unreadable now outcome = refl
handle_body-ingest_all s invalid_json now outcome = refl
handle_body-ingest_all s (payload p) now outcome =
    handle_payload s p now outcome
    ∙ ap (λ calls. (ingest_all s calls).0) (sym (call_of_lem p now outcome))

ingest_all-append :
    (s : Pipeline) (xs ys : List (DeliveryWebhook × Outcome))
    → (ingest_all s (xs ++ ys)).0 ≡ (ingest_all (ingest_all s xs).0 ys).0
unfolding ingest_all Edge.ingest_all Edge.ingest ingest
ingest_all-append s [] ys = refl
ingest_all-append s ((w, outcome) ∷ xs) ys = ingest_all-append (ingest s w outcome).0 xs ys

ingest_all_nil : (s : Pipeline) → s ≡ (ingest_all s []).0
unfolding ingest_all Edge.ingest_all
ingest_all_nil s = refl

handle_webhook-ingest_all :
    (s : Pipeline) (c : Call)
    → (handle_webhook s c.request c.now c.outcome).0
      ≡ (ingest_all s (
          ite
            (String_discrete c.request.method "POST")
            (call_of c.request.body c.now c.outcome)
            [])).0
unfolding handle_webhook
handle_webhook-ingest_all s c = elim (String_discrete c.request.method "POST") [
  | yes post ↦ ground (arith, handle_body-ingest_all s c.request.body c.now c.outcome)
  | no other ↦ ground (arith, ingest_all_nil s)
]

-- Any sequence of requests, whatever the clock and Kafka do: the edge ends as after `Ingest` on the webhooks
-- of the POST requests alone whose body is JSON with a webhook id and a channel that are not empty, in
-- order, where a timestamp of 0 is replaced by the clock. Every other request changes nothing.
pub handle_all-ingest_all :
    (s : Pipeline) (cs : List Call) → handle_all s cs ≡ (ingest_all s (valid_calls cs)).0
unfolding handle_all
handle_all-ingest_all s [] = ingest_all_nil s
handle_all-ingest_all s (c ∷ cs) =
    let first =
      ite (String_discrete c.request.method "POST") (call_of c.request.body c.now c.outcome) [] in
    handle_all-ingest_all (handle_webhook s c.request c.now c.outcome).0 cs
    ∙ ap (λ t. (ingest_all t (valid_calls cs)).0) (handle_webhook-ingest_all s c)
    ∙ sym (ingest_all-append s first (valid_calls cs))
