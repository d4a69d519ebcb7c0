-- ===== src/Kafka/Producer.antt =====
-- internal/kafkaclient/producer.go, storefront_producer.go and delivery_producer.go. The writer of the
-- client library is outside: what it does with a message is an argument.
use device_telemetry_gateway.Common.{
  ℕ, ◌≡◌, refl, ap, Bool, if◌then◌else◌, List, [], ◌∷◌, Option, none, some, String, map, arith,
}
use device_telemetry_gateway.Proto.{Reading, StorefrontEvent, DeliveryWebhook, Codec}
use device_telemetry_gateway.Kafka.{Outcome, refused}
use device_telemetry_gateway.Ingest.Spool.Frames.{decoded}

pub record Message : Type 0 where
  pub key : String
  pub value : List ℕ

-- A message for the writer: the value is the marshalled form, `none` an error of `Marshal`.
to_message : String → Option (List ℕ) → Option Message
to_message key none = none
to_message key (some value) = some (record { key = key; value = value })

pub reading_message : Codec Reading → Reading → Option Message
unfolding to_message
reading_message codec r = to_message r.device_id (codec.marshal r)

pub event_message : Codec StorefrontEvent → StorefrontEvent → Option Message
unfolding to_message
event_message codec e = to_message e.profile_id (codec.marshal e)

pub webhook_message : Codec DeliveryWebhook → DeliveryWebhook → Option Message
unfolding to_message
webhook_message codec w = to_message w.message_id (codec.marshal w)

-- `Produce` of each producer: an error of `Marshal` writes nothing.
unfoldable pub produce : Option Message → Outcome → Outcome
produce none outcome = refused
produce (some m) outcome = outcome

-- `OutageInjectingProducer.Produce`; `outage` is whether the outage lasts.
pub produce_in_outage : Bool → Option Message → Outcome → Outcome
unfolding produce
produce_in_outage outage m outcome = if outage then refused else produce m outcome

add_message : Option Message → Option (List Message) → Option (List Message)
add_message (some m) (some ms) = some (m ∷ ms)
add_message _ _ = none

-- The messages that `ProduceBatch` hands to the writer in one call; none if one does not marshal.
unfoldable pub produce_batch : Codec DeliveryWebhook → List DeliveryWebhook → Option (List Message)
unfolding webhook_message add_message
produce_batch codec [] = some []
produce_batch codec (w ∷ ws) = add_message (webhook_message codec w) (produce_batch codec ws)

webhook_message_fails :
    (codec : Codec DeliveryWebhook) (w : DeliveryWebhook)
    → codec.marshal w ≡ none
    → webhook_message codec w ≡ none
unfolding webhook_message
webhook_message_fails codec w bad = ap (to_message w.message_id) bad

webhook_message_of :
    (codec : Codec DeliveryWebhook) (w : DeliveryWebhook) (b : List ℕ)
    → codec.marshal w ≡ some b
    → webhook_message codec w ≡ some (record { key = w.message_id; value = b })
unfolding webhook_message
webhook_message_of codec w b good = ap (to_message w.message_id) good

abbrev pub Carries : Codec DeliveryWebhook → List DeliveryWebhook → List Message → Type 0
Carries codec ws ms =
    (decoded codec (map (λ m. m.value) ms) ≡ ws)
    × (map (λ m. m.key) ms ≡ map (λ w. w.message_id) ws)

cons-Carries :
    (codec : Codec DeliveryWebhook) (w : DeliveryWebhook) (ws : List DeliveryWebhook) (b : List ℕ)
    (ms : List Message)
    → codec.marshal w ≡ some b
    → Carries codec ws ms
    → Carries codec (w ∷ ws) (record { key = w.message_id; value = b } ∷ ms)
cons-Carries codec w ws b ms good (same, keys) =
    (rw (codec.reads_back w b good) (ap (◌∷◌ w) same), ap (◌∷◌ w.message_id) keys)

-- A batch that is written holds every webhook, in order, under the key of its message, and a consumer
-- that decodes the values gets the same webhooks back.
pub produce_batch-decoded :
    (codec : Codec DeliveryWebhook) (ws : List DeliveryWebhook) (ms : List Message)
    → produce_batch codec ws ≡ some ms
    → Carries codec ws ms
unfolding produce_batch
produce_batch-decoded codec [] ms e = let same : [] ≡ ms = ground arith in rw (← same) (refl, refl)
produce_batch-decoded codec (w ∷ ws) ms e =
    both (codec.marshal w) (produce_batch codec ws) refl refl
      (λ rest. produce_batch-decoded codec ws rest)
  where
    both :
        (one : Option (List ℕ)) (others : Option (List Message))
        → codec.marshal w ≡ one
        → produce_batch codec ws ≡ others
        → ((rest : List Message) → produce_batch codec ws ≡ some rest → Carries codec ws rest)
        → Carries codec (w ∷ ws) ms
    both none others bad rest shorter =
        absurd (ground (arith, rw (webhook_message_fails codec w bad) at e))
    both (some b) none good bad shorter =
        absurd (ground (arith, rw (webhook_message_of codec w b good, bad) at e))
    both (some b) (some rest) good fine shorter =
        let same : record { key = w.message_id; value = b } ∷ rest ≡ ms =
          ground (arith, rw (webhook_message_of codec w b good, fine) at e) in
        rw (← same) (cons-Carries codec w ws b rest good (shorter rest fine))
