-- ===== src/Edge/Resend.antt =====
-- A message that is sent again after a produce error.
use device_telemetry_gateway.Common.{ℕ, ◌<◌, ◌≡◌, refl, true, false, String, String_discrete}
use device_telemetry_gateway.Fifo
use device_telemetry_gateway.Fifo.Valid.{IsFifo}
use device_telemetry_gateway.Fifo.Again.{admit_again}
use device_telemetry_gateway.Kafka.{Outcome, refused}
use device_telemetry_gateway.Edge.{Edge, ingest}

module _ {M : Type 0} (id : M → String) (cap : ℕ) where
  -- A new message that Kafka refuses is reported to the caller as accepted, with the error. The same
  -- message sent again is reported as a duplicate, without an error, whatever Kafka would do with it
  -- now, and it never reaches the topic.
  pub resend_after_refusal_is_swallowed :
      (p : Edge M) (m : M) (outcome : Outcome)
      → 0 < cap
      → IsFifo String_discrete cap p.dedup
      → (Fifo.admit String_discrete cap p.dedup (id m)).1 ≡ true
      → let first = ingest id cap p m refused in
        let second = ingest id cap first.0 m outcome in
        (first.1 ≡ record { accepted = true; failed = true })
        × (second.1 ≡ record { accepted = false; failed = false })
        × (second.0.topic ≡ p.topic)
  unfolding ingest
  resend_after_refusal_is_swallowed p m outcome h v fresh =
      rw (fresh, admit_again String_discrete cap p.dedup (id m) h v) (refl, refl, refl)
