-- ===== src/Ingest/Pipeline/Branches.antt =====
-- One call of `Ingest`, branch by branch.
use device_telemetry_gateway.Common.{
  ℕ, ◌≡◌, refl, Bool, true, false, not, if◌then◌else◌, List, [], ◌∷◌, ◌++◌, none, some, select,
  Bool-cases, inl, inr, append_assoc,
}
use device_telemetry_gateway.Proto.{Reading, Codec}
use device_telemetry_gateway.Kafka.{Outcome, acked, refused, unacked, is_acked, lands}
use device_telemetry_gateway.Ingest.Dedup
use device_telemetry_gateway.Ingest.Dedup.{Dedup}
use device_telemetry_gateway.Ingest.Dedup.Valid.{IsDedup}
use device_telemetry_gateway.Ingest.Dedup.Again.{admit_again}
use device_telemetry_gateway.Ingest.Spool.{ok, err, write_error, WriteFault, write}
use device_telemetry_gateway.Ingest.Spool.Laws.{Holds, write-Holds}
use device_telemetry_gateway.Ingest.Pipeline.{Pipeline, offer, ingest}

abbrev pub appended_if : Bool → List Reading → Reading → List Reading
appended_if b rs r = if b then rs ++ (r ∷ []) else rs

module _ (codec : Codec Reading) where
  -- On a working disk, with a reading that marshals: no error, the reading joins the topic if it landed,
  -- and the spool if the producer did not acknowledge it.
  pub offer-Holds :
      (p : Pipeline) (r : Reading) (outcome : Outcome) (rs : List Reading) (b : List ℕ)
      → codec.marshal r ≡ some b
      → Holds codec p.spool rs
      → let (after, result) = offer codec p r outcome none in
        (result ≡ ok tt)
        × (after.dedup ≡ p.dedup)
        × (after.topic ≡ appended_if (lands outcome) p.topic r)
        × Holds codec after.spool (appended_if (not (is_acked outcome)) rs r)
  unfolding offer
  offer-Holds p r acked rs b m h = (refl, refl, refl, h)
  offer-Holds p r refused rs b m h =
      let (fine, holds) = write-Holds codec p.spool rs r b m h in (fine, refl, refl, holds)
  offer-Holds p r unacked rs b m h =
      let (fine, holds) = write-Holds codec p.spool rs r b m h in (fine, refl, refl, holds)

  -- `Ingest` of a reading that marshals, on a working disk, whatever Kafka does: no error; a reading that
  -- the deduplication has not seen joins the topic if it lands, and the spool if Kafka does not
  -- acknowledge it; a repeat changes neither.
  pub ingest-Holds :
      (p : Pipeline) (r : Reading) (outcome : Outcome) (rs : List Reading) (b : List ℕ)
      → codec.marshal r ≡ some b
      → Holds codec p.spool rs
      → let (dedup', fresh) = Dedup.admit p.dedup r.device_id r.sequence in
        let (after, result) = ingest codec p r outcome none in
        (result ≡ ok tt)
        × (after.dedup ≡ dedup')
        × (after.topic ≡ (if fresh then appended_if (lands outcome) p.topic r else p.topic))
        × Holds codec after.spool (if fresh then appended_if (not (is_acked outcome)) rs r else rs)
  unfolding ingest
  ingest-Holds p r outcome rs b m h =
      let (dedup', fresh) = Dedup.admit p.dedup r.device_id r.sequence in
      elim (Bool-cases fresh) [
        | inl new ↦ rw new (offer-Holds (record p { dedup = dedup' }) r outcome rs b m h)
        | inr old ↦ rw old (refl, refl, refl, h)
      ]

  -- If Kafka refuses a new reading that marshals and the disk fails too, for the first time, the caller
  -- gets an error. A device that then sends the reading again is told that all is well, and the reading
  -- goes nowhere, whatever Kafka and the disk would do then.
  pub resend_after_error_is_swallowed :
      (p : Pipeline) (r : Reading) (b : List ℕ) (n : ℕ) (outcome : Outcome) (fault : WriteFault)
      → IsDedup p.dedup
      → (Dedup.admit p.dedup r.device_id r.sequence).1 ≡ true
      → codec.marshal r ≡ some b
      → p.spool.failed ≡ false
      → let first = ingest codec p r refused (some n) in
        let second = ingest codec first.0 r outcome fault in
        (first.1 ≡ err write_error)
        × (second.1 ≡ ok tt)
        × (second.0.topic ≡ p.topic)
        × (second.0.spool ≡ first.0.spool)
  unfolding ingest offer write
  resend_after_error_is_swallowed p r b n outcome fault v fresh m working =
      let again = admit_again p.dedup r.device_id r.sequence v in
      rw (fresh, m, working, again) (refl, refl, refl, refl)

  pub appended-select :
      (test : Reading → Bool) (old rs : List Reading) (r : Reading)
      → appended_if (test r) old r ++ select test rs ≡ old ++ select test (r ∷ rs)
  appended-select test old rs r = elim (Bool-cases (test r)) [
    | inl pass ↦ rw pass (append_assoc old (r ∷ []) (select test rs))
    | inr fail ↦ rw fail
  ]
