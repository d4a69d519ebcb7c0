-- ===== src/Edge.antt =====
-- The edge that internal/eventingest and internal/deliverystats share in shape: deduplicate on one id,
-- hand the message to Kafka, and return a produce error to the caller as it is.
pub mod Runs
pub mod Resend
use device_telemetry_gateway.Common.{
  ℕ, Bool, true, false, not, if◌then◌else◌, List, [], ◌∷◌, ◌++◌, String, String_discrete, length,
}
use device_telemetry_gateway.Fifo
use device_telemetry_gateway.Fifo.{Fifo}
use device_telemetry_gateway.Kafka.{Outcome, is_acked, lands}

-- `topic` is what has landed in Kafka through the producer.
pub record Edge (M : Type 0) : Type 0 where
  pub dedup : Fifo String
  pub topic : List M

-- The results of `Ingest`: `accepted`, and whether `err` is set.
pub record Ingested : Type 0 where
  pub accepted : Bool
  pub failed : Bool

abbrev pub new_edge : {M : Type 0} → Edge M
new_edge = record { dedup = Fifo.empty; topic = [] }

module _ {M : Type 0} (id : M → String) (cap : ℕ) where
  produce : Edge M → M → Outcome → Edge M × Bool
  produce p m outcome = (
    record p { topic = if lands outcome then p.topic ++ (m ∷ []) else p.topic },
    not (is_acked outcome),
  )

  unfoldable pub ingest : Edge M → M → Outcome → Edge M × Ingested
  unfolding produce
  ingest p m outcome =
      let (dedup', fresh) = Fifo.admit String_discrete cap p.dedup (id m) in
      let (after, error) = produce (record p { dedup = dedup' }) m outcome in
      if fresh
      then (after, record { accepted = true; failed = error })
      else (record p { dedup = dedup' }, record { accepted = false; failed = false })

  -- A sequence of calls, each with what the producer does if it is asked.
  unfoldable pub ingest_all : Edge M → List (M × Outcome) → Edge M × List Ingested
  ingest_all p [] = (p, [])
  ingest_all p ((m, outcome) ∷ calls) =
      let (next, result) = ingest p m outcome in
      let (last, results) = ingest_all next calls in (last, result ∷ results)

unfoldable pub entry_count : {M : Type 0} → Edge M → ℕ
entry_count p = length p.dedup.set
