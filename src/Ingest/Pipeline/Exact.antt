-- ===== src/Ingest/Pipeline/Exact.antt =====
-- What Kafka holds once the gateway is quiet.
use device_telemetry_gateway.Common.{
  ℕ, ◌≤◌, ◌≡◌, refl, ap, ◌∙◌, Bool, true, false, List, [], ◌∷◌, Option, none, some, String, length,
  select, tally, SameItems, All, arith, Bool-cases, inl, inr,
}
use device_telemetry_gateway.Proto.{Reading, Codec}
use device_telemetry_gateway.Ingest.Dedup
use device_telemetry_gateway.Ingest.Dedup.{
  Dedup, new_dedup, admit_all, reference_dedup, max_sequences_per_device,
}
use device_telemetry_gateway.Ingest.Dedup.Devices.{is_device}
use device_telemetry_gateway.Ingest.Dedup.Exact.{admit_all-reference_dedup}
use device_telemetry_gateway.Ingest.Spool.{ok, size_bytes}
use device_telemetry_gateway.Ingest.Spool.Laws.{size_bytes-zero}
use device_telemetry_gateway.Ingest.Pipeline.{Gateway, Reach}
use device_telemetry_gateway.Ingest.Pipeline.Conserve.{Reach-Conserved}

module _ (codec : Codec Reading) where
  -- The spool can hold the reading.
  abbrev pub Marshals : Reading → Type 0
  Marshals r = (b : List ℕ) × (codec.marshal r ≡ some b)

  abbrev is_none : Option (List ℕ) → Bool
  is_none none = true
  is_none (some b) = false

  abbrev fails : Reading → Bool
  fails r = is_none (codec.marshal r)

  admit_all-All :
      (d : Dedup) (rs : List Reading) → All Marshals rs → All Marshals (admit_all d rs).1
  unfolding admit_all
  admit_all-All d [] m = tt
  admit_all-All d (r ∷ rs) m =
      let rest = admit_all-All (Dedup.admit d r.device_id r.sequence).0 rs m.1 in
      elim (Bool-cases (Dedup.admit d r.device_id r.sequence).1) [
        | inl fresh ↦ rw fresh (m.0, rest)
        | inr old ↦ rw old rest
      ]

  tally_spoolable : (rs : List Reading) → All Marshals rs → tally fails rs ≡ 0
  tally_spoolable [] m = refl
  tally_spoolable (r ∷ rs) ((b, good), m) = rw good (omega (arith, tally_spoolable rs m))

  tally_failing :
      (rs : List Reading) → All (λ r. codec.marshal r ≡ none) rs → tally fails rs ≡ length rs
  tally_failing [] m = refl
  tally_failing (r ∷ rs) (bad, m) = rw bad (omega (arith, tally_failing rs m))

  empty_of_length : (rs : List Reading) → length rs ≡ 0 → rs ≡ []
  empty_of_length [] h = refl
  empty_of_length (r ∷ rs) h = absurd (omega arith)

  -- Nothing is dropped if every reading that arrived can be spooled.
  pub dropped-nil : {g : Gateway} → Reach codec g → All Marshals g.arrived → g.dropped ≡ []
  dropped-nil {g} reach m =
      let c = Reach-Conserved codec reach in
      let none_fails : tally fails g.admitted ≡ 0 =
        ap (λ (l : List Reading). tally fails l) c.history.1
        ∙ tally_spoolable (admit_all new_dedup g.arrived).1 (admit_all-All new_dedup g.arrived m) in
      empty_of_length g.dropped
        (omega (arith, c.balance fails, none_fails, tally_failing g.dropped c.unspoolable))

  -- In every state that connections, drains and retries can reach on a disk that works: if every reading
  -- that arrived marshals, no device sent more than 4096 distinct sequences, no goroutine holds a
  -- reading and `SizeBytes` is 0, then Kafka has acknowledged exactly the readings that the reference
  -- keeps of all that arrived, each once, whatever the order of arrival, the repeats, the outages and
  -- the interleaving were.
  pub quiet-delivered :
      {g : Gateway}
      → Reach codec g
      → All Marshals g.arrived
      → ((device_id : String)
          → length (select (is_device device_id) (reference_dedup g.arrived))
            ≤ max_sequences_per_device)
      → g.in_flight ≡ []
      → size_bytes g.spool ≡ ok 0
      → SameItems g.delivered (reference_dedup g.arrived)
  quiet-delivered {g} reach m few idle drained p =
      let c = Reach-Conserved codec reach in
      let all = c.history.1 ∙ admit_all-reference_dedup g.arrived few in
      omega (
        arith,
        c.balance p,
        ap (λ (l : List Reading). tally p l) all,
        ap (λ (l : List Reading). tally p l) (dropped-nil reach m),
        ap (λ (l : List Reading). tally p l) idle,
        ap (λ (l : List Reading). tally p l)
            (size_bytes-zero codec g.spool c.spooled c.holds drained),
      )
