-- ===== src/Edge/Runs.antt =====
-- Runs of the edge against the reference.
use device_telemetry_gateway.Common.{
  ℕ, suc, ◌≤◌, ◌≡◌, refl, sym, ap, ◌∙◌, if◌then◌else◌, List, [], ◌∷◌, ◌++◌, map, String,
  String_discrete, length, select, reference, Bool-cases, inl, inr, append_assoc, append-nil,
  contains, arith,
}
use device_telemetry_gateway.Fifo
use device_telemetry_gateway.Fifo.{Fifo, admit_all}
use device_telemetry_gateway.Fifo.Valid.{IsFifo, empty-IsFifo}
use device_telemetry_gateway.Fifo.Runs.{admit_all-reference, admit_all-IsFifo}
use device_telemetry_gateway.Kafka.{Outcome, acked, lands}
use device_telemetry_gateway.Edge.{Edge, new_edge, ingest, ingest_all, entry_count}

module _ {M : Type 0} (id : M → String) (cap : ℕ) where
  abbrev pub call_id : M × Outcome → String
  call_id c = id c.0

  -- The messages of the calls whose produce landed.
  abbrev pub landed : List (M × Outcome) → List M
  landed calls = map (λ c. c.0) (select (λ c. lands c.1) calls)

  pub dedup-ingest :
      (p : Edge M) (m : M) (outcome : Outcome)
      → (ingest id cap p m outcome).0.dedup ≡ (Fifo.admit String_discrete cap p.dedup (id m)).0
  unfolding ingest
  dedup-ingest p m outcome = elim (Bool-cases (Fifo.admit String_discrete cap p.dedup (id m)).1) [
    | inl new ↦ rw new
    | inr old ↦ rw old
  ]

  pub topic-ingest :
      (p : Edge M) (m : M) (outcome : Outcome)
      → (ingest id cap p m outcome).0.topic ≡ (
          if (Fifo.admit String_discrete cap p.dedup (id m)).1
          then (if lands outcome then p.topic ++ (m ∷ []) else p.topic)
          else p.topic)
  unfolding ingest
  topic-ingest p m outcome = elim (Bool-cases (Fifo.admit String_discrete cap p.dedup (id m)).1) [
    | inl new ↦ rw new
    | inr old ↦ rw old
  ]

  landed-cons :
      (m : M) (outcome : Outcome) (front : List M) (calls : List (M × Outcome))
      → (if lands outcome then front ++ (m ∷ []) else front) ++ landed calls
        ≡ front ++ landed ((m, outcome) ∷ calls)
  landed-cons m outcome front calls = elim (Bool-cases (lands outcome)) [
    | inl there ↦ rw there (append_assoc front (m ∷ []) (landed calls))
    | inr lost ↦ rw lost
  ]

  -- A run of `Ingest` is a run of `Admit`; the admitted calls that landed join the topic.
  ingest_all-admit_all :
      (p : Edge M) (calls : List (M × Outcome))
      → let run = admit_all String_discrete cap call_id p.dedup calls in
        ((ingest_all id cap p calls).0.dedup ≡ run.0)
        × ((ingest_all id cap p calls).0.topic ≡ p.topic ++ landed run.1)
  unfolding ingest_all admit_all
  ingest_all-admit_all p [] = (refl, sym (append-nil p.topic))
  ingest_all-admit_all p ((m, outcome) ∷ calls) =
      let (dedup', fresh) = Fifo.admit String_discrete cap p.dedup (id m) in
      let run = admit_all String_discrete cap call_id dedup' calls in
      let (same_dedup, same_topic) =
        rw (dedup-ingest p m outcome) at
          (ingest_all-admit_all (ingest id cap p m outcome).0 calls) in
      elim (Bool-cases fresh) [
        | inl new ↦ (
          same_dedup,
          rw new (
              same_topic
              ∙ ap (λ t. t ++ landed run.1) (rw new at (topic-ingest p m outcome))
              ∙ landed-cons m outcome p.topic run.1),
        )
        | inr old ↦ (
          same_dedup,
          rw old (same_topic ∙ ap (λ t. t ++ landed run.1) (rw old at (topic-ingest p m outcome))),
        )
      ]

  pub ingest_all-IsFifo :
      (p : Edge M) (calls : List (M × Outcome))
      → IsFifo String_discrete cap p.dedup
      → IsFifo String_discrete cap (ingest_all id cap p calls).0.dedup
  ingest_all-IsFifo p calls v =
      rw (ingest_all-admit_all p calls).0
        (admit_all-IsFifo String_discrete cap call_id p.dedup calls v)

  -- After any traffic the memory is bounded.
  pub entry_count_bounded :
      (calls : List (M × Outcome)) → entry_count (ingest_all id cap new_edge calls).0 ≤ cap
  unfolding entry_count
  entry_count_bounded calls =
      let v = ingest_all-IsFifo new_edge calls (empty-IsFifo String_discrete cap) in
      omega (arith, v.sizes, v.bounded)

  -- As long as the distinct ids fit the bound, what lands in Kafka is exactly the first message with
  -- each id, in order, of those whose produce landed: the reference of the whole stream. It follows what
  -- the topic held before.
  pub topic-ingest_all_onto :
      (before : List M) (calls : List (M × Outcome))
      → length (reference String_discrete call_id [] calls) ≤ cap
      → (ingest_all id cap (record { dedup = Fifo.empty; topic = before }) calls).0.topic
        ≡ before ++ landed (reference String_discrete call_id [] calls)
  unfolding contains
  topic-ingest_all_onto before calls few =
      (ingest_all-admit_all (record { dedup = Fifo.empty; topic = before }) calls).1
      ∙ ap (λ admitted. before ++ landed admitted)
          (admit_all-reference String_discrete cap call_id Fifo.empty [] calls
            (empty-IsFifo String_discrete cap) (λ x. refl) (omega (arith, few)))

  pub topic-ingest_all :
      (calls : List (M × Outcome))
      → length (reference String_discrete call_id [] calls) ≤ cap
      → (ingest_all id cap new_edge calls).0.topic
        ≡ landed (reference String_discrete call_id [] calls)
  topic-ingest_all = topic-ingest_all_onto []

  -- With a broker that acknowledges everything, the reference of the calls is that of the messages.
  pub landed-acked :
      (seen : List String) (ms : List M)
      → landed (reference String_discrete call_id seen (map (λ m. (m, acked)) ms))
        ≡ reference String_discrete id seen ms
  unfolding reference
  landed-acked seen [] = refl
  landed-acked seen (m ∷ ms) = elim (Bool-cases (contains String_discrete seen (id m))) [
    | inl old ↦ rw old (landed-acked seen ms)
    | inr new ↦ rw new (ap (◌∷◌ m) (landed-acked (id m ∷ seen) ms))
  ]

  pub length-reference_acked :
      (seen : List String) (ms : List M)
      → length (reference String_discrete call_id seen (map (λ m. (m, acked)) ms))
        ≡ length (reference String_discrete id seen ms)
  unfolding reference
  length-reference_acked seen [] = refl
  length-reference_acked seen (m ∷ ms) = elim (Bool-cases (contains String_discrete seen (id m))) [
    | inl old ↦ rw old (length-reference_acked seen ms)
    | inr new ↦ rw new (ap suc (length-reference_acked (id m ∷ seen) ms))
  ]

  pub topic-ingest_all_acked :
      (ms : List M)
      → length (reference String_discrete id [] ms) ≤ cap
      → (ingest_all id cap new_edge (map (λ m. (m, acked)) ms)).0.topic
        ≡ reference String_discrete id [] ms
  topic-ingest_all_acked ms few =
      topic-ingest_all (map (λ m. (m, acked)) ms) (omega (arith, length-reference_acked [] ms))
      ∙ landed-acked [] ms
