-- ===== src/Commands/DedupBench/Laws.antt =====
-- The verdict of the deduplication benchmarks.
use device_telemetry_gateway.Common.{
  ℕ, ◌+◌, ◌≤◌, ◌≡◌, ◌↔◌, refl, sym, ap, ◌∙◌, if_pos, if_neg, Bool, true, false, List, [], ◌∷◌, ◌++◌,
  map, Option, some, String, String_discrete, length, length-append, tally, tally-append, SameItems,
  Bool-cases, inl, inr, reference, arith,
}
use device_telemetry_gateway.Common.Sort.{sort_eq, SameItems-sort, text_order}
use device_telemetry_gateway.Kafka.{Outcome, acked, refused, unacked}
use device_telemetry_gateway.Edge
use device_telemetry_gateway.Edge.{Edge}
use device_telemetry_gateway.Edge.Runs as runs
use device_telemetry_gateway.Fifo
use device_telemetry_gateway.DeliveryStats
use device_telemetry_gateway.DeliveryStats.{max_webhook_ids, webhook_key}
use device_telemetry_gateway.EventIngest
use device_telemetry_gateway.EventIngest.{max_event_ids, event_key}
use device_telemetry_gateway.Proto.{StorefrontEvent, DeliveryWebhook}
use device_telemetry_gateway.Commands.DedupBench.{
  Counts, count, no_counts, send_loop, equal_from, equal_id_sets, id_set, verdict, delivery_gen,
  event_gen,
}

abbrev pub is_empty : {A : Type 0} → List A → Bool
is_empty [] = true
is_empty (x ∷ xs) = false

tally-map :
    {A B : Type 0} (f : A → B) (p : B → Bool) (xs : List A)
    → tally p (map f xs) ≡ tally (λ x. p (f x)) xs
tally-map f p [] = refl
tally-map f p (x ∷ xs) = omega (arith, tally-map f p xs)

equal_from_iff : (a b : List String) → length a ≡ length b → (equal_from a b ≡ true) ↔ (a ≡ b)
unfolding equal_from
equal_from_iff [] [] h = (λ e. refl, λ e. refl)
equal_from_iff [] (y ∷ ys) h = absurd (omega (arith, h))
equal_from_iff (x ∷ xs) [] h = absurd (omega (arith, h))
equal_from_iff (x ∷ xs) (y ∷ ys) h = elim (String_discrete x y) [
  | yes e ↦ rw (if_pos _ e) (ground (arith, equal_from_iff xs ys))
  | no e ↦ rw (if_neg _ e) (ground arith)
]

pub equal_id_sets_iff : (a b : List String) → (equal_id_sets a b ≡ true) ↔ (a ≡ b)
unfolding equal_id_sets
equal_id_sets_iff a b = ground (arith, equal_from_iff a b)

-- The comparison of the commands is true exactly if both lists have the same ids, each as often: the order
-- in which the partitions are read back plays no part, and a repeat does.
pub equal_id_sets-SameItems :
    {M : Type 0} (id : M → String) (got want : List M)
    → (equal_id_sets (id_set id got) (id_set id want) ≡ true) ↔ SameItems (map id got) (map id want)
unfolding id_set
equal_id_sets-SameItems id got want =
    let iff = equal_id_sets_iff (id_set id got) (id_set id want) in
    (
      λ e. SameItems-sort text_order (map id got) (map id want) (iff.0 e),
      λ s. iff.1 (sort_eq text_order (map id got) (map id want) s),
    )

-- The effect of one call on the counts and on the length of the topic.
abbrev pub Grows : {M : Type 0} → ℕ → Edge M → Counts → Edge M → Counts → Type 0
Grows calls p n p' n' =
    (n'.accepted + n'.rejected + n'.produce_errs ≡ n.accepted + n.rejected + n.produce_errs + calls)
    × (length p.topic + n'.accepted ≤ length p'.topic + n.accepted)
    × (length p'.topic + n.accepted + n.produce_errs
        ≤ length p.topic + n'.accepted + n'.produce_errs)

step-Grows :
    {M : Type 0} (id : M → String) (cap : ℕ) (p : Edge M) (n : Counts) (m : M) (outcome : Outcome)
    → let (p', r) = Edge.ingest id cap p m outcome in Grows 1 p n p' (count n r)
unfolding Edge.ingest count
step-Grows id cap p n m acked =
    elim (Bool-cases (Fifo.admit String_discrete cap p.dedup (id m)).1) [
      | inl new ↦ rw new (omega (arith, length-append p.topic (m ∷ [])))
      | inr old ↦ rw old (omega arith)
    ]
step-Grows id cap p n m refused =
    elim (Bool-cases (Fifo.admit String_discrete cap p.dedup (id m)).1) [
      | inl new ↦ rw new (omega arith)
      | inr old ↦ rw old (omega arith)
    ]
step-Grows id cap p n m unacked =
    elim (Bool-cases (Fifo.admit String_discrete cap p.dedup (id m)).1) [
      | inl new ↦ rw new (omega (arith, length-append p.topic (m ∷ [])))
      | inr old ↦ rw old (omega arith)
    ]

-- Whatever the producer does: every delivered message is counted once, and the topic grows by the accepted
-- ones, apart from those whose produce returned an error.
pub send_loop-Grows :
    {M : Type 0} (id : M → String) (cap : ℕ) (p : Edge M) (n : Counts) (calls : List (M × Outcome))
    → let (p', n') = send_loop (Edge.ingest id cap) p n calls in Grows (length calls) p n p' n'
unfolding send_loop
send_loop-Grows id cap p n [] = omega arith
send_loop-Grows id cap p n ((m, outcome) ∷ calls) =
    let (p', r) = Edge.ingest id cap p m outcome in
    let first = step-Grows id cap p n m outcome in
    let rest = send_loop-Grows id cap p' (count n r) calls in omega arith

edge-send_loop :
    {M : Type 0} (id : M → String) (cap : ℕ) (p : Edge M) (n : Counts) (calls : List (M × Outcome))
    → (send_loop (Edge.ingest id cap) p n calls).0 ≡ (Edge.ingest_all id cap p calls).0
unfolding send_loop Edge.ingest_all
edge-send_loop id cap p n [] = refl
edge-send_loop id cap p n ((m, outcome) ∷ calls) =
    edge-send_loop id cap (Edge.ingest id cap p m outcome).0
      (count n (Edge.ingest id cap p m outcome).1) calls

module _ {M : Type 0} (id : M → String) (cap : ℕ) where
  -- With a broker that acknowledges everything.
  topic-send_loop :
      (before ms : List M) (n : Counts)
      → length (reference String_discrete id [] ms) ≤ cap
      → (send_loop
          (Edge.ingest id cap)
          (record { dedup = Fifo.empty; topic = before })
          n
          (map (λ m. (m, acked)) ms)).0.topic
        ≡ before ++ reference String_discrete id [] ms
  topic-send_loop before ms n few =
      ap (λ (p : Edge M). p.topic)
        (edge-send_loop id cap (record { dedup = Fifo.empty; topic = before }) n
          (map (λ m. (m, acked)) ms))
      ∙ runs.topic-ingest_all_onto id cap before (map (λ m. (m, acked)) ms)
          (omega (arith, runs.length-reference_acked id cap [] ms))
      ∙ ap (λ back. before ++ back) (runs.landed-acked id cap [] ms)

  -- The verdict on what a topic holds besides the reference.
  verdict_onto :
      (before ms back : List M)
      → SameItems back (before ++ ms)
      → equal_id_sets (id_set id back) (id_set id ms) ≡ is_empty before
  verdict_onto [] ms back same =
      (equal_id_sets-SameItems id back ms).1
        (λ p. tally-map id p back ∙ same (λ m. p (id m)) ∙ sym (tally-map id p ms))
  verdict_onto (x ∷ xs) ms back same =
      elim (Bool-cases (equal_id_sets (id_set id back) (id_set id ms))) [
        | inl match ↦ absurd (
            omega (
              arith,
              (equal_id_sets-SameItems id back ms).0 match (λ i. true),
              same (λ m. true),
              tally-map id (λ i. true) back,
              tally-map id (λ i. true) ms,
              tally-append (λ m. true) xs ms,
            ))
        | inr mismatch ↦ mismatch
      ]

map-first :
    {M : Type 0} (ms : List M) → map (λ (c : M × Outcome). c.0) (map (λ m. (m, acked)) ms) ≡ ms
map-first [] = refl
map-first (m ∷ ms) = ap (◌∷◌ m) (map-first ms)

-- cmd/deliverygen with a broker that acknowledges every webhook, a stream of at most 4,000,000 distinct ids,
-- and a read-back that returns what the topic holds, in any order: it reports a match exactly if the topic
-- held nothing before the run.
pub delivery_gen_matches :
    (before stream back : List DeliveryWebhook)
    (read_back : List DeliveryWebhook → Option (List DeliveryWebhook))
    → length (DeliveryStats.reference_dedup stream) ≤ max_webhook_ids
    → read_back (before ++ DeliveryStats.reference_dedup stream) ≡ some back
    → SameItems back (before ++ DeliveryStats.reference_dedup stream)
    → (delivery_gen before (map (λ w. (w, acked)) stream) read_back).1 ≡ some (is_empty before)
unfolding delivery_gen DeliveryStats.reference_dedup verdict
delivery_gen_matches before stream back read_back few reads same =
    rw
      (
        topic-send_loop webhook_key max_webhook_ids before stream no_counts few,
        reads,
        map-first stream,
      )
      (ap some (
        verdict_onto webhook_key max_webhook_ids before (DeliveryStats.reference_dedup stream) back
          same))

-- cmd/eventgen likewise, with its bound of distinct ids: with a broker that acknowledges every event, and a
-- read-back that returns what the topic holds, in any order, it reports a match exactly if the topic held
-- nothing before the run.
pub event_gen_matches :
    (before stream back : List StorefrontEvent)
    (read_back : List StorefrontEvent → Option (List StorefrontEvent))
    → length (EventIngest.reference_dedup stream) ≤ max_event_ids
    → read_back (before ++ EventIngest.reference_dedup stream) ≡ some back
    → SameItems back (before ++ EventIngest.reference_dedup stream)
    → (event_gen before (map (λ e. (e, acked)) stream) read_back).1 ≡ some (is_empty before)
unfolding event_gen EventIngest.reference_dedup verdict
event_gen_matches before stream back read_back few reads same =
    rw
      (topic-send_loop event_key max_event_ids before stream no_counts few, reads, map-first stream)
      (ap some (
        verdict_onto event_key max_event_ids before (EventIngest.reference_dedup stream) back same))
