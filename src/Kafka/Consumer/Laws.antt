-- ===== src/Kafka/Consumer/Laws.antt =====
-- What one pass over a topic returns.
use device_telemetry_gateway.Common.{
  if◌then◌else◌, ℕ, zero, suc, ◌+◌, ◌-◌, ◌<◌, ◌≤◌, ◌≡◌, refl, sym, ap, ◌∙◌, leb, false, List, [],
  ◌∷◌, ◌++◌, some, map, length, take, length-append, All, arith, append_assoc, append-nil,
  Bool-cases, Option-cases, inl, inr,
}
use device_telemetry_gateway.Proto.{Codec}
use device_telemetry_gateway.Ingest.Spool.{keep}
use device_telemetry_gateway.Ingest.Spool.Frames.{decoded}
use device_telemetry_gateway.Kafka.Consumer.{
  BatchRead, Partition, no_fault, add_decoded, add_bytes, batch_loop, read_partition,
  read_offsets_on, append_results, consume_partitions, consume_available,
}

-- A partition with the given messages, from the offset `first` on, whose batch ends after `fetched` of
-- them: a fetch is bounded in bytes. A read of a message that is larger than the buffer reports `filled` bytes.
pub record Stored : Type 0 where
  pub first : ℕ
  pub messages : List (List ℕ)
  pub fetched : ℕ
  pub filled : ℕ

abbrev pub good_read : ℕ → List ℕ → BatchRead
good_read filled b = record { bytes = b; filled = filled; error = false }

abbrev pub serving : Stored → Partition
serving s = record {
  first = s.first;
  last = s.first + length s.messages;
  reads = map (good_read s.filled) (take s.fetched s.messages);
  fault = no_fault;
}

abbrev piece : List ℕ → List (List ℕ)
piece [] = []
piece (b ∷ bs) = (b ∷ bs) ∷ []

-- What a buffer of the given size lets through: the messages up to the first that is larger than it, and of
-- that one what its read reports.
abbrev pub readable : ℕ → ℕ → List (List ℕ) → List (List ℕ)
readable buffer filled [] = []
readable buffer filled (b ∷ bs) =
    let rest = readable buffer filled bs in
    if leb (length b) buffer then b ∷ rest else piece (take filled (take buffer b))

module _ {A : Type 0} (codec : Codec A) where
  -- What the batches hold, as far as the buffer lets it through, decoded.
  abbrev pub fetched_messages : ℕ → List Stored → List A
  fetched_messages buffer [] = []
  fetched_messages buffer (s ∷ ss) =
      decoded codec (readable buffer s.filled (take s.fetched s.messages))
      ++ fetched_messages buffer ss

  add_bytes-keep :
      (out : List A) (b : List ℕ) (rest : List A)
      → 0 < length b
      → (add_bytes codec out b ++ rest ≡ out ++ keep (codec.unmarshal b) rest)
        × (length (add_bytes codec out b) ≤ length out + 1)
  unfolding add_bytes add_decoded
  add_bytes-keep out [] rest h = absurd (omega arith)
  add_bytes-keep out (x ∷ b) rest h = elim (Option-cases (codec.unmarshal (x ∷ b))) [
    | inl bad ↦ rw bad (refl, omega arith)
    | inr (a, good) ↦
        rw good (append_assoc out (a ∷ []) rest, omega (arith, length-append out (a ∷ [])))
  ]

  add_bytes-piece :
      (out : List A) (b : List ℕ) → add_bytes codec out b ≡ out ++ decoded codec (piece b)
  unfolding add_bytes
  add_bytes-piece out [] = sym (append-nil out)
  add_bytes-piece out (x ∷ b) =
      let (same, _) = add_bytes-keep out (x ∷ b) [] (omega arith) in
      sym (append-nil (add_bytes codec out (x ∷ b))) ∙ same

  batch_loop-decoded :
      (buffer filled wanted : ℕ) (out : List A) (bs : List (List ℕ))
      → All (λ b. 0 < length b) bs
      → length out + length bs ≤ wanted
      → batch_loop codec buffer wanted out (map (good_read filled) bs)
        ≡ out ++ decoded codec (readable buffer filled bs)
  unfolding batch_loop
  batch_loop-decoded buffer filled wanted out [] full room = sym (append-nil out)
  batch_loop-decoded buffer filled wanted out (b ∷ []) full room =
      let (same, _) = add_bytes-keep out b [] full.0 in
      elim (Bool-cases (leb (length b) buffer)) [
        | inr large ↦ rw large (add_bytes-piece out (take filled (take buffer b)))
        | inl fits ↦ rw fits (elim (Bool-cases (leb wanted (length (add_bytes codec out b)))) [
          | inl done ↦ rw done (sym (append-nil (add_bytes codec out b)) ∙ same)
          | inr more ↦ rw more (sym (append-nil (add_bytes codec out b)) ∙ same)
        ])
      ]
  batch_loop-decoded buffer filled wanted out (b ∷ c ∷ cs) full room =
      let later = decoded codec (readable buffer filled (c ∷ cs)) in
      let (same, grown) = add_bytes-keep out b later full.0 in
      let more : leb wanted (length (add_bytes codec out b)) ≡ false = ground arith in
      elim (Bool-cases (leb (length b) buffer)) [
        | inr large ↦ rw large (add_bytes-piece out (take filled (take buffer b)))
        | inl fits ↦
            rw (fits, more)
              (batch_loop-decoded buffer filled wanted (add_bytes codec out b) (c ∷ cs) full.1
                  (omega (arith, grown))
                ∙ same)
      ]

  All-take :
      (n : ℕ) (bs : List (List ℕ))
      → All (λ b. 0 < length b) bs
      → All (λ b. 0 < length b) (take n bs)
  All-take zero bs h = tt
  All-take (suc n) [] h = tt
  All-take (suc n) (b ∷ bs) h = (h.0, All-take n bs h.1)

  length-take_le : (n : ℕ) (bs : List (List ℕ)) → length (take n bs) ≤ length bs
  length-take_le zero bs = omega arith
  length-take_le (suc n) [] = omega arith
  length-take_le (suc n) (b ∷ bs) = omega (arith, length-take_le n bs)

  read_partition-serving :
      (buffer : ℕ) (s : Stored)
      → All (λ b. 0 < length b) s.messages
      → read_partition codec buffer (serving s)
        ≡ some (decoded codec (readable buffer s.filled (take s.fetched s.messages)))
  unfolding read_partition read_offsets_on
  read_partition-serving buffer s full =
      elim (Bool-cases (leb (s.first + length s.messages) s.first)) [
        | inl empty ↦
            let none_left : length (take s.fetched s.messages) ≡ 0 =
              ground (arith, length-take_le s.fetched s.messages) in
            rw empty (ap some (nothing (take s.fetched s.messages) none_left))
        | inr some_left ↦ rw some_left (
            ap some (
              batch_loop-decoded buffer s.filled (s.first + length s.messages - s.first) []
                (take s.fetched s.messages) (All-take s.fetched s.messages full)
                (omega (arith, length-take_le s.fetched s.messages))))
      ]
    where
      nothing :
          (bs : List (List ℕ)) → length bs ≡ 0 → [] ≡ decoded codec (readable buffer s.filled bs)
      nothing [] h = refl
      nothing (b ∷ bs) h = absurd (omega arith)

  -- On a broker without a fault, with no empty message, whatever the buffer: the pass returns, partition after
  -- partition, the messages that the batches held, up to the first message larger than the buffer, those that
  -- do not decode skipped. A larger message ends its partition: of it only what its read reports is decoded,
  -- and what follows is lost. A batch that ended before the high watermark shortens the result too, and in
  -- both cases the pass still reports success.
  pub consume_available-fetched :
      (buffer : ℕ) (ss : List Stored)
      → All (λ s. All (λ b. 0 < length b) s.messages) ss
      → consume_available codec buffer (some (map serving ss)) ≡ some (fetched_messages buffer ss)
  unfolding consume_available consume_partitions append_results
  consume_available-fetched buffer [] full = refl
  consume_available-fetched buffer (s ∷ ss) full =
      ap (λ o. append_results codec o (consume_partitions codec buffer (map serving ss)))
        (read_partition-serving buffer s full.0)
      ∙ ap
          (append_results codec
            (some (decoded codec (readable buffer s.filled (take s.fetched s.messages)))))
          (consume_available-fetched buffer ss full.1)
