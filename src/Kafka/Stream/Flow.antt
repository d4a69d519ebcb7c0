-- ===== src/Kafka/Stream/Flow.antt =====
-- No message of a stream is lost or made up while the context lasts.
use device_telemetry_gateway.Common.{
  ◌+◌, ◌≤◌, ◌≡◌, refl, ap, ◌∙◌, Bool, true, false, List, [], ◌∷◌, ◌++◌, none, length, length-append,
  tally, tally-append, SameItems, arith,
}
use device_telemetry_gateway.Common.Int.{ℤ}
use device_telemetry_gateway.Proto.{Codec}
use device_telemetry_gateway.Ingest.Spool.{keep}
use device_telemetry_gateway.Kafka.Stream.{
  Record, Reader, Stream, channel_capacity, new_stream, read_message, Step, read, fail, send,
  give_up, receive, cancel, Reach, here, next,
}

module _ {A : Type 0} (codec : Codec A) where
  -- The messages that decode, of the records that a reader has not returned, with that in its hand first.
  abbrev pub decoded_records : List Record → List A
  decoded_records [] = []
  decoded_records (m ∷ ms) = keep (codec.unmarshal m.value) (decoded_records ms)

  abbrev pub to_come : List (Reader A) → List A
  to_come [] = []
  to_come (r ∷ rs) = keep r.hand (decoded_records r.ahead) ++ to_come rs

  -- Every message of the stream, wherever it is.
  abbrev pub everything : Stream A → List A
  everything s = s.received ++ (s.channel ++ (s.dropped ++ to_come s.readers))

  abbrev pub of_partitions : List (List Record) → List A
  of_partitions [] = []
  of_partitions (p ∷ ps) = decoded_records p ++ of_partitions ps

  tally-to_come :
      (p : A → Bool) (front : List (Reader A)) (r : Reader A) (back : List (Reader A))
      → tally p (to_come (front ++ (r ∷ back)))
        ≡ tally p (to_come front)
          + tally p (keep r.hand (decoded_records r.ahead))
          + tally p (to_come back)
  tally-to_come p [] r back =
      omega (arith, tally-append p (keep r.hand (decoded_records r.ahead)) (to_come back))
  tally-to_come p (f ∷ front) r back = omega (
    arith,
    tally-append p (keep f.hand (decoded_records f.ahead)) (to_come (front ++ (r ∷ back))),
    tally-append p (keep f.hand (decoded_records f.ahead)) (to_come front),
    tally-to_come p front r back,
  )

  tally-everything :
      (p : A → Bool) (s : Stream A)
      → tally p (everything s)
        ≡ tally p s.received + tally p s.channel + tally p s.dropped + tally p (to_come s.readers)
  tally-everything p s = omega (
    arith,
    tally-append p s.received (s.channel ++ (s.dropped ++ to_come s.readers)),
    tally-append p s.channel (s.dropped ++ to_come s.readers),
    tally-append p s.dropped (to_come s.readers),
  )

  -- Replacing one reader.
  replace_reader :
      (p : A → Bool) (front : List (Reader A)) (r r' : Reader A) (back readers : List (Reader A))
      → readers ≡ front ++ (r ∷ back)
      → tally p (to_come (front ++ (r' ∷ back))) + tally p (keep r.hand (decoded_records r.ahead))
        ≡ tally p (to_come readers) + tally p (keep r'.hand (decoded_records r'.ahead))
  replace_reader p front r r' back readers e = omega (
    arith,
    tally-to_come p front r back,
    tally-to_come p front r' back,
    ap (λ rs. tally p (to_come rs)) e,
  )

  -- A step moves messages and keeps them.
  Step-everything :
      {s t : Stream A}
      → Step codec s t
      → (p : A → Bool) → tally p (everything t) ≡ tally p (everything s)
  unfolding read_message
  Step-everything {s} {t} (read front back r m ms at running free more) p =
      let kept : keep r.hand (decoded_records r.ahead)
          ≡ keep (codec.unmarshal m.value) (decoded_records ms) =
        rw (free, more) in
      omega (
        arith,
        tally-everything p s,
        tally-everything p t,
        ap (tally p) kept,
        replace_reader p front r (read_message codec r m ms) back s.readers at,
      )
  Step-everything {s} {t} (fail front back r at running free) p = omega (
    arith,
    tally-everything p s,
    tally-everything p t,
    replace_reader p front r (record r { stopped = true }) back s.readers at,
  )
  Step-everything {s} {t} (send front back r a at running held room) p =
      let moved : keep r.hand (decoded_records r.ahead) ≡ a ∷ decoded_records r.ahead = rw held in
      omega (
        arith,
        tally-everything p s,
        tally-everything p t,
        ap (tally p) moved,
        tally-append p s.channel (a ∷ []),
        replace_reader p front r (record r { hand = none }) back s.readers at,
      )
  Step-everything {s} {t} (give_up front back r a at running held over) p =
      let moved : keep r.hand (decoded_records r.ahead) ≡ a ∷ decoded_records r.ahead = rw held in
      omega (
        arith,
        tally-everything p s,
        tally-everything p t,
        ap (tally p) moved,
        replace_reader p front r (record r { hand = none; stopped = true }) back s.readers at,
      )
  Step-everything {s} {t} (receive a rest first) p = omega (
    arith,
    tally-everything p s,
    tally-everything p t,
    ap (tally p) first,
    tally-append p s.received (a ∷ []),
  )
  Step-everything {s} {t} cancel p = refl

  Reach-everything :
      {s t : Stream A}
      → Reach codec s t
      → (p : A → Bool) → tally p (everything t) ≡ tally p (everything s)
  Reach-everything here p = refl
  Reach-everything (next before step) p = Step-everything step p ∙ Reach-everything before p

  -- Bounds that hold at the start and are kept: the channel, and that only a cancelled stream drops.
  abbrev IsBounded : Stream A → Type 0
  IsBounded s = (length s.channel ≤ channel_capacity) × (s.cancelled ≡ false → s.dropped ≡ [])

  Step-IsBounded : {s t : Stream A} → Step codec s t → IsBounded s → IsBounded t
  Step-IsBounded (read front back r m ms at running free more) b = b
  Step-IsBounded (fail front back r at running free) b = b
  Step-IsBounded {s} (send front back r a at running held room) b =
      (omega (arith, length-append s.channel (a ∷ [])), b.1)
  Step-IsBounded (give_up front back r a at running held over) b = (b.0, λ on. cc)
  Step-IsBounded {s} (receive a rest first) b = (omega (arith, b.0, ap length first), b.1)
  Step-IsBounded cancel b = (b.0, λ on. cc)

  Reach-IsBounded : {s t : Stream A} → Reach codec s t → IsBounded s → IsBounded t
  Reach-IsBounded here b = b
  Reach-IsBounded (next before step) b = Step-IsBounded step (Reach-IsBounded before b)

  to_come-new :
      (first_offset : ℤ) (ps : List (List Record))
      → to_come (new_stream first_offset ps).readers ≡ of_partitions ps
  unfolding new_stream
  to_come-new first_offset [] = refl
  to_come-new first_offset (p ∷ ps) =
      ap (λ rest. decoded_records p ++ rest) (to_come-new first_offset ps)

  -- In every state that a stream over the given partitions can reach: the channel holds at most 4096
  -- messages; what the consumer has received, what waits in the channel, what the goroutines hold or have
  -- still to read and what they dropped make up the decodable messages of the partitions, each as often;
  -- and nothing is dropped unless the context was cancelled.
  pub stream-Conserved :
      (first_offset : ℤ) (ps : List (List Record)) {s : Stream A}
      → Reach codec (new_stream first_offset ps) s
      → (length s.channel ≤ channel_capacity)
        × SameItems (everything s) (of_partitions ps)
        × (s.cancelled ≡ false → s.dropped ≡ [])
  unfolding new_stream
  stream-Conserved first_offset ps r =
      let b = Reach-IsBounded r (omega arith, λ on. refl) in
      (b.0, λ p. Reach-everything r p ∙ ap (tally p) (to_come-new first_offset ps), b.1)
