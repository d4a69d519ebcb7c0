-- ===== src/Kafka/Stream/Progress.antt =====
-- A stream that goes on can always deliver everything.
use device_telemetry_gateway.Common.{
  ◌≡◌, refl, sym, ap, ◌∙◌, false, List, [], ◌∷◌, ◌++◌, none, some, length, All, append_assoc,
  append-nil, tally, SameItems, Option-cases, inl, inr, arith,
}
use device_telemetry_gateway.Common.Int.{ℤ}
use device_telemetry_gateway.Proto.{Codec}
use device_telemetry_gateway.Ingest.Spool.{keep}
use device_telemetry_gateway.Kafka.Stream.{
  Record, Reader, Stream, new_stream, read_message, Step, read, send, receive, Reach, here, next,
}
use device_telemetry_gateway.Kafka.Stream.Flow.{
  decoded_records, to_come, everything, of_partitions, stream-Conserved,
}

module _ {A : Type 0} (codec : Codec A) where
  Reach-trans : {s t u : Stream A} → Reach codec s t → Reach codec t u → Reach codec s u
  Reach-trans first here = first
  Reach-trans first (next more step) = next (Reach-trans first more) step

  -- From `s` the consumer can get `more`, with an empty channel after it; the readers are then `readers`.
  record Delivers (s : Stream A) (more : List A) (readers : List (Reader A)) : Type 0 where
    last : Stream A
    reach : Reach codec s last
    readers_are : last.readers ≡ readers
    empty : last.channel ≡ []
    got : last.received ≡ s.received ++ more

  Delivers-trans :
      {s : Stream A} {xs ys : List A} {rs qs : List (Reader A)} (first : Delivers s xs rs)
      → Delivers first.last ys qs
      → Delivers s (xs ++ ys) qs
  Delivers-trans {s} {xs} {ys} first second = record {
    last = second.last;
    reach = Reach-trans first.reach second.reach;
    readers_are = second.readers_are;
    empty = second.empty;
    got = second.got ∙ ap (λ l. l ++ ys) first.got ∙ append_assoc s.received xs ys;
  }

  empty_channel :
      (s : Stream A) (channel : List A) → s.channel ≡ channel → Delivers s channel s.readers
  empty_channel s [] e = record {
    last = s;
    reach = here;
    readers_are = refl;
    empty = e;
    got = sym (append-nil s.received);
  }
  empty_channel s (a ∷ rest) e =
      let after =
        empty_channel (record s { channel = rest; received = s.received ++ (a ∷ []) }) rest refl in
      record {
        last = after.last;
        reach = Reach-trans (next here (receive a rest e)) after.reach;
        readers_are = after.readers_are;
        empty = after.empty;
        got = after.got ∙ append_assoc s.received (a ∷ []) rest;
      }

  -- A message in the hand of a goroutine goes through the channel.
  send_one :
      (s : Stream A) (front back : List (Reader A)) (r : Reader A) (a : A)
      → s.readers ≡ front ++ (r ∷ back)
      → s.channel ≡ []
      → r.stopped ≡ false
      → r.hand ≡ some a
      → Delivers s (a ∷ []) (front ++ (record r { hand = none } ∷ back))
  send_one s front back r a at quiet running held =
      let sent = record s {
        readers = front ++ (record r { hand = none } ∷ back);
        channel = s.channel ++ (a ∷ []);
      } in
      record {
        last = record sent { channel = []; received = s.received ++ (a ∷ []) };
        reach =
            next (next here (send front back r a at running held (omega (arith, ap length quiet))))
              (receive a [] (rw quiet));
        readers_are = refl;
        empty = refl;
        got = refl;
      }

  after_step :
      {s t : Stream A} {more : List A} {rs : List (Reader A)}
      → Step codec s t
      → t.received ≡ s.received
      → Delivers t more rs
      → Delivers s more rs
  after_step {more} step same d = record {
    last = d.last;
    reach = Reach-trans (next here step) d.reach;
    readers_are = d.readers_are;
    empty = d.empty;
    got = d.got ∙ ap (λ l. l ++ more) same;
  }

  -- One goroutine, with all others left alone, until it has nothing more to read.
  abbrev Finishes : Stream A → List A → List (Reader A) → List (Reader A) → Type 0
  Finishes s more front back =
      (q : Reader A) × (q.stopped ≡ false) × Delivers s more (front ++ (q ∷ back))

  drain_records :
      (ms : List Record) (s : Stream A) (front back : List (Reader A)) (r : Reader A)
      → s.readers ≡ front ++ (r ∷ back)
      → s.channel ≡ []
      → r.stopped ≡ false
      → r.hand ≡ none
      → r.ahead ≡ ms
      → Finishes s (decoded_records codec ms) front back
  unfolding read_message
  drain_records [] s front back r at quiet running free done = (
    r,
    running,
    record {
      last = s;
      reach = here;
      readers_are = at;
      empty = quiet;
      got = sym (append-nil s.received);
    },
  )
  drain_records (m ∷ ms) s front back r at quiet running free more =
      let r' = read_message codec r m ms in
      let s' = record s { readers = front ++ (r' ∷ back) } in
      let step = read front back r m ms at running free more in
      elim (Option-cases (codec.unmarshal m.value)) [
        | inl bad ↦
            let (q, runs, d) = drain_records ms s' front back r' refl quiet running bad refl in
            (q, runs, rw bad (after_step step refl d))
        | inr (a, good) ↦
            let one = send_one s' front back r' a refl quiet running good in
            let (q, runs, d) =
              drain_records ms one.last front back (record r' { hand = none }) one.readers_are
                one.empty running refl refl in
            (q, runs, rw good (after_step step refl (Delivers-trans one d)))
      ]

  drain_reader :
      (s : Stream A) (front back : List (Reader A)) (r : Reader A)
      → s.readers ≡ front ++ (r ∷ back)
      → s.channel ≡ []
      → r.stopped ≡ false
      → Finishes s (keep r.hand (decoded_records codec r.ahead)) front back
  drain_reader s front back r at quiet running = elim (Option-cases r.hand) [
    | inl free ↦ rw free (drain_records r.ahead s front back r at quiet running free refl)
    | inr (a, held) ↦
        let one = send_one s front back r a at quiet running held in
        let (q, runs, d) =
          drain_records r.ahead one.last front back (record r { hand = none }) one.readers_are
            one.empty running refl refl in
        rw held (q, runs, Delivers-trans one d)
  ]

  abbrev pub Running : List (Reader A) → Type 0
  Running = All (λ r. r.stopped ≡ false)

  drain_all :
      (rest front : List (Reader A)) (s : Stream A)
      → s.readers ≡ front ++ rest
      → s.channel ≡ []
      → Running rest
      → (qs : List (Reader A)) × Delivers s (to_come codec rest) qs
  drain_all [] front s at quiet running = (
    s.readers,
    record {
      last = s;
      reach = here;
      readers_are = refl;
      empty = quiet;
      got = sym (append-nil s.received);
    },
  )
  drain_all (r ∷ rest) front s at quiet running =
      let (q, runs, d) = drain_reader s front rest r at quiet running.0 in
      let (qs, more) =
        drain_all rest (front ++ (q ∷ [])) d.last
          (d.readers_are ∙ sym (append_assoc front (q ∷ []) rest)) d.empty running.1 in
      (qs, Delivers-trans d more)

  -- From every state that a stream can reach in which its context is not cancelled and no goroutine has
  -- returned, the stream can go on so that the consumer has received every decodable message of every
  -- partition, each as often as it stands there.
  pub stream_can_deliver :
      (first_offset : ℤ) (ps : List (List Record)) {s : Stream A}
      → Reach codec (new_stream first_offset ps) s
      → s.cancelled ≡ false
      → Running s.readers
      → (t : Stream A) × Reach codec s t × SameItems t.received (of_partitions codec ps)
  stream_can_deliver first_offset ps {s} r on running =
      let flushed = empty_channel s s.channel refl in
      let (qs, rest) =
        drain_all s.readers [] flushed.last flushed.readers_are flushed.empty running in
      let all = Delivers-trans flushed rest in
      let (bounded, same, undropped) = stream-Conserved codec first_offset ps r in
      (all.last, all.reach, λ p. ap (tally p) (all.got ∙ sym (whole (undropped on))) ∙ same p)
    where
      whole :
          s.dropped ≡ [] → everything codec s ≡ s.received ++ (s.channel ++ to_come codec s.readers)
      whole e = ap (λ d. s.received ++ (s.channel ++ (d ++ to_come codec s.readers))) e
