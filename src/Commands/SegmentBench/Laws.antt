-- ===== src/Commands/SegmentBench/Laws.antt =====
-- The event log and the engine of cmd/segmentbench see the same events.
use device_telemetry_gateway.Common.{
  ◌+◌, leb, ◌≡◌, refl, sym, ap, ◌∙◌, Bool-cases, inl, inr, List, [], ◌∷◌, ◌++◌, none, map,
  map-append, append_assoc, append-nil, length, arith,
}
use device_telemetry_gateway.Proto.{StorefrontEvent}
use device_telemetry_gateway.Segment.Floats.{Floats}
use device_telemetry_gateway.Segment.Definitions.{Segment}
use device_telemetry_gateway.Segment.Redis.{Redis}
use device_telemetry_gateway.Segment.Incremental.Membership.{no_faults}
use device_telemetry_gateway.Segment.Incremental.Applied.{apply_all}
use device_telemetry_gateway.Segment.Recompute.{ChRow, ch_row, accepted, insert_batch}
use device_telemetry_gateway.Commands.SegmentBench.{
  Bench, Received, event, tick, flush_ch, buffer, consume, consume_all, ch_batch_size,
}

module _ (redis : Redis) (floats : Floats) (segments : List (Segment floats.Float)) where
  -- An event, or a tick, that meets no fault.
  pub data Arrival : Type 0 where
    arrives : StorefrontEvent → Arrival
    ticks : Arrival

  abbrev pub sound : Arrival → Received redis floats segments
  sound (arrives e) = event e accepted none no_faults
  sound ticks = tick accepted

  abbrev pub events_of : List Arrival → List StorefrontEvent
  events_of [] = []
  events_of (arrives e ∷ as_) = e ∷ events_of as_
  events_of (ticks ∷ as_) = events_of as_

  -- Everything the log has or will have.
  abbrev pending : Bench redis floats segments → List ChRow
  pending b = b.log ++ map ch_row b.ch_batch

  insert_batch-accepted :
      (log : List ChRow) (batch : List StorefrontEvent)
      → (insert_batch log batch accepted).0 ≡ log ++ map ch_row batch
  unfolding insert_batch
  insert_batch-accepted log [] = sym (append-nil log)
  insert_batch-accepted log (e ∷ es) = refl

  flush_ch-log :
      (b : Bench redis floats segments)
      → (flush_ch redis floats segments b accepted).log ≡ pending b
  unfolding flush_ch
  flush_ch-log b = insert_batch-accepted b.log b.ch_batch

  pending-flush_ch :
      (b : Bench redis floats segments)
      → pending (flush_ch redis floats segments b accepted) ≡ pending b
  unfolding flush_ch
  pending-flush_ch b = append-nil _ ∙ insert_batch-accepted b.log b.ch_batch

  pending-buffer :
      (b : Bench redis floats segments) (e : StorefrontEvent)
      → pending (buffer redis floats segments b e accepted) ≡ pending b ++ (ch_row e ∷ [])
  unfolding buffer
  pending-buffer b e =
      let b' = record b { ch_batch = b.ch_batch ++ (e ∷ []) } in
      let grown : pending b' ≡ pending b ++ (ch_row e ∷ []) =
        ap (λ rs. b.log ++ rs) (map-append ch_row b.ch_batch (e ∷ []))
        ∙ sym (append_assoc b.log (map ch_row b.ch_batch) (ch_row e ∷ [])) in
      elim (Bool-cases (leb ch_batch_size (length b'.ch_batch))) [
        | inl full ↦ rw full (pending-flush_ch b' ∙ grown)
        | inr room ↦ rw room grown
      ]

  pending-consume :
      (b : Bench redis floats segments) (a : Arrival)
      → pending (consume redis floats segments b (sound a))
        ≡ pending b ++ map ch_row (events_of (a ∷ []))
  unfolding consume
  pending-consume b (arrives e) = pending-buffer b e
  pending-consume b ticks = pending-flush_ch b ∙ sym (append-nil (pending b))

  consume_all-log :
      (b : Bench redis floats segments) (as_ : List Arrival)
      → (consume_all redis floats segments b (map sound as_) accepted).log
        ≡ pending b ++ map ch_row (events_of as_)
  unfolding consume_all
  consume_all-log b [] = flush_ch-log b ∙ sym (append-nil (pending b))
  consume_all-log b (a ∷ as_) =
      consume_all-log (consume redis floats segments b (sound a)) as_
      ∙ ap (λ rows. rows ++ map ch_row (events_of as_)) (pending-consume b a)
      ∙ append_assoc (pending b) (map ch_row (events_of (a ∷ []))) (map ch_row (events_of as_))
      ∙ ap (λ rows. pending b ++ rows) (first_event a as_)
    where
      first_event :
          (a : Arrival) (as_ : List Arrival)
          → map ch_row (events_of (a ∷ [])) ++ map ch_row (events_of as_)
            ≡ map ch_row (events_of (a ∷ as_))
      first_event (arrives e) as_ = refl
      first_event ticks as_ = refl

  consume_all-rest :
      (b : Bench redis floats segments) (as_ : List Arrival)
      → let b' = consume_all redis floats segments b (map sound as_) accepted in
        (b'.store ≡ apply_all redis floats segments b.store (events_of as_))
        × (b'.ch_batch ≡ [])
        × (b'.consumed ≡ b.consumed + length (events_of as_))
  unfolding consume_all apply_all
  consume_all-rest b [] = (refl, refl, omega arith)
  consume_all-rest b (arrives e ∷ as_) =
      let (store', batch, count) =
        consume_all-rest (consume redis floats segments b (sound (arrives e))) as_ in
      (store', batch, omega (arith, count))
  consume_all-rest b (ticks ∷ as_) =
      consume_all-rest (consume redis floats segments b (sound ticks)) as_

  -- With no fault, and whatever the ticks of the timer, the consumer ends with the rows of all its events in the
  -- log, in order and after those that were there, with the engine in the state after the same events one by
  -- one, with an empty batch, and with a count of the events.
  pub consume_all-apply_all :
      (b : Bench redis floats segments) (as_ : List Arrival)
      → let b' = consume_all redis floats segments b (map sound as_) accepted in
        (b'.log ≡ b.log ++ map ch_row (b.ch_batch ++ events_of as_))
        × (b'.store ≡ apply_all redis floats segments b.store (events_of as_))
        × (b'.ch_batch ≡ [])
        × (b'.consumed ≡ b.consumed + length (events_of as_))
  consume_all-apply_all b as_ =
      let (store', batch, count) = consume_all-rest b as_ in
      (
        consume_all-log b as_
            ∙ append_assoc b.log (map ch_row b.ch_batch) (map ch_row (events_of as_))
            ∙ ap (λ rows. b.log ++ rows) (sym (map-append ch_row b.ch_batch (events_of as_))),
        store',
        batch,
        count,
      )
