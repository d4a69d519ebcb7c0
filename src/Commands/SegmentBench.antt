-- ===== src/Commands/SegmentBench.antt =====
-- cmd/segmentbench/main.go: the consumer that gives each event of the topic to the event log, in batches, and
-- to the engine.
pub mod Laws
pub mod Compare
pub mod Agree
use device_telemetry_gateway.Common.{
  ℕ, ◌+◌, leb, if◌then◌else◌, Bool, true, false, List, [], ◌∷◌, ◌++◌, length,
}
use device_telemetry_gateway.Proto.{StorefrontEvent}
use device_telemetry_gateway.Segment.Floats.{Floats}
use device_telemetry_gateway.Segment.Definitions.{Segment}
use device_telemetry_gateway.Segment.Redis.{Redis, ExecFault}
use device_telemetry_gateway.Segment.Incremental.{Faults, apply_event}
use device_telemetry_gateway.Segment.Recompute.{ChRow, Posted, insert_batch}

abbrev pub ch_batch_size : ℕ
ch_batch_size = 500

module _ (redis : Redis) (floats : Floats) (segments : List (Segment floats.Float)) where
  -- What the consumer changes: Redis, the event log, the batch and the count.
  pub record Bench : Type 0 where
    pub store : redis.Store
    pub log : List ChRow
    pub ch_batch : List StorefrontEvent
    pub consumed : ℕ

  -- What one round of the loop receives: an event, with what becomes of a flush and of the call of the engine,
  -- or a tick of the timer, with what becomes of its flush.
  pub data Received : Type 0 where
    event : StorefrontEvent → Posted → ExecFault → Faults redis floats segments → Received
    tick : Posted → Received

  -- `flushCH`; an error of the insert is only logged.
  unfoldable pub flush_ch : Bench → Posted → Bench
  unfolding insert_batch
  flush_ch b posted =
      let (log', ok) = insert_batch b.log b.ch_batch posted in
      record b { log = log'; ch_batch = [] }

  -- The batch grows, and is sent if it is full.
  pub buffer : Bench → StorefrontEvent → Posted → Bench
  unfolding flush_ch
  buffer b e posted =
      let b' = record b { ch_batch = b.ch_batch ++ (e ∷ []) } in
      if leb ch_batch_size (length b'.ch_batch) then flush_ch b' posted else b'

  -- One round; an error of the engine is only logged too.
  unfoldable pub consume : Bench → Received → Bench
  unfolding buffer apply_event
  consume b (tick posted) = flush_ch b posted
  consume b (event e posted fault faults) =
      let b' = buffer b e posted in
      record b' {
        store = (apply_event redis floats segments b.store e fault faults).0;
        consumed = b.consumed + 1;
      }

  -- The loop, to the flush at its end.
  unfoldable pub consume_all : Bench → List Received → Posted → Bench
  unfolding consume
  consume_all b [] posted = flush_ch b posted
  consume_all b (r ∷ rs) posted = consume_all (consume b r) rs posted
