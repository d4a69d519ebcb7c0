-- ===== src/Ingest/Pipeline.antt =====
-- internal/ingest/pipeline.go: one call of `Ingest`, one drain, and the step system of concurrent
-- connections and drain goroutines.
pub mod Branches
pub mod Conserve
pub mod Drain
pub mod Exact
use device_telemetry_gateway.Common.{
  ℕ, ◌≡◌, Bool, true, false, if◌then◌else◌, List, [], ◌∷◌, ◌++◌, Option, none, some,
}
use device_telemetry_gateway.Proto.{Reading, Codec}
use device_telemetry_gateway.Kafka.{Outcome, acked, refused, unacked}
use device_telemetry_gateway.Ingest.Dedup
use device_telemetry_gateway.Ingest.Dedup.{Dedup, new_dedup}
use device_telemetry_gateway.Ingest.Spool
use device_telemetry_gateway.Ingest.Spool.{
  Spool, Result, ok, err, WriteFault, DrainFault, no_fault, new_spool,
}

-- `topic` is what has landed in Kafka through this producer.
pub record Pipeline : Type 0 where
  pub dedup : Dedup
  pub spool : Spool
  pub topic : List Reading

module _ (codec : Codec Reading) where
  spill : Pipeline → Reading → WriteFault → Pipeline × Result (Unit {0})
  spill p r fault =
      let (spool', result) = Spool.write codec p.spool r fault in
      (record p { spool = spool' }, result)

  -- Produce, and on an error write to the spool: the tail of `Ingest`, and the body of a drain
  -- goroutine.
  pub offer : Pipeline → Reading → Outcome → WriteFault → Pipeline × Result (Unit {0})
  unfolding spill
  offer p r acked fault = (record p { topic = p.topic ++ (r ∷ []) }, ok tt)
  offer p r refused fault = spill p r fault
  offer p r unacked fault = spill (record p { topic = p.topic ++ (r ∷ []) }) r fault

  -- `Ingest`; the result is its error.
  unfoldable pub ingest : Pipeline → Reading → Outcome → WriteFault → Pipeline × Result (Unit {0})
  ingest p r outcome fault =
      let (dedup', fresh) = Dedup.admit p.dedup r.device_id r.sequence in
      if fresh
      then offer (record p { dedup = dedup' }) r outcome fault
      else (record p { dedup = dedup' }, ok tt)

-- `drainOnce` between two steps of its goroutines: `waiting` are the records that have not been produced
-- again, `failed` those whose `Produce` returned an error and that are not written to the spool yet.
pub record Retries : Type 0 where
  pub pipeline : Pipeline
  pub waiting : List Reading
  pub failed : List Reading

module _ (codec : Codec Reading) where
  retries_of : Pipeline → Result (List Reading) → Retries
  retries_of p (ok records) = record { pipeline = p; waiting = records; failed = [] }
  retries_of p (err e) = record { pipeline = p; waiting = []; failed = [] }

  -- The `Drain` of `drainOnce`; an error of it ends `drainOnce`.
  unfoldable pub start_retries : Pipeline → DrainFault → Retries
  unfolding retries_of
  start_retries p fault =
      let (spool', result) = Spool.drain codec p.spool fault in
      retries_of (record p { spool = spool' }) result

  -- The `Produce` of one goroutine.
  unfoldable pub produce_again : Retries → Reading → Outcome → Retries
  produce_again s r acked = record s {
    pipeline = record s.pipeline { topic = s.pipeline.topic ++ (r ∷ []) };
  }
  produce_again s r refused = record s { failed = r ∷ s.failed }
  produce_again s r unacked = record s {
    pipeline = record s.pipeline { topic = s.pipeline.topic ++ (r ∷ []) };
    failed = r ∷ s.failed;
  }

  -- Its `Write` after an error; an error of the write is only logged.
  unfoldable pub write_back : Retries → Reading → WriteFault → Retries
  write_back s r fault = record s {
    pipeline = record s.pipeline { spool = (Spool.write codec s.pipeline.spool r fault).0 };
  }

  -- One step of any of the goroutines, with what `env` answers for its record. The semaphore, which lets
  -- at most 32 of them run, only excludes some of these orders.
  pub data RetryStep (env : Reading → Outcome × WriteFault) (s t : Retries) : Type 0 where
    produces :
        (before after : List Reading) (r : Reading)
        → s.waiting ≡ before ++ (r ∷ after)
        → t ≡ produce_again (record s { waiting = before ++ after }) r (env r).0
        → RetryStep env s t
    writes :
        (before after : List Reading) (r : Reading)
        → s.failed ≡ before ++ (r ∷ after)
        → t ≡ write_back (record s { failed = before ++ after }) r (env r).1
        → RetryStep env s t

  -- Any number of steps, from a state that has `begun`. `drainOnce` begins with `start_retries`, and returns
  -- when nothing waits and nothing is failed.
  pub data DrainOnce (env : Reading → Outcome × WriteFault) (begun : Retries)
      : Retries → Type 0 where
    drained : DrainOnce env begun begun
    and_then : {s t : Retries} → DrainOnce env begun s → RetryStep env s t → DrainOnce env begun t

-- The gateway between two atomic steps. `in_flight` are the readings that a connection or a drain
-- goroutine holds: past the deduplication or out of the spool, and not yet settled. The last four
-- fields record what has happened.
pub record Gateway : Type 0 where
  pub dedup : Dedup
  pub spool : Spool
  pub in_flight : List Reading
  pub arrived : List Reading
  pub admitted : List Reading
  pub delivered : List Reading
  pub repeated : List Reading
  pub dropped : List Reading

abbrev pub start : Gateway
start = record {
  dedup = new_dedup;
  spool = new_spool [];
  in_flight = [];
  arrived = [];
  admitted = [];
  delivered = [];
  repeated = [];
  dropped = [];
}

module _ (codec : Codec Reading) where
  -- `Admit`, under the lock of the deduplication.
  unfoldable pub arrive : Gateway → Reading → Gateway
  arrive g r =
      let (dedup', fresh) = Dedup.admit g.dedup r.device_id r.sequence in
      let seen = record g { dedup = dedup'; arrived = g.arrived ++ (r ∷ []) } in
      if fresh
      then record seen { in_flight = r ∷ g.in_flight; admitted = g.admitted ++ (r ∷ []) }
      else seen

  hold : Gateway → Spool → Result (List Reading) → Gateway
  hold g spool' (ok records) = record g { spool = spool'; in_flight = records ++ g.in_flight }
  hold g spool' (err e) = record g { spool = spool' }

  -- `Drain`, under the lock of the spool: its records go to the goroutines.
  unfoldable pub start_drain : Gateway → Gateway
  unfolding hold
  start_drain g = let (spool', result) = Spool.drain codec g.spool no_fault in hold g spool' result

  respool : Gateway → Reading → Spool → Result (Unit {0}) → Gateway
  respool g r spool' (ok _) = record g { spool = spool' }
  respool g r spool' (err e) = record g { spool = spool'; dropped = r ∷ g.dropped }

  -- One reading leaves the list of those in flight: delivered, or written to the spool under its lock
  -- on a disk that works. A write that fails drops the reading, with a line in the log.
  unfoldable pub settle : Gateway → Reading → Outcome → Gateway
  unfolding respool
  settle g r acked = record g { delivered = r ∷ g.delivered }
  settle g r refused =
      let (spool', result) = Spool.write codec g.spool r none in respool g r spool' result
  settle g r unacked =
      let (spool', result) = Spool.write codec g.spool r none in
      respool (record g { repeated = r ∷ g.repeated }) r spool' result

  -- The steps of any number of connections and drain goroutines.
  pub data Step (g h : Gateway) : Type 0 where
    arrival : (r : Reading) → h ≡ arrive g r → Step g h
    drain : h ≡ start_drain g → Step g h
    settled :
        (before after : List Reading) (r : Reading) (outcome : Outcome)
        → g.in_flight ≡ before ++ (r ∷ after)
        → h ≡ settle (record g { in_flight = before ++ after }) r outcome
        → Step g h

  pub data Reach : Gateway → Type 0 where
    started : Reach start
    next : {g h : Gateway} → Reach g → Step g h → Reach h
