-- ===== src/Lib.antt =====
-- device-telemetry-gateway: three ingestion paths that accept messages at least once and hand each to
-- Kafka once, and what reads them.
--
-- Parts and files (paths from the repository's root):
--   Common        shared types, Boolean tests, lists, sets as lists, association lists, integers.
--   Proto         the messages of proto/*.pb.go as records; protobuf is the parameter Codec.
--   Kafka         internal/kafkaclient: what one call of a producer can do; Consumer, the one-pass
--                 consumers with their buffers and the offsets; Stream, the stream readers as a step system; Producer, the
--                 messages of the producers.
--   Fifo          the bounded set with FIFO eviction that the three dedup.go files implement: a set and
--                 a queue of insertion order. Fifo.admit is the common body of their Admit methods.
--   Ingest        internal/ingest. Dedup: dedup.go and ReferenceDedup of reference.go, one Fifo for
--                 each device. Spool: spool.go, the file as bytes with a position. Pipeline:
--                 pipeline.go, one call of Ingest, one drain in
--                 every order of its goroutines, and the step system of all interleavings
--                 of connections and drain goroutines.
--   Edge          the shape that internal/eventingest and internal/deliverystats share.
--   EventIngest   internal/eventingest with its constant and id.
--   DeliveryStats internal/deliverystats with its constant and id. Store: clickhouse.go, the log and the
--                 rollup as lists of rows, each query by what its SQL says; Store/Dashboard, the dashboard
--                 queries. SimWebhooks: simwebhooks.go.
--   Segment       internal/segment. Definitions: definitions.go. Diff: diff.go. Evaluate: EvaluateProfile
--                 of incremental.go, with ParseInt for strconv.ParseInt and Durations for time.Duration. Incremental: the rest of
--                 incremental.go. Redis and Floats are the interfaces to Redis and to floating point;
--                 Hashes states the two commands on hashes, and what the engine knows of a profile.
--                 Recompute: recompute.go over the table of clickhouse.go, and the engine against it.
--   Repeats       the streams with repeats that the three simulators make, and what a reference
--                 deduplication keeps of them.
--   SimDevice     internal/simdevice: AllUnique; Corpus, BuildReplayCorpus. SimStorefront:
--                 internal/simstorefront, the sort of a profile's events; Corpus, Build.
--   Commands      cmd. DedupBench: deliverygen and eventgen. Lag: the lag and the drain loop of
--                 deliveryburst and segmentbench. Scale: deliveryscale. SegmentBench: the consumer
--                 of segmentbench, and its comparison.
--   WsServer      internal/wsserver: the receive loop of a connection.
--   DeliveryGateway  cmd/deliverygateway: the webhook handler and the batches for ClickHouse.
--   Tests         the theorems at concrete inputs.
--
-- How the state corresponds: a mutex makes every method of the three dedups and of the spool one step,
-- so a value of the model is the state between two calls. A Go map is an association list, a Go map to
-- struct{} a list without repeats. Times are arguments. A broker, a disk and protobuf are outside
-- the repository: what they do to a call is an argument of the operation (Outcome, WriteFault,
-- DrainFault), and protobuf is a record with the two documented facts that what is marshalled reads
-- back and is below 2 GiB.
--
-- Redis is a record with the documented behaviour of its set commands and with one frame law, that a
-- command changes what is under its own key only; Hashes adds that of the two commands on hashes, whose
-- values are decimal texts. The queries on the event log are functions on its rows by what their SQL says;
-- the conversion of a price by ClickHouse is a parameter; a pipeline is a list of commands, and a connection
-- that breaks runs a prefix of it. Prices are values of an abstract type without laws.
--
-- Fuel: the loop of Drain runs on one round more than the file has bytes; a round takes four bytes at
-- least, and a loop that has not ended answers none, which a theorem excludes.
--
-- Not modelled: generated protobuf code, tests, deployment files, the other commands, and the parts that the
-- list of files does not name.
pub mod Common
pub mod Proto
pub mod SimDevice
pub mod SimStorefront
pub mod Repeats
pub mod Commands
pub mod WsServer
pub mod DeliveryGateway
pub mod Segment
pub mod Tests
pub mod Kafka
pub mod Fifo
pub mod Edge
pub mod Ingest
pub mod EventIngest
pub mod DeliveryStats
