-- ===== src/Ingest.antt =====
-- internal/ingest: the telemetry path. A reading is deduplicated on (device_id, sequence), handed to
-- Kafka, and spilled to a disk spool when Kafka cannot take it.
pub mod Dedup
pub mod Spool
pub mod Pipeline
