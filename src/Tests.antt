-- ===== src/Tests.antt =====
-- The theorems at concrete inputs.
mod Samples
mod Ingest
mod Edges
mod Simulators
mod Traffic
mod Commands
mod Streams
mod Recompute
mod MiniRedis
mod Segments
