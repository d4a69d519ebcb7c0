-- ===== src/Commands.antt =====
-- The commands under cmd: benchmarks and load generators that drive the packages.
pub mod DedupBench
pub mod Lag
pub mod Scale
pub mod SegmentBench
