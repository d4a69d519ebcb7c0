-- ===== src/Segment.antt =====
-- internal/segment: fifty segments of profiles, kept up to date in Redis event by event and compared with
-- a recomputation from the event log.
pub mod Floats
pub mod Durations
pub mod Definitions
pub mod Diff
pub mod Redis
pub mod ParseInt
pub mod Evaluate
pub mod Incremental
pub mod Recompute
pub mod Hashes
