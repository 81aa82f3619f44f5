-- ===== src/Metrics.antt =====
-- oom-watcher/src/metrics.rs: the Prometheus adapter of the recording seam. Its record and its
-- operations are in the children here; the proofs are in the others.
pub mod Key
pub mod Collector
pub mod Evict
pub mod Invariant
pub mod Tracked
pub mod History
pub mod Eviction
pub mod Deletion
pub mod Life
pub mod Concurrent
pub mod Bound
pub mod Order
pub mod Race
pub mod Peak
pub mod Counts
pub mod Drops
pub mod Tally
mod Tests
