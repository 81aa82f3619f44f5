-- ===== src/Metrics/Tracked.antt =====
-- oom-watcher/src/metrics.rs: the bookkeeping invariant of the collector. `last_seen` names
-- exactly the per-container series that a scrape shows, so nothing leaks and nothing is lost.
pub mod Record
pub mod Sweep
