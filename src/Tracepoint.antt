-- ===== src/Tracepoint.antt =====
-- oom-watcher/src/tracepoint.rs: the layout of the trace entry, read off its `format` file and held
-- against the one that the probe decodes.
pub mod Format
pub mod Layout
pub mod Verdict
pub mod Strings
pub mod Declared
pub mod RoundTrip
pub mod Refusal
mod Tests
