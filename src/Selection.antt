-- ===== src/Selection.antt =====
-- packages/core/src: which test files run, and in which order.
pub mod Shard
pub mod Sequencer
pub mod OnlyFailures
pub mod ResultsCache
pub mod WatchInvalidation
mod Examples
