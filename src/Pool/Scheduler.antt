-- ===== src/Pool/Scheduler.antt =====
-- packages/core/src/pool/pool.ts: the pool of worker runners.
pub mod State
pub mod Acquire
pub mod Step
pub mod Ids
pub mod Slots
pub mod Acquisition
pub mod Release
pub mod Capacity
pub mod Service
pub mod Progress
pub mod Reuse
pub mod Closing
pub mod Stall
mod Examples
