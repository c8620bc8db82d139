-- ===== src/Pool/Runner.antt =====
-- packages/core/src/pool/poolRunner.ts, with fileCleanup.ts and protocol.ts for its data.
pub mod State
pub mod Handlers
pub mod Lifecycle
pub mod Step
pub mod Departure
pub mod Invariant
pub mod Settlement
pub mod Wakeups
pub mod Exit
pub mod Graph
mod Examples
