-- ===== src/Runtime.antt =====
-- packages/core/src/runtime/runner: how a worker runs the tests of a file.
pub mod Tree
pub mod Modes
pub mod Attempt
pub mod Concurrency
pub mod Retry
pub mod FileRun
pub mod Fixtures
pub mod FixtureScopes
mod Examples
