-- ===== src/Results.antt =====
-- packages/core/src/core: what the host keeps of the results.
pub mod TestState
mod Examples
