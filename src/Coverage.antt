-- ===== src/Coverage.antt =====
-- packages/core/src/coverage: the verdict on the coverage of a run.
pub mod Thresholds
mod Examples
