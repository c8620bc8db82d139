-- ===== src/Pool/Gate.antt =====
-- packages/core/src/pool/memoryGate.ts: the gate that asks for memory before a worker is spawned.
pub mod State
pub mod Quantile
pub mod Decision
mod Examples
