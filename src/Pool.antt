-- ===== src/Pool.antt =====
-- packages/core/src/pool: the runner of one worker process, and the pool of runners.
pub mod Runner
pub mod Scheduler
pub mod Gate
