-- ===== src/Pool/Gate/Examples.antt =====
-- Decisions of the gate of memoryGate.ts.
use rstest.Prelude.{ℕ, ◌≡◌, ◌≤◌, List, [], ◌∷◌, some, length}
use rstest.Pool.Gate.State.{finished, Readings, new, p90, window_size, can_spawn_new_worker}
use rstest.Pool.Gate.Quantile.{IsQuantile, p90-IsQuantile}
use rstest.Pool.Gate.Decision.{
  Call, worker_message, resolve, can_spawn, polls, run_calls, allows, run-decides,
}

abbrev at_time : ℕ → ℕ → Readings
at_time now freemem = record {
  now = now;
  freemem = freemem;
  mem_available = some 2;
  heap_headroom = 900;
  heap_used = 500;
}

abbrev calls : List (Readings × Call)
calls =
    (at_time 0 5000, worker_message (finished (some 700)))
    ∷ (at_time 10 5000, worker_message (finished (some 900)))
    ∷ (at_time 20 1000, can_spawn 1)
    ∷ (at_time 30 1000, resolve (some 100))
    ∷ (at_time 40 1000, polls)
    ∷ []

p90-IsQuantile_example : IsQuantile (5 ∷ 9 ∷ 2 ∷ 7 ∷ []) (p90 (5 ∷ 9 ∷ 2 ∷ 7 ∷ []))
p90-IsQuantile_example = p90-IsQuantile 5 (9 ∷ 2 ∷ 7 ∷ [])

run-decides_example :
    let g = run_calls calls new in
    ((can_spawn_new_worker 2 (at_time 2000 1500) g).0 ≡ allows 2 (at_time 2000 1500) g)
    × (length g.rss_samples ≤ window_size)
    × (length g.heap_delta_samples ≤ window_size)
run-decides_example = run-decides calls 2 (at_time 2000 1500)
