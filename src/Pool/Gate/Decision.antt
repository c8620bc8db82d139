-- ===== src/Pool/Gate/Decision.antt =====
-- When the gate of memoryGate.ts lets a worker spawn, with its caches seen through.
use rstest.Prelude.{
  ℕ, ◌-◌, ◌*◌, ◌==◌, ltb, leb, ◌≤◌, ◌≡◌, ◌⊎◌, Bool, true, ◌&&◌, ◌||◌, inl, inr, if◌then◌else◌, List,
  [], ◌∷◌, ◌++◌, Option, none, some, length, length-append, arith, length-drop,
}
use rstest.Pool.Gate.State.{
  Cached, Readings, MemoryGate, new, p90, window_size, WorkerMessage, finished, other,
  handle_worker_message, record_resolve, cached, freemem_cache_ms, meminfo_cache_ms,
  fresh_available, can_spawn_new_worker, attach_poll, dispose, slow_lane, heap_allows, or_p90,
}

abbrev pub IsCacheOf : Option ℕ → List ℕ → Type 0
IsCacheOf cache samples = (cache ≡ none) ⊎ (cache ≡ some (p90 samples))

pub record Coherent (g : MemoryGate) : Type 0 where
  pub rss_cached : IsCacheOf g.rss_p90_cache g.rss_samples
  pub heap_cached : IsCacheOf g.heap_delta_p90_cache g.heap_delta_samples
  pub rss_window : length g.rss_samples ≤ window_size
  pub heap_window : length g.heap_delta_samples ≤ window_size

-- The methods of the gate.
pub data Call : Type 0 where
  worker_message : WorkerMessage → Call
  resolve : Option ℕ → Call
  can_spawn : ℕ → Call
  polls disposes : Call

unfoldable pub run_call : Readings → Call → MemoryGate → MemoryGate
unfolding handle_worker_message record_resolve can_spawn_new_worker slow_lane heap_allows
    attach_poll dispose
run_call r (worker_message m) g = handle_worker_message m g
run_call r (resolve baseline) g = record_resolve r baseline g
run_call r (can_spawn n) g = (can_spawn_new_worker n r g).1
run_call r polls g = attach_poll g
run_call r disposes g = dispose g

unfoldable pub run_calls : List (Readings × Call) → MemoryGate → MemoryGate
unfolding run_call
run_calls [] g = g
run_calls ((r, c) ∷ cs) g = run_calls cs (run_call r c g)

run_call-Coherent :
    (r : Readings) (c : Call) (g : MemoryGate) → Coherent g → Coherent (run_call r c g)
unfolding run_call
run_call-Coherent r (worker_message other) g v = v
run_call-Coherent r (worker_message (finished none)) g v = v
run_call-Coherent r (worker_message (finished (some rss))) g v =
    ground
      (arith, length-append g.rss_samples (rss ∷ []), length-drop 1 (g.rss_samples ++ rss ∷ []))
run_call-Coherent r (resolve none) g v = ground arith
run_call-Coherent r (resolve (some b)) g v = ground (
  arith,
  length-append g.heap_delta_samples ((r.heap_used - b) ∷ []),
  length-drop 1 (g.heap_delta_samples ++ (r.heap_used - b) ∷ []),
)
run_call-Coherent r (can_spawn n) g v = ground arith
run_call-Coherent r polls g v = ground arith
run_call-Coherent r disposes g v = ground arith

new-Coherent : Coherent new
unfolding new
new-Coherent = ground arith

pub run_calls-Coherent :
    (cs : List (Readings × Call)) (g : MemoryGate) → Coherent g → Coherent (run_calls cs g)
unfolding run_calls
run_calls-Coherent [] g v = v
run_calls-Coherent ((r, c) ∷ cs) g v =
    run_calls-Coherent cs (run_call r c g) (run_call-Coherent r c g v)

-- What the gate reads: the cached value until it expires.
abbrev pub seen : ℕ → ℕ → Option Cached → ℕ
seen now fresh none = fresh
seen now fresh (some c) = if ltb now c.expires_at then c.value else fresh

abbrev heap_rule : Readings → MemoryGate → Bool
heap_rule r g =
    (length g.heap_delta_samples == 0)
    || leb (3 * p90 g.heap_delta_samples) (2 * seen r.now r.heap_headroom g.heap_headroom_cache)

heap_allows-rule :
    (r : Readings) (g : MemoryGate)
    → IsCacheOf g.heap_delta_p90_cache g.heap_delta_samples
    → (heap_allows r g).0 ≡ heap_rule r g
unfolding heap_allows
heap_allows-rule r g (inl h) = ground arith
heap_allows-rule r g (inr h) = ground arith

abbrev slow_rule : ℕ → Readings → MemoryGate → Bool
slow_rule est r g =
    leb est (seen r.now (fresh_available r r.mem_available) g.mem_info_cache) && heap_rule r g

slow_lane-rule :
    (est : ℕ) (r : Readings) (g : MemoryGate)
    → IsCacheOf g.heap_delta_p90_cache g.heap_delta_samples
    → (slow_lane est r g).0 ≡ slow_rule est r g
unfolding slow_lane
slow_lane-rule est r g h =
    let later = λ (c : Cached).
      heap_allows-rule r (record g { heap_tracking_enabled = true; mem_info_cache = some c }) h in
    ground (
      arith,
      later (cached r.now meminfo_cache_ms (fresh_available r r.mem_available) g.mem_info_cache),
    )

-- The rule, on the windows of samples and on what the gate reads.
abbrev pub allows : ℕ → Readings → MemoryGate → Bool
allows active r g =
    (active == 0)
    || (length g.rss_samples == 0)
    || leb (3 * p90 g.rss_samples) (seen r.now r.freemem g.freemem_cache)
    || slow_rule (p90 g.rss_samples) r g

est_rss : (g : MemoryGate) → Coherent g → or_p90 g.rss_p90_cache g.rss_samples ≡ p90 g.rss_samples
est_rss g v = ground arith

decides :
    (n : ℕ) (r : Readings) (g : MemoryGate)
    → Coherent g
    → (can_spawn_new_worker n r g).0 ≡ allows n r g
unfolding can_spawn_new_worker
decides n r g v =
    let est = or_p90 g.rss_p90_cache g.rss_samples in
    ground (
      arith,
      est_rss g v,
      slow_lane-rule est r
          (record g {
            rss_p90_cache = some est;
            freemem_cache = some (cached r.now freemem_cache_ms r.freemem g.freemem_cache);
          })
          v.heap_cached,
    )

-- After any calls of its methods, both windows hold at most 32 samples, and the gate decides by the
-- rule: it always lets the first worker spawn, and any worker before the first sample; then it asks for
-- three times the 90% quantile of the workers' sizes in free memory, or else for that quantile in
-- available memory and, once there are heap samples, for one and a half times their quantile of heap.
pub run-decides :
    (cs : List (Readings × Call)) (n : ℕ) (r : Readings)
    → let g = run_calls cs new in
      ((can_spawn_new_worker n r g).0 ≡ allows n r g)
      × (length g.rss_samples ≤ window_size)
      × (length g.heap_delta_samples ≤ window_size)
run-decides cs n r =
    let v = run_calls-Coherent cs new new-Coherent in
    (decides n r (run_calls cs new) v, v.rss_window, v.heap_window)
