-- ===== src/Pool/Gate/State.antt =====
-- The fields and methods of `MemoryGate` in memoryGate.ts.
--
-- What the clock and the system answer during a call is a `Readings`. Sizes are bytes; the factor
-- 1.5 on heap samples is 3 / 2, and 0.9 is 9 / 10, exact at the window's lengths.
use rstest.Prelude.{
  ℕ, ◌+◌, ◌-◌, ◌*◌, ◌/◌, ◌==◌, ltb, leb, Bool, true, false, not, if◌then◌else◌, List, [], ◌∷◌, ◌++◌,
  Option, none, some, length, drop, get_elem?,
}

abbrev pub window_size : ℕ
window_size = 32

abbrev pub fast_lane_factor : ℕ
fast_lane_factor = 3

abbrev pub freemem_cache_ms : ℕ
freemem_cache_ms = 1000

abbrev pub meminfo_cache_ms : ℕ
meminfo_cache_ms = 250

pub record Cached : Type 0 where
  pub value : ℕ
  pub expires_at : ℕ

-- `mem_available` is the number of kB that the line of /proc/meminfo gives, where there is one.
pub record Readings : Type 0 where
  pub now : ℕ
  pub freemem : ℕ
  pub mem_available : Option ℕ
  pub heap_headroom : ℕ
  pub heap_used : ℕ

pub record MemoryGate : Type 0 where
  pub rss_samples : List ℕ
  pub heap_delta_samples : List ℕ
  pub heap_tracking_enabled : Bool
  pub freemem_cache : Option Cached
  pub mem_info_cache : Option Cached
  pub rss_p90_cache : Option ℕ
  pub heap_delta_p90_cache : Option ℕ
  pub heap_headroom_cache : Option Cached
  pub poll_timer : Bool

unfoldable pub new : MemoryGate
new = record {
  rss_samples = [];
  heap_delta_samples = [];
  heap_tracking_enabled = false;
  freemem_cache = none;
  mem_info_cache = none;
  rss_p90_cache = none;
  heap_delta_p90_cache = none;
  heap_headroom_cache = none;
  poll_timer = false;
}

-- `sort((a, b) => a - b)`
unfoldable pub insert : ℕ → List ℕ → List ℕ
insert a [] = a ∷ []
insert a (x ∷ xs) = if leb a x then a ∷ x ∷ xs else x ∷ insert a xs

unfoldable pub sort : List ℕ → List ℕ
unfolding insert
sort [] = []
sort (x ∷ xs) = insert x (sort xs)

-- The index `min(length - 1, floor(0.9 * length))`.
abbrev pub quantile_index : ℕ → ℕ
quantile_index n = if ltb (n - 1) (9 * n / 10) then n - 1 else 9 * n / 10

abbrev pub or_zero : Option ℕ → ℕ
or_zero none = 0
or_zero (some n) = n

unfoldable pub p90 : List ℕ → ℕ
unfolding sort
p90 [] = 0
p90 (x ∷ xs) = or_zero (get_elem? (sort (x ∷ xs)) (quantile_index (length (sort (x ∷ xs)))))

unfoldable pub push_sample : List ℕ → ℕ → List ℕ
push_sample samples value =
    let pushed = samples ++ value ∷ [] in
    if ltb window_size (length pushed) then drop 1 pushed else pushed

unfoldable pub record_worker_rss : ℕ → MemoryGate → MemoryGate
unfolding push_sample
record_worker_rss rss g =
    if rss == 0
    then g
    else record g { rss_samples = push_sample g.rss_samples rss; rss_p90_cache = none }

-- What a message of a worker says: a finished task may report the worker's resident memory.
pub data WorkerMessage : Type 0 where
  finished : Option ℕ → WorkerMessage
  other : WorkerMessage

-- The listener that `attachWorker` installs.
unfoldable pub handle_worker_message : WorkerMessage → MemoryGate → MemoryGate
unfolding record_worker_rss
handle_worker_message (finished (some rss)) g = record_worker_rss rss g
handle_worker_message _ g = g

unfoldable pub record_dispatch : Readings → MemoryGate → Option ℕ
record_dispatch now g = if g.heap_tracking_enabled then some now.heap_used else none

push_delta : Readings → Option ℕ → MemoryGate → MemoryGate
unfolding push_sample
push_delta now none g = g
push_delta now (some baseline) g = record g {
  heap_delta_samples = push_sample g.heap_delta_samples (now.heap_used - baseline);
  heap_delta_p90_cache = none;
}

unfoldable pub record_resolve : Readings → Option ℕ → MemoryGate → MemoryGate
unfolding push_delta
record_resolve now baseline g = if g.heap_tracking_enabled then push_delta now baseline g else g

-- A cached value that has not expired, or a fresh one with its cache entry.
unfoldable pub cached : ℕ → ℕ → ℕ → Option Cached → Cached
cached now ttl fresh none = record { value = fresh; expires_at = now + ttl }
cached now ttl fresh (some c) =
    if ltb now c.expires_at then c else record { value = fresh; expires_at = now + ttl }

unfoldable pub cached_freemem : Readings → MemoryGate → ℕ × MemoryGate
unfolding cached
cached_freemem r g =
    let c = cached r.now freemem_cache_ms r.freemem g.freemem_cache in
    (c.value, record g { freemem_cache = some c })

unfoldable pub cached_heap_headroom : Readings → MemoryGate → ℕ × MemoryGate
unfolding cached
cached_heap_headroom r g =
    let c = cached r.now meminfo_cache_ms r.heap_headroom g.heap_headroom_cache in
    (c.value, record g { heap_headroom_cache = some c })

abbrev pub fresh_available : Readings → Option ℕ → ℕ
fresh_available r none = r.freemem
fresh_available r (some kb) = kb * 1024

unfoldable pub accurate_available_memory : Readings → MemoryGate → ℕ × MemoryGate
unfolding cached
accurate_available_memory r g =
    let c = cached r.now meminfo_cache_ms (fresh_available r r.mem_available) g.mem_info_cache in
    (c.value, record g { mem_info_cache = some c })

-- `cache ??= p90(samples)`
abbrev pub or_p90 : Option ℕ → List ℕ → ℕ
or_p90 none samples = p90 samples
or_p90 (some v) samples = v

-- The last test of the slow lane, on the host's heap.
unfoldable pub heap_allows : Readings → MemoryGate → Bool × MemoryGate
unfolding cached_heap_headroom
heap_allows r g =
    if ltb 0 (length g.heap_delta_samples)
    then (let (headroom, g') = cached_heap_headroom r g in
        let delta = or_p90 g'.heap_delta_p90_cache g'.heap_delta_samples in
        (not (ltb (2 * headroom) (3 * delta)), record g' { heap_delta_p90_cache = some delta }))
    else (true, g)

unfoldable pub slow_lane : ℕ → Readings → MemoryGate → Bool × MemoryGate
unfolding accurate_available_memory
slow_lane est_rss r g =
    let (available, g') = accurate_available_memory r (record g { heap_tracking_enabled = true }) in
    if ltb available est_rss then (false, g') else heap_allows r g'

unfoldable pub can_spawn_new_worker : ℕ → Readings → MemoryGate → Bool × MemoryGate
unfolding cached_freemem
can_spawn_new_worker active_count r g =
    if active_count == 0
    then (true, g)
    else (if length g.rss_samples == 0
        then (true, g)
        else (let est_rss = or_p90 g.rss_p90_cache g.rss_samples in
            let (freemem, g') = cached_freemem r (record g { rss_p90_cache = some est_rss }) in
            if leb (est_rss * fast_lane_factor) freemem
            then (true, g')
            else slow_lane est_rss r g'))

-- `attachPoll` and `dispose`
unfoldable pub attach_poll : MemoryGate → MemoryGate
attach_poll g = record g { poll_timer = true }

unfoldable pub dispose : MemoryGate → MemoryGate
dispose g = record g { poll_timer = false }

pub data WorkerKind : Type 0 where
  forks threads : WorkerKind

-- The gate applies to forked workers alone.
unfoldable pub select_memory_gate : WorkerKind → Option MemoryGate → Option MemoryGate
select_memory_gate forks gate = gate
select_memory_gate threads gate = none
