-- ===== src/Selection/Examples.antt =====
-- Selections and orders of a few test files.
use Prim.Native.String.{len}
use rstest.Prelude.{
  ℕ, ◌≡◌, refl, ◌≤◌, ◌⊎◌, Bool, true, false, leb, if◌then◌else◌, String, List, [], ◌∷◌, Option,
  none, some, map, length, count_if, arith, sort_by, All, is_some,
}
use rstest.Pool.Runner.State.{pass}
use rstest.Selection.Shard.{get_sharded_files, shards, shard_size, shards-partition}
use rstest.Selection.Sequencer.{
  SequenceHint, Entry, or_empty, has_failed, sort_decorated, Pairwise, sort_decorated-Pairwise,
}
use rstest.Selection.OnlyFailures.{
  Plan, Hints, apply_only_failures_selection, narrow, any_failed, selection_lem,
}
use rstest.Selection.ResultsCache.{
  Key, FileResult, ResultsCacheData, has_key, lookup, read_results_cache, known_files,
  write_results_cache,
}
use rstest.Selection.ResultsCache.Lookup.{history, surviving, lookup-write}
use rstest.Selection.WatchInvalidation.{
  lookup as entry_chunks, Snapshot, InvalidationState, diff_entry_hashes, apply_watch_invalidation,
}
use rstest.Selection.WatchInvalidation.Diff.{IsSnapshot, IsKept, quiet-IsKept}

abbrev shorter : String → String → Bool
shorter a b = leb (len a) (len b)

shorter-total : (a b : String) → (shorter a b ≡ true) ⊎ (shorter b a ≡ true)
shorter-total a b = ground arith

shorter_trans : (a b c : String) → shorter a b ≡ true → shorter b c ≡ true → shorter a c ≡ true
shorter_trans a b c h k = ground arith

abbrev entry : String → Option ℕ → Entry
entry path size = record { test_path = path; size = size }

abbrev entries : List Entry
entries = entry "a.test.ts" (some 10) ∷ entry "bb.test.ts" none ∷ entry "ccc.test.ts" (some 30) ∷ []

abbrev failed_long : String → Option SequenceHint
failed_long path =
    if leb (len path) 9
    then some (record { duration = some 40; failed = some false })
    else some (record { duration = none; failed = some true })

sort_decorated-Pairwise_example :
    Pairwise shorter (sort_decorated shorter failed_long entries)
    × (count_if has_failed (sort_decorated shorter failed_long entries)
        ≡ count_if has_failed
            (map (λ e. record { entry = e; hint = or_empty (failed_long e.test_path) }) entries))
sort_decorated-Pairwise_example =
    sort_decorated-Pairwise shorter shorter-total shorter_trans failed_long entries has_failed

abbrev numbers : List ℕ
numbers = 5 ∷ 3 ∷ 8 ∷ 1 ∷ 3 ∷ []

shards-partition_example :
    (shards leb numbers 2 2 ≡ sort_by leb numbers)
    × (count_if (λ n. leb n 3) (shards leb numbers 2 2) ≡ count_if (λ n. leb n 3) numbers)
    × (length (get_sharded_files leb numbers (record { count = 2; index = 1 }))
        ≤ shard_size (length numbers) 2)
shards-partition_example = shards-partition leb numbers 2 (omega arith) (λ n. leb n 3) 0

abbrev hints : Hints
hints project path = failed_long path

abbrev plans : List Plan
plans =
    record { name = "web"; final_entries = entries }
    ∷ record { name = "node"; final_entries = entry "d.test.ts" none ∷ [] }
    ∷ []

selection_lem_example :
    (apply_only_failures_selection true hints plans).0
    ≡ (if any_failed hints plans then map (narrow hints) plans else plans)
selection_lem_example = selection_lem hints plans

abbrev key : Key
key = record { key_project = "web"; rel_path = "a.test.ts" }

abbrev on_disk : Option ResultsCacheData
on_disk = some (record {
  version = 1;
  files = (key, record { duration = some 200; failed = true; updated_at = 5 }) ∷ [];
})

abbrev results : List FileResult
results =
    record { project = "web"; test_path = "a.test.ts"; status = pass; result_duration = some 100 }
    ∷ []

on_disk-once : count_if (has_key key) (known_files (read_results_cache on_disk)) ≤ 1
unfolding read_results_cache
on_disk-once = omega arith

abbrev same_path : String → String
same_path path = path

lookup-write_example :
    lookup key (write_results_cache same_path 1000 on_disk results ("b.test.ts" ∷ [])).files
    ≡ surviving same_path 1000
        ("b.test.ts" ∷ [])
        key
        (history same_path 1000 key results (lookup key (known_files (read_results_cache on_disk))))
lookup-write_example =
    lookup-write same_path key 1000 on_disk results ("b.test.ts" ∷ []) on_disk-once

abbrev compiled : Snapshot
compiled =
    ("a.test.ts", ("main", "h1") ∷ ("lazy", "h2") ∷ []) ∷ ("b.test.ts", ("main", "h3") ∷ []) ∷ []

abbrev setup_compiled : Snapshot
setup_compiled = ("setup.ts", ("main", "h4") ∷ []) ∷ []

compiled-IsSnapshot : IsSnapshot compiled × IsSnapshot setup_compiled
compiled-IsSnapshot =
    (((refl, (refl, tt)), ((refl, (refl, tt)), ((refl, tt), tt))), ((refl, tt), ((refl, tt), tt)))

abbrev first_compile : InvalidationState
first_compile = record { entry_hashes = none; setup_hashes = none }

nothing_reported :
    (apply_watch_invalidation compiled
      (some setup_compiled)
      (record { entry_hashes = some compiled; setup_hashes = some setup_compiled })).0
    ≡ record { rerun_all = false; affected_paths = []; deleted_paths = [] }
unfolding apply_watch_invalidation diff_entry_hashes
nothing_reported = refl

quiet-IsKept_example :
    (All (IsKept compiled) compiled
      × All (λ e. is_some (entry_chunks e.0 compiled) ≡ true) compiled)
    × (All (IsKept setup_compiled) setup_compiled
        × All (λ e. is_some (entry_chunks e.0 setup_compiled) ≡ true) setup_compiled)
quiet-IsKept_example = quiet-IsKept compiled compiled setup_compiled setup_compiled nothing_reported
