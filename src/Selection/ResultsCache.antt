-- ===== src/Selection/ResultsCache.antt =====
-- packages/core/src/core/resultsCache.ts: what is remembered of each test file between runs.
--
-- A key `project\0path` is a pair, and the table of files keeps the order of insertion. Times and
-- durations are whole milliseconds; the weights 0.7 and 0.3 are tenths. `relative` is the path
-- from the root, as the library `pathe` gives it.
pub mod Lookup
use text.Mathlib.Text.{◌==◌ as str_eq}
use text.Mathlib.TextEquality.{eq_iff}
use rstest.Prelude.{
  ℕ, ◌+◌, ◌-◌, ◌*◌, ◌/◌, ◌==◌, ltb, ◌≡◌, ◌⊎◌, ◌≤◌, inl, inr, refl, sym, ◌∙◌, Bool, true, false, not,
  ◌&&◌, ◌||◌, if◌then◌else◌, String, List, [], ◌∷◌, ◌++◌, Option, none, some, keep, any, map,
  count_if, arith, Bool-cases, subst, ap,
}
use rstest.Pool.Runner.State.{Status, pass, fail, skip, todo}

abbrev pub cache_version : ℕ
cache_version = 1

abbrev pub max_entry_age_ms : ℕ
max_entry_age_ms = 30 * 24 * 60 * 60 * 1000

pub record CachedFileResult : Type 0 where
  pub duration : Option ℕ
  pub failed : Bool
  pub updated_at : ℕ

pub record Key : Type 0 where
  pub key_project : String
  pub rel_path : String

pub record FileResult : Type 0 where
  pub project : String
  pub test_path : String
  pub status : Status
  pub result_duration : Option ℕ

abbrev pub Files : Type 0
Files = List (Key × CachedFileResult)

pub record ResultsCacheData : Type 0 where
  pub version : ℕ
  pub files : Files

abbrev pub same_key : Key → Key → Bool
same_key k l = str_eq k.key_project l.key_project && str_eq k.rel_path l.rel_path

abbrev pub has_key : Key → Key × CachedFileResult → Bool
has_key k x = same_key x.0 k

-- A file that does not parse, or has another version, is no cache.
unfoldable pub read_results_cache : Option ResultsCacheData → Option ResultsCacheData
read_results_cache none = none
read_results_cache (some d) = if d.version == cache_version then some d else none

abbrev pub lookup : Key → Files → Option CachedFileResult
lookup k [] = none
lookup k (x ∷ xs) = if has_key k x then some x.1 else lookup k xs

-- `files[key] = entry`
unfoldable pub set_entry : Key → CachedFileResult → Files → Files
set_entry k e [] = (k, e) ∷ []
set_entry k e (x ∷ xs) = if has_key k x then (x.0, e) ∷ xs else x ∷ set_entry k e xs

-- `Math.round(sample * 0.7 + previous * 0.3)`
unfoldable pub smooth : ℕ → ℕ → ℕ
smooth sample previous = (7 * sample + 3 * previous + 5) / 10

abbrev pub is_fail : Status → Bool
is_fail fail = true
is_fail _ = false

abbrev pub is_pass_fail : Status → Bool
is_pass_fail pass = true
is_pass_fail s = is_fail s

abbrev pub duration_of : Option CachedFileResult → Option ℕ
duration_of none = none
duration_of (some e) = e.duration

abbrev pub sampled : ℕ → Option ℕ → ℕ
unfolding smooth
sampled sample none = sample
sampled sample (some previous) = smooth sample previous

unfoldable pub next_duration : FileResult → Option ℕ → Option ℕ
next_duration result previous = elim result.result_duration [
  | none ↦ previous
  | some sample ↦ if is_pass_fail result.status then some (sampled sample previous) else previous
]

unfoldable pub next_entry : ℕ → FileResult → Option CachedFileResult → CachedFileResult
unfolding next_duration
next_entry now result previous = record {
  duration = next_duration result (duration_of previous);
  failed = is_fail result.status;
  updated_at = now;
}

abbrev pub known_files : Option ResultsCacheData → Files
known_files none = []
known_files (some d) = d.files

module _ (relative : String → String) where
  abbrev pub sequence_key : String → String → Key
  sequence_key project path = record { key_project = project; rel_path = relative path }

  abbrev pub key_of : FileResult → Key
  key_of result = sequence_key result.project result.test_path

  unfoldable pub merge_results : ℕ → List FileResult → Files → Files
  unfolding next_entry set_entry
  merge_results now [] files = files
  merge_results now (r ∷ rs) files =
      let k = key_of r in
      merge_results now rs (set_entry k (next_entry now r (lookup k files)) files)

  -- Whether the sweep of the table deletes an entry.
  abbrev pub is_dropped : ℕ → List String → Key × CachedFileResult → Bool
  is_dropped now deleted x =
      any (λ path. str_eq (relative path) x.0.rel_path) deleted
      || ltb max_entry_age_ms (now - x.1.updated_at)

  unfoldable pub prune : ℕ → List String → Files → Files
  prune now deleted files = keep (λ x. not (is_dropped now deleted x)) files

  -- The table that `writeResultsCache` persists, from what is on disk.
  unfoldable pub write_results_cache :
      ℕ → Option ResultsCacheData → List FileResult → List String → ResultsCacheData
  unfolding read_results_cache merge_results prune
  write_results_cache now on_disk results deleted = record {
    version = cache_version;
    files =
        prune now deleted (merge_results now results (known_files (read_results_cache on_disk)));
  }
