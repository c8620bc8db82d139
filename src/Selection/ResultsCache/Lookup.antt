-- ===== src/Selection/ResultsCache/Lookup.antt =====
-- What a lookup in the cache gives after a run has been written to it.
use text.Mathlib.TextEquality.{eq_iff}
use rstest.Prelude.{
  ℕ, ◌≡◌, ◌⊎◌, ◌≤◌, inl, inr, refl, sym, ◌∙◌, true, false, if◌then◌else◌, String, List, [], ◌∷◌,
  Option, none, some, count_if, arith, Bool-cases, subst, ap,
}
use rstest.Selection.ResultsCache.{
  CachedFileResult, Key, FileResult, Files, ResultsCacheData, same_key, has_key, read_results_cache,
  lookup, set_entry, smooth, next_entry, known_files, key_of, merge_results, is_dropped, prune,
  write_results_cache,
}

-- The smoothed duration lies between the new sample and the previous one, whichever is larger.
pub smooth-bounds :
    (sample previous : ℕ)
    → ((sample ≤ smooth sample previous) × (smooth sample previous ≤ previous))
      ⊎ ((previous ≤ smooth sample previous) × (smooth sample previous ≤ sample))
unfolding smooth
smooth-bounds sample previous = ground arith

same_key_iff : (k l : Key) → same_key k l ≡ true → k ≡ l
same_key_iff k l h =
    ground (arith, eq_iff k.key_project l.key_project, eq_iff k.rel_path l.rel_path)

same_key_refl : (k : Key) → same_key k k ≡ true
same_key_refl k = ground (arith, eq_iff k.key_project k.key_project, eq_iff k.rel_path k.rel_path)

lookup-set_same :
    (k : Key) (e : CachedFileResult) (files : Files) → lookup k (set_entry k e files) ≡ some e
unfolding set_entry
lookup-set_same k e [] = ground (arith, same_key_refl k)
lookup-set_same k e (x ∷ xs) = ground (arith, lookup-set_same k e xs)

lookup-set_other :
    (k l : Key) (e : CachedFileResult) (files : Files)
    → same_key l k ≡ false
    → lookup k (set_entry l e files) ≡ lookup k files
unfolding set_entry
lookup-set_other k l e [] h = ground arith
lookup-set_other k l e (x ∷ xs) h = ground (arith, lookup-set_other k l e xs h, same_key_iff x.0 l)

count-set_other :
    (k l : Key) (e : CachedFileResult) (files : Files)
    → same_key l k ≡ false
    → count_if (has_key k) (set_entry l e files) ≡ count_if (has_key k) files
unfolding set_entry
count-set_other k l e [] h = ground arith
count-set_other k l e (x ∷ xs) h = ground (arith, count-set_other k l e xs h)

count-set :
    (k l : Key) (e : CachedFileResult) (files : Files)
    → count_if (has_key k) files ≤ 1
    → count_if (has_key k) (set_entry l e files) ≤ 1
unfolding set_entry
count-set k l e [] h = ground arith
count-set k l e (x ∷ xs) h = ground (
  arith,
  count-set k l e xs,
  count-set_other k l e xs,
  same_key_iff x.0 k,
  same_key_iff l k,
  same_key_refl k,
)

module _ (relative : String → String) where
  -- The entry of a key after the results of one run, and after the sweep.
  abbrev pub history : ℕ → Key → List FileResult → Option CachedFileResult → Option CachedFileResult
  history now k [] previous = previous
  history now k (r ∷ rs) previous =
      history now k rs
        (if same_key (key_of relative r) k then some (next_entry now r previous) else previous)

  abbrev pub surviving : ℕ → List String → Key → Option CachedFileResult → Option CachedFileResult
  surviving now deleted k none = none
  surviving now deleted k (some e) = if is_dropped relative now deleted (k, e) then none else some e

  lookup-step :
      (k l : Key) (now : ℕ) (r : FileResult) (files : Files)
      → lookup k (set_entry l (next_entry now r (lookup l files)) files)
        ≡ (if same_key l k then some (next_entry now r (lookup k files)) else lookup k files)
  lookup-step k l now r files = elim (Bool-cases (same_key l k)) [
    | inl same ↦ rw same (
        subst
          (λ m.
            lookup k (set_entry m (next_entry now r (lookup m files)) files)
            ≡ some (next_entry now r (lookup k files)))
          (sym (same_key_iff l k same))
          (lookup-set_same k (next_entry now r (lookup k files)) files))
    | inr other ↦ rw other (lookup-set_other k l (next_entry now r (lookup l files)) files other)
  ]

  lookup-merge :
      (k : Key) (now : ℕ) (rs : List FileResult) (files : Files)
      → lookup k (merge_results relative now rs files) ≡ history now k rs (lookup k files)
  unfolding merge_results
  lookup-merge k now [] files = refl
  lookup-merge k now (r ∷ rs) files =
      let l = key_of relative r in
      lookup-merge k now rs (set_entry l (next_entry now r (lookup l files)) files)
      ∙ rw (lookup-step k l now r files)

  count-merge :
      (k : Key) (now : ℕ) (rs : List FileResult) (files : Files)
      → count_if (has_key k) files ≤ 1
      → count_if (has_key k) (merge_results relative now rs files) ≤ 1
  unfolding merge_results
  count-merge k now [] files h = h
  count-merge k now (r ∷ rs) files h =
      let l = key_of relative r in
      let e = next_entry now r (lookup l files) in
      count-merge k now rs (set_entry l e files) (count-set k l e files h)

  lookup-none : (k : Key) (files : Files) → count_if (has_key k) files ≡ 0 → lookup k files ≡ none
  lookup-none k [] h = refl
  lookup-none k (x ∷ xs) h = ground (arith, lookup-none k xs)

  count-prune-le :
      (k : Key) (now : ℕ) (deleted : List String) (files : Files)
      → count_if (has_key k) (prune relative now deleted files) ≤ count_if (has_key k) files
  unfolding prune
  count-prune-le k now deleted [] = omega arith
  count-prune-le k now deleted (x ∷ xs) = ground (arith, count-prune-le k now deleted xs)

  dropped_at :
      (k : Key) (now : ℕ) (deleted : List String) (x : Key × CachedFileResult)
      → has_key k x ≡ true
      → is_dropped relative now deleted x ≡ is_dropped relative now deleted (k, x.1)
  dropped_at k now deleted x h =
      ap (λ l. is_dropped relative now deleted (l, x.1)) (same_key_iff x.0 k h)

  lookup-prune :
      (k : Key) (now : ℕ) (deleted : List String) (files : Files)
      → count_if (has_key k) files ≤ 1
      → lookup k (prune relative now deleted files) ≡ surviving now deleted k (lookup k files)
  unfolding prune
  lookup-prune k now deleted [] h = refl
  lookup-prune k now deleted (x ∷ xs) h = ground (
    arith,
    lookup-prune k now deleted xs,
    lookup-none k (prune relative now deleted xs),
    count-prune-le k now deleted xs,
    dropped_at k now deleted x,
  )

  -- If the table on disk holds a key at most once, then after a run has been written, the entry of the
  -- key is its old one, updated by the run's results for this key alone in their order, unless its
  -- file was deleted or the entry is older than 30 days: then it is gone.
  pub lookup-write :
      (k : Key) (now : ℕ) (on_disk : Option ResultsCacheData) (results : List FileResult)
      (deleted : List String)
      → count_if (has_key k) (known_files (read_results_cache on_disk)) ≤ 1
      → lookup k (write_results_cache relative now on_disk results deleted).files
        ≡ surviving now deleted k
            (history now k results (lookup k (known_files (read_results_cache on_disk))))
  unfolding write_results_cache
  lookup-write k now on_disk results deleted h =
      let before = known_files (read_results_cache on_disk) in
      lookup-prune k now deleted (merge_results relative now results before)
        (count-merge k now results before h)
      ∙ rw (lookup-merge k now results before)
