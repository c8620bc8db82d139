-- ===== src/Selection/Sequencer.antt =====
-- packages/core/src/core/testSequencer.ts: the order in which test files run, and the files that
-- `--onlyFailures` keeps of one project.
--
-- `path_le` is `a.localeCompare(b) <= 0`, and `hint` is `hints.get(getKey(testPath))`.
use mathlib.Core.List.{append-nil, append_assoc}
use rstest.Prelude.{
  ℕ, ltb, ◌≡◌, ◌⊎◌, Bool, true, false, not, ◌||◌, ◌<◌, if◌then◌else◌, String, List, [], ◌∷◌, ◌++◌,
  Option, none, some, map, keep, any, All, count_if, arith, sort_by, count-sort_by, IsSortedBy,
  sort_by-IsSortedBy, is_some,
}

pub record SequenceHint : Type 0 where
  pub duration : Option ℕ
  pub failed : Option Bool

pub record Entry : Type 0 where
  pub test_path : String
  pub size : Option ℕ

abbrev pub empty_hint : SequenceHint
empty_hint = record { duration = none; failed = none }

pub record Decorated : Type 0 where
  pub entry : Entry
  pub hint : SequenceHint

abbrev pub or_empty : Option SequenceHint → SequenceHint
or_empty none = empty_hint
or_empty (some h) = h

abbrev pub is_true : Option Bool → Bool
is_true none = false
is_true (some b) = b

abbrev pub or_zero : Option ℕ → ℕ
or_zero none = 0
or_zero (some n) = n

abbrev pub has_failed : Decorated → Bool
has_failed d = is_true d.hint.failed

abbrev pub is_new : Decorated → Bool
is_new d = not (is_some d.hint.duration)

module _ (path_le : String → String → Bool) where
  -- The tie-break, once the two weights are known: the heavier file goes first.
  unfoldable pub heavier_first : ℕ → ℕ → Decorated → Decorated → Bool
  heavier_first a_weight b_weight a b =
      if ltb b_weight a_weight
      then true
      else if ltb a_weight b_weight
      then false
      else path_le a.entry.test_path b.entry.test_path

  abbrev pub weight : Bool → Decorated → ℕ
  weight true d = or_zero d.entry.size
  weight false d = or_zero d.hint.duration

  -- Files that have no known duration go before those that have one.
  unfoldable pub new_first : Decorated → Decorated → Bool
  new_first a b =
      if is_new a
      then (if is_new b then heavier_first (weight true a) (weight true b) a b else true)
      else (if is_new b then false else heavier_first (weight false a) (weight false b) a b)

  -- Whether the comparison of the two is at most 0: files that failed go first.
  unfoldable pub runs_before : Decorated → Decorated → Bool
  runs_before a b =
      if has_failed a
      then (if has_failed b then new_first a b else true)
      else (if has_failed b then false else new_first a b)

  unfoldable pub sort_decorated : (String → Option SequenceHint) → List Entry → List Decorated
  sort_decorated hint entries =
      sort_by runs_before
        (map (λ e. record { entry = e; hint = or_empty (hint e.test_path) }) entries)

  unfoldable pub sort_test_entries : (String → Option SequenceHint) → List Entry → List Entry
  unfolding sort_decorated
  sort_test_entries hint entries = map (λ d. d.entry) (sort_decorated hint entries)

-- `filterFailedEntries`: the loop, with the failed entries so far and whether a hint was found.
unfoldable pub filter_loop :
    (String → Option SequenceHint) → List Entry → List Entry → Bool → List Entry × Bool
filter_loop hint [] failed covered = (failed, covered)
filter_loop hint (e ∷ es) failed covered = elim (hint e.test_path) [
  | none ↦ filter_loop hint es failed covered
  | some h ↦ filter_loop hint es (if is_true h.failed then failed ++ e ∷ [] else failed) true
]

unfoldable pub filter_failed_entries :
    (String → Option SequenceHint) → List Entry → List Entry × Bool
unfolding filter_loop
filter_failed_entries hint entries =
    let (failed, covered) = filter_loop hint entries [] false in
    (if covered then failed else entries, covered)

-- The entries whose last run failed, and whether any entry has a hint.
abbrev pub failed_before : (String → Option SequenceHint) → Entry → Bool
failed_before hint e = elim (hint e.test_path) [ none ↦ false | some h ↦ is_true h.failed ]

abbrev pub covers : (String → Option SequenceHint) → List Entry → Bool
covers hint entries = any (λ e. is_some (hint e.test_path)) entries

filter_loop_lem :
    (hint : String → Option SequenceHint) (es failed : List Entry) (covered : Bool)
    → filter_loop hint es failed covered
      ≡ (failed ++ keep (failed_before hint) es, covered || covers hint es)
unfolding filter_loop
filter_loop_lem hint [] failed covered = ground (arith, append-nil failed)
filter_loop_lem hint (e ∷ es) failed covered = ground (
  arith,
  filter_loop_lem hint es failed covered,
  filter_loop_lem hint es failed true,
  filter_loop_lem hint es (failed ++ e ∷ []) true,
  append_assoc failed (e ∷ []) (keep (failed_before hint) es),
)

-- `filterFailedEntries` keeps the files that failed last, in their order, if some file of the project
-- has a hint, and all of its files if none has; it says which.
pub filter_failed_entries_lem :
    (hint : String → Option SequenceHint) (entries : List Entry)
    → filter_failed_entries hint entries ≡ (
      if covers hint entries then keep (failed_before hint) entries else entries,
      covers hint entries,
    )
unfolding filter_failed_entries
filter_failed_entries_lem hint entries = ground (arith, filter_loop_lem hint entries [] false)

module _ (path_le : String → String → Bool) where
  -- The documented priorities: failed files, then new ones by size, then known ones by duration,
  -- and the path last.
  abbrev pub Precedes : Decorated → Decorated → Type 0
  Precedes a b =
      ((has_failed a ≡ true) × (has_failed b ≡ false))
      ⊎ ((has_failed a ≡ has_failed b)
          × (((is_new a ≡ true) × (is_new b ≡ false))
              ⊎ ((is_new a ≡ is_new b)
                  × ((weight path_le (is_new a) b < weight path_le (is_new a) a)
                      ⊎ ((weight path_le (is_new a) a ≡ weight path_le (is_new a) b)
                          × (path_le a.entry.test_path b.entry.test_path ≡ true))))))

  abbrev pub Pairwise : List Decorated → Type 0
  Pairwise [] = Unit {0}
  Pairwise (d ∷ ds) = All (Precedes d) ds × Pairwise ds

  runs_before-Precedes : (a b : Decorated) → runs_before path_le a b ≡ true → Precedes a b
  unfolding runs_before new_first heavier_first
  runs_before-Precedes a b h = ground arith

  All-Precedes :
      (a : Decorated) (ds : List Decorated)
      → All (λ d. runs_before path_le a d ≡ true) ds
      → All (Precedes a) ds
  All-Precedes a [] h = tt
  All-Precedes a (d ∷ ds) h = (runs_before-Precedes a d h.0, All-Precedes a ds h.1)

  sorted-Pairwise : (ds : List Decorated) → IsSortedBy (runs_before path_le) ds → Pairwise ds
  sorted-Pairwise [] h = tt
  sorted-Pairwise (d ∷ ds) h = (All-Precedes d ds h.0, sorted-Pairwise ds h.1)

  module _ (total : (a b : String) → (path_le a b ≡ true) ⊎ (path_le b a ≡ true))
      (trans : (a b c : String)
        → path_le a b ≡ true
        → path_le b c ≡ true
        → path_le a c ≡ true) where
    runs_before-total :
        (a b : Decorated) → (runs_before path_le a b ≡ true) ⊎ (runs_before path_le b a ≡ true)
    unfolding runs_before new_first heavier_first
    runs_before-total a b = ground (arith, total a.entry.test_path b.entry.test_path)

    heavier_first_trans :
        (x y z : ℕ) (a b c : Decorated)
        → heavier_first path_le x y a b ≡ true
        → heavier_first path_le y z b c ≡ true
        → heavier_first path_le x z a c ≡ true
    unfolding heavier_first
    heavier_first_trans x y z a b c h k =
        ground (arith, trans a.entry.test_path b.entry.test_path c.entry.test_path)

    new_first_trans :
        (a b c : Decorated)
        → new_first path_le a b ≡ true
        → new_first path_le b c ≡ true
        → new_first path_le a c ≡ true
    unfolding new_first
    new_first_trans a b c h k =
        let w = weight path_le in
        ground (
          arith,
          heavier_first_trans (w true a) (w true b) (w true c) a b c,
          heavier_first_trans (w false a) (w false b) (w false c) a b c,
        )

    runs_before_trans :
        (a b c : Decorated)
        → runs_before path_le a b ≡ true
        → runs_before path_le b c ≡ true
        → runs_before path_le a c ≡ true
    unfolding runs_before
    runs_before_trans a b c h k = ground (arith, new_first_trans a b c)

    -- If the order of the paths is total and transitive, every file of the result precedes each later
    -- one by the documented priorities, and the result has the same files as the input, as often.
    pub sort_decorated-Pairwise :
        (hint : String → Option SequenceHint) (entries : List Entry) (p : Decorated → Bool)
        → Pairwise (sort_decorated path_le hint entries)
          × (count_if p (sort_decorated path_le hint entries)
              ≡ count_if p
                  (map (λ e. record { entry = e; hint = or_empty (hint e.test_path) }) entries))
    unfolding sort_decorated
    sort_decorated-Pairwise hint entries p =
        let ds : List Decorated =
          map (λ e. record { entry = e; hint = or_empty (hint e.test_path) }) entries in
        (
          sorted-Pairwise _
              (sort_by-IsSortedBy (runs_before path_le) runs_before-total runs_before_trans ds),
          count-sort_by (runs_before path_le) p ds,
        )
