-- ===== src/Browser/WatchPlanner/Cycle.antt =====
-- What a cycle of watchRerunPlanner.ts runs again, and that a committed cycle settles.
use text.Mathlib.Text.{◌==◌ as str_eq}
use text.Mathlib.TextEquality.{eq_iff}
use rstest.Prelude.{
  ◌≡◌, ◌≤◌, refl, ap, sym, ◌∙◌, inl, inr, Bool, true, false, not, ◌&&◌, ◌||◌, String, List, [], ◌∷◌,
  ◌++◌, Option, none, some, keep, map, length, count_if, arith, Bool-cases,
}
use rstest.Browser.WatchPlanner.{
  TestFileInfo, ProjectEntry, FileSetUpdate, no_affected_files, Decision, rerun, idle, WatchState,
  serialize_test_files, same_texts, member, dedupe, paths_of, collect_test_paths,
  collect_deleted_test_paths, normalize_test_files, entry_files, collect_watch_test_files,
  is_changed, plan_changed, matched, plan_unchanged, plan_watch_rerun, commit_watch_file_set_update,
}

abbrev pub rerun_paths : Decision → List String
rerun_paths (rerun paths message) = paths
rerun_paths _ = []

abbrev pub deleted_paths : Option FileSetUpdate → List String
deleted_paths none = []
deleted_paths (some update) = update.deleted_test_paths

str_eq-subst : (p : String → Bool) (s t : String) → str_eq s t ≡ true → p s ≡ p t
str_eq-subst p s t h = ap p ((eq_iff s t).0 h)

member-keep :
    (path : String) (p : String → Bool) (paths : List String)
    → member path (keep p paths) ≡ (member path paths && p path)
member-keep path p [] = refl
member-keep path p (q ∷ qs) = ground (arith, member-keep path p qs, str_eq-subst p q path)

str_eq_sym : (s t : String) → str_eq s t ≡ true → str_eq t s ≡ true
str_eq_sym s t h = (eq_iff t s).1 (sym ((eq_iff s t).0 h))

str_eq_trans : (s t u : String) → str_eq s t ≡ true → str_eq u t ≡ true → str_eq s u ≡ true
str_eq_trans s t u h k = (eq_iff s u).1 ((eq_iff s t).0 h ∙ sym ((eq_iff u t).0 k))

member-dedupe :
    (path : String) (paths : List String) → member path (dedupe paths) ≡ member path paths
unfolding dedupe
member-dedupe path [] = refl
member-dedupe path (q ∷ qs) = ground (
  arith,
  member-keep path (λ s. not (str_eq s q)) (dedupe qs),
  member-dedupe path qs,
  str_eq_sym path q,
)

count-keep_other :
    (path q : String) (paths : List String)
    → count_if (λ p. str_eq p path) (keep (λ s. not (str_eq s q)) paths)
      ≤ count_if (λ p. str_eq p path) paths
count-keep_other path q [] = ground arith
count-keep_other path q (p ∷ ps) = ground (arith, count-keep_other path q ps)

count-keep_self :
    (path q : String) (paths : List String)
    → str_eq q path ≡ true
    → count_if (λ p. str_eq p path) (keep (λ s. not (str_eq s q)) paths) ≡ 0
count-keep_self path q [] h = refl
count-keep_self path q (p ∷ ps) h = ground (arith, count-keep_self path q ps, str_eq_trans p path q)

count-dedupe :
    (path : String) (paths : List String) → count_if (λ p. str_eq p path) (dedupe paths) ≤ 1
unfolding dedupe
count-dedupe path [] = ground arith
count-dedupe path (q ∷ qs) = ground (
  arith,
  count-dedupe path qs,
  count-keep_other path q (dedupe qs),
  count-keep_self path q (dedupe qs),
)

paths-matched :
    (hits : String → Bool) (files : List TestFileInfo)
    → paths_of (keep (λ f. hits f.test_path) files) ≡ keep hits (paths_of files)
paths-matched hits [] = refl
paths-matched hits (f ∷ fs) = ground (arith, paths-matched hits fs)

length_zero :
    (path : String) (files : List TestFileInfo)
    → length files ≡ 0
    → member path (paths_of files) ≡ false
length_zero path [] h = refl
length_zero path (f ∷ fs) h = absurd (omega (arith, h))

member-collect :
    (path : String) (files : List TestFileInfo)
    → member path (collect_test_paths files) ≡ member path (paths_of files)
unfolding collect_test_paths
member-collect path files = member-dedupe path (paths_of files)

module _ (normalize : String → String) where
  member-matched :
      (path : String) (current : List TestFileInfo) (affected : List String)
      → member path (paths_of (matched normalize current affected))
        ≡ (member path (paths_of current) && member path (map normalize affected))
  member-matched path current affected =
      let hits = λ (p : String). member p (map normalize affected) in
      ap (member path) (paths-matched hits current) ∙ member-keep path hits (paths_of current)

  unchanged-reruns :
      (path : String) (current : List TestFileInfo) (affected : List String)
      → member path (rerun_paths (plan_unchanged normalize current affected).decision)
        ≡ (member path (paths_of current) && member path (map normalize affected))
  unfolding plan_unchanged
  unchanged-reruns path current affected =
      let files = matched normalize current affected in
      ground (
        arith,
        member-collect path files,
        length_zero path files,
        member-matched path current affected,
      )

  changed-reruns :
      (path : String) (current previous : List TestFileInfo)
      → member path (rerun_paths (plan_changed normalize current previous).decision)
        ≡ member path (paths_of current)
  unfolding plan_changed
  changed-reruns path current previous =
      ground (arith, member-collect path current, length_zero path current)

  changed-deletes :
      (path : String) (current previous : List TestFileInfo)
      → member path (deleted_paths (plan_changed normalize current previous).file_set_update) ≡ (
          member path (paths_of (normalize_test_files normalize previous))
          && not (member path (paths_of current)))
  unfolding plan_changed collect_deleted_test_paths
  changed-deletes path current previous =
      member-keep path (λ p. not (member p (paths_of current)))
        (paths_of (normalize_test_files normalize previous))

  once_each :
      (path : String) (files : List TestFileInfo)
      → count_if (λ p. str_eq p path) (collect_test_paths files) ≤ 1
  unfolding collect_test_paths
  once_each path files = count-dedupe path (paths_of files)

  rerun-once :
      (path : String) (current previous : List TestFileInfo) (affected : List String)
      → (count_if
            (λ p. str_eq p path)
            (rerun_paths (plan_changed normalize current previous).decision)
          ≤ 1)
        × (count_if
              (λ p. str_eq p path)
              (rerun_paths (plan_unchanged normalize current affected).decision)
            ≤ 1)
  unfolding plan_changed plan_unchanged
  rerun-once path current previous affected =
      ground (arith, once_each path current, once_each path (matched normalize current affected))

  no_deletion :
      (path : String) (current : List TestFileInfo) (affected : List String)
      → member path (deleted_paths (plan_unchanged normalize current affected).file_set_update)
        ≡ false
  unfolding plan_unchanged
  no_deletion path current affected = refl

  -- A path is run again just when it is a current test file and either the file set has changed or the
  -- path is affected, and then it is listed once; a path is deleted just when the set has changed and
  -- it was in the previous set but is not in the current one.
  pub plan_watch_rerun_lem :
      (path : String) (entries : List ProjectEntry) (previous : List TestFileInfo)
      (affected : List String)
      → let current = collect_watch_test_files normalize entries in
        let changed = is_changed normalize current previous in
        let plan = plan_watch_rerun normalize entries previous affected in
        (member path (rerun_paths plan.decision)
          ≡ (member path (paths_of current) && (changed || member path (map normalize affected))))
        × (count_if (λ p. str_eq p path) (rerun_paths plan.decision) ≤ 1)
        × (member path (deleted_paths plan.file_set_update) ≡ (
            changed
            && (member path (paths_of (normalize_test_files normalize previous))
                && not (member path (paths_of current)))))
  unfolding plan_watch_rerun
  plan_watch_rerun_lem path entries previous affected =
      let current = collect_watch_test_files normalize entries in
      elim (Bool-cases (is_changed normalize current previous)) [
        | inl changed ↦ rw changed (
            ground (
              arith,
              changed-reruns path current previous,
              rerun-once path current previous affected,
              changed-deletes path current previous,
            ))
        | inr unchanged ↦ rw unchanged (
            ground (
              arith,
              unchanged-reruns path current affected,
              rerun-once path current previous affected,
              no_deletion path current affected,
            ))
      ]

same_texts_refl : (ts : List String) → same_texts ts ts ≡ true
unfolding same_texts
same_texts_refl [] = refl
same_texts_refl (t ∷ ts) = ground (arith, same_texts_refl ts, eq_iff t t)

module _ (normalize : String → String)
    (idem : (p : String) → normalize (normalize p) ≡ normalize p) where
  normalize-entry :
      (name : String) (ps : List String) (rest : List TestFileInfo)
      → normalize_test_files normalize rest ≡ rest
      → normalize_test_files normalize (entry_files normalize name ps ++ rest)
        ≡ entry_files normalize name ps ++ rest
  unfolding normalize_test_files entry_files
  normalize-entry name [] rest h = h
  normalize-entry name (p ∷ ps) rest h = rw (idem p, normalize-entry name ps rest h)

  normalize-collect :
      (entries : List ProjectEntry)
      → normalize_test_files normalize (collect_watch_test_files normalize entries)
        ≡ collect_watch_test_files normalize entries
  unfolding normalize_test_files collect_watch_test_files
  normalize-collect [] = refl
  normalize-collect (entry ∷ entries) =
      normalize-entry entry.name entry.test_files (collect_watch_test_files normalize entries)
        (normalize-collect entries)

  self_unchanged :
      (entries : List ProjectEntry)
      → is_changed normalize
          (collect_watch_test_files normalize entries)
          (collect_watch_test_files normalize entries)
        ≡ false
  unfolding is_changed
  self_unchanged entries =
      let texts = serialize_test_files (collect_watch_test_files normalize entries) in
      rw (normalize-collect entries, same_texts_refl texts)

  commit_unchanged :
      (entries : List ProjectEntry) (affected : List String) (s : WatchState)
      → let plan = plan_watch_rerun normalize entries s.last_test_files affected in
        is_changed normalize
          (collect_watch_test_files normalize entries)
          (commit_watch_file_set_update plan.file_set_update s).last_test_files
        ≡ false
  unfolding plan_watch_rerun plan_changed plan_unchanged commit_watch_file_set_update
  commit_unchanged entries affected s =
      let current = collect_watch_test_files normalize entries in
      elim (Bool-cases (is_changed normalize current s.last_test_files)) [
        | inl changed ↦ rw changed (self_unchanged entries)
        | inr unchanged ↦ rw unchanged unchanged
      ]

  matched_none : (current : List TestFileInfo) → length (matched normalize current []) ≡ 0
  matched_none [] = refl
  matched_none (f ∷ fs) = matched_none fs

  -- If normalising twice is normalising once, then once the plan of a cycle is committed, a cycle with
  -- the same test files and no affected ones finds nothing changed and stays idle.
  pub commit-settles :
      (entries : List ProjectEntry) (affected : List String) (s : WatchState)
      → let plan = plan_watch_rerun normalize entries s.last_test_files affected in
        let s' = commit_watch_file_set_update plan.file_set_update s in
        plan_watch_rerun normalize entries s'.last_test_files []
        ≡ record { file_set_update = none; decision = idle no_affected_files }
  unfolding plan_watch_rerun plan_unchanged
  commit-settles entries affected s =
      rw (commit_unchanged entries affected s)
        (rw (matched_none (collect_watch_test_files normalize entries)))
