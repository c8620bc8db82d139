-- ===== src/Coverage/Thresholds/Verdict.antt =====
-- The verdict of checkThresholds.ts against what the thresholds promise.
use rstest.Prelude.{
  ◌-◌, ◌==◌, ltb, ◌≡◌, refl, ◌∙◌, Bool, true, false, not, ◌&&◌, String, List, [], ◌∷◌, ◌++◌, Option,
  none, some, keep, length, arith, length-append, Bool-cases, inl, inr,
}
use rstest.Coverage.Thresholds.{
  Threshold, at_least, max_uncovered, Totals, ThresholdKey, threshold_keys, Summary, Limits,
  GlobThreshold, CoverageThresholds, Group, FailedThreshold, check, check_limit, check_keys,
  check_files, check_group, check_groups, group_globs, global_group, failed_thresholds,
  check_thresholds,
}

-- What the thresholds promise: a minimum percentage, or a maximum of uncovered entities.
abbrev pub meets : Option Threshold → Totals → Bool
meets none actual = true
meets (some (at_least pct)) actual = not (ltb actual.pct pct)
meets (some (max_uncovered n)) actual = not (ltb n (actual.total - actual.covered))

abbrev pub all {ℓ} : {A : Type ℓ} → (A → Bool) → List A → Bool
all p [] = true
all p (x ∷ xs) = p x && all p xs

abbrev pub meets_all : Limits → Summary → Bool
meets_all limits s = all (λ key. meets (limits key) (s key)) threshold_keys

check_limit-meets :
    (key : ThresholdKey) (type : Option String) (actual : Totals) (t : Option Threshold)
    (file : String)
    → (length (check_limit key type actual t file) == 0) ≡ meets t actual
unfolding check_limit check
check_limit-meets key type actual none file = refl
check_limit-meets key type actual (some (at_least n)) file = ground arith
check_limit-meets key type actual (some (max_uncovered n)) file = ground arith

none_failed-append :
    (xs ys : List FailedThreshold)
    → (length (xs ++ ys) == 0) ≡ ((length xs == 0) && (length ys == 0))
none_failed-append xs ys = ground (arith, length-append xs ys)

check_keys-meets :
    (keys : List ThresholdKey) (g : Group) (s : Summary) (file : String)
    → (length (check_keys keys g s file) == 0)
      ≡ all (λ key. meets (g.group_limits key) (s key)) keys
unfolding check_keys
check_keys-meets [] g s file = refl
check_keys-meets (key ∷ keys) g s file =
    let limit = g.group_limits key in
    none_failed-append (check_limit key g.name (s key) limit file) (check_keys keys g s file)
    ∙ rw (check_limit-meets key g.name (s key) limit file, check_keys-meets keys g s file)

module _ (matches : String → String → Bool) (summary_of : List String → Summary) where
  check_files-meets :
      (g : Group) (files : List String)
      → (length (check_files matches summary_of g files) == 0)
        ≡ all (λ file. meets_all g.group_limits (summary_of (file ∷ []))) files
  unfolding check_files
  check_files-meets g [] = refl
  check_files-meets g (file ∷ files) =
      none_failed-append (check_keys threshold_keys g (summary_of (file ∷ [])) file)
        (check_files matches summary_of g files)
      ∙ rw (
        check_keys-meets threshold_keys g (summary_of (file ∷ [])) file,
        check_files-meets g files,
      )

  -- What is promised of a list of files: of each of them, or of all together.
  abbrev pub promised : Limits → Bool → List String → Bool
  promised limits true files = all (λ file. meets_all limits (summary_of (file ∷ []))) files
  promised limits false files = meets_all limits (summary_of files)

  check_group-promised :
      (g : Group)
      → (length (check_group matches summary_of g) == 0)
        ≡ promised g.group_limits g.group_per_file g.group_files
  unfolding check_group
  check_group-promised g = elim (Bool-cases g.group_per_file) [
    | inl per_file ↦ rw per_file (check_files-meets g g.group_files)
    | inr together ↦ rw together (check_keys-meets threshold_keys g (summary_of g.group_files) "")
  ]

  check_groups-promised :
      (g : Group) (gs : List Group)
      → (length (check_groups matches summary_of (g ∷ gs)) == 0) ≡ (
          promised g.group_limits g.group_per_file g.group_files
          && (length (check_groups matches summary_of gs) == 0))
  unfolding check_groups
  check_groups-promised g gs =
      none_failed-append (check_group matches summary_of g) (check_groups matches summary_of gs)
      ∙ rw (check_group-promised g)

  check_nothing : (length (check_groups matches summary_of []) == 0) ≡ true
  unfolding check_groups
  check_nothing = refl

  -- A glob matches some file, and what it promises of the files it matches holds.
  abbrev pub glob_holds : List String → GlobThreshold → Bool
  glob_holds files t =
      let matched = keep (matches t.glob) files in
      not (length matched == 0) && promised t.limits t.per_file matched

  globs-hold :
      (files : List String) (ts : List GlobThreshold)
      → let found = group_globs matches summary_of files ts in
        ((length found.0 == 0) && (length (check_groups matches summary_of found.1) == 0))
        ≡ all (glob_holds files) ts
  unfolding group_globs
  globs-hold files [] = check_nothing
  globs-hold files (t ∷ ts) =
      let found = group_globs matches summary_of files ts in
      let matched = keep (matches t.glob) files in
      let g : Group = record {
        name = some t.glob;
        group_limits = t.limits;
        group_files = matched;
        group_per_file = t.per_file;
      } in
      elim (Bool-cases (length matched == 0)) [
        | inl lost ↦ rw lost (ground arith)
        | inr some_found ↦
            rw (some_found, check_groups-promised g found.1) (ground (arith, globs-hold files ts))
      ]

  -- With thresholds, the check succeeds just when the whole coverage meets the global limits and each
  -- glob matches some file and its limits are met: by every file that it matches if they are per file,
  -- and else by those files together.
  pub check_thresholds_lem :
      (files : List String) (thresholds : CoverageThresholds)
      → check_thresholds matches summary_of files (some thresholds) ≡ (
          meets_all thresholds.global_limits (summary_of files)
          && all (glob_holds files) thresholds.globs)
  unfolding check_thresholds failed_thresholds
  check_thresholds_lem files thresholds =
      let found = group_globs matches summary_of files thresholds.globs in
      let g = global_group matches summary_of files thresholds in
      ground (
        arith,
        none_failed-append found.0 (check_groups matches summary_of (g ∷ found.1)),
        check_groups-promised g found.1,
        globs-hold files thresholds.globs,
      )
