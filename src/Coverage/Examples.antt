-- ===== src/Coverage/Examples.antt =====
-- The verdict on the coverage of two files.
use text.Mathlib.Text.{◌==◌ as str_eq}
use rstest.Prelude.{◌≡◌, ◌&&◌, true, String, List, [], ◌∷◌, none, some}
use rstest.Coverage.Thresholds.{
  Threshold, at_least, max_uncovered, ThresholdKey, Summary, Limits, CoverageThresholds,
  check_thresholds,
}
use rstest.Coverage.Thresholds.Verdict.{all, meets_all, glob_holds, check_thresholds_lem}

abbrev files : List String
files = "src/a.ts" ∷ "src/b.ts" ∷ []

abbrev summary_of : List String → Summary
summary_of paths key = record { total = 100; covered = 80; pct = 8000 }

abbrev on_lines : Threshold → Limits
on_lines t ThresholdKey.lines = some t
on_lines t _ = none

abbrev thresholds : CoverageThresholds
thresholds = record {
  global_limits = on_lines (at_least 7500);
  globs = record { glob = "src/a.ts"; limits = on_lines (max_uncovered 10); per_file = true } ∷ [];
}

check_thresholds_lem_example : check_thresholds str_eq summary_of files (some thresholds) ≡ (
    meets_all thresholds.global_limits (summary_of files)
    && all (glob_holds str_eq summary_of files) thresholds.globs)
check_thresholds_lem_example = check_thresholds_lem str_eq summary_of files thresholds
