-- ===== src/Coverage/Thresholds.antt =====
-- packages/core/src/coverage/checkThresholds.ts: whether the coverage of a run is enough.
--
-- `matches` is the matcher of the library `picomatch` on the path from the root, `summary_of` the
-- summary that the coverage map gives of a list of files. Percentages are in hundredths; a
-- negative threshold is `max_uncovered`.
pub mod Verdict
use rstest.Prelude.{
  ℕ, ◌-◌, ◌==◌, ltb, ◌≡◌, refl, ◌∙◌, ap, Bool, true, false, not, ◌&&◌, ◌||◌, if◌then◌else◌, String,
  List, [], ◌∷◌, ◌++◌, Option, none, some, keep, any, map, length, arith, length-append, Bool-cases,
  inl, inr,
}

pub data Threshold : Type 0 where
  at_least max_uncovered : ℕ → Threshold

pub record Totals : Type 0 where
  pub total : ℕ
  pub covered : ℕ
  pub pct : ℕ

-- The four keys, in the order of `THRESHOLD_KEYS`.
pub data ThresholdKey : Type 0 where
  lines functions statements branches : ThresholdKey

abbrev pub threshold_keys : List ThresholdKey
threshold_keys = lines ∷ functions ∷ statements ∷ branches ∷ []

abbrev pub Summary : Type 0
Summary = ThresholdKey → Totals

abbrev pub Limits : Type 0
Limits = ThresholdKey → Option Threshold

pub record GlobThreshold : Type 0 where
  pub glob : String
  pub limits : Limits
  pub per_file : Bool

-- `none` is the key of the thresholds themselves, `global`.
pub record CoverageThresholds : Type 0 where
  pub global_limits : Limits
  pub globs : List GlobThreshold

pub record Group : Type 0 where
  pub name : Option String
  pub group_limits : Limits
  pub group_files : List String
  pub group_per_file : Bool

pub data FailedThreshold : Type 0 where
  not_found : String → FailedThreshold
  exceeds : ThresholdKey → Option String → ℕ → ℕ → String → FailedThreshold
  below : ThresholdKey → Option String → ℕ → ℕ → String → FailedThreshold

unfoldable pub check :
    ThresholdKey → Option String → Totals → Threshold → String → List FailedThreshold
check key type actual (max_uncovered n) file =
    let uncovered = actual.total - actual.covered in
    if ltb n uncovered then exceeds key type uncovered n file ∷ [] else []
check key type actual (at_least pct) file =
    if ltb actual.pct pct then below key type actual.pct pct file ∷ [] else []

unfoldable pub check_limit :
    ThresholdKey → Option String → Totals → Option Threshold → String → List FailedThreshold
unfolding check
check_limit key type actual none file = []
check_limit key type actual (some t) file = check key type actual t file

-- The loop over the keys, for one summary of a group.
unfoldable pub check_keys : List ThresholdKey → Group → Summary → String → List FailedThreshold
unfolding check_limit
check_keys [] g s file = []
check_keys (key ∷ keys) g s file =
    check_limit key g.name (s key) (g.group_limits key) file ++ check_keys keys g s file

module _ (matches : String → String → Bool) (summary_of : List String → Summary) where
  unfoldable pub check_files : Group → List String → List FailedThreshold
  unfolding check_keys
  check_files g [] = []
  check_files g (file ∷ files) =
      check_keys threshold_keys g (summary_of (file ∷ [])) file ++ check_files g files

  unfoldable pub check_group : Group → List FailedThreshold
  unfolding check_files
  check_group g =
      if g.group_per_file
      then check_files g g.group_files
      else check_keys threshold_keys g (summary_of g.group_files) ""

  unfoldable pub check_groups : List Group → List FailedThreshold
  unfolding check_group
  check_groups [] = []
  check_groups (g ∷ gs) = check_group g ++ check_groups gs

  abbrev pub files_of : List String → GlobThreshold → List String
  files_of files t = keep (matches t.glob) files

  -- The loop over the keys that are globs: what was not found, and the groups.
  unfoldable pub group_globs : List String → List GlobThreshold → List FailedThreshold × List Group
  group_globs files [] = ([], [])
  group_globs files (t ∷ ts) =
      let (failed, groups) = group_globs files ts in
      let matched = files_of files t in
      if length matched == 0 then (not_found t.glob ∷ failed, groups) else (
        failed,
        record {
          name = some t.glob;
          group_limits = t.limits;
          group_files = matched;
          group_per_file = t.per_file;
        }
            ∷ groups,
      )

  abbrev pub global_group : List String → CoverageThresholds → Group
  global_group files thresholds = record {
    name = none;
    group_limits = thresholds.global_limits;
    group_files = files;
    group_per_file = false;
  }

  unfoldable pub failed_thresholds : List String → Option CoverageThresholds → List FailedThreshold
  unfolding group_globs check_groups
  failed_thresholds files none = []
  failed_thresholds files (some thresholds) =
      let (failed, groups) = group_globs files thresholds.globs in
      failed ++ check_groups (global_group files thresholds ∷ groups)

  -- `success` of the result; its message joins the failed thresholds.
  unfoldable pub check_thresholds : List String → Option CoverageThresholds → Bool
  unfolding failed_thresholds
  check_thresholds files thresholds = length (failed_thresholds files thresholds) == 0
