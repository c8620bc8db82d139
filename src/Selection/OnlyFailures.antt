-- ===== src/Selection/OnlyFailures.antt =====
-- packages/core/src/core/onlyFailures.ts: the test files of all projects that `--onlyFailures` keeps.
--
-- `hint` is `sequenceHints.get(sequenceKey(project, rootPath, testPath))`.
use rstest.Prelude.{
  ℕ, ◌+◌, ◌-◌, ◌==◌, ltb, ◌≡◌, ◌⊎◌, ◌≤◌, ◌<◌, inl, inr, refl, Bool, true, false, not, ◌&&◌,
  if◌then◌else◌, String, List, [], ◌∷◌, ◌++◌, Option, map, keep, any, length, arith, length-keep-le,
  Bool-cases,
}
use rstest.Selection.Sequencer.{
  SequenceHint, Entry, filter_failed_entries, filter_failed_entries_lem, failed_before, covers,
}

pub record Plan : Type 0 where
  pub name : String
  pub final_entries : List Entry

-- The messages to the log, less their colours.
pub data Notice : Type 0 where
  no_failures : Notice
  uncovered : String → Notice
  narrowed : ℕ → ℕ → ℕ → Notice

abbrev pub Hints : Type 0
Hints = String → String → Option SequenceHint

-- The counters of the loop, and what it has logged.
pub record Counts : Type 0 where
  pub candidate_count : ℕ
  pub selected_count : ℕ
  pub failed_count : ℕ
  pub notices : List Notice

abbrev pub no_counts : Counts
no_counts = record { candidate_count = 0; selected_count = 0; failed_count = 0; notices = [] }

unfoldable pub count_plan : Plan → List Entry → Bool → Counts → Counts
count_plan plan kept covered c = record {
  candidate_count = c.candidate_count + length plan.final_entries;
  selected_count = c.selected_count + length kept;
  failed_count = if covered then c.failed_count + length kept else c.failed_count;
  notices =
      if not covered && ltb 0 (length plan.final_entries)
      then c.notices ++ uncovered plan.name ∷ []
      else c.notices;
}

unfoldable pub select_plans : Hints → List Plan → Counts → List (List Entry) × Counts
unfolding count_plan
select_plans hint [] c = ([], c)
select_plans hint (plan ∷ plans) c =
    let (kept, covered) = filter_failed_entries (hint plan.name) plan.final_entries in
    let (rest, c') = select_plans hint plans (count_plan plan kept covered c) in (kept ∷ rest, c')

-- `plan.finalEntries = selections[index]`, for each plan.
unfoldable pub assign : List Plan → List (List Entry) → List Plan
assign [] kepts = []
assign (plan ∷ plans) [] = plan ∷ plans
assign (plan ∷ plans) (kept ∷ kepts) = record plan { final_entries = kept } ∷ assign plans kepts

unfoldable pub narrowed_notice : Counts → List Notice
narrowed_notice c =
    let deselected = c.candidate_count - c.selected_count in
    if ltb 0 deselected
    then c.notices ++ narrowed c.selected_count c.candidate_count deselected ∷ []
    else c.notices

-- The first argument says whether there is a results cache.
unfoldable pub apply_only_failures_selection : Bool → Hints → List Plan → List Plan × List Notice
unfolding select_plans assign narrowed_notice
apply_only_failures_selection false hint plans = (plans, no_failures ∷ [])
apply_only_failures_selection true hint plans =
    let (kepts, c) = select_plans hint plans no_counts in
    if c.failed_count == 0
    then (plans, c.notices ++ no_failures ∷ [])
    else (assign plans kepts, narrowed_notice c)

-- What one plan keeps: the failed files of a project with a hint, all files of one without.
abbrev pub kept_of : Hints → Plan → List Entry
kept_of hint plan =
    if covers (hint plan.name) plan.final_entries
    then keep (failed_before (hint plan.name)) plan.final_entries
    else plan.final_entries

abbrev pub narrow : Hints → Plan → Plan
narrow hint plan = record plan { final_entries = kept_of hint plan }

abbrev pub any_failed : Hints → List Plan → Bool
any_failed hint plans = any (λ plan. any (failed_before (hint plan.name)) plan.final_entries) plans

abbrev pub total : List Plan → ℕ
total [] = 0
total (plan ∷ plans) = length plan.final_entries + total plans

abbrev failures : Hints → List Plan → ℕ
failures hint [] = 0
failures hint (plan ∷ plans) =
    length (keep (failed_before (hint plan.name)) plan.final_entries) + failures hint plans

failed-any :
    (hint : String → Option SequenceHint) (es : List Entry)
    → any (failed_before hint) es ≡ ltb 0 (length (keep (failed_before hint) es))
failed-any hint [] = refl
failed-any hint (e ∷ es) = ground (arith, failed-any hint es)

any_failed-failures :
    (hint : Hints) (plans : List Plan) → any_failed hint plans ≡ ltb 0 (failures hint plans)
any_failed-failures hint [] = refl
any_failed-failures hint (plan ∷ plans) =
    ground (arith, failed-any (hint plan.name) plan.final_entries, any_failed-failures hint plans)

uncovered-none :
    (hint : String → Option SequenceHint) (es : List Entry)
    → covers hint es ≡ false
    → length (keep (failed_before hint) es) ≡ 0
uncovered-none hint [] h = refl
uncovered-none hint (e ∷ es) h = ground (arith, uncovered-none hint es)

count_plan-failed :
    (hint : Hints) (plan : Plan) (c : Counts)
    → (count_plan plan
        (kept_of hint plan)
        (covers (hint plan.name) plan.final_entries)
        c).failed_count
      ≡ c.failed_count + length (keep (failed_before (hint plan.name)) plan.final_entries)
unfolding count_plan
count_plan-failed hint plan c = ground (arith, uncovered-none (hint plan.name) plan.final_entries)

select_plans-failed :
    (hint : Hints) (plans : List Plan) (c : Counts)
    → (select_plans hint plans c).1.failed_count ≡ c.failed_count + failures hint plans
unfolding select_plans
select_plans-failed hint [] c = omega arith
select_plans-failed hint (plan ∷ plans) c =
    let covered = covers (hint plan.name) plan.final_entries in
    rw (filter_failed_entries_lem (hint plan.name) plan.final_entries) (
      omega (
        arith,
        select_plans-failed hint plans (count_plan plan (kept_of hint plan) covered c),
        count_plan-failed hint plan c,
      ))

assign-select_plans :
    (hint : Hints) (plans : List Plan) (c : Counts)
    → assign plans (select_plans hint plans c).0 ≡ map (narrow hint) plans
unfolding assign select_plans
assign-select_plans hint [] c = refl
assign-select_plans hint (plan ∷ plans) c =
    let covered = covers (hint plan.name) plan.final_entries in
    rw (filter_failed_entries_lem (hint plan.name) plan.final_entries)
      (rw (assign-select_plans hint plans (count_plan plan (kept_of hint plan) covered c)))

-- With a results cache, if some file of some project failed last, each project with a hint keeps the
-- files that failed last, in their order, and each project without one keeps all of its files; if
-- none failed, all plans stay as they are.
pub selection_lem :
    (hint : Hints) (plans : List Plan)
    → (apply_only_failures_selection true hint plans).0
      ≡ (if any_failed hint plans then map (narrow hint) plans else plans)
unfolding apply_only_failures_selection
selection_lem hint plans = ground (
  arith,
  select_plans-failed hint plans no_counts,
  assign-select_plans hint plans no_counts,
  any_failed-failures hint plans,
)

narrow-total :
    (hint : Hints) (plans : List Plan) → failures hint plans ≤ total (map (narrow hint) plans)
narrow-total hint [] = omega arith
narrow-total hint (plan ∷ plans) = ground (
  arith,
  narrow-total hint plans,
  length-keep-le (failed_before (hint plan.name)) plan.final_entries,
)

-- `--onlyFailures` never turns a run with test files into one without: either there were none, or
-- some are kept, with a results cache or without one.
pub never_empty :
    (cache : Bool) (hint : Hints) (plans : List Plan)
    → (total plans ≡ 0) ⊎ (0 < total (apply_only_failures_selection cache hint plans).0)
unfolding apply_only_failures_selection
never_empty false hint plans = ground arith
never_empty true hint plans = elim (Bool-cases (any_failed hint plans)) [
  | inl some_failed ↦ inr (
      rw (selection_lem hint plans, some_failed)
        (omega (arith, failed_any some_failed, narrow-total hint plans)))
  | inr none_failed ↦ rw (selection_lem hint plans, none_failed) (ground arith)
]
  where
    failed_any : any_failed hint plans ≡ true → 0 < failures hint plans
    failed_any h = ground (arith, any_failed-failures hint plans)
