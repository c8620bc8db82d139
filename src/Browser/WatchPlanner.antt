-- ===== src/Browser/WatchPlanner.antt =====
-- packages/browser/src/watchRerunPlanner.ts: which browser test files a watch cycle runs again.
--
-- `normalize` is the function of the library `pathe`. The file sets are compared by their sorted
-- labels, which JSON writes as texts that are equal just when the lists are.
pub mod Cycle
use Prim.Native.Nat.{Ordering}
use Prim.Native.String.{compare, ◌++◌ as ◌+++◌}
use text.Mathlib.Text.{◌==◌ as str_eq}
use rstest.Prelude.{
  ℕ, ltb, ◌==◌, Bool, true, false, not, ◌&&◌, if◌then◌else◌, String, List, [], ◌∷◌, ◌++◌, Option,
  none, some, keep, any, map, length, sort_by,
}

pub record TestFileInfo : Type 0 where
  pub project_name : String
  pub test_path : String

pub record ProjectEntry : Type 0 where
  pub name : String
  pub test_files : List String

pub record FileSetUpdate : Type 0 where
  pub current_test_files : List TestFileInfo
  pub deleted_test_paths : List String

pub data Message : Type 0 where
  no_files_remain no_affected_files : Message
  file_set_changed affected_files : ℕ → Message

pub data Decision : Type 0 where
  rerun : List String → Message → Decision
  empty idle : Message → Decision

pub record Plan : Type 0 where
  pub file_set_update : Option FileSetUpdate
  pub decision : Decision

pub record WatchState : Type 0 where
  pub last_test_files : List TestFileInfo
  pub pruned : List (List String)

abbrev pub label : TestFileInfo → String
label f = f.project_name +++ ":" +++ f.test_path

abbrev pub str_le : String → String → Bool
str_le s t = elim (compare s t) [ Ordering.gt ↦ false | _ ↦ true ]

unfoldable pub serialize_test_files : List TestFileInfo → List String
serialize_test_files files = sort_by str_le (map label files)

unfoldable pub same_texts : List String → List String → Bool
same_texts [] [] = true
same_texts [] (t ∷ ts) = false
same_texts (s ∷ ss) [] = false
same_texts (s ∷ ss) (t ∷ ts) = str_eq s t && same_texts ss ts

-- `set.has(path)`
abbrev pub member : String → List String → Bool
member path paths = any (λ p. str_eq p path) paths

-- `[...new Set(paths)]`
unfoldable pub dedupe : List String → List String
dedupe [] = []
dedupe (p ∷ ps) = p ∷ keep (λ q. not (str_eq q p)) (dedupe ps)

abbrev pub paths_of : List TestFileInfo → List String
paths_of files = map (λ f. f.test_path) files

unfoldable pub collect_test_paths : List TestFileInfo → List String
unfolding dedupe
collect_test_paths files = dedupe (paths_of files)

unfoldable pub collect_deleted_test_paths : List TestFileInfo → List TestFileInfo → List String
collect_deleted_test_paths previous current =
    keep (λ p. not (member p (paths_of current))) (paths_of previous)

module _ (normalize : String → String) where
  unfoldable pub normalize_test_files : List TestFileInfo → List TestFileInfo
  normalize_test_files [] = []
  normalize_test_files (f ∷ fs) =
      record f { test_path = normalize f.test_path } ∷ normalize_test_files fs

  unfoldable pub entry_files : String → List String → List TestFileInfo
  entry_files name [] = []
  entry_files name (p ∷ ps) =
      record { project_name = name; test_path = normalize p } ∷ entry_files name ps

  unfoldable pub collect_watch_test_files : List ProjectEntry → List TestFileInfo
  unfolding entry_files
  collect_watch_test_files [] = []
  collect_watch_test_files (entry ∷ entries) =
      entry_files entry.name entry.test_files ++ collect_watch_test_files entries

  unfoldable pub is_changed : List TestFileInfo → List TestFileInfo → Bool
  unfolding serialize_test_files same_texts normalize_test_files
  is_changed current previous = not (
      same_texts (serialize_test_files current)
        (serialize_test_files (normalize_test_files previous)))

  unfoldable pub plan_changed : List TestFileInfo → List TestFileInfo → Plan
  unfolding collect_test_paths collect_deleted_test_paths normalize_test_files
  plan_changed current previous = record {
    file_set_update = some (record {
      current_test_files = current;
      deleted_test_paths = collect_deleted_test_paths (normalize_test_files previous) current;
    });
    decision =
        if length current == 0
        then empty no_files_remain
        else rerun (collect_test_paths current) (file_set_changed (length current));
  }

  abbrev pub matched : List TestFileInfo → List String → List TestFileInfo
  matched current affected = keep (λ f. member f.test_path (map normalize affected)) current

  unfoldable pub plan_unchanged : List TestFileInfo → List String → Plan
  unfolding collect_test_paths
  plan_unchanged current affected =
      let files = matched current affected in
      record {
        file_set_update = none;
        decision =
            if length files == 0
            then idle no_affected_files
            else rerun (collect_test_paths files) (affected_files (length files));
      }

  unfoldable pub plan_watch_rerun : List ProjectEntry → List TestFileInfo → List String → Plan
  unfolding collect_watch_test_files is_changed plan_changed plan_unchanged
  plan_watch_rerun entries previous affected =
      let current = collect_watch_test_files entries in
      if is_changed current previous
      then plan_changed current previous
      else plan_unchanged current affected

unfoldable pub commit_watch_file_set_update : Option FileSetUpdate → WatchState → WatchState
commit_watch_file_set_update none s = s
commit_watch_file_set_update (some update) s = record {
  last_test_files = update.current_test_files;
  pruned =
      if ltb 0 (length update.deleted_test_paths)
      then update.deleted_test_paths ∷ s.pruned
      else s.pruned;
}
