-- ===== src/Selection/WatchInvalidation.antt =====
-- packages/core/src/core/watchInvalidation.ts: which entries a watch compile affects.
--
-- A snapshot is a map from entry to the hashes of its chunks, by chunk; both maps are lists.
pub mod Diff
use text.Mathlib.Text.{◌==◌ as str_eq}
use rstest.Prelude.{
  ◌==◌, ltb, Bool, true, false, not, ◌||◌, if◌then◌else◌, String, List, [], ◌∷◌, Option, none, some,
  keep, any, map, length, is_some,
}

-- `Map.get`, and the lookup of a property.
abbrev pub lookup {ℓ} : {A : Type ℓ} → String → List (String × A) → Option A
lookup name [] = none
lookup name (e ∷ es) = if str_eq e.0 name then some e.1 else lookup name es

abbrev pub ChunkHashes : Type 0
ChunkHashes = List (String × String)

abbrev pub Snapshot : Type 0
Snapshot = List (String × ChunkHashes)

pub record InvalidationState : Type 0 where
  pub entry_hashes : Option Snapshot
  pub setup_hashes : Option Snapshot

pub record Outcome : Type 0 where
  pub rerun_all : Bool
  pub affected_paths : List String
  pub deleted_paths : List String

abbrev pub differs : Option String → String → Bool
differs none hash = true
differs (some h) hash = not (str_eq h hash)

abbrev pub has_changes : ChunkHashes → ChunkHashes → Bool
has_changes previous current = any (λ c. differs (lookup c.0 previous) c.1) current

-- Whether the loop over the current entries adds one, given its chunks in the baseline.
abbrev pub is_affected : Option ChunkHashes → ChunkHashes → Bool
is_affected none current = true
is_affected (some previous) current =
    not (length current == length previous) || has_changes previous current

abbrev pub names {ℓ} : {A : Type ℓ} → List (String × A) → List String
names entries = map (λ e. e.0) entries

unfoldable pub diff_entry_hashes : Option Snapshot → Snapshot → List String × List String
diff_entry_hashes none current = ([], [])
diff_entry_hashes (some previous) current = (
  names (keep (λ e. is_affected (lookup e.0 previous) e.1) current),
  names (keep (λ e. not (is_some (lookup e.0 current))) previous),
)

abbrev pub or_empty : Option Snapshot → Snapshot
or_empty none = []
or_empty (some hashes) = hashes

unfoldable pub apply_watch_invalidation :
    Snapshot → Option Snapshot → InvalidationState → Outcome × InvalidationState
apply_watch_invalidation entry_hashes setup_hashes s =
    let setup = or_empty setup_hashes in
    let s' : InvalidationState = record {
      entry_hashes = some entry_hashes;
      setup_hashes = some setup;
    } in
    let (setup_affected, setup_deleted) = diff_entry_hashes s.setup_hashes setup in
    if ltb 0 (length setup_affected) || ltb 0 (length setup_deleted)
    then (record { rerun_all = true; affected_paths = []; deleted_paths = [] }, s')
    else (let (affected, deleted) = diff_entry_hashes s.entry_hashes entry_hashes in
        (record { rerun_all = false; affected_paths = affected; deleted_paths = deleted }, s'))
