-- ===== src/Selection/WatchInvalidation/Diff.antt =====
-- That the diff of watchInvalidation.ts finds every change, and none where there is none.
use text.Mathlib.TextEquality.{eq_iff}
use rstest.Prelude.{
  ltb, ◌≡◌, refl, Bool, true, false, not, ◌||◌, String, List, [], ◌∷◌, Option, some, keep, any,
  length, is_some, All, arith, Option-cases, Bool-cases, inl, inr, ap, ◌∙◌, subst,
}
use rstest.Selection.WatchInvalidation.{
  lookup, ChunkHashes, Snapshot, InvalidationState, differs, is_affected, names, diff_entry_hashes,
  or_empty, apply_watch_invalidation,
}

-- No key twice: each pair of a map is the one that is found under its key.
abbrev pub IsMap {ℓ} : {A : Type ℓ} → List (String × A) → Type ℓ
IsMap es = All (λ e. lookup e.0 es ≡ some e.1) es

abbrev pub IsSnapshot : Snapshot → Type 0
IsSnapshot es = IsMap es × All (λ e. IsMap e.1) es

unchanged-chunks :
    (all chunks : ChunkHashes)
    → All (λ c. lookup c.0 all ≡ some c.1) chunks
    → any (λ c. differs (lookup c.0 all) c.1) chunks ≡ false
unchanged-chunks all [] h = refl
unchanged-chunks all (c ∷ cs) h = ground (arith, unchanged-chunks all cs h.1, eq_iff c.1 c.1)

none_affected :
    (all es : Snapshot)
    → All (λ e. lookup e.0 all ≡ some e.1) es
    → All (λ e. IsMap e.1) es
    → keep (λ e. is_affected (lookup e.0 all) e.1) es ≡ []
none_affected all [] h k = refl
none_affected all (e ∷ es) h k =
    ground (arith, none_affected all es h.1 k.1, unchanged-chunks e.1 e.1 k.0)

none_deleted :
    (all es : Snapshot)
    → All (λ e. lookup e.0 all ≡ some e.1) es
    → keep (λ e. not (is_some (lookup e.0 all))) es ≡ []
none_deleted all [] h = refl
none_deleted all (e ∷ es) h = ground (arith, none_deleted all es h.1)

diff_self : (es : Snapshot) → IsSnapshot es → diff_entry_hashes (some es) es ≡ ([], [])
unfolding diff_entry_hashes
diff_self es h = rw (none_affected es es h.0 h.1, none_deleted es es h.0) refl

baseline :
    (entries setup : Snapshot) (s : InvalidationState)
    → (apply_watch_invalidation entries (some setup) s).1
      ≡ record { entry_hashes = some entries; setup_hashes = some setup }
unfolding apply_watch_invalidation
baseline entries setup s =
    let diff = diff_entry_hashes s.setup_hashes setup in
    elim (Bool-cases (ltb 0 (length diff.0) || ltb 0 (length diff.1))) [
      | inl changed ↦ rw changed refl
      | inr same ↦ rw same refl
    ]

apply-same :
    (entries setup : Snapshot)
    → IsSnapshot entries
    → IsSnapshot setup
    → (apply_watch_invalidation entries
        (some setup)
        (record { entry_hashes = some entries; setup_hashes = some setup })).0
      ≡ record { rerun_all = false; affected_paths = []; deleted_paths = [] }
unfolding apply_watch_invalidation
apply-same entries setup h k = rw (diff_self setup k, diff_self entries h) refl

-- If both snapshots of a compile are maps, then a second compile with the same hashes affects no
-- entry, deletes none and reruns nothing, whatever the baseline was before the first.
pub apply-settles :
    (entries setup : Snapshot) (s : InvalidationState)
    → IsSnapshot entries
    → IsSnapshot setup
    → (apply_watch_invalidation entries
        (some setup)
        (apply_watch_invalidation entries (some setup) s).1).0
      ≡ record { rerun_all = false; affected_paths = []; deleted_paths = [] }
apply-settles entries setup s h k =
    ap (λ s'. (apply_watch_invalidation entries (some setup) s').0) (baseline entries setup s)
    ∙ apply-same entries setup h k

-- An entry that has all its chunks, with their hashes, in the baseline.
abbrev pub IsKept : Snapshot → String × ChunkHashes → Type 0
IsKept previous e =
    (chunks : ChunkHashes) × (lookup e.0 previous ≡ some chunks)
    × (length e.1 ≡ length chunks)
    × All (λ c. lookup c.0 chunks ≡ some c.1) e.1

kept-chunks :
    (all chunks : ChunkHashes)
    → any (λ c. differs (lookup c.0 all) c.1) chunks ≡ false
    → All (λ c. lookup c.0 all ≡ some c.1) chunks
kept-chunks all [] h = tt
kept-chunks all (c ∷ cs) h = elim (Option-cases (lookup c.0 all)) [
  | inl missing ↦ ground arith
  | inr (hash, found) ↦ ground (arith, kept-chunks all cs, eq_iff hash c.1)
]

entry-IsKept :
    (previous : Snapshot) (e : String × ChunkHashes)
    → is_affected (lookup e.0 previous) e.1 ≡ false
    → IsKept previous e
entry-IsKept previous e h = elim (Option-cases (lookup e.0 previous)) [
  | inl missing ↦ ground arith
  | inr (chunks, found) ↦
      let same : is_affected (some chunks) e.1 ≡ false =
        subst (λ o. is_affected o e.1 ≡ false) found h in
      (chunks, found, ground arith, kept-chunks chunks e.1 (ground arith))
]

names-keep :
    {A : Type 0} (p : String × A → Bool) (es : List (String × A))
    → names (keep p es) ≡ []
    → All (λ e. p e ≡ false) es
names-keep p [] h = tt
names-keep p (e ∷ es) h = elim (Bool-cases (p e)) [
  | inl hit ↦ absurd (ground arith)
  | inr miss ↦ (miss, names-keep p es (ground arith))
]

entries-IsKept :
    (previous es : Snapshot)
    → All (λ e. is_affected (lookup e.0 previous) e.1 ≡ false) es
    → All (IsKept previous) es
entries-IsKept previous [] h = tt
entries-IsKept previous (e ∷ es) h = (entry-IsKept previous e h.0, entries-IsKept previous es h.1)

still_there :
    (current es : Snapshot)
    → All (λ e. not (is_some (lookup e.0 current)) ≡ false) es
    → All (λ e. is_some (lookup e.0 current) ≡ true) es
still_there current [] h = tt
still_there current (e ∷ es) h = (ground arith, still_there current es h.1)

quiet_diff :
    (entries : Snapshot) (setup : Option Snapshot) (s : InvalidationState)
    → (apply_watch_invalidation entries setup s).0
      ≡ record { rerun_all = false; affected_paths = []; deleted_paths = [] }
    → (diff_entry_hashes s.setup_hashes (or_empty setup) ≡ ([], []))
      × (diff_entry_hashes s.entry_hashes entries ≡ ([], []))
unfolding apply_watch_invalidation
quiet_diff entries setup s h =
    let diff = diff_entry_hashes s.setup_hashes (or_empty setup) in
    elim (Bool-cases (ltb 0 (length diff.0) || ltb 0 (length diff.1))) [
      | inl changed ↦ absurd (ground arith)
      | inr same ↦ ground arith
    ]

diff-IsKept :
    (previous current : Snapshot)
    → diff_entry_hashes (some previous) current ≡ ([], [])
    → All (IsKept previous) current × All (λ e. is_some (lookup e.0 current) ≡ true) previous
unfolding diff_entry_hashes
diff-IsKept previous current e = (
  entries-IsKept previous current (names-keep _ current (ap (λ d. d.0) e)),
  still_there current previous (names-keep _ previous (ap (λ d. d.1) e)),
)

-- If a compile reruns nothing, affects no entry and deletes none, then each of its entries was in the
-- baseline with as many chunks and the same hash for each, and each entry of the baseline is still
-- there; and the same holds of the setup entries.
pub quiet-IsKept :
    (previous entries old_setup setup : Snapshot)
    → (apply_watch_invalidation entries
        (some setup)
        (record { entry_hashes = some previous; setup_hashes = some old_setup })).0
      ≡ record { rerun_all = false; affected_paths = []; deleted_paths = [] }
    → (All (IsKept previous) entries × All (λ e. is_some (lookup e.0 entries) ≡ true) previous)
      × (All (IsKept old_setup) setup × All (λ e. is_some (lookup e.0 setup) ≡ true) old_setup)
quiet-IsKept previous entries old_setup setup h =
    let (same_setup, same) =
      quiet_diff entries (some setup)
        (record { entry_hashes = some previous; setup_hashes = some old_setup }) h in
    (diff-IsKept previous entries same, diff-IsKept old_setup setup same_setup)
