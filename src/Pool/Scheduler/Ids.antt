-- ===== src/Pool/Scheduler/Ids.antt =====
-- Counting workers and worker ids: lemmas for pool.ts.
use rstest.Prelude.{
  ℕ, zero, suc, ◌+◌, ◌==◌, ltb, leb, ◌≤◌, ◌<◌, ◌≡◌, refl, Bool, true, false, ◌&&◌, if◌then◌else◌,
  String, List, [], ◌∷◌, ◌++◌, none, some, arith, length, any, count_if, count_if-append,
  length-append, Option-cases, inl, inr,
}
use rstest.Pool.Scheduler.State.{
  Worker, has_id, holds, delete, find_worker, free_id_from, acquire_worker_id, release_worker_id,
  take_last,
}

abbrev pub workers : ℕ → List Worker → ℕ
workers a ws = count_if (has_id a) ws

abbrev pub uses : ℕ → List ℕ → ℕ
uses a used = count_if (λ j. j == a) used

pub workers-snoc :
    (a : ℕ) (w : Worker) (ws : List Worker)
    → workers a (ws ++ w ∷ []) ≡ workers a ws + (if has_id a w then 1 else 0)
workers-snoc a w ws = ground (arith, count_if-append (has_id a) ws (w ∷ []))

pub length-snoc : (w : Worker) (ws : List Worker) → length (ws ++ w ∷ []) ≡ suc (length ws)
length-snoc w ws = omega (arith, length-append ws (w ∷ []))

pub workers-delete :
    (a id : ℕ) (ws : List Worker) → workers a (delete id ws) ≡ (if id == a then 0 else workers a ws)
workers-delete a id [] = ground arith
workers-delete a id (w ∷ ws) = ground (arith, workers-delete a id ws)

pub length-delete : (id : ℕ) (ws : List Worker) → length (delete id ws) + workers id ws ≡ length ws
length-delete id [] = omega arith
length-delete id (w ∷ ws) = ground (arith, length-delete id ws)

pub uses-release :
    (a id : ℕ) (used : List ℕ)
    → uses a (release_worker_id id used) ≡ (if id == a then 0 else uses a used)
unfolding release_worker_id
uses-release a id [] = ground arith
uses-release a id (j ∷ used) = ground (arith, uses-release a id used)

pub length-release :
    (id : ℕ) (used : List ℕ) → length (release_worker_id id used) + uses id used ≡ length used
unfolding release_worker_id
length-release id [] = omega arith
length-release id (j ∷ used) = ground (arith, length-release id used)

pub find_worker-some :
    (id : ℕ) (ws : List Worker) (w : Worker)
    → find_worker id ws ≡ some w
    → (w.worker_id ≡ id) × (0 < workers id ws)
find_worker-some id [] w h = cc
find_worker-some id (x ∷ ws) w h = ground (arith, find_worker-some id ws w)

-- What the search for an idle runner takes out, in every count.
pub record Taken (a : ℕ) (key : String) (ws : List Worker) (w : Worker) (rest : List Worker)
    : Type 0 where
  pub counts : workers a ws ≡ workers a rest + (if has_id a w then 1 else 0)
  pub shorter : length ws ≡ suc (length rest)
  pub matches : holds key w ≡ true

pub take_last-Taken :
    (a : ℕ) (key : String) (ws : List Worker) (w : Worker) (rest : List Worker)
    → take_last key ws ≡ some (w, rest)
    → Taken a key ws w rest
unfolding take_last
take_last-Taken a key [] w rest h = cc
take_last-Taken a key (x ∷ ws) w rest h = elim (Option-cases (take_last key ws)) [
  | inl last ↦ ground arith
  | inr ((v, r), e) ↦ ground (arith, take_last-Taken a key ws v r e)
]

-- The ids of a range that are in use.
abbrev in_range : ℕ → ℕ → ℕ → Bool
in_range i n j = leb i j && ltb j (i + n)

range-suc :
    (i n : ℕ) (used : List ℕ)
    → count_if (in_range i (suc n)) used ≡ uses i used + count_if (in_range (suc i) n) used
range-suc i n [] = omega arith
range-suc i n (j ∷ used) = ground (arith, range-suc i n used)

any-uses : (i : ℕ) (used : List ℕ) → any (λ j. j == i) used ≡ true → 0 < uses i used
any-uses i [] h = cc
any-uses i (j ∷ used) h = ground (arith, any-uses i used)

not_any-uses : (i : ℕ) (used : List ℕ) → any (λ j. j == i) used ≡ false → uses i used ≡ 0
not_any-uses i [] h = refl
not_any-uses i (j ∷ used) h = ground (arith, not_any-uses i used)

count_if-le-length {ℓ} : {A : Type ℓ} (p : A → Bool) (xs : List A) → count_if p xs ≤ length xs
count_if-le-length p [] = omega arith
count_if-le-length p (x ∷ xs) = ground (arith, count_if-le-length p xs)

free_id_from-full :
    (n i : ℕ) (used : List ℕ) → free_id_from n i used ≡ none → n ≤ count_if (in_range i n) used
unfolding free_id_from
free_id_from-full zero i used h = omega arith
free_id_from-full (suc n) i used h =
    ground (arith, free_id_from-full n (suc i) used, range-suc i n used, any-uses i used)

free_id_from-free :
    (n i : ℕ) (used : List ℕ) (id : ℕ)
    → free_id_from n i used ≡ some id
    → (uses id used ≡ 0) × (i ≤ id) × (id < i + n)
unfolding free_id_from
free_id_from-free zero i used id h = cc
free_id_from-free (suc n) i used id h =
    ground (arith, free_id_from-free n (suc i) used id, not_any-uses i used)

-- The id search fails only when there are as many ids in use as workers are allowed.
pub acquire_worker_id-full :
    (max : ℕ) (used : List ℕ) → acquire_worker_id max used ≡ none → max ≤ length used
unfolding acquire_worker_id
acquire_worker_id-full max used h =
    omega (arith, free_id_from-full max 1 used h, count_if-le-length {0} (in_range 1 max) used)

pub acquire_worker_id-free :
    (max : ℕ) (used : List ℕ) (id : ℕ)
    → acquire_worker_id max used ≡ some id
    → (uses id used ≡ 0) × (1 ≤ id) × (id ≤ max)
unfolding acquire_worker_id
acquire_worker_id-free max used id h = omega (arith, free_id_from-free max 1 used id h)
