-- ===== src/Selection/Shard.antt =====
-- packages/core/src/utils/shard.ts: the test files of one shard.
use native.Mathlib.Nat.{suc-add, zero-add, zero-mul, div-add-mod, mod-lt}
use rstest.Prelude.{
  ℕ, zero, suc, ◌+◌, ◌-◌, ◌*◌, ◌/◌, leb, ◌≤◌, ◌<◌, ◌≡◌, ◌∙◌, refl, ap, Bool, false, if◌then◌else◌,
  List, [], ◌∷◌, ◌++◌, length, take, drop, count_if, arith, sort_by, count-sort_by, length-sort_by,
  sym,
}

pub record ShardConfig : Type 0 where
  pub count : ℕ
  pub index : ℕ

-- `Math.ceil(length / count)`, for a count that is not 0.
abbrev pub shard_size : ℕ → ℕ → ℕ
shard_size n count = (n + (count - 1)) / count

-- `slice(start, end)`
abbrev slice {ℓ} : {A : Type ℓ} → ℕ → ℕ → List A → List A
slice start end xs = take (end - start) (drop start xs)

-- `le` is the order of the paths by `localeCompare`; an index counts from 1.
unfoldable pub get_sharded_files {ℓ} : {A : Type ℓ} → (A → A → Bool) → List A → ShardConfig → List A
get_sharded_files le files shard =
    if leb shard.count 1
    then files
    else (let size = shard_size (length files) shard.count in
        let start = (shard.index - 1) * size in slice start (start + size) (sort_by le files))

-- The shards 1 to `k`, one after the other.
abbrev pub shards {ℓ} : {A : Type ℓ} → (A → A → Bool) → List A → ℕ → ℕ → List A
shards le files count zero = []
shards le files count (suc k) =
    shards le files count k ++ get_sharded_files le files (record { count = count; index = suc k })

module _ {ℓ} {A : Type ℓ} where
  take-nil : (n : ℕ) → take {A = A} n [] ≡ []
  take-nil zero = refl
  take-nil (suc n) = refl

  take-append_take : (a b : ℕ) (xs : List A) → take a xs ++ take b (drop a xs) ≡ take (a + b) xs
  take-append_take zero b xs = rw zero-add
  take-append_take (suc a) b [] = take-nil b ∙ sym (take-nil (suc a + b))
  take-append_take (suc a) b (x ∷ xs) = rw suc-add (ap (◌∷◌ x) (take-append_take a b xs))

  take-all : (n : ℕ) (xs : List A) → length xs ≤ n → take n xs ≡ xs
  take-all n [] h = take-nil n
  take-all zero (x ∷ xs) h = elim h [ ]
  take-all (suc n) (x ∷ xs) h = ap (◌∷◌ x) (take-all n xs (omega arith))

  length-take-le : (n : ℕ) (xs : List A) → length (take n xs) ≤ n
  length-take-le zero xs = omega arith
  length-take-le (suc n) [] = omega arith
  length-take-le (suc n) (x ∷ xs) = omega (arith, length-take-le n xs)

-- As many shards of that size hold all files.
size-suffices : (n count : ℕ) → 0 < count → n ≤ count * shard_size n count
size-suffices n count h =
    grind (arith, div-add-mod (n + (count - 1)) count, mod-lt (n + (count - 1)) h)

module _ {ℓ} {A : Type ℓ} (le : A → A → Bool) (files : List A) (count : ℕ) (many : 1 < count) where
  abbrev size : ℕ
  size = shard_size (length files) count

  shard-slice :
      (k : ℕ)
      → get_sharded_files le files (record { count = count; index = suc k })
        ≡ take size (drop (k * size) (sort_by le files))
  unfolding get_sharded_files
  shard-slice k =
      let small : leb count 1 ≡ false = ground arith in
      let before : suc k - 1 ≡ k = omega arith in
      let wide : k * size + size - k * size ≡ size = omega arith in rw (small, before, wide)

  shards-take : (k : ℕ) → shards le files count k ≡ take (k * size) (sort_by le files)
  shards-take zero = rw zero-mul
  shards-take (suc k) =
      rw (shards-take k, shard-slice k)
        (take-append_take (k * size) size (sort_by le files)
          ∙ ap (λ n. take n (sort_by le files)) (grind arith))

  -- With more than one shard, the shards 1 to `count` one after the other are the sorted files, so each
  -- file runs in one shard, as often as it is listed; and no shard holds more than its share rounded up.
  pub shards-partition :
      (p : A → Bool) (k : ℕ)
      → (shards le files count count ≡ sort_by le files)
        × (count_if p (shards le files count count) ≡ count_if p files)
        × (length (get_sharded_files le files (record { count = count; index = suc k }))
            ≤ shard_size (length files) count)
  shards-partition p k = (
    all,
    rw all (count-sort_by le p files),
    rw (shard-slice k) (length-take-le size (drop (k * size) (sort_by le files))),
  )
    where
      all : shards le files count count ≡ sort_by le files
      all =
          shards-take count
          ∙ take-all (count * size) (sort_by le files)
              (omega (arith, size-suffices (length files) count, length-sort_by le files))
