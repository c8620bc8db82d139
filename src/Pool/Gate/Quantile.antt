-- ===== src/Pool/Gate/Quantile.antt =====
-- What `p90` of memoryGate.ts computes.
use rstest.Prelude.{
  ℕ, zero, suc, ◌+◌, ◌*◌, ◌==◌, ltb, leb, ◌≤◌, ◌<◌, ◌≡◌, refl, Bool, true, if◌then◌else◌, List, [],
  ◌∷◌, some, length, get_elem?, arith, count_if, any, All, subst, sym,
}
use rstest.Pool.Gate.State.{insert, sort, p90, quantile_index}

length-insert : (a : ℕ) (xs : List ℕ) → length (insert a xs) ≡ suc (length xs)
unfolding insert
length-insert a [] = refl
length-insert a (x ∷ xs) = ground (arith, length-insert a xs)

length-sort : (xs : List ℕ) → length (sort xs) ≡ length xs
unfolding sort
length-sort [] = refl
length-sort (x ∷ xs) = omega (arith, length-insert x (sort xs), length-sort xs)

count-insert :
    (p : ℕ → Bool) (a : ℕ) (xs : List ℕ)
    → count_if p (insert a xs) ≡ (if p a then 1 else 0) + count_if p xs
unfolding insert
count-insert p a [] = refl
count-insert p a (x ∷ xs) = ground (arith, count-insert p a xs)

count-sort : (p : ℕ → Bool) (xs : List ℕ) → count_if p (sort xs) ≡ count_if p xs
unfolding sort
count-sort p [] = refl
count-sort p (x ∷ xs) = omega (arith, count-insert p x (sort xs), count-sort p xs)

-- Each element is at most those behind it.
abbrev IsSorted : List ℕ → Type 0
IsSorted [] = Unit {0}
IsSorted (x ∷ xs) = All (λ y. x ≤ y) xs × IsSorted xs

All-insert : (a b : ℕ) (xs : List ℕ) → b ≤ a → All (λ y. b ≤ y) xs → All (λ y. b ≤ y) (insert a xs)
unfolding insert
All-insert a b [] h v = (h, tt)
All-insert a b (x ∷ xs) h v = ground (arith, All-insert a b xs h)

All-mono : (a b : ℕ) (xs : List ℕ) → b ≤ a → All (λ y. a ≤ y) xs → All (λ y. b ≤ y) xs
All-mono a b [] h v = tt
All-mono a b (x ∷ xs) h v = (omega arith, All-mono a b xs h v.1)

insert-IsSorted : (a : ℕ) (xs : List ℕ) → IsSorted xs → IsSorted (insert a xs)
unfolding insert
insert-IsSorted a [] v = (tt, tt)
insert-IsSorted a (x ∷ xs) v =
    ground (arith, All-mono x a xs, All-insert a x xs, insert-IsSorted a xs v.1)

sort-IsSorted : (xs : List ℕ) → IsSorted (sort xs)
unfolding sort
sort-IsSorted [] = tt
sort-IsSorted (x ∷ xs) = insert-IsSorted x (sort xs) (sort-IsSorted xs)

-- In a sorted list the element at an index bounds those before it, and is bounded by those after.
at_most :
    (xs : List ℕ) (i v : ℕ) → IsSorted xs → get_elem? xs i ≡ some v → i < count_if (λ x. leb x v) xs
at_most [] i v s h = cc
at_most (x ∷ xs) zero v s h = ground arith
at_most (x ∷ xs) (suc i) v s h = ground (arith, at_most xs i v s.1 h, head_le xs i v x s.0 h)
  where
    head_le : (xs : List ℕ) (i v x : ℕ) → All (λ y. x ≤ y) xs → get_elem? xs i ≡ some v → x ≤ v
    head_le [] i v x a h = cc
    head_le (y ∷ xs) zero v x a h = ground arith
    head_le (y ∷ xs) (suc i) v x a h = head_le xs i v x a.1 h

get_elem?-any : (xs : List ℕ) (i v : ℕ) → get_elem? xs i ≡ some v → any (λ x. x == v) xs ≡ true
get_elem?-any [] i v h = cc
get_elem?-any (x ∷ xs) zero v h = ground arith
get_elem?-any (x ∷ xs) (suc i) v h = ground (arith, get_elem?-any xs i v h)

get_elem?-some : (xs : List ℕ) (i : ℕ) → i < length xs → (v : ℕ) × (get_elem? xs i ≡ some v)
get_elem?-some [] i h = absurd (omega arith)
get_elem?-some (x ∷ xs) zero h = (x, refl)
get_elem?-some (x ∷ xs) (suc i) h = get_elem?-some xs i (omega arith)

under :
    (xs : List ℕ) (i v : ℕ) → IsSorted xs → get_elem? xs i ≡ some v → count_if (λ x. ltb x v) xs ≤ i
under [] i v s h = cc
under (x ∷ xs) zero v s h = ground (arith, none_under xs v x s.0)
  where
    none_under :
        (xs : List ℕ) (v x : ℕ) → All (λ y. x ≤ y) xs → x ≡ v → count_if (λ y. ltb y v) xs ≡ 0
    none_under [] v x a h = refl
    none_under (y ∷ xs) v x a h = ground (arith, none_under xs v x a.1 h)
under (x ∷ xs) (suc i) v s h = ground (arith, under xs i v s.1 h)

p90-found :
    (x : ℕ) (xs : List ℕ) (v : ℕ)
    → get_elem? (sort (x ∷ xs)) (quantile_index (length (sort (x ∷ xs)))) ≡ some v
    → p90 (x ∷ xs) ≡ v
unfolding p90
p90-found x xs v h = rw h

any-count : (v : ℕ) (xs : List ℕ) → any (λ x. x == v) xs ≡ true → 0 < count_if (λ x. x == v) xs
any-count v [] h = cc
any-count v (x ∷ xs) h = ground (arith, any-count v xs)

quantile_at :
    (x : ℕ) (xs : List ℕ) (v : ℕ)
    → let samples = x ∷ xs in
      let i = quantile_index (length (sort samples)) in
      get_elem? (sort samples) i ≡ some v
      → (0 < count_if (λ y. y == v) samples)
        × (i < count_if (λ y. leb y v) samples)
        × (count_if (λ y. ltb y v) samples ≤ i)
quantile_at x xs v found =
    let i = quantile_index (length (sort (x ∷ xs))) in
    let sorted = sort-IsSorted (x ∷ xs) in
    (
      subst (λ n. 0 < n) (count-sort (λ y. y == v) (x ∷ xs))
          (any-count v (sort (x ∷ xs)) (get_elem?-any (sort (x ∷ xs)) i v found)),
      subst (λ n. i < n) (count-sort (λ y. leb y v) (x ∷ xs))
          (at_most (sort (x ∷ xs)) i v sorted found),
      subst (λ n. n ≤ i) (count-sort (λ y. ltb y v) (x ∷ xs))
          (under (sort (x ∷ xs)) i v sorted found),
    )

index_bound :
    (x : ℕ) (xs : List ℕ)
    → let i = quantile_index (length (sort (x ∷ xs))) in
      (i < length (sort (x ∷ xs)))
      × (9 * length (x ∷ xs) ≤ 10 * i + 10)
      × (10 * i ≤ 9 * length (x ∷ xs))
index_bound x xs = ground (arith, length-sort (x ∷ xs))

-- One of the samples, with nine tenths of them at most as large and at most nine tenths smaller.
abbrev pub IsQuantile : List ℕ → ℕ → Type 0
IsQuantile samples v =
    (0 < count_if (λ y. y == v) samples)
    × (9 * length samples ≤ 10 * count_if (λ y. leb y v) samples)
    × (10 * count_if (λ y. ltb y v) samples ≤ 9 * length samples)

-- On samples that are not empty, `p90` is one of them; at least nine tenths of the samples are at most
-- as large, and at most nine tenths of them are smaller.
pub p90-IsQuantile : (x : ℕ) (xs : List ℕ) → IsQuantile (x ∷ xs) (p90 (x ∷ xs))
p90-IsQuantile x xs =
    let bound = index_bound x xs in
    let (v, found) =
      get_elem?-some (sort (x ∷ xs)) (quantile_index (length (sort (x ∷ xs)))) bound.0 in
    let at = quantile_at x xs v found in
    subst (IsQuantile (x ∷ xs)) (sym (p90-found x xs v found))
      (at.0, omega (arith, at.1, bound.1), omega (arith, at.2, bound.2))
