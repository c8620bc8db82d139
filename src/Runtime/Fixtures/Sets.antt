-- ===== src/Runtime/Fixtures/Sets.antt =====
-- packages/core/src/runtime/runner/fixtures.ts: the sets of names of a resolver.
use rstest.Prelude.{
  ℕ, ◌==◌, Bool, true, false, not, ◌&&◌, ◌||◌, List, [], ◌∷◌, Option, none, some, ◌≡◌, refl, keep,
  count_if, arith,
}
use rstest.Runtime.Fixtures.{Fixture, Fixtures, has, find_fixture}

pub has-keep :
    (x y : ℕ) (ps : List ℕ) → has y (keep (λ z. not (x == z)) ps) ≡ (not (x == y) && has y ps)
has-keep x y [] = ground arith
has-keep x y (p ∷ ps) = ground (arith, has-keep x y ps)

pub keep-absent : (x : ℕ) (ps : List ℕ) → has x ps ≡ false → keep (λ z. not (x == z)) ps ≡ ps
keep-absent x [] h = refl
keep-absent x (p ∷ ps) h = ground (arith, h, keep-absent x ps)

pub count-absent : (x : ℕ) (xs : List ℕ) → has x xs ≡ false → count_if (x ==◌) xs ≡ 0
count-absent x [] h = refl
count-absent x (y ∷ ys) h = ground (arith, h, count-absent x ys)

unfoldable pub all_in : List ℕ → List ℕ → Bool
all_in [] xs = true
all_in (d ∷ ds) xs = has d xs && all_in ds xs

-- A fixture whose function the resolver itself calls.
abbrev own_fixture : Option Fixture → Bool
own_fixture none = false
own_fixture (some f) = f.is_fn && not f.scoped

unfoldable pub own : Fixtures → ℕ → Bool
own fs x = own_fixture (find_fixture x fs)

abbrev deps_if : Option Fixture → List ℕ
deps_if none = []
deps_if (some f) = f.deps

unfoldable pub deps_of : Fixtures → ℕ → List ℕ
deps_of fs x = deps_if (find_fixture x fs)

-- The fixtures among `ds` that `counts` counts are all in `rest`.
unfoldable pub all_after : (ℕ → Bool) → List ℕ → List ℕ → Bool
all_after counts [] rest = true
all_after counts (d ∷ ds) rest = (not (counts d) || has d rest) && all_after counts ds rest

-- After each fixture of the list stand its dependencies, as far as `counts` counts them.
unfoldable pub before_deps : (ℕ → Bool) → Fixtures → List ℕ → Bool
unfolding all_after deps_of
before_deps counts fs [] = true
before_deps counts fs (x ∷ rest) =
    all_after counts (deps_of fs x) rest && before_deps counts fs rest
