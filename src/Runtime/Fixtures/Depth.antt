-- ===== src/Runtime/Fixtures/Depth.antt =====
-- packages/core/src/runtime/runner/fixtures.ts: the recursion of `useFixture` ends.
use rstest.Prelude.{
  ℕ, zero, suc, ◌≤◌, ◌<◌, ◌==◌, ==_iff, Bool, true, false, not, ◌||◌, List, [], ◌∷◌, Option, none,
  some, ◌≡◌, refl, sym, subst, length, count_if, Bool-cases, inl, inr, arith,
}
use rstest.Runtime.Fixtures.{
  Fixture, Fixtures, Behaviour, Failure, too_deep, Resolver, has, find_fixture, thrown, settle,
  use_all, or_rest, then_setup, begin, use_fixture,
}
use rstest.Runtime.Fixtures.Order.{Kept, Post, pended-Kept}
use rstest.Runtime.Fixtures.Resolution.{use_fixture-Post}

abbrev pub is_deep : Option Failure → Bool
is_deep (some too_deep) = true
is_deep _ = false

-- The fixtures that are not pending: the recursion can still go as deep as that.
unfoldable pub open_count : List ℕ → Fixtures → ℕ
open_count ps fs = count_if (λ (e : ℕ × Fixture). not (has e.0 ps)) fs

open_count-le : (x : ℕ) (ps : List ℕ) (fs : Fixtures) → open_count (x ∷ ps) fs ≤ open_count ps fs
unfolding open_count
open_count-le x ps [] = omega arith
open_count-le x ps (e ∷ es) = ground (arith, open_count-le x ps es)

later-pended :
    (x : ℕ) (e : ℕ × Fixture) (ps : List ℕ) (es : Fixtures)
    → (x == e.0) ≡ false
    → open_count (x ∷ ps) es < open_count ps es
    → open_count (x ∷ ps) (e ∷ es) < open_count ps (e ∷ es)
unfolding open_count
later-pended x e ps es q h = ground (arith, q, h)

open_count-pended :
    (x : ℕ) (ps : List ℕ) (fs : Fixtures) (f : Fixture)
    → find_fixture x fs ≡ some f
    → has x ps ≡ false
    → open_count (x ∷ ps) fs < open_count ps fs
unfolding open_count find_fixture
open_count-pended x ps [] f h n = absurd (ground (arith, h))
open_count-pended x ps (e ∷ es) f h n = elim (Bool-cases (x == e.0)) [
  | inl q ↦
      let le = open_count-le x ps es in
      let xe = (==_iff x e.0).0 q in
      let n' = subst (λ v. has v ps ≡ false) xe n in
      let ex = (==_iff e.0 x).1 (sym xe) in rw (ex, n') (omega (arith, le))
  | inr q ↦ let rest = open_count-pended x ps es f (rw q at h) n in later-pended x e ps es q rest
]

pub open_count-all : (fs : Fixtures) → open_count [] fs ≤ length fs
unfolding open_count
open_count-all [] = omega arith
open_count-all (e ∷ es) = omega (arith, open_count-all es)

module _ (b : Behaviour) (fs : Fixtures) where
  -- Calls with fewer than `n` fixtures left to go through come to an end.
  unfoldable pub Ends : ℕ → (ℕ → Resolver → Option Failure × Resolver) → Type 0
  Ends n go =
      (d : ℕ) (s : Resolver)
      → Kept b fs s
      → open_count s.pending fs < n
      → is_deep (go d s).0 ≡ false

  or_rest-ends :
      (r r' : Option Failure × Resolver)
      → is_deep r.0 ≡ false
      → is_deep r'.0 ≡ false
      → is_deep (or_rest r r').0 ≡ false
  or_rest-ends (none, s) r' h k = k
  or_rest-ends (some f, s) r' h k = h

  pub use_all-Ends :
      (n : ℕ) (go : ℕ → Resolver → Option Failure × Resolver)
      → ((d : ℕ) (s : Resolver) → Kept b fs s → Post b fs (d ∷ []) s (go d s))
      → Ends n go
      → (ds : List ℕ) (s : Resolver) → Kept b fs s
      → open_count s.pending fs < n
      → is_deep (use_all go ds s).0 ≡ false
  unfolding use_all Ends
  use_all-Ends n go one ends [] s k h = refl
  use_all-Ends n go one ends (d ∷ ds) s k h =
      let p = one d s k in
      let h' = subst (λ ps. open_count ps fs < n) (sym p.same) h in
      or_rest-ends (go d s) (use_all go ds (go d s).1) (ends d s k h)
        (use_all-Ends n go one ends ds (go d s).1 p.kept h')

  settle-ends :
      (x : ℕ) (r : Option Failure × Resolver) → is_deep r.0 ≡ false → is_deep (settle x r).0 ≡ false
  unfolding settle
  settle-ends x (none, s) h = refl
  settle-ends x (some f, s) h = h

  thrown-ends : (t : Option ℕ) → is_deep (thrown t) ≡ false
  thrown-ends none = refl
  thrown-ends (some e) = refl

  setup-ends :
      (x : ℕ) (r : Option Failure × Resolver)
      → is_deep r.0 ≡ false
      → is_deep (then_setup b x r).0 ≡ false
  unfolding then_setup
  setup-ends x (none, s) h = thrown-ends (b.setup x).throws
  setup-ends x (some f, s) h = h

  begin-Ends :
      (n : ℕ) (go : ℕ → Resolver → Option Failure × Resolver)
      → ((d : ℕ) (s : Resolver) → Kept b fs s → Post b fs (d ∷ []) s (go d s))
      → Ends n go
      → (x : ℕ) (f : Option Fixture) (s : Resolver) → find_fixture x fs ≡ f
      → Kept b fs s
      → (has x s.done || has x s.failed) ≡ false
      → has x s.pending ≡ false
      → open_count s.pending fs < suc n
      → is_deep (begin b go x f s).0 ≡ false
  unfolding begin
  begin-Ends n go one ends x none s e k u p h = refl
  begin-Ends n go one ends x (some f) s e k u p h =
      let s' : Resolver = record s { pending = x ∷ s.pending } in
      let smaller = open_count-pended x s.pending fs f e p in
      let all =
        use_all-Ends n go one ends f.deps s' (pended-Kept b fs x s k u)
          (omega (arith, smaller, h)) in
      let r = use_all go f.deps s' in
      let setup = settle-ends x (then_setup b x r) (setup-ends x r all) in
      let scoped = settle-ends x (thrown (b.managed x), s') (thrown-ends (b.managed x)) in
      elim (Bool-cases f.scoped) [
        | inl c ↦ rw c scoped
        | inr c ↦ elim (Bool-cases f.is_fn) [ inl i ↦ rw (c, i) setup | inr i ↦ rw (c, i) refl ]
      ]

  unmarked :
      (x : ℕ) (s : Resolver)
      → has x s.done ≡ false
      → has x s.failed ≡ false
      → (has x s.done || has x s.failed) ≡ false
  unmarked x s d f = ground (arith, d, f)

  pub use_fixture-Ends : (n : ℕ) → Ends n (use_fixture b fs n)
  unfolding use_fixture Ends
  use_fixture-Ends zero x s k h = absurd (omega (arith, h))
  use_fixture-Ends (suc n) x s k h = elim (Bool-cases (has x s.done)) [
    | inl d ↦ rw d refl
    | inr d ↦ elim (Bool-cases (has x s.failed)) [
      | inl f ↦ rw (d, f) refl
      | inr f ↦ elim (Bool-cases (has x s.pending)) [
        | inl p ↦ rw (d, f, p) refl
        | inr p ↦
            rw (d, f, p)
              (begin-Ends n (use_fixture b fs n) (use_fixture-Post b fs n) (use_fixture-Ends n) x
                (find_fixture x fs) s refl k (unmarked x s d f) p h)
      ]
    ]
  ]
