-- ===== src/Runtime/Fixtures/Resolution.antt =====
-- packages/core/src/runtime/runner/fixtures.ts: what the resolution of fixtures leaves.
use rstest.Prelude.{
  ℕ, zero, suc, ==_refl, true, false, ◌||◌, List, [], ◌∷◌, Option, none, some, ◌≡◌, refl, sym, ◌∙◌,
  subst, Bool-cases, inl, inr, arith,
}
use rstest.Runtime.Fixtures.{
  Fixture, Fixtures, Behaviour, Failure, too_deep, missing, threw, previously_failed, circular,
  Resolver, has, find_fixture, thrown, settle, use_all, or_rest, then_setup, begin, use_fixture,
}
use rstest.Runtime.Fixtures.Sets.{keep-absent, all_in, own, deps_of}
use rstest.Runtime.Fixtures.Order.{
  Kept, Post, is_none, ran-Kept, failed-Kept, given-Kept, pended-Kept, value-Kept,
}

all_in-more :
    (ds xs ys : List ℕ)
    → ((x : ℕ) → has x xs ≡ true → has x ys ≡ true)
    → all_in ds xs ≡ true
    → all_in ds ys ≡ true
unfolding all_in
all_in-more [] xs ys m h = refl
all_in-more (d ∷ ds) xs ys m h =
    let rest = all_in-more ds xs ys m in let here = m d in ground (arith, h, rest, here)

next-got :
    (d : ℕ) (ds : List ℕ) (xs ys : List ℕ)
    → all_in (d ∷ []) xs ≡ true
    → ((x : ℕ) → has x xs ≡ true → has x ys ≡ true)
    → all_in ds ys ≡ true
    → all_in (d ∷ ds) ys ≡ true
unfolding all_in
next-got d ds xs ys h m k = let here = m d in ground (arith, h, here, k)

module _ (b : Behaviour) (fs : Fixtures) where
  next-Post :
      (d : ℕ) (ds : List ℕ) (s : Resolver) (r r' : Option Failure × Resolver)
      → is_none r.0 ≡ true
      → Post b fs (d ∷ []) s r
      → Post b fs ds r.1 r'
      → Post b fs (d ∷ ds) s r'
  next-Post d ds s r r' e p q = record {
    kept = q.kept;
    same = q.same ∙ p.same;
    more = λ x h. q.more x (p.more x h);
    got = λ z. next-got d ds r.1.done r'.1.done (p.got e) q.more (q.got z);
  }

  stop-Post :
      (names : List ℕ) (d : ℕ) (s : Resolver) (r : Option Failure × Resolver) (f : Failure)
      → Post b fs (d ∷ []) s r
      → Post b fs names s (some f, r.1)
  stop-Post names d s r f p = record {
    kept = p.kept;
    same = p.same;
    more = p.more;
    got = λ z. absurd (ground (arith, z));
  }

  rest-Post :
      (d : ℕ) (ds : List ℕ) (s : Resolver) (r r' : Option Failure × Resolver)
      → Post b fs (d ∷ []) s r
      → Post b fs ds r.1 r'
      → Post b fs (d ∷ ds) s (or_rest r r')
  rest-Post d ds s (none, t) r' p q = next-Post d ds s (none, t) r' refl p q
  rest-Post d ds s (some f, t) r' p q = stop-Post (d ∷ ds) d s (some f, t) f p

  pub use_all-Post :
      (go : ℕ → Resolver → Option Failure × Resolver)
      → ((d : ℕ) (s : Resolver) → Kept b fs s → Post b fs (d ∷ []) s (go d s))
      → (ds : List ℕ) (s : Resolver) → Kept b fs s
      → Post b fs ds s (use_all go ds s)
  unfolding use_all all_in
  use_all-Post go one [] s k = record { kept = k; same = refl; more = λ x h. h; got = λ z. refl }
  use_all-Post go one (d ∷ ds) s k =
      let p = one d s k in
      let rest = use_all-Post go one ds (go d s).1 p.kept in
      rest-Post d ds s (go d s) (use_all go ds (go d s).1) p rest

  fail-Post : (x : ℕ) (e : Failure) (s : Resolver) → Kept b fs s → Post b fs (x ∷ []) s (some e, s)
  fail-Post x e s k = record {
    kept = k;
    same = refl;
    more = λ y h. h;
    got = λ z. absurd (ground (arith, z));
  }

  settled-pending :
      (x : ℕ) (s : Resolver) (r : Option Failure × Resolver)
      → has x s.pending ≡ false
      → r.1.pending ≡ x ∷ s.pending
      → (settle x r).1.pending ≡ s.pending
  unfolding settle
  settled-pending x s (none, t) n e = rw (e, ==_refl x) (keep-absent x s.pending n)
  settled-pending x s (some f, t) n e = rw (e, ==_refl x) (keep-absent x s.pending n)

  settled-more :
      (x y : ℕ) (r : Option Failure × Resolver)
      → has y r.1.done ≡ true
      → has y (settle x r).1.done ≡ true
  unfolding settle
  settled-more x y (none, t) h = ground (arith, h)
  settled-more x y (some f, t) h = h

  settled-got :
      (x : ℕ) (r : Option Failure × Resolver)
      → is_none (settle x r).0 ≡ true
      → all_in (x ∷ []) (settle x r).1.done ≡ true
  unfolding settle all_in
  settled-got x (none, t) h = rw (==_refl x) refl
  settled-got x (some f, t) h = absurd (ground (arith, h))

  settled-Post :
      (x : ℕ) (s : Resolver) (r : Option Failure × Resolver)
      → Kept b fs (settle x r).1
      → has x s.pending ≡ false
      → r.1.pending ≡ x ∷ s.pending
      → ((y : ℕ) → has y s.done ≡ true → has y r.1.done ≡ true)
      → Post b fs (x ∷ []) s (settle x r)
  settled-Post x s r k n e m = record {
    kept = k;
    same = settled-pending x s r n e;
    more = λ y h. settled-more x y r (m y h);
    got = settled-got x r;
  }

  at_front : (x : ℕ) (ps qs : List ℕ) → ps ≡ x ∷ qs → has x ps ≡ true
  at_front x ps qs e = rw (e, ==_refl x) refl

  managed-Kept :
      (x : ℕ) (t : Option ℕ) (s : Resolver)
      → Kept b fs s
      → own fs x ≡ false
      → Kept b fs (settle x (thrown t, s)).1
  managed-Kept x none s k o = given-Kept b fs x s k o
  managed-Kept x (some e) s k o = failed-Kept b fs x (threw e) s k

  -- After the dependencies, in a state with the fixture pending.
  setup-Kept :
      (x : ℕ) (ds : List ℕ) (s : Resolver) (r : Option Failure × Resolver)
      → deps_of fs x ≡ ds
      → Post b fs ds s r
      → has x r.1.pending ≡ true
      → Kept b fs (settle x (then_setup b x r)).1
  unfolding then_setup
  setup-Kept x ds s (none, t) e p h =
      ran-Kept b fs x (b.setup x).throws t p.kept h (rw e (p.got refl))
  setup-Kept x ds s (some f, t) e p h = failed-Kept b fs x f t p.kept

  setup-pending :
      (x : ℕ) (r : Option Failure × Resolver) → (then_setup b x r).1.pending ≡ r.1.pending
  unfolding then_setup
  setup-pending x (none, t) = refl
  setup-pending x (some f, t) = refl

  setup-done : (x : ℕ) (r : Option Failure × Resolver) → (then_setup b x r).1.done ≡ r.1.done
  unfolding then_setup
  setup-done x (none, t) = refl
  setup-done x (some f, t) = refl

  found-deps : (x : ℕ) (f : Fixture) → find_fixture x fs ≡ some f → deps_of fs x ≡ f.deps
  unfolding deps_of
  found-deps x f e = rw e refl

  scoped-own :
      (x : ℕ) (f : Fixture) → find_fixture x fs ≡ some f → f.scoped ≡ true → own fs x ≡ false
  unfolding own
  scoped-own x f e c = rw e (ground (arith, c))

  value-own :
      (x : ℕ) (f : Fixture) → find_fixture x fs ≡ some f → f.is_fn ≡ false → own fs x ≡ false
  unfolding own
  value-own x f e c = rw e (ground (arith, c))

  value-Post :
      (x : ℕ) (s : Resolver)
      → Kept b fs s
      → has x s.pending ≡ false
      → own fs x ≡ false
      → Post b fs (x ∷ []) s (none, record s { done = x ∷ s.done })
  unfolding all_in
  value-Post x s k p o = record {
    kept = value-Kept b fs x s k o p;
    same = refl;
    more = λ y h. ground (arith, h);
    got = λ z. rw (==_refl x) refl;
  }

  -- A call for a name that is neither done nor failed nor pending.
  begin-Post :
      (go : ℕ → Resolver → Option Failure × Resolver)
      → ((d : ℕ) (s : Resolver) → Kept b fs s → Post b fs (d ∷ []) s (go d s))
      → (x : ℕ) (f : Option Fixture) (s : Resolver) → find_fixture x fs ≡ f
      → Kept b fs s
      → (has x s.done || has x s.failed) ≡ false
      → has x s.pending ≡ false
      → Post b fs (x ∷ []) s (begin b go x f s)
  unfolding begin
  begin-Post go one x none s e k n p = fail-Post x (missing x) s k
  begin-Post go one x (some f) s e k n p =
      let s' : Resolver = record s { pending = x ∷ s.pending } in
      let k' = pended-Kept b fs x s k n in
      let r = use_all go f.deps s' in
      let q = use_all-Post go one f.deps s' k' in
      let t = then_setup b x r in
      elim (Bool-cases f.scoped) [
        | inl c ↦ rw c (
            settled-Post x s (thrown (b.managed x), s')
              (managed-Kept x (b.managed x) s' k' (scoped-own x f e c)) p refl (λ y h. h))
        | inr c ↦ elim (Bool-cases f.is_fn) [
          | inl i ↦
              rw (c, i)
                (settled-Post x s t
                  (setup-Kept x f.deps s' r (found-deps x f e) q
                    (at_front x r.1.pending s.pending q.same))
                  p (setup-pending x r ∙ q.same)
                  (λ y h. subst (λ ds. has y ds ≡ true) (sym (setup-done x r)) (q.more y h)))
          | inr i ↦ rw (c, i) (value-Post x s k p (value-own x f e i))
        ]
      ]

  neither :
      (x : ℕ) (s : Resolver)
      → has x s.done ≡ false
      → has x s.failed ≡ false
      → (has x s.done || has x s.failed) ≡ false
  neither x s d f = ground (arith, d, f)

  done-Post :
      (x : ℕ) (s : Resolver) → Kept b fs s → has x s.done ≡ true → Post b fs (x ∷ []) s (none, s)
  unfolding all_in
  done-Post x s k d = record { kept = k; same = refl; more = λ y h. h; got = λ z. rw d refl }

  pub use_fixture-Post :
      (n x : ℕ) (s : Resolver) → Kept b fs s → Post b fs (x ∷ []) s (use_fixture b fs n x s)
  unfolding use_fixture
  use_fixture-Post zero x s k = fail-Post x too_deep s k
  use_fixture-Post (suc n) x s k =
      let one = use_fixture-Post n in
      let go = use_fixture b fs n in
      elim (Bool-cases (has x s.done)) [
        | inl d ↦ rw d (done-Post x s k d)
        | inr d ↦ elim (Bool-cases (has x s.failed)) [
          | inl f ↦ rw (d, f) (fail-Post x (previously_failed x) s k)
          | inr f ↦ elim (Bool-cases (has x s.pending)) [
            | inl p ↦ rw (d, f, p) (fail-Post x (circular x) s k)
            | inr p ↦
                rw (d, f, p) (begin-Post go one x (find_fixture x fs) s refl k (neither x s d f) p)
          ]
        ]
      ]
