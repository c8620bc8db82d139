-- ===== src/Runtime/Fixtures/Order.antt =====
-- packages/core/src/runtime/runner/fixtures.ts: the order in which fixtures start and end.
use rstest.Prelude.{
  ℕ, ◌≤◌, ◌==◌, ==_iff, Bool, true, false, not, ◌||◌, List, [], ◌∷◌, Option, none, some, ◌≡◌, refl,
  sym, subst, keep, count_if, Bool-cases, inl, inr, arith,
}
use rstest.Runtime.Fixtures.{
  Fixtures, Behaviour, Failure, Resolver, has, thrown, settle, call_setup,
}
use rstest.Runtime.Fixtures.Sets.{
  has-keep, count-absent, all_in, own, deps_of, all_after, before_deps,
}

pub record Kept (b : Behaviour) (fs : Fixtures) (s : Resolver) : Type 0 where
  pub called_settled : (x : ℕ) → has x s.set_up ≡ true → (has x s.done || has x s.failed) ≡ true
  pub open_pending : (x : ℕ) → has x s.pending ≡ true → (has x s.done || has x s.failed) ≡ false
  pub once : (x : ℕ) → count_if (x ==◌) s.set_up ≤ 1
  pub done_called : (x : ℕ) → has x s.done ≡ true → own fs x ≡ true → has x s.set_up ≡ true
  pub order : before_deps (own fs) fs s.set_up ≡ true
  pub queue : s.cleanups ≡ keep (λ x. (b.setup x).registers) s.set_up

abbrev pub is_none : Option Failure → Bool
is_none none = true
is_none (some e) = false

-- What a call leaves, for the names that it was to resolve.
pub record Post (b : Behaviour) (fs : Fixtures) (names : List ℕ) (s : Resolver)
    (r : Option Failure × Resolver) : Type 0 where
  pub kept : Kept b fs r.1
  pub same : r.1.pending ≡ s.pending
  pub more : (x : ℕ) → has x s.done ≡ true → has x r.1.done ≡ true
  pub got : is_none r.0 ≡ true → all_in names r.1.done ≡ true

deps-placed :
    (b : Behaviour) (fs : Fixtures) (s : Resolver) (ds : List ℕ)
    → Kept b fs s
    → all_in ds s.done ≡ true
    → all_after (own fs) ds s.set_up ≡ true
unfolding all_in all_after
deps-placed b fs s [] k h = refl
deps-placed b fs s (d ∷ ds) k h =
    let rest = deps-placed b fs s ds k in
    let here = k.done_called d in ground (arith, h, rest, here)

fresh-pending :
    (b : Behaviour) (fs : Fixtures) (x : ℕ) (s : Resolver)
    → Kept b fs s
    → has x s.pending ≡ true
    → has x s.set_up ≡ false
fresh-pending b fs x s k p =
    let c = k.called_settled x in let o = k.open_pending x p in ground (arith, c, o)

still-pending :
    (x y : ℕ) (ps : List ℕ)
    → has y (keep (λ z. not (x == z)) ps) ≡ true
    → (has y ps ≡ true) × (has y (x ∷ []) ≡ false)
still-pending x y ps h = let e = has-keep x y ps in ground (arith, h, e)

pushed-once :
    (x y : ℕ) (xs : List ℕ)
    → has x xs ≡ false
    → count_if (y ==◌) xs ≤ 1
    → count_if (y ==◌) (x ∷ xs) ≤ 1
pushed-once x y xs h c = elim (Bool-cases (y == x)) [
  | inl e ↦
      let z = count-absent y xs (subst (λ v. has v xs ≡ false) (sym ((==_iff y x).0 e)) h) in
      rw e (omega (arith, z))
  | inr e ↦ rw e (omega (arith, c))
]

-- The fixture's function is called, and the fixture is done or has failed.
pub ran-Kept :
    (b : Behaviour) (fs : Fixtures) (x : ℕ) (t : Option ℕ) (s : Resolver)
    → Kept b fs s
    → has x s.pending ≡ true
    → all_in (deps_of fs x) s.done ≡ true
    → Kept b fs (settle x (thrown t, (call_setup b x s).1)).1
unfolding settle before_deps
ran-Kept b fs x none s k p d =
    let fresh = fresh-pending b fs x s k p in
    record {
      called_settled = λ y h. let c = k.called_settled y in ground (arith, h, c);
      open_pending = λ y h.
          let w = still-pending x y s.pending h in
          let o = k.open_pending y w.0 in let n = w.1 in ground (arith, o, n);
      once = λ y. pushed-once x y s.set_up fresh (k.once y);
      done_called = λ y h o. let c = k.done_called y in ground (arith, h, o, c);
      order = let e = deps-placed b fs s (deps_of fs x) k d in rw (e, k.order) refl;
      queue = rw k.queue refl;
    }
ran-Kept b fs x (some e) s k p d =
    let fresh = fresh-pending b fs x s k p in
    record {
      called_settled = λ y h. let c = k.called_settled y in ground (arith, h, c);
      open_pending = λ y h.
          let w = still-pending x y s.pending h in
          let o = k.open_pending y w.0 in let n = w.1 in ground (arith, o, n);
      once = λ y. pushed-once x y s.set_up fresh (k.once y);
      done_called = λ y h o. let c = k.done_called y h o in ground (arith, c);
      order = let e = deps-placed b fs s (deps_of fs x) k d in rw (e, k.order) refl;
      queue = rw k.queue refl;
    }

given-called :
    (fs : Fixtures) (x y : ℕ) (done set_up : List ℕ)
    → own fs x ≡ false
    → has y (x ∷ done) ≡ true
    → own fs y ≡ true
    → (has y done ≡ true → own fs y ≡ true → has y set_up ≡ true)
    → has y set_up ≡ true
given-called fs x y done set_up n h o k = elim (Bool-cases (y == x)) [
  | inl e ↦
      let f = subst (λ v. own fs v ≡ false) (sym ((==_iff y x).0 e)) n in
      absurd (ground (arith, f, o))
  | inr e ↦ k (rw e at h) o
]

pended-open :
    (x y : ℕ) (s : Resolver)
    → has y (x ∷ s.pending) ≡ true
    → (has x s.done || has x s.failed) ≡ false
    → (has y s.pending ≡ true → (has y s.done || has y s.failed) ≡ false)
    → (has y s.done || has y s.failed) ≡ false
pended-open x y s h n k = elim (Bool-cases (y == x)) [
  | inl e ↦ subst (λ v. (has v s.done || has v s.failed) ≡ false) (sym ((==_iff y x).0 e)) n
  | inr e ↦ k (rw e at h)
]

value-open :
    (x y : ℕ) (s : Resolver)
    → has y s.pending ≡ true
    → has x s.pending ≡ false
    → (has y s.pending ≡ true → (has y s.done || has y s.failed) ≡ false)
    → (has y (x ∷ s.done) || has y s.failed) ≡ false
value-open x y s h n k = elim (Bool-cases (y == x)) [
  | inl e ↦
      let p = subst (λ v. has v s.pending ≡ false) (sym ((==_iff y x).0 e)) n in
      absurd (ground (arith, p, h))
  | inr e ↦ rw e (k h)
]

-- The fixture has failed before its function was called.
pub failed-Kept :
    (b : Behaviour) (fs : Fixtures) (x : ℕ) (e : Failure) (s : Resolver)
    → Kept b fs s
    → Kept b fs (settle x (some e, s)).1
unfolding settle
failed-Kept b fs x e s k = record {
  called_settled = λ y h. let c = k.called_settled y in ground (arith, h, c);
  open_pending = λ y h.
      let w = still-pending x y s.pending h in
      let o = k.open_pending y w.0 in let n = w.1 in ground (arith, o, n);
  once = k.once;
  done_called = k.done_called;
  order = k.order;
  queue = k.queue;
}

-- The fixture is done, and its function is not the resolver's to call.
pub given-Kept :
    (b : Behaviour) (fs : Fixtures) (x : ℕ) (s : Resolver)
    → Kept b fs s
    → own fs x ≡ false
    → Kept b fs (settle x (none, s)).1
unfolding settle
given-Kept b fs x s k n = record {
  called_settled = λ y h. let c = k.called_settled y in ground (arith, h, c);
  open_pending = λ y h.
      let w = still-pending x y s.pending h in
      let o = k.open_pending y w.0 in let n = w.1 in ground (arith, o, n);
  once = k.once;
  done_called = λ y h o. given-called fs x y s.done s.set_up n h o (k.done_called y);
  order = k.order;
  queue = k.queue;
}

pub pended-Kept :
    (b : Behaviour) (fs : Fixtures) (x : ℕ) (s : Resolver)
    → Kept b fs s
    → (has x s.done || has x s.failed) ≡ false
    → Kept b fs (record s { pending = x ∷ s.pending })
pended-Kept b fs x s k n = record {
  called_settled = k.called_settled;
  open_pending = λ y h. pended-open x y s h n (k.open_pending y);
  once = k.once;
  done_called = k.done_called;
  order = k.order;
  queue = k.queue;
}

pub value-Kept :
    (b : Behaviour) (fs : Fixtures) (x : ℕ) (s : Resolver)
    → Kept b fs s
    → own fs x ≡ false
    → has x s.pending ≡ false
    → Kept b fs (record s { done = x ∷ s.done })
value-Kept b fs x s k n p = record {
  called_settled = λ y h. let c = k.called_settled y in ground (arith, h, c);
  open_pending = λ y h. value-open x y s h p (k.open_pending y);
  once = k.once;
  done_called = λ y h o. given-called fs x y s.done s.set_up n h o (k.done_called y);
  order = k.order;
  queue = k.queue;
}
