-- ===== src/Runtime/Concurrency/Limits.antt =====
-- packages/core/src/runtime/runner/task.ts: how many tasks `limitConcurrency` runs, and which.
use rstest.Prelude.{
  ℕ, suc, ◌+◌, ◌≤◌, ◌<◌, ltb, ◌==◌, true, false, List, [], ◌∷◌, ◌++◌, some, ◌≡◌, refl, sym, ap, ◌∙◌,
  subst, ◌⊎◌, inl, inr, length, length-append, take, take-append, take-long, any, Bool-cases,
  lt→ltb, arith,
}
use mathlib.Core.List.{append_assoc, append-nil}
use rstest.Runtime.Concurrency.{
  Limiter, Event, call, finish, new, start, run_next, add_task, remove_one, release, finish_task,
  step, run_events, calls_of,
}

length-remove_one :
    (id : ℕ) (xs : List ℕ) → any (id ==◌) xs ≡ true → suc (length (remove_one id xs)) ≡ length xs
unfolding remove_one
length-remove_one id [] h = absurd (ground (arith, h))
length-remove_one id (x ∷ xs) h = elim (Bool-cases (id == x)) [
  | inl e ↦ rw e refl
  | inr e ↦ rw e (omega (arith, length-remove_one id xs (rw e at h)))
]

-- What holds between events, with the limit `n`.
record Limited (n : ℕ) (calls : List ℕ) (l : Limiter) : Type 0 where
  order : l.started ++ l.queue ≡ calls
  counted : length l.active ≡ l.running
  bounded : l.running ≤ n
  spent : length l.started ≡ l.running + length l.settled
  busy : (l.queue ≡ []) ⊎ (l.running ≡ n)

new-Limited : (n : ℕ) → Limited n [] new
unfolding new
new-Limited n = record {
  order = refl;
  counted = refl;
  bounded = omega arith;
  spent = refl;
  busy = inl refl;
}

length_snoc : (xs : List ℕ) (x : ℕ) → length (xs ++ x ∷ []) ≡ suc (length xs)
length_snoc xs x = let h = length-append xs (x ∷ []) in omega (arith, h)

room-order :
    (id : ℕ) (started queue calls : List ℕ)
    → queue ≡ []
    → started ++ queue ≡ calls
    → (started ++ id ∷ []) ++ queue ≡ calls ++ id ∷ []
room-order id started queue calls e h =
    subst (λ q. (started ++ id ∷ []) ++ q ≡ calls ++ id ∷ []) (sym e)
      (append-nil (started ++ id ∷ [])
        ∙ ap (λ t. t ++ id ∷ []) (sym (append-nil started) ∙ ap (λ q. started ++ q) (sym e) ∙ h))

is_idle :
    (n : ℕ) (calls : List ℕ) (l : Limiter)
    → Limited n calls l
    → ltb l.running n ≡ true
    → l.queue ≡ []
is_idle n calls l v e = elim v.busy [ inl q ↦ q | inr r ↦ absurd (ground (arith, r, e)) ]

started-Limited :
    (n id : ℕ) (calls : List ℕ) (l : Limiter)
    → Limited n calls l
    → ltb l.running n ≡ true
    → Limited n (calls ++ id ∷ []) (start id l.queue l)
started-Limited n id calls l v e =
    let q = is_idle n calls l v e in
    record {
      order = room-order id l.started l.queue calls q v.order;
      counted = omega (arith, v.counted);
      bounded = ground (arith, e);
      spent = omega (arith, v.spent, length_snoc l.started id);
      busy = inl q;
    }

queued-Limited :
    (n id : ℕ) (calls : List ℕ) (l : Limiter)
    → Limited n calls l
    → ltb l.running n ≡ false
    → Limited n (calls ++ id ∷ []) (record l { queue = l.queue ++ id ∷ [] })
queued-Limited n id calls l v e = record {
  order = sym (append_assoc l.started l.queue (id ∷ [])) ∙ ap (λ t. t ++ id ∷ []) v.order;
  counted = v.counted;
  bounded = v.bounded;
  spent = v.spent;
  busy = inr (ground (arith, e, v.bounded));
}

add_task-Limited :
    (n id : ℕ) (calls : List ℕ) (l : Limiter)
    → Limited n calls l
    → Limited n (calls ++ id ∷ []) (add_task (some n) id l)
unfolding add_task
add_task-Limited n id calls l v = elim (Bool-cases (ltb l.running n)) [
  | inl e ↦ rw e (started-Limited n id calls l v e)
  | inr e ↦ rw e (queued-Limited n id calls l v e)
]

-- Once a task has settled, there is room; only a task that waits may fill it.
record Released (n : ℕ) (calls : List ℕ) (l : Limiter) : Type 0 where
  order : l.started ++ l.queue ≡ calls
  counted : length l.active ≡ l.running
  room : l.running < n
  spent : length l.started ≡ l.running + length l.settled
  busy : (l.queue ≡ []) ⊎ (suc l.running ≡ n)

release-Released :
    (n id : ℕ) (calls : List ℕ) (l : Limiter)
    → Limited n calls l
    → any (id ==◌) l.active ≡ true
    → Released n calls (release id l)
release-Released n id calls l v e =
    let h = length-remove_one id l.active e in
    record {
      order = v.order;
      counted = omega (arith, h, v.counted);
      room = omega (arith, h, v.counted, v.bounded);
      spent = omega (arith, h, v.counted, v.spent);
      busy = elim v.busy [ inl q ↦ inl q | inr r ↦ inr (omega (arith, h, v.counted, r)) ];
    }

fill-Limited :
    (n : ℕ) (calls queue : List ℕ) (l : Limiter)
    → l.queue ≡ queue
    → Released n calls l
    → Limited n calls (run_next (some n) queue l)
unfolding run_next
fill-Limited n calls [] l e v = record {
  order = v.order;
  counted = v.counted;
  bounded = omega (arith, v.room);
  spent = v.spent;
  busy = inl e;
}
fill-Limited n calls (id ∷ rest) l e v =
    let full : suc l.running ≡ n = elim v.busy [
      | inl q ↦ absurd (ground (arith, e, q))
      | inr r ↦ r
    ] in
    let after : Limited n calls (start id rest l) = record {
      order = append_assoc l.started (id ∷ []) rest ∙ ap (λ q. l.started ++ q) (sym e) ∙ v.order;
      counted = omega (arith, v.counted);
      bounded = omega (arith, v.room);
      spent = omega (arith, v.spent, length_snoc l.started id);
      busy = inr full;
    } in
    rw (lt→ltb l.running n v.room) after

finish_task-Limited :
    (n id : ℕ) (calls : List ℕ) (l : Limiter)
    → Limited n calls l
    → Limited n calls (finish_task (some n) id l)
unfolding finish_task
finish_task-Limited n id calls l v = elim (Bool-cases (any (id ==◌) l.active)) [
  | inl e ↦
      rw e (fill-Limited n calls l.queue (release id l) refl (release-Released n id calls l v e))
  | inr e ↦ rw e v
]

events-Limited :
    (n : ℕ) (es : List Event) (calls : List ℕ) (l : Limiter)
    → Limited n calls l
    → Limited n (calls ++ calls_of es) (run_events (some n) es l)
unfolding run_events calls_of step
events-Limited n [] calls l v = rw (append-nil calls) v
events-Limited n (call id ∷ es) calls l v = rw (sym (append_assoc calls (id ∷ []) (calls_of es))) (
    events-Limited n es (calls ++ id ∷ []) (add_task (some n) id l)
      (add_task-Limited n id calls l v))
events-Limited n (finish id ∷ es) calls l v =
    events-Limited n es calls (finish_task (some n) id l) (finish_task-Limited n id calls l v)

run-Limited : (n : ℕ) (es : List Event) → Limited n (calls_of es) (run_events (some n) es new)
run-Limited n es = events-Limited n es [] new (new-Limited n)

started-first :
    (n : ℕ) (calls : List ℕ) (l : Limiter)
    → Limited n calls l
    → l.started ≡ take (n + length l.settled) calls
started-first n calls l v = elim v.busy [
  | inl q ↦
      let all : l.started ≡ calls =
        sym (append-nil l.started) ∙ ap (λ q. l.started ++ q) (sym q) ∙ v.order in
      all
      ∙ sym (
          take-long (n + length l.settled) calls (rw (sym all) (omega (arith, v.spent, v.bounded))))
  | inr r ↦
      let e : length l.started ≡ n + length l.settled = omega (arith, v.spent, r) in
      rw (sym v.order, sym e) (sym (take-append l.started l.queue))
]

-- Refinement of a plain specification: along every run with the limit `n`, the tasks that have started
-- are the first ones of those handed over, in their order, as many as have settled and `n` more; and at
-- most `n` run at once.
pub run_events-first :
    (n : ℕ) (es : List Event)
    → ((run_events (some n) es new).started
        ≡ take (n + length (run_events (some n) es new).settled) (calls_of es))
      × (length (run_events (some n) es new).active ≤ n)
run_events-first n es =
    let v = run-Limited n es in
    (
      started-first n (calls_of es) (run_events (some n) es new) v,
      omega (arith, v.counted, v.bounded),
    )
