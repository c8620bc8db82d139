-- ===== src/Browser/Dispatch/Stale.antt =====
-- packages/browser/src/runSession.ts, packages/browser/src/dispatchRouter.ts: requests of old runs.
use rstest.Prelude.{
  ℕ, ◌≤◌, ◌<◌, Bool, true, false, List, [], ◌∷◌, some, ◌≡◌, refl, any, inl, inr, Bool-cases, arith,
}
use rstest.Browser.Dispatch.{
  Lifecycle, Event, creates, invalidates, cancels_active, clears, cancels, step, steps, cancel,
  cancel_active, Request, Answer, Router, dispatch, stale, is_token_stale,
}

abbrev pub advances : Event → Bool
advances creates = true
advances invalidates = true
advances _ = false

step-token : (e : Event) (l : Lifecycle) → l.current_token ≤ (step e l).current_token
unfolding step cancel cancel_active
step-token creates l = omega arith
step-token invalidates l = omega arith
step-token cancels_active l = ground arith
step-token (clears token) l = ground arith
step-token (cancels token) l = ground arith

step-advances :
    (e : Event) (l : Lifecycle) → advances e ≡ true → l.current_token < (step e l).current_token
unfolding step
step-advances creates l h = omega arith
step-advances invalidates l h = omega arith
step-advances cancels_active l h = absurd (ground (arith, h))
step-advances (clears token) l h = absurd (ground (arith, h))
step-advances (cancels token) l h = absurd (ground (arith, h))

steps-token : (es : List Event) (l : Lifecycle) → l.current_token ≤ (steps es l).current_token
unfolding steps
steps-token [] l = omega arith
steps-token (e ∷ es) l = omega (arith, step-token e l, steps-token es (step e l))

steps-advance :
    (es : List Event) (l : Lifecycle)
    → any advances es ≡ true
    → l.current_token < (steps es l).current_token
unfolding steps
steps-advance [] l h = absurd (ground (arith, h))
steps-advance (e ∷ es) l h = elim (Bool-cases (advances e)) [
  | inl a ↦ omega (arith, step-advances e l a, steps-token es (step e l))
  | inr a ↦ omega (arith, step-token e l, steps-advance es (step e l) (rw a at h))
]

old-IsStale : (l : Lifecycle) (token : ℕ) → token < l.current_token → is_token_stale l token ≡ true
old-IsStale l token h = ground (arith, h)

-- Once a run has been created or the active token invalidated, a request with the token of an earlier
-- generation is answered as stale, and no handler is called for it, whatever else has happened.
pub dispatch-stale :
    (answers : ℕ → Request → Answer) (l : Lifecycle) (es : List Event) (q : Request) (r : Router)
    (token : ℕ)
    → q.run_token ≡ some token
    → token ≤ l.current_token
    → any advances es ≡ true
    → ((dispatch answers (steps es l) q r).0.answer ≡ stale)
      × ((dispatch answers (steps es l) q r).1.handled ≡ r.handled)
unfolding dispatch
dispatch-stale answers l es q r token e le a =
    let old = old-IsStale (steps es l) token (omega (arith, le, steps-advance es l a)) in
    (rw (e, old) refl, rw (e, old) refl)
