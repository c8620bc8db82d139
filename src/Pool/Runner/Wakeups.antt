-- ===== src/Pool/Runner/Wakeups.antt =====
-- What the operations of poolRunner.ts await: no wake-up is lost.
use rstest.Prelude.{
  subst, sym, ℕ, String, ◌≡◌, refl, ◌⊎◌, inl, inr, Bool, true, false, List, [], ◌∷◌, Option, none,
  some, arith, Bool-cases, is_some, any, any-append_left, any-append_right,
}
use rstest.Pool.Runner.State.{
  Exit, Failure, Message, WorkerResponse, CleanupWaiter, Phase, Op, start_op, stop_op, stopper,
  fixtures, Runner, new,
}
use rstest.Pool.Runner.Handlers.{handle_exit, handle_response}
use rstest.Pool.Runner.Lifecycle.{
  SendError, begin, wake_start, wake_cleanup_waiter, wake_waiters, wake_cleanup, wake_stop, wake,
  is_resting, run_queue, settle,
}
use rstest.Pool.Runner.Step.{
  exit, Event, call_cleanup_fixtures, message, worker_started, worker_start_failed, worker_stopped,
  worker_stop_failed, handle, step, steps, worker_answers,
}
use rstest.Pool.Runner.Departure.{departed, handle_exit-departed}
use rstest.Pool.Runner.Invariant.{is_start_ack}

abbrev pub is_stop_cleanup : Phase → Bool
is_stop_cleanup (Phase.stop_cleanup force) = true
is_stop_cleanup _ = false

abbrev pub is_exit_await : Phase → Bool
is_exit_await (Phase.stop_exit err) = true
is_exit_await (Phase.stop_wait force) = true
is_exit_await _ = false

abbrev pub is_stopper : CleanupWaiter → Bool
is_stopper stopper = true
is_stopper fixtures = false

-- Between two events a promise that is awaited is pending, and a queue waits for an operation.
pub record Awaits (r : Runner) : Type 0 where
  pub ack : is_start_ack r.phase ≡ true → r.start_deferred ≡ true
  pub cleaning : is_stop_cleanup r.phase ≡ true → any is_stopper r.cleanup_waiters ≡ true
  pub shared : (r.cleanup_waiters ≡ []) ⊎ (r.cleanup_deferred ≡ true)
  pub exits : is_exit_await r.phase ≡ true → r.stop_deferred ≡ true
  pub queued : is_resting r.phase ≡ true → r.queue ≡ []
  pub start_quiet : r.start_outcome ≡ none
  pub cleanup_quiet : r.cleanup_outcome ≡ none

-- After a handler it is pending or has just settled.
pub record Settled (r : Runner) : Type 0 where
  pub ack :
      is_start_ack r.phase ≡ true → (r.start_deferred ≡ true) ⊎ (is_some r.start_outcome ≡ true)
  pub cleaning : is_stop_cleanup r.phase ≡ true → any is_stopper r.cleanup_waiters ≡ true
  pub shared :
      (r.cleanup_waiters ≡ []) ⊎ ((r.cleanup_deferred ≡ true) ⊎ (is_some r.cleanup_outcome ≡ true))

-- While the waiters `ws` of a settled cleanup go on.
record Waking (ws : List CleanupWaiter) (r : Runner) : Type 0 where
  ack : is_start_ack r.phase ≡ true → r.start_deferred ≡ true
  cleaning : is_stop_cleanup r.phase ≡ true → any is_stopper ws ≡ true
  shared : (r.cleanup_waiters ≡ []) ⊎ (r.cleanup_deferred ≡ true)
  start_quiet : r.start_outcome ≡ none
  cleanup_quiet : r.cleanup_outcome ≡ none

record Woken (r : Runner) : Type 0 where
  ack : is_start_ack r.phase ≡ true → r.start_deferred ≡ true
  cleaning : is_stop_cleanup r.phase ≡ true → any is_stopper r.cleanup_waiters ≡ true
  shared : (r.cleanup_waiters ≡ []) ⊎ (r.cleanup_deferred ≡ true)
  exits : is_exit_await r.phase ≡ true → r.stop_deferred ≡ true
  start_quiet : r.start_outcome ≡ none
  cleanup_quiet : r.cleanup_outcome ≡ none

handle_response-Settled :
    (m : WorkerResponse) (r : Runner) → Awaits r → Settled (handle_response m r)
unfolding handle_response
handle_response-Settled WorkerResponse.started r v = ground arith
handle_response-Settled _ r v = ground arith

worker_answers-Settled :
    (s : SendError) (e : Event) (p : Phase) (r : Runner)
    → r.phase ≡ p
    → Awaits r
    → Settled (worker_answers s e p r)
unfolding worker_answers
worker_answers-Settled s worker_started Phase.start_worker r h v = ground arith
worker_answers-Settled s _ _ r h v = ground arith

exit-Settled : (x : Exit) (r : Runner) → Awaits r → Settled (handle_exit x r)
exit-Settled x r v = subst Settled (sym (handle_exit-departed x r)) (departed-Settled v)
  where
    departed-Settled : Awaits r → Settled (departed x r)
    departed-Settled v = ground arith

pub handle-Settled : (s : SendError) (e : Event) (r : Runner) → Awaits r → Settled (handle s e r)
unfolding handle
handle-Settled s call_cleanup_fixtures r v =
    ground (arith, any-append_left is_stopper r.cleanup_waiters (fixtures ∷ []))
handle-Settled s (message (Message.response_envelope m)) r v = handle_response-Settled m r v
handle-Settled s (exit x) r v = exit-Settled x r v
handle-Settled s worker_started r v = worker_answers-Settled s worker_started r.phase r refl v
handle-Settled s (worker_start_failed e) r v =
    worker_answers-Settled s (worker_start_failed e) r.phase r refl v
handle-Settled s worker_stopped r v = worker_answers-Settled s worker_stopped r.phase r refl v
handle-Settled s (worker_stop_failed e) r v =
    worker_answers-Settled s (worker_stop_failed e) r.phase r refl v
handle-Settled s _ r v = ground arith

begin-Settled :
    (s : SendError) (op : Op) (r : Runner)
    → is_resting r.phase ≡ true
    → Woken r
    → Settled (begin s op r)
unfolding begin
begin-Settled s start_op r q v = ground arith
begin-Settled s (stop_op force) r q v =
    ground (arith, any-append_right is_stopper r.cleanup_waiters (stopper ∷ []))

record Started (r : Runner) : Type 0 where
  ack : is_start_ack r.phase ≡ true → r.start_deferred ≡ true
  cleaning : is_stop_cleanup r.phase ≡ true → any is_stopper r.cleanup_waiters ≡ true
  shared :
      (r.cleanup_waiters ≡ []) ⊎ ((r.cleanup_deferred ≡ true) ⊎ (is_some r.cleanup_outcome ≡ true))
  start_quiet : r.start_outcome ≡ none

wake_start-Started : (r : Runner) → Settled r → Started (wake_start r)
unfolding wake_start
wake_start-Started r v = ground arith

waiter-Waking :
    (o : Option Failure) (w : CleanupWaiter) (ws : List CleanupWaiter) (r : Runner)
    → Waking (w ∷ ws) r
    → Waking ws (wake_cleanup_waiter o w r)
unfolding wake_cleanup_waiter
waiter-Waking o stopper ws r v = ground arith
waiter-Waking o fixtures ws r v = ground arith

wake_waiters-Waking :
    (o : Option Failure) (ws : List CleanupWaiter) (r : Runner)
    → Waking ws r
    → Waking [] (wake_waiters o ws r)
unfolding wake_waiters
wake_waiters-Waking o [] r v = v
wake_waiters-Waking o (w ∷ ws) r v =
    wake_waiters-Waking o ws (wake_cleanup_waiter o w r) (waiter-Waking o w ws r v)

record Cleaned (r : Runner) : Type 0 where
  ack : is_start_ack r.phase ≡ true → r.start_deferred ≡ true
  cleaning : is_stop_cleanup r.phase ≡ true → any is_stopper r.cleanup_waiters ≡ true
  shared : (r.cleanup_waiters ≡ []) ⊎ (r.cleanup_deferred ≡ true)
  start_quiet : r.start_outcome ≡ none
  cleanup_quiet : r.cleanup_outcome ≡ none

Waking-Cleaned : (r : Runner) → Waking [] r → Cleaned r
Waking-Cleaned r v = ground arith

wake_cleanup-Cleaned :
    (o : Option (Option Failure)) (r : Runner)
    → r.cleanup_outcome ≡ o
    → Started r
    → Cleaned (wake_cleanup o r)
unfolding wake_cleanup
wake_cleanup-Cleaned none r h v = ground arith
wake_cleanup-Cleaned (some o) r h v =
    Waking-Cleaned _ (wake_waiters-Waking o r.cleanup_waiters _ (ground arith))

wake_stop-Woken : (r : Runner) → Cleaned r → Woken (wake_stop r)
unfolding wake_stop
wake_stop-Woken r v = ground arith

wake-Woken : (r : Runner) → Settled r → Woken (wake r)
unfolding wake
wake-Woken r v = wake_stop-Woken _ (
    wake_cleanup-Cleaned (wake_start r).cleanup_outcome (wake_start r) refl
      (wake_start-Started r v))

waiting-Awaits :
    (ops : List Op) (r : Runner)
    → is_resting r.phase ≡ false
    → Woken r
    → Awaits (record r { queue = ops })
waiting-Awaits ops r h v = ground arith

resting-Awaits : (r : Runner) → Woken r → Awaits (record r { queue = [] })
resting-Awaits r v = ground arith

run_queue-Awaits :
    (s : SendError) (ops : List Op) (r : Runner)
    → is_resting r.phase ≡ true
    → Woken r
    → Awaits (run_queue s ops r)
unfolding run_queue
run_queue-Awaits s [] r q v = resting-Awaits r v
run_queue-Awaits s (op ∷ ops) r q v = elim (Bool-cases (is_resting r'.phase)) [
  | inl rests ↦ rw rests (run_queue-Awaits s ops r' rests woken)
  | inr waits ↦ rw waits (waiting-Awaits ops r' waits woken)
]
  where
    r' : Runner
    r' = wake (begin s op r)

    woken : Woken r'
    woken = wake-Woken _ (begin-Settled s op r q v)

pub settle-Awaits : (s : SendError) (r : Runner) → Settled r → Awaits (settle s r)
unfolding settle
settle-Awaits s r v = elim (Bool-cases (is_resting (wake r).phase)) [
  | inl rests ↦ rw rests (run_queue-Awaits s (wake r).queue (wake r) rests (wake-Woken r v))
  | inr waits ↦ rw waits (waiting-Awaits (wake r).queue (wake r) waits (wake-Woken r v))
]

pub step-Awaits : (s : SendError) (e : Event) (r : Runner) → Awaits r → Awaits (step s e r)
unfolding step
step-Awaits s e r v = settle-Awaits s _ (handle-Settled s e r v)

new-Awaits : (id : ℕ) (key : String) → Awaits (new id key)
unfolding new
new-Awaits id key = ground arith

steps-Awaits : (s : SendError) (es : List Event) (r : Runner) → Awaits r → Awaits (steps s es r)
unfolding steps
steps-Awaits s [] r v = v
steps-Awaits s (e ∷ es) r v = steps-Awaits s es (step s e r) (step-Awaits s e r v)

-- After every event of every run, what the operation under way awaits is still pending, so some
-- later event can wake it: the start's deferred, the cleanup for `stop`, the exit for `stop`. A
-- caller of the cleanup waits only while its deferred is pending, a queued operation only while
-- another one is under way, and no settled promise is left unnoticed.
pub run-Awaits :
    (s : SendError) (es : List Event) (id : ℕ) (key : String) → Awaits (steps s es (new id key))
run-Awaits s es id key = steps-Awaits s es (new id key) (new-Awaits id key)
