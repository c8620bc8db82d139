-- ===== src/Pool/Runner/Departure.antt =====
-- What the exit handler of poolRunner.ts does to each field of the runner.
use rstest.Prelude.{
  ℕ, ◌≡◌, refl, sym, ap, true, false, if◌then◌else◌, List, [], ◌∷◌, ◌++◌, Option, none, some,
  Bool-cases, inl, inr,
}
use rstest.Pool.Runner.State.{RunnerState, Failure, PendingTask, Exit, Runner, rpc_closed}
use rstest.Pool.Runner.Handlers.{
  is_stopping, reject_start, reject_cleanup, dispose_rpc, reject_current_task_with_stderr,
  exit_failure, handle_exit,
}

abbrev pub with_rejection : Failure → Option PendingTask → List (ℕ × Failure) → List (ℕ × Failure)
with_rejection e none rejections = rejections
with_rejection e (some t) rejections = rejections ++ (t.task_id, e) ∷ []

-- The runner after the exit, field by field.
abbrev pub departed : Exit → Runner → Runner
departed x r = record r {
  exited = true;
  state = RunnerState.stopped;
  rpc = false;
  current_task = none;
  start_deferred = false;
  start_timer = false;
  start_outcome =
      if r.start_deferred then some (some (Failure.exited_before_ack x)) else r.start_outcome;
  cleanup_deferred = false;
  cleanup_timer = if r.cleanup_deferred then false else r.cleanup_timer;
  cleanup_outcome =
      if r.cleanup_deferred then some (some (Failure.exited_in_cleanup x)) else r.cleanup_outcome;
  stop_deferred = false;
  fixture_timer = none;
  settling =
      with_rejection (exit_failure r.last_fatal_error (is_stopping r.state) x) r.current_task
        r.settling;
  out = if r.rpc then rpc_closed ∷ r.out else r.out;
}

reject_cleanup-fields :
    (e : Failure) (r : Runner)
    → reject_cleanup e r ≡ record r {
      cleanup_deferred = false;
      cleanup_timer = if r.cleanup_deferred then false else r.cleanup_timer;
      cleanup_outcome = if r.cleanup_deferred then some (some e) else r.cleanup_outcome;
    }
unfolding reject_cleanup
reject_cleanup-fields e r = elim (Bool-cases r.cleanup_deferred) [
  | inl pending ↦ rw pending refl
  | inr quiet ↦ rw quiet refl
]

dispose_rpc-fields :
    (r : Runner)
    → dispose_rpc r ≡ record r { rpc = false; out = if r.rpc then rpc_closed ∷ r.out else r.out }
unfolding dispose_rpc
dispose_rpc-fields r = elim (Bool-cases r.rpc) [
  | inl installed ↦ rw installed refl
  | inr closed ↦ rw closed refl
]

reject_start-fields :
    (e : Failure) (r : Runner)
    → r.start_timer ≡ false
    → reject_start e r ≡ record r {
      start_deferred = false;
      start_outcome = if r.start_deferred then some (some e) else r.start_outcome;
    }
unfolding reject_start
reject_start-fields e r h = elim (Bool-cases r.start_deferred) [
  | inl pending ↦ rw pending (
      ap (λ b. record r { start_deferred = false; start_timer = b; start_outcome = some (some e) })
        (sym h))
  | inr quiet ↦ rw quiet refl
]

reject_task-fields :
    (e : Failure) (r : Runner) (t : Option PendingTask)
    → r.current_task ≡ t
    → r.fixture_timer ≡ none
    → reject_current_task_with_stderr e r
      ≡ record r { current_task = none; settling = with_rejection e t r.settling }
unfolding reject_current_task_with_stderr
reject_task-fields e r none h f = rw h refl
reject_task-fields e r (some t) h f = rw h (
    ap
      (λ c. record r {
        current_task = none;
        fixture_timer = c;
        settling = r.settling ++ (t.task_id, e) ∷ [];
      })
      (sym f))

pub handle_exit-departed : (x : Exit) (r : Runner) → handle_exit x r ≡ departed x r
unfolding handle_exit
handle_exit-departed x r =
    let failure = exit_failure r.last_fatal_error (is_stopping r.state) x in
    let closed : Runner = record r {
      exited = true;
      state = RunnerState.stopped;
      rpc = false;
      start_timer = false;
      cleanup_deferred = false;
      cleanup_timer = if r.cleanup_deferred then false else r.cleanup_timer;
      cleanup_outcome =
          if r.cleanup_deferred
          then some (some (Failure.exited_in_cleanup x))
          else r.cleanup_outcome;
      fixture_timer = none;
      out = if r.rpc then rpc_closed ∷ r.out else r.out;
    } in
    rw
      (
        reject_cleanup-fields (Failure.exited_in_cleanup x)
            (record r { exited = true; start_timer = false; fixture_timer = none }),
        dispose_rpc-fields,
        reject_start-fields (Failure.exited_before_ack x) closed refl,
      )
      (reject_task-fields failure _ r.current_task refl refl)
