-- ===== src/Engine/Jobs/Settlement.antt =====
-- How the outcome of an execution is recorded: `settle`, `succeed` and `fail` of
-- backend/src/engine/runner.ts.
use background_job_runner.Prelude.{
  ℕ, ◌+◌, ◌≡◌, ◌≢◌, ◌⊎◌, inl, inr, Bool-cases, ==_iff, ap, Bool, true, false, ◌&&◌, [], none, some,
  arith, At, ltb, if◌then◌else◌,
}
use background_job_runner.Types.{
  TaskStatus, TaskRow, TaskError, EngineConfig, WorkerResult, status_eq,
}
use background_job_runner.Types.Events.{TaskEventType, Detail}
use background_job_runner.Errors.{Result, ok, err}
use background_job_runner.Repository.Schema.{keys_ok, active}
use background_job_runner.Repository.Writes.{selects, apply_patch}
use background_job_runner.Repository.Writes.Effects.{is_some_eq_lem}
use background_job_runner.Repository.Operations.{TransitionInput}
use background_job_runner.Engine.World.{World, Action, continue, pure}
use background_job_runner.Engine.Runner.{transition}
use background_job_runner.Engine.Runner.Written.{Unchanged, Writes}
use background_job_runner.Engine.Runner.Transitions.{Unchanged-transition, transition-Writes}
use background_job_runner.Engine.Jobs.{
  Moment, backoff_for, running_here, ignore, fail_retry, stored_error, fail_terminal, fail, or_null,
  succeed, reported_error, settle,
}

-- The decision that `fail` takes.
abbrev pub has_budget : TaskRow → TaskError → Bool
has_budget task error = error.retryable && ltb task.attempts task.max_attempts

-- The row of a task that ran, once its outcome is recorded.
abbrev pub failed_row : EngineConfig → Moment → TaskRow → TaskError → Bool → TaskRow → TaskRow
failed_row config m task error true t = record t {
  status = TaskStatus.queued;
  error = some error;
  runner_id = none;
  lease_until = none;
  run_after = m.at + backoff_for config m.random task.attempts;
  updated_at = m.at;
}
failed_row config m task error false t = record t {
  status = TaskStatus.failed;
  error = some (stored_error task error);
  runner_id = none;
  lease_until = none;
  updated_at = m.at;
}

abbrev pub settled_row : EngineConfig → Moment → TaskRow → WorkerResult → TaskRow → TaskRow
settled_row config m task (WorkerResult.ready result) t = record t {
  status = TaskStatus.ready;
  result = or_null result;
  error = none;
  runner_id = none;
  lease_until = none;
  updated_at = m.at;
}
settled_row config m task (WorkerResult.failed error) t =
    failed_row config m task (reported_error error) (has_budget task (reported_error error)) t

abbrev pub failed_type : Bool → TaskEventType
failed_type true = TaskEventType.retry_scheduled
failed_type false = TaskEventType.failed

abbrev pub settled_type : TaskRow → WorkerResult → TaskEventType
settled_type task (WorkerResult.ready result) = TaskEventType.ready
settled_type task (WorkerResult.failed error) = failed_type (has_budget task (reported_error error))

abbrev pub Settles : Action (Unit {0}) → World → TaskRow → TaskRow → TaskEventType → Type 0
Settles action w t u type = (v : World) × (action w ≡ (ok tt, v)) × Writes w v t u type

-- The task does not run, or not under this runner.
abbrev pub IsElsewhere : EngineConfig → TaskRow → Type 0
IsElsewhere config t = (t.status ≢ TaskStatus.running) ⊎ (t.runner_id ≢ some config.runner_id)

running_of : (s : TaskStatus) → status_eq s TaskStatus.running ≡ true → s ≡ TaskStatus.running
running_of s h = ground arith

unselected :
    (config : EngineConfig) (id : ℕ) (t : TaskRow)
    → (t.id ≡ id → IsElsewhere config t)
    → selects id (running_here config) t ≡ false
unselected config id t h = elim (Bool-cases (selects id (running_here config) t)) [
  | inr e ↦ e
  | inl e ↦
      let same : t.id ≡ id = (==_iff t.id id).0 (ground arith) in
      absurd (elim (h same) [
        | inl idle ↦ idle (running_of t.status (ground arith))
        | inr foreign ↦ foreign (is_some_eq_lem t.runner_id config.runner_id (ground arith))
      ])
]

active-of_selected :
    (config : EngineConfig) (id : ℕ) (t : TaskRow)
    → selects id (running_here config) t ≡ true
    → active t ≡ true
active-of_selected config id t h = ground arith

ignored {ℓ} :
    {A : Type ℓ} (m : Action A) (w : World) {a : A} {v : World}
    → m w ≡ (ok a, v)
    → ignore m w ≡ (ok tt, v)
ignored {A = A} m w h = ap (λ (r : Result A × World). continue r.0 (λ _. pure tt) r.1) h

Unchanged-ignored {ℓ} :
    {A : Type ℓ} (w : World) (r : Result A × World)
    → Unchanged w r.1
    → Unchanged w (continue {ℓ, 0} r.0 (λ _. pure tt) r.1).1
Unchanged-ignored w (ok a, v) u = u
Unchanged-ignored w (err e, v) u = u

module _ (config : EngineConfig) (m : Moment) (task : TaskRow) (w : World) where
  module _
      (away : (t : TaskRow)
        → At t w.db.tasks
        → selects task.id (running_here config) t ≡ false) where
    Unchanged-fail_test :
        (b : Bool) (error : TaskError) (detail : Detail)
        → Unchanged w
            ((if b
                then fail_retry config m task error detail
                else fail_terminal config m task error detail)
              w).1
    unfolding fail_retry fail_terminal
    Unchanged-fail_test true error detail =
        Unchanged-ignored w (transition _ m.at w) (Unchanged-transition _ m.at w away)
    Unchanged-fail_test false error detail =
        Unchanged-ignored w (transition _ m.at w) (Unchanged-transition _ m.at w away)

  Unchanged-settle_away :
      (result : WorkerResult)
      → ((t : TaskRow) → At t w.db.tasks → selects task.id (running_here config) t ≡ false)
      → Unchanged w (settle config m task result w).1
  unfolding settle succeed fail
  Unchanged-settle_away (WorkerResult.ready result) away =
      Unchanged-ignored w (transition _ m.at w) (Unchanged-transition _ m.at w away)
  Unchanged-settle_away (WorkerResult.failed error) away =
      Unchanged-fail_test away (has_budget task (reported_error error)) (reported_error error) []

  -- An outcome that comes when the task is not running any more, because it was cancelled, queued again or
  -- settled, or is running under another runner that took it over, changes neither the tables nor the bus.
  pub Unchanged-settle :
      (result : WorkerResult)
      → ((t : TaskRow) → At t w.db.tasks → t.id ≡ task.id → IsElsewhere config t)
      → Unchanged w (settle config m task result w).1
  Unchanged-settle result gone =
      Unchanged-settle_away result (λ t i. unselected config task.id t (λ same. gone t i same))

  settles :
      (input : TransitionInput) (t : TaskRow)
      → w.db.faults ≡ []
      → keys_ok w.db.tasks ≡ true
      → ((s : TaskRow) → selects input.task_id input.guard s ≡ true → active s ≡ true)
      → At t w.db.tasks
      → selects input.task_id input.guard t ≡ true
      → Settles (ignore (transition input m.at)) w t (apply_patch input.patch m.at t) input.type
  settles input t calm k alive i h =
      let (v, ran, writes) = transition-Writes input m.at w t calm k alive i h in
      (v, ignored (transition input m.at) w ran, writes)

  settles-failed :
      (b : Bool) (error : TaskError) (detail : Detail) (t : TaskRow)
      → w.db.faults ≡ []
      → keys_ok w.db.tasks ≡ true
      → At t w.db.tasks
      → selects task.id (running_here config) t ≡ true
      → Settles
          (if b
            then fail_retry config m task error detail
            else fail_terminal config m task error detail)
          w
          t
          (failed_row config m task error b t)
          (failed_type b)
  unfolding fail_retry fail_terminal
  settles-failed true error detail t calm k i h =
      settles _ t calm k (active-of_selected config task.id) i h
  settles-failed false error detail t calm k i h =
      settles _ t calm k (active-of_selected config task.id) i h

  -- The outcome of a task that runs under this runner is recorded, on a connection without faults and
  -- tables with valid keys: a result makes the row ready, a transient error below the attempt budget
  -- queues it again after the backoff, any other error fails it; owner and lease are cleared, one
  -- event of the matching type is appended and published, and no row with another id is touched.
  pub settle-Settles :
      (result : WorkerResult) (t : TaskRow)
      → w.db.faults ≡ []
      → keys_ok w.db.tasks ≡ true
      → At t w.db.tasks
      → selects task.id (running_here config) t ≡ true
      → Settles
          (settle config m task result)
          w
          t
          (settled_row config m task result t)
          (settled_type task result)
  unfolding settle succeed fail
  settle-Settles (WorkerResult.ready result) t calm k i h =
      settles _ t calm k (active-of_selected config task.id) i h
  settle-Settles (WorkerResult.failed error) t calm k i h =
      settles-failed (has_budget task (reported_error error)) (reported_error error) [] t calm k i h
