-- ===== src/Refinement/Jobs.antt =====
-- The execution of a claimed task (backend/src/engine/runner.ts) against the life of tasks.
use background_job_runner.Prelude.{
  ℕ, ◌+◌, ◌≡◌, refl, Bool, true, false, [], arith, if_elim, ltb, ◌&&◌,
}
use background_job_runner.Types.{TaskStatus, TaskRow, TaskError, Value, EngineConfig, WorkerResult}
use background_job_runner.Types.Events.{Detail}
use background_job_runner.Errors.{Thrown, Result, ok, err}
use background_job_runner.Repository.Writes.{selects}
use background_job_runner.Engine.World.{World, Action, pure, modify, in_flight_delete}
use background_job_runner.Engine.Jobs.{
  Moment, backoff_for, running_here, ignore, fail_retry, stored_error, fail_terminal, fail,
  fail_timeout, or_null, succeed, reported_error, settle, record_started, RaceResult, returned,
  rejected, Execution, no_worker_error, conclude, on_error, race, after_started, attempt, released,
  run_one,
}
use background_job_runner.Lifecycle.{rescheduled, failed, finished}
use background_job_runner.Refinement.Rules.{Advances, Advances-refl, Advances-trans}
use background_job_runner.Refinement.Store.{Grows-insert_event}
use background_job_runner.Refinement.Actions.{
  Moves, IsCalm, Moves-pure, Moves-raise, Moves-store, Moves-if, Moves-modify, Moves-bind,
  Moves-try_catch, Moves-try_finally,
}
use background_job_runner.Refinement.Runner.{
  IsCalm-publish_event, Moves-transition, IsCalm-schedule_tick,
}

-- What a runner's guard selects is running.
running-of_selected :
    (config : EngineConfig) (id : ℕ) (t : TaskRow)
    → selects id (running_here config) t ≡ true
    → t.status ≡ TaskStatus.running
running-of_selected config id t h = ground arith

Moves-ignore {ℓ} : {A : Type ℓ} (m : Action A) → Moves m → Moves (ignore m)
Moves-ignore m h = Moves-bind m (λ _. pure tt) h (λ _. Moves-pure tt)

module _ (config : EngineConfig) (m : Moment) (task : TaskRow) where
  Moves-fail_retry :
      (error : TaskError) (detail : Detail) → Moves (fail_retry config m task error detail)
  unfolding fail_retry
  Moves-fail_retry error detail = Moves-ignore _ (
      Moves-transition _ m.at λ t h.
        rescheduled error (m.at + backoff_for config m.random task.attempts) m.at
          (running-of_selected config task.id t h) refl)

  Moves-fail_terminal :
      (error : TaskError) (detail : Detail) → Moves (fail_terminal config m task error detail)
  unfolding fail_terminal
  Moves-fail_terminal error detail = Moves-ignore _ (
      Moves-transition _ m.at
        λ t h. failed (stored_error task error) m.at (running-of_selected config task.id t h) refl)

  Moves-fail : (error : TaskError) (detail : Detail) → Moves (fail config m task error detail)
  unfolding fail
  Moves-fail error detail =
      Moves-if (error.retryable && ltb task.attempts task.max_attempts) _ _
        (Moves-fail_retry error detail) (Moves-fail_terminal error detail)

  Moves-fail_timeout : Moves (fail_timeout config m task)
  unfolding fail_timeout
  Moves-fail_timeout = Moves-fail _ _

  Moves-succeed : (result : Value) → Moves (succeed config m task result)
  unfolding succeed
  Moves-succeed result = Moves-ignore _ (
      Moves-transition _ m.at
        λ t h. finished (or_null result) m.at (running-of_selected config task.id t h) refl)

  pub Moves-settle : (result : WorkerResult) → Moves (settle config m task result)
  unfolding settle
  Moves-settle (WorkerResult.ready result) = Moves-succeed result
  Moves-settle (WorkerResult.failed error) = Moves-fail (reported_error error) []

module _ (config : EngineConfig) (task : TaskRow) where
  Moves-record_started : Moves (record_started config task)
  unfolding record_started
  Moves-record_started =
      Moves-bind _ _ (Moves-store _ (Grows-insert_event _))
        λ event. Moves-modify _ (IsCalm-publish_event task event)

  Moves-conclude : (x : Execution) (r : RaceResult) → Moves (conclude config task x r)
  Moves-conclude x (rejected e) = Moves-raise e
  Moves-conclude x (returned result) = record {
    at = λ w k.
        if_elim (λ (r : Result (Unit {0}) × World). Advances w.db.tasks r.1.db.tasks) x.timed_out _
          _ (λ _. (Moves-fail_timeout config x.moment task).at w k)
          (λ _.
            if_elim (λ (r : Result (Unit {0}) × World). Advances w.db.tasks r.1.db.tasks) x.aborted
              _ _ (λ _. Advances-refl w.db.tasks k)
              (λ _. (Moves-settle config x.moment task result).at w k));
  }

  Moves-on_error :
      (x : Execution) (fired : Bool) (e : Thrown) → Moves (on_error config task x fired e)
  unfolding on_error
  Moves-on_error x fired e = record {
    at = λ w k.
        if_elim (λ (r : Result (Unit {0}) × World). Advances w.db.tasks r.1.db.tasks) fired _ _
          (λ _. (Moves-fail_timeout config x.moment task).at w k)
          (λ _.
            if_elim (λ (r : Result (Unit {0}) × World). Advances w.db.tasks r.1.db.tasks)
              x.aborted_at_catch _ _ (λ _. Advances-refl w.db.tasks k)
              (λ _. (Moves-fail config x.moment task _ []).at w k));
  }

  Moves-after_started :
      (x : Execution) (r : Result (Unit {0}))
      → IsCalm x.during
      → Moves (after_started config task x r)
  unfolding race
  Moves-after_started x (err e) calm = Moves-on_error x false e
  Moves-after_started x (ok u) calm = record {
    at = λ w k.
        if_elim (λ (r : Result (Unit {0}) × World). Advances w.db.tasks r.1.db.tasks) x.has_worker _
          _
          (λ _.
            (Moves-try_catch (race config task x) (on_error config task x x.timed_out)
                (Moves-bind (modify x.during) _ (Moves-modify x.during calm)
                  (λ _. Moves-conclude x x.result))
                (Moves-on_error x x.timed_out)).at
              w k)
          (λ _.
            (Moves-try_catch (fail config x.moment task (no_worker_error task) [])
                (on_error config task x false) (Moves-fail config x.moment task _ [])
                (Moves-on_error x false)).at
              w k);
  }

  pub Moves-run_one : (x : Execution) → IsCalm x.during → Moves (run_one config task x)
  unfolding run_one attempt released
  Moves-run_one x calm =
      Moves-try_finally (attempt config task x) (released task.id)
        (record {
          at = λ w k.
              let started = Moves-record_started.at w k in
              Advances-trans w.db.tasks (record_started config task w).1.db.tasks _ started (
                (Moves-after_started x (record_started config task w).0 calm).at
                  (record_started config task w).1 started.keys);
        })
        (record {
          at = λ w k.
              IsCalm-schedule_tick.at
                (record w { in_flight = in_flight_delete task.id w.in_flight }) k;
        })
