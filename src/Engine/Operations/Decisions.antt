-- ===== src/Engine/Operations/Decisions.antt =====
-- Which tasks `collect` and `retry` of backend/src/engine/orchestration-engine.ts accept, and what becomes of them.
use background_job_runner.Prelude.{
  ℕ, ◌+◌, ◌≡◌, ◌≢◌, ◌⊎◌, true, false, [], none, some, arith, inl, inr, Bool-cases, ==_refl, Text,
}
use background_job_runner.Types.{TaskStatus, TaskRow, Value, EngineConfig}
use background_job_runner.Types.Events.{TaskEventType}
use background_job_runner.Errors.{Result, ok, err, app_error, conflict}
use background_job_runner.Repository.Schema.{keys_ok}
use background_job_runner.Engine.Numbers.{Numbers}
use background_job_runner.Engine.World.{World}
use background_job_runner.Engine.Runner.Written.{Unchanged, Writes}
use background_job_runner.Engine.Operations.{
  Task, to_task, find, collect, retry, collect_input, retry_input,
}
use background_job_runner.Engine.Operations.Guarded.{
  Guarded, collect-Guarded, retry-Guarded, Owned-found,
}

-- The row of a task whose result has been taken, and of one that was asked to run again.
abbrev pub collected_row : ℕ → TaskRow → TaskRow
collected_row at t = record t { collected = true; collected_at = some at; updated_at = at }

abbrev pub retried_row : EngineConfig → ℕ → TaskRow → TaskRow
retried_row config at t = record t {
  status = TaskStatus.queued;
  result = Value.null;
  error = none;
  max_attempts = t.attempts + config.max_attempts;
  run_after = at;
  lease_until = none;
  runner_id = none;
  updated_at = at;
}

-- How `collect` of the task `t` ends.
pub data Collects (at : ℕ) (w : World) (t : TaskRow) : Result Task × World → Type 0 where
  done :
      (v : World)
      → t.status ≡ TaskStatus.ready
      → t.collected ≡ false
      → Writes w v t (collected_row at t) TaskEventType.collected
      → Collects at w t (ok (to_task (collected_row at t)), v)
  refused :
      (v : World)
      → (t.status ≢ TaskStatus.ready) ⊎ (t.collected ≡ true)
      → Unchanged w v
      → Collects at w t (err (app_error conflict), v)

-- How `retry` of the task `t` ends.
pub data Retries (config : EngineConfig) (at : ℕ) (w : World) (t : TaskRow)
    : Result Task × World → Type 0 where
  done :
      (v : World)
      → t.status ≡ TaskStatus.failed
      → Writes w v t (retried_row config at t) TaskEventType.retry_requested
      → Retries config at w t (ok (to_task (retried_row config at t)), v)
  refused :
      (v : World)
      → t.status ≢ TaskStatus.failed
      → Unchanged w v
      → Retries config at w t (err (app_error conflict), v)

module _ (user_id at : ℕ) (w : World) (t : TaskRow) (mine : t.user_id ≡ user_id) where
  Guarded-Collects :
      {r : Result Task × World} → Guarded (collect_input user_id t at) at w t r → Collects at w t r
  Guarded-Collects (Guarded.done v h writes) = Collects.done v (ground arith) (ground arith) writes
  Guarded-Collects (Guarded.refused v h same) =
      Collects.refused v
        (elim (Bool-cases t.collected) [
          | inl c ↦ inr c
          | inr c ↦ inl (λ e. ground (arith, mine, ==_refl t.id, ==_refl user_id))
        ])
        same

  Guarded-Retries :
      (config : EngineConfig) {r : Result Task × World}
      → Guarded (retry_input config user_id t at) at w t r
      → Retries config at w t r
  Guarded-Retries config (Guarded.done v h writes) = Retries.done v (ground arith) writes
  Guarded-Retries config (Guarded.refused v h same) =
      Retries.refused v (λ e. ground (arith, mine, ==_refl t.id, ==_refl user_id)) same

module _ (num : Numbers) (user_id : ℕ) (handle : Text) (w : World) (t : TaskRow) where
  -- On a connection without faults and tables with valid keys, `collect` of the task that the handle finds
  -- marks it collected, with its time, and returns it, with one event and no other row touched, if it is ready
  -- and not collected yet; otherwise it throws a conflict and changes nothing.
  pub collect-Collects :
      (at : ℕ)
      → find num user_id handle w ≡ (ok t, w)
      → w.db.faults ≡ []
      → keys_ok w.db.tasks ≡ true
      → Collects at w t (collect num user_id handle at w)
  collect-Collects at here calm k =
      Guarded-Collects user_id at w t (Owned-found num user_id handle w t calm here).1
        (collect-Guarded num user_id handle w t at here calm k)

  -- On a connection without faults and tables with valid keys, `retry` of the task that the handle finds
  -- queues it from now on, without its error and with as many further attempts as the engine allows, and
  -- returns it, with one event and no other row touched, if it has failed; otherwise it throws a conflict and
  -- changes nothing.
  pub retry-Retries :
      (config : EngineConfig) (at : ℕ)
      → find num user_id handle w ≡ (ok t, w)
      → w.db.faults ≡ []
      → keys_ok w.db.tasks ≡ true
      → Retries config at w t (retry num config user_id handle at w)
  retry-Retries config at here calm k =
      Guarded-Retries user_id at w t (Owned-found num user_id handle w t calm here).1 config
        (retry-Guarded num user_id handle w t config at here calm k)
