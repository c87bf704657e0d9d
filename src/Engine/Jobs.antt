-- ===== src/Engine/Jobs.antt =====
-- How the runner executes one claimed task: `runOne` of backend/src/engine/runner.ts and what it calls.
pub mod Settlement
pub mod Release
pub mod Backoff
use background_job_runner.Prelude.{
  ℕ, suc, ◌+◌, ◌-◌, ◌*◌, ◌/◌, ◌^◌, Bool, true, false, ◌&&◌, not, List, [], ◌∷◌, ◌++◌, Option, none,
  some, leb, ltb, min, max, if◌then◌else◌, Text, codes,
}
use background_job_runner.Prelude.Decimal.{decimal}
use background_job_runner.Types.{
  TaskStatus, Value, TaskError, TaskRow, TaskPatch, empty_patch, TaskGuard, empty_guard,
  EngineConfig, WorkerResult,
}
use background_job_runner.Types.Events.{TaskEventType, DetailKey, DetailValue, Detail}
use background_job_runner.Errors.{Thrown, Result, ok, err}
use background_job_runner.Repository.Writes.{insert_event}
use background_job_runner.Repository.Operations.{handle_of}
use background_job_runner.Engine.World.{
  World, Action, pure, ◌>>=◌, ◌>>◌, store, modify, try_catch, try_finally, in_flight_delete,
  publish_event,
}
use background_job_runner.Engine.Runner.{transition, schedule_tick}

-- `Math.random()` is `draw / range`, below 1.
pub record Random : Type 0 where
  pub draw : ℕ
  pub range : ℕ

-- `Math.min(backoffMaxMs, backoffBaseMs * 2 ** Math.max(0, attempts - 1))`
unfoldable pub capped_backoff : EngineConfig → ℕ → ℕ
capped_backoff config attempts =
    min config.backoff_max_ms (config.backoff_base_ms * 2 ^ (attempts - 1))

-- `Math.round(capped * (1 + Math.random() * 0.2))`, in exact fractions: rounding takes a half up.
unfoldable pub backoff_for : EngineConfig → Random → ℕ → ℕ
backoff_for config random attempts =
    (2 * capped_backoff config attempts * (5 * random.range + random.draw) + 5 * random.range)
    / (10 * random.range)

abbrev pub running_here : EngineConfig → TaskGuard
running_here config = record empty_guard {
  status = some (TaskStatus.running ∷ []);
  runner_id = some config.runner_id;
}

-- What the clock and the random source give: `Date.now()`, and one draw.
pub record Moment : Type 0 where
  pub at : ℕ
  pub random : Random

abbrev pub ignore {ℓ} : {A : Type ℓ} → Action A → Action (Unit {0})
ignore m = do m; pure tt

unfoldable pub fail_retry : EngineConfig → Moment → TaskRow → TaskError → Detail → Action (Unit {0})
fail_retry config m task error detail =
    let backoff_ms = backoff_for config m.random task.attempts in
    ignore (
      transition
        (record {
          task_id = task.id;
          patch = record empty_patch {
            status = some TaskStatus.queued;
            error = some (some error);
            runner_id = some none;
            lease_until = some none;
            run_after = some (m.at + backoff_ms);
          };
          guard = running_here config;
          type = TaskEventType.retry_scheduled;
          detail =
              detail
              ++ (DetailKey.attempt, DetailValue.number task.attempts)
                ∷ (DetailKey.max_attempts, DetailValue.number task.max_attempts)
                ∷ (DetailKey.reason, DetailValue.text error.reason)
                ∷ (DetailKey.retryable, DetailValue.flag error.retryable)
                ∷ (DetailKey.backoff_ms, DetailValue.number backoff_ms)
                ∷ (DetailKey.run_after, DetailValue.number (m.at + backoff_ms))
                ∷ [];
        })
        m.at)

-- A transient error that used up the attempts names them; it stays `retryable`.
unfoldable pub stored_error : TaskRow → TaskError → TaskError
stored_error task error =
    if error.retryable && leb task.max_attempts task.attempts
    then record error {
      reason =
          codes "worker failed after "
          ++ (decimal task.attempts ++ (codes " attempts: " ++ error.reason));
    }
    else error

unfoldable pub fail_terminal :
    EngineConfig → Moment → TaskRow → TaskError → Detail → Action (Unit {0})
fail_terminal config m task error detail =
    let stored = stored_error task error in
    ignore (
      transition
        (record {
          task_id = task.id;
          patch = record empty_patch {
            status = some TaskStatus.failed;
            error = some (some stored);
            runner_id = some none;
            lease_until = some none;
          };
          guard = running_here config;
          type = TaskEventType.failed;
          detail =
              detail
              ++ (DetailKey.reason, DetailValue.text stored.reason)
                ∷ (DetailKey.retryable, DetailValue.flag stored.retryable)
                ∷ (DetailKey.attempts, DetailValue.number task.attempts)
                ∷ [];
        })
        m.at)

unfoldable pub fail : EngineConfig → Moment → TaskRow → TaskError → Detail → Action (Unit {0})
fail config m task error detail =
    if error.retryable && ltb task.attempts task.max_attempts
    then fail_retry config m task error detail
    else fail_terminal config m task error detail

unfoldable pub fail_timeout : EngineConfig → Moment → TaskRow → Action (Unit {0})
fail_timeout config m task =
    fail config m task
      (record {
        reason = codes "timed out after " ++ (decimal config.job_timeout_ms ++ codes "ms");
        retryable = true;
      })
      ((DetailKey.timed_out, DetailValue.flag true)
        ∷ (DetailKey.timeout_ms, DetailValue.number config.job_timeout_ms)
        ∷ [])

-- `result ?? null`
abbrev pub or_null : Value → Value
or_null Value.undefined = Value.null
or_null v = v

unfoldable pub succeed : EngineConfig → Moment → TaskRow → Value → Action (Unit {0})
succeed config m task result = ignore (
    transition
      (record {
        task_id = task.id;
        patch = record empty_patch {
          status = some TaskStatus.ready;
          result = some (or_null result);
          error = some none;
          runner_id = some none;
          lease_until = some none;
        };
        guard = running_here config;
        type = TaskEventType.ready;
        detail =
            (
              DetailKey.summary,
              DetailValue.text (handle_of task.lane task.handle_num ++ codes " ready"),
            )
            ∷ [];
      })
      m.at)

abbrev pub reported_error : Option TaskError → TaskError
reported_error (some error) = error
reported_error none = record {
  reason = codes "worker reported a failure with no reason";
  retryable = false;
}

unfoldable pub settle : EngineConfig → Moment → TaskRow → WorkerResult → Action (Unit {0})
settle config m task (WorkerResult.ready result) = succeed config m task result
settle config m task (WorkerResult.failed error) = fail config m task (reported_error error) []

unfoldable pub record_started : EngineConfig → TaskRow → Action (Unit {0})
record_started config task = do
  event ← store (
      insert_event (record {
        task_id = task.id;
        user_id = task.user_id;
        type = TaskEventType.started;
        detail =
            (DetailKey.attempt, DetailValue.number task.attempts)
            ∷ (DetailKey.runner_id, DetailValue.number config.runner_id)
            ∷ [];
      }))
  modify (publish_event task event)

-- How `Promise.race` of the handler and the timeout ends.
pub data RaceResult : Type 0 where
  returned : WorkerResult → RaceResult
  rejected : Thrown → RaceResult

-- The world's part in one execution: whether the lane has a worker, what happens while it runs, how
-- the race ends, whether the timer had fired by then, whether the controller was aborted when the
-- race ended and when an error was caught, and the message of a thrown value.
pub record Execution : Type 0 where
  pub has_worker : Bool
  pub during : World → World
  pub result : RaceResult
  pub timed_out : Bool
  pub aborted : Bool
  pub aborted_at_catch : Bool
  pub moment : Moment
  pub message_of : Thrown → Text

abbrev pub no_worker_error : TaskRow → TaskError
no_worker_error task = record {
  reason = codes "No worker registered for lane \"" ++ (task.lane ++ codes "\"");
  retryable = false;
}

-- What follows the race, if it did not reject.
abbrev pub conclude : EngineConfig → TaskRow → Execution → RaceResult → Action (Unit {0})
conclude config task x (rejected e) w = (err e, w)
conclude config task x (returned result) w =
    if x.timed_out
    then fail_timeout config x.moment task w
    else if x.aborted
    then (ok tt, w)
    else settle config x.moment task result w

-- The `catch` block; `fired` is `timedOut` there.
unfoldable pub on_error : EngineConfig → TaskRow → Execution → Bool → Thrown → Action (Unit {0})
on_error config task x fired e w =
    if fired
    then fail_timeout config x.moment task w
    else if x.aborted_at_catch
    then (ok tt, w)
    else fail config x.moment task (record { reason = x.message_of e; retryable = true }) [] w

unfoldable pub race : EngineConfig → TaskRow → Execution → Action (Unit {0})
race config task x = do modify x.during; conclude config task x x.result

-- The `try` block from the `started` event on. The timer is armed only where a worker is raced.
abbrev pub after_started :
    EngineConfig → TaskRow → Execution → Result (Unit {0}) → Action (Unit {0})
after_started config task x (err e) w = on_error config task x false e w
after_started config task x (ok _) w =
    if x.has_worker
    then try_catch (race config task x) (on_error config task x x.timed_out) w
    else try_catch (fail config x.moment task (no_worker_error task) [])
        (on_error config task x false) w

unfoldable pub attempt : EngineConfig → TaskRow → Execution → Action (Unit {0})
attempt config task x w =
    let (r, w') = record_started config task w in after_started config task x r w'

unfoldable pub released : ℕ → World → World
released id w = schedule_tick (record w { in_flight = in_flight_delete id w.in_flight })

unfoldable pub run_one : EngineConfig → TaskRow → Execution → Action (Unit {0})
run_one config task x = try_finally (attempt config task x) (released task.id)
