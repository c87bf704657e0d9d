-- ===== src/Lifecycle.antt =====
-- The life of a task row, as the guards and patches of backend/src/engine allow it: the abstract
-- state machine that the engine's operations implement.
pub mod Rows
pub mod Tables
pub mod Ranks
use background_job_runner.Prelude.{
  ℕ, suc, ◌+◌, ◌≤◌, ◌≡◌, ◌⊎◌, Bool, true, false, List, [], ◌∷◌, Option, none, some, Text,
}
use background_job_runner.Types.{TaskStatus, TaskError, TaskRow, Value}

-- One change of one row. `at` and `until` are the times that the change wrote.
pub data Edge (t u : TaskRow) : Type 0 where
  claimed :
      (runner until at : ℕ)
      → t.status ≡ TaskStatus.queued
      → u ≡ record t {
        status = TaskStatus.running;
        attempts = t.attempts + 1;
        runner_id = some runner;
        lease_until = some until;
        updated_at = at;
      }
      → Edge t u
  renewed :
      (until at : ℕ)
      → t.status ≡ TaskStatus.running
      → u ≡ record t { lease_until = some until; updated_at = at }
      → Edge t u
  requeued :
      (at : ℕ)
      → t.status ≡ TaskStatus.running
      → u ≡ record t {
        status = TaskStatus.queued;
        runner_id = none;
        lease_until = none;
        run_after = at;
        updated_at = at;
      }
      → Edge t u
  rescheduled :
      (e : TaskError) (after at : ℕ)
      → t.status ≡ TaskStatus.running
      → u ≡ record t {
        status = TaskStatus.queued;
        error = some e;
        runner_id = none;
        lease_until = none;
        run_after = after;
        updated_at = at;
      }
      → Edge t u
  failed :
      (e : TaskError) (at : ℕ)
      → t.status ≡ TaskStatus.running
      → u ≡ record t {
        status = TaskStatus.failed;
        error = some e;
        runner_id = none;
        lease_until = none;
        updated_at = at;
      }
      → Edge t u
  finished :
      (result : Value) (at : ℕ)
      → t.status ≡ TaskStatus.running
      → u ≡ record t {
        status = TaskStatus.ready;
        result = result;
        error = none;
        runner_id = none;
        lease_until = none;
        updated_at = at;
      }
      → Edge t u
  collected :
      (at : ℕ)
      → t.status ≡ TaskStatus.ready
      → t.collected ≡ false
      → u ≡ record t { collected = true; collected_at = some at; updated_at = at }
      → Edge t u
  cancelled :
      (at : ℕ)
      → (t.status ≡ TaskStatus.queued)
        ⊎ (t.status ≡ TaskStatus.running)
        ⊎ (t.status ≡ TaskStatus.failed)
      → u ≡ record t {
        status = TaskStatus.cancelled;
        runner_id = none;
        lease_until = none;
        updated_at = at;
      }
      → Edge t u
  retried :
      (budget at : ℕ)
      → t.status ≡ TaskStatus.failed
      → u ≡ record t {
        status = TaskStatus.queued;
        error = none;
        result = Value.null;
        run_after = at;
        runner_id = none;
        lease_until = none;
        max_attempts = budget;
        updated_at = at;
      }
      → Edge t u

-- A row as `allocateHandle` inserts it.
pub record IsNew (t : TaskRow) : Type 0 where
  pub queued : t.status ≡ TaskStatus.queued
  pub not_collected : t.collected ≡ false
  pub no_time : t.collected_at ≡ none
  pub no_runner : t.runner_id ≡ none
  pub no_lease : t.lease_until ≡ none
  pub no_attempts : t.attempts ≡ 0
  pub numbered : 1 ≤ t.handle_num

-- Any number of changes of one row.
pub data Lives (t : TaskRow) : TaskRow → Type 0 where
  still : Lives t t
  next : {u v : TaskRow} → Lives t u → Edge u v → Lives t v

-- Tables over time: each row lives on, and new ones are added.
pub data Evolves : List TaskRow → List TaskRow → Type 0 where
  empty : Evolves [] []
  live :
      {t u : TaskRow} {ts us : List TaskRow} → Lives t u → Evolves ts us → Evolves (t ∷ ts) (u ∷ us)
  add :
      {t u : TaskRow} {ts us : List TaskRow}
      → IsNew t
      → Lives t u
      → Evolves ts us
      → Evolves ts (u ∷ us)
