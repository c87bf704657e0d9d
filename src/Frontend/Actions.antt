-- ===== src/Frontend/Actions.antt =====
-- Which actions a task's page offers, and whose a handle is: frontend/src/lib/utils/task-actions.ts and
-- task-handle.ts. A task's response has the row's status and `collected`.
use background_job_runner.Prelude.{
  ℕ, ◌≡◌, Bool, true, false, ◌||◌, ◌&&◌, not, List, [], ◌∷◌, Option, none, some, arith, any, ◌==◌,
  if◌then◌else◌,
}
use background_job_runner.Types.{TaskStatus, TaskRow, EngineConfig, status_eq}
use background_job_runner.Repository.Schema.{active}
use background_job_runner.Repository.Writes.{selects}
use background_job_runner.Engine.Operations.{cancellable, collect_input, retry_input}

unfoldable pub can_cancel : TaskRow → Bool
can_cancel t =
    status_eq t.status TaskStatus.queued
    || status_eq t.status TaskStatus.running
    || status_eq t.status TaskStatus.failed

unfoldable pub can_retry : TaskRow → Bool
can_retry t = status_eq t.status TaskStatus.failed

unfoldable pub can_collect : TaskRow → Bool
can_collect t = status_eq t.status TaskStatus.ready && not t.collected

abbrev pub handle_holding_statuses : List TaskStatus
handle_holding_statuses = TaskStatus.queued ∷ TaskStatus.running ∷ TaskStatus.failed ∷ []

unfoldable pub holds_its_handle : TaskRow → Bool
holds_its_handle t =
    if any (status_eq t.status) handle_holding_statuses
    then true
    else status_eq t.status TaskStatus.ready && not t.collected

pub data HandleOwnership : Type 0 where
  owned reclaimed unverified : HandleOwnership

pub record HandleHolderProbe : Type 0 where
  pub holder_id : Option ℕ
  pub error_status : Option ℕ

abbrev pub is_not_found : Option ℕ → Bool
is_not_found none = false
is_not_found (some n) = n == 404

unfoldable pub handle_ownership : TaskRow → HandleHolderProbe → HandleOwnership
handle_ownership t probe = if holds_its_handle t then owned else elim probe.holder_id [
  | some id ↦ if id == t.id then owned else reclaimed
  | none ↦ if is_not_found probe.error_status then reclaimed else unverified
]

-- The page offers what the server would accept of the task's user.
pub record Agrees (config : EngineConfig) (at : ℕ) (t : TaskRow) : Type 0 where
  pub cancel : can_cancel t ≡ any (status_eq t.status) cancellable
  pub retry : can_retry t ≡ selects t.id (retry_input config t.user_id t at).guard t
  pub collect : can_collect t ≡ selects t.id (collect_input t.user_id t at).guard t
  pub handle : holds_its_handle t ≡ active t

-- The page of a task offers to cancel, retry or collect it exactly when the guards of the engine's
-- operations hold of it for its user, and takes it to hold its handle exactly when the unique index of
-- the database counts it as active.
pub actions-Agrees : (config : EngineConfig) (at : ℕ) (t : TaskRow) → Agrees config at t
unfolding can_cancel can_retry can_collect holds_its_handle
actions-Agrees config at t = record {
  cancel = ground arith;
  retry = ground arith;
  collect = ground arith;
  handle = ground arith;
}
