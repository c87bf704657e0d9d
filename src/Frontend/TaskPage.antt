-- ===== src/Frontend/TaskPage.antt =====
-- The page of a task: frontend/src/app/(app)/dashboard/[id]/page.tsx, with the buttons of
-- components/task/TaskActions.tsx. A query is its error, with the status if it has one, and its data; a task's
-- response has the row's fields, and an event of the history is not looked at.
pub mod Offered
use background_job_runner.Prelude.{
  ℕ, Bool, true, false, ◌&&◌, ◌||◌, not, List, [], ◌∷◌, Option, none, some, if◌then◌else◌, ◌==◌,
  Text,
}
use background_job_runner.Types.{
  TaskStatus, Value, TaskError, TaskRow, Params, EngineConfig, status_eq,
}
use background_job_runner.Engine.Numbers.{Numbers}
use background_job_runner.Engine.World.{World, Action}
use background_job_runner.Http.TaskRoutes.{Reply}
use background_job_runner.Http.TaskSchema.{TaskResponse}
use background_job_runner.Http.TaskRoutes
use background_job_runner.Repository.Operations.{handle_of}
use background_job_runner.Frontend.Actions.{
  can_cancel, can_retry, can_collect, holds_its_handle, HandleOwnership, owned, reclaimed,
  unverified, HandleHolderProbe, handle_ownership,
}

pub record Query {ℓ} (T : Type ℓ) : Type ℓ where
  pub error : Option (Option ℕ)
  pub received : Option T

abbrev pub failed_with {ℓ} : {T : Type ℓ} → Query T → Option ℕ
failed_with q = elim q.error [ some status ↦ status | none ↦ none ]

abbrev pub is_error {ℓ} : {T : Type ℓ} → Query T → Bool
is_error q = elim q.error [ some status ↦ true | none ↦ false ]

-- The history, and the task that the handle resolves to, as far as the page looks at them.
pub record Queries : Type 0 where
  pub task : Query TaskRow
  pub holder : Query ℕ
  pub history : Query ℕ
  pub fetching_history : Bool

abbrev pub probe_enabled : Queries → Bool
probe_enabled q = elim q.task.received [
  | some received ↦ not (holds_its_handle received)
  | none ↦ false
]

unfoldable pub ownership : Queries → HandleOwnership
ownership q = elim q.task.received [
  | some received ↦
      handle_ownership received
        (record { holder_id = q.holder.received; error_status = failed_with q.holder })
  | none ↦ unverified
]

pub data ResultView : Type 0 where
  no_payload payload : ResultView

pub data HistoryView : Type 0 where
  history_failed timeline loading_history : HistoryView

pub record Sections : Type 0 where
  pub retired : Bool
  pub unverified_error : Bool
  pub actions : Bool
  pub has_params : Bool
  pub result : Option ResultView
  pub failure : Option TaskError
  pub executions : ℕ
  pub refreshing : Bool
  pub history : HistoryView

pub data TaskView : Type 0 where
  no_such_task malformed_id failed_query loading : TaskView
  sections : TaskRow → Sections → TaskView

abbrev pub is_owned : HandleOwnership → Bool
is_owned owned = true
is_owned _ = false

abbrev pub is_reclaimed : HandleOwnership → Bool
is_reclaimed reclaimed = true
is_reclaimed _ = false

abbrev pub is_unverified : HandleOwnership → Bool
is_unverified unverified = true
is_unverified _ = false

abbrev pub has_entries : Params → Bool
has_entries [] = false
has_entries (p ∷ ps) = true

abbrev pub actionable : TaskRow → Bool
actionable t = can_collect t || can_retry t || can_cancel t

-- `data.result === null || data.result === undefined`
abbrev pub result_view : Value → ResultView
result_view Value.undefined = no_payload
result_view Value.null = no_payload
result_view _ = payload

abbrev pub history_view : Query ℕ → HistoryView
history_view q =
    if is_error q
    then history_failed
    else elim q.received [ some events ↦ timeline | none ↦ loading_history ]

abbrev pub sections_of : Queries → HandleOwnership → TaskRow → Sections
sections_of q o received = record {
  retired = is_reclaimed o;
  unverified_error = is_unverified o && is_error q.holder;
  actions = is_owned o && actionable received;
  has_params = has_entries received.params;
  result =
      if status_eq received.status TaskStatus.ready && received.collected
      then some (result_view received.result)
      else none;
  failure = if status_eq received.status TaskStatus.failed then received.error else none;
  executions = received.attempts;
  refreshing = q.fetching_history;
  history = history_view q.history;
}

abbrev pub has_status : ℕ → Option ℕ → Bool
has_status n none = false
has_status n (some status) = status == n

unfoldable pub page_of : Queries → TaskView
page_of q =
    if has_status 404 (failed_with q.task)
    then no_such_task
    else if has_status 400 (failed_with q.task)
    then malformed_id
    else if is_error q.task
    then failed_query
    else elim q.task.received [
      | some received ↦ sections received (sections_of q (ownership q) received)
      | none ↦ loading
    ]

pub data Button : Type 0 where
  collect_button retry_button cancel_button : Button

abbrev pub has_button : TaskRow → Button → Bool
has_button t collect_button = can_collect t
has_button t retry_button = can_retry t
has_button t cancel_button = can_cancel t

-- The page shows the actions, and among them the button.
unfoldable pub offers : TaskView → Button → Bool
offers (sections received s) button = s.actions && has_button received button
offers _ button = false

-- The three mutations, as far as they are pending; `collect.error`, `cancel.error` and `retry.error` by status.
pub record Mutations : Type 0 where
  pub collect : Bool
  pub cancel : Bool
  pub retry : Bool

abbrev pub any_pending : Mutations → Bool
any_pending m = m.collect || m.cancel || m.retry

unfoldable pub disabled : Mutations → Button → Bool
disabled m collect_button = any_pending m && not m.collect
disabled m retry_button = any_pending m && not m.retry
disabled m cancel_button = any_pending m

-- The request that a button sends in the end, as the server runs it.
unfoldable pub press :
    Numbers → EngineConfig → Option ℕ → TaskRow → Button → ℕ → Action (Reply TaskResponse)
press num config auth t collect_button at =
    TaskRoutes.collect_task_result num auth (handle_of t.lane t.handle_num) at
press num config auth t retry_button at =
    TaskRoutes.retry_task num config auth (handle_of t.lane t.handle_num) at
press num config auth t cancel_button at =
    TaskRoutes.cancel_task num auth (handle_of t.lane t.handle_num) at (λ w. w)
