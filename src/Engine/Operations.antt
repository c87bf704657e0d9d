-- ===== src/Engine/Operations.antt =====
-- The operations that callers of the engine have: backend/src/engine/orchestration-engine.ts.
-- `at` is the application's clock.
pub mod Names
pub mod Guarded
pub mod Decisions
pub mod Cancelling
pub mod Counts
pub mod Newest
use background_job_runner.Prelude.{
  ℕ, suc, ◌+◌, Bool, true, false, List, [], ◌∷◌, ◌++◌, map, Option, none, some, ◌==◌, ltb, take,
  drop, if◌then◌else◌, Text,
}
use background_job_runner.Types.{
  TaskStatus, Value, TaskRow, TaskPatch, empty_patch, TaskGuard, empty_guard, TaskFilters, Params,
  EngineConfig, status_eq,
}
use background_job_runner.Types.Events.{
  TaskEventType, DetailKey, DetailValue, Detail, TaskEventWithTask, EngineEvent,
}
use background_job_runner.Errors.{
  Thrown, Result, ok, err, app_error, bad_request, not_found, conflict,
}
use background_job_runner.Repository.Operations.{handle_of, TransitionInput}
use background_job_runner.Repository.Reads
use background_job_runner.Repository.Reads.{find_by_handle, find_by_id, stats_by_status}
use background_job_runner.Engine.Bus.{to_engine_event}
use background_job_runner.Engine.Numbers.{Numbers}
use background_job_runner.Engine.Registry.{WorkerDescriptor, validate_params}
use background_job_runner.Engine.World.{
  World, Action, pure, raise, ◌>>=◌, ◌>>◌, lift, store, modify, publish_event,
}
use background_job_runner.Engine.Handles.{Race, allocate_handle_and_insert}
use background_job_runner.Engine.Runner.{transition, abort}

-- A `TaskRow` with its handle, which is derived and never stored.
pub record Task : Type 0 where
  pub row : TaskRow
  pub open row use *
  pub handle : Text

unfoldable pub to_task : TaskRow → Task
to_task row = record { row = row; handle = handle_of row.lane row.handle_num }

-- `handle.lastIndexOf('-')`, -1 as `none`.
unfoldable pub last_hyphen : Text → Option ℕ
last_hyphen [] = none
last_hyphen (c ∷ s) = elim (last_hyphen s) [
  | some i ↦ some (suc i)
  | none ↦ if c == b'-' then some 0 else none
]

-- The test of both parts, once the number has been read.
abbrev pub checked_parts : Text → ℕ → Option ℕ → Result (Text × ℕ)
checked_parts handle cut none = err (app_error bad_request)
checked_parts handle cut (some n) =
    if cut == 0
    then err (app_error bad_request)
    else if n == 0
    then err (app_error bad_request)
    else ok (take cut handle, n)

abbrev pub parse_at : Numbers → Text → Option ℕ → Result (Text × ℕ)
parse_at num handle none = err (app_error bad_request)
parse_at num handle (some cut) = checked_parts handle cut (num.integer (drop (suc cut) handle))

unfoldable pub parse_handle : Numbers → Text → Result (Text × ℕ)
parse_handle num handle = parse_at num handle (last_hyphen handle)

abbrev pub or_not_found : Option TaskRow → Action TaskRow
or_not_found none = raise (app_error not_found)
or_not_found (some row) = pure row

abbrev pub or_conflict : Option TaskRow → Action Task
or_conflict none = raise (app_error conflict)
or_conflict (some row) = pure (to_task row)

abbrev pub cancel_input : ℕ → ℕ → TaskStatus → TransitionInput
cancel_input user_id task_id from = record {
  task_id = task_id;
  patch = record empty_patch {
    status = some TaskStatus.cancelled;
    runner_id = some none;
    lease_until = some none;
  };
  guard = record empty_guard { user_id = some user_id; status = some (from ∷ []) };
  type = TaskEventType.cancelled;
  detail = (DetailKey.from, DetailValue.status from) ∷ [];
}

-- One conditional update of the three that `cancel` tries.
unfoldable pub cancel_from : ℕ → ℕ → TaskStatus → ℕ → Action (Option TaskRow)
cancel_from user_id task_id from at = transition (cancel_input user_id task_id from) at

abbrev pub cancelled_as : ℕ → TaskStatus → TaskRow → Action Task
cancelled_as task_id from row w =
    (ok (to_task row), if status_eq from TaskStatus.running then (abort task_id w).1 else w)

abbrev pub or_next : ℕ → TaskStatus → Action Task → Option TaskRow → Action Task
or_next task_id from next none = next
or_next task_id from next (some row) = cancelled_as task_id from row

abbrev pub cancellable : List TaskStatus
cancellable = TaskStatus.queued ∷ TaskStatus.running ∷ TaskStatus.failed ∷ []

-- The loop over the states; between two updates others may act.
unfoldable pub cancel_each : ℕ → ℕ → List TaskStatus → ℕ → (World → World) → Action Task
cancel_each user_id task_id [] at others = do
  store (find_by_id user_id task_id)
  raise (app_error conflict)
cancel_each user_id task_id (from ∷ rest) at others = do
  updated ← cancel_from user_id task_id from at
  or_next task_id from (modify others >> cancel_each user_id task_id rest at others) updated

abbrev pub collect_input : ℕ → TaskRow → ℕ → TransitionInput
collect_input user_id task at = record {
  task_id = task.id;
  patch = record empty_patch { collected = some true; collected_at = some (some at) };
  guard = record empty_guard {
    user_id = some user_id;
    status = some (TaskStatus.ready ∷ []);
    collected = some false;
  };
  type = TaskEventType.collected;
  detail = [];
}

abbrev pub retry_input : EngineConfig → ℕ → TaskRow → ℕ → TransitionInput
retry_input config user_id task at = record {
  task_id = task.id;
  patch = record empty_patch {
    status = some TaskStatus.queued;
    error = some none;
    result = some Value.null;
    run_after = some at;
    runner_id = some none;
    lease_until = some none;
    max_attempts = some (task.attempts + config.max_attempts);
  };
  guard = record empty_guard { user_id = some user_id; status = some (TaskStatus.failed ∷ []) };
  type = TaskEventType.retry_requested;
  detail =
      (DetailKey.attempts, DetailValue.number task.attempts)
      ∷ (DetailKey.max_attempts, DetailValue.number (task.attempts + config.max_attempts))
      ∷ [];
}

module _ (num : Numbers) where
  unfoldable pub find : ℕ → Text → Action TaskRow
  find user_id handle = do
    parsed ← lift (parse_handle num handle)
    row ← store (find_by_handle user_id parsed.0 parsed.1)
    or_not_found row

  unfoldable pub submit :
      EngineConfig → List WorkerDescriptor → ℕ → Text → Params → (ℕ → Race) → Action Task
  submit config workers user_id lane params races = do
    normalised ← lift (validate_params num workers lane params)
    allocated ← store (
        allocate_handle_and_insert
          (record {
            user_id = user_id;
            lane = lane;
            params = normalised;
            max_attempts = config.max_attempts;
            use_lane_lock = true;
          })
          races)
    modify (publish_event allocated.task allocated.event)
    pure (to_task allocated.task)

  unfoldable pub get : ℕ → Text → Action Task
  get user_id handle = do row ← find user_id handle; pure (to_task row)

  unfoldable pub history : ℕ → Text → Action (List TaskEventWithTask)
  history user_id handle = do task ← find user_id handle; store (Reads.history user_id task.id)

  unfoldable pub collect : ℕ → Text → ℕ → Action Task
  collect user_id handle at = do
    task ← find user_id handle
    updated ← transition (collect_input user_id task at) at
    or_conflict updated

  unfoldable pub cancel : ℕ → Text → ℕ → (World → World) → Action Task
  cancel user_id handle at others = do
    task ← find user_id handle
    cancel_each user_id task.id cancellable at others

  unfoldable pub retry : EngineConfig → ℕ → Text → ℕ → Action Task
  retry config user_id handle at = do
    task ← find user_id handle
    updated ← transition (retry_input config user_id task at) at
    or_conflict updated

unfoldable pub get_by_id : ℕ → ℕ → Action Task
get_by_id user_id id = do
  row ← store (find_by_id user_id id)
  found ← or_not_found row
  pure (to_task found)

unfoldable pub history_by_id : ℕ → ℕ → Action (List TaskEventWithTask)
history_by_id user_id id = do task ← get_by_id user_id id; store (Reads.history user_id task.row.id)

unfoldable pub list : ℕ → TaskFilters → Action (List Task)
list user_id filters = do rows ← store (Reads.list user_id filters); pure (map to_task rows)

pub record Stats : Type 0 where
  pub queued : ℕ
  pub running : ℕ
  pub ready : ℕ
  pub failed : ℕ
  pub cancelled : ℕ

abbrev pub zeroed : Stats
zeroed = record { queued = 0; running = 0; ready = 0; failed = 0; cancelled = 0 }

-- `zeroed[status] = count`
abbrev pub set_count : TaskStatus → ℕ → Stats → Stats
set_count TaskStatus.queued n s = record s { queued = n }
set_count TaskStatus.running n s = record s { running = n }
set_count TaskStatus.ready n s = record s { ready = n }
set_count TaskStatus.failed n s = record s { failed = n }
set_count TaskStatus.cancelled n s = record s { cancelled = n }

unfoldable pub fill : List (TaskStatus × ℕ) → Stats → Stats
fill [] s = s
fill ((status, n) ∷ rows) s = fill rows (set_count status n s)

unfoldable pub stats : ℕ → Action Stats
stats user_id = do rows ← store (stats_by_status user_id); pure (fill rows zeroed)

unfoldable pub events_since : ℕ → ℕ → Option ℕ → Action (List EngineEvent)
events_since user_id since_id limit = do
  rows ← store (Reads.events_since user_id since_id limit)
  pure (map to_engine_event rows)
