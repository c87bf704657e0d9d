-- ===== src/Repository/Operations.antt =====
-- The units of work of backend/src/engine/repository.ts: each owns its transaction.
pub mod Transitions
pub mod Orphans
pub mod Allocation
use background_job_runner.Prelude.{
  ℕ, Bool, List, [], ◌∷◌, ◌++◌, Option, none, some, if◌then◌else◌, Text, codes,
}
use background_job_runner.Prelude.Decimal.{decimal}
use background_job_runner.Types.{TaskRow, TaskPatch, TaskGuard, Params}
use background_job_runner.Types.Events.{TaskEventType, DetailKey, DetailValue, Detail, TaskEventRow}
use background_job_runner.Repository.Sql.{
  Sql, ◌>>=◌, ◌>>◌, pure, statement, guarded, transact, with_transaction,
}
use background_job_runner.Repository.Writes.{
  NewTask, NewEvent, insert_at_next_handle, insert_event, update_task, reclaim_orphans,
  reclaim_expired_leases,
}

-- A task and the event that recorded the write to it.
pub record TaskWithEvent : Type 0 where
  pub task : TaskRow
  pub event : TaskEventRow

pub record AllocateHandleInput : Type 0 where
  pub user_id : ℕ
  pub lane : Text
  pub params : Params
  pub max_attempts : ℕ
  pub use_lane_lock : Bool

-- `${lane}-${handleNum}`; `handleOf` of backend/src/engine/events.ts.
unfoldable pub handle_of : Text → ℕ → Text
handle_of lane handle_num = lane ++ b'-' ∷ decimal handle_num

-- The advisory lock changes no row; what it keeps others from doing is said of `others`.
unfoldable pub lock_lane : Sql (Unit {0})
lock_lane = guarded (statement (pure tt))

abbrev pub new_task : AllocateHandleInput → ℕ → NewTask
new_task input id = record {
  id = id;
  user_id = input.user_id;
  lane = input.lane;
  params = input.params;
  max_attempts = input.max_attempts;
}

abbrev pub accepted_event : AllocateHandleInput → TaskRow → NewEvent
accepted_event input task = record {
  task_id = task.id;
  user_id = input.user_id;
  type = TaskEventType.accepted;
  detail =
      (
        DetailKey.summary,
        DetailValue.text (handle_of input.lane task.handle_num ++ codes " accepted"),
      )
      ∷ [];
}

abbrev pub as_outcome : TaskRow → TaskEventRow → Sql TaskWithEvent
as_outcome task event = pure (record { task = task; event = event })

abbrev pub accept : AllocateHandleInput → TaskRow → Sql TaskWithEvent
accept input task = insert_event (accepted_event input task) >>= as_outcome task

abbrev pub lock_if_used : AllocateHandleInput → Sql (Unit {0})
lock_if_used input = if input.use_lane_lock then lock_lane else pure tt

-- `id` is the random uuid. What other sessions commit while the transaction runs, `others`, stays
-- also when it rolls back.
unfoldable pub allocate_handle :
    AllocateHandleInput → ℕ → (List TaskRow → List TaskRow) → Sql TaskWithEvent
allocate_handle input id others db =
    transact (record db { tasks = others db.tasks })
      (lock_if_used input >>= λ _.
        insert_at_next_handle (new_task input id) others >>= accept input)
      db

pub record TransitionInput : Type 0 where
  pub task_id : ℕ
  pub patch : TaskPatch
  pub guard : TaskGuard
  pub type : TaskEventType
  pub detail : Detail

abbrev pub with_event : TaskRow → TaskEventRow → Sql (Option TaskWithEvent)
with_event task event = pure (some (record { task = task; event = event }))

-- What follows the update in the transaction.
abbrev pub record_write : TransitionInput → Option TaskRow → Sql (Option TaskWithEvent)
record_write input none = pure none
record_write input (some task) =
    insert_event (record {
      task_id = task.id;
      user_id = task.user_id;
      type = input.type;
      detail = input.detail;
    })
    >>= with_event task

unfoldable pub transition : TransitionInput → ℕ → Sql (Option TaskWithEvent)
transition input at =
    with_transaction (update_task input.task_id input.patch input.guard at >>= record_write input)

-- The loop of `sweep` over the reclaimed rows.
unfoldable pub record_each : ℕ → TaskEventType → List TaskRow → Sql (List TaskWithEvent)
record_each runner_id type [] = pure []
record_each runner_id type (task ∷ rows) = do
  event ← insert_event (record {
    task_id = task.id;
    user_id = task.user_id;
    type = type;
    detail =
        (DetailKey.attempts, DetailValue.number task.attempts)
        ∷ (DetailKey.reclaimed_by, DetailValue.number runner_id)
        ∷ [];
  })
  out ← record_each runner_id type rows
  pure (record { task = task; event = event } ∷ out)

unfoldable pub sweep : Sql (List TaskRow) → ℕ → TaskEventType → Sql (List TaskWithEvent)
sweep reclaim runner_id type = with_transaction do rows ← reclaim; record_each runner_id type rows

unfoldable pub requeue_orphans : ℕ → Sql (List TaskWithEvent)
requeue_orphans runner_id =
    sweep (reclaim_orphans runner_id) runner_id TaskEventType.requeued_on_restart

unfoldable pub requeue_expired_leases : ℕ → List ℕ → Sql (List TaskWithEvent)
requeue_expired_leases runner_id exclude_ids =
    sweep (reclaim_expired_leases exclude_ids) runner_id TaskEventType.lease_expired
