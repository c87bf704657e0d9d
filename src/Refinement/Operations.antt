-- ===== src/Refinement/Operations.antt =====
-- The operations of backend/src/engine/orchestration-engine.ts against the life of tasks.
use background_job_runner.Prelude.{
  ℕ, ltb, ◌+◌, zero, suc, sym, subst, ◌≡◌, refl, inl, inr, ◌⊎◌, true, List, [], ◌∷◌, Option, none,
  some, arith, if_elim, Text,
}
use background_job_runner.Types.{TaskStatus, TaskRow, Params, EngineConfig, empty_guard, status_eq}
use background_job_runner.Errors.{Thrown, Result, ok, err, conflict, app_error}
use background_job_runner.Repository.Sql.{Db, Sql, is_unique_violation, statement, guarded}
use background_job_runner.Repository.Writes.{selects}
use background_job_runner.Repository.Operations.{
  AllocateHandleInput, TaskWithEvent, allocate_handle,
}
use background_job_runner.Repository.Reads.{max_integer, find_by_handle, find_by_id}
use background_job_runner.Engine.Numbers.{Numbers}
use background_job_runner.Engine.Registry.{WorkerDescriptor, validate_params}
use background_job_runner.Engine.World.{World, Action, lift, modify}
use background_job_runner.Engine.Handles.{
  Race, or_retry, allocate_from, allocate_handle_and_insert, max_allocation_attempts,
}
use background_job_runner.Engine.Runner.{abort}
use background_job_runner.Engine.Operations.{
  Task, parse_handle, or_not_found, or_conflict, cancel_from, cancelled_as, or_next, cancellable,
  cancel_each, find, submit, collect, cancel, retry, to_task,
}
use background_job_runner.Lifecycle.{collected, cancelled, retried}
use background_job_runner.Refinement.Rules.{
  Advances, Advances-refl, Advances-trans, Grows, Grows-guarded, Grows-statement,
}
use background_job_runner.Refinement.Store.{IsPeaceful, Grows-allocate_handle, Grows-query}
use background_job_runner.Refinement.Actions.{
  Moves, IsCalm, Moves-pure, Moves-raise, Moves-lift, Moves-store, Moves-modify, Moves-bind,
}
use background_job_runner.Refinement.Runner.{IsCalm-publish_event, Moves-transition}

pub record IsOrderly (r : Race) : Type 0 where
  pub peaceful : IsPeaceful r.others

Advances-or_retry :
    (ts : List TaskRow) (r : Result TaskWithEvent × Db) (again : Thrown → Sql TaskWithEvent)
    → Advances ts r.1.tasks
    → ((e : Thrown) → Grows (again e))
    → Advances ts (or_retry r.0 again r.1).1.tasks
Advances-or_retry ts (ok a, db) again h g = h
Advances-or_retry ts (err e, db) again h g =
    if_elim (λ (s : Result TaskWithEvent × Db). Advances ts s.1.tasks) (is_unique_violation e)
      (again e db) (err e, db)
      (λ _. Advances-trans ts db.tasks (again e db).1.tasks h ((g e).at db h.keys)) (λ _. h)

Grows-allocate_from :
    (left attempt : ℕ) (input : AllocateHandleInput) (races : ℕ → Race) (last : Thrown)
    → ((n : ℕ) → IsOrderly (races n))
    → Grows (allocate_from left attempt input races last)
unfolding allocate_from
Grows-allocate_from zero attempt input races last orderly = record {
  at = λ db k. Advances-refl db.tasks k;
}
Grows-allocate_from (suc left) attempt input races last orderly = record {
  at = λ db k.
      Advances-or_retry db.tasks
        (allocate_handle input (races attempt).id (races attempt).others db)
        (allocate_from left (suc attempt) input races)
        ((Grows-allocate_handle input (races attempt).id (races attempt).others
            (orderly attempt).peaceful).at
          db k)
        (λ e. Grows-allocate_from left (suc attempt) input races e orderly);
}

Grows-allocate_handle_and_insert :
    (input : AllocateHandleInput) (races : ℕ → Race)
    → ((n : ℕ) → IsOrderly (races n))
    → Grows (allocate_handle_and_insert input races)
unfolding allocate_handle_and_insert
Grows-allocate_handle_and_insert input races orderly =
    Grows-allocate_from max_allocation_attempts 1 input races _ orderly

Moves-or_not_found : (o : Option TaskRow) → Moves (or_not_found o)
Moves-or_not_found none = Moves-raise (app_error _)
Moves-or_not_found (some row) = Moves-pure row

Moves-or_conflict : (o : Option TaskRow) → Moves (or_conflict o)
Moves-or_conflict none = Moves-raise (app_error conflict)
Moves-or_conflict (some row) = Moves-pure (to_task row)

Moves-cancelled_as : (id : ℕ) (from : TaskStatus) (row : TaskRow) → Moves (cancelled_as id from row)
unfolding abort
Moves-cancelled_as id from row = record {
  at = λ w k.
      if_elim (λ (v : World). Advances w.db.tasks v.db.tasks) (status_eq from TaskStatus.running) _
        _ (λ _. Advances-refl w.db.tasks k) (λ _. Advances-refl w.db.tasks k);
}

Moves-or_next :
    (id : ℕ) (from : TaskStatus) (next : Action Task)
    → Moves next
    → (o : Option TaskRow) → Moves (or_next id from next o)
Moves-or_next id from next h none = h
Moves-or_next id from next h (some row) = Moves-cancelled_as id from row

-- The three states from which a task may be cancelled.
IsCancellable : TaskStatus → Type 0
IsCancellable s = (s ≡ TaskStatus.queued) ⊎ (s ≡ TaskStatus.running) ⊎ (s ≡ TaskStatus.failed)

status-of_selected :
    (user id : ℕ) (from : TaskStatus) (t : TaskRow)
    → selects id (record empty_guard { user_id = some user; status = some (from ∷ []) }) t ≡ true
    → t.status ≡ from
status-of_selected user id from t h = ground arith

Moves-cancel_from :
    (user id : ℕ) (from : TaskStatus) (at : ℕ)
    → IsCancellable from
    → Moves (cancel_from user id from at)
unfolding cancel_from IsCancellable
Moves-cancel_from user id from at c =
    Moves-transition _ at
      λ t h. cancelled at (subst IsCancellable (sym (status-of_selected user id from t h)) c) refl

AllCancellable : List TaskStatus → Type 0
AllCancellable [] = Unit
AllCancellable (s ∷ ss) = IsCancellable s × AllCancellable ss

module _ (user id at : ℕ) (others : World → World) (calm : IsCalm others) where
  Moves-cancel_each :
      (states : List TaskStatus)
      → AllCancellable states
      → Moves (cancel_each user id states at others)
  unfolding cancel_each AllCancellable find_by_id
  Moves-cancel_each [] h =
      Moves-bind _ _ (Moves-store _ (Grows-query _)) (λ _. Moves-raise (app_error conflict))
  Moves-cancel_each (from ∷ rest) h =
      Moves-bind (cancel_from user id from at) _ (Moves-cancel_from user id from at h.0) (
        Moves-or_next id from _ (
          Moves-bind (modify others) _ (Moves-modify others calm)
            (λ _. Moves-cancel_each rest h.1)))

-- A statement that the server refuses.
Grows-refused : (e : Thrown) → Grows {A = Option TaskRow} (guarded (statement λ db. (err e, db)))
Grows-refused e =
    Grows-guarded _ (Grows-statement _ (record { at = λ db k. Advances-refl db.tasks k }))

module _ (num : Numbers) where
  Moves-find : (user : ℕ) (handle : Text) → Moves (find num user handle)
  unfolding find find_by_handle
  Moves-find user handle =
      Moves-bind (lift (parse_handle num handle)) _ (Moves-lift (parse_handle num handle)) λ parsed.
        Moves-bind _ or_not_found
          (Moves-store _ (
            if_elim (λ (m : Sql (Option TaskRow)). Grows m) (ltb max_integer parsed.1) _ _
              (λ _. Grows-refused _) (λ _. Grows-query _)))
          Moves-or_not_found

  pub Moves-submit :
      (config : EngineConfig) (workers : List WorkerDescriptor) (user : ℕ) (lane : Text)
      (params : Params) (races : ℕ → Race)
      → ((n : ℕ) → IsOrderly (races n))
      → Moves (submit num config workers user lane params races)
  unfolding submit
  Moves-submit config workers user lane params races orderly =
      Moves-bind (lift (validate_params num workers lane params)) _
        (Moves-lift (validate_params num workers lane params))
        λ normalised.
          Moves-bind _ _ (Moves-store _ (Grows-allocate_handle_and_insert _ races orderly))
            λ allocated.
              Moves-bind _ _ (Moves-modify _ (IsCalm-publish_event allocated.task allocated.event))
                (λ _. Moves-pure (to_task allocated.task))

  pub Moves-collect : (user : ℕ) (handle : Text) (at : ℕ) → Moves (collect num user handle at)
  unfolding collect
  Moves-collect user handle at =
      Moves-bind (find num user handle) _ (Moves-find user handle) λ task.
        Moves-bind _ or_conflict
          (Moves-transition _ at λ t h. collected at (ground arith) (ground arith) refl)
          Moves-or_conflict

  pub Moves-retry :
      (config : EngineConfig) (user : ℕ) (handle : Text) (at : ℕ)
      → Moves (retry num config user handle at)
  unfolding retry
  Moves-retry config user handle at =
      Moves-bind (find num user handle) _ (Moves-find user handle) λ task.
        Moves-bind _ or_conflict
          (Moves-transition _ at λ t h.
            retried (task.attempts + config.max_attempts) at
              (status-of_selected user task.id TaskStatus.failed t h) refl)
          Moves-or_conflict

  pub Moves-cancel :
      (user : ℕ) (handle : Text) (at : ℕ) (others : World → World)
      → IsCalm others
      → Moves (cancel num user handle at others)
  unfolding cancel AllCancellable IsCancellable
  Moves-cancel user handle at others calm =
      Moves-bind (find num user handle) _ (Moves-find user handle) λ task.
        Moves-cancel_each user task.id at others calm cancellable
          (inl refl, (inr (inl refl), (inr (inr refl), tt)))
