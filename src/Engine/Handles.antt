-- ===== src/Engine/Handles.antt =====
-- Handle allocation with its retry loop: backend/src/engine/handles.ts.
use background_job_runner.Prelude.{ℕ, zero, suc, if◌then◌else◌, List, none}
use background_job_runner.Types.{TaskRow}
use background_job_runner.Errors.{
  Thrown, Result, ok, err, conflict, not_error, error, caused, app_error,
}
use background_job_runner.Repository.Sql.{Sql, is_unique_violation}
use background_job_runner.Repository.Operations.{
  TaskWithEvent, AllocateHandleInput, allocate_handle,
}

abbrev pub max_allocation_attempts : ℕ
max_allocation_attempts = 5

-- What the world adds to one attempt: the random uuid, and what other sessions commit between the
-- gap query's snapshot and the insert.
pub record Race : Type 0 where
  pub id : ℕ
  pub others : List TaskRow → List TaskRow

abbrev pub or_retry : Result TaskWithEvent → (Thrown → Sql TaskWithEvent) → Sql TaskWithEvent
or_retry (ok a) retry db = (ok a, db)
or_retry (err e) retry db =
    let again = retry e db in if is_unique_violation e then again else (err e, db)

-- `lastError instanceof Error ? lastError : undefined`
abbrev pub exhausted : Thrown → Thrown
exhausted not_error = app_error conflict
exhausted (error c code) = caused conflict none (error c code)
exhausted (caused c code e) = caused conflict none (caused c code e)

-- `left` counts the attempts left, and `last` is `lastError`; `races attempt` is the world's part in
-- that attempt.
unfoldable pub allocate_from : ℕ → ℕ → AllocateHandleInput → (ℕ → Race) → Thrown → Sql TaskWithEvent
allocate_from zero attempt input races last db = (err (exhausted last), db)
allocate_from (suc left) attempt input races last db =
    let (r, db') = allocate_handle input (races attempt).id (races attempt).others db in
    or_retry r (allocate_from left (suc attempt) input races) db'

unfoldable pub allocate_handle_and_insert : AllocateHandleInput → (ℕ → Race) → Sql TaskWithEvent
allocate_handle_and_insert input races =
    allocate_from max_allocation_attempts 1 input races not_error
