-- ===== src/Repository/Writes.antt =====
-- The single statements of backend/src/engine/repository.ts that write.
-- An update writes every row that its WHERE clause selects, or none if a key would be violated.
-- `at` is the application's clock, `db.now` the database's.
pub mod Effects
pub mod Counting
pub mod Claims
pub mod Leases
use background_job_runner.Prelude.{
  ℕ, suc, ◌+◌, Bool, true, false, ◌&&◌, not, List, [], ◌∷◌, ◌++◌, map, Option, none, some, ◌==◌,
  leb, ltb, any, filter, take, head?, length, if◌then◌else◌, Text,
}
use background_job_runner.Prelude.Sort.{sort_by}
use background_job_runner.Types.{
  TaskStatus, TaskRow, TaskPatch, TaskGuard, Params, Value, status_eq,
}
use background_job_runner.Types.Events.{TaskEventType, Detail, TaskEventRow}
use background_job_runner.Errors.{Thrown, error, plain, Result, ok, err}
use background_job_runner.Repository.Sql.{
  Db, Sql, ◌>>=◌, pure, statement, guarded, unique_violation,
}
use background_job_runner.Repository.Schema.{keys_ok}
use background_job_runner.Repository.Slot.{used, slot}

-- What the server answers to a write that would repeat a key.
abbrev pub key_error : Thrown
key_error = error plain (some unique_violation)

-- One row under `UPDATE tasks SET … WHERE …`.
abbrev pub change : (TaskRow → Bool) → (TaskRow → TaskRow) → TaskRow → TaskRow
change p f t = if p t then f t else t

unfoldable pub update_where : (TaskRow → Bool) → (TaskRow → TaskRow) → Sql (List TaskRow)
update_where p f db =
    if keys_ok (map (change p f) db.tasks)
    then (ok (map f (filter p db.tasks)), record db { tasks = map (change p f) db.tasks })
    else (err key_error, db)

pub record NewTask : Type 0 where
  pub id : ℕ
  pub user_id : ℕ
  pub lane : Text
  pub params : Params
  pub max_attempts : ℕ

abbrev pub new_row : NewTask → ℕ → ℕ → TaskRow
new_row task n now = record {
  id = task.id;
  user_id = task.user_id;
  lane = task.lane;
  handle_num = n;
  params = task.params;
  status = TaskStatus.queued;
  result = Value.null;
  error = none;
  attempts = 0;
  max_attempts = task.max_attempts;
  run_after = now;
  lease_until = none;
  runner_id = none;
  collected = false;
  collected_at = none;
  is_seed = false;
  created_at = now;
  updated_at = now;
}

-- The user is one of the table of users: the reference to it is not checked.
unfoldable pub insert_row : TaskRow → Sql TaskRow
insert_row t db =
    if keys_ok (t ∷ db.tasks)
    then (ok t, record db { tasks = t ∷ db.tasks })
    else (err key_error, db)

-- The gap is read from a snapshot; `others` is what other sessions commit between the snapshot and
-- the insert.
unfoldable pub insert_in_gap : NewTask → (List TaskRow → List TaskRow) → Sql TaskRow
insert_in_gap task others db =
    let n = slot (used task.user_id task.lane db.tasks) in
    insert_row (new_row task n db.now) (record db { tasks = others db.tasks })

unfoldable pub insert_at_next_handle : NewTask → (List TaskRow → List TaskRow) → Sql TaskRow
insert_at_next_handle task others = guarded (statement (insert_in_gap task others))

pub record NewEvent : Type 0 where
  pub task_id : ℕ
  pub user_id : ℕ
  pub type : TaskEventType
  pub detail : Detail

abbrev pub event_row : NewEvent → Db → TaskEventRow
event_row e db = record {
  id = db.next_event_id;
  task_id = e.task_id;
  user_id = e.user_id;
  type = e.type;
  detail = e.detail;
  at = db.now;
}

unfoldable pub append_event : NewEvent → Sql TaskEventRow
append_event e db = (
  ok (event_row e db),
  record db { events = db.events ++ event_row e db ∷ []; next_event_id = suc db.next_event_id },
)

unfoldable pub insert_event : NewEvent → Sql TaskEventRow
insert_event e = guarded (statement (append_event e))

abbrev pub or_keep {ℓ} : {A : Type ℓ} → Option A → A → A
or_keep none old = old
or_keep (some new) old = new

abbrev pub apply_patch : TaskPatch → ℕ → TaskRow → TaskRow
apply_patch p at t = record t {
  status = or_keep p.status t.status;
  result = or_keep p.result t.result;
  error = or_keep p.error t.error;
  attempts = or_keep p.attempts t.attempts;
  max_attempts = or_keep p.max_attempts t.max_attempts;
  run_after = or_keep p.run_after t.run_after;
  lease_until = or_keep p.lease_until t.lease_until;
  runner_id = or_keep p.runner_id t.runner_id;
  collected = or_keep p.collected t.collected;
  collected_at = or_keep p.collected_at t.collected_at;
  updated_at = at;
}

abbrev pub if_given {ℓ} : {A : Type ℓ} → Option A → (A → Bool) → Bool
if_given none p = true
if_given (some a) p = p a

-- `"runnerId" = x` is not true of NULL.
abbrev pub is_some_eq : Option ℕ → ℕ → Bool
is_some_eq none x = false
is_some_eq (some y) x = y == x

abbrev pub bool_eq : Bool → Bool → Bool
bool_eq true b = b
bool_eq false b = not b

abbrev pub guard_holds : TaskGuard → TaskRow → Bool
guard_holds g t =
    if_given g.user_id (λ u. t.user_id == u)
    && if_given g.status (λ ss. any (status_eq t.status) ss)
    && if_given g.runner_id (λ r. is_some_eq t.runner_id r)
    && if_given g.collected (λ c. bool_eq t.collected c)

abbrev pub selects : ℕ → TaskGuard → TaskRow → Bool
selects id g t = t.id == id && guard_holds g t

-- `row ?? null`
abbrev pub first_row : List TaskRow → Sql (Option TaskRow)
first_row rows = pure (head? rows)

unfoldable pub update_task : ℕ → TaskPatch → TaskGuard → ℕ → Sql (Option TaskRow)
update_task id patch guard at =
    guarded (statement (update_where (selects id guard) (apply_patch patch at)) >>= first_row)

abbrev pub is_runnable : ℕ → TaskRow → Bool
is_runnable now t = status_eq t.status TaskStatus.queued && not t.is_seed && leb t.run_after now

-- `ORDER BY "createdAt"`; rows of one time stay in table order.
abbrev pub created_le : TaskRow → TaskRow → Bool
created_le t u = leb t.created_at u.created_at

abbrev pub id_in : List ℕ → TaskRow → Bool
id_in ids t = any (λ i. i == t.id) ids

-- The inner SELECT of the claim; `locked` are the rows that other transactions hold.
unfoldable pub picked : List ℕ → ℕ → ℕ → List TaskRow → List TaskRow
picked locked limit now ts =
    take limit (sort_by created_le (filter (λ t. is_runnable now t && not (id_in locked t)) ts))

abbrev pub claimed_by : ℕ → ℕ → ℕ → TaskRow → TaskRow
claimed_by runner_id lease_ms now t = record t {
  status = TaskStatus.running;
  attempts = t.attempts + 1;
  runner_id = some runner_id;
  lease_until = some (now + lease_ms);
  updated_at = now;
}

unfoldable pub claim_rows : ℕ → ℕ → ℕ → List ℕ → Sql (List TaskRow)
claim_rows runner_id lease_ms limit locked db =
    let ids = map (λ t. t.id) (picked locked limit db.now db.tasks) in
    update_where (id_in ids) (claimed_by runner_id lease_ms db.now) db

unfoldable pub claim : ℕ → ℕ → ℕ → List ℕ → Sql (List TaskRow)
claim runner_id lease_ms limit locked =
    guarded (statement (claim_rows runner_id lease_ms limit locked))

abbrev pub requeued : ℕ → TaskRow → TaskRow
requeued now t = record t {
  status = TaskStatus.queued;
  runner_id = none;
  lease_until = none;
  run_after = now;
  updated_at = now;
}

-- `status = 'running' AND NOT "isSeed" AND "runnerId" IS DISTINCT FROM …`
abbrev pub is_orphan : ℕ → TaskRow → Bool
is_orphan runner_id t =
    status_eq t.status TaskStatus.running && not t.is_seed && not (is_some_eq t.runner_id runner_id)

unfoldable pub requeue_where : (ℕ → TaskRow → Bool) → Sql (List TaskRow)
requeue_where p db = update_where (p db.now) (requeued db.now) db

unfoldable pub reclaim_orphans : ℕ → Sql (List TaskRow)
reclaim_orphans runner_id = guarded (statement (requeue_where (λ _. is_orphan runner_id)))

abbrev pub lease_lapsed : Option ℕ → ℕ → Bool
lease_lapsed none now = false
lease_lapsed (some until) now = ltb until now

abbrev pub is_expired : List ℕ → ℕ → TaskRow → Bool
is_expired exclude_ids now t =
    status_eq t.status TaskStatus.running
    && not t.is_seed
    && lease_lapsed t.lease_until now
    && not (id_in exclude_ids t)

unfoldable pub reclaim_expired_leases : List ℕ → Sql (List TaskRow)
reclaim_expired_leases exclude_ids = guarded (statement (requeue_where (is_expired exclude_ids)))

abbrev pub is_beating : ℕ → List ℕ → TaskRow → Bool
is_beating runner_id ids t =
    status_eq t.status TaskStatus.running && is_some_eq t.runner_id runner_id && id_in ids t

abbrev pub leased : ℕ → ℕ → TaskRow → TaskRow
leased lease_ms now t = record t { lease_until = some (now + lease_ms); updated_at = now }

-- `result.count`
abbrev pub row_count : Result (List TaskRow) → Result ℕ
row_count (ok rows) = ok (length rows)
row_count (err e) = err e

unfoldable pub extend_leases : ℕ → List ℕ → ℕ → Sql ℕ
extend_leases runner_id ids lease_ms db =
    let (r, db') = update_where (is_beating runner_id ids) (leased lease_ms db.now) db in
    (row_count r, db')

unfoldable pub heartbeat : ℕ → List ℕ → ℕ → Sql ℕ
heartbeat runner_id [] lease_ms = pure 0
heartbeat runner_id (i ∷ ids) lease_ms =
    guarded (statement (extend_leases runner_id (i ∷ ids) lease_ms))
