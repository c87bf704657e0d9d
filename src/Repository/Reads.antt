-- ===== src/Repository/Reads.antt =====
-- The queries of backend/src/engine/repository.ts.
use background_job_runner.Prelude.{
  ℕ, Bool, ◌&&◌, ◌||◌, List, [], ◌∷◌, ◌++◌, Option, none, some, ◌==◌, leb, ltb, min, filter, take,
  drop, head?, if◌then◌else◌, Text, text_eq, length,
}
use background_job_runner.Prelude.Sort.{sort_by}
use background_job_runner.Types.{TaskStatus, TaskRow, TaskFilters, SortOrder, asc, desc, status_eq}
use background_job_runner.Types.Events.{TaskEventRow, TaskEventWithTask}
use background_job_runner.Errors.{Thrown, error, plain, ok, err}
use background_job_runner.Repository.Sql.{Db, Sql, statement, guarded}
use background_job_runner.Repository.Schema.{has_handle}
use background_job_runner.Repository.Writes.{if_given}

-- A query returns what it computes from the tables, and writes nothing.
unfoldable pub query {ℓ} : {A : Type ℓ} → (Db → A) → Sql A
query f = guarded (statement λ db. (ok (f db), db))

-- `ORDER BY "createdAt" DESC`
abbrev pub created_ge : TaskRow → TaskRow → Bool
created_ge t u = leb u.created_at t.created_at

-- The largest number that the type of the column `handleNum` has.
abbrev pub max_integer : ℕ
max_integer = 2147483647

-- What the server answers to a parameter that its type does not have.
abbrev pub out_of_range : Thrown
out_of_range = error plain (some 22003)

-- Of rows with equal times the first of the table is taken, where the source leaves it open.
unfoldable pub find_by_handle : ℕ → Text → ℕ → Sql (Option TaskRow)
find_by_handle user_id lane handle_num =
    if ltb max_integer handle_num
    then guarded (statement λ db. (err out_of_range, db))
    else query
        λ db. head? (sort_by created_ge (filter (has_handle user_id lane handle_num) db.tasks))

unfoldable pub find_by_id : ℕ → ℕ → Sql (Option TaskRow)
find_by_id user_id id =
    query λ db. head? (filter (λ t. t.id == id && t.user_id == user_id) db.tasks)

abbrev pub default_list_limit : ℕ
default_list_limit = 100

abbrev pub matches : ℕ → TaskFilters → TaskRow → Bool
matches user_id filters t =
    t.user_id == user_id
    && if_given filters.status (λ s. status_eq t.status s)
    && if_given filters.lane (λ l. text_eq t.lane l)
    && if_given filters.created_after (λ c. leb c t.created_at)
    && if_given filters.created_before (λ c. leb t.created_at c)

-- By time, then by id.
abbrev pub older : TaskRow → TaskRow → Bool
older t u = ltb t.created_at u.created_at || (t.created_at == u.created_at && leb t.id u.id)

abbrev pub list_order : Option SortOrder → TaskRow → TaskRow → Bool
list_order (some asc) t u = older t u
list_order (some desc) t u = older u t
list_order none t u = older u t

abbrev pub given_or : Option ℕ → ℕ → ℕ
given_or none d = d
given_or (some n) d = n

unfoldable pub list : ℕ → TaskFilters → Sql (List TaskRow)
list user_id filters = query λ db.
    take (min (given_or filters.limit default_list_limit) default_list_limit) (
      drop (given_or filters.offset 0)
        (sort_by (list_order filters.sort) (filter (matches user_id filters) db.tasks)))

-- The rows of `task_events e JOIN tasks t ON t.id = e."taskId"` for one event.
unfoldable pub join_task : TaskEventRow → List TaskRow → List TaskEventWithTask
join_task e [] = []
join_task e (t ∷ ts) =
    let rest = join_task e ts in
    if t.id == e.task_id
    then record { event = e; lane = t.lane; handle_num = t.handle_num } ∷ rest
    else rest

unfoldable pub join_tasks : List TaskEventRow → List TaskRow → List TaskEventWithTask
join_tasks [] ts = []
join_tasks (e ∷ es) ts = join_task e ts ++ join_tasks es ts

-- `ORDER BY e.id ASC`
abbrev pub event_le : TaskEventRow → TaskEventRow → Bool
event_le d e = leb d.id e.id

unfoldable pub history : ℕ → ℕ → Sql (List TaskEventWithTask)
history user_id task_id = query λ db.
    join_tasks
      (sort_by event_le (filter (λ e. e.task_id == task_id && e.user_id == user_id) db.events))
      db.tasks

abbrev pub default_event_limit : ℕ
default_event_limit = 500

unfoldable pub events_since : ℕ → ℕ → Option ℕ → Sql (List TaskEventWithTask)
events_since user_id since_id limit = query λ db. take (given_or limit default_event_limit) (
    join_tasks
      (sort_by event_le (filter (λ e. e.user_id == user_id && ltb since_id e.id) db.events))
      db.tasks)

unfoldable pub count_status : ℕ → TaskStatus → List TaskRow → ℕ
count_status user_id s ts = length (filter (λ t. t.user_id == user_id && status_eq t.status s) ts)

abbrev pub all_statuses : List TaskStatus
all_statuses =
    TaskStatus.queued ∷ TaskStatus.running ∷ TaskStatus.ready ∷ TaskStatus.failed
    ∷ TaskStatus.cancelled ∷ []

unfoldable pub groups : ℕ → List TaskStatus → List TaskRow → List (TaskStatus × ℕ)
groups user_id [] ts = []
groups user_id (s ∷ ss) ts =
    let n = count_status user_id s ts in
    let rest = groups user_id ss ts in if n == 0 then rest else (s, n) ∷ rest

-- `SELECT status, COUNT(*) … GROUP BY status`: statuses with no rows are absent.
unfoldable pub stats_by_status : ℕ → Sql (List (TaskStatus × ℕ))
stats_by_status user_id = query λ db. groups user_id all_statuses db.tasks
