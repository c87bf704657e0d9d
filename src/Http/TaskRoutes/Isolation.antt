-- ===== src/Http/TaskRoutes/Isolation.antt =====
-- Whose tasks the routes show: backend/src/modules/task/task.routes.ts.
use background_job_runner.Prelude.{
  ℕ, ◌≡◌, refl, ap, List, Option, some, Text, All, All-map, All-mono,
}
use background_job_runner.Types.{TaskRow, EngineConfig}
use background_job_runner.Repository.Sql.Results.{OnOk, OnOk-any}
use background_job_runner.Engine.Numbers.{Numbers}
use background_job_runner.Engine.Registry.{WorkerDescriptor}
use background_job_runner.Engine.World.{World, Action, ◌>>=◌, lift}
use background_job_runner.Engine.Handles.{Race}
use background_job_runner.Engine.Operations as Engine
use background_job_runner.Engine.Operations.{Task, to_task}
use background_job_runner.Engine.Ownership.{Stands}
use background_job_runner.Engine.Ownership.Tasks.{
  Owns, OnOk-then, get-Owns, get_by_id-Owns, list-Owns, collect-Owns, retry-Owns, cancel-Owns,
  submit-Owns,
}
use background_job_runner.Http.TaskSchema.{
  TaskResponse, CreateTaskBody, ListTasksQuery, to_task_response, parse_iso_date,
}
use background_job_runner.Http.TaskRoutes.{
  Reply, send, filters_of, params_or_empty, create_task, list_tasks, get_task, get_task_by_id,
  collect_task_result, cancel_task, retry_task,
}

-- The response shows a row of the user that stands in the table now.
abbrev pub ShowsRow : ℕ → World → TaskResponse → Type 0
ShowsRow user_id w r =
    (t : TaskRow) × Stands user_id w.db.tasks t × (r ≡ to_task_response (to_task t))

module _ (user_id : ℕ) where
  abbrev pub Shows : ℕ → Reply TaskResponse → World → Type 0
  Shows status r w = ShowsRow user_id w r.body × (r.status ≡ status)

  shown : (t : Task) (w : World) → Owns user_id t w → ShowsRow user_id w (to_task_response t)
  shown t w (stands, is) = (t.row, stands, ap to_task_response is)

  -- A route that answers with the task of an operation.
  Shows-route :
      (status : ℕ) (m : Action Task) (w : World)
      → OnOk (Owns user_id) (m w)
      → OnOk (Shows status) ((m >>= λ t. send status (to_task_response t)) w)
  Shows-route status m w h =
      OnOk-then (Owns user_id) (Shows status) m _ w h (λ t v o. (shown t v o, refl))

  abbrev pub ShowsAll : Reply (List TaskResponse) → World → Type 0
  ShowsAll r w = All (ShowsRow user_id w) r.body

  list_tasks-ShowsAll :
      (parse_date : Text → Option ℕ) (q : ListTasksQuery) (w : World)
      → OnOk ShowsAll (list_tasks parse_date (some user_id) q w)
  unfolding list_tasks
  list_tasks-ShowsAll parse_date q w =
      OnOk-then (λ _ _. Unit {0}) ShowsAll (lift (parse_iso_date parse_date q.from)) _ w
        (OnOk-any _)
        (λ a v _.
          OnOk-then (λ _ _. Unit {0}) ShowsAll (lift (parse_iso_date parse_date q.to)) _ v
            (OnOk-any _)
            (λ b x _.
              OnOk-then (λ ts y. All (λ t. Owns user_id t y) ts) ShowsAll
                (Engine.list user_id (filters_of q a b)) _ x
                (list-Owns user_id (filters_of q a b) x)
                (λ ts y h.
                  All-map (ShowsRow user_id y) to_task_response ts
                    (All-mono ts (λ t o. shown t y o) h))))

  module _ (num : Numbers) (config : EngineConfig) (workers : List WorkerDescriptor)
      (parse_date : Text → Option ℕ) where
    -- What each route that shows tasks does for a signed-in user, on every world.
    pub record IsIsolated : Type 0 where
      pub created :
          (b : CreateTaskBody) (races : ℕ → Race) (w : World)
          → OnOk (Shows 201) (create_task num config workers (some user_id) b races w)
      pub listed :
          (q : ListTasksQuery) (w : World)
          → OnOk ShowsAll (list_tasks parse_date (some user_id) q w)
      pub by_id : (id : ℕ) (w : World) → OnOk (Shows 200) (get_task_by_id (some user_id) id w)
      pub by_handle :
          (handle : Text) (w : World) → OnOk (Shows 200) (get_task num (some user_id) handle w)
      pub collected :
          (handle : Text) (at : ℕ) (w : World)
          → OnOk (Shows 200) (collect_task_result num (some user_id) handle at w)
      pub cancelled :
          (handle : Text) (at : ℕ) (others : World → World) (w : World)
          → OnOk (Shows 200) (cancel_task num (some user_id) handle at others w)
      pub retried :
          (handle : Text) (at : ℕ) (w : World)
          → OnOk (Shows 200) (retry_task num config (some user_id) handle at w)

    -- Whatever the tables, the faults and the interference, every task that a route shows to a user who is
    -- signed in is a row of that user, as it stands in the table when the route answers.
    pub routes-IsIsolated : IsIsolated
    unfolding create_task get_task get_task_by_id collect_task_result cancel_task retry_task
    routes-IsIsolated = record {
      created = λ b races w.
          Shows-route 201
            (Engine.submit num config workers user_id b.lane (params_or_empty b.params) races) w
            (submit-Owns user_id num config workers b.lane (params_or_empty b.params) races w);
      listed = list_tasks-ShowsAll parse_date;
      by_id = λ id w. Shows-route 200 (Engine.get_by_id user_id id) w (get_by_id-Owns user_id id w);
      by_handle = λ handle w.
          Shows-route 200 (Engine.get num user_id handle) w (get-Owns user_id num handle w);
      collected = λ handle at w.
          Shows-route 200 (Engine.collect num user_id handle at) w
            (collect-Owns user_id num handle at w);
      cancelled = λ handle at others w.
          Shows-route 200 (Engine.cancel num user_id handle at others) w
            (cancel-Owns user_id num handle at others w);
      retried = λ handle at w.
          Shows-route 200 (Engine.retry num config user_id handle at) w
            (retry-Owns user_id num config handle at w);
    }
