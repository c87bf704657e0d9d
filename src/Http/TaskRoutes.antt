-- ===== src/Http/TaskRoutes.antt =====
-- The routes of tasks: backend/src/modules/task/task.routes.ts.
-- A handler gets the context that the auth hook has left on the request, if any, and answers with a status
-- and a body, or throws. Its other arguments are the clock, the races of an allocation and what others do
-- meanwhile, as in Engine/Operations.
pub mod Isolation
use background_job_runner.Prelude.{ℕ, List, map, Option, none, some, Text, [], ◌∷◌}
use background_job_runner.Types.{TaskFilters, Params, EngineConfig}
use background_job_runner.Errors.{app_error, unauthorized}
use background_job_runner.Engine.Numbers.{Numbers}
use background_job_runner.Engine.Registry
use background_job_runner.Engine.Registry.{WorkerDescriptor}
use background_job_runner.Engine.World.{World, Action, pure, raise, ◌>>=◌, lift}
use background_job_runner.Engine.Handles.{Race}
use background_job_runner.Engine.Operations as Engine
use background_job_runner.Engine.Operations.{Stats}
use background_job_runner.Http.TaskSchema.{
  TaskResponse, TaskEventResponse, LaneResponse, CreateTaskBody, ListTasksQuery, to_task_response,
  to_task_event_response, to_lane_response, parse_iso_date,
}

pub record Reply {ℓ} (A : Type ℓ) : Type ℓ where
  pub status : ℕ
  pub body : A

abbrev pub send {ℓ} : {A : Type ℓ} → ℕ → A → Action (Reply A)
send status body = pure (record { status = status; body = body })

-- The user of `requireAuth(req)`.
abbrev pub require_user : Option ℕ → Action ℕ
require_user none = raise (app_error unauthorized)
require_user (some user_id) = pure user_id

abbrev pub params_or_empty : Option Params → Params
params_or_empty none = []
params_or_empty (some params) = params

unfoldable pub get_stats : Option ℕ → Action (Reply Stats)
get_stats auth = do user_id ← require_user auth; counts ← Engine.stats user_id; send 200 counts

unfoldable pub get_task_by_id : Option ℕ → ℕ → Action (Reply TaskResponse)
get_task_by_id auth id = do
  user_id ← require_user auth
  task ← Engine.get_by_id user_id id
  send 200 (to_task_response task)

unfoldable pub get_task_history_by_id : Option ℕ → ℕ → Action (Reply (List TaskEventResponse))
get_task_history_by_id auth id = do
  user_id ← require_user auth
  events ← Engine.history_by_id user_id id
  send 200 (map to_task_event_response events)

abbrev pub filters_of : ListTasksQuery → Option ℕ → Option ℕ → TaskFilters
filters_of q created_after created_before = record {
  status = q.status;
  lane = q.lane;
  created_after = created_after;
  created_before = created_before;
  sort = q.sort;
  limit = q.limit;
  offset = q.offset;
}

unfoldable pub list_tasks :
    (Text → Option ℕ) → Option ℕ → ListTasksQuery → Action (Reply (List TaskResponse))
list_tasks parse_date auth q = do
  user_id ← require_user auth
  created_after ← lift (parse_iso_date parse_date q.from)
  created_before ← lift (parse_iso_date parse_date q.to)
  tasks ← Engine.list user_id (filters_of q created_after created_before)
  send 200 (map to_task_response tasks)

unfoldable pub list_lanes : List WorkerDescriptor → Action (Reply (List LaneResponse))
list_lanes workers = send 200 (map to_lane_response (Registry.list workers))

module _ (num : Numbers) where
  unfoldable pub create_task :
      EngineConfig
      → List WorkerDescriptor
      → Option ℕ
      → CreateTaskBody
      → (ℕ → Race)
      → Action (Reply TaskResponse)
  create_task config workers auth body races = do
    user_id ← require_user auth
    task ← Engine.submit num config workers user_id body.lane (params_or_empty body.params) races
    send 201 (to_task_response task)

  unfoldable pub get_task : Option ℕ → Text → Action (Reply TaskResponse)
  get_task auth handle = do
    user_id ← require_user auth
    task ← Engine.get num user_id handle
    send 200 (to_task_response task)

  unfoldable pub collect_task_result : Option ℕ → Text → ℕ → Action (Reply TaskResponse)
  collect_task_result auth handle at = do
    user_id ← require_user auth
    task ← Engine.collect num user_id handle at
    send 200 (to_task_response task)

  unfoldable pub get_task_history : Option ℕ → Text → Action (Reply (List TaskEventResponse))
  get_task_history auth handle = do
    user_id ← require_user auth
    events ← Engine.history num user_id handle
    send 200 (map to_task_event_response events)

  unfoldable pub cancel_task : Option ℕ → Text → ℕ → (World → World) → Action (Reply TaskResponse)
  cancel_task auth handle at others = do
    user_id ← require_user auth
    task ← Engine.cancel num user_id handle at others
    send 200 (to_task_response task)

  unfoldable pub retry_task : EngineConfig → Option ℕ → Text → ℕ → Action (Reply TaskResponse)
  retry_task config auth handle at = do
    user_id ← require_user auth
    task ← Engine.retry num config user_id handle at
    send 200 (to_task_response task)
