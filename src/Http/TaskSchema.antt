-- ===== src/Http/TaskSchema.antt =====
-- What requests may hold and what answers show of a task: backend/src/modules/task/task.schema.ts.
-- The schemas are checked by the framework; here they are the tests that a request has passed. Formats and
-- `new Date(text)` belong to the platform. A time stays its milliseconds.
use background_job_runner.Prelude.{
  ℕ, Bool, true, ◌&&◌, List, map, Option, none, some, leb, if◌then◌else◌, Text,
}
use background_job_runner.Prelude.Texts.{characters}
use background_job_runner.Types.{TaskStatus, Value, TaskError, Params, SortOrder, status_eq}
use background_job_runner.Types.Events.{TaskEventType, Detail, TaskEventWithTask}
use background_job_runner.Errors.{Result, ok, err, app_error, bad_request}
use background_job_runner.Engine.Operations.{Task}
use background_job_runner.Engine.Registry.{ParamDescriptor, ParamType, WorkerDescriptor}

pub record TaskResponse : Type 0 where
  pub id : ℕ
  pub handle : Text
  pub lane : Text
  pub params : Params
  pub status : TaskStatus
  pub result : Value
  pub error : Option TaskError
  pub attempts : ℕ
  pub collected : Bool
  pub is_seed : Bool
  pub created_at : ℕ
  pub updated_at : ℕ

-- `value ?? null`
abbrev pub or_null : Value → Value
or_null Value.undefined = Value.null
or_null v = v

unfoldable pub to_task_response : Task → TaskResponse
to_task_response t = record {
  id = t.id;
  handle = t.handle;
  lane = t.lane;
  params = t.params;
  status = t.status;
  result = if status_eq t.status TaskStatus.ready then or_null t.result else Value.null;
  error = if status_eq t.status TaskStatus.failed then t.error else none;
  attempts = t.attempts;
  collected = t.collected;
  is_seed = t.is_seed;
  created_at = t.created_at;
  updated_at = t.updated_at;
}

pub record TaskEventResponse : Type 0 where
  pub id : ℕ
  pub type : TaskEventType
  pub at : ℕ
  pub detail : Detail

unfoldable pub to_task_event_response : TaskEventWithTask → TaskEventResponse
to_task_event_response e = record {
  id = e.event.id;
  type = e.event.type;
  at = e.event.at;
  detail = e.event.detail;
}

pub record LaneParam : Type 0 where
  pub name : Text
  pub type : ParamType
  pub required : Bool
  pub default : Value
  pub min : Option ℕ
  pub max : Option ℕ

pub record LaneResponse : Type 0 where
  pub lane : Text
  pub params : List LaneParam

abbrev pub to_lane_param : ParamDescriptor → LaneParam
to_lane_param p = record {
  name = p.name;
  type = p.type;
  required = p.required;
  default = p.default;
  min = p.min;
  max = p.max;
}

unfoldable pub to_lane_response : WorkerDescriptor → LaneResponse
to_lane_response info = record { lane = info.lane; params = map to_lane_param info.params }

pub record CreateTaskBody : Type 0 where
  pub lane : Text
  pub params : Option Params

unfoldable pub valid_create_body : CreateTaskBody → Bool
valid_create_body b = leb 1 (characters b.lane)

pub record ListTasksQuery : Type 0 where
  pub status : Option TaskStatus
  pub lane : Option Text
  pub from : Option Text
  pub to : Option Text
  pub sort : Option SortOrder
  pub limit : Option ℕ
  pub offset : Option ℕ

abbrev pub in_range : Option ℕ → ℕ → ℕ → Bool
in_range none lo hi = true
in_range (some n) lo hi = leb lo n && leb n hi

unfoldable pub valid_list_query : ListTasksQuery → Bool
valid_list_query q = in_range q.limit 1 100

-- `parse_date` is the time of `new Date(text)`, or that it is not a number.
abbrev pub parsed_date : Option ℕ → Result (Option ℕ)
parsed_date none = err (app_error bad_request)
parsed_date (some at) = ok (some at)

unfoldable pub parse_iso_date : (Text → Option ℕ) → Option Text → Result (Option ℕ)
parse_iso_date parse_date none = ok none
parse_iso_date parse_date (some value) = parsed_date (parse_date value)
