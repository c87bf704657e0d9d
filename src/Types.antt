-- ===== src/Types.antt =====
-- The data of the engine: backend/src/engine/types.ts, the inputs of backend/src/engine/repository.types.ts
-- and the payloads of backend/src/engine/workers/types.ts.
-- A uuid is a number, compared for equality only. A time is its number of milliseconds. A number
-- inside a payload is the bit pattern of its double, which the engine passes on unread.
pub mod Events
use background_job_runner.Prelude.{
  ℕ, ◌≡◌, refl, ◌↔◌, Bool, true, false, List, Option, none, arith, Text,
}

pub data TaskStatus : Type 0 where
  queued running ready failed cancelled : TaskStatus

pub TaskStatus-discrete : Discrete TaskStatus
TaskStatus-discrete = hlevel

-- `a === b` on statuses.
abbrev pub status_eq : TaskStatus → TaskStatus → Bool
status_eq TaskStatus.queued TaskStatus.queued = true
status_eq TaskStatus.running TaskStatus.running = true
status_eq TaskStatus.ready TaskStatus.ready = true
status_eq TaskStatus.failed TaskStatus.failed = true
status_eq TaskStatus.cancelled TaskStatus.cancelled = true
status_eq _ _ = false

pub status_eq_iff : (a b : TaskStatus) → (status_eq a b ≡ true) ↔ (a ≡ b)
status_eq_iff a b = ground arith

-- A value of type `unknown`: what JSON can hold, and `undefined`.
pub data Value : Type 0 where
  undefined null : Value
  bool : Bool → Value
  num : ℕ → Value
  str : Text → Value
  structured : ℕ → Value

-- `Record<string, unknown>`, in insertion order.
abbrev pub Params : Type 0
Params = List (Text × Value)

pub record TaskError : Type 0 where
  pub reason : Text
  pub retryable : Bool

pub record TaskRow : Type 0 where
  pub id : ℕ
  pub user_id : ℕ
  pub lane : Text
  pub handle_num : ℕ
  pub params : Params
  pub status : TaskStatus
  pub result : Value
  pub error : Option TaskError
  pub attempts : ℕ
  pub max_attempts : ℕ
  pub run_after : ℕ
  pub lease_until : Option ℕ
  pub runner_id : Option ℕ
  pub collected : Bool
  pub collected_at : Option ℕ
  pub is_seed : Bool
  pub created_at : ℕ
  pub updated_at : ℕ

-- In a patch `none` is a key left out: the column stays. For a nullable column `some none` is NULL.
pub record TaskPatch : Type 0 where
  pub status : Option TaskStatus
  pub result : Option Value
  pub error : Option (Option TaskError)
  pub attempts : Option ℕ
  pub max_attempts : Option ℕ
  pub run_after : Option ℕ
  pub lease_until : Option (Option ℕ)
  pub runner_id : Option (Option ℕ)
  pub collected : Option Bool
  pub collected_at : Option (Option ℕ)

abbrev pub empty_patch : TaskPatch
empty_patch = record {
  status = none;
  result = none;
  error = none;
  attempts = none;
  max_attempts = none;
  run_after = none;
  lease_until = none;
  runner_id = none;
  collected = none;
  collected_at = none;
}

-- A single status is the list of that one.
pub record TaskGuard : Type 0 where
  pub user_id : Option ℕ
  pub status : Option (List TaskStatus)
  pub runner_id : Option ℕ
  pub collected : Option Bool

abbrev pub empty_guard : TaskGuard
empty_guard = record { user_id = none; status = none; runner_id = none; collected = none }

pub data SortOrder : Type 0 where
  asc desc : SortOrder

pub record TaskFilters : Type 0 where
  pub status : Option TaskStatus
  pub lane : Option Text
  pub created_after : Option ℕ
  pub created_before : Option ℕ
  pub sort : Option SortOrder
  pub limit : Option ℕ
  pub offset : Option ℕ

pub record EngineConfig : Type 0 where
  pub concurrency : ℕ
  pub lease_ms : ℕ
  pub max_attempts : ℕ
  pub backoff_base_ms : ℕ
  pub backoff_max_ms : ℕ
  pub boot_sweep : Bool
  pub job_timeout_ms : ℕ
  pub runner_id : ℕ

pub record Job : Type 0 where
  pub handle : Text
  pub lane : Text
  pub params : Params

-- `status: 'ready'` with its result, or `status: 'failed'` with its error, if it gave one.
pub data WorkerResult : Type 0 where
  ready : Value → WorkerResult
  failed : Option TaskError → WorkerResult
