-- ===== src/Types/Events.antt =====
-- The event rows and the wire events of backend/src/engine/types.ts.
use background_job_runner.Prelude.{ℕ, Bool, true, false, List, Text}
use background_job_runner.Types.{TaskStatus}

pub data TaskEventType : Type 0 where
  accepted started ready failed cancelled : TaskEventType
  retry_scheduled requeued_on_restart lease_expired collected retry_requested : TaskEventType

-- The keys that the engine writes in an event's `detail`.
pub data DetailKey : Type 0 where
  summary reason retryable attempt attempts max_attempts backoff_ms run_after : DetailKey
  timed_out timeout_ms reclaimed_by runner_id from : DetailKey

abbrev pub detail_key_eq : DetailKey → DetailKey → Bool
detail_key_eq DetailKey.summary DetailKey.summary = true
detail_key_eq DetailKey.reason DetailKey.reason = true
detail_key_eq DetailKey.retryable DetailKey.retryable = true
detail_key_eq DetailKey.attempt DetailKey.attempt = true
detail_key_eq DetailKey.attempts DetailKey.attempts = true
detail_key_eq DetailKey.max_attempts DetailKey.max_attempts = true
detail_key_eq DetailKey.backoff_ms DetailKey.backoff_ms = true
detail_key_eq DetailKey.run_after DetailKey.run_after = true
detail_key_eq DetailKey.timed_out DetailKey.timed_out = true
detail_key_eq DetailKey.timeout_ms DetailKey.timeout_ms = true
detail_key_eq DetailKey.reclaimed_by DetailKey.reclaimed_by = true
detail_key_eq DetailKey.runner_id DetailKey.runner_id = true
detail_key_eq DetailKey.from DetailKey.from = true
detail_key_eq _ _ = false

pub data DetailValue : Type 0 where
  text : Text → DetailValue
  number : ℕ → DetailValue
  flag : Bool → DetailValue
  status : TaskStatus → DetailValue

abbrev pub Detail : Type 0
Detail = List (DetailKey × DetailValue)

pub record TaskEventRow : Type 0 where
  pub id : ℕ
  pub task_id : ℕ
  pub user_id : ℕ
  pub type : TaskEventType
  pub detail : Detail
  pub at : ℕ

-- An event joined to its task's lane and handle number.
pub record TaskEventWithTask : Type 0 where
  pub event : TaskEventRow
  pub open event use *
  pub lane : Text
  pub handle_num : ℕ

pub record EngineEventBase : Type 0 where
  pub id : ℕ
  pub task_id : ℕ
  pub user_id : ℕ
  pub handle : Text
  pub lane : Text

-- The shapes of the wire event; the last one carries its type and its raw detail.
pub data Payload : Type 0 where
  accepted : Text → Payload
  ready : Text → Payload
  failed : Text → Bool → Payload
  cancelled : Payload
  informational : TaskEventType → Detail → Payload

pub record EngineEvent : Type 0 where
  pub base : EngineEventBase
  pub open base use *
  pub payload : Payload
