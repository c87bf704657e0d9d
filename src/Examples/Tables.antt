-- ===== src/Examples/Tables.antt =====
-- The theorems on the store and on single operations, at concrete inputs.
use background_job_runner.Prelude.{
  ◌≡◌, refl, inl, true, List, [], ◌∷◌, none, some, arith, at_head, at_tail, All-at, codes, text_eq,
}
use background_job_runner.Prelude.Sort.{sort_by, insert_by}
use background_job_runner.Types.{TaskStatus, TaskRow, Value, WorkerResult, empty_patch}
use background_job_runner.Types.Events.{TaskEventType, TaskEventRow}
use background_job_runner.Errors.{ok}
use background_job_runner.Repository.Sql.{Db, statement, guarded}
use background_job_runner.Repository.Schema.{keys_ok}
use background_job_runner.Repository.Slot.{slot}
use background_job_runner.Repository.Writes.{claim, claim_rows, update_where, picked, claimed_by}
use background_job_runner.Repository.Writes.Claims.Progress.{
  Takes, then_claim, no_more, Claims-Takes,
}
use background_job_runner.Repository.Operations.{AllocateHandleInput, TransitionInput, transition}
use background_job_runner.Repository.Operations.Transitions.{Outcome, transition-Outcome}
use background_job_runner.Engine.Bus.{publish, to_engine_event}
use background_job_runner.Engine.Bus.Fanout.{IsFanout, publish-IsFanout}
use background_job_runner.Engine.World.{World}
use background_job_runner.Engine.Jobs.{capped_backoff, Moment, backoff_for, running_here, settle}
use background_job_runner.Engine.Jobs.Settlement.{
  Settles, settle-Settles, Unchanged-settle, IsElsewhere, settled_row, settled_type,
}
use background_job_runner.Engine.Runner.Written.{Unchanged}
use background_job_runner.Engine.Runner.{start}
use background_job_runner.Engine.Runner.Startup.{Started, start-Started}
use background_job_runner.Repository.Operations.{handle_of}
use background_job_runner.Engine.Numbers.{digit_numbers, digit_numbers-ReadsDecimals}
use background_job_runner.Engine.Operations.{Stats, stats, parse_handle}
use background_job_runner.Engine.Operations.Names.{parse_handle-handle_of}
use background_job_runner.Engine.Operations.Counts.{Counts, stats-Counts}
use background_job_runner.Examples.{config, waiting, busy, dropped, db_of, world_of, quiet_bus}

slot_test : slot (3 ∷ 1 ∷ 4 ∷ []) ≡ 2
unfolding slot
slot_test = refl

abbrev finish : TransitionInput
finish = record {
  task_id = 2;
  patch = record empty_patch { status = some TaskStatus.ready; runner_id = some none };
  guard = running_here config;
  type = TaskEventType.ready;
  detail = [];
}

transition-Outcome_example :
    Outcome finish 105
      (db_of (waiting ∷ busy ∷ []))
      (transition finish 105 (db_of (waiting ∷ busy ∷ [])))
transition-Outcome_example = transition-Outcome finish 105 (db_of (waiting ∷ busy ∷ []))

abbrev later : TaskRow
later = record waiting { id = 4; handle_num = 2; created_at = 50 }

claim_test :
    claim 9 30 1 [] (db_of (later ∷ waiting ∷ []))
    ≡ (ok (claimed_by 9 30 100 waiting ∷ []), db_of (later ∷ claimed_by 9 30 100 waiting ∷ []))
unfolding claim claim_rows guarded statement update_where picked keys_ok text_eq sort_by insert_by
claim_test = refl

abbrev second_claim : Db
second_claim = db_of (later ∷ claimed_by 9 30 100 waiting ∷ [])

claim_test_again : claim 8 30 1 [] second_claim ≡ (
  ok (claimed_by 8 30 100 later ∷ []),
  db_of (claimed_by 8 30 100 later ∷ claimed_by 9 30 100 waiting ∷ []),
)
unfolding claim claim_rows guarded statement update_where picked keys_ok text_eq sort_by insert_by
claim_test_again = refl

Claims-Takes_example :
    Takes later ((claimed_by 9 30 100 waiting ∷ []) ∷ (claimed_by 8 30 100 later ∷ []) ∷ [])
unfolding keys_ok text_eq
Claims-Takes_example =
    Claims-Takes later ((claimed_by 9 30 100 waiting ∷ []) ∷ (claimed_by 8 30 100 later ∷ []) ∷ [])
      (db_of (later ∷ waiting ∷ [])) refl at_head refl
      (then_claim {next = second_claim} 9 30 1 (omega arith) claim_test refl (omega arith) (
        then_claim {next = db_of (claimed_by 8 30 100 later ∷ claimed_by 9 30 100 waiting ∷ [])} 8
          30 1 (omega arith) claim_test_again refl (omega arith) no_more))
      (omega arith)

abbrev request : AllocateHandleInput
request = record {
  user_id = 7;
  lane = codes "mock";
  params = [];
  max_attempts = 3;
  use_lane_lock = true;
}

-- Another session inserts a task of another user.
abbrev foreign : List TaskRow → List TaskRow
foreign ts = record waiting { id = 5; user_id = 8 } ∷ ts

parse_handle-handle_of_example :
    parse_handle digit_numbers (handle_of (codes "deep-dive") 42) ≡ ok (codes "deep-dive", 42)
parse_handle-handle_of_example =
    parse_handle-handle_of digit_numbers (codes "deep-dive") 42 digit_numbers-ReadsDecimals
      (λ e. ground arith) (omega arith) (omega arith)

abbrev moment : Moment
moment = record { at = 105; random = record { draw = 3; range = 10 } }

backoff_test : backoff_for config moment.random 3 ≡ 42
unfolding backoff_for capped_backoff
backoff_test = refl

abbrev refusal : WorkerResult
refusal = WorkerResult.failed (some (record { reason = codes "busy"; retryable = true }))

settle-Settles_example :
    Settles
      (settle config moment busy refusal)
      (world_of (waiting ∷ busy ∷ []))
      busy
      (settled_row config moment busy refusal busy)
      (settled_type busy refusal)
unfolding keys_ok text_eq
settle-Settles_example =
    settle-Settles config moment busy (world_of (waiting ∷ busy ∷ [])) refusal busy refl refl
      (at_tail at_head) refl

-- The task was cancelled while its worker ran.
abbrev withdrawn : TaskRow
withdrawn = record busy { status = TaskStatus.cancelled; runner_id = none; lease_until = none }

Unchanged-settle_example :
    Unchanged
      (world_of (withdrawn ∷ []))
      (settle config moment busy (WorkerResult.ready Value.null) (world_of (withdrawn ∷ []))).1
Unchanged-settle_example =
    Unchanged-settle config moment busy (world_of (withdrawn ∷ [])) (WorkerResult.ready Value.null)
      (λ t i same.
        All-at (IsElsewhere config) {xs = withdrawn ∷ []} ((inl (λ e. ground arith)), tt) i)

stats-Counts_example :
    (s : Stats) × (stats 7 (world_of (waiting ∷ busy ∷ dropped ∷ []))
      ≡ (ok s, world_of (waiting ∷ busy ∷ dropped ∷ [])))
    × Counts 7 (waiting ∷ busy ∷ dropped ∷ []) s
stats-Counts_example = stats-Counts 7 (world_of (waiting ∷ busy ∷ dropped ∷ [])) refl

abbrev started_event : TaskEventRow
started_event = record {
  id = 1;
  task_id = 2;
  user_id = 7;
  type = TaskEventType.started;
  detail = [];
  at = 100;
}

publish-IsFanout_example :
    IsFanout
      (to_engine_event (record { event = started_event; lane = codes "mock"; handle_num = 3 }))
      quiet_bus.listeners
      quiet_bus
      (publish quiet_bus
        (to_engine_event (record { event = started_event; lane = codes "mock"; handle_num = 3 })))
publish-IsFanout_example =
    publish-IsFanout quiet_bus
      (to_engine_event (record { event = started_event; lane = codes "mock"; handle_num = 3 }))

abbrev halted : World
halted = record (world_of (busy ∷ [])) { stopped = true }

start-Started_example : Started config halted (start config halted)
start-Started_example = start-Started config halted
