-- ===== src/Examples/Calls.antt =====
-- The theorems on the calls of users, on the page that makes them and on executions, at concrete worlds.
use background_job_runner.Prelude.{
  ℕ, at_head, at_tail, arith, ◌≡◌, refl, true, false, [], ◌∷◌, none, some, Text, codes, text_eq,
}
use background_job_runner.Prelude.Decimal.{read_digits}
use background_job_runner.Prelude.Sort.{sort_by, insert_by}
use background_job_runner.Types.{TaskStatus, TaskRow, Value, WorkerResult}
use background_job_runner.Errors.{ok}
use background_job_runner.Repository.Sql.{Db, statement, guarded}
use background_job_runner.Repository.Schema.{keys_ok}
use background_job_runner.Repository.Reads.{query, find_by_handle}
use background_job_runner.Repository.Writes.{heartbeat}
use background_job_runner.Repository.Writes.Leases.{IsRenewed, heartbeat-IsRenewed}
use background_job_runner.Engine.Numbers.{digit_numbers, digit_numbers-ReadsDecimals}
use background_job_runner.Engine.World.{World}
use background_job_runner.Engine.Jobs.{Execution, returned, attempt, run_one}
use background_job_runner.Engine.Jobs.Release.{IsReleased, run_one-IsReleased}
use background_job_runner.Engine.Operations.{
  find, parse_handle, last_hyphen, collect, cancel, retry,
}
use background_job_runner.Engine.Operations.Decisions.{
  Collects, Retries, collect-Collects, retry-Retries,
}
use background_job_runner.Engine.Operations.Newest.{IsNewest}
use background_job_runner.Frontend.Actions.{
  handle_ownership, holds_its_handle, can_collect, can_retry, can_cancel,
}
use background_job_runner.Frontend.TaskPage.{Queries, collect_button, offers, page_of, ownership}
use background_job_runner.Frontend.TaskPage.Offered.{IsNamed, Pressed, offers-Pressed}
use background_job_runner.Engine.Operations.Cancelling.{Cancels, cancel-Cancels}
use background_job_runner.Examples.{busy, config, db_of, waiting, world_of}

abbrev finished : TaskRow
finished = record busy { status = TaskStatus.ready; runner_id = none; lease_until = none }

abbrev broken : TaskRow
broken = record finished { status = TaskStatus.failed }

abbrev handle : Text
handle = codes "mock-3"

finished_found :
    find digit_numbers 7 handle (world_of (waiting ∷ finished ∷ []))
    ≡ (ok finished, world_of (waiting ∷ finished ∷ []))
unfolding find parse_handle last_hyphen read_digits find_by_handle query guarded statement sort_by
    insert_by text_eq
finished_found = refl

collect-Collects_example :
    Collects 105
      (world_of (waiting ∷ finished ∷ []))
      finished
      (collect digit_numbers 7 handle 105 (world_of (waiting ∷ finished ∷ [])))
unfolding keys_ok text_eq
collect-Collects_example =
    collect-Collects digit_numbers 7 handle (world_of (waiting ∷ finished ∷ [])) finished 105
      finished_found refl refl

broken_found :
    find digit_numbers 7 handle (world_of (broken ∷ [])) ≡ (ok broken, world_of (broken ∷ []))
unfolding find parse_handle last_hyphen read_digits find_by_handle query guarded statement sort_by
    insert_by text_eq
broken_found = refl

retry-Retries_example :
    Retries config 105
      (world_of (broken ∷ []))
      broken
      (retry digit_numbers config 7 handle 105 (world_of (broken ∷ [])))
unfolding keys_ok text_eq
retry-Retries_example =
    retry-Retries digit_numbers 7 handle (world_of (broken ∷ [])) broken config 105 broken_found
      refl refl

busy_found : find digit_numbers 7 handle (world_of (busy ∷ [])) ≡ (ok busy, world_of (busy ∷ []))
unfolding find parse_handle last_hyphen read_digits find_by_handle query guarded statement sort_by
    insert_by text_eq
busy_found = refl

cancel-Cancels_example :
    Cancels
      (TaskStatus.queued ∷ TaskStatus.running ∷ TaskStatus.failed ∷ [])
      105
      (world_of (busy ∷ []))
      busy
      (cancel digit_numbers 7 handle 105 (λ v. v) (world_of (busy ∷ [])))
unfolding keys_ok text_eq
cancel-Cancels_example =
    cancel-Cancels digit_numbers 7 handle (world_of (busy ∷ [])) busy 105 busy_found refl refl

abbrev success : Execution
success = record {
  has_worker = true;
  during = λ w. w;
  result = returned (WorkerResult.ready (Value.num 5));
  timed_out = false;
  aborted = false;
  aborted_at_catch = false;
  moment = record { at = 105; random = record { draw = 3; range = 10 } };
  message_of = λ e. [];
}

run_one-IsReleased_example :
    IsReleased 2
      (attempt config busy success (world_of (busy ∷ []))).1
      (run_one config busy success (world_of (busy ∷ []))).1
run_one-IsReleased_example = run_one-IsReleased config busy success (world_of (busy ∷ []))

heartbeat-IsRenewed_example :
    (n : ℕ) × (db' : Db) × (heartbeat 9 (2 ∷ []) 30 (db_of (waiting ∷ busy ∷ [])) ≡ (ok n, db'))
    × IsRenewed 30 (5 ∷ []) 120 (db_of (waiting ∷ busy ∷ [])) busy db'
unfolding keys_ok text_eq
heartbeat-IsRenewed_example =
    heartbeat-IsRenewed 9 30 2 [] (db_of (waiting ∷ busy ∷ [])) busy (5 ∷ []) 120 refl refl
      (at_tail at_head) refl (omega arith)

-- An older task that had the handle of `finished`, and is retired.
abbrev predecessor : TaskRow
predecessor = record finished { id = 9; collected = true; created_at = 10 }

abbrev both : World
both = world_of (predecessor ∷ finished ∷ [])

finished-IsNewest : IsNewest both.db.tasks finished
unfolding IsNewest
finished-IsNewest s at_head h late = absurd (omega arith)
finished-IsNewest s (at_tail at_head) h late = refl
finished-IsNewest s (at_tail (at_tail i)) h late = elim i [ ]

finished-IsNamed : IsNamed both finished
unfolding keys_ok text_eq
finished-IsNamed = record {
  calm = refl;
  keys = refl;
  stands = at_tail at_head;
  newest = finished-IsNewest;
  lane = λ e. ground arith;
  positive = omega arith;
  safe = omega arith;
}

abbrev finished_page : Queries
finished_page = record {
  task = record { error = none; received = some finished };
  holder = record { error = none; received = none };
  history = record { error = none; received = some 4 };
  fetching_history = false;
}

offers-Pressed_example : Pressed digit_numbers config both finished collect_button 105
unfolding offers page_of ownership handle_ownership holds_its_handle can_collect can_retry
    can_cancel
offers-Pressed_example =
    offers-Pressed digit_numbers config both finished finished_page collect_button 105
      digit_numbers-ReadsDecimals finished-IsNamed refl refl
