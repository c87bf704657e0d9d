-- ===== src/Examples/Requests.antt =====
-- The theorems on the task routes and the event stream, at concrete inputs.
use background_job_runner.Prelude.{
  ℕ, ◌≡◌, refl, [], ◌∷◌, ◌++◌, map, none, arith, not, filter, At, at_head, codes,
}
use background_job_runner.Prelude.Sort.{sort_by, insert_by}
use background_job_runner.Types.Events.{EngineEvent, Payload, TaskEventRow, TaskEventType}
use background_job_runner.Errors.{ok}
use background_job_runner.Repository.Reads.{join_tasks, join_task}
use background_job_runner.Engine.Numbers.{digit_numbers}
use background_job_runner.Engine.World.{World}
use background_job_runner.Http.Stream.{Connection, Frame, to_frame, stream, open_stream}
use background_job_runner.Http.Stream.Seamless.{
  has_id, missed_events, stream-sent, open_stream-sent,
}
use background_job_runner.Http.TaskRoutes.Isolation.{IsIsolated, routes-IsIsolated}
use background_job_runner.Examples.{config, waiting, world_of}

abbrev heard : ℕ → EngineEvent
heard id = record {
  base = record { id = id; task_id = 1; user_id = 7; handle = codes "mock-1"; lane = codes "mock" };
  payload = Payload.cancelled;
}

abbrev accepted_row : TaskEventRow
accepted_row = record {
  id = 5;
  task_id = 1;
  user_id = 7;
  type = TaskEventType.accepted;
  detail = [];
  at = 40;
}

abbrev with_event : World
with_event =
    let w = world_of (waiting ∷ []) in record w { db = record w.db { events = accepted_row ∷ [] } }

stream-sent_example :
    (stream (heard 2 ∷ heard 3 ∷ []) (heard 1 ∷ heard 2 ∷ []) (heard 4 ∷ [])).sent
    ≡ map to_frame (heard 1 ∷ heard 2 ∷ [])
      ++ map to_frame
          (filter (λ e. not (has_id (heard 1 ∷ heard 2 ∷ []) e)) (heard 2 ∷ heard 3 ∷ []))
      ++ map to_frame (heard 4 ∷ [])
stream-sent_example = stream-sent (heard 2 ∷ heard 3 ∷ []) (heard 1 ∷ heard 2 ∷ []) (heard 4 ∷ [])

open_stream-sent_example :
    (c : Connection) × (open_stream 7 4 [] [] with_event ≡ (ok c, with_event))
    × (f : Frame) × At f c.sent
    × (f.id ≡ 5)
unfolding missed_events sort_by insert_by join_tasks join_task
open_stream-sent_example =
    open_stream-sent 7 4 [] [] with_event accepted_row waiting refl (omega arith) at_head refl
      (omega arith) at_head refl

routes-IsIsolated_example : IsIsolated 7 digit_numbers config [] (λ s. none)
routes-IsIsolated_example = routes-IsIsolated 7 digit_numbers config [] (λ s. none)
