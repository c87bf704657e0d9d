-- ===== src/Http/Stream.antt =====
-- The stream of events: GET /events of backend/src/modules/task/task.routes.ts.
-- A connection is a state; the handler subscribes, awaits the replay, flushes and goes live. Writing a
-- frame to the socket is the frame's place in `sent`; keep-alives are left out.
pub mod Seamless
use background_job_runner.Prelude.{
  ℕ, Bool, true, false, List, [], ◌∷◌, ◌++◌, map, Option, none, some, ◌==◌, any, if◌then◌else◌,
  Text,
}
use background_job_runner.Types.Events.{EngineEvent, Payload}
use background_job_runner.Engine.Numbers.{Numbers}
use background_job_runner.Engine.World.{Action, ◌>>=◌, pure}
use background_job_runner.Engine.Operations.{events_since}

abbrev pub since_or_start : Option ℕ → ℕ
since_or_start none = 0
since_or_start (some n) = n

abbrev pub header_or : Option ℕ → Option ℕ → ℕ
header_or none since = since_or_start since
header_or (some n) since = n

-- `readCursor`
unfoldable pub read_cursor : Numbers → Option Text → Option ℕ → ℕ
read_cursor num none since = since_or_start since
read_cursor num (some last_event_id) since = header_or (num.integer last_event_id) since

-- An event as it is sent: without `user_id`.
pub record Frame : Type 0 where
  pub id : ℕ
  pub task_id : ℕ
  pub handle : Text
  pub lane : Text
  pub payload : Payload

unfoldable pub to_frame : EngineEvent → Frame
to_frame e = record {
  id = e.id;
  task_id = e.task_id;
  handle = e.handle;
  lane = e.lane;
  payload = e.payload;
}

pub record Connection : Type 0 where
  pub is_connected : Bool
  pub is_subscribed : Bool
  pub live : Bool
  pub buffered : List EngineEvent
  pub delivered : List ℕ
  pub sent : List Frame

abbrev pub opened : Connection
opened = record {
  is_connected = true;
  is_subscribed = true;
  live = false;
  buffered = [];
  delivered = [];
  sent = [];
}

unfoldable pub emit : EngineEvent → Connection → Connection
emit e c = if c.is_connected then record c { sent = c.sent ++ to_frame e ∷ [] } else c

-- The subscriber, called only while the subscription lasts.
unfoldable pub on_event : Connection → EngineEvent → Connection
on_event c e =
    if c.is_subscribed
    then (if c.live then emit e c else record c { buffered = c.buffered ++ e ∷ [] })
    else c

unfoldable pub receive : Connection → List EngineEvent → Connection
receive c [] = c
receive c (e ∷ es) = receive (on_event c e) es

-- The client leaves: `res.sse.onClose(unsubscribe)`.
unfoldable pub close : Connection → Connection
close c = record c { is_connected = false; is_subscribed = false }

-- The loop over the replayed events.
unfoldable pub replay : List EngineEvent → Connection → Connection
replay [] c = c
replay (e ∷ es) c = replay es (emit e (record c { delivered = e.id ∷ c.delivered }))

-- The loop over what was buffered.
unfoldable pub flush : List EngineEvent → Connection → Connection
flush [] c = c
flush (e ∷ es) c = flush es (if any (◌==◌ e.id) c.delivered then c else emit e c)

abbrev pub take_buffer : Connection → Connection
take_buffer c = flush c.buffered (record c { buffered = [] })

-- What follows the `await`.
unfoldable pub resume : List EngineEvent → Connection → Connection
resume replayed c =
    if c.is_connected
    then record (take_buffer (replay replayed c)) { live = true; delivered = [] }
    else record c { is_subscribed = false }

-- A stream: `early` are the events that are published during the `await`, `late` those after it.
unfoldable pub stream : List EngineEvent → List EngineEvent → List EngineEvent → Connection
stream early replayed late = receive (resume replayed (receive opened early)) late

-- The handler with the query that it awaits.
unfoldable pub open_stream : ℕ → ℕ → List EngineEvent → List EngineEvent → Action Connection
open_stream user_id cursor early late =
    events_since user_id cursor none >>= λ replayed. pure (stream early replayed late)
