-- ===== src/Engine/Bus.antt =====
-- The in-process event bus and the wire form of an event: backend/src/engine/events.ts.
-- Of a subscriber's callback is kept on which events it throws; the bus records what each callback
-- was called with, and what it reported to its logger.
pub mod Fanout
use background_job_runner.Prelude.{
  ℕ, suc, Bool, true, false, List, [], ◌∷◌, ◌++◌, Option, none, some, ◌==◌, filter, not,
  if◌then◌else◌, Text, codes,
}
use background_job_runner.Types.Events.{
  TaskEventType, DetailKey, DetailValue, Detail, TaskEventRow, TaskEventWithTask, EngineEvent,
  EngineEventBase, Payload, detail_key_eq,
}
use background_job_runner.Repository.Operations.{handle_of}

pub record Listener : Type 0 where
  pub token : ℕ
  pub channel : ℕ
  pub throws : EngineEvent → Bool

pub record Bus : Type 0 where
  pub listeners : List Listener
  pub next_token : ℕ
  pub delivered : List (ℕ × EngineEvent)
  pub reported : List (ℕ × EngineEvent)

-- The `guarded` callback of one subscription.
unfoldable pub deliver : EngineEvent → Bus → Listener → Bus
deliver e bus l =
    let called = record bus { delivered = bus.delivered ++ (l.token, e) ∷ [] } in
    if l.throws e then record called { reported = bus.reported ++ (l.token, e) ∷ [] } else called

-- `emit` calls the listeners of the channel, in the order in which they subscribed.
unfoldable pub emit : EngineEvent → List Listener → Bus → Bus
unfolding deliver
emit e [] bus = bus
emit e (l ∷ ls) bus = emit e ls (if l.channel == e.user_id then deliver e bus l else bus)

unfoldable pub publish : Bus → EngineEvent → Bus
unfolding emit
publish bus e = emit e bus.listeners bus

-- The token stands for the function that unsubscribes.
unfoldable pub subscribe : Bus → ℕ → (EngineEvent → Bool) → Bus × ℕ
subscribe bus user_id throws = (
  record bus {
    listeners =
        bus.listeners ++ record { token = bus.next_token; channel = user_id; throws = throws } ∷ [];
    next_token = suc bus.next_token;
  },
  bus.next_token,
)

unfoldable pub unsubscribe : Bus → ℕ → Bus
unsubscribe bus token = record bus {
  listeners = filter (λ l. not (l.token == token)) bus.listeners;
}

-- `row.detail.key`
unfoldable pub detail_get : DetailKey → Detail → Option DetailValue
detail_get k [] = none
detail_get k ((j, v) ∷ d) = if detail_key_eq j k then some v else detail_get k d

abbrev pub as_string : Option DetailValue → Text → Text
as_string (some (DetailValue.text s)) fallback = s
as_string _ fallback = fallback

-- `value === true`
abbrev pub is_true : Option DetailValue → Bool
is_true (some (DetailValue.flag b)) = b
is_true _ = false

abbrev pub payload_of : TaskEventType → Detail → Payload
payload_of TaskEventType.accepted d =
    Payload.accepted (as_string (detail_get DetailKey.summary d) [])
payload_of TaskEventType.ready d = Payload.ready (as_string (detail_get DetailKey.summary d) [])
payload_of TaskEventType.failed d =
    Payload.failed (as_string (detail_get DetailKey.reason d) (codes "unknown failure"))
      (is_true (detail_get DetailKey.retryable d))
payload_of TaskEventType.cancelled d = Payload.cancelled
payload_of t d = Payload.informational t d

unfoldable pub to_engine_event : TaskEventWithTask → EngineEvent
unfolding handle_of detail_get
to_engine_event row = record {
  base = record {
    id = row.event.id;
    task_id = row.event.task_id;
    user_id = row.event.user_id;
    handle = handle_of row.lane row.handle_num;
    lane = row.lane;
  };
  payload = payload_of row.event.type row.event.detail;
}
