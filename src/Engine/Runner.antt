-- ===== src/Engine/Runner.antt =====
-- The runner's lifecycle, claim loop and recovery: `TaskRunner` of backend/src/engine/runner.ts.
-- How a claimed task is executed stands in Engine/Jobs.antt.
pub mod Executions
pub mod Slots
pub mod Shutdown
pub mod Startup
pub mod Written
pub mod Transitions
use background_job_runner.Prelude.{
  ℕ, zero, suc, ◌+◌, ◌-◌, Bool, true, false, ◌||◌, not, List, [], ◌∷◌, ◌++◌, map, Option, none,
  some, ◌==◌, leb, length, if◌then◌else◌,
}
use background_job_runner.Types.{TaskRow, EngineConfig}
use background_job_runner.Types.Events.{TaskEventRow}
use background_job_runner.Errors.{Result, ok, err}
use background_job_runner.Repository.Sql.{Db}
use background_job_runner.Repository.Writes.{claim, heartbeat}
use background_job_runner.Repository.Operations.{
  TaskWithEvent, TransitionInput, requeue_orphans, requeue_expired_leases,
}
use background_job_runner.Repository.Operations as Repository
use background_job_runner.Engine.World.{
  World, Loop, claim_loop, lease_reaper, Action, pure, ◌>>=◌, ◌>>◌, store, modify, gets,
  try_finally, in_flight_has, in_flight_set, in_flight_abort, abort_all, in_flight_keys,
  publish_event,
}

-- `announce`: publishes what a sweep wrote, and returns the tasks.
unfoldable pub announce : List TaskWithEvent → World → World
announce [] w = w
announce (s ∷ swept) w = announce swept (publish_event s.task s.event w)

unfoldable pub schedule_tick : World → World
schedule_tick w = if w.stopped then w else record w { scheduled = suc w.scheduled }

-- `every`: arms one periodic loop.
abbrev pub every : Loop → World → World
every l w = record w { timers = w.timers ++ l ∷ [] }

unfoldable pub boot_sweep : EngineConfig → Action (Unit {0})
boot_sweep config = do swept ← store (requeue_orphans config.runner_id); modify (announce swept)

-- `start` of a stopped runner. A sweep that throws leaves the loops unarmed.
unfoldable pub boot : EngineConfig → Action (Unit {0})
boot config = do
  modify (λ w. record w { stopped = false })
  if config.boot_sweep then boot_sweep config else pure tt
  modify (every claim_loop)
  modify (every Loop.heartbeat)
  modify (every lease_reaper)
  modify schedule_tick

unfoldable pub start : EngineConfig → Action (Unit {0})
start config w = let booted = boot config w in if w.stopped then booted else (ok tt, w)

-- `DRAIN_TIMEOUT_MS / IDLE_POLL_MS`: after that many polls the deadline has passed.
abbrev pub drain_polls : ℕ
drain_polls = 1000

-- The drain loop: `delay k` is what else runs during the k-th wait.
unfoldable pub drain : ℕ → (ℕ → World → World) → World → World
drain zero delay w = w
drain (suc left) delay w =
    let rest = drain left delay (delay left w) in if length w.in_flight == 0 then w else rest

unfoldable pub stop : Bool → (ℕ → World → World) → Action (Unit {0})
stop draining delay w =
    let halted = record w { stopped = true; timers = []; in_flight = abort_all w.in_flight } in
    let drained = drain drain_polls delay halted in
    if draining
    then (ok tt, record drained { in_flight = [] })
    else (ok tt, record halted { in_flight = [] })

-- The loop over the claimed rows: each gets its controller, and its execution is spawned.
unfoldable pub spawn_all : List TaskRow → World → World
spawn_all [] w = w
spawn_all (t ∷ ts) w = spawn_all ts (record w { in_flight = in_flight_set t.id w.in_flight })

-- The first part of a tick, up to its `await`: the slots that it goes on to claim, if any.
unfoldable pub tick_begin : EngineConfig → World → Option ℕ × World
tick_begin config w =
    if w.ticking || w.stopped
    then (none, w)
    else if leb config.concurrency (length w.in_flight)
    then (none, w)
    else (some (config.concurrency - length w.in_flight), record w { ticking = true })

-- The rest of it, from the claim's answer on. A claim that throws only lowers the flag.
unfoldable pub tick_end : Result (List TaskRow) → World → Result (List TaskRow) × World
tick_end (ok claimed) w = (ok claimed, record (spawn_all claimed w) { ticking = false })
tick_end (err e) w = (err e, record w { ticking = false })

abbrev pub tick_with : EngineConfig → List ℕ → Option ℕ × World → Result (List TaskRow) × World
tick_with config locked (none, w) = (ok [], w)
tick_with config locked (some slots, w) =
    let (r, w') = store (claim config.runner_id config.lease_ms slots locked) w in tick_end r w'

-- A tick in which nothing else runs while the claim is under way. It returns what it spawned.
unfoldable pub tick : EngineConfig → List ℕ → Action (List TaskRow)
tick config locked w = tick_with config locked (tick_begin config w)

abbrev pub publish_outcome : Option TaskWithEvent → Action (Option TaskRow)
publish_outcome none = pure none
publish_outcome (some o) = do modify (publish_event o.task o.event); pure (some o.task)

-- The store commits the new state with its event, and only then is the event published.
unfoldable pub transition : TransitionInput → ℕ → Action (Option TaskRow)
transition input at = do outcome ← store (Repository.transition input at); publish_outcome outcome

unfoldable pub abort : ℕ → World → Bool × World
abort task_id w = (
  in_flight_has task_id w.in_flight,
  record w { in_flight = in_flight_abort task_id w.in_flight },
)

unfoldable pub beat : EngineConfig → Action ℕ
beat config w = store (heartbeat config.runner_id (in_flight_keys w) config.lease_ms) w

unfoldable pub reap : EngineConfig → Action (Unit {0})
reap config = do
  busy ← gets in_flight_keys
  swept ← store (requeue_expired_leases config.runner_id busy)
  modify (announce swept)
