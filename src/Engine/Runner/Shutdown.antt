-- ===== src/Engine/Runner/Shutdown.antt =====
-- What `stop` of `TaskRunner` in backend/src/engine/runner.ts achieves, and what can still happen after it.
use background_job_runner.Prelude.{
  ◌≢◌, All, ℕ, suc, ◌≤◌, ◌≡◌, Bool, true, false, List, [], none, length, At,
}
use background_job_runner.Types.{TaskRow, EngineConfig}
use background_job_runner.Errors.{ok}
use background_job_runner.Engine.World.{World, in_flight_has, abort_all}
use background_job_runner.Engine.Runner.{tick_end}
use background_job_runner.Engine.Runner.Executions.{keys_of}
use background_job_runner.Engine.Runner.Slots.{Process, Step}

-- Steps of a process in which nobody starts the runner again.
pub data Halted (config : EngineConfig) (p : Process) : Process → Type 0 where
  here : Halted config p p
  more :
      {q r : Process}
      → Halted config p q
      → Step config q r
      → r.world.stopped ≡ true
      → Halted config p r

-- Of what else runs while `stop` waits: it does not start the runner.
pub record KeepsHalted (delay : ℕ → World → World) : Type 0 where
  pub stopped : (k : ℕ) (w : World) → w.stopped ≡ true → (delay k w).stopped ≡ true
  pub timers : (k : ℕ) (w : World) → w.stopped ≡ true → w.timers ≡ [] → (delay k w).timers ≡ []

record IsHalted (w : World) : Type 0 where
  stopped : w.stopped ≡ true
  timers : w.timers ≡ []

-- No claim under way, and nothing running.
record IsIdle (p : Process) : Type 0 where
  asked : p.asked ≡ none
  empty : length p.world.in_flight ≤ 0

-- What `stop` leaves, and what may follow it. `v` is the process's world when `stop` has returned.
pub record IsStopped (config : EngineConfig) (v : World) : Type 0 where
  -- It is marked, no timer is left, and `inFlight` is empty,
  pub stopped : v.stopped ≡ true
  pub timers : v.timers ≡ []
  pub forgotten : v.in_flight ≡ []
  -- and stays so with no claim under way until it is started again, whichever executions still go on.
  pub idle :
      (running : List ℕ) (q : Process)
      → Halted config (record { world = v; asked = none; running = running }) q
      → q.world.in_flight ≡ []
  -- But every task of a claim that was under way is entered when the claim is answered.
  pub late :
      (t : TaskRow) (claimed : List TaskRow)
      → At t claimed
      → in_flight_has t.id (tick_end (ok claimed) v).1.in_flight ≡ true

-- `h` is `w` once `stop` has marked it, cleared its timers and aborted every execution that is entered.
pub record IsHalting (w h : World) : Type 0 where
  pub stopped : h.stopped ≡ true
  pub timers : h.timers ≡ []
  pub entries : keys_of h.in_flight ≡ keys_of w.in_flight
  pub aborted : All (λ e. e.aborted ≡ true) h.in_flight
  pub store : h.db ≡ w.db

-- Waiting from one world to another: until `inFlight` is empty, or the polls are used up.
pub data Waits (delay : ℕ → World → World) : ℕ → World → World → Type 0 where
  emptied : {left : ℕ} {w : World} → w.in_flight ≡ [] → Waits delay left w w
  expired : {w : World} → Waits delay 0 w w
  waited :
      {left : ℕ} {w u : World}
      → w.in_flight ≢ []
      → Waits delay left (delay left w) u
      → Waits delay (suc left) w u

-- With a drain, `stop` waits for at most 1000 polls; without one, not at all.
abbrev pub Ends : Bool → (ℕ → World → World) → World → World → Type 0
Ends true delay h u = Waits delay 1000 h u
Ends false delay h u = u ≡ h

abbrev halted : World → World
halted w = record w { stopped = true; timers = []; in_flight = abort_all w.in_flight }
