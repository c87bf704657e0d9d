-- ===== src/Engine/Calls.antt =====
-- Everything that one process runs on its world: the calls that the HTTP layer makes of the engine
-- (backend/src/engine/orchestration-engine.ts), the runner's loops and executions
-- (backend/src/engine/runner.ts), and what the other processes and sessions do to the store meanwhile.
use background_job_runner.Prelude.{ℕ, Bool, List, Text}
use background_job_runner.Types.{TaskRow, Params, EngineConfig}
use background_job_runner.Engine.Numbers.{Numbers}
use background_job_runner.Engine.Registry.{WorkerDescriptor}
use background_job_runner.Engine.World.{World}
use background_job_runner.Engine.Handles.{Race}
use background_job_runner.Engine.Jobs.{Execution, run_one}
use background_job_runner.Engine.Runner
use background_job_runner.Engine.Operations

pub data Call : Type 0 where
  start beat reap : EngineConfig → Call
  stop : Bool → (ℕ → World → World) → Call
  tick : EngineConfig → List ℕ → Call
  execution : EngineConfig → TaskRow → Execution → Call
  submit : EngineConfig → List WorkerDescriptor → ℕ → Text → Params → (ℕ → Race) → Call
  collect : ℕ → Text → ℕ → Call
  cancel : ℕ → Text → ℕ → (World → World) → Call
  retry : EngineConfig → ℕ → Text → ℕ → Call
  elsewhere : (World → World) → Call

-- The world after a call, whether it returned or threw.
unfoldable pub perform : Numbers → Call → World → World
perform num (start config) w = (Runner.start config w).1
perform num (beat config) w = (Runner.beat config w).1
perform num (reap config) w = (Runner.reap config w).1
perform num (stop draining delay) w = (Runner.stop draining delay w).1
perform num (tick config locked) w = (Runner.tick config locked w).1
perform num (execution config task x) w = (run_one config task x w).1
perform num (submit config workers user lane params races) w =
    (Operations.submit num config workers user lane params races w).1
perform num (collect user handle at) w = (Operations.collect num user handle at w).1
perform num (cancel user handle at others) w = (Operations.cancel num user handle at others w).1
perform num (retry config user handle at) w = (Operations.retry num config user handle at w).1
perform num (elsewhere others) w = others w
