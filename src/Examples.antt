-- ===== src/Examples.antt =====
-- Concrete inputs: rows, configurations and worlds of backend/src/engine, and each theorem at one of them.
pub mod Tables
pub mod Runs
pub mod Calls
pub mod Edges
pub mod Forms
pub mod Markup
pub mod Pages
pub mod People
pub mod Requests
pub mod Scraping
use background_job_runner.Prelude.{ℕ, Bool, true, false, List, [], ◌∷◌, Option, none, some, codes}
use background_job_runner.Types.{TaskStatus, TaskRow, Value, EngineConfig}
use background_job_runner.Repository.Sql.{Db}
use background_job_runner.Engine.Bus.{Bus, Listener}
use background_job_runner.Engine.World.{World}

abbrev pub config : EngineConfig
config = record {
  concurrency = 2;
  lease_ms = 30;
  max_attempts = 3;
  backoff_base_ms = 10;
  backoff_max_ms = 60;
  boot_sweep = true;
  job_timeout_ms = 50;
  runner_id = 9;
}

abbrev pub waiting : TaskRow
waiting = record {
  id = 1;
  user_id = 7;
  lane = codes "mock";
  handle_num = 1;
  params = [];
  status = TaskStatus.queued;
  result = Value.null;
  error = none;
  attempts = 0;
  max_attempts = 3;
  run_after = 40;
  lease_until = none;
  runner_id = none;
  collected = false;
  collected_at = none;
  is_seed = false;
  created_at = 40;
  updated_at = 40;
}

-- Another task of the lane, claimed by the runner of `config`.
abbrev pub busy : TaskRow
busy = record waiting {
  id = 2;
  handle_num = 3;
  status = TaskStatus.running;
  attempts = 1;
  lease_until = some 130;
  runner_id = some 9;
  created_at = 30;
}

abbrev pub dropped : TaskRow
dropped = record waiting { id = 3; status = TaskStatus.cancelled; created_at = 20 }

abbrev pub db_of : List TaskRow → Db
db_of ts = record { tasks = ts; events = []; next_event_id = 1; now = 100; faults = [] }

abbrev pub quiet_bus : Bus
quiet_bus = record {
  listeners =
      record { token = 0; channel = 7; throws = λ e. true }
      ∷ record { token = 1; channel = 8; throws = λ e. false }
      ∷ record { token = 2; channel = 7; throws = λ e. false }
      ∷ [];
  next_token = 3;
  delivered = [];
  reported = [];
}

abbrev pub world_of : List TaskRow → World
world_of ts = record {
  db = db_of ts;
  bus = quiet_bus;
  in_flight = [];
  timers = [];
  scheduled = 0;
  ticking = false;
  stopped = false;
}
