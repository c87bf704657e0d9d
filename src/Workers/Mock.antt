-- ===== src/Workers/Mock.antt =====
-- The stand-in worker: backend/src/workers/mock-worker.ts.
-- The abortable sleep is a timer of the platform: whether it ran to its end is an argument, as is the drawn
-- duration. A result has the fields of the source, its time as a number.
use background_job_runner.Prelude.{ℕ, Bool, true, false, List, [], ◌∷◌, none, some, Text, codes}
use background_job_runner.Types.{Value, Job}
use background_job_runner.Engine.Registry.{ParamDescriptor, ParamType, WorkerDescriptor, get_param}

pub record MockReport : Type 0 where
  pub lane : Text
  pub handle : Text
  pub duration_ms : ℕ
  pub finished_at : ℕ

pub data MockResult : Type 0 where
  ready : MockReport → MockResult
  simulated_failure aborted : MockResult

-- `drawn` is the random duration.
unfoldable pub pick_duration : ℕ → Value → ℕ
pick_duration drawn (Value.num n) = n
pick_duration drawn _ = drawn

abbrev pub is_true : Value → Bool
is_true (Value.bool b) = b
is_true _ = false

abbrev pub report_of : Job → ℕ → ℕ → MockReport
report_of job duration finished_at = record {
  lane = job.lane;
  handle = job.handle;
  duration_ms = duration;
  finished_at = finished_at;
}

abbrev pub awake : Bool → MockReport → MockResult
awake true r = simulated_failure
awake false r = ready r

-- `slept` says whether the sleep of the picked duration ran to its end before the signal aborted.
unfoldable pub mock_handler : (ℕ → Bool) → ℕ → ℕ → Job → MockResult
mock_handler slept drawn finished_at job =
    let duration = pick_duration drawn (get_param (codes "duration_ms") job.params) in
    elim (slept duration) [
      | true ↦
          awake (is_true (get_param (codes "fail") job.params)) (report_of job duration finished_at)
      | false ↦ aborted
    ]

-- The double of a whole number is the language's.
module _ (double : ℕ → ℕ) where
  unfoldable pub mock_params : List ParamDescriptor
  mock_params =
      record {
        name = codes "duration_ms";
        type = ParamType.number;
        required = false;
        default = Value.undefined;
        min = some (double 0);
        max = some (double 300000);
      }
      ∷ record {
        name = codes "fail";
        type = ParamType.boolean;
        required = false;
        default = Value.bool false;
        min = none;
        max = none;
      }
      ∷ []

  unfoldable pub mock_workers : List WorkerDescriptor
  mock_workers =
      record { lane = codes "scrape"; params = mock_params }
      ∷ record { lane = codes "report"; params = mock_params }
      ∷ []
