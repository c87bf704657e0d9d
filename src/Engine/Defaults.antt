-- ===== src/Engine/Defaults.antt =====
-- The defaults of `createEngine`: backend/src/engine/index.ts.
use background_job_runner.Prelude.{ℕ, Bool, true, Option, none, some}
use background_job_runner.Types.{EngineConfig}

-- `EngineOptions`: an option left out is `none`.
pub record EngineOptions : Type 0 where
  pub concurrency : Option ℕ
  pub lease_ms : Option ℕ
  pub max_attempts : Option ℕ
  pub backoff_base_ms : Option ℕ
  pub backoff_max_ms : Option ℕ
  pub boot_sweep : Option Bool
  pub job_timeout_ms : Option ℕ
  pub runner_id : Option ℕ

abbrev pub defaults : ℕ → EngineConfig
defaults runner_id = record {
  concurrency = 4;
  lease_ms = 30000;
  max_attempts = 3;
  backoff_base_ms = 500;
  backoff_max_ms = 30000;
  boot_sweep = true;
  job_timeout_ms = 300000;
  runner_id = runner_id;
}

abbrev pub given_else {ℓ} : {A : Type ℓ} → Option A → A → A
given_else none d = d
given_else (some a) d = a

-- `{ ...DEFAULTS, runnerId: randomUUID(), ...options }`
unfoldable pub configured : ℕ → EngineOptions → EngineConfig
configured uuid o = record {
  concurrency = given_else o.concurrency (defaults uuid).concurrency;
  lease_ms = given_else o.lease_ms (defaults uuid).lease_ms;
  max_attempts = given_else o.max_attempts (defaults uuid).max_attempts;
  backoff_base_ms = given_else o.backoff_base_ms (defaults uuid).backoff_base_ms;
  backoff_max_ms = given_else o.backoff_max_ms (defaults uuid).backoff_max_ms;
  boot_sweep = given_else o.boot_sweep (defaults uuid).boot_sweep;
  job_timeout_ms = given_else o.job_timeout_ms (defaults uuid).job_timeout_ms;
  runner_id = given_else o.runner_id (defaults uuid).runner_id;
}
