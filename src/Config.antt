-- ===== src/Config.antt =====
-- The environment of the server and the engine that it configures: backend/src/config/env.ts and
-- plugins/engine.ts.
-- Reading and coercing the variables is a library's; the schema is the test that they have passed. Numbers
-- are whole.
use background_job_runner.Prelude.{
  ℕ, Bool, true, false, ◌&&◌, ◌||◌, not, List, [], ◌∷◌, ◌++◌, Option, none, some, leb, Text,
}
use background_job_runner.Prelude.Texts.{characters}
use background_job_runner.Types.{EngineConfig}
use background_job_runner.Engine.Defaults.{EngineOptions, configured}
use background_job_runner.Engine.Numbers.{Numbers}
use background_job_runner.Engine.Registry.{WorkerDescriptor}
use background_job_runner.Workers.Mock.{mock_workers}
use background_job_runner.Workers.WebScrape.{create_scrape_worker}

pub data NodeEnv : Type 0 where
  development production test : NodeEnv

pub data SameSite : Type 0 where
  lax strict cross_site : SameSite

pub record Env : Type 0 where
  pub node_env : NodeEnv
  pub jwt_secret : Text
  pub session_ttl_seconds : ℕ
  pub session_cookie_same_site : SameSite
  pub engine_concurrency : ℕ
  pub engine_poll_interval_ms : ℕ
  pub engine_lease_ms : ℕ
  pub engine_heartbeat_ms : ℕ
  pub engine_max_attempts : ℕ
  pub engine_backoff_base_ms : ℕ
  pub engine_backoff_max_ms : ℕ
  pub engine_job_timeout_ms : ℕ
  pub engine_boot_sweep : Bool

-- The lower bounds of the schema.
unfoldable pub valid_env : Env → Bool
valid_env env =
    leb 32 (characters env.jwt_secret)
    && leb 60 env.session_ttl_seconds
    && leb 1 env.engine_concurrency
    && leb 10 env.engine_poll_interval_ms
    && leb 1000 env.engine_lease_ms
    && leb 100 env.engine_heartbeat_ms
    && leb 1 env.engine_max_attempts
    && leb 1000 env.engine_job_timeout_ms

abbrev pub is_production : NodeEnv → Bool
is_production NodeEnv.production = true
is_production _ = false

abbrev pub is_test : NodeEnv → Bool
is_test NodeEnv.test = true
is_test _ = false

abbrev pub is_cross_site : SameSite → Bool
is_cross_site SameSite.cross_site = true
is_cross_site _ = false

-- `auth.cookieSecure`
unfoldable pub cookie_secure : Env → Bool
cookie_secure env = is_production env.node_env || is_cross_site env.session_cookie_same_site

pub record SessionCookieOptions : Type 0 where
  pub http_only : Bool
  pub secure : Bool
  pub same_site : SameSite
  pub max_age : Option ℕ

unfoldable pub session_cookie_options : Env → SessionCookieOptions
session_cookie_options env = record {
  http_only = true;
  secure = cookie_secure env;
  same_site = env.session_cookie_same_site;
  max_age = some env.session_ttl_seconds;
}

-- `clearSessionCookie` takes all of them but `maxAge`.
unfoldable pub clear_cookie_options : Env → SessionCookieOptions
clear_cookie_options env = record (session_cookie_options env) { max_age = none }

-- The section `engine`, as options of the engine; its periods belong to timers.
unfoldable pub engine_options : Env → EngineOptions
engine_options env = record {
  concurrency = some env.engine_concurrency;
  lease_ms = some env.engine_lease_ms;
  max_attempts = some env.engine_max_attempts;
  backoff_base_ms = some env.engine_backoff_base_ms;
  backoff_max_ms = some env.engine_backoff_max_ms;
  boot_sweep = some env.engine_boot_sweep;
  job_timeout_ms = some env.engine_job_timeout_ms;
  runner_id = none;
}

abbrev pub or_else {ℓ} : {A : Type ℓ} → Option A → Option A → Option A
or_else none d = d
or_else (some a) d = some a

-- `{ ...env.engine, ...options.config }`
unfoldable pub plugin_options : Env → EngineOptions → EngineOptions
unfolding engine_options
plugin_options env o = record {
  concurrency = or_else o.concurrency (engine_options env).concurrency;
  lease_ms = or_else o.lease_ms (engine_options env).lease_ms;
  max_attempts = or_else o.max_attempts (engine_options env).max_attempts;
  backoff_base_ms = or_else o.backoff_base_ms (engine_options env).backoff_base_ms;
  backoff_max_ms = or_else o.backoff_max_ms (engine_options env).backoff_max_ms;
  boot_sweep = or_else o.boot_sweep (engine_options env).boot_sweep;
  job_timeout_ms = or_else o.job_timeout_ms (engine_options env).job_timeout_ms;
  runner_id = or_else o.runner_id (engine_options env).runner_id;
}

-- The engine that the server runs, without options of its own; `double` is as in the workers.
unfoldable pub server_config : Env → ℕ → EngineConfig
server_config env uuid = configured uuid (engine_options env)

unfoldable pub server_workers : Numbers → (ℕ → ℕ) → List WorkerDescriptor
server_workers num double = mock_workers double ++ create_scrape_worker num double ∷ []

unfoldable pub autostarts : Env → Option Bool → Bool
autostarts env none = not (is_test env.node_env)
autostarts env (some b) = b
