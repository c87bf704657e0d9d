-- ===== src/Engine/Jobs/Backoff.antt =====
-- `backoffFor` of backend/src/engine/runner.ts.
use background_job_runner.Prelude.{ℕ, ◌+◌, ◌*◌, ◌/◌, ◌≤◌, ◌<◌, arith}
use native.Mathlib.Nat.{le-div_iff_mul-le, mul-div-le, mul-le-mul_left, le_of_mul-le-mul_right}
use background_job_runner.Types.{EngineConfig}
use background_job_runner.Engine.Jobs.{Random, capped_backoff, backoff_for}

pub record IsBackoff (config : EngineConfig) (attempts delay : ℕ) : Type 0 where
  pub least : capped_backoff config attempts ≤ delay
  pub most : 10 * delay ≤ 12 * capped_backoff config attempts + 5
  pub bounded : 10 * delay ≤ 12 * config.backoff_max_ms + 5

module _ (c d r : ℕ) (pos : 1 ≤ r) (below : d < r) where
  rounded : ℕ
  rounded = (2 * c * (5 * r + d) + 5 * r) / (10 * r)

  least_rounded : c ≤ rounded
  unfolding rounded
  least_rounded =
      let h =
        le-div_iff_mul-le {k = 10 * r} {x = c} {y = 2 * c * (5 * r + d) + 5 * r}
          (omega (arith, pos)) in
      h.1 (grind arith)

  most_rounded : 10 * rounded ≤ 12 * c + 5
  unfolding rounded
  most_rounded =
      le_of_mul-le-mul_right {k = r}
        (grind (
          arith,
          mul-div-le (2 * c * (5 * r + d) + 5 * r) (10 * r),
          mul-le-mul_left {m = d} {n = r} c (omega (arith, below)),
        ))
        pos

capped_backoff-le_max :
    (config : EngineConfig) (n : ℕ) → capped_backoff config n ≤ config.backoff_max_ms
unfolding capped_backoff
capped_backoff-le_max config n = omega arith

-- The delay before a retry, for every draw of the random source, is at least the capped exponential
-- and at most a fifth more, up to rounding; so it exceeds the configured maximum by no more than that.
pub backoff_for-IsBackoff :
    (config : EngineConfig) (random : Random) (attempts : ℕ)
    → random.draw < random.range
    → IsBackoff config attempts (backoff_for config random attempts)
unfolding backoff_for rounded
backoff_for-IsBackoff config random attempts below =
    let c = capped_backoff config attempts in
    let least = least_rounded c random.draw random.range (omega (arith, below)) below in
    let most = most_rounded c random.draw random.range (omega (arith, below)) below in
    record {
      least = least;
      most = most;
      bounded = omega (arith, most, capped_backoff-le_max config attempts);
    }
