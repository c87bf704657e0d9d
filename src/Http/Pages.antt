-- ===== src/Http/Pages.antt =====
-- `paginationParams` of backend/src/lib/http.ts.
use background_job_runner.Prelude.{ℕ, ◌*◌, Option, none, some}

abbrev pub default_limit : ℕ
default_limit = 20

pub record Page : Type 0 where
  pub limit : ℕ
  pub page : ℕ
  pub offset : ℕ

abbrev pub given_or : Option ℕ → ℕ → ℕ
given_or none d = d
given_or (some n) d = n

unfoldable pub pagination_params : Option ℕ → Option ℕ → Page
pagination_params limit page = record {
  limit = given_or limit default_limit;
  page = given_or page 0;
  offset = given_or page 0 * given_or limit default_limit;
}
