-- ===== src/Repository/Slot.antt =====
-- The gap query of `insertAtNextHandle` in backend/src/engine/repository.ts.
pub mod Lowest
use background_job_runner.Prelude.{
  ℕ, zero, suc, ◌+◌, Bool, ◌&&◌, not, List, [], ◌∷◌, map, Option, none, some, ◌==◌, any, filter,
  min, max, Text,
}
use background_job_runner.Types.{TaskRow}
use background_job_runner.Repository.Schema.{active, in_lane}

-- `WITH used AS (SELECT "handleNum" …)`
unfoldable pub used : ℕ → Text → List TaskRow → List ℕ
used user_id lane ts = map (λ t. t.handle_num) (filter (λ t. in_lane user_id lane t && active t) ts)

-- `COALESCE(MAX(n), 0)`
unfoldable pub max_of : List ℕ → ℕ
max_of [] = 0
max_of (n ∷ ns) = max n (max_of ns)

-- `generate_series(first, …)`, `count` numbers long.
unfoldable pub series : ℕ → ℕ → List ℕ
series first zero = []
series first (suc count) = first ∷ series (suc first) count

-- `MIN(n)`, NULL for no rows.
unfoldable pub min_of : List ℕ → Option ℕ
min_of [] = none
min_of (n ∷ ns) = elim (min_of ns) [ none ↦ some n | some m ↦ some (min n m) ]

abbrev pub coalesce : Option ℕ → ℕ → ℕ
coalesce none d = d
coalesce (some n) d = n

abbrev pub is_free : List ℕ → ℕ → Bool
is_free ns n = not (any (λ m. m == n) ns)

-- `SELECT COALESCE(MIN(s.n), 1) FROM generate_series(1, … + 1) WHERE NOT EXISTS …`
unfoldable pub slot : List ℕ → ℕ
unfolding max_of series min_of
slot ns = coalesce (min_of (filter (is_free ns) (series 1 (max_of ns + 1)))) 1
