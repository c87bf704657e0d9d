-- ===== src/Repository/Schema.antt =====
-- The keys of backend/db/migrations/20260728155826_create_tasks_table.sql, as the database checks them on
-- every write: the primary key, and the partial unique index on the handles of active tasks.
pub mod Keys
use background_job_runner.Prelude.{
  ℕ, Bool, true, false, ◌&&◌, ◌||◌, not, List, [], ◌∷◌, ◌==◌, text_eq, any, Text,
}
use background_job_runner.Types.{TaskStatus, TaskRow}

-- `status IN ('queued','running','failed') OR (status = 'ready' AND NOT collected)`
abbrev pub holds_handle : TaskStatus → Bool → Bool
holds_handle TaskStatus.queued collected = true
holds_handle TaskStatus.running collected = true
holds_handle TaskStatus.failed collected = true
holds_handle TaskStatus.ready collected = not collected
holds_handle TaskStatus.cancelled collected = false

abbrev pub active : TaskRow → Bool
active t = holds_handle t.status t.collected

-- The rows of one `(userId, lane)`.
abbrev pub in_lane : ℕ → Text → TaskRow → Bool
in_lane user_id lane t = t.user_id == user_id && text_eq t.lane lane

abbrev pub has_handle : ℕ → Text → ℕ → TaskRow → Bool
has_handle user_id lane n t = in_lane user_id lane t && t.handle_num == n

abbrev pub holds : ℕ → Text → ℕ → TaskRow → Bool
holds user_id lane n t = active t && has_handle user_id lane n t

abbrev pub clashes : TaskRow → TaskRow → Bool
clashes t u = (u.id == t.id) || (active t && holds t.user_id t.lane t.handle_num u)

unfoldable pub keys_ok : List TaskRow → Bool
keys_ok [] = true
keys_ok (t ∷ ts) = not (any (clashes t) ts) && keys_ok ts
