-- ===== src/Refinement/Handles.antt =====
-- What a handle names in every world that the engine can come to.
use background_job_runner.Prelude.{◌≤◌, ◌≡◌, ◌≢◌, true, [], At}
use background_job_runner.Types.{TaskRow}
use background_job_runner.Errors.{ok}
use background_job_runner.Repository.Schema.{keys_ok, active}
use background_job_runner.Repository.Operations.{handle_of}
use background_job_runner.Engine.Numbers.{Numbers, ReadsDecimals}
use background_job_runner.Engine.World.{World}
use background_job_runner.Engine.Operations.{find}
use background_job_runner.Engine.Operations.Newest.{IsNewest, find-IsNewest}
use background_job_runner.Lifecycle.Ranks.{IsRanked, IsChronological, active-IsNewest}
use background_job_runner.Refinement.Rules.{Advances}
use background_job_runner.Refinement.Reachable.{Reaches, Reaches-Advances}

module _ (num : Numbers) (w v : World) (t : TaskRow) where
  reached-IsNewest :
      Reaches num w v
      → keys_ok w.db.tasks ≡ true
      → IsRanked w.db.tasks
      → IsChronological v.db.tasks
      → At t v.db.tasks
      → active t ≡ true
      → IsNewest v.db.tasks t
  unfolding IsNewest
  reached-IsNewest r k ranked times i a s j h l =
      active-IsNewest v.db.tasks t s (Advances.ranks (Reaches-Advances num r k) ranked) times i a j
        h l

  -- From tables with valid keys, in which a task that has the handle of one inserted later is retired, every
  -- sequence of calls leads to tables where an active task is the one that its handle finds, however often
  -- the handle was given to others before. The connection has to work by then, tasks with one handle have to
  -- have got their times in the order of their insertion, and the handle has a lane and a positive number that the column can hold.
  pub reached-found :
      ReadsDecimals num
      → Reaches num w v
      → keys_ok w.db.tasks ≡ true
      → IsRanked w.db.tasks
      → IsChronological v.db.tasks
      → v.db.faults ≡ []
      → At t v.db.tasks
      → active t ≡ true
      → t.lane ≢ []
      → 1 ≤ t.handle_num
      → t.handle_num ≤ 2147483647
      → find num t.user_id (handle_of t.lane t.handle_num) v ≡ (ok t, v)
  reached-found reads r k ranked times calm i a named positive safe =
      find-IsNewest num v t reads named positive safe calm i (reached-IsNewest r k ranked times i a)
