-- ===== src/Refinement/Reachable.antt =====
-- What holds of every world that the engine can come to, by any sequence of its calls and loops
-- (Engine/Calls.antt), whatever the connection does and whoever else writes to the tables.
use background_job_runner.Prelude.{ℕ, ◌≡◌, true, All, At}
use background_job_runner.Types.{TaskRow}
use background_job_runner.Repository.Schema.{keys_ok, active}
use background_job_runner.Repository.Schema.Keys.{keys_ok-unique_holder}
use background_job_runner.Engine.Numbers.{Numbers}
use background_job_runner.Engine.World.{World}
use background_job_runner.Engine.Calls.{
  Call, start, beat, reap, stop, tick, execution, submit, collect, cancel, retry, elsewhere,
  perform,
}
use background_job_runner.Lifecycle.Rows.{IsSound, IsRetired, SameTask, Lives-SameTask}
use background_job_runner.Lifecycle.Tables.{Evolves-IsSound, Evolves-at, Evolves-retired}
use background_job_runner.Refinement.Rules.{Advances, Advances-refl, Advances-trans}
use background_job_runner.Refinement.Actions.{IsCalm}
use background_job_runner.Refinement.Runner.{
  Moves-start, Moves-beat, Moves-reap, Moves-stop, Moves-tick,
}
use background_job_runner.Refinement.Jobs.{Moves-run_one}
use background_job_runner.Refinement.Operations.{
  IsOrderly, Moves-submit, Moves-collect, Moves-cancel, Moves-retry,
}

-- What others do while a call is under way, they too do by edges of a task's life.
unfoldable pub IsCalmCall : Call → Type 0
IsCalmCall (start config) = Unit
IsCalmCall (beat config) = Unit
IsCalmCall (reap config) = Unit
IsCalmCall (stop draining delay) = (k : ℕ) → IsCalm (delay k)
IsCalmCall (tick config locked) = Unit
IsCalmCall (execution config task x) = IsCalm x.during
IsCalmCall (submit config workers user lane params races) = (n : ℕ) → IsOrderly (races n)
IsCalmCall (collect user handle at) = Unit
IsCalmCall (cancel user handle at others) = IsCalm others
IsCalmCall (retry config user handle at) = Unit
IsCalmCall (elsewhere others) = IsCalm others

pub data Reaches (num : Numbers) (w : World) : World → Type 0 where
  begin : Reaches num w w
  after :
      {v : World} → Reaches num w v → (c : Call) → IsCalmCall c → Reaches num w (perform num c v)

module _ (num : Numbers) where
  -- Every call implements the life cycle: from tables with valid keys, and with others who keep to it, what
  -- the call makes of the tasks is a course of the abstract machine, in which each row that there was lives on
  -- along its edges and each row that is added begins as a new one; and if a row that has the handle
  -- of a later one was retired, this stays so.
  pub perform-Advances :
      (c : Call) (w : World)
      → IsCalmCall c
      → keys_ok w.db.tasks ≡ true
      → Advances w.db.tasks (perform num c w).db.tasks
  unfolding perform IsCalmCall
  perform-Advances (start config) w calm k = (Moves-start config).at w k
  perform-Advances (beat config) w calm k = (Moves-beat config).at w k
  perform-Advances (reap config) w calm k = (Moves-reap config).at w k
  perform-Advances (stop draining delay) w calm k = (Moves-stop draining delay calm).at w k
  perform-Advances (tick config locked) w calm k = (Moves-tick config locked).at w k
  perform-Advances (execution config task x) w calm k = (Moves-run_one config task x calm).at w k
  perform-Advances (submit config workers user lane params races) w calm k =
      (Moves-submit num config workers user lane params races calm).at w k
  perform-Advances (collect user handle at) w calm k = (Moves-collect num user handle at).at w k
  perform-Advances (cancel user handle at others) w calm k =
      (Moves-cancel num user handle at others calm).at w k
  perform-Advances (retry config user handle at) w calm k =
      (Moves-retry num config user handle at).at w k
  perform-Advances (elsewhere others) w calm k = calm.at w k

  pub Reaches-Advances :
      {w v : World} → Reaches num w v → keys_ok w.db.tasks ≡ true → Advances w.db.tasks v.db.tasks
  Reaches-Advances {w} begin k = Advances-refl w.db.tasks k
  Reaches-Advances {w} (after {v = v} r c calm) k =
      let h = Reaches-Advances r k in
      Advances-trans w.db.tasks v.db.tasks (perform num c v).db.tasks h
        (perform-Advances c v calm h.keys)

  -- From tables whose keys are valid, no sequence of calls leads to two different active tasks that
  -- hold the same handle of one user and lane.
  pub reached-unique_holder :
      (w v : World) (t u : TaskRow)
      → Reaches num w v
      → keys_ok w.db.tasks ≡ true
      → At t v.db.tasks
      → At u v.db.tasks
      → active t ≡ true
      → active u ≡ true
      → t.user_id ≡ u.user_id
      → t.lane ≡ u.lane
      → t.handle_num ≡ u.handle_num
      → t ≡ u
  reached-unique_holder w v t u r k i j =
      keys_ok-unique_holder v.db.tasks t u (Reaches-Advances r k).keys i j

  -- From tables with valid keys and sound rows, every sequence of calls leads to sound rows: a task
  -- has an owner and a lease exactly while it runs, only a ready task is collected, with its time,
  -- and a task that runs, is ready or has failed was attempted.
  pub reached-IsSound :
      (w v : World)
      → Reaches num w v
      → keys_ok w.db.tasks ≡ true
      → All IsSound w.db.tasks
      → All IsSound v.db.tasks
  reached-IsSound w v r k h = Evolves-IsSound (Reaches-Advances r k).evolves h

  -- A task that is cancelled, or ready and collected, stays in the table as it is through every
  -- sequence of calls from tables with valid keys.
  pub reached-retired :
      (w v : World) (t : TaskRow)
      → Reaches num w v
      → keys_ok w.db.tasks ≡ true
      → At t w.db.tasks
      → IsRetired t
      → At t v.db.tasks
  reached-retired w v t r k i retired = Evolves-retired t (Reaches-Advances r k).evolves i retired

  -- No task is lost by any sequence of calls from tables with valid keys: it is there afterwards
  -- under its id, user, lane, handle number and parameters, and with no fewer attempts.
  pub reached-SameTask :
      (w v : World) (t : TaskRow)
      → Reaches num w v
      → keys_ok w.db.tasks ≡ true
      → At t w.db.tasks
      → (u : TaskRow) × At u v.db.tasks × SameTask t u
  reached-SameTask w v t r k i =
      let (u, j, l) = Evolves-at (Reaches-Advances r k).evolves i in (u, j, Lives-SameTask l)
