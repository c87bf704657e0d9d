-- ===== src/Repository/Operations/Allocation.antt =====
-- `allocateHandle` of backend/src/engine/repository.ts, where nobody else takes a number of the lane.
use background_job_runner.Prelude.{ℕ, suc, ◌≡◌, true, false, List, [], ◌∷◌, ◌++◌, ◌==◌, any}
use background_job_runner.Types.{TaskRow}
use background_job_runner.Repository.Sql.{Db}
use background_job_runner.Repository.Schema.{keys_ok}
use background_job_runner.Repository.Slot.{used, slot}
use background_job_runner.Repository.Slot.Lowest.{IsLowestFree}
use background_job_runner.Repository.Writes.{new_row, event_row}
use background_job_runner.Repository.Operations.{
  TaskWithEvent, AllocateHandleInput, new_task, accepted_event,
}

-- What the other sessions may do between the look for a free number and the insert: they keep the keys, take no
-- handle of this user and lane, and insert no row with this id. They may give handles up. In the source the
-- lane lock keeps those out that would take one, as long as they ask for it too.
pub record TakesNone (input : AllocateHandleInput) (id : ℕ) (others : List TaskRow → List TaskRow)
    (ts : List TaskRow) : Type 0 where
  pub keys : keys_ok (others ts) ≡ true
  pub handles :
      (n : ℕ)
      → any (λ m. m == n) (used input.user_id input.lane (others ts)) ≡ true
      → any (λ m. m == n) (used input.user_id input.lane ts) ≡ true
  pub fresh : any (λ u. u.id == id) (others ts) ≡ false

-- What an allocation that returned `o` did: the row is new, at the lowest free number of its lane.
pub record Allocated (input : AllocateHandleInput) (id : ℕ) (others : List TaskRow → List TaskRow)
    (db : Db) (o : TaskWithEvent) (db' : Db) : Type 0 where
  pub task :
      o.task ≡ new_row (new_task input id) (slot (used input.user_id input.lane db.tasks)) db.now
  pub lowest : IsLowestFree (used input.user_id input.lane db.tasks) o.task.handle_num
  pub tasks : db'.tasks ≡ o.task ∷ others db.tasks
  pub keys : keys_ok db'.tasks ≡ true
  pub event : o.event ≡ event_row (accepted_event input o.task) db
  pub events : db'.events ≡ db.events ++ o.event ∷ []

module _ (input : AllocateHandleInput) (id : ℕ) (others : List TaskRow → List TaskRow) where
  row : Db → TaskRow
  row db = new_row (new_task input id) (slot (used input.user_id input.lane db.tasks)) db.now

  -- The state that an allocation leaves, and what it returns.
  outcome : Db → TaskWithEvent
  outcome db = record { task = row db; event = event_row (accepted_event input (row db)) db }

  final : Db → Db
  final db = record db {
    tasks = row db ∷ others db.tasks;
    events = db.events ++ event_row (accepted_event input (row db)) db ∷ [];
    next_event_id = suc db.next_event_id;
    faults = [];
  }
