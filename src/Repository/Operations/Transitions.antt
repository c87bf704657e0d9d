-- ===== src/Repository/Operations/Transitions.antt =====
-- What `transition` comes to, whatever the connection does.
use background_job_runner.Prelude.{
  ℕ, ◌≡◌, refl, ap, sym, ◌∙◌, Bool, true, List, [], ◌∷◌, ◌++◌, map, Option, none, some, filter,
  head?, At,
}
use background_job_runner.Types.{TaskRow}
use background_job_runner.Errors.{Thrown, Result, ok, err}
use background_job_runner.Repository.Sql.{Db, ◌>>=◌}
use background_job_runner.Repository.Sql.Rules.{
  SameTables, ok-injective, bind-ok, with_transaction_rule,
}
use background_job_runner.Repository.Schema.{keys_ok}
use background_job_runner.Repository.Writes.{
  change, selects, apply_patch, update_task, event_row, insert_event, NewEvent,
}
use background_job_runner.Repository.Writes.Effects.{
  Updated, update_task-ok, insert_event-ok, head-map-filter, filter-nil, change-nil,
}
use background_job_runner.Repository.Operations.{
  TaskWithEvent, TransitionInput, record_write, with_event, transition,
}

-- The event that a transition records of a row.
abbrev pub event_of : TransitionInput → TaskRow → NewEvent
event_of input task = record {
  task_id = task.id;
  user_id = task.user_id;
  type = input.type;
  detail = input.detail;
}

-- The guard held of the row `before`, which the patch changed, and one event tells of it.
pub record Recorded (input : TransitionInput) (at : ℕ) (db : Db) (o : TaskWithEvent) (db' : Db)
    : Type 0 where
  pub before : TaskRow
  pub stood : At before db.tasks
  pub held : selects input.task_id input.guard before ≡ true
  pub task : o.task ≡ apply_patch input.patch at before
  pub event : o.event ≡ event_row (event_of input o.task) db
  pub tasks :
      db'.tasks
      ≡ map (change (selects input.task_id input.guard) (apply_patch input.patch at)) db.tasks
  pub keys : keys_ok db'.tasks ≡ true
  pub events : db'.events ≡ db.events ++ o.event ∷ []

pub data Outcome (input : TransitionInput) (at : ℕ) (db : Db)
    (r : Result (Option TaskWithEvent) × Db) : Type 0 where
  thrown : (e : Thrown) → r.0 ≡ err e → SameTables db r.1 → Outcome input at db r
  missed :
      r.0 ≡ ok none
      → filter (selects input.task_id input.guard) db.tasks ≡ []
      → SameTables db r.1
      → Outcome input at db r
  recorded :
      (o : TaskWithEvent) → r.0 ≡ ok (some o) → Recorded input at db o r.1 → Outcome input at db r

event_row-same :
    (e : NewEvent) (db mid : Db)
    → mid.next_event_id ≡ db.next_event_id
    → mid.now ≡ db.now
    → event_row e mid ≡ event_row e db
event_row-same e db mid p q = rw (p, q)

module _ (input : TransitionInput) (at : ℕ) where
  p : TaskRow → Bool
  p = selects input.task_id input.guard

  f : TaskRow → TaskRow
  f = apply_patch input.patch at

  Outcome-record_write :
      (db mid fin : Db) (o : Option TaskRow) (rs : List TaskRow) (w : Option TaskWithEvent)
      (gs : List (Option Thrown))
      → o ≡ head? rs
      → Updated p f db rs mid
      → record_write input o mid ≡ (ok w, fin)
      → Outcome input at db (ok w, record fin { faults = gs })
  unfolding p f
  Outcome-record_write db mid fin none rs w gs first u h =
      let (same, moved) = ok-injective {a = none} {b = w} {db = mid} {db' = fin} h in
      let empty = filter-nil p f db.tasks (first ∙ ap head? u.rows) in
      missed (ap ok (sym same)) empty (record {
        tasks = ap (λ (d : Db). d.tasks) (sym moved) ∙ u.tasks ∙ change-nil p f db.tasks empty;
        events = ap (λ (d : Db). d.events) (sym moved) ∙ u.events;
      })
  Outcome-record_write db mid fin (some task) rs w gs first u h =
      let (event, late, ins, rest) =
        bind-ok (insert_event (event_of input task)) (with_event task) mid h in
      let log = insert_event-ok (event_of input task) mid ins in
      let o : TaskWithEvent = record { task = task; event = event } in
      let (same, moved) = ok-injective {a = some o} {b = w} {db = late} {db' = fin} rest in
      let (before, stood, held, is) = head-map-filter p f db.tasks (first ∙ ap head? u.rows) in
      let written : fin.tasks ≡ map (change p f) db.tasks =
        ap (λ (d : Db). d.tasks) (sym moved) ∙ log.tasks ∙ u.tasks in
      recorded o (ap ok (sym same)) (record {
        before = before;
        stood = stood;
        held = held;
        task = is;
        event = log.row_is ∙ event_row-same (event_of input task) db mid u.sequence u.clock;
        tasks = written;
        keys = rw written u.keys;
        events =
            ap (λ (d : Db). d.events) (sym moved)
            ∙ log.events
            ∙ ap (λ es. es ++ event ∷ []) u.events;
      })

  -- A transition throws and leaves the tables as they were, or finds no row for its guard and leaves
  -- them too, or patches the row that it selected and appends one event that tells of it.
  pub transition-Outcome : (db : Db) → Outcome input at db (transition input at db)
  unfolding transition p f
  transition-Outcome db =
      with_transaction_rule (Outcome input at db)
        (update_task input.task_id input.patch input.guard at >>= record_write input) db
        (λ e db' same. thrown e refl same)
        (λ fs gs w fin ran.
          let (o, mid, updated, rest) =
            bind-ok (update_task input.task_id input.patch input.guard at) (record_write input)
              (record db { faults = fs }) ran in
          let (rs, first, u) =
            update_task-ok input.task_id input.patch input.guard at (record db { faults = fs })
              updated in
          reset fs
            (Outcome-record_write (record db { faults = fs }) mid fin o rs w gs first u rest))
    where
      reset :
          {r : Result (Option TaskWithEvent) × Db} (fs : List (Option Thrown))
          → Outcome input at (record db { faults = fs }) r
          → Outcome input at db r
      reset fs (thrown e h same) = thrown e h (record { tasks = same.tasks; events = same.events })
      reset fs (missed h e same) = missed h e (record { tasks = same.tasks; events = same.events })
      reset fs (recorded o h c) = recorded o h (record {
        before = c.before;
        stood = c.stood;
        held = c.held;
        task = c.task;
        event = c.event;
        tasks = c.tasks;
        keys = c.keys;
        events = c.events;
      })
