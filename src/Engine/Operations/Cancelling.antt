-- ===== src/Engine/Operations/Cancelling.antt =====
-- `cancel` of backend/src/engine/orchestration-engine.ts: three conditional updates, tried in turn.
use background_job_runner.Prelude.{
  ℕ, ◌≡◌, refl, sym, ap, ◌∙◌, subst, Bool, true, false, List, [], ◌∷◌, ◌++◌, Option, none, arith,
  At, All, any, Bool-cases, inl, inr, if◌then◌else◌, Text,
}
use background_job_runner.Types.{TaskStatus, TaskRow, status_eq}
use background_job_runner.Types.Events.{TaskEventType}
use background_job_runner.Errors.{Result, ok, err, app_error, conflict}
use background_job_runner.Repository.Sql.{statement, guarded}
use background_job_runner.Repository.Schema.{keys_ok, active, holds_handle}
use background_job_runner.Repository.Writes.{selects}
use background_job_runner.Repository.Reads.{query, find_by_id}
use background_job_runner.Engine.Bus.{publish, to_engine_event}
use background_job_runner.Engine.Numbers.{Numbers}
use background_job_runner.Engine.World.{World, continue, modify, ◌>>◌}
use background_job_runner.Engine.Runner.{abort}
use background_job_runner.Engine.Runner.Written.{Writes, Unchanged}
use background_job_runner.Engine.Runner.Transitions.{transition-Writes, transition-skips}
use background_job_runner.Engine.Operations.{
  Task, to_task, find, cancel_input, cancel_from, or_next, cancellable, cancel_each, cancel,
}
use background_job_runner.Engine.Operations.Guarded.{away, Owned-found}

abbrev pub cancelled_row : ℕ → TaskRow → TaskRow
cancelled_row at t = record t {
  status = TaskStatus.cancelled;
  runner_id = none;
  lease_until = none;
  updated_at = at;
}

-- A task that ran has its execution aborted.
abbrev pub aborted : ℕ → TaskStatus → World → World
aborted id from v = if status_eq from TaskStatus.running then (abort id v).1 else v

-- How `cancel` of the task `t` ends: it was in one of the states, and is cancelled with one event, and
-- aborted if it ran; or it was in none of them, and nothing is changed.
pub data Cancels (states : List TaskStatus) (at : ℕ) (w : World) (t : TaskRow)
    : Result Task × World → Type 0 where
  done :
      (v : World)
      → any (status_eq t.status) states ≡ true
      → Writes w v t (cancelled_row at t) TaskEventType.cancelled
      → Cancels states at w t (ok (to_task (cancelled_row at t)), aborted t.id t.status v)
  refused :
      (v : World)
      → any (status_eq t.status) states ≡ false
      → Unchanged w v
      → Cancels states at w t (err (app_error conflict), v)

-- States in which a task holds its handle whatever else.
Holding : TaskStatus → Type 0
Holding s = (c : Bool) → holds_handle s c ≡ true

Writes-unchanged :
    {w v x : World} {t u : TaskRow} {type : TaskEventType}
    → Unchanged w v
    → Writes v x t u type
    → Writes w x t u type
Writes-unchanged {w} {v} {x} {t} {u} same writes = record {
  row = writes.row;
  event = writes.event;
  typed = writes.typed;
  tells = writes.tells;
  logged = writes.logged ∙ ap (λ es. es ++ writes.event ∷ []) same.tables.events;
  published =
      writes.published
      ∙ ap
          (λ b. publish b (
            to_engine_event
              (record { event = writes.event; lane = u.lane; handle_num = u.handle_num })))
          same.bus;
  others = λ s i apart. writes.others s (subst (At s) (sym same.tables.tasks) i) apart;
}

Unchanged-trans : {w v x : World} → Unchanged w v → Unchanged v x → Unchanged w x
Unchanged-trans a b = record {
  tables = record {
    tasks = b.tables.tasks ∙ a.tables.tasks;
    events = b.tables.events ∙ a.tables.events;
  };
  bus = b.bus ∙ a.bus;
}

Cancels-later :
    (from : TaskStatus) (states : List TaskStatus) (at : ℕ) (w v : World) (t : TaskRow) {r : _}
    → status_eq t.status from ≡ false
    → Unchanged w v
    → Cancels states at v t r
    → Cancels (from ∷ states) at w t r
Cancels-later from states at w v t differs same (done x one writes) =
    done x (ground arith) (Writes-unchanged same writes)
Cancels-later from states at w v t differs same (refused x none_of rest) =
    refused x (ground arith) (Unchanged-trans same rest)

module _ (user_id at : ℕ) (t : TaskRow) (mine : t.user_id ≡ user_id) where
  nobody : World → World
  nobody w = w

  status-of_selected :
      (from : TaskStatus)
      → selects t.id (cancel_input user_id t.id from).guard t ≡ true
      → t.status ≡ from
  status-of_selected from h = ground arith

  status-of_unselected :
      (from : TaskStatus)
      → selects t.id (cancel_input user_id t.id from).guard t ≡ false
      → status_eq t.status from ≡ false
  status-of_unselected from h = ground (arith, mine)

  active-of_selected :
      (from : TaskStatus) (s : TaskRow)
      → Holding from
      → selects t.id (cancel_input user_id t.id from).guard s ≡ true
      → active s ≡ true
  unfolding Holding
  active-of_selected from s holding h =
      let q : s.status ≡ from = ground arith in rw q (holding s.collected)

  conflicts :
      (w : World)
      → w.db.faults ≡ []
      → cancel_each user_id t.id [] at nobody w ≡ (err (app_error conflict), w)
  unfolding cancel_each find_by_id query guarded statement
  conflicts w calm =
      ap
        (λ fs.
          cancel_each user_id t.id [] at nobody (record w { db = record w.db { faults = fs } }))
        calm
      ∙ ap (λ fs. (err (app_error conflict), record w { db = record w.db { faults = fs } }))
          (sym calm)

  Cancels-cancel_each :
      (states : List TaskStatus) (w : World)
      → All Holding states
      → w.db.faults ≡ []
      → keys_ok w.db.tasks ≡ true
      → At t w.db.tasks
      → Cancels states at w t (cancel_each user_id t.id states at nobody w)
  unfolding cancel_each cancel_from nobody
  Cancels-cancel_each [] w holding calm k i =
      subst (Cancels [] at w t) (sym (conflicts w calm))
        (refused w refl (record { tables = record { tasks = refl; events = refl }; bus = refl }))
  Cancels-cancel_each (from ∷ rest) w holding calm k i =
      let input = cancel_input user_id t.id from in
      elim (Bool-cases (selects t.id input.guard t)) [
        | inl h ↦
            let (v, ran, writes) =
              transition-Writes input at w t calm k (λ s. active-of_selected from s holding.0) i
                h in
            let was = status-of_selected from h in
            subst (Cancels (from ∷ rest) at w t)
              (sym (
                ap ending ran
                ∙ ap (λ s. (ok (to_task (cancelled_row at t)), aborted t.id s v)) (sym was)))
              (done v (ground (arith, was)) writes)
        | inr h ↦
            let (v, ran, same, quiet) =
              transition-skips input at w calm k (λ s. active-of_selected from s holding.0)
                (away input at w t k i refl h) in
            let later =
              Cancels-cancel_each rest v holding.1 quiet
                (subst (λ ts. keys_ok ts ≡ true) (sym same.tables.tasks) k)
                (subst (At t) (sym same.tables.tasks) i) in
            subst (Cancels (from ∷ rest) at w t) (sym (ap ending ran))
              (Cancels-later from rest at w v t (status-of_unselected from h) same later)
      ]
    where
      ending : Result (Option TaskRow) × World → Result Task × World
      ending r =
          continue r.0
            (or_next t.id from (modify nobody >> cancel_each user_id t.id rest at nobody)) r.1

module _ (num : Numbers) (user_id : ℕ) (handle : Text) (w : World) (t : TaskRow) where
  -- On a connection without faults and tables with valid keys, and with nothing in between, `cancel`
  -- of the task that the handle finds cancels it with one event if it is queued, running or failed,
  -- and aborts its execution if it is running; otherwise it throws a conflict and changes nothing.
  pub cancel-Cancels :
      (at : ℕ)
      → find num user_id handle w ≡ (ok t, w)
      → w.db.faults ≡ []
      → keys_ok w.db.tasks ≡ true
      → Cancels
          (TaskStatus.queued ∷ TaskStatus.running ∷ TaskStatus.failed ∷ [])
          at
          w
          t
          (cancel num user_id handle at (λ v. v) w)
  unfolding cancel Holding nobody
  cancel-Cancels at here calm k =
      let (stood, mine) = Owned-found num user_id handle w t calm here in
      subst (Cancels cancellable at w t)
        (sym (
          ap
            (λ (r : Result TaskRow × World).
              continue r.0 (λ u. cancel_each user_id u.id cancellable at (λ v. v)) r.1)
            here))
        (Cancels-cancel_each user_id at t mine cancellable w
          ((λ c. refl), ((λ c. refl), ((λ c. refl), tt))) calm k stood)
