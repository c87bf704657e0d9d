-- ===== src/Engine/Runner/Transitions.antt =====
-- `transition` of `TaskRunner` in backend/src/engine/runner.ts: the write, and the event on the bus.
use background_job_runner.Prelude.{
  ℕ, ◌≡◌, refl, sym, ap, ◌∙◌, subst, true, false, [], Option, none, some, arith, At,
}
use background_job_runner.Types.{TaskRow}
use background_job_runner.Errors.{Result, ok}
use background_job_runner.Repository.Sql.{Db}
use background_job_runner.Repository.Schema.{keys_ok, active}
use background_job_runner.Repository.Schema.Keys.{keys_ok-map}
use background_job_runner.Repository.Writes.{selects, apply_patch}
use background_job_runner.Repository.Operations.{TaskWithEvent, TransitionInput, record_write}
use background_job_runner.Repository.Operations as Repository
use background_job_runner.Repository.Operations.Transitions.{
  Outcome, thrown, missed, recorded, transition-Outcome,
}
use background_job_runner.Engine.World.{World, Action, publish_event}
use background_job_runner.Engine.World as World
use background_job_runner.Engine.Runner.{publish_outcome, transition}
use background_job_runner.Engine.Runner.Written.{
  Unchanged, Writes, meets, patched, Unchanged-publish_outcome, transition-returns,
  KeepsKeys-change, Writes-publish_outcome,
}

module _ (input : TransitionInput) (at : ℕ) where
  -- A transition whose guard no row meets changes neither the tables nor the bus.
  pub Unchanged-transition :
      (w : World)
      → ((t : TaskRow) → At t w.db.tasks → selects input.task_id input.guard t ≡ false)
      → Unchanged w (transition input at w).1
  unfolding transition meets
  Unchanged-transition w away =
      Unchanged-publish_outcome input at w (Repository.transition input at w.db) away
        (transition-Outcome input at w.db)

  -- A transition whose guard the row `t` meets returns, if the connection has no faults, the keys are
  -- valid and the guard is met by active rows only; and it writes the patched row with its event.
  pub transition-Writes :
      (w : World) (t : TaskRow)
      → w.db.faults ≡ []
      → keys_ok w.db.tasks ≡ true
      → ((s : TaskRow) → selects input.task_id input.guard s ≡ true → active s ≡ true)
      → At t w.db.tasks
      → selects input.task_id input.guard t ≡ true
      → (v : World) × (transition input at w ≡ (ok (some (apply_patch input.patch at t)), v))
        × Writes w v t (apply_patch input.patch at t) input.type
  unfolding transition meets patched
  transition-Writes w t calm k alive i h =
      let (a, d, ran, quiet) =
        transition-returns input at w.db calm
          (keys_ok-map (KeepsKeys-change input at alive) w.db.tasks k) in
      let (v, told, writes) =
        Writes-publish_outcome input at w t a d k i h
          (subst (Outcome input at w.db) ran (transition-Outcome input at w.db)) in
      (v, ap published_as ran ∙ told, writes)
    where
      published_as : Result (Option TaskWithEvent) × Db → Result (Option TaskRow) × World
      published_as r = World.continue r.0 publish_outcome (record w { db = r.1 })

  skipped :
      (w : World) (a : Option TaskWithEvent) (d : Db)
      → ((t : TaskRow) → At t w.db.tasks → selects input.task_id input.guard t ≡ false)
      → Outcome input at w.db (ok a, d)
      → publish_outcome a (record w { db = d }) ≡ (ok none, record w { db = d })
  unfolding meets
  skipped w a d away (thrown e bad same) = absurd (ground arith)
  skipped w none d away (missed e empty same) = refl
  skipped w (some q) d away (missed e empty same) = absurd (ground arith)
  skipped w a d away (recorded o e c) =
      let no = away c.before c.stood in let yes = c.held in absurd (cc (sym no ∙ yes))

  -- A transition whose guard no row meets returns nothing and changes nothing.
  pub transition-skips :
      (w : World)
      → w.db.faults ≡ []
      → keys_ok w.db.tasks ≡ true
      → ((s : TaskRow) → selects input.task_id input.guard s ≡ true → active s ≡ true)
      → ((t : TaskRow) → At t w.db.tasks → selects input.task_id input.guard t ≡ false)
      → (v : World) × (transition input at w ≡ (ok none, v)) × Unchanged w v × (v.db.faults ≡ [])
  unfolding transition meets patched
  transition-skips w calm k alive away =
      let (a, d, ran, quiet) =
        transition-returns input at w.db calm
          (keys_ok-map (KeepsKeys-change input at alive) w.db.tasks k) in
      let told =
        skipped w a d away (subst (Outcome input at w.db) ran (transition-Outcome input at w.db)) in
      let is : transition input at w ≡ (ok none, record w { db = d }) =
        ap published_as ran ∙ told in
      (
        record w { db = d },
        is,
        subst (λ (r : Result (Option TaskRow) × World). Unchanged w r.1) is
            (Unchanged-transition w away),
        quiet,
      )
    where
      published_as : Result (Option TaskWithEvent) × Db → Result (Option TaskRow) × World
      published_as r = World.continue r.0 publish_outcome (record w { db = r.1 })
