-- ===== src/Engine/Runner/Written.antt =====
-- What the write of a transition does, and its event on the bus: `transition` of `TaskRunner` in
-- backend/src/engine/runner.ts.
use background_job_runner.Prelude.{
  ℕ, ◌≡◌, ◌≢◌, refl, sym, ap, ◌∙◌, subst, Bool, true, false, [], ◌∷◌, ◌++◌, map, Option, none, some,
  arith, filter, head?, ◌==◌, ==_iff, and-true_left, At, At-map, At-filter, if_elim, Bool-cases,
  inl, inr,
}
use background_job_runner.Types.{TaskRow}
use background_job_runner.Types.Events.{TaskEventType, TaskEventRow}
use background_job_runner.Errors.{Result, ok, err}
use background_job_runner.Repository.Sql.{
  Db, statement, guarded, transact, with_transaction, commit,
}
use background_job_runner.Repository.Sql.Rules.{SameTables}
use background_job_runner.Repository.Schema.{keys_ok, active}
use background_job_runner.Repository.Schema.Keys.{KeepsKeys, keys_ok-unique_id}
use background_job_runner.Repository.Writes.{
  change, selects, apply_patch, update_where, update_task, insert_event, append_event, guard_holds,
}
use background_job_runner.Repository.Operations.{TaskWithEvent, TransitionInput, record_write}
use background_job_runner.Repository.Operations as Repository
use background_job_runner.Repository.Operations.Transitions.{
  Outcome, thrown, missed, recorded, Recorded,
}
use background_job_runner.Engine.Bus.{publish, to_engine_event}
use background_job_runner.Engine.World.{World, Action, publish_event}
use background_job_runner.Engine.World as World
use background_job_runner.Engine.Runner.{publish_outcome}

-- Tables and bus are as they were.
pub record Unchanged (w v : World) : Type 0 where
  pub tables : SameTables w.db v.db
  pub bus : v.bus ≡ w.bus

-- What one transition that found its row did: `u` stands in the table, one event tells of it, and
-- that event was published; rows with other ids are still there.
pub record Writes (w v : World) (t u : TaskRow) (type : TaskEventType) : Type 0 where
  pub row : At u v.db.tasks
  pub event : TaskEventRow
  pub typed : event.type ≡ type
  pub tells : event.task_id ≡ t.id
  pub logged : v.db.events ≡ w.db.events ++ event ∷ []
  pub published :
      v.bus
      ≡ publish w.bus
          (to_engine_event (record { event = event; lane = u.lane; handle_num = u.handle_num }))
  pub others : (s : TaskRow) → At s w.db.tasks → s.id ≢ t.id → At s v.db.tasks

module _ (input : TransitionInput) (at : ℕ) where
  -- The rows that the statement selects, and what it makes of one.
  unfoldable pub meets : TaskRow → Bool
  meets = selects input.task_id input.guard

  unfoldable pub patched : TaskRow → TaskRow
  patched = apply_patch input.patch at

  pub Unchanged-publish_outcome :
      (w : World) (r : Result (Option TaskWithEvent) × Db)
      → ((t : TaskRow) → At t w.db.tasks → meets t ≡ false)
      → Outcome input at w.db r
      → Unchanged w (World.continue r.0 publish_outcome (record w { db = r.1 })).1
  unfolding meets
  Unchanged-publish_outcome w (err e, d) away (thrown x h same) = record {
    tables = same;
    bus = refl;
  }
  Unchanged-publish_outcome w (err e, d) away (missed h empty same) = record {
    tables = same;
    bus = refl;
  }
  Unchanged-publish_outcome w (ok none, d) away (thrown x h same) = record {
    tables = same;
    bus = refl;
  }
  Unchanged-publish_outcome w (ok none, d) away (missed h empty same) = record {
    tables = same;
    bus = refl;
  }
  Unchanged-publish_outcome w (ok (some o), d) away (thrown x h same) = absurd (ground arith)
  Unchanged-publish_outcome w (ok (some o), d) away (missed h empty same) = absurd (ground arith)
  Unchanged-publish_outcome w (r, d) away (recorded o h c) =
      let no = away c.before c.stood in let yes = c.held in absurd (cc (sym no ∙ yes))

  commit-record_write :
      (d mid : Db) (o : Option TaskRow)
      → mid.faults ≡ []
      → (a : Option TaskWithEvent) × (fin : Db) × (commit d (record_write input o mid)
          ≡ (ok a, fin))
        × (fin.faults ≡ [])
  unfolding insert_event append_event guarded statement
  commit-record_write d mid none e = rw e (none, mid, rw e refl, e)
  commit-record_write d mid (some t) e = rw e (_, _, refl, refl)

  -- Without faults, a transition that keeps the keys returns, and nothing is left to fail.
  pub transition-returns :
      (db : Db)
      → db.faults ≡ []
      → keys_ok (map (change meets patched) db.tasks) ≡ true
      → (a : Option TaskWithEvent) × (fin : Db) × (Repository.transition input at db ≡ (ok a, fin))
        × (fin.faults ≡ [])
  unfolding Repository.transition with_transaction transact statement update_task guarded
      update_where meets patched
  transition-returns db e k =
      rw (e, k)
        (commit-record_write (record db { faults = [] })
          (record db { tasks = map (change meets patched) db.tasks; faults = [] })
          (head? (map patched (filter meets db.tasks))) refl)

  change-selected : (t : TaskRow) → meets t ≡ true → change meets patched t ≡ patched t
  change-selected t h = rw h refl

  change-other : (s : TaskRow) → meets s ≡ false → change meets patched s ≡ s
  change-other s h = rw h refl

  pub KeepsKeys-change :
      ((t : TaskRow) → meets t ≡ true → active t ≡ true) → KeepsKeys (change meets patched)
  unfolding patched
  KeepsKeys-change alive = record {
    id =
        λ t. if_elim (λ (u : TaskRow). u.id ≡ t.id) (meets t) (patched t) t (λ _. refl) (λ _. refl);
    user_id = λ t.
        if_elim (λ (u : TaskRow). u.user_id ≡ t.user_id) (meets t) (patched t) t (λ _. refl)
          (λ _. refl);
    lane = λ t.
        if_elim (λ (u : TaskRow). u.lane ≡ t.lane) (meets t) (patched t) t (λ _. refl) (λ _. refl);
    handle_num = λ t.
        if_elim (λ (u : TaskRow). u.handle_num ≡ t.handle_num) (meets t) (patched t) t (λ _. refl)
          (λ _. refl);
    active = λ t.
        if_elim (λ u. active u ≡ true → active t ≡ true) (meets t) (patched t) t (λ h _. alive t h)
          (λ _ a. a);
  }

  id-of_selected : (t : TaskRow) → meets t ≡ true → t.id ≡ input.task_id
  unfolding meets
  id-of_selected t h =
      (==_iff t.id input.task_id).0
        (and-true_left (t.id == input.task_id) (guard_holds input.guard t) h)

  unselected : (s : TaskRow) → s.id ≢ input.task_id → meets s ≡ false
  unfolding meets
  unselected s h = elim (Bool-cases (meets s)) [
    | inl e ↦ absurd (h (id-of_selected s e))
    | inr e ↦ e
  ]

  -- The row that was written is the patched one.
  row_is :
      (w : World) (t : TaskRow) (o : TaskWithEvent) (d : Db)
      → keys_ok w.db.tasks ≡ true
      → At t w.db.tasks
      → meets t ≡ true
      → Recorded input at w.db o d
      → o.task ≡ patched t
  unfolding meets patched
  row_is w t o d k i h c =
      c.task
      ∙ ap patched (
          keys_ok-unique_id w.db.tasks c.before t k c.stood i
            (id-of_selected c.before c.held ∙ sym (id-of_selected t h)))

  Writes-recorded :
      (w : World) (t : TaskRow) (o : TaskWithEvent) (d : Db)
      → keys_ok w.db.tasks ≡ true
      → At t w.db.tasks
      → meets t ≡ true
      → Recorded input at w.db o d
      → Writes w (publish_event o.task o.event (record w { db = d })) t (patched t) input.type
  unfolding meets patched publish_event
  Writes-recorded w t o d k i h c =
      let is_t : c.before ≡ t =
        keys_ok-unique_id w.db.tasks c.before t k c.stood i
          (id-of_selected c.before c.held ∙ sym (id-of_selected t h)) in
      let is_row : o.task ≡ patched t = c.task ∙ ap patched is_t in
      record {
        row = subst (At (patched t)) (sym c.tasks) (
            subst (λ u. At u (map (change meets patched) w.db.tasks)) (change-selected t h)
              (At-map (change meets patched) i));
        event = o.event;
        typed = ap (λ (e : TaskEventRow). e.type) c.event;
        tells = ap (λ (e : TaskEventRow). e.task_id) c.event ∙ ap (λ (u : TaskRow). u.id) is_row;
        logged = c.events;
        published =
            ap
              (λ (u : TaskRow). publish w.bus (
                to_engine_event
                  (record { event = o.event; lane = u.lane; handle_num = u.handle_num })))
              is_row;
        others = λ s j apart. subst (At s) (sym c.tasks) (
            subst (λ u. At u (map (change meets patched) w.db.tasks))
              (change-other s (unselected s (λ same. apart (same ∙ sym (id-of_selected t h)))))
              (At-map (change meets patched) j));
      }

  pub Writes-publish_outcome :
      (w : World) (t : TaskRow) (a : Option TaskWithEvent) (d : Db)
      → keys_ok w.db.tasks ≡ true
      → At t w.db.tasks
      → meets t ≡ true
      → Outcome input at w.db (ok a, d)
      → (v : World) × (publish_outcome a (record w { db = d }) ≡ (ok (some (patched t)), v))
        × Writes w v t (patched t) input.type
  unfolding meets
  Writes-publish_outcome w t a d k i h (thrown e bad same) = absurd (ground arith)
  Writes-publish_outcome w t a d k i h (missed e empty same) =
      absurd (nothing (subst (At t) empty (At-filter meets h i)))
    where
      nothing : At t [] → ⊥
      nothing j = elim j [ ]
  Writes-publish_outcome w t none d k i h (recorded o e c) = absurd (ground arith)
  Writes-publish_outcome w t (some q) d k i h (recorded o e c) =
      let same : q ≡ o = ground arith in
      (
        publish_event q.task q.event (record w { db = d }),
        ap (λ u. (ok (some u), publish_event q.task q.event (record w { db = d })))
            (row_is w t q d k i h (rw same c)),
        Writes-recorded w t q d k i h (rw same c),
      )
