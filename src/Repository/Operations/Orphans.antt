-- ===== src/Repository/Operations/Orphans.antt =====
-- What a boot sweep leaves: `requeueOrphans` of backend/src/engine/repository.ts.
use background_job_runner.Prelude.{
  ℕ, ◌≡◌, false, List, [], ◌∷◌, map, some, arith, All, if_elim, Bool-cases, inl, inr,
}
use background_job_runner.Types.{TaskStatus, TaskRow}
use background_job_runner.Types.Events.{TaskEventType}
use background_job_runner.Repository.Sql.{Db, with_transaction}
use background_job_runner.Repository.Sql.Results.{
  OnOk, OnOk-statement, OnOk-guarded, OnOk-transact, OnOk-bind,
}
use background_job_runner.Repository.Schema.{keys_ok}
use background_job_runner.Repository.Writes.{
  change, update_where, is_orphan, requeue_where, requeued, reclaim_orphans, insert_event,
  append_event, is_some_eq,
}
use background_job_runner.Repository.Writes.Effects.{is_some_eq_lem}
use background_job_runner.Repository.Operations.{record_each, sweep, requeue_orphans}

-- A task that runs, and is no fixture, runs under this runner.
abbrev pub IsAdopted : ℕ → TaskRow → Type 0
IsAdopted runner t = t.status ≡ TaskStatus.running → t.is_seed ≡ false → t.runner_id ≡ some runner

module _ (runner : ℕ) where
  abbrev pub AllAdopted {ℓ} : {A : Type ℓ} → A → Db → Type 0
  AllAdopted a db = All (IsAdopted runner) db.tasks

  IsAdopted-unless_orphan : (t : TaskRow) → is_orphan runner t ≡ false → IsAdopted runner t
  IsAdopted-unless_orphan t h runs plain =
      is_some_eq_lem t.runner_id runner (elim (Bool-cases (is_some_eq t.runner_id runner)) [
        | inl e ↦ e
        | inr e ↦ absurd (ground (arith, h, runs, plain, e))
      ])

  All-requeued :
      (now : ℕ) (ts : List TaskRow)
      → All (IsAdopted runner) (map (change (is_orphan runner) (requeued now)) ts)
  All-requeued now [] = tt
  All-requeued now (t ∷ ts) = (
    if_elim (IsAdopted runner) (is_orphan runner t) (requeued now t) t
        (λ _ runs. absurd (ground arith)) (λ h. IsAdopted-unless_orphan t h),
    All-requeued now ts,
  )

  AllAdopted-record_each :
      (type : TaskEventType) (rows : List TaskRow) (db : Db)
      → All (IsAdopted runner) db.tasks
      → OnOk AllAdopted (record_each runner type rows db)
  unfolding record_each insert_event append_event
  AllAdopted-record_each type [] db h = h
  AllAdopted-record_each type (t ∷ rows) db h =
      OnOk-bind AllAdopted AllAdopted (insert_event _) _ db
        (OnOk-guarded AllAdopted _ db (OnOk-statement AllAdopted _ db (λ fs. h)))
        (λ event d k.
          OnOk-bind AllAdopted AllAdopted (record_each runner type rows) _ d
            (AllAdopted-record_each type rows d k) (λ out v i. i))

  -- When the sweep has returned, every running task that is no fixture is this runner's.
  pub requeue_orphans-AllAdopted : (db : Db) → OnOk AllAdopted (requeue_orphans runner db)
  unfolding requeue_orphans sweep with_transaction reclaim_orphans requeue_where update_where
  requeue_orphans-AllAdopted db =
      OnOk-transact AllAdopted db _ db (λ a d fs h. h)
        (λ fs.
          OnOk-bind AllAdopted AllAdopted (reclaim_orphans runner)
            (record_each runner TaskEventType.requeued_on_restart) (record db { faults = fs })
            (OnOk-guarded AllAdopted _ (record db { faults = fs })
              (OnOk-statement AllAdopted _ (record db { faults = fs })
                (λ gs.
                  if_elim (OnOk AllAdopted)
                    (keys_ok (map (change (is_orphan runner) (requeued db.now)) db.tasks)) _ _
                    (λ _. All-requeued db.now db.tasks) (λ _. tt))))
            (λ rows d h. AllAdopted-record_each TaskEventType.requeued_on_restart rows d h))
