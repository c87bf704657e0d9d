-- ===== src/Engine/Operations/Counts.antt =====
-- `stats` of backend/src/engine/orchestration-engine.ts over `statsByStatus` of
-- backend/src/engine/repository.ts.
use background_job_runner.Prelude.{
  ℕ, ◌+◌, ◌≡◌, refl, ap, ◌∙◌, sym, List, [], ◌∷◌, arith, ◌==◌, ==_iff, Bool-cases, inl, inr, filter,
  length, if◌then◌else◌,
}
use background_job_runner.Types.{TaskStatus, TaskRow}
use background_job_runner.Errors.{ok}
use background_job_runner.Repository.Sql.{statement, guarded}
use background_job_runner.Repository.Reads.{
  count_status, groups, all_statuses, stats_by_status, query,
}
use background_job_runner.Engine.World.{World}
use background_job_runner.Engine.Operations.{Stats, zeroed, set_count, fill, stats}

-- The number of a user's tasks, status by status.
pub record Counts (user_id : ℕ) (ts : List TaskRow) (s : Stats) : Type 0 where
  pub queued : s.queued ≡ count_status user_id TaskStatus.queued ts
  pub running : s.running ≡ count_status user_id TaskStatus.running ts
  pub ready : s.ready ≡ count_status user_id TaskStatus.ready ts
  pub failed : s.failed ≡ count_status user_id TaskStatus.failed ts
  pub cancelled : s.cancelled ≡ count_status user_id TaskStatus.cancelled ts
  -- each of them is counted once
  pub total :
      s.queued + s.running + s.ready + s.failed + s.cancelled
      ≡ length (filter (λ (t : TaskRow). t.user_id == user_id) ts)

fill-group :
    (s : TaskStatus) (n : ℕ) (rest : List (TaskStatus × ℕ)) (z : Stats)
    → set_count s 0 z ≡ z
    → fill (if n == 0 then rest else (s, n) ∷ rest) z ≡ fill rest (set_count s n z)
unfolding fill
fill-group s n rest z h = elim (Bool-cases (n == 0)) [
  | inl e ↦ let p : n ≡ 0 = (==_iff n 0).0 e in rw p (ap (fill rest) (sym h))
  | inr e ↦ rw e refl
]

-- What the code sends back, in full.
counted : ℕ → List TaskRow → Stats
counted user_id ts = record {
  queued = count_status user_id TaskStatus.queued ts;
  running = count_status user_id TaskStatus.running ts;
  ready = count_status user_id TaskStatus.ready ts;
  failed = count_status user_id TaskStatus.failed ts;
  cancelled = count_status user_id TaskStatus.cancelled ts;
}

fill-nil : (z : Stats) → fill [] z ≡ z
unfolding fill
fill-nil z = refl

fill-groups :
    (user_id : ℕ) (ts : List TaskRow)
    → fill (groups user_id all_statuses ts) zeroed ≡ counted user_id ts
unfolding groups counted
fill-groups user_id ts =
    fill-group TaskStatus.queued _ _ zeroed refl
    ∙ fill-group TaskStatus.running _ _ _ refl
    ∙ fill-group TaskStatus.ready _ _ _ refl
    ∙ fill-group TaskStatus.failed _ _ _ refl
    ∙ fill-group TaskStatus.cancelled _ [] _ refl
    ∙ fill-nil (counted user_id ts)

total_of :
    (user_id : ℕ) (ts : List TaskRow)
    → count_status user_id TaskStatus.queued ts
        + count_status user_id TaskStatus.running ts
        + count_status user_id TaskStatus.ready ts
        + count_status user_id TaskStatus.failed ts
        + count_status user_id TaskStatus.cancelled ts
      ≡ length (filter (λ (t : TaskRow). t.user_id == user_id) ts)
unfolding count_status
total_of user_id [] = omega arith
total_of user_id (t ∷ ts) = ground (arith, total_of user_id ts)

-- On a connection without faults, `stats` returns the number of the user's tasks of each status, 0
-- included, and the five add up to all the user's tasks; it changes no table.
pub stats-Counts :
    (user_id : ℕ) (w : World)
    → w.db.faults ≡ []
    → (s : Stats) × (stats user_id w ≡ (ok s, w)) × Counts user_id w.db.tasks s
unfolding stats stats_by_status query guarded statement
stats-Counts user_id w calm = (
  counted user_id w.db.tasks,
  ap (λ fs. stats user_id (record w { db = record w.db { faults = fs } })) calm
      ∙ ap (λ s. (ok s, record w { db = record w.db { faults = [] } }))
          (fill-groups user_id w.db.tasks)
      ∙ ap (λ fs. (ok (counted user_id w.db.tasks), record w { db = record w.db { faults = fs } }))
          (sym calm),
  unfold counted in
      record {
        queued = refl;
        running = refl;
        ready = refl;
        failed = refl;
        cancelled = refl;
        total = total_of user_id w.db.tasks;
      },
)
