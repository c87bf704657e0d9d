-- ===== src/Repository/Writes/Leases.antt =====
-- What `heartbeat` of backend/src/engine/repository.ts keeps from `reclaimExpiredLeases`.
use background_job_runner.Prelude.{
  ℕ, ◌+◌, ◌≤◌, ◌≡◌, refl, ap, ◌∙◌, subst, Bool, true, false, List, [], ◌∷◌, map, some, arith,
  filter, length, At, At-map, if_elim,
}
use background_job_runner.Types.{TaskRow}
use background_job_runner.Errors.{ok}
use background_job_runner.Repository.Sql.{Db, statement, guarded}
use background_job_runner.Repository.Schema.{keys_ok, active}
use background_job_runner.Repository.Schema.Keys.{KeepsKeys, keys_ok-map}
use background_job_runner.Repository.Writes.{
  change, update_where, is_beating, leased, is_expired, extend_leases, heartbeat,
}

-- What a heartbeat that returned has done to the task `t` and to the reaper's view of it at `later`.
pub record IsRenewed (lease_ms : ℕ) (excluded : List ℕ) (later : ℕ) (db : Db) (t : TaskRow)
    (db' : Db) : Type 0 where
  pub row : At (leased lease_ms db.now t) db'.tasks
  pub kept : is_expired excluded later (leased lease_ms db.now t) ≡ false
  pub events : db'.events ≡ db.events

module _ (runner_id lease_ms : ℕ) (ids : List ℕ) (now : ℕ) where
  p : TaskRow → Bool
  p = is_beating runner_id ids

  f : TaskRow → TaskRow
  f = leased lease_ms now

  KeepsKeys-leased : KeepsKeys (change p f)
  unfolding f
  KeepsKeys-leased = record {
    id = λ t. if_elim (λ (u : TaskRow). u.id ≡ t.id) (p t) (f t) t (λ _. refl) (λ _. refl);
    user_id =
        λ t. if_elim (λ (u : TaskRow). u.user_id ≡ t.user_id) (p t) (f t) t (λ _. refl) (λ _. refl);
    lane = λ t. if_elim (λ (u : TaskRow). u.lane ≡ t.lane) (p t) (f t) t (λ _. refl) (λ _. refl);
    handle_num = λ t.
        if_elim (λ (u : TaskRow). u.handle_num ≡ t.handle_num) (p t) (f t) t (λ _. refl)
          (λ _. refl);
    active =
        λ t. if_elim (λ u. active u ≡ true → active t ≡ true) (p t) (f t) t (λ _ a. a) (λ _ a. a);
  }

  renewed : (t : TaskRow) → p t ≡ true → change p f t ≡ f t
  renewed t h = rw h refl

heartbeats :
    (runner_id lease_ms i : ℕ) (ids : List ℕ) (db : Db)
    → keys_ok (map (change (is_beating runner_id (i ∷ ids)) (leased lease_ms db.now)) db.tasks)
      ≡ true
    → heartbeat runner_id (i ∷ ids) lease_ms (record db { faults = [] }) ≡ (
      ok (length (map (leased lease_ms db.now) (filter (is_beating runner_id (i ∷ ids)) db.tasks))),
      record db {
        tasks = map (change (is_beating runner_id (i ∷ ids)) (leased lease_ms db.now)) db.tasks;
        faults = [];
      },
    )
unfolding heartbeat extend_leases update_where guarded statement
heartbeats runner_id lease_ms i ids db k = rw k refl

-- On a connection without faults and tables with valid keys, a heartbeat of a runner that executes the
-- task returns and renews its lease; no reaper takes the task back until that lease has passed.
pub heartbeat-IsRenewed :
    (runner_id lease_ms i : ℕ) (ids : List ℕ) (db : Db) (t : TaskRow) (excluded : List ℕ)
    (later : ℕ)
    → db.faults ≡ []
    → keys_ok db.tasks ≡ true
    → At t db.tasks
    → is_beating runner_id (i ∷ ids) t ≡ true
    → later ≤ db.now + lease_ms
    → (n : ℕ) × (db' : Db) × (heartbeat runner_id (i ∷ ids) lease_ms db ≡ (ok n, db'))
      × IsRenewed lease_ms excluded later db t db'
unfolding p f
heartbeat-IsRenewed runner_id lease_ms i ids db t excluded later calm k stood beating soon =
    let g = change (is_beating runner_id (i ∷ ids)) (leased lease_ms db.now) in
    (
      length (map (leased lease_ms db.now) (filter (is_beating runner_id (i ∷ ids)) db.tasks)),
      record db { tasks = map g db.tasks; faults = [] },
      ap (λ fs. heartbeat runner_id (i ∷ ids) lease_ms (record db { faults = fs })) calm
          ∙ heartbeats runner_id lease_ms i ids db
              (keys_ok-map (KeepsKeys-leased runner_id lease_ms (i ∷ ids) db.now) db.tasks k),
      record {
        row =
            subst (λ u. At u (map g db.tasks))
              (renewed runner_id lease_ms (i ∷ ids) db.now t beating) (At-map g stood);
        kept = not_lapsed (db.now + lease_ms) soon;
        events = refl;
      },
    )
  where
    not_lapsed :
        (until : ℕ)
        → later ≤ until
        → is_expired excluded later (record t { lease_until = some until; updated_at = db.now })
          ≡ false
    not_lapsed until h = ground arith
