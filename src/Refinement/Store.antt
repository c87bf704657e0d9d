-- ===== src/Refinement/Store.antt =====
-- The operations of backend/src/engine/repository.ts against the life of tasks.
use background_job_runner.Prelude.{
  ℕ, ◌+◌, ◌≤◌, if◌then◌else◌, ◌==◌, ◌≡◌, refl, ◌∙◌, ap, sym, subst, Bool, true, false, ◌&&◌, not,
  List, [], ◌∷◌, map, Option, none, some, arith, All, At, All-of_at, All-at, At-filter_inv,
  All-take, if_elim, any-map, any-witness, ==_iff, and-true_left, head?,
}
use background_job_runner.Prelude.Sort.{All-sort_by}
use background_job_runner.Types.{TaskStatus, TaskRow}
use background_job_runner.Types.Events.{TaskEventType}
use background_job_runner.Errors.{Result}
use background_job_runner.Repository.Sql.{Db, Sql, pure, ◌>>=◌, statement, guarded}
use background_job_runner.Repository.Sql.Rules.{transact_rule}
use background_job_runner.Repository.Schema.{keys_ok}
use background_job_runner.Repository.Schema.Keys.{keys_ok-unique_id}
use background_job_runner.Repository.Slot.{used, slot}
use background_job_runner.Repository.Slot.Lowest.{slot-IsLowestFree}
use background_job_runner.Repository.Writes.{
  NewTask, NewEvent, new_row, insert_row, insert_in_gap, insert_at_next_handle, append_event,
  insert_event, first_row, update_task, selects, apply_patch, is_runnable, id_in, picked,
  created_le, claim_rows, claim, requeue_where, is_orphan, reclaim_orphans, is_expired,
  reclaim_expired_leases, is_beating, extend_leases, heartbeat,
}
use background_job_runner.Repository.Operations.{
  TaskWithEvent, AllocateHandleInput, new_task, accepted_event, as_outcome, accept, lock_lane,
  lock_if_used, allocate_handle, TransitionInput, with_event, record_write, transition, record_each,
  sweep, requeue_orphans, requeue_expired_leases,
}
use background_job_runner.Repository.Reads.{query}
use background_job_runner.Lifecycle.{
  Edge, claimed, renewed, requeued as requeued_edge, IsNew, add, still,
}
use background_job_runner.Lifecycle.Ranks.{IsRanked-insert}
use background_job_runner.Refinement.Rules.{
  Advances, Advances-refl, Grows, Grows-pure, Grows-statement, Grows-guarded,
  Grows-with_transaction, Grows-bind, Advances-update_where,
}

pub Grows-query {ℓ} : {A : Type ℓ} (f : Db → A) → Grows (query f)
unfolding query
Grows-query f =
    Grows-guarded _ (Grows-statement _ (record { at = λ db k. Advances-refl db.tasks k }))

pub Grows-insert_event : (e : NewEvent) → Grows (insert_event e)
unfolding insert_event append_event
Grows-insert_event e =
    Grows-guarded (statement (append_event e))
      (Grows-statement (append_event e) (record { at = λ db k. Advances-refl db.tasks k }))

-- What the claim picks are rows of the table that are runnable.
pub picked-All :
    (locked : List ℕ) (limit now : ℕ) (ts : List TaskRow)
    → All (λ t. At t ts × (is_runnable now t ≡ true)) (picked locked limit now ts)
unfolding picked
picked-All locked limit now ts = All-take _ limit _ (
    All-sort_by created_le _ _ (
      All-of_at _ λ t i.
        let (j, h) = At-filter_inv (λ u. is_runnable now u && not (id_in locked u)) t ts i in
        (j, and-true_left (is_runnable now t) (not (id_in locked t)) h)))

-- A row whose id was picked is itself runnable, as ids are unique.
pub runnable-of_picked :
    (locked : List ℕ) (limit now : ℕ) (ts : List TaskRow) (t : TaskRow)
    → keys_ok ts ≡ true
    → At t ts
    → id_in (map (λ u. u.id) (picked locked limit now ts)) t ≡ true
    → is_runnable now t ≡ true
runnable-of_picked locked limit now ts t k i h =
    let chosen = picked locked limit now ts in
    let (u, j, e) =
      any-witness (λ v. v.id == t.id) chosen
        (sym (any-map (λ i. i == t.id) (λ v. v.id) chosen) ∙ h) in
    let (stood, runs) = All-at _ (picked-All locked limit now ts) j in
    let same : u ≡ t = keys_ok-unique_id ts u t k stood i ((==_iff u.id t.id).0 e) in
    rw same at runs

queued-of_runnable :
    (now : ℕ) (t : TaskRow) → is_runnable now t ≡ true → t.status ≡ TaskStatus.queued
queued-of_runnable now t h = ground arith

pub Grows-claim :
    (runner lease limit : ℕ) (locked : List ℕ) → Grows (claim runner lease limit locked)
unfolding claim claim_rows
Grows-claim runner lease limit locked = Grows-guarded _ (
    Grows-statement (claim_rows runner lease limit locked) (record {
      at = λ db k. Advances-update_where _ _ db k λ t i h.
          claimed runner (db.now + lease) db.now
            (queued-of_runnable db.now t (runnable-of_picked locked limit db.now db.tasks t k i h))
            refl;
    }))

pub Grows-requeue_where :
    (p : ℕ → TaskRow → Bool)
    → ((now : ℕ) (t : TaskRow) → p now t ≡ true → t.status ≡ TaskStatus.running)
    → Grows (guarded (statement (requeue_where p)))
unfolding requeue_where
Grows-requeue_where p running = Grows-guarded _ (
    Grows-statement (requeue_where p) (record {
      at = λ db k.
          Advances-update_where _ _ db k λ t i h. requeued_edge db.now (running db.now t h) refl;
    }))

running-of_orphan :
    (runner : ℕ) (t : TaskRow) → is_orphan runner t ≡ true → t.status ≡ TaskStatus.running
running-of_orphan runner t h = ground arith

running-of_expired :
    (ids : List ℕ) (now : ℕ) (t : TaskRow)
    → is_expired ids now t ≡ true
    → t.status ≡ TaskStatus.running
running-of_expired ids now t h = ground arith

running-of_beating :
    (runner : ℕ) (ids : List ℕ) (t : TaskRow)
    → is_beating runner ids t ≡ true
    → t.status ≡ TaskStatus.running
running-of_beating runner ids t h = ground arith

pub Grows-heartbeat : (runner : ℕ) (ids : List ℕ) (lease : ℕ) → Grows (heartbeat runner ids lease)
unfolding heartbeat extend_leases
Grows-heartbeat runner [] lease = Grows-pure 0
Grows-heartbeat runner (i ∷ ids) lease = Grows-guarded _ (
    Grows-statement (extend_leases runner (i ∷ ids) lease) (record {
      at = λ db k.
          Advances-update_where _ _ db k
            λ t j h. renewed (db.now + lease) db.now (running-of_beating runner (i ∷ ids) t h) refl;
    }))

pub Grows-record_each :
    (runner : ℕ) (type : TaskEventType) (rows : List TaskRow) → Grows (record_each runner type rows)
unfolding record_each
Grows-record_each runner type [] = Grows-pure []
Grows-record_each runner type (t ∷ rows) =
    Grows-bind _ _ (Grows-insert_event _)
      λ event. Grows-bind _ _ (Grows-record_each runner type rows) λ out. Grows-pure _

pub Grows-sweep :
    (reclaim : Sql (List TaskRow)) (runner : ℕ) (type : TaskEventType)
    → Grows reclaim
    → Grows (sweep reclaim runner type)
unfolding sweep
Grows-sweep reclaim runner type g =
    Grows-with_transaction _ (Grows-bind reclaim _ g (λ rows. Grows-record_each runner type rows))

pub Grows-requeue_orphans : (runner : ℕ) → Grows (requeue_orphans runner)
unfolding requeue_orphans reclaim_orphans
Grows-requeue_orphans runner =
    Grows-sweep _ runner TaskEventType.requeued_on_restart
      (Grows-requeue_where _ (λ now t. running-of_orphan runner t))

pub Grows-requeue_expired_leases :
    (runner : ℕ) (ids : List ℕ) → Grows (requeue_expired_leases runner ids)
unfolding requeue_expired_leases reclaim_expired_leases
Grows-requeue_expired_leases runner ids =
    Grows-sweep _ runner TaskEventType.lease_expired
      (Grows-requeue_where _ (λ now t. running-of_expired ids now t))

-- A transition takes an edge if its patch does, from every row that its guard selects.
pub Grows-transition :
    (input : TransitionInput) (at : ℕ)
    → ((t : TaskRow)
        → selects input.task_id input.guard t ≡ true
        → Edge t (apply_patch input.patch at t))
    → Grows (transition input at)
unfolding transition update_task
Grows-transition input at edge = Grows-with_transaction _ (
    Grows-bind (update_task input.task_id input.patch input.guard at) (record_write input)
      (Grows-guarded _ (
        Grows-bind _ first_row
          (Grows-statement _
            (record { at = λ db k. Advances-update_where _ _ db k (λ t i h. edge t h) }))
          (λ rows. Grows-pure (head? rows))))
      Grows-record_write)
  where
    Grows-record_write : (o : Option TaskRow) → Grows (record_write input o)
    Grows-record_write none = Grows-pure none
    Grows-record_write (some task) =
        Grows-bind _ (with_event task) (Grows-insert_event _) (λ event. Grows-pure _)

-- Other sessions do what the engine may do.
abbrev pub IsPeaceful : (List TaskRow → List TaskRow) → Type 0
IsPeaceful others = (ts : List TaskRow) → keys_ok ts ≡ true → Advances ts (others ts)

new_row-IsNew : (task : NewTask) (n now : ℕ) → 1 ≤ n → IsNew (new_row task n now)
new_row-IsNew task n now h = ground arith

pub Grows-insert_at_next_handle :
    (task : NewTask) (others : List TaskRow → List TaskRow)
    → IsPeaceful others
    → Grows (insert_at_next_handle task others)
unfolding insert_at_next_handle insert_in_gap insert_row
Grows-insert_at_next_handle task others peace = Grows-guarded _ (
    Grows-statement (insert_in_gap task others) (record {
      at = λ db k.
          let n = slot (used task.user_id task.lane db.tasks) in
          let row = new_row task n db.now in
          let calm = peace db.tasks k in
          let new =
            new_row-IsNew task n db.now
              (slot-IsLowestFree (used task.user_id task.lane db.tasks)).positive in
          if_elim (λ (r : Result TaskRow × Db). Advances db.tasks r.1.tasks)
            (keys_ok (row ∷ others db.tasks)) _ _
            (λ h. record {
              evolves = add new still calm.evolves;
              keys = h;
              ranks = λ r. IsRanked-insert row (others db.tasks) new h (calm.ranks r);
            })
            (λ _. calm);
    }))

pub Grows-allocate_handle :
    (input : AllocateHandleInput) (id : ℕ) (others : List TaskRow → List TaskRow)
    → IsPeaceful others
    → Grows (allocate_handle input id others)
unfolding allocate_handle lock_lane
Grows-allocate_handle input id others peace = record {
  at = λ db k.
      transact_rule (λ r. Advances db.tasks r.1.tasks) (block)
        (record db { tasks = others db.tasks }) db
        (λ e db' same. subst (Advances db.tasks) (sym same.tasks) (peace db.tasks k))
        (λ fs gs a db' ran.
          subst (Advances db.tasks) (ap (λ (r : Result TaskWithEvent × Db). r.1.tasks) ran)
            (Grows-block.at (record db { faults = fs }) k));
}
  where
    block : Sql TaskWithEvent
    block = lock_if_used input >>= λ _.
        insert_at_next_handle (new_task input id) others >>= accept input

    Grows-lock : (b : Bool) → Grows (if b then lock_lane else pure tt)
    Grows-lock true = Grows-guarded _ (Grows-statement (pure tt) (Grows-pure tt))
    Grows-lock false = Grows-pure tt

    Grows-block : Grows block
    Grows-block = Grows-bind (lock_if_used input) _ (Grows-lock input.use_lane_lock) λ _.
        Grows-bind (insert_at_next_handle (new_task input id) others) (accept input)
          (Grows-insert_at_next_handle (new_task input id) others peace)
          λ task.
            Grows-bind (insert_event (accepted_event input task)) (as_outcome task)
              (Grows-insert_event (accepted_event input task)) (λ event. Grows-pure _)
