-- ===== src/Engine/Ownership.antt =====
-- Whose rows the store returns: the queries and units of work of backend/src/engine/repository.ts that take
-- a user, and the allocation of backend/src/engine/handles.ts.
pub mod Tasks
use background_job_runner.Prelude.{
  ltb, ℕ, zero, suc, ◌≡◌, refl, ap, sym, ◌∙◌, subst, Bool, true, false, ◌&&◌, List, [], ◌∷◌, map,
  Option, none, some, arith, some_injective, ◌==◌, ==_iff, and-true_right, and-true_left, At,
  at_head, at_tail, At-filter_inv, At-map, filter, head?, if_elim, if◌then◌else◌, Text, All,
  All-mono, All-of_at, All-map, All-take, All-drop,
}
use background_job_runner.Types.{TaskRow, TaskFilters, EngineConfig, TaskStatus}
use background_job_runner.Errors.{Thrown, Result, ok, err, not_error}
use background_job_runner.Repository.Sql.{Db, Sql, statement, guarded}
use background_job_runner.Repository.Sql.Results.{
  OnOk, IgnoresFaults, OnOk-statement, OnOk-guarded, OnOk-transact, OnOk-bind, OnOk-any,
}
use background_job_runner.Repository.Sql.{◌>>=◌}
use background_job_runner.Repository.Writes.{
  if_given, bool_eq, NewTask, guard_holds, selects, apply_patch, change, insert_row,
  insert_at_next_handle, insert_in_gap, insert_event, append_event,
}
use background_job_runner.Repository.Reads.{
  max_integer, find_by_id, find_by_handle, query, created_ge, given_or, list_order, matches,
}
use background_job_runner.Repository.Reads
use background_job_runner.Repository.Schema.{has_handle, keys_ok}
use background_job_runner.Prelude.Sort.{All-sort_by}
use background_job_runner.Repository.Operations.{
  TransitionInput, TaskWithEvent, AllocateHandleInput, allocate_handle, accept, accepted_event,
  as_outcome, new_task, lock_if_used, lock_lane,
}
use background_job_runner.Repository.Operations as Repository
use background_job_runner.Repository.Operations.Transitions.{
  Outcome, thrown, missed, recorded, Recorded, transition-Outcome,
}
use background_job_runner.Engine.Handles.{
  Race, or_retry, allocate_from, allocate_handle_and_insert, max_allocation_attempts,
}
use background_job_runner.Repository.Sql.{is_unique_violation}
use background_job_runner.Engine.World.{World, Action, store, continue}
use background_job_runner.Engine.Runner.{transition, publish_outcome}
use background_job_runner.Engine.Operations.{Task, to_task}

-- The row stands in the table and is the user's.
abbrev pub Stands : ℕ → List TaskRow → TaskRow → Type 0
Stands user_id ts t = At t ts × (t.user_id ≡ user_id)

-- The same of a row that there may be.
abbrev pub MayStand : ℕ → Option TaskRow → Db → Type 0
MayStand user_id none db = Unit
MayStand user_id (some t) db = Stands user_id db.tasks t

abbrev pub StandsIn : ℕ → TaskRow → Db → Type 0
StandsIn user_id t db = Stands user_id db.tasks t

module _ (user_id : ℕ) where
  All-Stands :
      (p : TaskRow → Bool) (ts : List TaskRow)
      → ((t : TaskRow) → p t ≡ true → t.user_id ≡ user_id)
      → All (Stands user_id ts) (filter p ts)
  All-Stands p ts h =
      All-of_at (filter p ts) (λ t i. let (j, q) = At-filter_inv p t ts i in (j, h t q))

  head-MayStand :
      (db : Db) (ts : List TaskRow)
      → All (Stands user_id db.tasks) ts
      → MayStand user_id (head? ts) db
  head-MayStand db [] h = tt
  head-MayStand db (t ∷ ts) h = h.0

  OnOk-query :
      {A : Type 0} (P : A → Db → Type 0) (f : Db → A) (db : Db)
      → ((fs : List (Option Thrown))
          → P (f (record db { faults = fs })) (record db { faults = fs }))
      → OnOk P (query f db)
  unfolding query
  OnOk-query P f db h = OnOk-guarded P _ db (OnOk-statement P _ db h)

  pub find_by_id-MayStand : (id : ℕ) (db : Db) → OnOk (MayStand user_id) (find_by_id user_id id db)
  unfolding find_by_id
  find_by_id-MayStand id db = OnOk-query (MayStand user_id) _ db (λ fs.
      head-MayStand (record db { faults = fs }) _
        (All-Stands (λ t. t.id == id && t.user_id == user_id) db.tasks (λ t h. ground arith)))

  pub find_by_handle-MayStand :
      (lane : Text) (n : ℕ) (db : Db) → OnOk (MayStand user_id) (find_by_handle user_id lane n db)
  unfolding find_by_handle
  find_by_handle-MayStand lane n db =
      if_elim (λ (m : Sql (Option TaskRow)). OnOk (MayStand user_id) (m db)) (ltb max_integer n) _ _
        (λ _.
          OnOk-guarded (MayStand user_id) _ db (OnOk-statement (MayStand user_id) _ db (λ fs. tt)))
        (λ _. OnOk-query (MayStand user_id) _ db (λ fs.
          head-MayStand (record db { faults = fs }) _
            (All-sort_by created_ge (Stands user_id db.tasks) _
              (All-Stands (has_handle user_id lane n) db.tasks (λ t h. ground arith)))))

  pub list-Stands :
      (filters : TaskFilters) (db : Db)
      → OnOk (λ ts db'. All (Stands user_id db'.tasks) ts) (Reads.list user_id filters db)
  unfolding Reads.list
  list-Stands filters db =
      OnOk-query (λ ts db'. All (Stands user_id db'.tasks) ts) _ db
        (λ fs. All-take (Stands user_id db.tasks) _ _ (
          All-drop (Stands user_id db.tasks) (given_or filters.offset 0) _ (
            All-sort_by (list_order filters.sort) (Stands user_id db.tasks) _
              (All-Stands (matches user_id filters) db.tasks (λ t h. ground arith)))))

  -- What a transition of the user's rows returns stands in the table that it leaves.
  abbrev pub MayHold : Option TaskWithEvent → Db → Type 0
  MayHold none db = Unit
  MayHold (some o) db = StandsIn user_id o.task db

  abbrev pub HoldsNow : TaskWithEvent → Db → Type 0
  HoldsNow o db = StandsIn user_id o.task db

  guard_user :
      (input : TransitionInput) (t : TaskRow)
      → input.guard.user_id ≡ some user_id
      → selects input.task_id input.guard t ≡ true
      → t.user_id ≡ user_id
  guard_user input t g h = by_user input.guard.user_id g (
      and-true_left (if_given input.guard.user_id (λ u. t.user_id == u)) _ (
        and-true_left (if_given input.guard.user_id (λ u. t.user_id == u) && _) _ (
          and-true_left _ (if_given input.guard.collected (λ c. bool_eq t.collected c))
            (and-true_right (t.id == input.task_id) (guard_holds input.guard t) h))))
    where
      by_user :
          (o : Option ℕ)
          → o ≡ some user_id
          → if_given o (λ u. t.user_id == u) ≡ true
          → t.user_id ≡ user_id
      by_user none e q = absurd (ground arith)
      by_user (some u) e q = (==_iff t.user_id u).0 q ∙ some_injective e

  change-Stands :
      (input : TransitionInput) (at : ℕ) (db : Db) (o : TaskWithEvent) (db' : Db)
      → input.guard.user_id ≡ some user_id
      → Recorded input at db o db'
      → StandsIn user_id o.task db'
  change-Stands input at db o db' g c =
      let p = selects input.task_id input.guard in
      let f = apply_patch input.patch at in
      let moved : At (change p f c.before) db'.tasks =
        subst (At (change p f c.before)) (sym c.tasks) (At-map (change p f) c.stood) in
      let is : change p f c.before ≡ o.task =
        ap (λ b. if b then f c.before else c.before) c.held ∙ sym c.task in
      (
        subst (λ t. At t db'.tasks) is moved,
        ap (λ (t : TaskRow). t.user_id) c.task ∙ guard_user input c.before g c.held,
      )

  pub transition-MayHold :
      (input : TransitionInput) (at : ℕ) (db : Db)
      → input.guard.user_id ≡ some user_id
      → OnOk MayHold (Repository.transition input at db)
  transition-MayHold input at db g =
      by_outcome (Repository.transition input at db) (transition-Outcome input at db)
    where
      by_outcome : (r : Result (Option TaskWithEvent) × Db) → Outcome input at db r → OnOk MayHold r
      by_outcome (err e, d) o = tt
      by_outcome (ok none, d) o = tt
      by_outcome (ok (some x), d) (thrown e h same) = absurd (ground arith)
      by_outcome (ok (some x), d) (missed h empty same) = absurd (ground arith)
      by_outcome (ok (some x), d) (recorded o h c) =
          subst (λ r. OnOk MayHold (r, d)) (sym h) (change-Stands input at db o d g c)

  insert_at_next-Stands :
      (task : NewTask) (others : List TaskRow → List TaskRow) (db : Db)
      → task.user_id ≡ user_id
      → OnOk (StandsIn user_id) (insert_at_next_handle task others db)
  unfolding insert_at_next_handle insert_in_gap insert_row
  insert_at_next-Stands task others db h = OnOk-guarded (StandsIn user_id) _ db (
      OnOk-statement (StandsIn user_id) _ db (λ fs.
        if_elim (OnOk (StandsIn user_id)) (keys_ok (_ ∷ others db.tasks)) _ _ (λ _. (at_head, h))
          (λ _. tt)))

  accept-Stands :
      (input : AllocateHandleInput) (task : TaskRow) (db : Db)
      → StandsIn user_id task db
      → OnOk HoldsNow (accept input task db)
  unfolding insert_event append_event
  accept-Stands input task db h =
      OnOk-bind (λ e db'. StandsIn user_id task db') HoldsNow
        (insert_event (accepted_event input task)) (as_outcome task) db
        (OnOk-guarded (λ e db'. StandsIn user_id task db') _ db
          (OnOk-statement (λ e db'. StandsIn user_id task db') _ db (λ fs. h)))
        (λ e db' q. q)

  allocate_handle-Stands :
      (input : AllocateHandleInput) (id : ℕ) (others : List TaskRow → List TaskRow) (db : Db)
      → input.user_id ≡ user_id
      → OnOk HoldsNow (allocate_handle input id others db)
  unfolding allocate_handle
  allocate_handle-Stands input id others db h =
      OnOk-transact HoldsNow _ _ db (λ o d fs q. q)
        (λ fs.
          OnOk-bind (λ _ _. Unit {0}) HoldsNow (lock_if_used input)
            (λ _. insert_at_next_handle (new_task input id) others >>= accept input) _
            (OnOk-any (lock_if_used input _))
            (λ _ d _.
              OnOk-bind (StandsIn user_id) HoldsNow
                (insert_at_next_handle (new_task input id) others) (accept input) d
                (insert_at_next-Stands (new_task input id) others d h)
                (λ t d' q. accept-Stands input t d' q)))

  or_retry-Stands :
      (r : Result TaskWithEvent) (retry : Thrown → Sql TaskWithEvent) (db : Db)
      → OnOk HoldsNow (r, db)
      → ((e : Thrown) → OnOk HoldsNow (retry e db))
      → OnOk HoldsNow (or_retry r retry db)
  or_retry-Stands (ok a) retry db h g = h
  or_retry-Stands (err e) retry db h g =
      if_elim (OnOk HoldsNow) (is_unique_violation e) _ _ (λ _. g e) (λ _. tt)

  allocate_from-Stands :
      (left attempt : ℕ) (input : AllocateHandleInput) (races : ℕ → Race) (last : Thrown) (db : Db)
      → input.user_id ≡ user_id
      → OnOk HoldsNow (allocate_from left attempt input races last db)
  unfolding allocate_from
  allocate_from-Stands zero attempt input races last db h = tt
  allocate_from-Stands (suc left) attempt input races last db h =
      let (r, db') = allocate_handle input (races attempt).id (races attempt).others db in
      or_retry-Stands r (allocate_from left (suc attempt) input races) db'
        (allocate_handle-Stands input (races attempt).id (races attempt).others db h)
        (λ e. allocate_from-Stands left (suc attempt) input races e db' h)

  -- The task that an allocation returns stands in the table, whatever races and faults it met.
  pub allocate_handle_and_insert-Stands :
      (input : AllocateHandleInput) (races : ℕ → Race) (db : Db)
      → input.user_id ≡ user_id
      → OnOk HoldsNow (allocate_handle_and_insert input races db)
  unfolding allocate_handle_and_insert
  allocate_handle_and_insert-Stands input races db h =
      allocate_from-Stands max_allocation_attempts 1 input races not_error db h
