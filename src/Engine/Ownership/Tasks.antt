-- ===== src/Engine/Ownership/Tasks.antt =====
-- Whose tasks the operations of backend/src/engine/orchestration-engine.ts return.
use background_job_runner.Prelude.{
  ℕ, ◌≡◌, refl, true, List, [], ◌∷◌, Option, none, some, Text, All, All-map, All-mono, if_elim,
}
use background_job_runner.Types.{TaskRow, TaskStatus, TaskFilters, EngineConfig, Params, status_eq}
use background_job_runner.Errors.{Result, ok, err}
use background_job_runner.Repository.Sql.{Db, Sql}
use background_job_runner.Repository.Sql.Results.{OnOk, OnOk-any}
use background_job_runner.Repository.Reads.{find_by_handle, find_by_id}
use background_job_runner.Repository.Reads
use background_job_runner.Repository.Operations.{
  TransitionInput, TaskWithEvent, AllocateHandleInput,
}
use background_job_runner.Repository.Operations as Repository
use background_job_runner.Engine.Numbers.{Numbers}
use background_job_runner.Engine.Registry.{WorkerDescriptor, validate_params}
use background_job_runner.Engine.World.{
  World, Action, store, continue, ◌>>=◌, ◌>>◌, lift, modify, publish_event,
}
use background_job_runner.Engine.Handles.{Race, allocate_handle_and_insert}
use background_job_runner.Engine.Runner.{transition, publish_outcome, abort}
use background_job_runner.Engine.Operations.{
  Task, to_task, or_not_found, or_conflict, parse_handle, find, get, get_by_id, list, collect,
  cancel, retry, submit, cancel_each, cancel_from, or_next, cancel_input, collect_input,
  retry_input, cancellable,
}
use background_job_runner.Engine.Ownership.{
  Stands, StandsIn, MayStand, MayHold, HoldsNow, find_by_id-MayStand, find_by_handle-MayStand,
  list-Stands, transition-MayHold, allocate_handle_and_insert-Stands,
}

module _ {ℓ κ μ ν} {A : Type ℓ} {B : Type κ} (Q : A → World → Type μ) (P : B → World → Type ν) where
  pub OnOk-then :
      (m : Action A) (f : A → Action B) (w : World)
      → OnOk Q (m w)
      → ((a : A) (w' : World) → Q a w' → OnOk P (f a w'))
      → OnOk P ((m >>= f) w)
  OnOk-then m f w h g = by_result (m w).0 (m w).1 h
    where
      by_result : (r : Result A) (w' : World) → OnOk Q (r, w') → OnOk P (continue r f w')
      by_result (ok a) w' q = g a w' q
      by_result (err e) w' q = tt

-- What holds of a result of the store holds of the action.
OnOk-store {ℓ κ} :
    {A : Type ℓ} (P : A → Db → Type κ) (m : Sql A) (w : World)
    → OnOk P (m w.db)
    → OnOk (λ a (v : World). P a v.db) (store m w)
OnOk-store {A = A} P m w h = by_result (m w.db).0 (m w.db).1 h
  where
    by_result :
        (r : Result A) (d : Db)
        → OnOk P (r, d)
        → OnOk (λ a (v : World). P a v.db) (r, record w { db = d })
    by_result (ok a) d q = q
    by_result (err e) d q = tt

module _ (user_id : ℕ) where
  -- The task is a row of the user in the table, with its handle.
  abbrev pub Owns : Task → World → Type 0
  Owns t w = StandsIn user_id t.row w.db × (t ≡ to_task t.row)

  abbrev RowStands : TaskRow → World → Type 0
  RowStands t w = StandsIn user_id t w.db

  abbrev MayRow : Option TaskRow → World → Type 0
  MayRow o w = MayStand user_id o w.db

  found-Stands : (o : Option TaskRow) (w : World) → MayRow o w → OnOk RowStands (or_not_found o w)
  found-Stands none w h = tt
  found-Stands (some t) w h = h

  conflict-Owns : (o : Option TaskRow) (w : World) → MayRow o w → OnOk Owns (or_conflict o w)
  unfolding to_task
  conflict-Owns none w h = tt
  conflict-Owns (some t) w h = (h, refl)

  transition-MayRow :
      (input : TransitionInput) (at : ℕ) (w : World)
      → input.guard.user_id ≡ some user_id
      → OnOk MayRow (transition input at w)
  unfolding transition publish_event
  transition-MayRow input at w g =
      OnOk-then (λ o (v : World). MayHold user_id o v.db) MayRow
        (store (Repository.transition input at)) publish_outcome w
        (OnOk-store (MayHold user_id) (Repository.transition input at) w
          (transition-MayHold user_id input at w.db g))
        published
    where
      published :
          (o : Option TaskWithEvent) (v : World)
          → MayHold user_id o v.db
          → OnOk MayRow (publish_outcome o v)
      published none v h = tt
      published (some o) v h = h

  pub get_by_id-Owns : (id : ℕ) (w : World) → OnOk Owns (get_by_id user_id id w)
  unfolding get_by_id to_task
  get_by_id-Owns id w =
      OnOk-then MayRow Owns (store (find_by_id user_id id)) _ w
        (OnOk-store (MayStand user_id) (find_by_id user_id id) w
          (find_by_id-MayStand user_id id w.db))
        (λ o v h.
          OnOk-then RowStands Owns (or_not_found o) _ v (found-Stands o v h) (λ t x q. (q, refl)))

  pub list-Owns :
      (filters : TaskFilters) (w : World)
      → OnOk (λ ts v. All (λ t. Owns t v) ts) (list user_id filters w)
  unfolding list to_task
  list-Owns filters w =
      OnOk-then (λ ts (v : World). All (Stands user_id v.db.tasks) ts)
        (λ ts v. All (λ t. Owns t v) ts) (store (Reads.list user_id filters)) _ w
        (OnOk-store (λ ts d. All (Stands user_id d.tasks) ts) (Reads.list user_id filters) w
          (list-Stands user_id filters w.db))
        (λ ts v h. All-map (λ t. Owns t v) to_task ts (All-mono ts (λ t q. (q, refl)) h))

  cancel_each-Owns :
      (id : ℕ) (ss : List TaskStatus) (at : ℕ) (others : World → World) (w : World)
      → OnOk Owns (cancel_each user_id id ss at others w)
  unfolding cancel_each cancel_from to_task abort
  cancel_each-Owns id [] at others w =
      OnOk-then (λ _ _. Unit {0}) Owns (store (find_by_id user_id id)) _ w (OnOk-any _)
        (λ _ _ _. tt)
  cancel_each-Owns id (from ∷ ss) at others w =
      OnOk-then MayRow Owns (cancel_from user_id id from at) _ w
        (transition-MayRow (cancel_input user_id id from) at w refl)
        (next (cancel_each-Owns id ss at others))
    where
      next :
          ((v : World) → OnOk Owns (cancel_each user_id id ss at others v))
          → (o : Option TaskRow) (v : World) → MayRow o v
          → OnOk Owns (or_next id from (modify others >> cancel_each user_id id ss at others) o v)
      next rest none v h = rest (others v)
      next rest (some t) v h =
          if_elim (λ (x : World). StandsIn user_id t x.db × (to_task t ≡ to_task t))
            (status_eq from TaskStatus.running) _ _ (λ _. (h, refl)) (λ _. (h, refl))

  module _ (num : Numbers) where
    find-Stands : (handle : Text) (w : World) → OnOk RowStands (find num user_id handle w)
    unfolding find
    find-Stands handle w =
        OnOk-then (λ _ _. Unit {0}) RowStands (lift (parse_handle num handle)) _ w (OnOk-any _)
          (λ p v _.
            OnOk-then MayRow RowStands (store (find_by_handle user_id p.0 p.1)) or_not_found v
              (OnOk-store (MayStand user_id) (find_by_handle user_id p.0 p.1) v
                (find_by_handle-MayStand user_id p.0 p.1 v.db))
              found-Stands)

    pub get-Owns : (handle : Text) (w : World) → OnOk Owns (get num user_id handle w)
    unfolding get to_task
    get-Owns handle w =
        OnOk-then RowStands Owns (find num user_id handle) _ w (find-Stands handle w)
          (λ t v h. (h, refl))

    pub collect-Owns :
        (handle : Text) (at : ℕ) (w : World) → OnOk Owns (collect num user_id handle at w)
    unfolding collect
    collect-Owns handle at w =
        OnOk-then (λ _ _. Unit {0}) Owns (find num user_id handle) _ w (OnOk-any _)
          (λ t v _.
            OnOk-then MayRow Owns (transition (collect_input user_id t at) at) or_conflict v
              (transition-MayRow (collect_input user_id t at) at v refl) conflict-Owns)

    pub retry-Owns :
        (config : EngineConfig) (handle : Text) (at : ℕ) (w : World)
        → OnOk Owns (retry num config user_id handle at w)
    unfolding retry
    retry-Owns config handle at w =
        OnOk-then (λ _ _. Unit {0}) Owns (find num user_id handle) _ w (OnOk-any _)
          (λ t v _.
            OnOk-then MayRow Owns (transition (retry_input config user_id t at) at) or_conflict v
              (transition-MayRow (retry_input config user_id t at) at v refl) conflict-Owns)

    pub cancel-Owns :
        (handle : Text) (at : ℕ) (others : World → World) (w : World)
        → OnOk Owns (cancel num user_id handle at others w)
    unfolding cancel
    cancel-Owns handle at others w =
        OnOk-then (λ _ _. Unit {0}) Owns (find num user_id handle) _ w (OnOk-any _)
          (λ t v _. cancel_each-Owns t.id cancellable at others v)

    pub submit-Owns :
        (config : EngineConfig) (workers : List WorkerDescriptor) (lane : Text) (params : Params)
        (races : ℕ → Race) (w : World)
        → OnOk Owns (submit num config workers user_id lane params races w)
    unfolding submit to_task publish_event
    submit-Owns config workers lane params races w =
        OnOk-then (λ _ _. Unit {0}) Owns (lift (validate_params num workers lane params)) _ w
          (OnOk-any _)
          (λ p v _.
            let input : AllocateHandleInput = record {
              user_id = user_id;
              lane = lane;
              params = p;
              max_attempts = config.max_attempts;
              use_lane_lock = true;
            } in
            OnOk-then (λ o (x : World). HoldsNow user_id o x.db) Owns
              (store (allocate_handle_and_insert input races)) _ v
              (OnOk-store (HoldsNow user_id) (allocate_handle_and_insert input races) v
                (allocate_handle_and_insert-Stands user_id input races v.db refl))
              (λ o x h. (h, refl)))
