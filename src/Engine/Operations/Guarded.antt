-- ===== src/Engine/Operations/Guarded.antt =====
-- `collect` and `retry` of backend/src/engine/orchestration-engine.ts: one conditional update of the task
-- that the handle names.
use background_job_runner.Prelude.{
  ℕ, ltb, if_elim, if◌then◌else◌, ◌≡◌, refl, sym, ap, ◌∙◌, subst, true, false, List, [], ◌∷◌,
  Option, arith, filter, head?, At, At-filter_inv, All, All-of_at, Bool-cases, inl, inr, ◌==◌,
  ==_iff, and-true_left, Text,
}
use background_job_runner.Prelude.Sort.{sort_by, All-sort_by}
use background_job_runner.Types.{TaskRow, EngineConfig}
use background_job_runner.Errors.{Result, ok, err, app_error, conflict}
use background_job_runner.Repository.Sql.{statement, guarded, rethrown}
use background_job_runner.Repository.Schema.{keys_ok, active, has_handle}
use background_job_runner.Repository.Schema.Keys.{keys_ok-unique_id}
use background_job_runner.Repository.Writes.{selects, apply_patch, guard_holds}
use background_job_runner.Repository.Operations.{TransitionInput}
use background_job_runner.Repository.Reads.{
  query, created_ge, max_integer, out_of_range, find_by_handle,
}
use background_job_runner.Engine.Numbers.{Numbers}
use background_job_runner.Engine.World.{World, continue, store, ◌>>=◌}
use background_job_runner.Engine.Runner.{transition}
use background_job_runner.Engine.Runner.Written.{Writes, Unchanged}
use background_job_runner.Engine.Runner.Transitions.{transition-Writes, transition-skips}
use background_job_runner.Engine.Operations.{
  Task, to_task, parse_handle, or_not_found, or_conflict, collect_input, retry_input, find, collect,
  retry,
}

-- How a guarded operation on the task `t` ends: its guard holds of the task, which is patched, with one
-- event, and returned; or it does not, the operation throws a conflict, and nothing is changed.
pub data Guarded (input : TransitionInput) (at : ℕ) (w : World) (t : TaskRow)
    : Result Task × World → Type 0 where
  done :
      (v : World)
      → selects input.task_id input.guard t ≡ true
      → Writes w v t (apply_patch input.patch at t) input.type
      → Guarded input at w t (ok (to_task (apply_patch input.patch at t)), v)
  refused :
      (v : World)
      → selects input.task_id input.guard t ≡ false
      → Unchanged w v
      → Guarded input at w t (err (app_error conflict), v)

module _ (input : TransitionInput) (at : ℕ) (w : World) (t : TaskRow) where
  pub away :
      keys_ok w.db.tasks ≡ true
      → At t w.db.tasks
      → t.id ≡ input.task_id
      → selects input.task_id input.guard t ≡ false
      → (s : TaskRow) → At s w.db.tasks
      → selects input.task_id input.guard s ≡ false
  away k i same h s j = elim (Bool-cases (selects input.task_id input.guard s)) [
    | inr e ↦ e
    | inl e ↦
        let q : s.id ≡ input.task_id =
          (==_iff s.id input.task_id).0
            (and-true_left (s.id == input.task_id) (guard_holds input.guard s) e) in
        let is_t : s ≡ t = keys_ok-unique_id w.db.tasks s t k j i (q ∙ sym same) in
        subst (λ u. selects input.task_id input.guard u ≡ false) (sym is_t) h
  ]

  Guarded-transition :
      w.db.faults ≡ []
      → keys_ok w.db.tasks ≡ true
      → ((s : TaskRow) → selects input.task_id input.guard s ≡ true → active s ≡ true)
      → At t w.db.tasks
      → t.id ≡ input.task_id
      → Guarded input at w t ((transition input at >>= or_conflict) w)
  Guarded-transition calm k alive i same = elim (Bool-cases (selects input.task_id input.guard t)) [
    | inl h ↦
        let (v, ran, writes) = transition-Writes input at w t calm k alive i h in
        subst (Guarded input at w t) (sym (ap ending ran)) (done v h writes)
    | inr h ↦
        let (v, ran, same_world, quiet) =
          transition-skips input at w calm k alive (away k i same h) in
        subst (Guarded input at w t) (sym (ap ending ran)) (refused v h same_world)
  ]
    where
      ending : Result (Option TaskRow) × World → Result Task × World
      ending r = continue r.0 or_conflict r.1

module _ (num : Numbers) (user_id : ℕ) (handle : Text) where
  unfoldable pub rows : Text × ℕ → List TaskRow → List TaskRow
  rows k ts = sort_by created_ge (filter (has_handle user_id k.0 k.1) ts)

  -- What `find` comes to, once the handle has been parsed.
  unfoldable pub found : Result (Text × ℕ) → World → Result TaskRow × World
  found (err e) w = (err e, w)
  found (ok k) w =
      if ltb max_integer k.1
      then (err (rethrown out_of_range), w)
      else or_not_found (head? (rows k w.db.tasks)) w

  pub find-found :
      (w : World) → w.db.faults ≡ [] → find num user_id handle w ≡ found (parse_handle num handle) w
  unfolding find find_by_handle query guarded statement found rows
  find-found w calm =
      ap (λ fs. find num user_id handle (record w { db = record w.db { faults = fs } })) calm
      ∙ parsed (parse_handle num handle)
      ∙ ap (λ fs. found (parse_handle num handle) (record w { db = record w.db { faults = fs } }))
          (sym calm)
    where
      parsed :
          (r : Result (Text × ℕ))
          → continue r
              (λ k. store (find_by_handle user_id k.0 k.1) >>= or_not_found)
              (record w { db = record w.db { faults = [] } })
            ≡ found r (record w { db = record w.db { faults = [] } })
      parsed (err e) = refl
      parsed (ok k) = elim (Bool-cases (ltb max_integer k.1)) [
        | inl e ↦ rw e refl
        | inr e ↦ rw e refl
      ]

  -- A row that `find` may return.
  Owned : List TaskRow → TaskRow → Type 0
  Owned ts u = At u ts × (u.user_id ≡ user_id)

  At-head :
      (ts us : List TaskRow) (t : TaskRow) (w v : World)
      → All (Owned ts) us
      → ◌≡◌ {A = Result TaskRow × World} (or_not_found (head? us) w) (ok t, v)
      → Owned ts t
  At-head ts [] t w v h e = absurd (ground (arith, ap (λ (r : Result TaskRow × World). r.0) e))
  At-head ts (u ∷ us) t w v h e =
      let same : u ≡ t = ground (arith, ap (λ (r : Result TaskRow × World). r.0) e) in
      subst (Owned ts) same h.0

  At-found :
      (r : Result (Text × ℕ)) (t : TaskRow) (w v : World)
      → found r w ≡ (ok t, v)
      → Owned w.db.tasks t
  unfolding found rows Owned
  At-found (err e) t w v h = absurd (ground (arith, ap (λ (r : Result TaskRow × World). r.0) h))
  At-found (ok k) t w v h =
      if_elim (λ (r : Result TaskRow × World). r ≡ (ok t, v) → Owned w.db.tasks t)
        (ltb max_integer k.1) _ _
        (λ _ e. absurd (ground (arith, ap (λ (r : Result TaskRow × World). r.0) e)))
        (λ _. At-head w.db.tasks _ t w v (
          All-sort_by created_ge (Owned w.db.tasks) _ (
            All-of_at _ λ u i.
              let (j, held) = At-filter_inv (has_handle user_id k.0 k.1) u w.db.tasks i in
              (j, ground arith))))
        h

  module _ (w : World) (t : TaskRow) where
    -- What `find` returns is a row of the table and the user's.
    pub Owned-found :
        w.db.faults ≡ []
        → find num user_id handle w ≡ (ok t, w)
        → At t w.db.tasks × (t.user_id ≡ user_id)
    unfolding Owned
    Owned-found calm here =
        At-found (parse_handle num handle) t w w (sym (find-found w calm) ∙ here)

    After : (inp : TaskRow → TransitionInput) (at : ℕ) → Result Task × World
    After inp at = (find num user_id handle >>= λ u. transition (inp u) at >>= or_conflict) w

    Guarded-found :
        (inp : TaskRow → TransitionInput) (at : ℕ)
        → find num user_id handle w ≡ (ok t, w)
        → w.db.faults ≡ []
        → keys_ok w.db.tasks ≡ true
        → ((s : TaskRow) → selects (inp t).task_id (inp t).guard s ≡ true → active s ≡ true)
        → t.id ≡ (inp t).task_id
        → Guarded (inp t) at w t (After inp at)
    unfolding After Owned
    Guarded-found inp at here calm k alive same =
        subst (Guarded (inp t) at w t)
          (sym (
            ap
              (λ (r : Result TaskRow × World).
                continue r.0 (λ u. transition (inp u) at >>= or_conflict) r.1)
              here))
          (Guarded-transition (inp t) at w t calm k alive (Owned-found calm here).0 same)

    -- On a connection without faults and tables with valid keys, `collect` of the task that the handle
    -- finds marks it collected and returns it, with one event, if it is ready and not collected yet;
    -- otherwise it throws a conflict and changes nothing.
    pub collect-Guarded :
        (at : ℕ)
        → find num user_id handle w ≡ (ok t, w)
        → w.db.faults ≡ []
        → keys_ok w.db.tasks ≡ true
        → Guarded (collect_input user_id t at) at w t (collect num user_id handle at w)
    unfolding collect After
    collect-Guarded at here calm k =
        Guarded-found (λ u. collect_input user_id u at) at here calm k (λ s h. ground arith) refl

    -- On a connection without faults and tables with valid keys, `retry` of the task that the handle
    -- finds queues it with a fresh budget of attempts and returns it, with one event, if it has failed;
    -- otherwise it throws a conflict and changes nothing.
    pub retry-Guarded :
        (config : EngineConfig) (at : ℕ)
        → find num user_id handle w ≡ (ok t, w)
        → w.db.faults ≡ []
        → keys_ok w.db.tasks ≡ true
        → Guarded (retry_input config user_id t at) at w t (retry num config user_id handle at w)
    unfolding retry After
    retry-Guarded config at here calm k =
        Guarded-found (λ u. retry_input config user_id u at) at here calm k (λ s h. ground arith)
          refl
