-- ===== src/Refinement/Runner.antt =====
-- The loops of backend/src/engine/runner.ts against the life of tasks.
use background_job_runner.Prelude.{
  ℕ, zero, suc, ◌≡◌, refl, Bool, true, false, List, [], ◌∷◌, Option, none, some, if_elim, length,
  ◌==◌, subst, sym, ◌||◌, ◌-◌, leb, if◌then◌else◌,
}
use background_job_runner.Types.{TaskRow, EngineConfig}
use background_job_runner.Errors.{Result, ok, err}
use background_job_runner.Repository.Schema.{keys_ok}
use background_job_runner.Repository.Writes.{selects, apply_patch, claim}
use background_job_runner.Repository.Operations.{
  TaskWithEvent, TransitionInput, requeue_orphans, requeue_expired_leases,
}
use background_job_runner.Engine.World.{
  World, Loop, claim_loop, lease_reaper, pure, store, modify, gets, publish_event, in_flight_set,
  in_flight_keys, abort_all,
}
use background_job_runner.Engine.Runner.{
  announce, schedule_tick, every, boot_sweep, boot, start, drain, drain_polls, stop, spawn_all,
  tick_begin, tick_end, tick_with, tick, publish_outcome, transition, beat, reap,
}
use background_job_runner.Lifecycle.{Edge}
use background_job_runner.Refinement.Rules.{Advances, Advances-refl, Advances-trans}
use background_job_runner.Refinement.Store.{
  Grows-claim, Grows-heartbeat, Grows-requeue_orphans, Grows-requeue_expired_leases,
  Grows-transition,
}
use background_job_runner.Refinement.Actions.{
  Moves, IsCalm, Moves-pure, Moves-store, Moves-if, Moves-modify, Moves-bind,
}

-- A change that leaves the store alone.
pub IsCalm-same : (f : World → World) → ((w : World) → (f w).db ≡ w.db) → IsCalm f
IsCalm-same f same = record {
  at = λ w k. subst (λ d. Advances w.db.tasks d.tasks) (sym (same w)) (Advances-refl w.db.tasks k);
}

pub IsCalm-publish_event : (t : TaskRow) (e : _) → IsCalm (publish_event t e)
unfolding publish_event
IsCalm-publish_event t e = IsCalm-same _ (λ w. refl)

db-announce : (swept : List TaskWithEvent) (w : World) → (announce swept w).db ≡ w.db
unfolding announce publish_event
db-announce [] w = refl
db-announce (s ∷ swept) w = db-announce swept (publish_event s.task s.event w)

Moves-publish_outcome : (o : Option TaskWithEvent) → Moves (publish_outcome o)
Moves-publish_outcome none = Moves-pure none
Moves-publish_outcome (some o) =
    Moves-bind _ _ (Moves-modify _ (IsCalm-publish_event o.task o.event))
      (λ _. Moves-pure (some o.task))

-- A transition of the engine takes an edge if its patch does where its guard holds.
pub Moves-transition :
    (input : TransitionInput) (at : ℕ)
    → ((t : TaskRow)
        → selects input.task_id input.guard t ≡ true
        → Edge t (apply_patch input.patch at t))
    → Moves (transition input at)
unfolding transition
Moves-transition input at edge =
    Moves-bind _ publish_outcome (Moves-store _ (Grows-transition input at edge))
      Moves-publish_outcome

db-spawn_all : (ts : List TaskRow) (w : World) → (spawn_all ts w).db ≡ w.db
unfolding spawn_all
db-spawn_all [] w = refl
db-spawn_all (t ∷ ts) w = db-spawn_all ts (record w { in_flight = in_flight_set t.id w.in_flight })

db-tick_end : (r : Result (List TaskRow)) (w : World) → (tick_end r w).1.db ≡ w.db
unfolding tick_end
db-tick_end (ok ts) w = db-spawn_all ts w
db-tick_end (err e) w = refl

Advances-same : (ts us vs : List TaskRow) → us ≡ vs → Advances ts us → Advances ts vs
Advances-same ts us vs p a = subst (Advances ts) p a

pub Moves-tick : (config : EngineConfig) (locked : List ℕ) → Moves (tick config locked)
unfolding tick tick_begin
Moves-tick config locked = record {
  at = λ w k.
      if_elim (λ s. Advances w.db.tasks (tick_with config locked s).1.db.tasks)
        (w.ticking || w.stopped) _ _ (λ _. Advances-refl w.db.tasks k)
        (λ _.
          if_elim (λ s. Advances w.db.tasks (tick_with config locked s).1.db.tasks)
            (leb config.concurrency (length w.in_flight)) _ _ (λ _. Advances-refl w.db.tasks k)
            (λ _.
              claims (config.concurrency - length w.in_flight) (record w { ticking = true }) k));
}
  where
    claims :
        (slots : ℕ) (w : World)
        → keys_ok w.db.tasks ≡ true
        → Advances w.db.tasks (tick_with config locked (some slots, w)).1.db.tasks
    claims slots w k =
        let m = claim config.runner_id config.lease_ms slots locked in
        let (r, db') = m w.db in
        subst (λ d. Advances w.db.tasks d.tasks) (sym (db-tick_end r (record w { db = db' })))
          ((Grows-claim config.runner_id config.lease_ms slots locked).at w.db k)

pub Moves-beat : (config : EngineConfig) → Moves (beat config)
unfolding beat
Moves-beat config = record {
  at = λ w k. (Grows-heartbeat config.runner_id (in_flight_keys w) config.lease_ms).at w.db k;
}

IsCalm-announce : (swept : List TaskWithEvent) → IsCalm (announce swept)
IsCalm-announce swept = IsCalm-same (announce swept) (db-announce swept)

pub IsCalm-schedule_tick : IsCalm schedule_tick
unfolding schedule_tick
IsCalm-schedule_tick =
    IsCalm-same schedule_tick
      λ w. if_elim (λ (v : World). v.db ≡ w.db) w.stopped _ _ (λ _. refl) (λ _. refl)

pub Moves-reap : (config : EngineConfig) → Moves (reap config)
unfolding reap
Moves-reap config =
    Moves-bind (gets in_flight_keys) _ (record { at = λ w k. Advances-refl w.db.tasks k })
      λ busy.
        Moves-bind (store (requeue_expired_leases config.runner_id busy)) _
          (Moves-store _ (Grows-requeue_expired_leases config.runner_id busy))
          (λ swept. Moves-modify (announce swept) (IsCalm-announce swept))

Moves-boot_sweep : (config : EngineConfig) → Moves (boot_sweep config)
unfolding boot_sweep
Moves-boot_sweep config =
    Moves-bind (store (requeue_orphans config.runner_id)) _
      (Moves-store _ (Grows-requeue_orphans config.runner_id))
      (λ swept. Moves-modify (announce swept) (IsCalm-announce swept))

Moves-same : (f : World → World) → ((w : World) → (f w).db ≡ w.db) → Moves (modify f)
Moves-same f same = Moves-modify f (IsCalm-same f same)

Moves-boot : (config : EngineConfig) → Moves (boot config)
unfolding boot
Moves-boot config =
    Moves-bind (modify (λ w. record w { stopped = false })) _ (Moves-same _ (λ w. refl)) λ _.
      Moves-bind (if config.boot_sweep then boot_sweep config else pure tt) _
        (Moves-if config.boot_sweep _ _ (Moves-boot_sweep config) (Moves-pure tt))
        λ _. Moves-bind (modify (every claim_loop)) _ (Moves-same _ (λ w. refl)) λ _.
          Moves-bind (modify (every Loop.heartbeat)) _ (Moves-same _ (λ w. refl)) λ _.
            Moves-bind (modify (every lease_reaper)) _ (Moves-same _ (λ w. refl))
              λ _. Moves-modify schedule_tick IsCalm-schedule_tick

pub Moves-start : (config : EngineConfig) → Moves (start config)
unfolding start
Moves-start config = record {
  at = λ w k.
      if_elim (λ (r : Result (Unit {0}) × World). Advances w.db.tasks r.1.db.tasks) w.stopped _ _
        (λ _. (Moves-boot config).at w k) (λ _. Advances-refl w.db.tasks k);
}

IsCalm-drain :
    (left : ℕ) (delay : ℕ → World → World)
    → ((k : ℕ) → IsCalm (delay k))
    → IsCalm (drain left delay)
unfolding drain
IsCalm-drain zero delay calm = IsCalm-same _ (λ w. refl)
IsCalm-drain (suc left) delay calm = record {
  at = λ w k.
      let h = (calm left).at w k in
      if_elim (λ (v : World). Advances w.db.tasks v.db.tasks) (length w.in_flight == 0) _ _
        (λ _. Advances-refl w.db.tasks k)
        (λ _.
          Advances-trans w.db.tasks (delay left w).db.tasks
            (drain left delay (delay left w)).db.tasks h
            ((IsCalm-drain left delay calm).at (delay left w) h.keys));
}

pub Moves-stop :
    (draining : Bool) (delay : ℕ → World → World)
    → ((k : ℕ) → IsCalm (delay k))
    → Moves (stop draining delay)
unfolding stop
Moves-stop draining delay calm = record {
  at = λ w k.
      if_elim (λ (r : Result (Unit {0}) × World). Advances w.db.tasks r.1.db.tasks) draining _ _
        (λ _.
          (IsCalm-drain drain_polls delay calm).at
            (record w { stopped = true; timers = []; in_flight = abort_all w.in_flight }) k)
        (λ _. Advances-refl w.db.tasks k);
}
