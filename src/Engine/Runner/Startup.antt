-- ===== src/Engine/Runner/Startup.antt =====
-- `start` of `TaskRunner` in backend/src/engine/runner.ts.
use background_job_runner.Prelude.{
  suc, All, sym, subst, ◌≡◌, refl, ap, ◌∙◌, Bool, true, false, List, [], ◌∷◌, ◌++◌, if◌then◌else◌,
  append_assoc, if_elim,
}
use background_job_runner.Types.{EngineConfig}
use background_job_runner.Errors.{Thrown, Result, ok, err}
use background_job_runner.Repository.Sql.{Db}
use background_job_runner.Repository.Sql.Results.{OnOk}
use background_job_runner.Repository.Operations.Orphans.{
  IsAdopted, AllAdopted, requeue_orphans-AllAdopted,
}
use background_job_runner.Repository.Operations.{TaskWithEvent, requeue_orphans}
use background_job_runner.Engine.World.{
  World, Loop, claim_loop, lease_reaper, Action, continue, pure, modify, publish_event, ◌>>=◌,
}
use background_job_runner.Engine.Runner.{announce, schedule_tick, every, boot_sweep, boot, start}

-- The fields of the runner that a boot sweep leaves alone.
pub record SameLoops (w v : World) : Type 0 where
  pub stopped : v.stopped ≡ w.stopped
  pub timers : v.timers ≡ w.timers
  pub scheduled : v.scheduled ≡ w.scheduled

SameLoops-announce : (swept : List TaskWithEvent) (w : World) → SameLoops w (announce swept w)
unfolding announce publish_event
SameLoops-announce [] w = record { stopped = refl; timers = refl; scheduled = refl }
SameLoops-announce (s ∷ swept) w =
    let h = SameLoops-announce swept (publish_event s.task s.event w) in
    record { stopped = h.stopped; timers = h.timers; scheduled = h.scheduled }

-- The boot sweep from the world `w`: it is left out by the configuration; or the store's sweep returned, every
-- running task that is no fixture is then this runner's, and what the store wrote is announced; or the store
-- threw, and nothing is announced.
pub data Swept (config : EngineConfig) (w : World) : Result (Unit {0}) × World → Type 0 where
  left_out : config.boot_sweep ≡ false → Swept config w (ok tt, w)
  requeued :
      (rows : List TaskWithEvent) (db : Db)
      → config.boot_sweep ≡ true
      → requeue_orphans config.runner_id w.db ≡ (ok rows, db)
      → All (IsAdopted config.runner_id) db.tasks
      → Swept config w (ok tt, announce rows (record w { db = db }))
  threw :
      (e : Thrown) (db : Db)
      → config.boot_sweep ≡ true
      → requeue_orphans config.runner_id w.db ≡ (err e, db)
      → Swept config w (err e, record w { db = db })

-- `if (this.config.bootSweep)` and its block.
abbrev sweep_if : EngineConfig → Bool → Action (Unit {0})
sweep_if config b = if b then boot_sweep config else pure tt

Swept-sweep_if :
    (config : EngineConfig) (w : World) (b : Bool)
    → config.boot_sweep ≡ b
    → Swept config w (sweep_if config b w)
unfolding boot_sweep
Swept-sweep_if config w false q = left_out q
Swept-sweep_if config w true q = go (requeue_orphans config.runner_id w.db) refl
  where
    go :
        (r : Result (List TaskWithEvent) × Db)
        → requeue_orphans config.runner_id w.db ≡ r
        → Swept config w (continue r.0 (λ swept. modify (announce swept)) (record w { db = r.1 }))
    go (ok rows, db) e = requeued rows db q e (
        subst (OnOk (AllAdopted config.runner_id)) e
          (requeue_orphans-AllAdopted config.runner_id w.db))
    go (err x, db) e = threw x db q e

SameLoops-Swept :
    {config : EngineConfig} {w : World} {r : Result (Unit {0}) × World}
    → Swept config w r
    → SameLoops w r.1
SameLoops-Swept (left_out q) = record { stopped = refl; timers = refl; scheduled = refl }
SameLoops-Swept {w = w} (requeued rows db q e a) =
    let h = SameLoops-announce rows (record w { db = db }) in
    record { stopped = h.stopped; timers = h.timers; scheduled = h.scheduled }
SameLoops-Swept (threw x db q e) = record { stopped = refl; timers = refl; scheduled = refl }

abbrev raised : World → World
raised w = record w { stopped = false }

-- How `start` ends: the runner ran already, and nothing is done; or the runner was stopped, the boot sweep ran,
-- and after it the three loops are armed and a tick is scheduled; or the sweep threw, and then no loop is armed
-- and starting it again does nothing.
pub data Started (config : EngineConfig) (w : World) : Result (Unit {0}) × World → Type 0 where
  already : w.stopped ≡ false → Started config w (ok tt, w)
  armed :
      (v : World)
      → w.stopped ≡ true
      → Swept config (record w { stopped = false }) (ok tt, v)
      → v.stopped ≡ false
      → Started config w (
        ok tt,
        record v {
          timers = w.timers ++ claim_loop ∷ Loop.heartbeat ∷ lease_reaper ∷ [];
          scheduled = suc w.scheduled;
        },
      )
  stranded :
      (e : Thrown) (v : World)
      → w.stopped ≡ true
      → Swept config (record w { stopped = false }) (err e, v)
      → v.timers ≡ w.timers
      → v.scheduled ≡ w.scheduled
      → start config v ≡ (ok tt, v)
      → Started config w (err e, v)

start-running :
    (config : EngineConfig) (v : World) → v.stopped ≡ false → start config v ≡ (ok tt, v)
unfolding start
start-running config v h = rw h refl

-- The part of `boot` after the sweep.
abbrev arm : Action (Unit {0})
arm = modify (every claim_loop) >>= λ _.
    modify (every Loop.heartbeat) >>= λ _. modify (every lease_reaper) >>= λ _. modify schedule_tick

armed_world :
    (w v : World)
    → SameLoops (raised w) v
    → arm v ≡ (
      ok tt,
      record v {
        timers = w.timers ++ claim_loop ∷ Loop.heartbeat ∷ lease_reaper ∷ [];
        scheduled = suc w.scheduled;
      },
    )
unfolding schedule_tick
armed_world w v h =
    let added = claim_loop ∷ Loop.heartbeat ∷ lease_reaper ∷ [] in
    let timers : ((v.timers ++ claim_loop ∷ []) ++ Loop.heartbeat ∷ []) ++ lease_reaper ∷ []
        ≡ w.timers ++ added =
      append_assoc (v.timers ++ claim_loop ∷ []) (Loop.heartbeat ∷ []) (lease_reaper ∷ [])
      ∙ append_assoc v.timers (claim_loop ∷ []) (Loop.heartbeat ∷ lease_reaper ∷ [])
      ∙ ap (λ ts. ts ++ added) h.timers in
    rw h.stopped (rw (timers, h.scheduled) refl)

Started-arm :
    (config : EngineConfig) (w : World) (r : Result (Unit {0}) × World)
    → w.stopped ≡ true
    → Swept config (raised w) r
    → SameLoops (raised w) r.1
    → Started config w (continue r.0 (λ _. arm) r.1)
Started-arm config w (err e, v) was s h =
    stranded e v was s h.timers h.scheduled (start-running config v h.stopped)
Started-arm config w (ok _, v) was s h =
    subst (Started config w) (sym (armed_world w v h)) (armed v was s h.stopped)

-- Starting a runner that runs does nothing. Starting a stopped one runs the boot sweep, if it is configured, so
-- that every running task that is no fixture is this runner's, and then arms the three loops and schedules a
-- tick; or, if the sweep throws, it arms nothing and makes every later start do nothing.
pub start-Started : (config : EngineConfig) (w : World) → Started config w (start config w)
unfolding start boot
start-Started config w =
    if_elim (Started config w) w.stopped (boot config w) (ok tt, w)
      (λ was.
        let s = Swept-sweep_if config (raised w) config.boot_sweep refl in
        Started-arm config w (sweep_if config config.boot_sweep (raised w)) was s
          (SameLoops-Swept s))
      (λ running. already running)
