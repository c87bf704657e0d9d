-- ===== src/Engine/Runner/Slots.antt =====
-- The concurrency limit of `TaskRunner` in backend/src/engine/runner.ts, with a claim under way while
-- executions end.
use background_job_runner.Prelude.{
  ℕ, suc, sym, ◌∙◌, ◌++◌, length-append, length-map, ◌+◌, ◌≤◌, ◌≡◌, refl, subst, true, false, ◌||◌,
  not, List, [], ◌∷◌, Option, none, some, arith, leb, length, length-filter-le, if_elim, Bool-cases,
  inl, inr, ap,
}
use background_job_runner.Types.{TaskRow, EngineConfig}
use background_job_runner.Errors.{Thrown, ok, err}
use background_job_runner.Repository.Sql.{Db}
use background_job_runner.Repository.Schema.{keys_ok}
use background_job_runner.Repository.Writes.{claim}
use background_job_runner.Repository.Writes.Claims.{claim-IsClaim}
use background_job_runner.Engine.World.{
  World, InFlight, in_flight_set, in_flight_delete, in_flight_abort, is_entry,
}
use background_job_runner.Engine.Runner.{spawn_all, tick_begin, tick_end, schedule_tick, abort}
use background_job_runner.Engine.Jobs.{released}
use background_job_runner.Engine.Runner.Executions.{
  keys_of, ids_of, has_id, Distinct, without, keys_of-spawn_all, keys_of-abort, keys_of-released,
  Distinct-without, length-without,
}

-- A process between two awaits: its world, the slots that a claim under way asked for, and the tasks whose
-- executions have been spawned and have not ended, one entry for each execution.
pub record Process : Type 0 where
  pub world : World
  pub asked : Option ℕ
  pub running : List ℕ

-- What can happen next. The claim of a tick is answered from whatever the tables then are, with tasks that are
-- not being executed here already, and an execution is spawned for each; an execution ends with its `finally`
-- block; `other` stands for all that touches neither the keys of `inFlight` nor the tick's flag.
pub data Step (config : EngineConfig) (p : Process) : Process → Type 0 where
  begins :
      (slots : ℕ)
      → (tick_begin config p.world).0 ≡ some slots
      → Step config p (record p { world = (tick_begin config p.world).1; asked = some slots })
  answered :
      (slots : ℕ) (locked : List ℕ) (db db' : Db) (claimed : List TaskRow)
      → p.asked ≡ some slots
      → keys_ok db.tasks ≡ true
      → claim config.runner_id config.lease_ms slots locked db ≡ (ok claimed, db')
      → Distinct (p.running ++ ids_of claimed)
      → Step config p (record {
        world = (tick_end (ok claimed) p.world).1;
        asked = none;
        running = p.running ++ ids_of claimed;
      })
  refused :
      (slots : ℕ) (e : Thrown)
      → p.asked ≡ some slots
      → Step config p (record p { world = (tick_end (err e) p.world).1; asked = none })
  ends :
      (id : ℕ)
      → has_id id p.running ≡ true
      → Step config p (record p { world = released id p.world; running = without id p.running })
  aborts : (id : ℕ) → Step config p (record p { world = (abort id p.world).1 })
  other :
      (w : World)
      → keys_of w.in_flight ≡ keys_of p.world.in_flight
      → w.ticking ≡ p.world.ticking
      → Step config p (record p { world = w })

pub data Runs (config : EngineConfig) (p : Process) : Process → Type 0 where
  here : Runs config p p
  more : {q r : Process} → Runs config p q → Step config q r → Runs config p r

abbrev pub reserved : Option ℕ → ℕ
reserved none = 0
reserved (some n) = n

-- The executions and the slots asked for are within the limit; `inFlight` has exactly the tasks that are being
-- executed, none of them twice; and a claim is under way only while the flag is up.
pub record IsWithin (config : EngineConfig) (p : Process) : Type 0 where
  pub total : length p.running + reserved p.asked ≤ config.concurrency
  pub entries : keys_of p.world.in_flight ≡ p.running
  pub distinct : Distinct p.running
  pub flag : p.world.ticking ≡ false → p.asked ≡ none

-- What a tick that goes on to claim has found.
pub record Begun (config : EngineConfig) (w : World) (slots : ℕ) : Type 0 where
  pub idle : w.ticking ≡ false
  pub fits : length w.in_flight + slots ≤ config.concurrency
  pub raised : (tick_begin config w).1 ≡ record w { ticking = true }

pub length-in_flight_abort :
    (id : ℕ) (es : List InFlight) → length (in_flight_abort id es) ≡ length es
unfolding in_flight_abort
length-in_flight_abort id [] = refl
length-in_flight_abort id (e ∷ es) = ap suc (length-in_flight_abort id es)

ticking-spawn_all : (ts : List TaskRow) (w : World) → (spawn_all ts w).ticking ≡ w.ticking
unfolding spawn_all
ticking-spawn_all [] w = refl
ticking-spawn_all (t ∷ ts) w =
    ticking-spawn_all ts (record w { in_flight = in_flight_set t.id w.in_flight })

tick_begin-Begun :
    (config : EngineConfig) (w : World) (slots : ℕ)
    → (tick_begin config w).0 ≡ some slots
    → Begun config w slots
unfolding tick_begin
tick_begin-Begun config w slots h = elim (Bool-cases (w.ticking || w.stopped)) [
  | inl e ↦ absurd (ground arith)
  | inr e ↦ elim (Bool-cases (leb config.concurrency (length w.in_flight))) [
    | inl f ↦ absurd (ground arith)
    | inr f ↦ record { idle = ground arith; fits = ground arith; raised = rw (e, f) refl }
  ]
]

pub length-released : (id : ℕ) (w : World) → length (released id w).in_flight ≤ length w.in_flight
unfolding released schedule_tick in_flight_delete
length-released id w =
    if_elim (λ (v : World). length v.in_flight ≤ length w.in_flight) w.stopped _ _
      (λ _. length-filter-le (λ e. not (is_entry id e)) w.in_flight)
      (λ _. length-filter-le (λ e. not (is_entry id e)) w.in_flight)

ticking-released : (id : ℕ) (w : World) → (released id w).ticking ≡ w.ticking
unfolding released schedule_tick
ticking-released id w =
    if_elim (λ (v : World). v.ticking ≡ w.ticking) w.stopped _ _ (λ _. refl) (λ _. refl)

module _ (config : EngineConfig) where
  Step-IsWithin : {p q : Process} → Step config p q → IsWithin config p → IsWithin config q
  unfolding tick_end abort
  Step-IsWithin {p} (begins slots e) h =
      let b = tick_begin-Begun config p.world slots e in
      let same : length p.running ≡ length p.world.in_flight =
        ap (λ (ks : List ℕ). length ks) (sym h.entries)
        ∙ length-map (λ e. e.task_id) p.world.in_flight in
      rw b.raised (record {
        total = omega (arith, b.fits, same);
        entries = h.entries;
        distinct = h.distinct;
        flag = λ down. absurd (ground arith);
      })
  Step-IsWithin {p} (answered slots locked db db' claimed a k c d) h =
      let took =
        (claim-IsClaim config.runner_id config.lease_ms slots locked db claimed db' k c).bounded in
      let asked : reserved p.asked ≡ slots = rw a refl in
      record {
        total = omega (
          arith,
          length-append p.running (ids_of claimed),
          length-map (λ (t : TaskRow). t.id) claimed,
          took,
          h.total,
          asked,
        );
        entries =
            keys_of-spawn_all claimed p.world
              (subst (λ ks. Distinct (ks ++ ids_of claimed)) (sym h.entries) d)
            ∙ ap (λ ks. ks ++ ids_of claimed) h.entries;
        distinct = d;
        flag = λ _. refl;
      }
  Step-IsWithin {p} (refused slots e a) h = record {
    total = omega (arith, h.total);
    entries = h.entries;
    distinct = h.distinct;
    flag = λ _. refl;
  }
  Step-IsWithin {p} (ends id i) h = record {
    total = omega (arith, length-without id p.running, h.total);
    entries =
        keys_of-released id p.world (subst Distinct (sym h.entries) h.distinct)
        ∙ ap (without id) h.entries;
    distinct = Distinct-without id p.running h.distinct;
    flag = λ down. h.flag (rw (← ticking-released id p.world) down);
  }
  Step-IsWithin {p} (aborts id) h = record {
    total = h.total;
    entries = keys_of-abort id p.world.in_flight ∙ h.entries;
    distinct = h.distinct;
    flag = h.flag;
  }
  Step-IsWithin {p} (other w l t) h = record {
    total = h.total;
    entries = l ∙ h.entries;
    distinct = h.distinct;
    flag = λ down. h.flag (subst (λ b. b ≡ false) t down);
  }

  -- However ticks, claims, ends of executions and aborts interleave, a process whose `inFlight` has the tasks
  -- that it executes, with no claim under way and no more executions than `concurrency`, never has more
  -- executions, as long as no task is claimed that is still being executed here; and its `inFlight` stays true.
  pub Runs-IsWithin :
      (p q : Process)
      → Runs config p q
      → p.asked ≡ none
      → keys_of p.world.in_flight ≡ p.running
      → Distinct p.running
      → length p.running ≤ config.concurrency
      → IsWithin config q
  Runs-IsWithin p q here idle same once fits = record {
    total = rw idle (omega (arith, fits));
    entries = same;
    distinct = once;
    flag = λ _. idle;
  }
  Runs-IsWithin p q (more {q = m} r s) idle same once fits =
      Step-IsWithin s (Runs-IsWithin p m r idle same once fits)
