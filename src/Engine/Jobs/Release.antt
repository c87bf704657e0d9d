-- ===== src/Engine/Jobs/Release.antt =====
-- The `finally` block of `runOne` in backend/src/engine/runner.ts.
use background_job_runner.Prelude.{
  ℕ, suc, ◌≡◌, ◌≢◌, refl, false, not, List, [], ◌∷◌, arith, any, if_elim,
}
use background_job_runner.Types.{TaskRow, EngineConfig}
use background_job_runner.Engine.World.{World, InFlight, is_entry, in_flight_has, in_flight_delete}
use background_job_runner.Engine.Runner.{schedule_tick}
use background_job_runner.Engine.Jobs.{Execution, attempt, released, run_one}

-- `v` is `u` with the entry of one task gone, and one more tick asked for unless the runner has stopped.
pub record IsReleased (id : ℕ) (u v : World) : Type 0 where
  pub gone : in_flight_has id v.in_flight ≡ false
  pub others : (j : ℕ) → j ≢ id → in_flight_has j v.in_flight ≡ in_flight_has j u.in_flight
  pub ticks : u.stopped ≡ false → v.scheduled ≡ suc u.scheduled
  pub store : v.db ≡ u.db

has-deleted : (id : ℕ) (es : List InFlight) → in_flight_has id (in_flight_delete id es) ≡ false
unfolding in_flight_has in_flight_delete
has-deleted id [] = refl
has-deleted id (e ∷ es) =
    if_elim (λ r. any (is_entry id) r ≡ false) (not (is_entry id e)) _ _
      (λ h. ground (arith, has-deleted id es)) (λ _. has-deleted id es)

has-other :
    (id j : ℕ) (es : List InFlight)
    → j ≢ id
    → in_flight_has j (in_flight_delete id es) ≡ in_flight_has j es
unfolding in_flight_has in_flight_delete
has-other id j [] apart = refl
has-other id j (e ∷ es) apart =
    if_elim (λ r. any (is_entry j) r ≡ any (is_entry j) (e ∷ es)) (not (is_entry id e)) _ _
      (λ h. ground (arith, has-other id j es apart)) (λ h. ground (arith, has-other id j es apart))

IsReleased-released : (id : ℕ) (w : World) → IsReleased id w (released id w)
unfolding released schedule_tick
IsReleased-released id w =
    if_elim (IsReleased id w) w.stopped (record w { in_flight = in_flight_delete id w.in_flight })
      (record w { in_flight = in_flight_delete id w.in_flight; scheduled = suc w.scheduled })
      (λ h. record {
        gone = has-deleted id w.in_flight;
        others = λ j apart. has-other id j w.in_flight apart;
        ticks = λ running. absurd (ground arith);
        store = refl;
      })
      (λ h. record {
        gone = has-deleted id w.in_flight;
        others = λ j apart. has-other id j w.in_flight apart;
        ticks = λ _. refl;
        store = refl;
      })

-- However an execution ends, by a result, an error, a timeout, an abort or a fault of the store, it
-- gives its slot free and no other, and asks for a tick unless the runner has stopped.
pub run_one-IsReleased :
    (config : EngineConfig) (task : TaskRow) (x : Execution) (w : World)
    → IsReleased task.id (attempt config task x w).1 (run_one config task x w).1
unfolding run_one
run_one-IsReleased config task x w = IsReleased-released task.id (attempt config task x w).1
