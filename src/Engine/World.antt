-- ===== src/Engine/World.antt =====
-- The state of one engine process beside its store: the bus, and the fields of `TaskRunner` in
-- backend/src/engine/runner.ts. An action runs to its end and returns, or throws and leaves what it did.
use background_job_runner.Prelude.{
  ℕ, Bool, true, false, List, [], ◌∷◌, ◌==◌, any, filter, not, map, if◌then◌else◌,
}
use background_job_runner.Types.{TaskRow}
use background_job_runner.Types.Events.{TaskEventRow}
use background_job_runner.Errors.{Thrown, Result, ok, err}
use background_job_runner.Repository.Sql.{Db, Sql}
use background_job_runner.Engine.Bus.{Bus, publish, to_engine_event}

-- An entry of `inFlight`: a task id with whether its AbortController has been aborted.
pub record InFlight : Type 0 where
  pub task_id : ℕ
  pub aborted : Bool

pub data Loop : Type 0 where
  claim_loop heartbeat lease_reaper : Loop

-- `scheduled` counts the ticks that `setImmediate` has been handed and that have not run.
pub record World : Type 0 where
  pub db : Db
  pub bus : Bus
  pub in_flight : List InFlight
  pub timers : List Loop
  pub scheduled : ℕ
  pub ticking : Bool
  pub stopped : Bool

abbrev pub Action {ℓ} : Type ℓ → Type ℓ
Action A = World → Result A × World

abbrev pub pure {ℓ} : {A : Type ℓ} → A → Action A
pure a w = (ok a, w)

abbrev pub raise {ℓ} : {A : Type ℓ} → Thrown → Action A
raise e w = (err e, w)

abbrev pub continue {ℓ κ} : {A : Type ℓ} {B : Type κ} → Result A → (A → Action B) → Action B
continue (ok a) f w = f a w
continue (err e) f w = (err e, w)

infixl 10 ◌>>=◌ ◌>>◌
abbrev pub ◌>>=◌ {ℓ κ} : {A : Type ℓ} {B : Type κ} → Action A → (A → Action B) → Action B
◌>>=◌ m f w = let (r, w') = m w in continue r f w'

abbrev pub ◌>>◌ {ℓ κ} : {A : Type ℓ} {B : Type κ} → Action A → Action B → Action B
m >> k = m >>= λ _. k

abbrev pub lift {ℓ} : {A : Type ℓ} → Result A → Action A
lift r w = (r, w)

-- An operation of the store.
abbrev pub store {ℓ} : {A : Type ℓ} → Sql A → Action A
store m w = let (r, db') = m w.db in (r, record w { db = db' })

abbrev pub modify : (World → World) → Action (Unit {0})
modify f w = (ok tt, f w)

abbrev pub gets {ℓ} : {A : Type ℓ} → (World → A) → Action A
gets f w = (ok (f w), w)

-- `try { m } catch (error) { handler }`
abbrev pub caught {ℓ} : {A : Type ℓ} → Result A → (Thrown → Action A) → Action A
caught (ok a) handler w = (ok a, w)
caught (err e) handler w = handler e w

abbrev pub try_catch {ℓ} : {A : Type ℓ} → Action A → (Thrown → Action A) → Action A
try_catch m handler w = let (r, w') = m w in caught r handler w'

-- `try { m } finally { f }`, where `f` does not throw.
abbrev pub try_finally {ℓ} : {A : Type ℓ} → Action A → (World → World) → Action A
try_finally m f w = let (r, w') = m w in (r, f w')

abbrev pub is_entry : ℕ → InFlight → Bool
is_entry id e = e.task_id == id

-- `inFlight.has(id)`
unfoldable pub in_flight_has : ℕ → List InFlight → Bool
in_flight_has id es = any (is_entry id) es

-- `inFlight.set(id, new AbortController())`: a known key keeps its place.
unfoldable pub in_flight_set : ℕ → List InFlight → List InFlight
in_flight_set id [] = record { task_id = id; aborted = false } ∷ []
in_flight_set id (e ∷ es) =
    let rest = e ∷ in_flight_set id es in
    if is_entry id e then record { task_id = id; aborted = false } ∷ es else rest

-- `inFlight.delete(id)`
unfoldable pub in_flight_delete : ℕ → List InFlight → List InFlight
in_flight_delete id es = filter (λ e. not (is_entry id e)) es

abbrev pub aborting : InFlight → InFlight
aborting e = record e { aborted = true }

-- `ac.abort()` on the controller of one task.
unfoldable pub in_flight_abort : ℕ → List InFlight → List InFlight
in_flight_abort id [] = []
in_flight_abort id (e ∷ es) = (if is_entry id e then aborting e else e) ∷ in_flight_abort id es

abbrev pub abort_all : List InFlight → List InFlight
abort_all es = map aborting es

-- `[...this.inFlight.keys()]`
abbrev pub in_flight_keys : World → List ℕ
in_flight_keys w = map (λ e. e.task_id) w.in_flight

-- `publish(task, event)` of the runner.
unfoldable pub publish_event : TaskRow → TaskEventRow → World → World
publish_event task event w = record w {
  bus =
      publish w.bus (
        to_engine_event (record { event = event; lane = task.lane; handle_num = task.handle_num }));
}
