-- ===== src/Examples/Runs.antt =====
-- The theorems on runs of the engine, at concrete worlds.
use background_job_runner.Prelude.{
  ◌≡◌, refl, true, [], ◌∷◌, none, some, arith, All, At, at_head, at_tail, text_eq, codes,
}
use background_job_runner.Prelude.Sort.{sort_by, insert_by}
use background_job_runner.Types.{TaskRow}
use background_job_runner.Errors.{ok}
use background_job_runner.Repository.Sql.{statement, guarded}
use background_job_runner.Repository.Schema.{keys_ok}
use background_job_runner.Repository.Writes.{
  claim, claim_rows, update_where, picked, claimed_by, heartbeat, extend_leases,
}
use background_job_runner.Engine.Numbers.{digit_numbers, digit_numbers-ReadsDecimals}
use background_job_runner.Engine.Operations.{find}
use background_job_runner.Repository.Operations.{handle_of}
use background_job_runner.Lifecycle.Ranks.{IsRanked, IsChronological}
use background_job_runner.Refinement.Handles.{reached-found}
use background_job_runner.Engine.World.{World, in_flight_set}
use background_job_runner.Engine.Calls.{tick, beat, perform}
use background_job_runner.Engine.Runner
use background_job_runner.Engine.Runner.{tick_begin, tick_end, spawn_all}
use background_job_runner.Engine.Runner.Slots.{
  Process, begins, answered, Runs, here, more, IsWithin, Runs-IsWithin,
}
use background_job_runner.Lifecycle.{IsNew}
use background_job_runner.Lifecycle.Rows.{IsSound, IsNew-IsSound}
use background_job_runner.Refinement.Rules.{Advances}
use background_job_runner.Refinement.Reachable.{
  Reaches, begin, after, IsCalmCall, reached-unique_holder, reached-IsSound, reached-retired,
  perform-Advances,
}
use background_job_runner.Examples.{config, waiting, dropped, db_of, world_of}

abbrev first : World
first = world_of (dropped ∷ waiting ∷ [])

-- A tick that claims the waiting task, then a heartbeat.
abbrev second : World
second = perform digit_numbers (beat config) (perform digit_numbers (tick config []) first)

second-Reaches : Reaches digit_numbers first second
unfolding IsCalmCall
second-Reaches = after (after begin (tick config []) tt) (beat config) tt

first-keys : keys_ok first.db.tasks ≡ true
unfolding keys_ok text_eq
first-keys = refl

abbrev claimed_row : TaskRow
claimed_row = claimed_by 9 30 100 waiting

second_row : At claimed_row second.db.tasks
unfolding perform Runner.beat heartbeat Runner.tick tick_begin tick_end claim guarded statement
    claim_rows update_where keys_ok picked sort_by insert_by spawn_all in_flight_set extend_leases
    text_eq
second_row = at_tail at_head

reached-unique_holder_example : claimed_row ≡ claimed_row
reached-unique_holder_example =
    reached-unique_holder digit_numbers first second claimed_row claimed_row second-Reaches
      first-keys second_row second_row refl refl refl refl refl

waiting-IsNew : IsNew waiting
waiting-IsNew = record {
  queued = refl;
  not_collected = refl;
  no_time = refl;
  no_runner = refl;
  no_lease = refl;
  no_attempts = refl;
  numbered = omega arith;
}

reached-IsSound_example :
    All IsSound (perform digit_numbers (tick config []) (world_of (waiting ∷ []))).db.tasks
unfolding keys_ok text_eq IsCalmCall
reached-IsSound_example =
    reached-IsSound digit_numbers (world_of (waiting ∷ []))
      (perform digit_numbers (tick config []) (world_of (waiting ∷ [])))
      (after begin (tick config []) tt) refl (IsNew-IsSound waiting-IsNew, tt)

reached-retired_example : At dropped second.db.tasks
reached-retired_example =
    reached-retired digit_numbers first second dropped second-Reaches first-keys at_head refl

abbrev idle : Process
idle = record { world = first; asked = none; running = [] }

abbrev asking : Process
asking = record { world = record first { ticking = true }; asked = some 2; running = [] }

tick_claim : claim 9 30 2 [] first.db ≡ (ok (claimed_row ∷ []), db_of (dropped ∷ claimed_row ∷ []))
unfolding claim claim_rows guarded statement update_where picked keys_ok text_eq sort_by insert_by
tick_claim = refl

abbrev spawned : Process
spawned = record {
  world = (tick_end (ok (claimed_row ∷ [])) asking.world).1;
  asked = none;
  running = claimed_row.id ∷ [];
}

spawned-Runs : Runs config idle spawned
unfolding tick_begin
spawned-Runs = more (more here (begins 2 refl)) (
    answered 2 [] first.db (db_of (dropped ∷ claimed_row ∷ [])) (claimed_row ∷ []) refl first-keys
      tick_claim (refl, tt))

Runs-IsWithin_example : IsWithin config spawned
Runs-IsWithin_example = Runs-IsWithin config idle spawned spawned-Runs refl refl tt (omega arith)

perform-Advances_example :
    Advances first.db.tasks (perform digit_numbers (tick config []) first).db.tasks
unfolding IsCalmCall
perform-Advances_example = perform-Advances digit_numbers (tick config []) first tt first-keys

-- `waiting` got the handle of `dropped`, and is claimed.
abbrev given_on : World
given_on = world_of (waiting ∷ dropped ∷ [])

abbrev claimed_on : World
claimed_on = perform digit_numbers (tick config []) given_on

claimed_on_tables : claimed_on.db ≡ db_of (claimed_row ∷ dropped ∷ [])
unfolding perform Runner.tick tick_begin tick_end claim guarded statement claim_rows update_where
    keys_ok picked sort_by insert_by spawn_all in_flight_set text_eq
claimed_on_tables = refl

claimed_on_times : IsChronological (claimed_row ∷ dropped ∷ [])
unfolding IsChronological
claimed_on_times = (((λ h. omega arith), tt), (tt, tt))

reached-found_example :
    find digit_numbers 7 (handle_of (codes "mock") 1) claimed_on ≡ (ok claimed_row, claimed_on)
unfolding IsCalmCall IsRanked keys_ok text_eq
reached-found_example =
    reached-found digit_numbers given_on claimed_on claimed_row digit_numbers-ReadsDecimals
      (after begin (tick config []) tt) refl (((λ h. refl), tt), (tt, tt))
      (rw claimed_on_tables claimed_on_times) (rw claimed_on_tables refl)
      (rw claimed_on_tables at_head) refl (λ e. ground arith) (omega arith) (omega arith)
