-- ===== src/Refinement/Actions.antt =====
-- The rules of Refinement/Rules.antt for actions of the engine (backend/src/engine/runner.ts).
use background_job_runner.Prelude.{◌≡◌, Bool, true, false, List, if◌then◌else◌}
use background_job_runner.Types.{TaskRow}
use background_job_runner.Errors.{Thrown, Result, ok, err}
use background_job_runner.Repository.Sql.{Sql}
use background_job_runner.Repository.Schema.{keys_ok}
use background_job_runner.Engine.World.{
  World, Action, pure, raise, continue, ◌>>=◌, lift, store, modify, caught, try_catch, try_finally,
}
use background_job_runner.Refinement.Rules.{Advances, Advances-refl, Advances-trans, Grows}

pub record Moves {ℓ} {A : Type ℓ} (m : Action A) : Type ℓ where
  pub at : (w : World) → keys_ok w.db.tasks ≡ true → Advances w.db.tasks (m w).1.db.tasks

-- A change of the world by others, or by the rest of the process.
pub record IsCalm (f : World → World) : Type 0 where
  pub at : (w : World) → keys_ok w.db.tasks ≡ true → Advances w.db.tasks (f w).db.tasks

module _ {ℓ} {A : Type ℓ} where
  pub Moves-pure : (a : A) → Moves (pure a)
  Moves-pure a = record { at = λ w k. Advances-refl w.db.tasks k }

  pub Moves-raise : (e : Thrown) → Moves (raise {A = A} e)
  Moves-raise e = record { at = λ w k. Advances-refl w.db.tasks k }

  pub Moves-lift : (r : Result A) → Moves (lift r)
  Moves-lift r = record { at = λ w k. Advances-refl w.db.tasks k }

  pub Moves-store : (m : Sql A) → Grows m → Moves (store m)
  Moves-store m g = record { at = λ w k. g.at w.db k }

  pub Moves-if : (b : Bool) (m n : Action A) → Moves m → Moves n → Moves (if b then m else n)
  Moves-if true m n hm hn = hm
  Moves-if false m n hm hn = hn

  Advances-caught :
      (ts : List TaskRow) (r : Result A × World) (handler : Thrown → Action A)
      → Advances ts r.1.db.tasks
      → ((e : Thrown) → Moves (handler e))
      → Advances ts (caught r.0 handler r.1).1.db.tasks
  Advances-caught ts (ok a, w) handler h g = h
  Advances-caught ts (err e, w) handler h g =
      Advances-trans ts w.db.tasks (handler e w).1.db.tasks h ((g e).at w h.keys)

  pub Moves-try_catch :
      (m : Action A) (handler : Thrown → Action A)
      → Moves m
      → ((e : Thrown) → Moves (handler e))
      → Moves (try_catch m handler)
  Moves-try_catch m handler hm g = record {
    at = λ w k. Advances-caught w.db.tasks (m w) handler (hm.at w k) g;
  }

  pub Moves-try_finally :
      (m : Action A) (f : World → World) → Moves m → IsCalm f → Moves (try_finally m f)
  Moves-try_finally m f hm c = record {
    at = λ w k.
        let h = hm.at w k in
        Advances-trans w.db.tasks (m w).1.db.tasks (f (m w).1).db.tasks h (c.at (m w).1 h.keys);
  }

pub Moves-modify : (f : World → World) → IsCalm f → Moves (modify f)
Moves-modify f c = record { at = λ w k. c.at w k }

module _ {ℓ κ} {A : Type ℓ} {B : Type κ} where
  Advances-continue :
      (ts : List TaskRow) (r : Result A × World) (f : A → Action B)
      → Advances ts r.1.db.tasks
      → ((a : A) → Moves (f a))
      → Advances ts (continue r.0 f r.1).1.db.tasks
  Advances-continue ts (ok a, w) f h g =
      Advances-trans ts w.db.tasks (f a w).1.db.tasks h ((g a).at w h.keys)
  Advances-continue ts (err e, w) f h g = h

  pub Moves-bind :
      (m : Action A) (f : A → Action B) → Moves m → ((a : A) → Moves (f a)) → Moves (m >>= f)
  Moves-bind m f hm g = record { at = λ w k. Advances-continue w.db.tasks (m w) f (hm.at w k) g }

pub ruleset move_rules =
    (Moves-pure, Moves-raise, Moves-lift, Moves-store, Moves-modify, Moves-bind)
