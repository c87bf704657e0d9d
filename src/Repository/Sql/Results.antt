-- ===== src/Repository/Sql/Results.antt =====
-- What holds of everything that a computation returns and of the state it leaves then, whatever it throws:
-- rules for the statements, transactions and sequences of backend/src/engine/repository.ts.
use background_job_runner.Prelude.{List, [], ◌∷◌, Option, none, some}
use background_job_runner.Errors.{Thrown, Result, ok, err}
use background_job_runner.Repository.Sql.{
  Db, Sql, continue, ◌>>=◌, statement, guarded, rethrow, commit, transact,
}

abbrev pub OnOk {ℓ κ μ} : {S : Type ℓ} {A : Type κ} → (A → S → Type μ) → Result A × S → Type μ
OnOk P (ok a, s) = P a s
OnOk P (err e, s) = Unit

pub OnOk-any {ℓ κ} : {S : Type ℓ} {A : Type κ} (r : Result A × S) → OnOk (λ _ _. Unit {0}) r
OnOk-any (ok a, s) = tt
OnOk-any (err e, s) = tt

module _ {ℓ κ} {A : Type ℓ} (P : A → Db → Type κ) where
  -- The predicate does not read the faults to come.
  abbrev pub IgnoresFaults : Type (ℓ ⊔ κ)
  IgnoresFaults =
      (a : A) (db : Db) (fs : List (Option Thrown)) → P a db → P a (record db { faults = fs })

  pub OnOk-statement :
      (m : Sql A) (db : Db)
      → ((fs : List (Option Thrown)) → OnOk P (m (record db { faults = fs })))
      → OnOk P (statement m db)
  unfolding statement
  OnOk-statement m db h = by_faults db.faults
    where
      by_faults : (fs : List (Option Thrown)) → OnOk P (statement m (record db { faults = fs }))
      by_faults [] = h []
      by_faults (none ∷ fs) = h fs
      by_faults (some e ∷ fs) = tt

  OnOk-rethrow : (r : Result A) (db : Db) → OnOk P (r, db) → OnOk P (rethrow r, db)
  OnOk-rethrow (ok a) db h = h
  OnOk-rethrow (err e) db h = tt

  pub OnOk-guarded : (m : Sql A) (db : Db) → OnOk P (m db) → OnOk P (guarded m db)
  unfolding guarded
  OnOk-guarded m db h = let (r, db') = m db in OnOk-rethrow r db' h

  OnOk-commit :
      (before db : Db) (r : Result A)
      → IgnoresFaults
      → OnOk P (r, db)
      → OnOk P (commit before (r, db))
  OnOk-commit before db (err e) g h = tt
  OnOk-commit before db (ok a) g h = by_faults db.faults
    where
      by_faults :
          (fs : List (Option Thrown)) → OnOk P (commit before (ok a, record db { faults = fs }))
      by_faults [] = g a db [] h
      by_faults (none ∷ fs) = g a db fs h
      by_faults (some e ∷ fs) = tt

  pub OnOk-transact :
      (before : Db) (m : Sql A) (db : Db)
      → IgnoresFaults
      → ((fs : List (Option Thrown)) → OnOk P (m (record db { faults = fs })))
      → OnOk P (transact before m db)
  unfolding transact
  OnOk-transact before m db g h =
      let (r, db') = statement m db in OnOk-commit before db' r g (OnOk-statement m db h)

module _ {ℓ κ μ ν} {A : Type ℓ} {B : Type κ} (Q : A → Db → Type μ) (P : B → Db → Type ν) where
  pub OnOk-bind :
      (m : Sql A) (f : A → Sql B) (db : Db)
      → OnOk Q (m db)
      → ((a : A) (db' : Db) → Q a db' → OnOk P (f a db'))
      → OnOk P ((m >>= f) db)
  OnOk-bind m f db h g = by_result (m db).0 (m db).1 h
    where
      by_result : (r : Result A) (db' : Db) → OnOk Q (r, db') → OnOk P (continue r f db')
      by_result (ok a) db' q = g a db' q
      by_result (err e) db' q = tt
