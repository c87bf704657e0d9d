-- ===== src/Repository/Sql/Rules.antt =====
-- What a returned result says of the steps that gave it, and what a thrown one leaves.
use background_job_runner.Prelude.{◌≡◌, refl, ap, List, [], ◌∷◌, Option, none, some}
use background_job_runner.Errors.{Thrown, Result, ok, err}
use background_job_runner.Repository.Sql.{
  Db, Sql, continue, ◌>>=◌, statement, rethrow, guarded, commit, transact, with_transaction,
}

-- The tables of two states are the same; clock, sequence and connection may differ.
pub record SameTables (db db' : Db) : Type 0 where
  pub tasks : db'.tasks ≡ db.tasks
  pub events : db'.events ≡ db.events

module _ {ℓ} {A : Type ℓ} where
  -- Two results are not one another's.
  pub err-ne-ok :
      {e : Thrown} {a : A} {db db' : Db} → ◌≡◌ {A = Result A × Db} (err e, db) (ok a, db') → ⊥
  err-ne-ok h = cc (ap (λ (r : Result A × Db). r.0) h)

  result_or : A → Result A → A
  result_or d (ok a) = a
  result_or d (err e) = d

  pub ok-injective :
      {a b : A} {db db' : Db}
      → ◌≡◌ {A = Result A × Db} (ok a, db) (ok b, db')
      → (a ≡ b) × (db ≡ db')
  unfolding result_or
  ok-injective {a} h =
      (ap (λ (r : Result A × Db). result_or a r.0) h, ap (λ (r : Result A × Db). r.1) h)

  pub statement_rule {κ} :
      (P : Result A × Db → Type κ) (m : Sql A) (db : Db)
      → ((e : Thrown) (fs : List (Option Thrown)) → P (err e, record db { faults = fs }))
      → ((fs : List (Option Thrown)) → P (m (record db { faults = fs })))
      → P (statement m db)
  unfolding statement
  statement_rule P m db thrown run = go db.faults refl
    where
      go : (fs : List (Option Thrown)) → db.faults ≡ fs → P (statement m db)
      go [] e = rw e (rw e at (run db.faults))
      go (none ∷ fs) e = rw e (run fs)
      go (some x ∷ fs) e = rw e (thrown x fs)

  -- A statement that returned has run, on a state whose tables are the ones it was given.
  pub statement-ok :
      (m : Sql A) (db : Db) {a : A} {db' : Db}
      → statement m db ≡ (ok a, db')
      → (fs : List (Option Thrown)) × (m (record db { faults = fs }) ≡ (ok a, db'))
  statement-ok m db {a} {db'} =
      statement_rule
        (λ r.
          r ≡ (ok a, db')
          → (fs : List (Option Thrown)) × (m (record db { faults = fs }) ≡ (ok a, db')))
        m db (λ e fs h. absurd (err-ne-ok h)) (λ fs h. (fs, h))

  pub guarded-ok :
      (m : Sql A) (db : Db) {a : A} {db' : Db} → guarded m db ≡ (ok a, db') → m db ≡ (ok a, db')
  unfolding guarded
  guarded-ok m db {a} {db'} = go (m db)
    where
      go :
          (r : Result A × Db)
          → ◌≡◌ {A = Result A × Db} (rethrow r.0, r.1) (ok a, db')
          → r ≡ (ok a, db')
      go (ok b, d) h = h
      go (err e, d) h = absurd (err-ne-ok h)

  -- What a transaction comes to: it throws and the tables are those of `before`, or the block returned
  -- and is committed.
  pub transact_rule {κ} :
      (P : Result A × Db → Type κ) (m : Sql A) (before db : Db)
      → ((e : Thrown) (db' : Db) → SameTables before db' → P (err e, db'))
      → ((fs gs : List (Option Thrown)) (a : A) (db' : Db)
          → m (record db { faults = fs }) ≡ (ok a, db')
          → P (ok a, record db' { faults = gs }))
      → P (transact before m db)
  unfolding transact
  transact_rule P m before db thrown committed =
      statement_rule (λ r. P (commit before r)) m db
        (λ e fs. thrown e _ (record { tasks = refl; events = refl }))
        (λ fs. go fs (m (record db { faults = fs })) refl)
    where
      close :
          (fs : List (Option Thrown)) (a : A) (d : Db)
          → m (record db { faults = fs }) ≡ (ok a, d)
          → (gs : List (Option Thrown)) → d.faults ≡ gs
          → P (commit before (ok a, d))
      close fs a d h [] e = rw e (committed fs d.faults a d h)
      close fs a d h (none ∷ gs) e = rw e (committed fs gs a d h)
      close fs a d h (some x ∷ gs) e = rw e (thrown x _ (record { tasks = refl; events = refl }))

      go :
          (fs : List (Option Thrown)) (r : Result A × Db)
          → m (record db { faults = fs }) ≡ r
          → P (commit before r)
      go fs (err x, d) h = thrown x _ (record { tasks = refl; events = refl })
      go fs (ok a, d) h = close fs a d h d.faults refl

  pub with_transaction_rule {κ} :
      (P : Result A × Db → Type κ) (m : Sql A) (db : Db)
      → ((e : Thrown) (db' : Db) → SameTables db db' → P (err e, db'))
      → ((fs gs : List (Option Thrown)) (a : A) (db' : Db)
          → m (record db { faults = fs }) ≡ (ok a, db')
          → P (ok a, record db' { faults = gs }))
      → P (with_transaction m db)
  unfolding with_transaction
  with_transaction_rule P m db = transact_rule P m db db

module _ {ℓ κ} {A : Type ℓ} {B : Type κ} where
  pub bind-ok :
      (m : Sql A) (f : A → Sql B) (db : Db) {b : B} {db' : Db}
      → (m >>= f) db ≡ (ok b, db')
      → (a : A) × (mid : Db) × (m db ≡ (ok a, mid)) × (f a mid ≡ (ok b, db'))
  bind-ok m f db {b} {db'} h = go (m db) refl h
    where
      go :
          (r : Result A × Db)
          → m db ≡ r
          → continue r.0 f r.1 ≡ (ok b, db')
          → (a : A) × (mid : Db) × (m db ≡ (ok a, mid)) × (f a mid ≡ (ok b, db'))
      go (ok a, d) e h = (a, d, e, h)
      go (err x, d) e h = absurd (err-ne-ok h)
