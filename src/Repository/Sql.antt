-- ===== src/Repository/Sql.antt =====
-- Statements and transactions: `guarded` and `isUniqueViolation` of backend/src/engine/repository.ts,
-- `withTransaction` of backend/src/db.ts.
-- The driver may refuse any statement, BEGIN and COMMIT included: `faults` says, for each statement
-- to come, what it throws, if anything. `now` is the database's clock. A COMMIT that throws has rolled back: one
-- that was done but whose acknowledgement got lost is not represented.
pub mod Rules
pub mod Results
use background_job_runner.Prelude.{
  ℕ, zero, suc, Bool, false, ◌||◌, List, [], ◌∷◌, Option, none, some, ◌==◌, if◌then◌else◌,
}
use background_job_runner.Types.{TaskRow}
use background_job_runner.Types.Events.{TaskEventRow}
use background_job_runner.Errors.{
  Thrown, not_error, error, caused, conflict, database, plain, Result, ok, err,
}

pub record Db : Type 0 where
  pub tasks : List TaskRow
  pub events : List TaskEventRow
  pub next_event_id : ℕ
  pub now : ℕ
  pub faults : List (Option Thrown)

abbrev pub Sql {ℓ} : Type ℓ → Type ℓ
Sql A = Db → Result A × Db

abbrev pub pure {ℓ} : {A : Type ℓ} → A → Sql A
pure a db = (ok a, db)

abbrev pub continue {ℓ κ} : {A : Type ℓ} {B : Type κ} → Result A → (A → Sql B) → Sql B
continue (ok a) f db = f a db
continue (err e) f db = (err e, db)

infixl 10 ◌>>=◌ ◌>>◌
abbrev pub ◌>>=◌ {ℓ κ} : {A : Type ℓ} {B : Type κ} → Sql A → (A → Sql B) → Sql B
◌>>=◌ m f db = let (r, db') = m db in continue r f db'

abbrev pub ◌>>◌ {ℓ κ} : {A : Type ℓ} {B : Type κ} → Sql A → Sql B → Sql B
m >> k = m >>= λ _. k

-- A statement reaches the server, unless the driver throws first.
unfoldable pub statement {ℓ} : {A : Type ℓ} → Sql A → Sql A
statement m db = elim db.faults [
  | [] ↦ m db
  | none ∷ fs ↦ m (record db { faults = fs })
  | some e ∷ fs ↦ (err e, record db { faults = fs })
]

abbrev pub unique_violation : ℕ
unique_violation = 23505

abbrev pub cause_chain_limit : ℕ
cause_chain_limit = 5

abbrev pub is_code : Option ℕ → Bool
is_code none = false
is_code (some c) = c == unique_violation

-- `depth` counts the rounds left.
unfoldable pub chain_has_violation : ℕ → Thrown → Bool
chain_has_violation zero e = false
chain_has_violation (suc depth) not_error = false
chain_has_violation (suc depth) (error c code) = is_code code
chain_has_violation (suc depth) (caused c code e) = is_code code || chain_has_violation depth e

unfoldable pub is_unique_violation : Thrown → Bool
unfolding chain_has_violation
is_unique_violation e = chain_has_violation cause_chain_limit e

-- `error instanceof Error ? error : new Error(String(error))`
abbrev pub as_error : Thrown → Thrown
as_error not_error = error plain none
as_error e = e

unfoldable pub rethrown : Thrown → Thrown
rethrown e = caused (if is_unique_violation e then conflict else database) none (as_error e)

abbrev pub rethrow {ℓ} : {A : Type ℓ} → Result A → Result A
rethrow (ok a) = ok a
rethrow (err e) = err (rethrown e)

unfoldable pub guarded {ℓ} : {A : Type ℓ} → Sql A → Sql A
guarded m db = let (r, db') = m db in (rethrow r, db')

-- A sequence does not go back: event ids taken by a rolled back transaction are gone.
abbrev pub rollback : Db → Db → Db
rollback before db = record db { tasks = before.tasks; events = before.events }

abbrev pub commit {ℓ} : {A : Type ℓ} → Db → Result A × Db → Result A × Db
commit before (err e, db) = (err e, rollback before db)
commit before (ok a, db) = elim db.faults [
  | [] ↦ (ok a, db)
  | none ∷ fs ↦ (ok a, record db { faults = fs })
  | some e ∷ fs ↦ (err e, rollback before (record db { faults = fs }))
]

-- BEGIN, a block and COMMIT or ROLLBACK; `before` has the tables that a rollback leaves.
unfoldable pub transact {ℓ} : {A : Type ℓ} → Db → Sql A → Sql A
transact before m db = commit before (statement m db)

unfoldable pub with_transaction {ℓ} : {A : Type ℓ} → Sql A → Sql A
with_transaction m db = transact db m db
