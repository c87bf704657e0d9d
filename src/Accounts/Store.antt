-- ===== src/Accounts/Store.antt =====
-- The tables of users and API keys, with the faults of the connection as in Repository/Sql. The
-- repositories of backend/src/modules do not wrap their statements, except the inserts.
use background_job_runner.Prelude.{ℕ, List, [], ◌∷◌, Option, none, some, Text}
use background_job_runner.Errors.{Thrown, not_error, error, caused, plain, Result, ok, err}

pub record User : Type 0 where
  pub id : ℕ
  pub email : Text
  pub name : Text
  pub password_hash : Option Text
  pub created_at : ℕ
  pub updated_at : ℕ

pub record ApiKey : Type 0 where
  pub id : ℕ
  pub user_id : ℕ
  pub name : Text
  pub key_hash : Text
  pub prefix : Text
  pub last_used_at : Option ℕ
  pub revoked_at : Option ℕ
  pub created_at : ℕ

pub record Tables : Type 0 where
  pub users : List User
  pub keys : List ApiKey
  pub now : ℕ
  pub faults : List (Option Thrown)

abbrev pub Access {ℓ} : Type ℓ → Type ℓ
Access A = Tables → Result A × Tables

abbrev pub pure {ℓ} : {A : Type ℓ} → A → Access A
pure a s = (ok a, s)

abbrev pub raise {ℓ} : {A : Type ℓ} → Thrown → Access A
raise e s = (err e, s)

abbrev pub continue {ℓ κ} : {A : Type ℓ} {B : Type κ} → Result A → (A → Access B) → Access B
continue (ok a) f s = f a s
continue (err e) f s = (err e, s)

infixl 10 ◌>>=◌ ◌>>◌
abbrev pub ◌>>=◌ {ℓ κ} : {A : Type ℓ} {B : Type κ} → Access A → (A → Access B) → Access B
◌>>=◌ m f s = let (r, s') = m s in continue r f s'

abbrev pub ◌>>◌ {ℓ κ} : {A : Type ℓ} {B : Type κ} → Access A → Access B → Access B
m >> k = m >>= λ _. k

-- A statement reaches the server, unless the driver throws first.
abbrev pub by_fault {ℓ} : {A : Type ℓ} → List (Option Thrown) → Access A → Access A
by_fault [] m s = m s
by_fault (none ∷ fs) m s = m (record s { faults = fs })
by_fault (some e ∷ fs) m s = (err e, record s { faults = fs })

unfoldable pub statement {ℓ} : {A : Type ℓ} → Access A → Access A
statement m s = by_fault s.faults m s

abbrev pub unique_violation : Thrown
unique_violation = error plain (some 23505)

abbrev pub foreign_key_violation : Thrown
foreign_key_violation = error plain (some 23503)

abbrev pub code_of : Thrown → Option ℕ
code_of not_error = none
code_of (error c code) = code
code_of (caused c code e) = code

abbrev pub as_error : Thrown → Thrown
as_error not_error = error plain none
as_error e = e
