-- ===== src/Accounts/Login.antt =====
-- Signing up and in: backend/src/modules/auth/auth.service.ts.
-- The uuid, the clock and the salts are arguments. The decoy, whose result is not used, is left out of the
-- result but may throw.
pub mod Signup
use background_job_runner.Prelude.{
  ℕ, Bool, true, false, List, [], ◌∷◌, Option, none, some, Text, codes,
}
use background_job_runner.Errors.{Result, ok, err, app_error, unauthorized}
use background_job_runner.Engine.Numbers.{Numbers}
use background_job_runner.Accounts.Store.{User, Tables, Access, ◌>>=◌, ◌>>◌, pure, raise}
use background_job_runner.Accounts.Users.{
  CreateUserInput, create_user, find_user_by_email, find_by_id,
}
use background_job_runner.Accounts.Passwords.{Kdf, hash_password, verify_password}

pub record SignupInput : Type 0 where
  pub email : Text
  pub name : Text
  pub password : Text

abbrev pub lift {ℓ} : {A : Type ℓ} → Result A → Access A
lift r s = (r, s)

abbrev pub decoy : Text
decoy = codes "decoy-for-constant-time-login"

abbrev pub or_unauthorized : User → Bool → Access User
or_unauthorized user true = pure user
or_unauthorized user false = raise (app_error unauthorized)

abbrev pub or_gone : Option User → Access User
or_gone none = raise (app_error unauthorized)
or_gone (some user) = pure user

unfoldable pub current_user : ℕ → Access User
current_user user_id = find_by_id user_id >>= or_gone

module _ (num : Numbers) (kdf : Kdf) where
  unfoldable pub signup : ℕ → ℕ → List ℕ → SignupInput → Access User
  signup id at salt input = lift (hash_password kdf salt input.password) >>= λ hash.
      create_user id at
        (record { email = input.email; name = input.name; password_hash = some hash })

  -- The miss path: `decoy_salt` is the salt of the decoy's hash.
  abbrev pub burn : List ℕ → Text → Access User
  burn decoy_salt password = lift (hash_password kdf decoy_salt decoy) >>= λ hash.
      lift (verify_password num kdf password (some hash)) >> raise (app_error unauthorized)

  abbrev pub check_hash : List ℕ → Text → User → Option Text → Access User
  check_hash decoy_salt password user none = burn decoy_salt password
  check_hash decoy_salt password user (some []) = burn decoy_salt password
  check_hash decoy_salt password user (some (c ∷ hash)) =
      lift (verify_password num kdf password (some (c ∷ hash))) >>= or_unauthorized user

  abbrev pub check_user : List ℕ → Text → Option User → Access User
  check_user decoy_salt password none = burn decoy_salt password
  check_user decoy_salt password (some user) =
      check_hash decoy_salt password user user.password_hash

  unfoldable pub login : List ℕ → Text → Text → Access User
  login decoy_salt email password = find_user_by_email email >>= check_user decoy_salt password
