-- ===== src/Accounts/Users.antt =====
-- Users: backend/src/modules/user/user.repository.ts and user.service.ts.
use background_job_runner.Prelude.{
  ℕ, Bool, false, ◌||◌, ◌∷◌, Option, none, some, ◌==◌, any, filter, head?, if◌then◌else◌, Text,
  text_eq,
}
use background_job_runner.Prelude.Texts.{trim, lower}
use background_job_runner.Errors.{Thrown, Result, ok, err, caused, conflict, database}
use background_job_runner.Accounts.Store.{
  User, Access, ◌>>◌, pure, statement, unique_violation, code_of, as_error,
}

-- The primary key and the unique index on `email`.
abbrev pub taken : User → User → Bool
taken u v = v.id == u.id || text_eq v.email u.email

abbrev pub insert_user : User → Access (Unit {0})
insert_user u s =
    if any (taken u) s.users
    then (err unique_violation, s)
    else (ok tt, record s { users = u ∷ s.users })

abbrev pub is_violation : Option ℕ → Bool
is_violation none = false
is_violation (some c) = c == 23505

abbrev pub failed_insert : Thrown → Thrown
failed_insert e = caused (if is_violation (code_of e) then conflict else database) none (as_error e)

abbrev pub caught {ℓ} : {A : Type ℓ} → Result A → Result A
caught (ok a) = ok a
caught (err e) = err (failed_insert e)

unfoldable pub insert : User → Access (Unit {0})
insert u s = let (r, s') = statement (insert_user u) s in (caught r, s')

unfoldable pub find_by_id : ℕ → Access (Option User)
find_by_id id = statement λ s. (ok (head? (filter (λ u. u.id == id) s.users)), s)

unfoldable pub find_by_email : Text → Access (Option User)
find_by_email email = statement λ s. (ok (head? (filter (λ u. text_eq u.email email) s.users)), s)

unfoldable pub normalize_email : Text → Text
normalize_email email = lower (trim email)

pub record CreateUserInput : Type 0 where
  pub email : Text
  pub name : Text
  pub password_hash : Option Text

abbrev pub new_user : ℕ → ℕ → CreateUserInput → User
new_user id at input = record {
  id = id;
  email = normalize_email input.email;
  name = input.name;
  password_hash = input.password_hash;
  created_at = at;
  updated_at = at;
}

-- `id` is the random uuid, `at` the application's clock.
unfoldable pub create_user : ℕ → ℕ → CreateUserInput → Access User
create_user id at input = insert (new_user id at input) >> pure (new_user id at input)

unfoldable pub find_user_by_email : Text → Access (Option User)
find_user_by_email email = find_by_email (normalize_email email)
