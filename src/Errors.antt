-- ===== src/Errors.antt =====
-- What is thrown: backend/src/lib/errors.ts, and the driver's errors with their `code` and `cause`.
-- Messages and correlation ids are not kept.
use background_job_runner.Prelude.{ℕ, ◌≡◌, Option, none, some}

-- The classes of errors.ts; `plain` is any other `Error`.
pub data ErrorClass : Type 0 where
  bad_request unauthorized forbidden not_found conflict database plain : ErrorClass

-- A thrown value: no `Error` at all, or an `Error` with its `code`, if it has one, and its cause.
pub data Thrown : Type 0 where
  not_error : Thrown
  error : ErrorClass → Option ℕ → Thrown
  caused : ErrorClass → Option ℕ → Thrown → Thrown

pub data Result {ℓ} (A : Type ℓ) : Type ℓ where
  ok : A → Result A
  err : Thrown → Result A

pub ok_injective {ℓ} : {A : Type ℓ} {a b : A} → ok a ≡ ok b → a ≡ b
ok_injective h = cc

abbrev pub app_error : ErrorClass → Thrown
app_error c = error c none

unfoldable pub class_code : ErrorClass → Option ℕ
class_code bad_request = some 400
class_code unauthorized = some 401
class_code forbidden = some 403
class_code not_found = some 404
class_code conflict = some 409
class_code database = some 500
class_code plain = none

-- `statusCode` of an `AppError`; any other thrown value has none.
unfoldable pub status_code : Thrown → Option ℕ
unfolding class_code
status_code not_error = none
status_code (error c k) = class_code c
status_code (caused c k e) = class_code c

-- A thrown value of this class: `error instanceof ConflictError`, and so on.
abbrev pub class_of : Thrown → ErrorClass
class_of not_error = plain
class_of (error c k) = c
class_of (caused c k e) = c
