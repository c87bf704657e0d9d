-- ===== src/Http/Errors.antt =====
-- The error handler of backend/src/plugins/error-handler.ts.
-- The framework's status texts and the error's own message are named, not spelled out; the correlation
-- id and the log are left out.
use background_job_runner.Prelude.{
  ℕ, ◌≤◌, ◌<◌, ◌≡◌, ◌≢◌, ◌⊎◌, Bool, true, false, ◌&&◌, Option, none, some, arith, leb, ltb, text_eq,
  Text, codes, if◌then◌else◌, inl, inr, refl, take,
}
use background_job_runner.Errors.{
  ErrorClass, bad_request, unauthorized, forbidden, not_found, conflict, database, plain, Thrown,
  not_error, error, caused, class_code, status_code,
}

-- What `FastifyError` adds: a code and a status.
pub record Foreign : Type 0 where
  pub code : Option Text
  pub status : Option ℕ

pub data Message : Type 0 where
  own : Message
  reason_for : ℕ → Message
  fixed : Text → Message

pub record Answer : Type 0 where
  pub status : ℕ
  pub message : Message

abbrev pub has_prefix : Option Text → Bool
has_prefix none = false
has_prefix (some code) = text_eq (take 4 code) (codes "FST_")

abbrev pub is_code : Option Text → Text → Bool
is_code none code = false
is_code (some c) code = text_eq c code

unfoldable pub is_fastify_error : Foreign → Bool
is_fastify_error f = has_prefix f.code

-- `clientStatusOf`
abbrev pub in_client_range : ℕ → Option ℕ
in_client_range n = if leb 400 n && ltb n 500 then some n else none

abbrev pub client_status_of : Option ℕ → Option ℕ
client_status_of none = none
client_status_of (some n) = in_client_range n

abbrev pub internal : Text
internal = codes "Internal Server Error"

abbrev pub answer_foreign : Bool → Bool → Option ℕ → Answer
answer_foreign true validation client =
    if validation
    then record { status = 400; message = fixed (codes "Validation error") }
    else elim client [
      | some n ↦ record { status = n; message = own }
      | none ↦ record { status = 500; message = fixed internal }
    ]
answer_foreign false validation (some n) = record { status = n; message = reason_for n }
answer_foreign false validation none = record { status = 500; message = fixed internal }

-- The branches of the handler, by the `statusCode` of an `AppError`.
abbrev pub answer_to : Option ℕ → Foreign → Answer
answer_to (some n) f = record { status = n; message = own }
answer_to none f =
    answer_foreign (is_fastify_error f) (is_code f.code (codes "FST_ERR_VALIDATION"))
      (client_status_of f.status)

unfoldable pub answer : Thrown → Foreign → Answer
answer e f = answer_to (status_code e) f

-- An answer is an error status, and of an error that is not the application's a server error shows
-- the fixed text only.
pub record IsAnswer (e : Thrown) (a : Answer) : Type 0 where
  pub status : (400 ≤ a.status) × (a.status < 600)
  pub hidden : (status_code e ≢ none) ⊎ (a.status < 500) ⊎ (a.message ≡ fixed internal)

class_code-range : (c : ErrorClass) (n : ℕ) → class_code c ≡ some n → (400 ≤ n) × (n < 600)
unfolding class_code
class_code-range bad_request n h = ground arith
class_code-range unauthorized n h = ground arith
class_code-range forbidden n h = ground arith
class_code-range not_found n h = ground arith
class_code-range conflict n h = ground arith
class_code-range database n h = ground arith
class_code-range plain n h = absurd (ground arith)

status_code-range : (e : Thrown) (n : ℕ) → status_code e ≡ some n → (400 ≤ n) × (n < 600)
unfolding status_code
status_code-range not_error n h = absurd (ground arith)
status_code-range (error c k) n h = class_code-range c n h
status_code-range (caused c k e) n h = class_code-range c n h

client_status-range : (o : Option ℕ) (n : ℕ) → client_status_of o ≡ some n → (400 ≤ n) × (n < 500)
client_status-range none n h = absurd (ground arith)
client_status-range (some m) n h = ground arith

IsAnswer-foreign :
    (e : Thrown) (fastify validation : Bool) (o : Option ℕ)
    → ((n : ℕ) → o ≡ some n → (400 ≤ n) × (n < 500))
    → IsAnswer e (answer_foreign fastify validation o)
IsAnswer-foreign e true true o r = record {
  status = (omega arith, omega arith);
  hidden = inr (inl (omega arith));
}
IsAnswer-foreign e true false (some n) r =
    let (lo, hi) = r n refl in record { status = (lo, omega (arith, hi)); hidden = inr (inl hi) }
IsAnswer-foreign e true false none r = record {
  status = (omega arith, omega arith);
  hidden = inr (inr refl);
}
IsAnswer-foreign e false validation (some n) r =
    let (lo, hi) = r n refl in record { status = (lo, omega (arith, hi)); hidden = inr (inl hi) }
IsAnswer-foreign e false validation none r = record {
  status = (omega arith, omega arith);
  hidden = inr (inr refl);
}

-- Every error is answered with a status from 400 to 599, and an unexpected error, which is not the
-- application's own and has no client status, with the fixed text: its message is not sent.
pub answer-IsAnswer : (e : Thrown) (f : Foreign) → IsAnswer e (answer e f)
unfolding answer
answer-IsAnswer e f = by_status (status_code e) refl
  where
    by_status : (o : Option ℕ) → status_code e ≡ o → IsAnswer e (answer_to o f)
    by_status (some n) h = record {
      status = status_code-range e n h;
      hidden = inl (λ q. ground (arith, h, q));
    }
    by_status none h =
        IsAnswer-foreign e (is_fastify_error f) (is_code f.code (codes "FST_ERR_VALIDATION"))
          (client_status_of f.status) (client_status-range f.status)
