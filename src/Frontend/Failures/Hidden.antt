-- ===== src/Frontend/Failures/Hidden.antt =====
-- What a user learns of an error on the server: backend/src/plugins/error-handler.ts and
-- frontend/src/lib/api/errors.ts together.
use background_job_runner.Prelude.{ℕ, ◌≤◌, ◌≡◌, sym, ◌∙◌, Option, none, some, arith, Text}
use background_job_runner.Errors.{Thrown}
use background_job_runner.Http.Errors.{Foreign, Answer, Message, own, reason_for, fixed, answer}
use background_job_runner.Frontend.Failures.{
  Body, Failed, api, field, by_status, api_error_message, with_reference,
}

-- The text of an answer's message: the error's own, the framework's for a status, or a fixed one.
abbrev pub text_of : Text → (ℕ → Text) → Message → Text
text_of own_text reason own = own_text
text_of own_text reason (reason_for n) = reason n
text_of own_text reason (fixed t) = t

-- The answer as the frontend gets it.
pub received : Text → (ℕ → Text) → Text → Text → Answer → Failed
received own_text reason correlation_id axios_message a = api axios_message (
    some (record {
      status = a.status;
      body = some (record {
        message = some (text_of own_text reason a.message);
        sub_errors = none;
        correlation_id = some correlation_id;
      });
    }))

server_text :
    (axios : Text) (status : ℕ) (m : Option Text) (b : Option Body)
    → 500 ≤ status
    → by_status axios status m b ≡ with_reference (field (λ c. c.correlation_id) b)
server_text axios status none b h = ground arith
server_text axios status (some m) b h = ground arith

-- Of an error that is answered with a server error, the user is shown a text that does not depend on the
-- error's own message.
pub received-hides :
    (e : Thrown) (f : Foreign) (a b : Text) (reason : ℕ → Text)
    (correlation_id axios_message : Text)
    → 500 ≤ (answer e f).status
    → api_error_message (received a reason correlation_id axios_message (answer e f))
      ≡ api_error_message (received b reason correlation_id axios_message (answer e f))
unfolding received api_error_message field
received-hides e f a b reason correlation_id axios_message h =
    server_text axios_message (answer e f).status _ _ h
    ∙ sym (server_text axios_message (answer e f).status _ _ h)
