-- ===== src/Frontend/Failures.antt =====
-- What the user is told of a failed request: frontend/src/lib/api/errors.ts, with the retries and toasts of
-- query-client.ts and the interceptor of api-client.ts.
-- A body is given by its fields that are texts; a body that is no object has none.
pub mod Hidden
use background_job_runner.Prelude.{
  ℕ, Bool, true, false, ◌&&◌, ◌||◌, not, List, [], ◌∷◌, ◌++◌, Option, none, some, ◌==◌, leb, ltb,
  if◌then◌else◌, Text, codes,
}
use background_job_runner.Prelude.Texts.{starts_with}
use background_job_runner.Prelude.{text_eq}

pub record Body : Type 0 where
  pub message : Option Text
  pub sub_errors : Option Text
  pub correlation_id : Option Text

pub record ErrorResponse : Type 0 where
  pub status : ℕ
  pub body : Option Body

-- What was thrown: an `AxiosError` with its message, and with a response if one came; another `Error`;
-- `null` or `undefined`; any other value as `String` writes it.
pub data Failed : Type 0 where
  api : Text → Option ErrorResponse → Failed
  exception : Text → Failed
  nothing : Failed
  other : Text → Failed

abbrev pub network_message : Text
network_message = codes "Cannot reach the API. Is the backend running?"

abbrev pub server_message : Text
server_message = codes "Something went wrong on the server."

abbrev pub fallback_message : Text
fallback_message = codes "Something went wrong."

abbrev pub given_text : Option Text → Option Text
given_text none = none
given_text (some []) = none
given_text (some (c ∷ s)) = some (c ∷ s)

-- `stringField` of each key.
unfoldable pub field : (Body → Option Text) → Option Body → Option Text
field key none = none
field key (some body) = given_text (key body)

unfoldable pub api_error_status : Failed → Option ℕ
api_error_status (api message (some r)) = some r.status
api_error_status _ = none

abbrev pub body_of : Failed → Option Body
body_of (api message (some r)) = r.body
body_of _ = none

unfoldable pub api_correlation_id : Failed → Option Text
api_correlation_id e = field (λ b. b.correlation_id) (body_of e)

abbrev pub or_fallback : Text → Text
or_fallback [] = fallback_message
or_fallback (c ∷ s) = c ∷ s

-- ` — `
abbrev pub dash : Text
dash = 32 ∷ 8212 ∷ 32 ∷ []

abbrev pub with_detail : Option Text → Text → Text
with_detail none sub_errors = sub_errors
with_detail (some message) sub_errors = message ++ dash ++ sub_errors

abbrev pub with_reference : Option Text → Text
with_reference none = server_message
with_reference (some id) = server_message ++ codes " (ref: " ++ id ++ codes ")"

abbrev pub is_client_error : ℕ → Bool
is_client_error status = leb 400 status && ltb status 500

abbrev pub by_status : Text → ℕ → Option Text → Option Body → Text
by_status own status (some message) body =
    if is_client_error status
    then message
    else if leb 500 status
    then with_reference (field (λ b. b.correlation_id) body)
    else or_fallback own
by_status own status none body =
    if leb 500 status then with_reference (field (λ b. b.correlation_id) body) else or_fallback own

abbrev pub response_message : Text → ErrorResponse → Option Text → Text
response_message own r (some sub_errors) = with_detail (field (λ b. b.message) r.body) sub_errors
response_message own r none = by_status own r.status (field (λ b. b.message) r.body) r.body

unfoldable pub api_error_message : Failed → Text
api_error_message (api own none) = network_message
api_error_message (api own (some r)) = response_message own r (field (λ b. b.sub_errors) r.body)
api_error_message (exception own) = or_fallback own
api_error_message nothing = fallback_message
api_error_message (other s) = s

-- `meta.suppressErrorToast`
pub data Suppress : Type 0 where
  unset : Suppress
  always : Bool → Suppress
  matching : (Failed → Bool) → Suppress

unfoldable pub is_suppressed : Suppress → Failed → Bool
is_suppressed unset e = false
is_suppressed (always b) e = b
is_suppressed (matching f) e = f e

-- The toast of a failed mutation, if there is one.
unfoldable pub on_error : Suppress → Failed → Option Text
on_error suppress e = if is_suppressed suppress e then none else some (api_error_message e)

abbrev pub is_client_status : Option ℕ → Bool
is_client_status none = false
is_client_status (some n) = is_client_error n

-- `retry` of a query.
unfoldable pub retries : ℕ → Failed → Bool
retries failure_count e =
    if is_client_status (api_error_status e) then false else ltb failure_count 1

-- `url.includes(part)`
abbrev pub contains : Text → Text → Bool
contains [] part = starts_with [] part
contains (c ∷ s) part = starts_with (c ∷ s) part || contains s part

unfoldable pub is_auth_request : Option Text → Bool
is_auth_request none = false
is_auth_request (some url) = contains url (codes "/auth/")

abbrev pub is_status : Option ℕ → ℕ → Bool
is_status none n = false
is_status (some m) n = m == n

-- Whether the interceptor goes to the login page; `path` is the page's, if there is a window.
abbrev pub leaves : Option Text → Bool
leaves none = false
leaves (some path) = not (text_eq path (codes "/login"))

unfoldable pub redirects_to_login : Failed → Option Text → Option Text → Bool
redirects_to_login e url path =
    is_status (api_error_status e) 401 && not (is_auth_request url) && leaves path
