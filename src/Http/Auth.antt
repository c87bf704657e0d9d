-- ===== src/Http/Auth.antt =====
-- Which requests are let in: backend/src/plugins/auth.ts.
-- The signing of tokens is the platform's: a token's verification gives its subject, if that is a non-empty
-- string, or throws. A subject is the number of the user that it names.
pub mod Admitted
use background_job_runner.Prelude.{
  ℕ, Bool, true, false, List, [], ◌∷◌, Option, none, some, drop, if◌then◌else◌, Text, codes,
}
use background_job_runner.Prelude.Texts.{starts_with, trim, lower}
use background_job_runner.Errors.{Result, ok, err, app_error, unauthorized, forbidden}
use background_job_runner.Accounts.Store.{Access, ◌>>=◌, pure, raise}
use background_job_runner.Accounts.Keys.{ApiKeyIdentity, api_key_prefix, verify_api_key}

pub data AuthKind : Type 0 where
  session key : AuthKind

pub record AuthContext : Type 0 where
  pub user_id : ℕ
  pub kind : AuthKind
  pub key_id : Option ℕ

-- `config.auth` of a route: `false` or nothing, `true`, or the kinds that are `true`.
pub data AuthRouteConfig : Type 0 where
  public any_kind : AuthRouteConfig
  kinds : Bool → Bool → AuthRouteConfig

-- The headers that are read.
pub record Request : Type 0 where
  pub authorization : Option Text
  pub session_cookie : Option Text

abbrev pub bearer_scheme : Text
bearer_scheme = codes "bearer "

abbrev pub non_empty : Text → Option Text
non_empty [] = none
non_empty (c ∷ s) = some (c ∷ s)

abbrev pub given_text : Option Text → Option Text
given_text none = none
given_text (some s) = non_empty s

abbrev pub token_of : Option Text → Option Text
token_of none = none
token_of (some header) =
    if starts_with (lower header) bearer_scheme then non_empty (trim (drop 7 header)) else none

unfoldable pub read_bearer_token : Request → Option Text
read_bearer_token req = token_of req.authorization

-- `requireAuth(req)`
unfoldable pub require_auth : Option AuthContext → Result AuthContext
require_auth none = err (app_error unauthorized)
require_auth (some context) = ok context

unfoldable pub is_kind_allowed : AuthRouteConfig → AuthKind → Bool
is_kind_allowed AuthRouteConfig.any_kind kind = true
is_kind_allowed AuthRouteConfig.public kind = false
is_kind_allowed (AuthRouteConfig.kinds by_session by_key) AuthKind.session = by_session
is_kind_allowed (AuthRouteConfig.kinds by_session by_key) AuthKind.key = by_key

abbrev pub session_context : ℕ → AuthContext
session_context user_id = record { user_id = user_id; kind = AuthKind.session; key_id = none }

abbrev pub key_context : ApiKeyIdentity → AuthContext
key_context i = record { user_id = i.user_id; kind = AuthKind.key; key_id = some i.key_id }

abbrev pub as_session : Option ℕ → Option AuthContext
as_session none = none
as_session (some user_id) = some (session_context user_id)

abbrev pub as_key : Option ApiKeyIdentity → Option AuthContext
as_key none = none
as_key (some i) = some (key_context i)

pub record Tokens : Type 0 where
  pub sign : ℕ → Text
  -- The subject of a token that verifies; no subject, or no valid token, is `none`.
  pub verify : Text → Option ℕ

module _ (hash_key : Text → Text) (tokens : Tokens) where
  unfoldable pub verify_session_token : Text → Option AuthContext
  verify_session_token token = as_session (tokens.verify token)

  unfoldable pub verify_api_key_token : Text → Access (Option AuthContext)
  verify_api_key_token token = verify_api_key hash_key token >>= λ i. pure (as_key i)

  abbrev pub by_cookie : Option Text → Access (Option AuthContext)
  by_cookie none = pure none
  by_cookie (some cookie) = pure (verify_session_token cookie)

  abbrev pub by_token : Option Text → Option Text → Access (Option AuthContext)
  by_token none cookie = by_cookie cookie
  by_token (some bearer) cookie =
      if starts_with bearer api_key_prefix
      then verify_api_key_token bearer
      else pure (verify_session_token bearer)

  unfoldable pub resolve_credential : Request → Access (Option AuthContext)
  resolve_credential req = by_token (read_bearer_token req) (given_text req.session_cookie)

  abbrev pub admit : AuthRouteConfig → Option AuthContext → Access (Option AuthContext)
  admit route none = raise (app_error unauthorized)
  admit route (some context) =
      if is_kind_allowed route context.kind
      then pure (some context)
      else raise (app_error forbidden)

  -- The hook: what it leaves on the request, if it does not throw.
  unfoldable pub on_request : AuthRouteConfig → Request → Access (Option AuthContext)
  on_request AuthRouteConfig.public req = pure none
  on_request route req = resolve_credential req >>= admit route
