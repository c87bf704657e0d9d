-- ===== src/Http/AccountRoutes.antt =====
-- The routes of accounts and keys: backend/src/modules/auth/auth.routes.ts and apikey/apikey.routes.ts, with
-- the schemas of their requests and answers.
-- A session cookie that a route sets or clears is part of its answer. Formats of texts are the framework's.
use background_job_runner.Prelude.{ℕ, Bool, true, false, ◌&&◌, List, map, Option, leb, Text}
use background_job_runner.Prelude.Texts.{characters}
use background_job_runner.Engine.Numbers.{Numbers}
use background_job_runner.Accounts.Store.{User, ApiKey, Access, ◌>>=◌, pure}
use background_job_runner.Accounts.Keys.{
  Paginated, CreatedApiKey, list_api_keys, create_api_key, revoke_api_key,
}
use background_job_runner.Accounts.Passwords.{Kdf}
use background_job_runner.Accounts.Login.{SignupInput, lift, signup, login, current_user}
use background_job_runner.Http.Auth.{AuthKind, AuthContext, AuthRouteConfig, Tokens, require_auth}

pub record UserResponse : Type 0 where
  pub id : ℕ
  pub email : Text
  pub name : Text
  pub created_at : ℕ
  pub updated_at : ℕ

unfoldable pub to_user_response : User → UserResponse
to_user_response u = record {
  id = u.id;
  email = u.email;
  name = u.name;
  created_at = u.created_at;
  updated_at = u.updated_at;
}

pub record ApiKeyResponse : Type 0 where
  pub id : ℕ
  pub name : Text
  pub prefix : Text
  pub last_used_at : Option ℕ
  pub created_at : ℕ

unfoldable pub to_api_key_response : ApiKey → ApiKeyResponse
to_api_key_response k = record {
  id = k.id;
  name = k.name;
  prefix = k.prefix;
  last_used_at = k.last_used_at;
  created_at = k.created_at;
}

abbrev pub sized : ℕ → ℕ → Text → Bool
sized lo hi s = leb lo (characters s) && leb (characters s) hi

unfoldable pub valid_signup_body : SignupInput → Bool
valid_signup_body b = sized 5 320 b.email && sized 1 100 b.name && sized 8 256 b.password

unfoldable pub valid_login_body : Text → Text → Bool
valid_login_body email password = sized 5 320 email && sized 8 256 password

unfoldable pub valid_key_name : Text → Bool
valid_key_name name = sized 1 100 name

-- What a route does to the session cookie.
pub data Cookie : Type 0 where
  kept cleared : Cookie
  set : Text → Cookie

pub record Answer {ℓ} (A : Type ℓ) : Type ℓ where
  pub status : ℕ
  pub cookie : Cookie
  pub body : A

abbrev pub reply {ℓ} : {A : Type ℓ} → ℕ → Cookie → A → Access (Answer A)
reply status cookie body = pure (record { status = status; cookie = cookie; body = body })

pub record SessionResponse : Type 0 where
  pub user : UserResponse
  pub token : Text
  pub expires_in : ℕ

pub record MeResponse : Type 0 where
  pub user : UserResponse
  pub kind : AuthKind

-- `config.auth` of the key routes.
abbrev pub session_only : AuthRouteConfig
session_only = AuthRouteConfig.kinds true false

module _ (tokens : Tokens) (session_ttl_seconds : ℕ) where
  abbrev pub issue_session : User → SessionResponse
  issue_session user = record {
    user = to_user_response user;
    token = tokens.sign user.id;
    expires_in = session_ttl_seconds;
  }

  abbrev pub with_session : ℕ → User → Access (Answer SessionResponse)
  with_session status user = reply status (Cookie.set (tokens.sign user.id)) (issue_session user)

  module _ (num : Numbers) (kdf : Kdf) where
    unfoldable pub signup_route : ℕ → ℕ → List ℕ → SignupInput → Access (Answer SessionResponse)
    signup_route id at salt body = signup num kdf id at salt body >>= with_session 201

    unfoldable pub login_route : List ℕ → Text → Text → Access (Answer SessionResponse)
    login_route decoy_salt email password =
        login num kdf decoy_salt email password >>= with_session 200

unfoldable pub logout_route : Access (Answer (Unit {0}))
logout_route = reply 204 Cookie.cleared tt

abbrev pub shown_as : AuthKind → User → Access (Answer MeResponse)
shown_as kind user = reply 200 Cookie.kept (record { user = to_user_response user; kind = kind })

unfoldable pub me_route : Option AuthContext → Access (Answer MeResponse)
me_route auth =
    lift (require_auth auth) >>= λ context. current_user context.user_id >>= shown_as context.kind

-- A page of responses.
abbrev pub page_response : Paginated ApiKey → Paginated ApiKeyResponse
page_response p = record {
  data_page = map to_api_key_response p.data_page;
  count = p.count;
  limit = p.limit;
  page = p.page;
}

unfoldable pub list_keys_route :
    Option AuthContext → Option ℕ → Option ℕ → Access (Answer (Paginated ApiKeyResponse))
list_keys_route auth limit page = lift (require_auth auth) >>= λ context.
    list_api_keys context.user_id limit page >>= λ result.
    reply 200 Cookie.kept (page_response result)

pub record CreatedApiKeyResponse : Type 0 where
  pub api_key : ApiKeyResponse
  pub key : Text

abbrev pub created_response : CreatedApiKey → CreatedApiKeyResponse
created_response c = record { api_key = to_api_key_response c.api_key; key = c.plaintext }

unfoldable pub create_key_route :
    (Text → Text) → Option AuthContext → Text → ℕ → ℕ → Text → Access (Answer CreatedApiKeyResponse)
create_key_route hash_key auth name id at random = lift (require_auth auth) >>= λ context.
    create_api_key hash_key context.user_id name id at random >>= λ created.
    reply 201 Cookie.kept (created_response created)

unfoldable pub revoke_key_route : Option AuthContext → ℕ → Access (Answer (Unit {0}))
revoke_key_route auth id = lift (require_auth auth) >>= λ context.
    revoke_api_key context.user_id id >>= λ done. reply 204 Cookie.kept tt
