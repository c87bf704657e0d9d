-- ===== src/Http/Auth/Admitted.antt =====
-- Who is let in: the hook of backend/src/plugins/auth.ts.
use background_job_runner.Prelude.{ℕ, ◌≡◌, refl, true, false, Option, none, some, if_elim, Text}
use background_job_runner.Prelude.Texts.{starts_with}
use background_job_runner.Errors.{Result, ok, err}
use background_job_runner.Repository.Sql.Results.{OnOk}
use background_job_runner.Accounts.Store.{Tables, Access, continue, ◌>>=◌, pure}
use background_job_runner.Accounts.Keys.{ApiKeyIdentity, api_key_prefix, verify_api_key}
use background_job_runner.Accounts.Keys.Verified.{IsKeyOf, IsGood, verify-IsGood}
use background_job_runner.Http.Auth.{
  AuthContext, AuthRouteConfig, Request, Tokens, given_text, read_bearer_token, is_kind_allowed,
  session_context, key_context, as_session, as_key, verify_session_token, verify_api_key_token,
  by_token, resolve_credential, admit, on_request,
}

module _ (hash_key : Text → Text) (tokens : Tokens) where
  -- The credential of a request: a session token, as bearer or, with no bearer, as cookie, or an API key
  -- that is active in the tables.
  pub data Presents (req : Request) (s : Tables) : AuthContext → Type 0 where
    bearer_session :
        {token : Text} {user_id : ℕ}
        → read_bearer_token req ≡ some token
        → starts_with token api_key_prefix ≡ false
        → tokens.verify token ≡ some user_id
        → Presents req s (session_context user_id)
    cookie_session :
        {token : Text} {user_id : ℕ}
        → read_bearer_token req ≡ none
        → given_text req.session_cookie ≡ some token
        → tokens.verify token ≡ some user_id
        → Presents req s (session_context user_id)
    bearer_key :
        {token : Text} {i : ApiKeyIdentity}
        → read_bearer_token req ≡ some token
        → IsKeyOf hash_key s token i
        → Presents req s (key_context i)

  abbrev MayPresent : Request → Tables → Option AuthContext → Tables → Type 0
  MayPresent req s none v = Unit
  MayPresent req s (some context) v = Presents req s context

  -- Nothing is left on a request to a public route; elsewhere an allowed credential.
  abbrev pub Admits : AuthRouteConfig → Request → Tables → Option AuthContext → Tables → Type 0
  Admits route req s none v = route ≡ AuthRouteConfig.public
  Admits route req s (some context) v =
      Presents req s context × (is_kind_allowed route context.kind ≡ true)

  OnOk-access :
      {A : Type 0} {B : Type 0} (Q : A → Tables → Type 0) (P : B → Tables → Type 0)
      (f : A → Access B) (r : Result A × Tables)
      → OnOk Q r
      → ((a : A) (v : Tables) → Q a v → OnOk P (f a v))
      → OnOk P (continue r.0 f r.1)
  OnOk-access Q P f (ok a, v) q g = g a v q
  OnOk-access Q P f (err e, v) q g = tt

  bearer-MayPresent :
      (req : Request) (s : Tables) (token : Text)
      → read_bearer_token req ≡ some token
      → starts_with token api_key_prefix ≡ false
      → (o : Option ℕ) → tokens.verify token ≡ o
      → MayPresent req s (as_session o) s
  bearer-MayPresent req s token b p none e = tt
  bearer-MayPresent req s token b p (some u) e = bearer_session b p e

  cookie-MayPresent :
      (req : Request) (s : Tables) (token : Text)
      → read_bearer_token req ≡ none
      → given_text req.session_cookie ≡ some token
      → (o : Option ℕ) → tokens.verify token ≡ o
      → MayPresent req s (as_session o) s
  cookie-MayPresent req s token b c none e = tt
  cookie-MayPresent req s token b c (some u) e = cookie_session b c e

  key-MayPresent :
      (req : Request) (s : Tables) (token : Text)
      → read_bearer_token req ≡ some token
      → OnOk (MayPresent req s) (verify_api_key_token hash_key tokens token s)
  unfolding verify_api_key_token
  key-MayPresent req s token b =
      OnOk-access (IsGood hash_key s token) (MayPresent req s) (λ i. pure (as_key i))
        (verify_api_key hash_key token s) (verify-IsGood hash_key s token) known
    where
      known :
          (o : Option ApiKeyIdentity) (v : Tables)
          → IsGood hash_key s token o v
          → MayPresent req s (as_key o) v
      known none v g = tt
      known (some i) v g = bearer_key b g

  token-MayPresent :
      (req : Request) (s : Tables) (bearer cookie : Option Text)
      → read_bearer_token req ≡ bearer
      → given_text req.session_cookie ≡ cookie
      → OnOk (MayPresent req s) (by_token hash_key tokens bearer cookie s)
  unfolding verify_session_token
  token-MayPresent req s none none b c = tt
  token-MayPresent req s none (some token) b c =
      cookie-MayPresent req s token b c (tokens.verify token) refl
  token-MayPresent req s (some token) cookie b c =
      if_elim (λ (m : Access (Option AuthContext)). OnOk (MayPresent req s) (m s))
        (starts_with token api_key_prefix) _ _ (λ p. key-MayPresent req s token b)
        (λ p. bearer-MayPresent req s token b p (tokens.verify token) refl)

  admit-Admits :
      (route : AuthRouteConfig) (req : Request) (s : Tables) (o : Option AuthContext) (v : Tables)
      → MayPresent req s o v
      → OnOk (Admits route req s) (admit hash_key tokens route o v)
  admit-Admits route req s none v h = tt
  admit-Admits route req s (some context) v h =
      if_elim (λ (m : Access (Option AuthContext)). OnOk (Admits route req s) (m v))
        (is_kind_allowed route context.kind) _ _ (λ e. (h, e)) (λ _. tt)

  resolved-Admits :
      (route : AuthRouteConfig) (req : Request) (s : Tables)
      → OnOk
          (Admits route req s)
          ((resolve_credential hash_key tokens req >>= admit hash_key tokens route) s)
  unfolding resolve_credential
  resolved-Admits route req s =
      OnOk-access (MayPresent req s) (Admits route req s) (admit hash_key tokens route) _
        (token-MayPresent req s (read_bearer_token req) (given_text req.session_cookie) refl refl)
        (admit-Admits route req s)

  -- A request that the hook lets through to a route that is not public carries a credential of a kind that
  -- the route allows: a session token that verifies for the user, or the plaintext of an API key of the user
  -- that is in the tables and not revoked.
  pub on_request-Admits :
      (route : AuthRouteConfig) (req : Request) (s : Tables)
      → OnOk (Admits route req s) (on_request hash_key tokens route req s)
  unfolding on_request
  on_request-Admits AuthRouteConfig.public req s = refl
  on_request-Admits AuthRouteConfig.any_kind req s = resolved-Admits AuthRouteConfig.any_kind req s
  on_request-Admits (AuthRouteConfig.kinds a b) req s =
      resolved-Admits (AuthRouteConfig.kinds a b) req s
