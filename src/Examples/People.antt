-- ===== src/Examples/People.antt =====
-- The theorems on accounts, keys and credentials, at concrete inputs.
use background_job_runner.Prelude.{
  ℕ, ◌+◌, ◌-◌, ◌≡◌, ◌≢◌, refl, List, [], ◌∷◌, none, some, arith, false, Text, codes, map, text_eq,
}
use background_job_runner.Prelude.Texts.{includes}
use background_job_runner.Errors.{ok}
use background_job_runner.Repository.Sql.Results.{OnOk}
use background_job_runner.Engine.Numbers.{digit_numbers, digit_numbers-ReadsDecimals}
use background_job_runner.Accounts.Store.{User, ApiKey, Tables, statement}
use background_job_runner.Accounts.Users.{normalize_email}
use background_job_runner.Accounts.Keys.{
  ApiKeyIdentity, revoke_api_key, revoke_by_id, verify_api_key, find_active_by_hash,
  touch_last_used,
}
use background_job_runner.Accounts.Keys.Revoked.{pass, verify, after_calls, revoked-never_verified}
use background_job_runner.Accounts.Passwords.{Kdf, derive}
use background_job_runner.Accounts.Passwords.RoundTrip.{IsBase64}
use background_job_runner.Accounts.Login.{SignupInput, signup, login}
use background_job_runner.Accounts.Login.Signup.{signed_up, login-signup}
use background_job_runner.Http.Auth.{AuthRouteConfig, Request, Tokens, on_request}
use background_job_runner.Http.Auth.Admitted.{Admits, on_request-Admits}

abbrev ann : User
ann = record {
  id = 7;
  email = codes "ann@x.org";
  name = codes "Ann";
  password_hash = none;
  created_at = 1;
  updated_at = 1;
}

abbrev her_key : ApiKey
her_key = record {
  id = 3;
  user_id = 7;
  name = codes "ci";
  key_hash = codes "jrk_a";
  prefix = codes "jrk_a";
  last_used_at = none;
  revoked_at = none;
  created_at = 2;
}

-- A second key of hers.
abbrev other_key : ApiKey
other_key = record her_key { id = 4; key_hash = codes "jrk_b"; prefix = codes "jrk_b" }

abbrev tables : Tables
tables = record { users = ann ∷ []; keys = her_key ∷ other_key ∷ []; now = 5; faults = [] }

abbrev same_text : Text → Text
same_text s = s

revoked-never_verified_example :
    ◌≢◌ {A = ApiKeyIdentity}
      (record { key_id = 4; user_id = 7 })
      (record { key_id = 3; user_id = 7 })
unfolding revoke_api_key revoke_by_id statement verify_api_key find_active_by_hash touch_last_used
    after_calls text_eq
revoked-never_verified_example =
    revoked-never_verified same_text 7 3 tables (verify (codes "jrk_a") ∷ pass 9 [] ∷ [])
      (codes "jrk_b") (record { key_id = 4; user_id = 7 }) refl refl

-- Bytes are written as the characters from 1000 on, and a derived key is the password behind a 1.
abbrev shift_kdf : Kdf
shift_kdf = record {
  normalize = same_text;
  scrypt = λ password salt n r p maxmem. ok (1 ∷ password);
  encode = map (λ b. b + 1000);
  decode = map (λ b. b - 1000);
}

codes_plain : (bs : List ℕ) → includes 36 (map (λ b. b + 1000) bs) ≡ false
codes_plain [] = refl
codes_plain (b ∷ bs) = ground (arith, codes_plain bs)

codes_read : (bs : List ℕ) → map (λ b. b - 1000) (map (λ b. b + 1000) bs) ≡ bs
codes_read [] = refl
codes_read (b ∷ bs) = ground (arith, codes_read bs)

shift_kdf-IsBase64 : IsBase64 shift_kdf
shift_kdf-IsBase64 = record { decode-encode = codes_read; plain = codes_plain }

abbrev bob : SignupInput
bob = record { email = codes "Bob@x.org"; name = codes "Bob"; password = codes "correct horse" }

abbrev bobs_key : List ℕ
bobs_key = 1 ∷ codes "correct horse"

login-signup_example :
    (v : Tables) × (signup digit_numbers shift_kdf 8 6 (5 ∷ []) bob tables ≡ (
      ok (
          signed_up digit_numbers shift_kdf digit_numbers-ReadsDecimals shift_kdf-IsBase64 8 6
            (5 ∷ [])
            bobs_key
            bob),
      v,
    ))
    × (login digit_numbers shift_kdf (9 ∷ []) (codes " bob@X.org") (codes "correct horse") v ≡ (
      ok (
          signed_up digit_numbers shift_kdf digit_numbers-ReadsDecimals shift_kdf-IsBase64 8 6
            (5 ∷ [])
            bobs_key
            bob),
      v,
    ))
unfolding derive normalize_email text_eq
login-signup_example =
    login-signup digit_numbers shift_kdf digit_numbers-ReadsDecimals shift_kdf-IsBase64 8 6 (5 ∷ [])
      bobs_key (9 ∷ []) bob (codes " bob@X.org") tables refl refl refl refl refl refl

abbrev no_tokens : Tokens
no_tokens = record { sign = λ u. []; verify = λ s. none }

abbrev with_key : Request
with_key = record { authorization = some (codes "Bearer jrk_a"); session_cookie = none }

on_request-Admits_example :
    OnOk
      (Admits same_text no_tokens AuthRouteConfig.any_kind with_key tables)
      (on_request same_text no_tokens AuthRouteConfig.any_kind with_key tables)
on_request-Admits_example =
    on_request-Admits same_text no_tokens AuthRouteConfig.any_kind with_key tables
