-- ===== src/Accounts/Login/Signup.antt =====
-- Whoever signs up can log in: signup and login of backend/src/modules/auth/auth.service.ts.
use background_job_runner.Prelude.{
  ℕ, ◌≡◌, refl, ap, ◌∙◌, List, [], ◌∷◌, some, false, any, Text, text_eq_refl,
}
use background_job_runner.Errors.{ok}
use background_job_runner.Engine.Numbers.{Numbers, ReadsDecimals}
use background_job_runner.Accounts.Store.{User, Tables, statement}
use background_job_runner.Accounts.Users.{
  taken, insert, new_user, create_user, find_by_email, find_user_by_email, normalize_email,
}
use background_job_runner.Accounts.Passwords.{
  Kdf, derive, cost, block_size, parallelism, is_empty, stored_text,
}
use background_job_runner.Accounts.Passwords.RoundTrip.{IsBase64, verify_stored, hash_stored}
use background_job_runner.Accounts.Login.{SignupInput, signup, login}

module _ (num : Numbers) (kdf : Kdf) (reads : ReadsDecimals num) (base64 : IsBase64 kdf) where
  abbrev pub signed_up : ℕ → ℕ → List ℕ → List ℕ → SignupInput → User
  signed_up id at salt key input = new_user id at (record {
    email = input.email;
    name = input.name;
    password_hash = some (stored_text kdf salt key);
  })

  signup-calm :
      (id at : ℕ) (salt key : List ℕ) (input : SignupInput) (s : Tables)
      → derive kdf input.password salt cost block_size parallelism ≡ ok key
      → any (taken (signed_up id at salt key input)) s.users ≡ false
      → signup num kdf id at salt input (record s { faults = [] }) ≡ (
        ok (signed_up id at salt key input),
        record s { users = signed_up id at salt key input ∷ s.users; faults = [] },
      )
  unfolding signup create_user insert statement
  signup-calm id at salt key input s d free =
      simp (hash_stored num kdf reads base64 input.password salt key d, free) refl

  login-calm :
      (id at : ℕ) (salt key decoy_salt : List ℕ) (input : SignupInput) (email : Text) (s : Tables)
      → derive kdf input.password salt cost block_size parallelism ≡ ok key
      → is_empty salt ≡ false
      → is_empty key ≡ false
      → normalize_email email ≡ normalize_email input.email
      → login num kdf decoy_salt email input.password
          (record s { users = signed_up id at salt key input ∷ s.users; faults = [] })
        ≡ (
          ok (signed_up id at salt key input),
          record s { users = signed_up id at salt key input ∷ s.users; faults = [] },
        )
  unfolding login find_user_by_email find_by_email statement
  login-calm id at salt key decoy_salt input email s d hs hk e =
      simp
        (
          e,
          text_eq_refl (normalize_email input.email),
          verify_stored num kdf reads base64 input.password salt key hs hk d,
        )
        refl

  -- Without faults, a sign-up with an id and an email that no user has adds a user, and then whoever logs in
  -- with that password, and with any spelling of the email that is normalised alike, is that user.
  pub login-signup :
      (id at : ℕ) (salt key decoy_salt : List ℕ) (input : SignupInput) (email : Text) (s : Tables)
      → s.faults ≡ []
      → is_empty salt ≡ false
      → is_empty key ≡ false
      → derive kdf input.password salt cost block_size parallelism ≡ ok key
      → any (taken (signed_up id at salt key input)) s.users ≡ false
      → normalize_email email ≡ normalize_email input.email
      → (v : Tables) × (signup num kdf id at salt input s
          ≡ (ok (signed_up id at salt key input), v))
        × (login num kdf decoy_salt email input.password v
            ≡ (ok (signed_up id at salt key input), v))
  login-signup id at salt key decoy_salt input email s calm hs hk d free e = (
    record s { users = signed_up id at salt key input ∷ s.users; faults = [] },
    ap (λ fs. signup num kdf id at salt input (record s { faults = fs })) calm
        ∙ signup-calm id at salt key input s d free,
    login-calm id at salt key decoy_salt input email s d hs hk e,
  )
