-- ===== src/Accounts/Passwords/RoundTrip.antt =====
-- A hashed password verifies: hashPassword and verifyPassword of backend/src/lib/password.ts.
use background_job_runner.Prelude.{
  ℕ, ◌≡◌, refl, ap, ◌∙◌, List, [], ◌∷◌, some, arith, true, false, length, ==_refl, Text, text_eq,
  text_eq_refl,
}
use background_job_runner.Prelude.Decimal.{decimal}
use background_job_runner.Prelude.Texts.{split, includes, split-whole, split-append}
use background_job_runner.Errors.{ok}
use background_job_runner.Engine.Numbers.{Numbers, ReadsDecimals}
use background_job_runner.Accounts.Passwords.{
  Kdf, algorithm, cost, block_size, parallelism, derive, stored_text, encoded, hash_password,
  is_empty, compared, parse_integer, parse_parts, parse_stored_hash, verify_parsed, verify_password,
}

-- base64 is read back and has no dollar sign.
pub record IsBase64 (kdf : Kdf) : Type 0 where
  pub decode-encode : (bs : List ℕ) → kdf.decode (kdf.encode bs) ≡ bs
  pub plain : (bs : List ℕ) → includes 36 (kdf.encode bs) ≡ false

module _ (num : Numbers) (kdf : Kdf) (reads : ReadsDecimals num) (base64 : IsBase64 kdf) where
  split-stored_text :
      (salt key : List ℕ)
      → split 36 (stored_text kdf salt key)
        ≡ algorithm
          ∷ decimal cost
          ∷ decimal block_size
          ∷ decimal parallelism
          ∷ kdf.encode salt
          ∷ kdf.encode key
          ∷ []
  unfolding decimal split
  split-stored_text salt key =
      simp
        (
          split-append 36 (kdf.encode salt) (kdf.encode key) (IsBase64.plain base64 salt),
          split-whole 36 (kdf.encode key) (IsBase64.plain base64 key),
        )
        refl

  parse-stored_text :
      (salt key : List ℕ)
      → is_empty salt ≡ false
      → is_empty key ≡ false
      → parse_stored_hash num kdf (stored_text kdf salt key)
        ≡ some (record {
          cost = cost;
          block_size = block_size;
          parallelism = parallelism;
          salt = salt;
          key = key;
        })
  unfolding parse_stored_hash parse_integer text_eq
  parse-stored_text salt key hs hk =
      ap (parse_parts num kdf) (split-stored_text salt key)
      ∙ simp
          (
            ReadsDecimals.integer-decimal reads 16384 (omega arith),
            ReadsDecimals.integer-decimal reads 8 (omega arith),
            ReadsDecimals.integer-decimal reads 1 (omega arith),
            IsBase64.decode-encode base64 salt,
            IsBase64.decode-encode base64 key,
            hs,
            hk,
          )
          refl

  pub hash_stored :
      (password : Text) (salt key : List ℕ)
      → derive kdf password salt cost block_size parallelism ≡ ok key
      → hash_password kdf salt password ≡ ok (stored_text kdf salt key)
  unfolding hash_password
  hash_stored password salt key d = ap (encoded kdf salt) d

  pub verify_stored :
      (password : Text) (salt key : List ℕ)
      → is_empty salt ≡ false
      → is_empty key ≡ false
      → derive kdf password salt cost block_size parallelism ≡ ok key
      → verify_password num kdf password (some (stored_text kdf salt key)) ≡ ok true
  unfolding verify_password
  verify_stored password salt key hs hk d =
      ap (verify_parsed num kdf password) (parse-stored_text salt key hs hk)
      ∙ ap (compared key) d
      ∙ simp (==_refl (length key), text_eq_refl key) refl
