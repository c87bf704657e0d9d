-- ===== src/Accounts/Passwords.antt =====
-- Password hashes: backend/src/lib/password.ts.
-- scrypt, the Unicode normal form and base64 are the platform's and parameters; scrypt throws for costs that
-- it does not take. The random salt is an argument.
pub mod Stored
pub mod RoundTrip
use background_job_runner.Prelude.{
  ℕ, ◌+◌, ◌*◌, Bool, true, false, ◌&&◌, ◌||◌, not, List, [], ◌∷◌, ◌++◌, Option, none, some, ◌==◌,
  leb, length, if◌then◌else◌, Text, codes, text_eq,
}
use background_job_runner.Prelude.Decimal.{decimal}
use background_job_runner.Prelude.Texts.{split}
use background_job_runner.Errors.{Result, ok, err}
use background_job_runner.Engine.Numbers.{Numbers}

pub record Kdf : Type 0 where
  -- `password.normalize('NFKC')`
  pub normalize : Text → Text
  -- By password, salt, N, r, p and maxmem.
  pub scrypt : Text → List ℕ → ℕ → ℕ → ℕ → ℕ → Result (List ℕ)
  -- base64
  pub encode : List ℕ → Text
  pub decode : Text → List ℕ

abbrev pub algorithm : Text
algorithm = codes "scrypt"

abbrev pub cost : ℕ
cost = 16384

abbrev pub block_size : ℕ
block_size = 8

abbrev pub parallelism : ℕ
parallelism = 1

abbrev pub max_cost : ℕ
max_cost = 1048576

abbrev pub max_block_size : ℕ
max_block_size = 32

abbrev pub max_parallelism : ℕ
max_parallelism = 8

pub record StoredHash : Type 0 where
  pub cost : ℕ
  pub block_size : ℕ
  pub parallelism : ℕ
  pub salt : List ℕ
  pub key : List ℕ

unfoldable pub memory_limit : ℕ → ℕ → ℕ → ℕ
memory_limit n r p = 256 * n * r + 128 * r * p + 1024 * 1024

unfoldable pub derive : Kdf → Text → List ℕ → ℕ → ℕ → ℕ → Result (List ℕ)
derive kdf password salt n r p = kdf.scrypt (kdf.normalize password) salt n r p (memory_limit n r p)

-- `parts.join('$')`
abbrev pub join : List Text → Text
join [] = []
join (p ∷ []) = p
join (p ∷ q ∷ ps) = p ++ 36 ∷ join (q ∷ ps)

abbrev pub stored_text : Kdf → List ℕ → List ℕ → Text
stored_text kdf salt key = join (
    algorithm
    ∷ decimal cost
    ∷ decimal block_size
    ∷ decimal parallelism
    ∷ kdf.encode salt
    ∷ kdf.encode key
    ∷ [])

abbrev pub encoded : Kdf → List ℕ → Result (List ℕ) → Result Text
encoded kdf salt (err e) = err e
encoded kdf salt (ok key) = ok (stored_text kdf salt key)

unfoldable pub hash_password : Kdf → List ℕ → Text → Result Text
hash_password kdf salt password =
    encoded kdf salt (derive kdf password salt cost block_size parallelism)

abbrev pub in_bounds : ℕ → Option ℕ → Option ℕ
in_bounds max none = none
in_bounds max (some n) = if leb 1 n && leb n max then some n else none

abbrev pub is_empty : List ℕ → Bool
is_empty [] = true
is_empty (_ ∷ _) = false

abbrev pub checked_fields : Option ℕ → Option ℕ → Option ℕ → List ℕ → List ℕ → Option StoredHash
checked_fields (some n) (some r) (some p) salt key =
    if is_empty salt || is_empty key
    then none
    else some (record { cost = n; block_size = r; parallelism = p; salt = salt; key = key })
checked_fields _ _ _ salt key = none

abbrev pub same_bytes : List ℕ → List ℕ → Bool
same_bytes a b = length a == length b && text_eq a b

abbrev pub compared : List ℕ → Result (List ℕ) → Result Bool
compared key (err e) = err e
compared key (ok candidate) = ok (same_bytes candidate key)

module _ (num : Numbers) (kdf : Kdf) where
  unfoldable pub parse_integer : Text → ℕ → Option ℕ
  parse_integer value max = in_bounds max (num.integer value)

  abbrev pub parse_parts : List Text → Option StoredHash
  parse_parts (name ∷ n ∷ r ∷ p ∷ salt ∷ key ∷ []) =
      if text_eq name algorithm
      then checked_fields (parse_integer n max_cost) (parse_integer r max_block_size)
          (parse_integer p max_parallelism) (kdf.decode salt) (kdf.decode key)
      else none
  parse_parts _ = none

  unfoldable pub parse_stored_hash : Text → Option StoredHash
  parse_stored_hash stored = parse_parts (split 36 stored)

  abbrev pub verify_parsed : Text → Option StoredHash → Result Bool
  verify_parsed password none = ok false
  verify_parsed password (some h) =
      compared h.key (derive kdf password h.salt h.cost h.block_size h.parallelism)

  unfoldable pub verify_password : Text → Option Text → Result Bool
  verify_password password none = ok false
  verify_password password (some []) = ok false
  verify_password password (some (c ∷ stored)) =
      verify_parsed password (parse_stored_hash (c ∷ stored))
