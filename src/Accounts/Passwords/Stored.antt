-- ===== src/Accounts/Passwords/Stored.antt =====
-- What a stored hash can ask of scrypt: parseStoredHash of backend/src/lib/password.ts.
use background_job_runner.Prelude.{
  ℕ, zero, suc, ◌*◌, ◌≤◌, ◌≡◌, refl, List, [], ◌∷◌, Option, none, some, arith, some_injective,
  false, Bool-cases, inl, inr, ◌||◌, Text, text_eq, subst,
}
use background_job_runner.Prelude.Texts.{split}
use background_job_runner.Engine.Numbers.{Numbers}
use background_job_runner.Accounts.Passwords.{
  Kdf, StoredHash, algorithm, memory_limit, in_bounds, is_empty, checked_fields, parse_integer,
  parse_parts, parse_stored_hash, max_cost, max_block_size, max_parallelism,
}

-- Costs within the limits, hence at most 8591015936 bytes of memory, and a salt and a key that are not empty.
pub record IsBounded (h : StoredHash) : Type 0 where
  pub cost : (1 ≤ h.cost) × (h.cost ≤ 1048576)
  pub block_size : (1 ≤ h.block_size) × (h.block_size ≤ 32)
  pub parallelism : (1 ≤ h.parallelism) × (h.parallelism ≤ 8)
  pub memory : memory_limit h.cost h.block_size h.parallelism ≤ 8591015936
  pub salt : is_empty h.salt ≡ false
  pub key : is_empty h.key ≡ false

in_bounds-range : (max : ℕ) (o : Option ℕ) (n : ℕ) → in_bounds max o ≡ some n → (1 ≤ n) × (n ≤ max)
in_bounds-range max none n h = absurd (ground arith)
in_bounds-range max (some m) n h = ground arith

mul_le : (a b c : ℕ) → b ≤ c → a * b ≤ a * c
mul_le zero b c h = omega arith
mul_le (suc a) b c h = omega (arith, mul_le a b c h, h)

memory-bound : (n r p : ℕ) → n ≤ 1048576 → r ≤ 32 → p ≤ 8 → memory_limit n r p ≤ 8591015936
unfolding memory_limit
memory-bound n r p hn hr hp = omega (arith, mul_le n r 32 hr, mul_le r p 8 hp, hn, hr)

fields-IsBounded :
    (on or op : Option ℕ) (salt key : List ℕ) (h : StoredHash)
    → ((n : ℕ) → on ≡ some n → (1 ≤ n) × (n ≤ 1048576))
    → ((n : ℕ) → or ≡ some n → (1 ≤ n) × (n ≤ 32))
    → ((n : ℕ) → op ≡ some n → (1 ≤ n) × (n ≤ 8))
    → checked_fields on or op salt key ≡ some h
    → IsBounded h
fields-IsBounded none or op salt key h fn fr fp e = absurd (ground arith)
fields-IsBounded (some n) none op salt key h fn fr fp e = absurd (ground arith)
fields-IsBounded (some n) (some r) none salt key h fn fr fp e = absurd (ground arith)
fields-IsBounded (some n) (some r) (some p) salt key h fn fr fp e =
    elim (Bool-cases (is_empty salt || is_empty key)) [
      | inl q ↦ absurd (ground arith)
      | inr q ↦
          subst IsBounded
            {x = record { cost = n; block_size = r; parallelism = p; salt = salt; key = key }}
            (some_injective (ground arith))
            (record {
              cost = fn n refl;
              block_size = fr r refl;
              parallelism = fp p refl;
              memory = memory-bound n r p (fn n refl).1 (fr r refl).1 (fp p refl).1;
              salt = ground arith;
              key = ground arith;
            })
    ]

module _ (num : Numbers) (kdf : Kdf) where
  parts-IsBounded :
      (ps : List Text) (h : StoredHash) → parse_parts num kdf ps ≡ some h → IsBounded h
  unfolding parse_integer
  parts-IsBounded (name ∷ n ∷ r ∷ p ∷ salt ∷ key ∷ []) h e =
      elim (Bool-cases (text_eq name algorithm)) [
        | inl q ↦
            fields-IsBounded _ _ _ (kdf.decode salt) (kdf.decode key) h
              (in_bounds-range max_cost (num.integer n))
              (in_bounds-range max_block_size (num.integer r))
              (in_bounds-range max_parallelism (num.integer p)) (ground arith)
        | inr q ↦ absurd (ground arith)
      ]
  parts-IsBounded [] h e = absurd (ground arith)
  parts-IsBounded (a ∷ []) h e = absurd (ground arith)
  parts-IsBounded (a ∷ b ∷ []) h e = absurd (ground arith)
  parts-IsBounded (a ∷ b ∷ c ∷ []) h e = absurd (ground arith)
  parts-IsBounded (a ∷ b ∷ c ∷ d ∷ []) h e = absurd (ground arith)
  parts-IsBounded (a ∷ b ∷ c ∷ d ∷ x ∷ []) h e = absurd (ground arith)
  parts-IsBounded (a ∷ b ∷ c ∷ d ∷ x ∷ y ∷ z ∷ ps) h e = absurd (ground arith)

  -- A stored text that is read as a hash has costs within their limits, so that scrypt's memory limit is at most
  -- 8591015936 bytes, and its salt and its key are not empty.
  pub parse_stored_hash-IsBounded :
      (stored : Text) (h : StoredHash) → parse_stored_hash num kdf stored ≡ some h → IsBounded h
  unfolding parse_stored_hash
  parse_stored_hash-IsBounded stored h e = parts-IsBounded (split 36 stored) h e
