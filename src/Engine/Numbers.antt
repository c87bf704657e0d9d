-- ===== src/Engine/Numbers.antt =====
-- What the engine uses of JavaScript's numbers. A double is its bit pattern, and `Number(…)` and the
-- tests on doubles are the language's, so they are parameters here.
use background_job_runner.Prelude.{ℕ, ◌≤◌, ◌≡◌, ◌^◌, Bool, Option, some, Text, ltb}
use background_job_runner.Prelude.Decimal.{decimal, read_digits, read_digits-decimal}
use background_job_runner.Types.{Value}

pub record Numbers : Type 0 where
  -- `Number(text)`, if that is an integer which is not negative.
  pub integer : Text → Option ℕ
  -- `Number(value)`
  pub of_value : Value → ℕ
  -- `Number.isFinite`
  pub is_finite : ℕ → Bool
  -- `a < b`
  pub lt : ℕ → ℕ → Bool

-- `Number` reads back the decimal print of every safe integer.
pub record ReadsDecimals (num : Numbers) : Type 0 where
  pub integer-decimal : (n : ℕ) → n ≤ 2 ^ 53 → num.integer (decimal n) ≡ some n

-- An instance: digits only.
abbrev pub digit_numbers : Numbers
digit_numbers = record {
  integer = read_digits;
  of_value = λ v. elim v [ Value.num n ↦ n | _ ↦ 0 ];
  is_finite = λ n. ltb n 1000000;
  lt = ltb;
}

pub digit_numbers-ReadsDecimals : ReadsDecimals digit_numbers
digit_numbers-ReadsDecimals = record { integer-decimal = λ n _. read_digits-decimal n }
