-- ===== src/Prelude/Decimal.antt =====
-- Decimal print of a natural number, as a template literal writes it, and a reader of digits.
use Prim.Native.Nat.{ℕ, zero, suc, ◌+◌, ◌-◌, ◌*◌, ◌/◌, ◌%◌, ◌≤◌, ◌<◌}
use mathlib.Core.Path.{◌≡◌, refl}
use mathlib.Core.Logic.{◌≢◌, inl, inr}
use mathlib.Core.Bool.{◌&&◌}
use mathlib.Core.List.{[], ◌∷◌}
use mathlib.Core.Option.{Option, none, some}
use native.Mathlib.Omega.{arith}
use background_job_runner.Prelude.Tests.{leb, ltb, if◌then◌else◌, Bool-cases}
use background_job_runner.Prelude.Strings.{Text, codes}
use background_job_runner.Prelude.Lists.{All}

-- One digit a round, the last one first; a number has fewer digits than it is large.
digits : ℕ → ℕ → Text → Text
digits zero n out = out
digits (suc f) n out =
    let more = digits f (n / 10) ((b'0' + n % 10) ∷ out) in
    if ltb n 10 then (b'0' + n) ∷ out else more

-- `${n}` for a natural number.
unfoldable pub decimal : ℕ → Text
unfolding digits
decimal n = digits (suc n) n []

abbrev pub IsDigit : ℕ → Type 0
IsDigit c = (b'0' ≤ c) × (c ≤ b'9')

scan : Text → ℕ → Option ℕ
scan [] n = some n
scan (c ∷ s) n =
    let rest = scan s (n * 10 + (c - b'0')) in if leb b'0' c && leb c b'9' then rest else none

-- One or more digits, and nothing else.
unfoldable pub read_digits : Text → Option ℕ
unfolding scan
read_digits [] = none
read_digits (c ∷ s) = scan (c ∷ s) 0

digits-All : (f n : ℕ) (out : Text) → All IsDigit out → All IsDigit (digits f n out)
unfolding digits
digits-All zero n out h = h
digits-All (suc f) n out h = ground (arith, digits-All f (n / 10) ((b'0' + n % 10) ∷ out))

pub decimal-All : (n : ℕ) → All IsDigit (decimal n)
unfolding decimal
decimal-All n = digits-All (suc n) n [] tt

scan_digit : (n : ℕ) (out : Text) → scan ((b'0' + n % 10) ∷ out) (n / 10) ≡ scan out n
unfolding scan
scan_digit n out = ground arith

scan-digits : (f n : ℕ) (out : Text) → n < f → scan (digits f n out) 0 ≡ scan out n
unfolding digits
scan-digits zero n out h = elim h [ ]
scan-digits (suc f) n out h = elim (Bool-cases (ltb n 10)) [
  | inl e ↦ rw e (unfold scan in ground arith)
  | inr e ↦ rw e (ground (arith, scan-digits f (n / 10) ((b'0' + n % 10) ∷ out), scan_digit n out))
]

digits-ne-nil : (f n c : ℕ) (out : Text) → digits f n (c ∷ out) ≢ []
unfolding digits
digits-ne-nil zero n c out h = cc
digits-ne-nil (suc f) n c out h = ground (arith, digits-ne-nil f (n / 10) (b'0' + n % 10) (c ∷ out))

pub decimal-ne-nil : (n : ℕ) → decimal n ≢ []
unfolding decimal digits
decimal-ne-nil n h = ground (arith, digits-ne-nil n (n / 10) (b'0' + n % 10) [])

read_digits-scan : (s : Text) → s ≢ [] → read_digits s ≡ scan s 0
unfolding read_digits
read_digits-scan [] h = absurd (h refl)
read_digits-scan (c ∷ s) h = refl

pub read_digits-decimal : (n : ℕ) → read_digits (decimal n) ≡ some n
read_digits-decimal n =
    rw (read_digits-scan (decimal n) (decimal-ne-nil n))
      (unfold decimal scan in scan-digits (suc n) n [] (omega arith))

decimal_test : decimal 1207 ≡ codes "1207"
unfolding decimal
decimal_test = refl
