-- ===== src/Engine/Operations/Names.antt =====
-- Handles as text: `handleOf` of backend/src/engine/events.ts and `parseHandle` of
-- backend/src/engine/orchestration-engine.ts.
use background_job_runner.Prelude.{
  ℕ, suc, ◌≤◌, ◌≡◌, ◌≢◌, ◌^◌, refl, ap, ◌∙◌, [], ◌∷◌, ◌++◌, none, some, arith, ◌==◌, take, drop,
  length, All, Text, false,
}
use background_job_runner.Prelude.Decimal.{decimal, decimal-All, IsDigit}
use background_job_runner.Errors.{ok}
use background_job_runner.Repository.Operations.{handle_of}
use background_job_runner.Engine.Numbers.{Numbers, ReadsDecimals}
use background_job_runner.Engine.Operations.{last_hyphen, checked_parts, parse_at, parse_handle}

last_hyphen-digits : (s : Text) → All IsDigit s → last_hyphen s ≡ none
unfolding last_hyphen
last_hyphen-digits [] h = refl
last_hyphen-digits (c ∷ s) h = ground (arith, last_hyphen-digits s h.1)

last_hyphen-handle :
    (lane s : Text) → All IsDigit s → last_hyphen (lane ++ b'-' ∷ s) ≡ some (length lane)
unfolding last_hyphen
last_hyphen-handle [] s h = ground (arith, last_hyphen-digits s h)
last_hyphen-handle (c ∷ lane) s h = rw (last_hyphen-handle lane s h) refl

drop-lane : (lane : Text) (c : ℕ) (s : Text) → drop (suc (length lane)) (lane ++ c ∷ s) ≡ s
drop-lane [] c s = refl
drop-lane (d ∷ lane) c s = drop-lane lane c s

take-lane : (lane s : Text) → take (length lane) (lane ++ s) ≡ lane
take-lane [] s = refl
take-lane (d ∷ lane) s = ap (◌∷◌ d) (take-lane lane s)

length-ne_zero : (s : Text) → s ≢ [] → (length s == 0) ≡ false
length-ne_zero [] h = absurd (h refl)
length-ne_zero (c ∷ s) h = ground arith

-- The handle that is made of a lane, which is not empty and may have hyphens, and of a number from 1 to
-- 2^53 is read back as that lane and that number.
pub parse_handle-handle_of :
    (num : Numbers) (lane : Text) (n : ℕ)
    → ReadsDecimals num
    → lane ≢ []
    → 1 ≤ n
    → n ≤ 2 ^ 53
    → parse_handle num (handle_of lane n) ≡ ok (lane, n)
unfolding parse_handle handle_of
parse_handle-handle_of num lane n reads named positive safe =
    let handle = lane ++ b'-' ∷ decimal n in
    ap (parse_at num handle) (last_hyphen-handle lane (decimal n) (decimal-All n))
    ∙ ap (λ s. checked_parts handle (length lane) (num.integer s)) (drop-lane lane b'-' (decimal n))
    ∙ ap (checked_parts handle (length lane)) (reads.integer-decimal n safe)
    ∙ accepted (length lane) n (length-ne_zero lane named) positive
    ∙ ap (λ s. ok (s, n)) (take-lane lane (b'-' ∷ decimal n))
  where
    accepted :
        (cut m : ℕ)
        → (cut == 0) ≡ false
        → 1 ≤ m
        → checked_parts (lane ++ b'-' ∷ decimal n) cut (some m)
          ≡ ok (take cut (lane ++ b'-' ∷ decimal n), m)
    accepted cut m h k = ground arith
