-- ===== src/Prelude/Patterns.antt =====
-- Regular expressions, each as the function that tells what it matches at one place of a text, and the
-- methods of JavaScript's strings that take them.
use background_job_runner.Prelude.{
  ℕ, zero, suc, ◌+◌, Bool, true, false, ◌&&◌, ◌||◌, not, List, [], ◌∷◌, Option, none, some, ◌==◌,
  leb, if◌then◌else◌, length, Text,
}
use background_job_runner.Prelude.Texts.{starts_with, is_blank, lower_char}

-- The text starts with this one, which has no capitals, in any case.
abbrev pub starts_ci : Text → Text → Bool
starts_ci [] s = true
starts_ci (c ∷ p) [] = false
starts_ci (c ∷ p) (d ∷ s) = lower_char d == c && starts_ci p s

-- `\w`
abbrev pub is_word : ℕ → Bool
is_word c = (leb 48 c && leb c 57) || (leb 65 c && leb c 90) || (leb 97 c && leb c 122) || c == 95

-- `\b` after a word.
abbrev pub ends_word : Text → Bool
ends_word [] = true
ends_word (c ∷ s) = not (is_word c)

abbrev pub cons_some : ℕ → Option Text → Option Text
cons_some c none = none
cons_some c (some s) = some (c ∷ s)

-- What stands before the first place where the test holds.
unfoldable pub before : (Text → Bool) → Text → Option Text
before p [] = none
before p (c ∷ s) = let rest = cons_some c (before p s) in if p (c ∷ s) then some [] else rest

-- What stands before the first such character.
abbrev pub before_char : ℕ → Text → Option Text
before_char c s = before (λ (t : Text). starts_with t (c ∷ [])) s

-- A match at a place: its length, if there is one, and what takes its place.
abbrev pub Match : Type 0
Match = Text → Option (ℕ × ℕ)

-- `text.replace(pattern, …)` of a global pattern: `skip` characters of the last match are left.
unfoldable pub replace : Match → ℕ → Text → Text
replace m skip [] = []
replace m (suc k) (c ∷ s) = replace m k s
replace m zero (c ∷ s) = elim (m (c ∷ s)) [
  | some (suc k, d) ↦ d ∷ replace m k s
  | some (zero, d) ↦ c ∷ replace m zero s
  | none ↦ c ∷ replace m zero s
]

-- The lengths of `[...text.matchAll(pattern)]`, with the rest of the text from there on.
unfoldable pub match_all : (Text → Option ℕ) → ℕ → Text → List (ℕ × Text)
match_all m skip [] = []
match_all m (suc k) (c ∷ s) = match_all m k s
match_all m zero (c ∷ s) = elim (m (c ∷ s)) [
  | some (suc k) ↦ (suc k, c ∷ s) ∷ match_all m k s
  | some zero ↦ match_all m zero s
  | none ↦ match_all m zero s
]

abbrev pub spaced : Option ℕ → Option (ℕ × ℕ)
spaced none = none
spaced (some n) = some (n, 32)

abbrev pub closed_by : ℕ → Option Text → Option ℕ
closed_by n none = none
closed_by n (some inner) = some (n + length inner)

abbrev pub or_else {ℓ} : {A : Type ℓ} → Option A → Option A → Option A
or_else none b = b
or_else (some a) b = some a

abbrev pub skip_blanks : Text → Text
skip_blanks [] = []
skip_blanks (c ∷ s) = let rest = skip_blanks s in if is_blank c then rest else c ∷ s

abbrev pub suc_some : Option ℕ → Option ℕ
suc_some none = none
suc_some (some n) = some (suc n)

abbrev pub non_empty : Text → Option Text
non_empty [] = none
non_empty (c ∷ s) = some (c ∷ s)

-- `text.replace(/\s+/g, ' ')`; `inside` tells that the character before was a blank.
unfoldable pub collapse_from : Bool → Text → Text
collapse_from inside [] = []
collapse_from inside (c ∷ s) = elim (is_blank c) [
  | true ↦ if inside then collapse_from true s else 32 ∷ collapse_from true s
  | false ↦ c ∷ collapse_from false s
]

abbrev pub collapse : Text → Text
collapse s = collapse_from false s
