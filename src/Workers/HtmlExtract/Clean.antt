-- ===== src/Workers/HtmlExtract/Clean.antt =====
-- What `clean` of backend/src/workers/web-scrape/html-extract.ts leaves of a text.
use background_job_runner.Prelude.{
  ℕ, ◌≡◌, refl, subst, some_injective, ◌⊎◌, inl, inr, Bool, Bool-cases, true, false, ◌&&◌, not, [],
  ◌∷◌, Option, none, some, ◌==◌, arith, if◌then◌else◌, Text,
}
use background_job_runner.Prelude.Texts.{is_blank, trim_start, trim_end, cons_unless_blank, trim}
use background_job_runner.Prelude.Patterns.{collapse_from, collapse, non_empty}
use background_job_runner.Workers.HtmlExtract.{decode, strip_tags, clean}

-- After this: not empty, no blank at its end, and no blanks but single spaces between words. `after` tells
-- that no blank may follow.
abbrev pub tidy : Bool → Text → Bool
tidy after [] = not after
tidy after (c ∷ s) =
    let spaced = c == 32 && not after && tidy true s in
    let worded = tidy false s in if is_blank c then spaced else worded

-- Words with one space between them, at least one word.
abbrev pub IsTidy : Text → Type 0
IsTidy s = tidy true s ≡ true

-- Only single spaces, also at the end.
abbrev single : Bool → Text → Bool
single after [] = true
single after (c ∷ s) =
    let spaced = c == 32 && not after && single true s in
    let worded = single false s in if is_blank c then spaced else worded

collapse-single : (inside : Bool) (s : Text) → single inside (collapse_from inside s) ≡ true
unfolding collapse_from
collapse-single inside [] = refl
collapse-single true (c ∷ s) = ground (arith, collapse-single true s, collapse-single false s)
collapse-single false (c ∷ s) = ground (arith, collapse-single true s, collapse-single false s)

trim_start-single : (s : Text) → single false s ≡ true → single true (trim_start s) ≡ true
trim_start-single [] h = refl
trim_start-single (c ∷ []) h = ground arith
trim_start-single (c ∷ d ∷ s) h = ground arith

single-next :
    (after : Bool) (c : ℕ) (s : Text) → single after (c ∷ s) ≡ true → single (is_blank c) s ≡ true
single-next after c s h = ground arith

cons-tidy :
    (after : Bool) (c : ℕ) (s r : Text)
    → single after (c ∷ s) ≡ true
    → (r ≡ []) ⊎ (tidy (is_blank c) r ≡ true)
    → (cons_unless_blank c r ≡ []) ⊎ (tidy after (cons_unless_blank c r) ≡ true)
cons-tidy after c s [] h t = elim (Bool-cases (is_blank c)) [
  | inl b ↦ inl (ground arith)
  | inr b ↦ inr (ground arith)
]
cons-tidy after c s (d ∷ r) h (inl e) = absurd (ground arith)
cons-tidy after c s (d ∷ r) h (inr e) = inr (ground arith)

trim_end-tidy :
    (after : Bool) (s : Text)
    → single after s ≡ true
    → (trim_end s ≡ []) ⊎ (tidy after (trim_end s) ≡ true)
trim_end-tidy after [] h = inl refl
trim_end-tidy after (c ∷ s) h =
    cons-tidy after c s (trim_end s) h (trim_end-tidy (is_blank c) s (single-next after c s h))

non_empty-IsTidy : (t s : Text) → (t ≡ []) ⊎ (tidy true t ≡ true) → non_empty t ≡ some s → IsTidy s
non_empty-IsTidy [] s h e = absurd (ground arith)
non_empty-IsTidy (c ∷ t) s (inl h) e = absurd (ground arith)
non_empty-IsTidy (c ∷ t) s (inr h) e = subst IsTidy (some_injective e) h

-- What `clean` gives has words with one space between them, no blank at its ends, and at least one word.
pub clean-IsTidy : (value : Option Text) (s : Text) → clean value ≡ some s → IsTidy s
unfolding clean
clean-IsTidy none s h = absurd (ground arith)
clean-IsTidy (some value) s h =
    let text = collapse (decode (strip_tags value)) in
    non_empty-IsTidy (trim text) s
      (trim_end-tidy true (trim_start text)
        (trim_start-single text (collapse-single false (decode (strip_tags value)))))
      h
