-- ===== src/Workers/HtmlExtract/Titles.antt =====
-- A title that was escaped for a page is read back: extractPage of backend/src/workers/web-scrape/html-extract.ts.
use background_job_runner.Prelude.{
  ℕ, ◌≡◌, refl, ap, ◌∙◌, Bool, true, false, [], ◌∷◌, ◌++◌, Option, none, some, ◌==◌, arith,
  if◌then◌else◌, if_elim, Text, codes, any-append,
}
use background_job_runner.Prelude.Texts.{
  is_blank, includes, trim_start, trim_end, cons_unless_blank, trim,
}
use background_job_runner.Prelude.Patterns.{
  Match, collapse_from, collapse, non_empty, replace, before, starts_ci, or_else, spaced, cons_some,
}
use background_job_runner.Workers.HtmlExtract.{
  decode, strip_tags, clean, entity_at, entity_in, any_tag_at, content, content_at, extract_page,
}
use background_job_runner.Workers.HtmlExtract.Clean.{tidy, IsTidy}

-- What HTML writes for a character that has a meaning in it.
abbrev pub escaped : ℕ → Text
escaped c =
    if c == 38
    then codes "&amp;"
    else if c == 60
    then codes "&lt;"
    else if c == 62
    then codes "&gt;"
    else if c == 34
    then codes "&quot;"
    else if c == 39
    then codes "&#39;"
    else c ∷ []

unfoldable pub escape : Text → Text
escape [] = []
escape (c ∷ s) = escaped c ++ escape s

entity_at-other : (c : ℕ) (r : Text) → (c == 38) ≡ false → entity_at (c ∷ r) ≡ none
unfolding entity_in
entity_at-other c r h = ground arith

replace-other :
    (m : Match) (c : ℕ) (r : Text) → m (c ∷ r) ≡ none → replace m 0 (c ∷ r) ≡ c ∷ replace m 0 r
unfolding replace
replace-other m c r h = rw (h, replace)

replace-escaped :
    (c : ℕ) (r : Text) → replace entity_at 0 (escaped c ++ r) ≡ c ∷ replace entity_at 0 r
unfolding replace entity_in
replace-escaped c r =
    let P = λ (t : Text). replace entity_at 0 (t ++ r) ≡ c ∷ replace entity_at 0 r in
    let is = λ (d : ℕ) (e : d ≡ c). ap (λ (x : ℕ). x ∷ replace entity_at 0 r) e in
    if_elim P (c == 38) _ _ (λ h. is 38 (ground arith))
      (λ amp.
        if_elim P (c == 60) _ _ (λ h. is 60 (ground arith))
          (λ _.
            if_elim P (c == 62) _ _ (λ h. is 62 (ground arith))
              (λ _.
                if_elim P (c == 34) _ _ (λ h. is 34 (ground arith))
                  (λ _.
                    if_elim P (c == 39) _ _ (λ h. is 39 (ground arith))
                      (λ _. replace-other entity_at c r (entity_at-other c r amp))))))

decode-escape : (s : Text) → decode (escape s) ≡ s
unfolding decode escape replace
decode-escape [] = refl
decode-escape (c ∷ s) = replace-escaped c (escape s) ∙ ap (◌∷◌ c) (decode-escape s)

escaped-includes : (c : ℕ) → includes 60 (escaped c) ≡ false
escaped-includes c = ground arith

escape-includes : (s : Text) → includes 60 (escape s) ≡ false
unfolding escape
escape-includes [] = refl
escape-includes (c ∷ s) =
    any-append (◌==◌ 60) (escaped c) (escape s)
    ∙ ground (arith, escaped-includes c, escape-includes s)

strip_tags-plain : (s : Text) → includes 60 s ≡ false → strip_tags s ≡ s
unfolding strip_tags replace
strip_tags-plain [] h = refl
strip_tags-plain (c ∷ s) h =
    replace-other (λ (t : Text). spaced (any_tag_at t)) c s (ground arith)
    ∙ ap (◌∷◌ c) (strip_tags-plain s (ground arith))

collapse-tidy : (after : Bool) (s : Text) → tidy after s ≡ true → collapse_from after s ≡ s
unfolding collapse_from
collapse-tidy after [] h = refl
collapse-tidy true (c ∷ s) h = ground (arith, collapse-tidy false s)
collapse-tidy false (c ∷ s) h = ground (arith, collapse-tidy true s, collapse-tidy false s)

tidy_mono : (s : Text) → tidy true s ≡ true → tidy false s ≡ true
tidy_mono [] h = refl
tidy_mono (c ∷ s) h = ground arith

trim_start-tidy : (s : Text) → tidy true s ≡ true → trim_start s ≡ s
trim_start-tidy [] h = refl
trim_start-tidy (c ∷ s) h = ground arith

trim_end-tidy : (after : Bool) (s : Text) → tidy after s ≡ true → trim_end s ≡ s
trim_end-tidy after [] h = refl
trim_end-tidy after (c ∷ []) h = ground arith
trim_end-tidy after (c ∷ d ∷ s) h =
    ap (cons_unless_blank c) (trim_end-tidy (is_blank c) (d ∷ s) (ground arith))

non_empty-tidy : (s : Text) → tidy true s ≡ true → non_empty s ≡ some s
non_empty-tidy [] h = absurd (ground arith)
non_empty-tidy (c ∷ s) h = refl

clean-escape : (s : Text) → IsTidy s → clean (some (escape s)) ≡ some s
unfolding clean
clean-escape s h =
    ap (λ (t : Text). non_empty (trim (collapse (decode t))))
      (strip_tags-plain (escape s) (escape-includes s))
    ∙ ap (λ (t : Text). non_empty (trim (collapse t))) (decode-escape s)
    ∙ ap (λ (t : Text). non_empty (trim t)) (collapse-tidy false s (tidy_mono s h))
    ∙ ap (λ (t : Text). non_empty (trim_end t)) (trim_start-tidy s h)
    ∙ ap non_empty (trim_end-tidy true s h)
    ∙ non_empty-tidy s h

abbrev closing : Text → Bool
closing t = starts_ci (60 ∷ 47 ∷ codes "title" ++ 62 ∷ []) t

before-other :
    (p : Text → Bool) (c : ℕ) (s : Text)
    → p (c ∷ s) ≡ false
    → before p (c ∷ s) ≡ cons_some c (before p s)
unfolding before
before-other p c s h = ground arith

closing-other : (c : ℕ) (s : Text) → (c == 60) ≡ false → closing (c ∷ s) ≡ false
closing-other c s h = ground arith

before-closing :
    (t rest : Text)
    → includes 60 t ≡ false
    → before closing (t ++ (codes "</title>" ++ rest)) ≡ some t
unfolding before
before-closing [] rest h = refl
before-closing (c ∷ t) rest h =
    before-other closing c (t ++ (codes "</title>" ++ rest))
      (closing-other c (t ++ (codes "</title>" ++ rest)) (ground arith))
    ∙ ap (cons_some c) (before-closing t rest (ground arith))

content-here :
    (t rest : Text)
    → includes 60 t ≡ false
    → content (codes "title") (codes "<title>" ++ (t ++ (codes "</title>" ++ rest))) ≡ some t
unfolding content before
content-here t rest h =
    ap (λ (o : Option Text). or_else o (content (codes "title") (t ++ (codes "</title>" ++ rest))))
      (before-closing t rest h)

content_at-other :
    (c : ℕ) (s : Text) → (c == 60) ≡ false → content_at (codes "title") (c ∷ s) ≡ none
content_at-other c s h = ground arith

content-later :
    (front t : Text)
    → includes 60 front ≡ false
    → content (codes "title") (front ++ t) ≡ content (codes "title") t
unfolding content
content-later [] t h = refl
content-later (c ∷ front) t h =
    ap (λ (o : Option Text). or_else o (content (codes "title") (front ++ t)))
      (content_at-other c (front ++ t) (ground arith))
    ∙ content-later front t (ground arith)

-- Of a page with no tag before its title, whose title is tidy words that were escaped for HTML, the summary has
-- those words as its title, whatever follows.
pub title-escape :
    (front s rest : Text)
    → includes 60 front ≡ false
    → IsTidy s
    → (extract_page (front ++ (codes "<title>" ++ (escape s ++ (codes "</title>" ++ rest))))).title
      ≡ some s
unfolding extract_page
title-escape front s rest h w =
    ap clean (
      content-later front (codes "<title>" ++ (escape s ++ (codes "</title>" ++ rest))) h
      ∙ content-here (escape s) rest (escape-includes s))
    ∙ clean-escape s w
