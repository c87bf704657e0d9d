-- ===== src/Workers/HtmlExtract.antt =====
-- The summary of a page: backend/src/workers/web-scrape/html-extract.ts.
-- A regular expression is the function that tells what it matches at one place of a text. No part of these
-- expressions needs backtracking, but for the attributes before `href`, where the last place is meant.
pub mod Clean
pub mod Titles
use background_job_runner.Prelude.{
  ℕ, zero, suc, ◌+◌, ◌-◌, Bool, true, false, ◌&&◌, ◌||◌, not, List, [], ◌∷◌, ◌++◌, Option, none,
  some, ◌==◌, leb, if◌then◌else◌, length, take, drop, filter, Text, codes, text_eq,
}
use background_job_runner.Prelude.Patterns.{
  starts_ci, is_word, ends_word, cons_some, before, before_char, Match, replace, match_all, spaced,
  closed_by, or_else, skip_blanks, suc_some, non_empty, collapse_from, collapse,
}
use background_job_runner.Prelude.Texts.{starts_with, split, is_blank, trim, lower_char, lower}

pub record PageSummary : Type 0 where
  pub title : Option Text
  pub description : Option Text
  pub h1 : Option Text
  pub links : ℕ
  pub words : ℕ

-- COMMENT
abbrev pub comment_at : Text → Option ℕ
comment_at s =
    if starts_with s (codes "<!--")
    then closed_by 7 (before (λ (t : Text). starts_with t (codes "-->")) (drop 4 s))
    else none

-- ANY_TAG
abbrev pub any_tag_at : Text → Option ℕ
any_tag_at s = if starts_with s (60 ∷ []) then closed_by 2 (before_char 62 (drop 1 s)) else none

-- What follows `<name\b`.
abbrev pub opened : Text → Text → Option Text
opened name s =
    let rest = drop (suc (length name)) s in
    if starts_ci (60 ∷ name) s && ends_word rest then some rest else none

abbrev pub attributes_of : Option Text → Option Text
attributes_of none = none
attributes_of (some rest) = before_char 62 rest

-- META_TAG
abbrev pub tag_at : Text → Text → Option ℕ
tag_at name s = closed_by (2 + length name) (attributes_of (opened name s))

-- What stands between `<name\b[^>]*>` and `</name>`.
abbrev pub content_after : Text → Option ℕ → Text → Option Text
content_after name none s = none
content_after name (some n) s =
    before (λ (t : Text). starts_ci (60 ∷ 47 ∷ name ++ 62 ∷ []) t) (drop n s)

abbrev pub content_at : Text → Text → Option Text
content_at name s = content_after name (tag_at name s) s

abbrev pub tag_length : Option ℕ → ℕ
tag_length none = 0
tag_length (some n) = n

abbrev pub element_at : Text → Text → Option ℕ
element_at name s = closed_by (tag_length (tag_at name s) + length name + 3) (content_at name s)

-- SCRIPT_OR_STYLE
abbrev pub script_or_style_at : Text → Option ℕ
script_or_style_at s = or_else (element_at (codes "script") s) (element_at (codes "style") s)

-- The first match of TITLE or H1.
unfoldable pub content : Text → Text → Option Text
content name [] = none
content name (c ∷ s) = or_else (content_at name (c ∷ s)) (content name s)

-- What follows `\s*=`.
abbrev pub after_equals : Text → Option Text
after_equals s = elim (skip_blanks s) [ [] ↦ none | c ∷ r ↦ if c == 61 then some r else none ]

abbrev pub is_equals : Option Text → Bool
is_equals none = false
is_equals (some r) = true

abbrev pub left_of : Option Text → ℕ
left_of none = 0
left_of (some r) = length r

-- `\shref\s*=`
abbrev pub href_at : Text → Option ℕ
href_at [] = none
href_at (c ∷ s) =
    let rest = after_equals (drop 4 s) in
    if is_blank c && starts_ci (codes "href") s && is_equals rest
    then some (suc (length s) - left_of rest)
    else none

-- The last such place before a `>`, which is what `[^>]*` leaves.
unfoldable pub last_href : Text → Option ℕ
last_href [] = none
last_href (c ∷ s) =
    let found = or_else (suc_some (last_href s)) (href_at (c ∷ s)) in
    if c == 62 then none else found

abbrev pub href_of : Option Text → Option ℕ
href_of none = none
href_of (some rest) = last_href rest

-- ANCHOR_WITH_HREF
abbrev pub anchor_at : Text → Option ℕ
anchor_at s = suc_some (suc_some (href_of (opened (97 ∷ []) s)))

abbrev pub is_bare : ℕ → Bool
is_bare c = not (is_blank c || c == 34 || c == 39 || c == 62)

-- `[^\s"'>]*`
abbrev pub unquoted : Text → Text
unquoted [] = []
unquoted (c ∷ s) = let rest = c ∷ unquoted s in if is_bare c then rest else []

abbrev pub value_in : Text → Option Text
value_in [] = none
value_in (c ∷ s) =
    if c == 34
    then before_char 34 s
    else if c == 39
    then before_char 39 s
    else non_empty (unquoted (c ∷ s))

abbrev pub value_after : Option Text → Option Text
value_after none = none
value_after (some r) = value_in (skip_blanks r)

abbrev pub value_at : Text → Text → Option Text
value_at name s =
    if starts_ci name s then value_after (after_equals (drop (length name) s)) else none

-- `inside` tells that the character before belongs to a word.
unfoldable pub attribute_from : Bool → Text → Text → Option Text
attribute_from inside name [] = none
attribute_from inside name (c ∷ s) =
    or_else (if inside then none else value_at name (c ∷ s)) (attribute_from (is_word c) name s)

unfoldable pub attribute : Text → Text → Option Text
attribute tag name = attribute_from false name tag

-- ENTITIES
abbrev pub entities : List (Text × ℕ)
entities =
    (codes "&amp;", 38)
    ∷ (codes "&lt;", 60)
    ∷ (codes "&gt;", 62)
    ∷ (codes "&quot;", 34)
    ∷ (codes "&#39;", 39)
    ∷ (codes "&#x27;", 39)
    ∷ (codes "&nbsp;", 32)
    ∷ []

unfoldable pub entity_in : List (Text × ℕ) → Match
entity_in [] s = none
entity_in ((name, c) ∷ es) s =
    let rest = entity_in es s in if starts_ci name s then some (length name, c) else rest

-- ENTITY
abbrev pub entity_at : Match
entity_at s = entity_in entities s

unfoldable pub decode : Text → Text
decode s = replace entity_at 0 s

unfoldable pub strip_tags : Text → Text
strip_tags s = replace (λ (t : Text). spaced (any_tag_at t)) 0 s

unfoldable pub clean : Option Text → Option Text
clean none = none
clean (some value) = non_empty (trim (collapse (decode (strip_tags value))))

abbrev pub is_key : Text → Option Text → Bool
is_key key none = false
is_key key (some name) = text_eq (lower (trim name)) key

unfoldable pub content_of : Text → List (ℕ × Text) → Option Text
content_of key [] = none
content_of key ((n, s) ∷ tags) =
    let tag = take n s in
    let rest = content_of key tags in
    if is_key key (or_else (attribute tag (codes "name")) (attribute tag (codes "property")))
    then or_else (clean (attribute tag (codes "content"))) rest
    else rest

unfoldable pub meta_content : Text → Text → Option Text
meta_content html key = content_of key (match_all (tag_at (codes "meta")) 0 html)

abbrev pub is_some_text : Text → Bool
is_some_text [] = false
is_some_text (c ∷ s) = true

-- `text.split(/\s+/).filter(Boolean).length`
unfoldable pub count_words : Text → ℕ
count_words s = length (filter is_some_text (split 32 (collapse s)))

-- The text of a page, without comments, scripts, styles and tags.
unfoldable pub page_text : Text → Text
page_text html = strip_tags (
    replace (λ (t : Text). spaced (script_or_style_at t)) 0
      (replace (λ (t : Text). spaced (comment_at t)) 0 html))

unfoldable pub extract_page : Text → PageSummary
extract_page html = record {
  title = clean (content (codes "title") html);
  description =
      or_else (meta_content html (codes "description"))
        (meta_content html (codes "og:description"));
  h1 = clean (content (codes "h1") html);
  links = length (match_all anchor_at 0 html);
  words = count_words (decode (page_text html));
}
