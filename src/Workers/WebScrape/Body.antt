-- ===== src/Workers/WebScrape/Body.antt =====
-- How much of a body the scraper reads: readCapped of backend/src/workers/web-scrape/index.ts.
use background_job_runner.Prelude.{
  ℕ, ◌+◌, ◌≤◌, ◌<◌, ◌≡◌, refl, sym, subst, ◌∙◌, true, false, List, [], ◌++◌, append-nil,
  append_assoc, Option, none, some, arith, length, length-append, if_elim, ltb,
}
use background_job_runner.Workers.Fetching.{
  Raised, Stream, finished, broken, chunk, Response, Attempt, returned, raised,
}
use background_job_runner.Workers.WebScrape.{read_stream, read_body, read_capped, max_bytes}

-- Everything that the stream brings, and how it ends.
pub contents : Stream → List ℕ
contents finished = []
contents (broken e) = []
contents (chunk c s) = c ++ contents s

pub break_of : Stream → Option Raised
break_of finished = none
break_of (broken e) = some e
break_of (chunk c s) = break_of s

pub body_of : Option Stream → Stream
body_of none = finished
body_of (some s) = s

-- What is to be read of the bytes before a stream and its own.
pub data IsRead (before : List ℕ) (s : Stream) : Attempt (Option (ℕ × List ℕ)) → Type 0 where
  whole :
      {page : List ℕ}
      → page ≡ before ++ contents s
      → break_of s ≡ none
      → length page ≤ max_bytes
      → IsRead before s (returned (some (length page, page)))
  over : max_bytes < length (before ++ contents s) → IsRead before s (returned none)
  lost :
      {e : Raised}
      → break_of s ≡ some e
      → length (before ++ contents s) ≤ max_bytes
      → IsRead before s (raised e)

ltb-true : {a b : ℕ} → ltb a b ≡ true → a < b
ltb-true h = ground arith

ltb-false : {a b : ℕ} → ltb a b ≡ false → b ≤ a
ltb-false h = ground arith

IsRead-chunk :
    (before c : List ℕ) (s : Stream) (r : Attempt (Option (ℕ × List ℕ)))
    → IsRead (before ++ c) s r
    → IsRead before (chunk c s) r
unfolding contents break_of
IsRead-chunk before c s _ (whole e b l) = whole (e ∙ append_assoc before c (contents s)) b l
IsRead-chunk before c s _ (over l) =
    over (subst (λ x. max_bytes < length x) (append_assoc before c (contents s)) l)
IsRead-chunk before c s _ (lost b l) =
    lost b (subst (λ x. length x ≤ max_bytes) (append_assoc before c (contents s)) l)

read_stream-IsRead :
    (before : List ℕ) (s : Stream)
    → length before ≤ max_bytes
    → IsRead before s (read_stream (length before) before s)
unfolding read_stream contents break_of
read_stream-IsRead before finished h = whole (sym (append-nil before)) refl h
read_stream-IsRead before (broken e) h =
    lost refl (subst (λ x. length x ≤ max_bytes) (sym (append-nil before)) h)
read_stream-IsRead before (chunk c s) h =
    if_elim (IsRead before (chunk c s)) (ltb max_bytes (length before + length c)) _ _
      (λ t. over (
        omega (
          arith,
          length-append before (c ++ contents s),
          length-append c (contents s),
          ltb-true t,
        )))
      (λ f. IsRead-chunk before c s _ (
        subst (λ n. IsRead (before ++ c) s (read_stream n (before ++ c) s)) (length-append before c)
          (read_stream-IsRead (before ++ c) s
            (omega (arith, length-append before c, ltb-false f)))))

-- A body is returned whole, with its number of bytes, when it ends in good order within the limit of 2
-- MiB; it is given up when it is longer than the limit; and only a stream that breaks within the limit
-- throws what broke it.
pub read_capped-IsRead : (r : Response) → IsRead [] (body_of r.body) (read_capped r)
unfolding read_capped body_of break_of contents
read_capped-IsRead r = by_body r.body
  where
    by_body : (o : Option Stream) → IsRead [] (body_of o) (read_body o)
    by_body none = whole refl refl (omega arith)
    by_body (some s) = read_stream-IsRead [] s (omega arith)
