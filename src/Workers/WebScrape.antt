-- ===== src/Workers/WebScrape.antt =====
-- The scraping worker: backend/src/workers/web-scrape/index.ts, once a response is there (Workers/Fetching).
-- The text of the bytes is the platform's `TextDecoder`.
pub mod Body
pub mod Handler
use background_job_runner.Prelude.{
  ℕ, zero, suc, ◌+◌, ◌*◌, Bool, true, false, ◌&&◌, ◌||◌, not, List, [], ◌∷◌, ◌++◌, Option, none,
  some, ◌==◌, leb, ltb, if◌then◌else◌, length, any, Text, codes, text_eq,
}
use background_job_runner.Prelude.Texts.{split, trim, lower, starts_with}
use background_job_runner.Types.{Value}
use background_job_runner.Engine.Numbers.{Numbers}
use background_job_runner.Engine.Registry.{ParamDescriptor, ParamType, WorkerDescriptor}
use background_job_runner.Workers.HtmlExtract.{PageSummary, extract_page}
use background_job_runner.Workers.UrlGuard.{
  Url, Platform, Refusal, GuardVerdict, passed, refused, is_retryable, guard_url,
}
use background_job_runner.Workers.Fetching.{
  Attempt, Failure, Journey, Landing, Network, Raised, Reason, Response, Stream, after, answered,
  arrived, broken, chunk, exception, fetch_failed, finished, follow, follow_from, gave_up,
  guard_refused, interrupted, is_redirect, leave, location_of, max_redirects, not_html, other,
  raised, redirect_to, returned, server_status, stay, timed_out, too_large, too_many_redirects,
  unreachable, unreadable_location, visit,
}

pub record Report : Type 0 where
  pub url : Text
  pub final_url : Text
  pub status : ℕ
  pub summary : PageSummary
  pub bytes : ℕ
  pub duration_ms : ℕ

pub data ScrapeResult : Type 0 where
  ready : Report → ScrapeResult
  failed : Failure → ScrapeResult

abbrev pub max_bytes : ℕ
max_bytes = 2 * 1024 * 1024

abbrev pub retryable_codes : List Text
retryable_codes =
    codes "ECONNREFUSED"
    ∷ codes "ECONNRESET"
    ∷ codes "EHOSTUNREACH"
    ∷ codes "ENETUNREACH"
    ∷ codes "ENOTFOUND"
    ∷ codes "EAI_AGAIN"
    ∷ codes "EPIPE"
    ∷ codes "ETIMEDOUT"
    ∷ codes "UND_ERR_CONNECT_TIMEOUT"
    ∷ codes "UND_ERR_HEADERS_TIMEOUT"
    ∷ codes "UND_ERR_BODY_TIMEOUT"
    ∷ codes "UND_ERR_SOCKET"
    ∷ []

abbrev pub type_of : Response → Text
type_of r = elim r.content_type [ some t ↦ t | none ↦ [] ]

abbrev pub first_part : List Text → Text
first_part [] = []
first_part (p ∷ ps) = p

unfoldable pub is_html : Text → Bool
is_html content_type =
    starts_with (lower (trim (first_part (split 59 content_type)))) (codes "text/html")

unfoldable pub reject_response : Response → Option Failure
reject_response r =
    if r.status == 429 || leb 500 r.status
    then some (record { reason = server_status r.status; retryable = true })
    else if ltb r.status 200 || leb 300 r.status
    then some (record { reason = server_status r.status; retryable = false })
    else if not (is_html (type_of r))
    then some (record { reason = not_html (type_of r); retryable = false })
    else none

-- The loop of `readCapped`: the bytes so far are their number and themselves.
unfoldable pub read_stream : ℕ → List ℕ → Stream → Attempt (Option (ℕ × List ℕ))
read_stream bytes chunks finished = returned (some (bytes, chunks))
read_stream bytes chunks (broken e) = raised e
read_stream bytes chunks (chunk c s) =
    let rest = read_stream (bytes + length c) (chunks ++ c) s in
    if ltb max_bytes (bytes + length c) then returned none else rest

abbrev pub read_body : Option Stream → Attempt (Option (ℕ × List ℕ))
read_body none = returned (some (0, []))
read_body (some s) = read_stream 0 [] s

unfoldable pub read_capped : Response → Attempt (Option (ℕ × List ℕ))
read_capped r = read_body r.body

abbrev pub final_url : Response → Url → Text
final_url r u = elim r.url [ [] ↦ u.href | _ ↦ r.url ]

module _ (text_of : List ℕ → Text) where
  abbrev pub report_body :
      Text → ℕ → Response → Url → Attempt (Option (ℕ × List ℕ)) → Attempt ScrapeResult
  report_body url elapsed r u (raised e) = raised e
  report_body url elapsed r u (returned none) =
      returned (failed (record { reason = too_large; retryable = false }))
  report_body url elapsed r u (returned (some (n, page))) = returned (
      ready (record {
        url = url;
        final_url = final_url r u;
        status = r.status;
        summary = extract_page (text_of page);
        bytes = n;
        duration_ms = elapsed;
      }))

  abbrev pub checked : Text → ℕ → Response → Url → Option Failure → Attempt ScrapeResult
  checked url elapsed r u (some f) = returned (failed f)
  checked url elapsed r u none = report_body url elapsed r u (read_capped r)

  abbrev pub landed : Text → ℕ → Landing → Attempt ScrapeResult
  landed url elapsed (gave_up f) = returned (failed f)
  landed url elapsed (interrupted e) = raised e
  landed url elapsed (arrived r u) = checked url elapsed r u (reject_response r)

-- `codeOf`, for the levels of `cause` that are left.
unfoldable pub code_at : ℕ → Raised → Option Text
code_at zero e = none
code_at (suc n) (other s) = none
code_at (suc n) (exception name message (some code) cause) = some code
code_at (suc n) (exception name message none cause) = code_at n cause

unfoldable pub code_of : Raised → Option Text
code_of e = code_at 3 e

abbrev pub is_timeout : Raised → Bool
is_timeout (other s) = false
is_timeout (exception name message code cause) =
    text_eq name (codes "TimeoutError") || text_eq name (codes "AbortError")

abbrev pub message_of : Raised → Text
message_of (other s) = s
message_of (exception name message code cause) = message

abbrev pub by_code : Raised → Option Text → Reason
by_code e none = fetch_failed (message_of e)
by_code e (some code) =
    if any (text_eq code) retryable_codes then unreachable code else fetch_failed (message_of e)

unfoldable pub classify_thrown : Raised → ℕ → Failure
classify_thrown e timeout = record {
  reason = if is_timeout e then timed_out timeout else by_code e (code_of e);
  retryable = true;
}

-- The double of a whole number is the language's.
module _ (num : Numbers) (double : ℕ → ℕ) where
  abbrev pub at_least : ℕ → ℕ → ℕ
  at_least lo n = if num.lt n lo then lo else n

  abbrev pub at_most : ℕ → ℕ → ℕ
  at_most hi n = if num.lt hi n then hi else n

  unfoldable pub timeout_of : Value → ℕ
  timeout_of (Value.num n) =
      if num.is_finite n then at_most (double 30000) (at_least (double 1000) n) else double 10000
  timeout_of _ = double 10000

  abbrev pub url_of : Value → Text
  url_of (Value.str s) = s
  url_of _ = []

  abbrev pub settled : Bool → ℕ → Attempt ScrapeResult → Attempt ScrapeResult
  settled aborted timeout (returned r) = returned r
  settled true timeout (raised e) = raised e
  settled false timeout (raised e) = returned (failed (classify_thrown e timeout))

  module _ (platform : Platform) (net : Network) where
    unfoldable pub scrape : Text → ℕ → Attempt ScrapeResult
    scrape url elapsed = landed net.text_of url elapsed (follow num platform net url).landing

    -- The handler: `aborted` says whether the engine has cancelled the job when its scrape ends.
    unfoldable pub scrape_handler : Value → Value → Bool → ℕ → Attempt ScrapeResult
    scrape_handler url timeout aborted elapsed =
        settled aborted (timeout_of timeout) (scrape (url_of url) elapsed)

  unfoldable pub create_scrape_worker : WorkerDescriptor
  create_scrape_worker = record {
    lane = codes "web-scrape";
    params =
        record {
          name = codes "url";
          type = ParamType.string;
          required = true;
          default = Value.undefined;
          min = none;
          max = none;
        }
        ∷ record {
          name = codes "timeout_ms";
          type = ParamType.number;
          required = false;
          default = Value.num (double 10000);
          min = some (double 1000);
          max = some (double 30000);
        }
        ∷ [];
  }
