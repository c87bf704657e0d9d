-- ===== src/Workers/WebScrape/Handler.antt =====
-- What the scraping worker answers: scrape and makeHandler of backend/src/workers/web-scrape/index.ts.
use background_job_runner.Prelude.{
  ℕ, ◌≤◌, ◌<◌, ◌≡◌, ◌≢◌, Bool, true, List, [], Option, none, some, At, length, Text,
}
use background_job_runner.Engine.Numbers.{Numbers}
use background_job_runner.Workers.HtmlExtract.{extract_page}
use background_job_runner.Workers.UrlGuard.{Url, Platform}
use background_job_runner.Workers.Fetching.{
  Network, Response, Attempt, returned, raised, Raised, Failure, follow, location_of,
}
use background_job_runner.Workers.WebScrape.{
  Report, ScrapeResult, ready, failed, final_url, type_of, is_html, max_bytes,
}
use background_job_runner.Workers.Fetching.Follow.{Answers}
use background_job_runner.Workers.WebScrape.Body.{body_of, contents}

-- What a report rests on: a page that is HTML, with a status of success, read whole within the limit and
-- summarised.
pub record IsReported (text_of : List ℕ → Text) (url : Text) (r : Response) (u : Url)
    (report : Report) : Type 0 where
  pub success : (200 ≤ r.status) × (r.status < 300)
  pub html : is_html (type_of r) ≡ true
  pub status : report.status ≡ r.status
  pub url_kept : report.url ≡ url
  pub final_kept :
      (r.url ≡ [] → report.final_url ≡ u.href) × (r.url ≢ [] → report.final_url ≡ r.url)
  pub summary : report.summary ≡ extract_page (text_of (contents (body_of r.body)))
  pub size : (report.bytes ≡ length (contents (body_of r.body))) × (report.bytes ≤ max_bytes)

report_in : Attempt ScrapeResult → Option Report
report_in (returned (ready report)) = some report
report_in _ = none

module _ (num : Numbers) (double : ℕ → ℕ) (platform : Platform) (net : Network) where
  -- What the handler answers: a report of a page that it reached, a failure, or, for a job that is cancelled
  -- already, the error itself.
  pub data IsAnswered (url : Text) (aborted : Bool) : Attempt ScrapeResult → Type 0 where
    reported :
        {r : Response} {u : Url} {report : Report}
        → At u (follow num platform net url).fetched
        → Answers num platform net u r
        → location_of r ≡ none
        → IsReported net.text_of url r u report
        → IsAnswered url aborted (returned (ready report))
    gave_failure : {f : Failure} → IsAnswered url aborted (returned (failed f))
    cancelled : {e : Raised} → aborted ≡ true → IsAnswered url aborted (raised e)
