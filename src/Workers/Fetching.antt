-- ===== src/Workers/Fetching.antt =====
-- What the network answers, and the redirects that the scraping worker follows: `follow` of
-- backend/src/workers/web-scrape/index.ts. The network is the parameter Network, in which time is the number of
-- the hop. A failure keeps its reason as a constructor with the values that the message shows.
pub mod Follow
use background_job_runner.Prelude.{
  ℕ, zero, suc, ◌+◌, ◌*◌, Bool, true, false, ◌&&◌, ◌||◌, not, List, [], ◌∷◌, ◌++◌, Option, none,
  some, ◌==◌, leb, ltb, if◌then◌else◌, length, any, Text, codes, text_eq,
}
use background_job_runner.Prelude.Texts.{split, trim, lower, starts_with}
use background_job_runner.Types.{Value}
use background_job_runner.Engine.Numbers.{Numbers}
use background_job_runner.Engine.Registry.{ParamDescriptor, ParamType, WorkerDescriptor}
use background_job_runner.Workers.HtmlExtract.{PageSummary, extract_page}
use background_job_runner.Workers.UrlGuard.{
  Url, Platform, Refusal, GuardVerdict, passed, refused, is_retryable, guard_url,
}

-- A thrown value: what `String` makes of it, or an `Error` with its name, message, code and cause.
pub data Raised : Type 0 where
  other : Text → Raised
  exception : Text → Text → Option Text → Raised → Raised

-- The stream of a response's body, chunk by chunk.
pub data Stream : Type 0 where
  finished : Stream
  broken : Raised → Stream
  chunk : List ℕ → Stream → Stream

pub record Response : Type 0 where
  pub status : ℕ
  pub url : Text
  pub location : Option Text
  pub content_type : Option Text
  pub body : Option Stream

pub data Attempt {ℓ} (A : Type ℓ) : Type ℓ where
  returned : A → Attempt A
  raised : Raised → Attempt A

pub record Network : Type 0 where
  pub lookup : ℕ → Text → Option (List Text)
  pub fetch : ℕ → Url → Attempt Response
  pub text_of : List ℕ → Text

pub data Reason : Type 0 where
  guard_refused : Refusal → Reason
  unreadable_location : Text → Reason
  too_many_redirects : Reason
  server_status : ℕ → Reason
  not_html : Text → Reason
  too_large : Reason
  timed_out : ℕ → Reason
  unreachable : Text → Reason
  fetch_failed : Text → Reason

pub record Failure : Type 0 where
  pub reason : Reason
  pub retryable : Bool

abbrev pub max_redirects : ℕ
max_redirects = 3

unfoldable pub is_redirect : ℕ → Bool
is_redirect status =
    status == 301 || status == 302 || status == 303 || status == 307 || status == 308

-- What `follow` ends with: a response and the URL that gave it, a failure, or what `fetch` threw.
pub data Landing : Type 0 where
  arrived : Response → Url → Landing
  gave_up : Failure → Landing
  interrupted : Raised → Landing

-- Every URL that was fetched on the way, in order.
pub record Journey : Type 0 where
  pub landing : Landing
  pub fetched : List Url

abbrev pub stay : Landing → Journey
stay l = record { landing = l; fetched = [] }

abbrev pub after : Url → Journey → Journey
after u j = record j { fetched = u ∷ j.fetched }

abbrev pub location_of : Response → Option Text
location_of r = if is_redirect r.status then r.location else none

-- The rest of a turn of the loop: `next` is the loop's next turn, for the location as a URL.
abbrev pub redirect_to : Url → Text → Option Text → (Text → Journey) → Journey
redirect_to url location none next =
    stay (gave_up (record { reason = unreadable_location location; retryable = false }))
redirect_to url location (some target) next = next target

abbrev pub leave : Platform → Url → Response → Option Text → (Text → Journey) → Journey
leave platform url response none next = stay (arrived response url)
leave platform url response (some location) next =
    redirect_to url location (platform.resolve location url) next

abbrev pub answered : Platform → Url → Attempt Response → (Text → Journey) → Journey
answered platform url (raised e) next = stay (interrupted e)
answered platform url (returned r) next = leave platform url r (location_of r) next

abbrev pub visit : Platform → (Url → Attempt Response) → GuardVerdict → (Text → Journey) → Journey
visit platform fetch (refused r) next =
    stay (gave_up (record { reason = guard_refused r; retryable = is_retryable r }))
visit platform fetch (passed url) next = after url (answered platform url (fetch url) next)

module _ (num : Numbers) (platform : Platform) (net : Network) where
  -- The loop of `follow`, by the number of its turns to come and the number of the hop.
  unfoldable pub follow_from : ℕ → ℕ → Text → Journey
  follow_from zero hop target =
      stay (gave_up (record { reason = too_many_redirects; retryable = false }))
  follow_from (suc n) hop target =
      visit platform (net.fetch hop) (guard_url num platform (net.lookup hop) target)
        (follow_from n (suc hop))

  unfoldable pub follow : Text → Journey
  follow target = follow_from (suc max_redirects) 0 target
