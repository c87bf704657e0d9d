-- ===== src/Examples/Scraping.antt =====
-- The theorems on the workers at concrete inputs: a platform that takes any text for an http URL, and a
-- network whose first answer redirects to a page of five bytes.
use background_job_runner.Prelude.{
  ℕ, zero, suc, ◌≡◌, refl, ◌↔◌, ◌||◌, [], ◌∷◌, none, some, Text, codes, text_eq, if◌then◌else◌,
}
use background_job_runner.Prelude.Decimal.{read_digits}
use background_job_runner.Prelude.Texts.{split}
use background_job_runner.Engine.Numbers.{digit_numbers}
use background_job_runner.Workers.Addresses.{classify, ipv4_bytes}
use background_job_runner.Workers.Addresses.Mapped.{classify-mapped}
use background_job_runner.Workers.UrlGuard.{Url, Platform, passed, guard_url}
use background_job_runner.Workers.UrlGuard.Verdicts.{Passes, guard_url-Passes}
use background_job_runner.Workers.Fetching.{Network, Response, returned, finished, chunk, follow}
use background_job_runner.Workers.WebScrape.{read_capped}
use background_job_runner.Workers.Fetching.Follow.{IsGuided, follow-IsGuided}
use background_job_runner.Workers.WebScrape.Body.{IsRead, body_of, read_capped-IsRead}

abbrev loopback_quad : Text
loopback_quad = codes "127.0.0.1"

abbrev family : Text → ℕ
family s =
    if text_eq s loopback_quad || text_eq s (codes "93.184.216.34")
    then 4
    else if text_eq s (codes "::ffff:127.0.0.1")
    then 6
    else 0

abbrev url_at : Text → Url
url_at host = record { protocol = codes "http:"; hostname = host; href = host }

abbrev open_platform : Platform
open_platform = record {
  parse_url = λ raw. some (url_at raw);
  resolve = λ location url. some location;
  is_ip = family;
}

abbrev page : Response
page = record {
  status = 200;
  url = codes "home";
  location = none;
  content_type = some (codes "text/html; charset=utf-8");
  body = some (chunk (60 ∷ 98 ∷ []) (chunk (62 ∷ 104 ∷ 105 ∷ []) finished));
}

abbrev moved : Response
moved = record page { status = 302; location = some (codes "home"); body = none }

abbrev two_hops : Network
two_hops = record {
  lookup = λ hop name. some (codes "93.184.216.34" ∷ []);
  fetch = λ hop url. elim hop [ zero ↦ returned moved | suc n ↦ returned page ];
  text_of = λ bytes. bytes;
}

classify-mapped_example :
    classify digit_numbers family (codes "::ffff:127.0.0.1")
    ≡ classify digit_numbers family loopback_quad
unfolding ipv4_bytes split text_eq read_digits
classify-mapped_example =
    classify-mapped digit_numbers family loopback_quad (127 ∷ 0 ∷ 0 ∷ 1 ∷ []) refl refl refl refl

guard_url-Passes_example :
    (guard_url digit_numbers open_platform (two_hops.lookup 0) loopback_quad
      ≡ passed (url_at loopback_quad))
    ↔ Passes digit_numbers open_platform (two_hops.lookup 0) loopback_quad (url_at loopback_quad)
guard_url-Passes_example =
    guard_url-Passes digit_numbers open_platform (two_hops.lookup 0) loopback_quad
      (url_at loopback_quad)

follow-IsGuided_example :
    IsGuided digit_numbers open_platform two_hops 4
      (follow digit_numbers open_platform two_hops (codes "start"))
follow-IsGuided_example = follow-IsGuided digit_numbers open_platform two_hops (codes "start")

read_capped-IsRead_example : IsRead [] (body_of page.body) (read_capped page)
read_capped-IsRead_example = read_capped-IsRead page
