-- ===== src/Workers/UrlGuard.antt =====
-- guardUrl of backend/src/workers/web-scrape/url-guard.ts: which URLs the scraper may fetch.
-- The platform's URL parser, address parser and resolver are parameters; reasons are not kept, only which
-- check refused the URL.
pub mod Verdicts
use background_job_runner.Prelude.{
  ℕ, Bool, true, false, ◌&&◌, ◌||◌, not, List, [], ◌∷◌, Option, none, some, ltb, ◌==◌,
  if◌then◌else◌, any, Text, codes, text_eq,
}
use background_job_runner.Prelude.Texts.{ends_with, lower}
use background_job_runner.Engine.Numbers.{Numbers}
use background_job_runner.Workers.Addresses.{AddressKind, classify}

pub record Url : Type 0 where
  pub protocol : Text
  pub hostname : Text
  pub href : Text

pub record Platform : Type 0 where
  -- `new URL(raw)`, or that it throws.
  pub parse_url : Text → Option Url
  -- `new URL(location, base).toString()`, or that it throws.
  pub resolve : Text → Url → Option Text
  -- `isIP`
  pub is_ip : Text → ℕ

pub data Refusal : Type 0 where
  invalid scheme no_host private_name private_address lookup_failed no_addresses : Refusal

pub data GuardVerdict : Type 0 where
  passed : Url → GuardVerdict
  refused : Refusal → GuardVerdict

-- `retryable` of a verdict.
unfoldable pub is_retryable : Refusal → Bool
is_retryable Refusal.lookup_failed = true
is_retryable Refusal.no_addresses = true
is_retryable _ = false

unfoldable pub is_relaxable : AddressKind → Bool
is_relaxable AddressKind.loopback = true
is_relaxable AddressKind.private = true
is_relaxable AddressKind.unique_local = true
is_relaxable _ = false

abbrev pub is_public : AddressKind → Bool
is_public AddressKind.public = true
is_public _ = false

abbrev pub private_name_suffixes : List Text
private_name_suffixes = codes ".localhost" ∷ codes ".internal" ∷ []

unfoldable pub is_private_name : Text → Bool
is_private_name hostname =
    text_eq hostname (codes "localhost") || any (ends_with hostname) private_name_suffixes

abbrev pub is_fetchable : Text → Bool
is_fetchable protocol = text_eq protocol (codes "http:") || text_eq protocol (codes "https:")

-- `hostname.replace(/^\[|\]$/g, '')`
abbrev pub without_closing : Text → Text
without_closing [] = []
without_closing (c ∷ []) = if c == 93 then [] else c ∷ []
without_closing (c ∷ d ∷ s) = c ∷ without_closing (d ∷ s)

abbrev pub without_opening : Text → Text
without_opening [] = []
without_opening (c ∷ s) = if c == 91 then s else c ∷ s

unfoldable pub bare_host : Url → Text
bare_host url = lower (without_closing (without_opening url.hostname))

abbrev pub is_empty : Text → Bool
is_empty [] = true
is_empty (_ ∷ _) = false

module _ (num : Numbers) (platform : Platform) where
  unfoldable pub may_reach : Text → Bool
  may_reach address =
      is_public (classify num platform.is_ip address)
      || is_relaxable (classify num platform.is_ip address)

  unfoldable pub verdict_for : Url → List Text → GuardVerdict
  verdict_for url [] = passed url
  verdict_for url (address ∷ addresses) =
      let rest = verdict_for url addresses in
      if may_reach address then rest else refused Refusal.private_address

  abbrev pub verdict_of_records : Url → Option (List Text) → GuardVerdict
  verdict_of_records url none = refused Refusal.lookup_failed
  verdict_of_records url (some []) = refused Refusal.no_addresses
  verdict_of_records url (some (address ∷ addresses)) = verdict_for url (address ∷ addresses)

  abbrev pub guard_host : (Text → Option (List Text)) → Url → Text → GuardVerdict
  guard_host lookup url hostname =
      if is_empty hostname
      then refused Refusal.no_host
      else if is_private_name hostname
      then refused Refusal.private_name
      else if ltb 0 (platform.is_ip hostname)
      then verdict_for url (hostname ∷ [])
      else verdict_of_records url (lookup hostname)

  abbrev pub guard_parsed : (Text → Option (List Text)) → Option Url → GuardVerdict
  guard_parsed lookup none = refused Refusal.invalid
  guard_parsed lookup (some url) =
      if is_fetchable url.protocol
      then guard_host lookup url (bare_host url)
      else refused Refusal.scheme

  -- `lookup` is what the resolver answers at this time, or that it fails.
  unfoldable pub guard_url : (Text → Option (List Text)) → Text → GuardVerdict
  guard_url lookup raw = guard_parsed lookup (platform.parse_url raw)
