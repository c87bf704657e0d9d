-- ===== src/Workers/UrlGuard/Verdicts.antt =====
-- What guardUrl lets pass: backend/src/workers/web-scrape/url-guard.ts.
use background_job_runner.Prelude.{
  ◌<◌, ◌≡◌, ◌≢◌, ◌⊎◌, inl, inr, ◌↔◌, refl, subst, true, false, ◌||◌, List, [], ◌∷◌, Option, none,
  some, arith, All, Bool-cases, Option-cases, Text, ltb,
}
use background_job_runner.Engine.Numbers.{Numbers}
use background_job_runner.Workers.Addresses.{AddressKind, classify}
use background_job_runner.Workers.UrlGuard.{
  Url, Platform, passed, is_public, is_relaxable, is_private_name, is_fetchable, bare_host,
  is_empty, may_reach, verdict_for, verdict_of_records, guard_host, guard_parsed, guard_url,
}

module _ (num : Numbers) (platform : Platform) (lookup : Text → Option (List Text)) where
  -- An address of a kind that is reached: not of the link, and not unspecified.
  abbrev pub IsReached : Text → Type 0
  IsReached a =
      (classify num platform.is_ip a ≢ AddressKind.link_local)
      × (classify num platform.is_ip a ≢ AddressKind.unspecified)

  -- The host is such an address itself, or a name that resolves to such addresses only.
  pub data Resolves (host : Text) : Type 0 where
    literal : 0 < platform.is_ip host → IsReached host → Resolves host
    named :
        (a : Text) (rest : List Text)
        → platform.is_ip host ≡ 0
        → lookup host ≡ some (a ∷ rest)
        → All IsReached (a ∷ rest)
        → Resolves host

  pub record Passes (raw : Text) (url : Url) : Type 0 where
    parsed : platform.parse_url raw ≡ some url
    fetchable : is_fetchable url.protocol ≡ true
    host : is_empty (bare_host url) ≡ false
    not_private : is_private_name (bare_host url) ≡ false
    resolves : Resolves (bare_host url)

  reached_kind :
      (k : AddressKind)
      → (is_public k || is_relaxable k) ≡ true
      → (k ≢ AddressKind.link_local) × (k ≢ AddressKind.unspecified)
  unfolding is_relaxable
  reached_kind k h = ground arith

  kind_reached :
      (k : AddressKind)
      → k ≢ AddressKind.link_local
      → k ≢ AddressKind.unspecified
      → (is_public k || is_relaxable k) ≡ true
  unfolding is_relaxable
  kind_reached k g h = ground arith

  verdict_for-passed :
      (url u : Url) (rest : List Text)
      → verdict_for num platform url rest ≡ passed u
      → All IsReached rest × (url ≡ u)
  unfolding verdict_for may_reach
  verdict_for-passed url u [] h = (tt, ground arith)
  verdict_for-passed url u (a ∷ rest) h = elim (Bool-cases (may_reach num platform a)) [
    | inl e ↦
        let (r, q) = verdict_for-passed url u rest (ground arith) in
        ((reached_kind (classify num platform.is_ip a) e, r), q)
    | inr e ↦ absurd (ground arith)
  ]

  passed-verdict_for :
      (url : Url) (rest : List Text)
      → All IsReached rest
      → verdict_for num platform url rest ≡ passed url
  unfolding verdict_for may_reach
  passed-verdict_for url [] h = refl
  passed-verdict_for url (a ∷ rest) h =
      simp (kind_reached (classify num platform.is_ip a) h.0.0 h.0.1)
        (passed-verdict_for url rest h.1)

  records-Resolves :
      (url u : Url) (host : Text)
      → platform.is_ip host ≡ 0
      → verdict_of_records num platform url (lookup host) ≡ passed u
      → Resolves host × (url ≡ u)
  records-Resolves url u host z h = elim (Option-cases (lookup host)) [
    | inl e ↦ absurd (ground arith)
    | inr ([], e) ↦ absurd (ground arith)
    | inr (a ∷ rest, e) ↦
        let (r, q) = verdict_for-passed url u (a ∷ rest) (ground arith) in (named a rest z e r, q)
  ]

  host-Passes :
      (raw : Text) (url u : Url)
      → platform.parse_url raw ≡ some url
      → is_fetchable url.protocol ≡ true
      → guard_host num platform lookup url (bare_host url) ≡ passed u
      → Passes raw u
  host-Passes raw url u p f h =
      by_tests (Bool-cases (is_empty host)) (Bool-cases (is_private_name host))
        (Bool-cases (ltb 0 (platform.is_ip host)))
    where
      host : Text
      host = bare_host url

      at_url :
          is_empty host ≡ false
          → is_private_name host ≡ false
          → Resolves host × (url ≡ u)
          → Passes raw u
      at_url n l (r, q) =
          subst (Passes raw) q
            (record { parsed = p; fetchable = f; host = n; not_private = l; resolves = r })

      of_literal :
          ltb 0 (platform.is_ip host) ≡ true
          → verdict_for num platform url (host ∷ []) ≡ passed u
          → Resolves host × (url ≡ u)
      of_literal t e =
          let (r, q) = verdict_for-passed url u (host ∷ []) e in (literal (ground arith) r.0, q)

      by_tests :
          (is_empty host ≡ true) ⊎ (is_empty host ≡ false)
          → (is_private_name host ≡ true) ⊎ (is_private_name host ≡ false)
          → (ltb 0 (platform.is_ip host) ≡ true) ⊎ (ltb 0 (platform.is_ip host) ≡ false)
          → Passes raw u
      by_tests (inl n) l t = absurd (ground arith)
      by_tests (inr n) (inl l) t = absurd (ground arith)
      by_tests (inr n) (inr l) (inl t) = at_url n l (of_literal t (ground arith))
      by_tests (inr n) (inr l) (inr t) =
          at_url n l (records-Resolves url u host (ground arith) (ground arith))

  host-passed :
      (url : Url)
      → Resolves (bare_host url)
      → is_empty (bare_host url) ≡ false
      → is_private_name (bare_host url) ≡ false
      → guard_host num platform lookup url (bare_host url) ≡ passed url
  host-passed url (literal f r) n l =
      ground (arith, passed-verdict_for url (bare_host url ∷ []) (r, tt))
  host-passed url (named a rest z e r) n l = ground (arith, passed-verdict_for url (a ∷ rest) r)

  -- The guard passes a URL exactly when the raw text parses to it, its scheme is http or https, its host
  -- is neither empty nor a private name, and the host is itself an address, or a name that resolves to
  -- at least one address, with no address among them that is link-local or unspecified.
  pub guard_url-Passes :
      (raw : Text) (url : Url) → (guard_url num platform lookup raw ≡ passed url) ↔ Passes raw url
  unfolding guard_url
  guard_url-Passes raw url = (
    by_parse (platform.parse_url raw) refl,
    λ p. simp (p.parsed, p.fetchable) (host-passed url p.resolves p.host p.not_private),
  )
    where
      by_parse :
          (o : Option Url)
          → platform.parse_url raw ≡ o
          → guard_parsed num platform lookup o ≡ passed url
          → Passes raw url
      by_parse none e h = absurd (ground arith)
      by_parse (some v) e h = elim (Bool-cases (is_fetchable v.protocol)) [
        | inl f ↦ host-Passes raw v url e f (ground arith)
        | inr f ↦ absurd (ground arith)
      ]
