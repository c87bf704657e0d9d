-- ===== src/Workers/Fetching/Follow.antt =====
-- Which URLs the scraper fetches: follow of backend/src/workers/web-scrape/index.ts.
use background_job_runner.Prelude.{
  ℕ, zero, suc, ◌≤◌, ◌≡◌, refl, List, ◌∷◌, Option, none, some, arith, All, At, at_head, at_tail,
  length, Text,
}
use background_job_runner.Engine.Numbers.{Numbers}
use background_job_runner.Workers.UrlGuard.{Url, Platform, GuardVerdict, passed, refused, guard_url}
use background_job_runner.Workers.Fetching.{
  Network, Response, Attempt, returned, raised, Landing, arrived, gave_up, interrupted, Journey,
  visit, answered, leave, redirect_to, location_of, follow_from, follow, max_redirects, after,
}

module _ (num : Numbers) (platform : Platform) (net : Network) where
  -- The guard passes the URL, for some text at some hop.
  abbrev pub Admitted : Url → Type 0
  Admitted u = (hop : ℕ) × (raw : Text) × (guard_url num platform (net.lookup hop) raw ≡ passed u)

  -- The network's answer to a fetch of the URL, at some hop, is this response.
  abbrev pub Answers : Url → Response → Type 0
  Answers u r = (hop : ℕ) × (net.fetch hop u ≡ returned r)

  -- A landing on a response is on the answer to a fetch, one that redirects no further.
  pub data Lands (us : List Url) : Landing → Type 0 where
    on_response :
        {r : Response} {u : Url}
        → At u us
        → Answers u r
        → location_of r ≡ none
        → Lands us (arrived r u)
    on_failure : {f : _} → Lands us (gave_up f)
    on_error : {e : _} → Lands us (interrupted e)

  pub record IsGuided (n : ℕ) (j : Journey) : Type 0 where
    pub admitted : All Admitted j.fetched
    pub bound : length j.fetched ≤ n
    pub lands : Lands j.fetched j.landing

  Lands-after : (us : List Url) (u : Url) (l : Landing) → Lands us l → Lands (u ∷ us) l
  Lands-after us u (arrived r v) (on_response i f e) = on_response (at_tail i) f e
  Lands-after us u (gave_up f) on_failure = on_failure
  Lands-after us u (interrupted e) on_error = on_error

  IsGuided-after :
      (n : ℕ) (u : Url) (j : Journey) → Admitted u → IsGuided n j → IsGuided (suc n) (after u j)
  IsGuided-after n u j a g = record {
    admitted = (a, g.admitted);
    bound = omega (arith, g.bound);
    lands = Lands-after j.fetched u j.landing g.lands;
  }

  IsGuided-redirect :
      (n : ℕ) (u : Url) (l : Text) (o : Option Text) (next : Text → Journey)
      → ((t : Text) → IsGuided n (next t))
      → Admitted u
      → IsGuided (suc n) (after u (redirect_to u l o next))
  IsGuided-redirect n u l none next f a = record {
    admitted = (a, tt);
    bound = omega arith;
    lands = on_failure;
  }
  IsGuided-redirect n u l (some t) next f a = IsGuided-after n u (next t) a (f t)

  IsGuided-leave :
      (n : ℕ) (u : Url) (r : Response) (o : Option Text) (next : Text → Journey)
      → location_of r ≡ o
      → Answers u r
      → ((t : Text) → IsGuided n (next t))
      → Admitted u
      → IsGuided (suc n) (after u (leave platform u r o next))
  IsGuided-leave n u r none next e got f a = record {
    admitted = (a, tt);
    bound = omega arith;
    lands = on_response at_head got e;
  }
  IsGuided-leave n u r (some l) next e got f a =
      IsGuided-redirect n u l (platform.resolve l u) next f a

  IsGuided-answered :
      (n : ℕ) (u : Url) (t : Attempt Response) (next : Text → Journey)
      → ((r : Response) → t ≡ returned r → Answers u r)
      → ((t : Text) → IsGuided n (next t))
      → Admitted u
      → IsGuided (suc n) (after u (answered platform u t next))
  IsGuided-answered n u (returned r) next got f a =
      IsGuided-leave n u r (location_of r) next refl (got r refl) f a
  IsGuided-answered n u (raised e) next got f a = record {
    admitted = (a, tt);
    bound = omega arith;
    lands = on_error;
  }

  IsGuided-visit :
      (n hop : ℕ) (v : GuardVerdict) (next : Text → Journey)
      → ((u : Url) → v ≡ passed u → Admitted u)
      → ((t : Text) → IsGuided n (next t))
      → IsGuided (suc n) (visit platform (net.fetch hop) v next)
  IsGuided-visit n hop (passed u) next a f =
      IsGuided-answered n u (net.fetch hop u) next (λ r e. (hop, e)) f (a u refl)
  IsGuided-visit n hop (refused r) next a f = record {
    admitted = tt;
    bound = omega arith;
    lands = on_failure;
  }

  follow_from-IsGuided :
      (n hop : ℕ) (target : Text) → IsGuided n (follow_from num platform net n hop target)
  unfolding follow_from
  follow_from-IsGuided zero hop target = record {
    admitted = tt;
    bound = omega arith;
    lands = on_failure;
  }
  follow_from-IsGuided (suc n) hop target =
      IsGuided-visit n hop (guard_url num platform (net.lookup hop) target)
        (follow_from num platform net n (suc hop)) (λ u e. (hop, target, e))
        (follow_from-IsGuided n (suc hop))

  -- Following redirects ends after at most four fetches, each of a URL that the guard has passed, and if it
  -- ends at a response, that is what the network answered to the fetch of such a URL, and redirects no further.
  pub follow-IsGuided : (target : Text) → IsGuided 4 (follow num platform net target)
  unfolding follow
  follow-IsGuided target = follow_from-IsGuided (suc max_redirects) 0 target
