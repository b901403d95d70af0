-- ===== src/RateLimit/Retry.antt =====
-- What a rejected client is told, and which keys the limiter remembers.
use di_wei_wei_nano_market.Prelude.{
  ℕ, ◌+◌, ◌-◌, ◌*◌, ◌/◌, ◌%◌, ◌≤◌, ◌<◌, ◌≡◌, ◌≢◌, none, some, List, [], ◌∷◌, ◌++◌, length,
  length-snoc, max, arith,
}
use di_wei_wei_nano_market.RateLimit.{Limiter, bucket_of, window, expire, rejected, check}
use di_wei_wei_nano_market.RateLimit.Window.{length-expire}

-- A full bucket whose oldest hit has not expired: the request is rejected.
full_rejects :
    (l : Limiter) (k now first : ℕ) (rest : List ℕ)
    → l.hits k ≡ some (first ∷ rest)
    → now < first + window l
    → l.max_requests ≤ length (first ∷ rest)
    → (r : ℕ) × ((check l k now).0 ≡ rejected r)
unfolding check expire
full_rejects l k now first rest stored soon full = (
  max (max 1 ((first + window l - now) / 1000000))
      (length (expire (window l) now (bucket_of (l.violations k)) ++ now ∷ [])),
  ground arith,
)

module _ (l : Limiter) (k now first retry : ℕ) (rest : List ℕ)
    (kept : expire (window l) now (bucket_of (l.hits k)) ≡ first ∷ rest)
    (refused : (check l k now).0 ≡ rejected retry) where
  rejection :
      (l.max_requests ≤ length (first ∷ rest))
      × ((check l k now).1.hits k ≡ some (first ∷ rest))
      × ((check l k now).1.max_requests ≡ l.max_requests)
      × (window (check l k now).1 ≡ window l)
  unfolding check
  rejection = ground arith

  told :
      length (bucket_of (l.violations k)) < (first + window l - now) / 1000000
      → retry ≡ (first + window l - now) / 1000000
  unfolding check
  told calm =
      let vs = expire (window l) now (bucket_of (l.violations k)) in
      ground (
        arith,
        length-expire (window l) now (bucket_of (l.violations k)),
        length-snoc now vs,
        rejection,
      )

  -- A request is rejected while its oldest counted hit has a whole number of seconds left and a
  -- fraction, with fewer violations than seconds. A client that comes back after exactly the
  -- seconds it is told, with no request in between, is rejected again.
  pub retry_too_early :
      (first + window l - now) % 1000000 ≢ 0
      → length (bucket_of (l.violations k)) < (first + window l - now) / 1000000
      → (r : ℕ) × ((check (check l k now).1 k (now + retry * 1000000)).0 ≡ rejected r)
  retry_too_early part calm =
      let (full, stored, limit, same) = rejection in
      full_rejects (check l k now).1 k (now + retry * 1000000) first rest stored
        (rw same (omega (arith, told calm))) (rw limit full)

-- A check of any key forgets no key, if the limit is positive: whichever key had hits stored still has.
pub check_keeps :
    (l : Limiter) (k now j : ℕ)
    → 0 < l.max_requests
    → l.hits j ≢ none
    → (check l k now).1.hits j ≢ none
unfolding check
check_keeps l k now j pos known = ground arith
