-- ===== src/Tests/Throttle.antt =====
-- A limiter that admits two requests in any five seconds, on one key.
use di_wei_wei_nano_market.Prelude.{ℕ, ◌*◌, ◌≤◌, ◌≡◌, refl, none, some, List, [], ◌∷◌, arith}
use di_wei_wei_nano_market.RateLimit.{Limiter, create, check, expire, rejected}
use di_wei_wei_nano_market.RateLimit.Window.{admitted_times, in_window, window_bound}

abbrev fresh : Limiter
fresh = record { max_requests = 2; window_seconds = 5; hits = λ _. none; violations = λ _. none }

fresh_made : create 2 5 ≡ some fresh
unfolding create
fresh_made = refl

abbrev burst : List (ℕ × ℕ)
burst = (7, 1000000) ∷ (7, 1500000) ∷ (7, 2000000) ∷ (7, 6000000) ∷ []

burst_admitted : admitted_times 7 fresh burst ≡ 1000000 ∷ 1500000 ∷ 6000000 ∷ []
unfolding admitted_times check expire
burst_admitted = refl

window_bound_example : in_window (5 * 1000000) 6000000 (admitted_times 7 fresh burst) ≤ 2
window_bound_example =
    window_bound 2 5 7 6000000 0 fresh burst fresh_made
      (ground arith, (ground arith, (ground arith, (ground arith, tt))))

-- Two requests were admitted, and the third comes half a second later.
abbrev full : Limiter
full = record fresh { hits = λ _. some (1000000 ∷ 1200000 ∷ []) }

full_kept : expire 5000000 1500000 (1000000 ∷ 1200000 ∷ []) ≡ 1000000 ∷ 1200000 ∷ []
unfolding expire
full_kept = refl

full_refused : (check full 7 1500000).0 ≡ rejected 4
unfolding check expire
full_refused = refl
