-- ===== src/Nanos/Access.antt =====
-- Loading a Nano: `_get_nano_or_404`.
use di_wei_wei_nano_market.Prelude.{ℕ, find}
use di_wei_wei_nano_market.Models.{Nano, nano_at}
use di_wei_wei_nano_market.Session.{Action, http_exception, not_found, ◌>>=◌, gets, or_raise}

unfoldable pub get_nano_or_404 : ℕ → Action Nano
get_nano_or_404 nano_id = do
  nano ← gets (λ db. find (nano_at nano_id) db.nanos)
  or_raise nano (http_exception 404 not_found)
