-- ===== src/RateLimit.antt =====
-- `SlidingWindowRateLimiter` (app/security/rate_limit.py). Readings of the monotonic clock are in
-- microseconds; the two dictionaries are functions from keys; a deque is a list, oldest entry first.
pub mod Window
pub mod Retry
use di_wei_wei_nano_market.Prelude.{
  ℕ, ◌+◌, ◌-◌, ◌*◌, ◌/◌, Bool, ◌||◌, Option, none, some, List, [], ◌∷◌, ◌++◌, ◌==◌, leb,
  if◌then◌else◌, length, max,
}

pub record Limiter : Type 0 where
  pub max_requests : ℕ
  pub window_seconds : ℕ
  pub hits : ℕ → Option (List ℕ)
  pub violations : ℕ → Option (List ℕ)

-- The constructor; `none` for its `ValueError`.
unfoldable pub create : ℕ → ℕ → Option Limiter
create max_requests window_seconds =
    if (max_requests == 0) || (window_seconds == 0)
    then none
    else some (record {
      max_requests = max_requests;
      window_seconds = window_seconds;
      hits = λ _. none;
      violations = λ _. none;
    })

abbrev pub set_key : (ℕ → Option (List ℕ)) → ℕ → Option (List ℕ) → ℕ → Option (List ℕ)
set_key m k v j = if j == k then v else m j

-- `setdefault(key, deque())`
abbrev pub bucket_of : Option (List ℕ) → List ℕ
bucket_of none = []
bucket_of (some b) = b

-- What is stored after `if not bucket: del …`.
abbrev pub evict_empty : List ℕ → Option (List ℕ)
evict_empty [] = none
evict_empty (x ∷ xs) = some (x ∷ xs)

abbrev pub window : Limiter → ℕ
window l = l.window_seconds * 1000000

-- `while bucket and bucket[0] <= cutoff: bucket.popleft()`, with `cutoff = now - window`
unfoldable pub expire : ℕ → ℕ → List ℕ → List ℕ
expire w now [] = []
expire w now (t ∷ ts) = let rest = expire w now ts in if leb (t + w) now then rest else t ∷ ts

pub data Verdict : Type 0 where
  admitted : Verdict
  rejected : ℕ → Verdict
  -- `bucket[0]` of an empty bucket
  index_error : Verdict

-- The seconds to wait: the whole seconds until the oldest hit expires, at least one, and at least
-- one for each violation.
abbrev pub retry_after : Limiter → ℕ → List ℕ → List ℕ → Verdict
retry_after l now [] vs = index_error
retry_after l now (t ∷ ts) vs = rejected (max (max 1 ((t + window l - now) / 1000000)) (length vs))

abbrev pub check_pruned : Limiter → ℕ → ℕ → List ℕ → List ℕ → Verdict × Limiter
check_pruned l key now bucket vs =
    if leb l.max_requests (length bucket)
    then (
      retry_after l now bucket (vs ++ now ∷ []),
      record l {
        hits = set_key l.hits key (evict_empty bucket);
        violations = set_key l.violations key (some (vs ++ now ∷ []));
      },
    )
    else (
      admitted,
      record l {
        hits = set_key l.hits key (some (bucket ++ now ∷ []));
        violations = set_key l.violations key none;
      },
    )

unfoldable pub check : Limiter → ℕ → ℕ → Verdict × Limiter
check l key now =
    check_pruned l key now (expire (window l) now (bucket_of (l.hits key)))
      (expire (window l) now (bucket_of (l.violations key)))
