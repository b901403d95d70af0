-- ===== src/RateLimit/Window.antt =====
-- No window of the limiter's length holds more admitted requests of a key than the limit.
use di_wei_wei_nano_market.Prelude.{
  ℕ, ◌+◌, ◌*◌, ◌≤◌, ◌<◌, ◌≡◌, ◌≢◌, ◌⊎◌, inl, inr, refl, Bool, true, false, ◌&&◌, none, some, List,
  [], ◌∷◌, ◌++◌, ◌==◌, ltb, leb, if◌then◌else◌, length, length-snoc, arith, Bool-cases, suc, sym,
  ap, ◌∙◌,
}
use di_wei_wei_nano_market.RateLimit.{
  Limiter, create, bucket_of, window, expire, Verdict, admitted, check,
}

-- The times of the requests of one key that a limiter admits, out of requests with key and time.
abbrev pub is_admitted : Verdict → Bool
is_admitted admitted = true
is_admitted _ = false

unfoldable pub admitted_times : ℕ → Limiter → List (ℕ × ℕ) → List ℕ
admitted_times k l [] = []
admitted_times k l ((key, now) ∷ requests) =
    let (verdict, l') = check l key now in
    let rest = admitted_times k l' requests in
    if is_admitted verdict && (key == k) then now ∷ rest else rest

-- Each request comes no earlier than the one before it.
abbrev pub IsChronological : ℕ → List (ℕ × ℕ) → Type 0
IsChronological since [] = Unit
IsChronological since ((key, now) ∷ requests) = (since ≤ now) × IsChronological now requests

-- How many of the times lie in the window of length `w` that ends at `t`.
abbrev pub in_window : ℕ → ℕ → List ℕ → ℕ
in_window w t [] = 0
in_window w t (x ∷ xs) =
    let rest = in_window w t xs in if leb x t && ltb t (x + w) then suc rest else rest

in_window-le-length : (w t : ℕ) (xs : List ℕ) → in_window w t xs ≤ length xs
in_window-le-length w t [] = omega arith
in_window-le-length w t (x ∷ xs) = ground (arith, in_window-le-length w t xs)

in_window-append :
    (w t : ℕ) (xs ys : List ℕ) → in_window w t (xs ++ ys) ≡ in_window w t xs + in_window w t ys
in_window-append w t [] ys = omega arith
in_window-append w t (x ∷ xs) ys = ground (arith, in_window-append w t xs ys)

-- A hit that has expired is in no window that ends now or later.
in_window-expire :
    (w now t : ℕ) (xs : List ℕ) → now ≤ t → in_window w t (expire w now xs) ≡ in_window w t xs
unfolding expire
in_window-expire w now t [] h = refl
in_window-expire w now t (x ∷ xs) h = ground (arith, in_window-expire w now t xs h)

-- Nothing is admitted before it is requested.
admitted_later :
    (k w t : ℕ) (l : Limiter) (since : ℕ) (requests : List (ℕ × ℕ))
    → t < since
    → IsChronological since requests
    → in_window w t (admitted_times k l requests) ≡ 0
unfolding admitted_times
admitted_later k w t l since [] lt h = refl
admitted_later k w t l since ((key, now) ∷ requests) lt h =
    ground (arith, admitted_later k w t (check l key now).1 now requests (omega arith) h.1)

pub length-expire : (w now : ℕ) (xs : List ℕ) → length (expire w now xs) ≤ length xs
unfolding expire
length-expire w now [] = omega arith
length-expire w now (x ∷ xs) = ground (arith, length-expire w now xs)

abbrev bucket : Limiter → ℕ → List ℕ
bucket l k = bucket_of (l.hits k)

module _ (l : Limiter) (k now : ℕ) where
  abbrev after : Limiter
  after = (check l k now).1

  check_own :
      let kept = expire (window l) now (bucket l k) in
      ((is_admitted (check l k now).0 ≡ true)
        × (bucket after k ≡ kept ++ now ∷ [])
        × (length kept < l.max_requests))
      ⊎ ((is_admitted (check l k now).0 ≡ false) × (bucket after k ≡ kept))
  unfolding check
  check_own = elim (Bool-cases (leb l.max_requests (length (expire (window l) now (bucket l k))))) [
    | inl full ↦ inr (ground arith, ground arith)
    | inr free ↦ inl (ground arith, ground arith, ground arith)
  ]

  check_other : (j : ℕ) → j ≢ k → after.hits j ≡ l.hits j
  unfolding check
  check_other j ne = ground arith

  pub check_settings :
      (after.max_requests ≡ l.max_requests) × (after.window_seconds ≡ l.window_seconds)
  unfolding check
  check_settings = ground arith

-- The hits that a limiter remembers and those that it will admit keep to the limit together.
admitted_bounded :
    (k t since w : ℕ) (l : Limiter) (requests : List (ℕ × ℕ))
    → w ≡ window l
    → length (bucket l k) ≤ l.max_requests
    → IsChronological since requests
    → in_window w t (bucket l k) + in_window w t (admitted_times k l requests) ≤ l.max_requests
unfolding admitted_times
admitted_bounded k t since w l [] e few h = omega (arith, in_window-le-length w t (bucket l k))
admitted_bounded k t since w l ((key, now) ∷ requests) e few h =
    let (limit, seconds) = check_settings l key now in
    let e' : w ≡ window (check l key now).1 = e ∙ ap (λ s. s * 1000000) (sym seconds) in
    elim (Bool-cases (key == k)) [
      | inr other ↦
          let same : bucket (check l key now).1 k ≡ bucket l k =
            ap bucket_of (check_other l key now k (ground arith)) in
          let few' : length (bucket (check l key now).1 k) ≤ (check l key now).1.max_requests =
            rw (same, limit) few in
          ground (arith, admitted_bounded k t now w (check l key now).1 requests e' few' h.1)
      | inl own ↦
          let here : key ≡ k = ground arith in
          elim (check_own l key now) [
            | inl (yes_, grown, room) ↦
                let few' : length (bucket (check l key now).1 k)
                    ≤ (check l key now).1.max_requests =
                  ground (arith, length-snoc now (expire (window l) now (bucket l key))) in
                let later = admitted_bounded k t now w (check l key now).1 requests e' few' h.1 in
                elim (Bool-cases (leb now t)) [
                  | inl reached ↦ ground (
                    arith,
                    later,
                    in_window-expire w now t (bucket l k) (ground arith),
                    in_window-append w t (expire w now (bucket l k)) (now ∷ []),
                  )
                  | inr early ↦ ground (
                    arith,
                    in_window-le-length w t (bucket l k),
                    admitted_later k w t (check l key now).1 now requests (ground arith) h.1,
                  )
                ]
            | inr (no_, kept) ↦
                let few' : length (bucket (check l key now).1 k)
                    ≤ (check l key now).1.max_requests =
                  ground (arith, length-expire (window l) now (bucket l key)) in
                let later = admitted_bounded k t now w (check l key now).1 requests e' few' h.1 in
                elim (Bool-cases (leb now t)) [
                  | inl reached ↦
                      ground (arith, later, in_window-expire w now t (bucket l k) (ground arith))
                  | inr early ↦ ground (
                    arith,
                    in_window-le-length w t (bucket l k),
                    admitted_later k w t (check l key now).1 now requests (ground arith) h.1,
                  )
                ]
          ]
    ]

-- A new limiter, given requests in the order of their times, admits at most `max_requests` requests
-- of a key in any window of `window_seconds` that ends at a time `t`.
pub window_bound :
    (max_requests window_seconds k t since : ℕ) (l : Limiter) (requests : List (ℕ × ℕ))
    → create max_requests window_seconds ≡ some l
    → IsChronological since requests
    → in_window (window_seconds * 1000000) t (admitted_times k l requests) ≤ max_requests
unfolding create
window_bound max_requests window_seconds k t since l requests made h =
    let fresh : l.hits k ≡ none = ground arith in
    let limit : l.max_requests ≡ max_requests = ground arith in
    let seconds : l.window_seconds ≡ window_seconds = ground arith in
    ground (arith, admitted_bounded k t since (window l) l requests refl (ground arith) h)
