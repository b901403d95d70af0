-- ===== src/Nanos/Median.antt =====
-- The median query of `_calculate_nano_rating_aggregation` finds a median.
use native.Mathlib.Numerals.{add-one}
use di_wei_wei_nano_market.Prelude.{
  ℕ, zero, suc, ◌+◌, ◌-◌, ◌*◌, ◌/◌, ◌≤◌, ◌<◌, ◌≡◌, refl, some, List, [], ◌∷◌, inl, inr, arith, leb,
  if◌then◌else◌, length, All, Bool-cases,
}
use di_wei_wei_nano_market.Nanos.Aggregation.{
  quantize_rating, insert_sorted, order_by, get_elem?, median_rating,
}
use di_wei_wei_nano_market.Nanos.Metrics.{length-order_by, median_rating_cases}

abbrev pub low : ℕ → List ℕ → ℕ
low m [] = 0
low m (x ∷ xs) = let rest = low m xs in if leb (100 * x) m then suc rest else rest

abbrev pub high : ℕ → List ℕ → ℕ
high m [] = 0
high m (x ∷ xs) = let rest = high m xs in if leb m (100 * x) then suc rest else rest

low-insert_sorted : (m x : ℕ) (ys : List ℕ) → low m (insert_sorted x ys) ≡ low m (x ∷ ys)
low-insert_sorted m x [] = refl
low-insert_sorted m x (y ∷ ys) = ground (arith, low-insert_sorted m x ys)

low-order_by : (m : ℕ) (xs : List ℕ) → low m (order_by xs) ≡ low m xs
unfolding order_by
low-order_by m [] = refl
low-order_by m (x ∷ xs) = ground (arith, low-insert_sorted m x (order_by xs), low-order_by m xs)

high-insert_sorted : (m x : ℕ) (ys : List ℕ) → high m (insert_sorted x ys) ≡ high m (x ∷ ys)
high-insert_sorted m x [] = refl
high-insert_sorted m x (y ∷ ys) = ground (arith, high-insert_sorted m x ys)

high-order_by : (m : ℕ) (xs : List ℕ) → high m (order_by xs) ≡ high m xs
unfolding order_by
high-order_by m [] = refl
high-order_by m (x ∷ xs) = ground (arith, high-insert_sorted m x (order_by xs), high-order_by m xs)

abbrev Above : ℕ → List ℕ → Type 0
Above x ys = All (λ y. x ≤ y) ys

abbrev IsSorted : List ℕ → Type 0
IsSorted [] = Unit
IsSorted (x ∷ xs) = Above x xs × IsSorted xs

Above-weaken : (x y : ℕ) (zs : List ℕ) → x ≤ y → Above y zs → Above x zs
Above-weaken x y [] h a = tt
Above-weaken x y (z ∷ zs) h a = (omega arith, Above-weaken x y zs h a.1)

Above-insert_sorted : (x y : ℕ) (ys : List ℕ) → x ≤ y → Above x ys → Above x (insert_sorted y ys)
Above-insert_sorted x y [] h a = (h, tt)
Above-insert_sorted x y (z ∷ ys) h a = ground (arith, Above-insert_sorted x y ys h a.1)

insert_sorted-IsSorted : (x : ℕ) (ys : List ℕ) → IsSorted ys → IsSorted (insert_sorted x ys)
insert_sorted-IsSorted x [] h = (tt, tt)
insert_sorted-IsSorted x (y ∷ ys) h = elim (Bool-cases (leb x y)) [
  | inl le ↦ rw le ((ground arith, Above-weaken x y ys (ground arith) h.0), h)
  | inr gt ↦ rw gt (Above-insert_sorted y x ys (ground arith) h.0, insert_sorted-IsSorted x ys h.1)
]

order_by-IsSorted : (xs : List ℕ) → IsSorted (order_by xs)
unfolding order_by
order_by-IsSorted [] = tt
order_by-IsSorted (x ∷ xs) = insert_sorted-IsSorted x (order_by xs) (order_by-IsSorted xs)

Above-get_elem? : (x a i : ℕ) (ys : List ℕ) → Above x ys → get_elem? ys i ≡ some a → x ≤ a
Above-get_elem? x a i [] h e = cc
Above-get_elem? x a zero (y ∷ ys) h e = ground arith
Above-get_elem? x a (suc i) (y ∷ ys) h e = Above-get_elem? x a i ys h.1 e

low-prefix :
    (m a i : ℕ) (xs : List ℕ)
    → IsSorted xs
    → get_elem? xs i ≡ some a
    → 100 * a ≤ m
    → suc i ≤ low m xs
low-prefix m a i [] s e h = cc
low-prefix m a zero (x ∷ xs) s e h = ground arith
low-prefix m a (suc i) (x ∷ xs) s e h =
    ground (arith, low-prefix m a i xs s.1 e h, Above-get_elem? x a i xs s.0 e)

high-Above : (m x : ℕ) (xs : List ℕ) → Above x xs → m ≤ 100 * x → high m xs ≡ length xs
high-Above m x [] h le = refl
high-Above m x (y ∷ ys) h le = ground (arith, high-Above m x ys h.1 le)

high-suffix :
    (m a i : ℕ) (xs : List ℕ)
    → IsSorted xs
    → get_elem? xs i ≡ some a
    → m ≤ 100 * a
    → length xs ≤ i + high m xs
high-suffix m a i [] s e h = omega arith
high-suffix m a zero (x ∷ xs) s e h = ground (arith, high-Above m x xs s.0)
high-suffix m a (suc i) (x ∷ xs) s e h = ground (arith, high-suffix m a i xs s.1 e h)

sorted-step :
    (i a b : ℕ) (xs : List ℕ)
    → IsSorted xs
    → get_elem? xs i ≡ some a
    → get_elem? xs (suc i) ≡ some b
    → a ≤ b
sorted-step i a b [] s e e' = cc
sorted-step zero a b (x ∷ xs) s e e' = ground (arith, Above-get_elem? x b zero xs s.0 e')
sorted-step (suc i) a b (x ∷ xs) s e e' = sorted-step i a b xs s.1 e e'

-- At least half of the scores are at most the median, and at least half are at least the median, if
-- there is a score. (The median is in hundredths, as `low` and `high` read it.)
pub median_rating_splits :
    (scores : List ℕ) (m : ℕ)
    → 0 < length scores
    → median_rating scores ≡ some m
    → (length scores ≤ 2 * low m scores) × (length scores ≤ 2 * high m scores)
unfolding quantize_rating
median_rating_splits scores m pos e =
    let sorted = order_by-IsSorted scores in
    elim (median_rating_cases scores m e) [
      | inl (a, (odd, found, eq)) ↦ omega (
        arith,
        length-order_by scores,
        low-order_by m scores,
        high-order_by m scores,
        low-prefix m a _ (order_by scores) sorted found (omega arith),
        high-suffix m a _ (order_by scores) sorted found (omega arith),
      )
      | inr (a, b, (even, found, next, eq)) ↦
          let ordered =
            sorted-step (length scores / 2 - 1) a b (order_by scores) sorted found
              (rw add-one at next) in
          omega (
            arith,
            length-order_by scores,
            low-order_by m scores,
            high-order_by m scores,
            low-prefix m a _ (order_by scores) sorted found (omega arith),
            high-suffix m b _ (order_by scores) sorted next (omega arith),
          )
    ]
