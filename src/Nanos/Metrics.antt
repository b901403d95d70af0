-- ===== src/Nanos/Metrics.antt =====
-- What the rating metrics are: the median is always there, the counts add up, the average and the
-- median lie between 1.00 and 5.00 stars.
use di_wei_wei_nano_market.Prelude.{
  ℕ, zero, suc, ◌+◌, ◌-◌, ◌*◌, ◌/◌, ◌%◌, ◌≤◌, ◌<◌, ◌≡◌, refl, some, List, [], ◌∷◌, ◌⊎◌, inl, inr,
  arith, ◌==◌, if◌then◌else◌, length, All, Bool-cases, Option-cases,
}
use di_wei_wei_nano_market.Models.{NanoRating}
use di_wei_wei_nano_market.Nanos.Aggregation.{
  NanoRatingAggregation, quantize_rating, approved_scores, sum, insert_sorted, order_by, get_elem?,
  count, median_rating, distribution_of, aggregate, calculate_nano_rating_aggregation,
}

length-insert_sorted : (x : ℕ) (ys : List ℕ) → length (insert_sorted x ys) ≡ suc (length ys)
length-insert_sorted x [] = refl
length-insert_sorted x (y ∷ ys) = ground (arith, length-insert_sorted x ys)

pub length-order_by : (xs : List ℕ) → length (order_by xs) ≡ length xs
unfolding order_by
length-order_by [] = refl
length-order_by (x ∷ xs) = omega (arith, length-insert_sorted x (order_by xs), length-order_by xs)

get_elem?-in_range : (xs : List ℕ) (i : ℕ) → i < length xs → (a : ℕ) × (get_elem? xs i ≡ some a)
get_elem?-in_range [] i h = absurd (omega arith)
get_elem?-in_range (x ∷ xs) zero h = (x, refl)
get_elem?-in_range (x ∷ xs) (suc i) h = get_elem?-in_range xs i (omega arith)

-- The rows that the median queries promise are always there.
pub median_rating_total :
    (scores : List ℕ) → 0 < length scores → (m : ℕ) × (median_rating scores ≡ some m)
unfolding median_rating
median_rating_total scores h = elim (Bool-cases (length scores % 2 == 1)) [
  | inl odd ↦
      let (a, e) =
        get_elem?-in_range (order_by scores) (length scores / 2)
          (omega (arith, length-order_by scores)) in
      (quantize_rating a 1, rw (odd, e))
  | inr even ↦
      let (a, e) =
        get_elem?-in_range (order_by scores) (length scores / 2 - 1)
          (omega (arith, length-order_by scores)) in
      let (b, e') =
        get_elem?-in_range (order_by scores) (length scores / 2 - 1 + 1)
          (ground (arith, length-order_by scores)) in
      (quantize_rating (a + b) 2, rw (even, e, e'))
]

abbrev pub IsScore : ℕ → Type 0
IsScore x = (1 ≤ x) × (x ≤ 5)

-- `num / den` in hundredths is rounded half up: the result is the greatest `r` with
-- `r - 1/2 ≤ 100 * num / den`.
pub quantize_nearest :
    (num den : ℕ)
    → 0 < den
    → (2 * den * quantize_rating num den ≤ 200 * num + den)
      × (200 * num + den < 2 * den * quantize_rating num den + 2 * den)
unfolding quantize_rating
quantize_nearest num den h = grind arith

quantize_bounds :
    (num den : ℕ)
    → 0 < den
    → den ≤ num
    → num ≤ 5 * den
    → (100 ≤ quantize_rating num den) × (quantize_rating num den ≤ 500)
unfolding quantize_rating
quantize_bounds num den h lo hi = grind arith

sum_bounds : (xs : List ℕ) → All IsScore xs → (length xs ≤ sum xs) × (sum xs ≤ 5 * length xs)
sum_bounds [] h = omega arith
sum_bounds (x ∷ xs) h = omega (arith, sum_bounds xs h.1)

distribution-total :
    (xs : List ℕ)
    → All IsScore xs
    → count 1 xs + count 2 xs + count 3 xs + count 4 xs + count 5 xs ≡ length xs
distribution-total [] h = omega arith
distribution-total (x ∷ xs) h = ground (arith, distribution-total xs h.1)

All-insert_sorted :
    (x : ℕ) (ys : List ℕ) → IsScore x → All IsScore ys → All IsScore (insert_sorted x ys)
All-insert_sorted x [] p h = (p, tt)
All-insert_sorted x (y ∷ ys) p h = ground (arith, All-insert_sorted x ys p h.1)

All-order_by : (xs : List ℕ) → All IsScore xs → All IsScore (order_by xs)
unfolding order_by
All-order_by [] h = tt
All-order_by (x ∷ xs) h = All-insert_sorted x (order_by xs) h.0 (All-order_by xs h.1)

get_elem?-IsScore : (xs : List ℕ) (i a : ℕ) → All IsScore xs → get_elem? xs i ≡ some a → IsScore a
get_elem?-IsScore [] i a h e = cc
get_elem?-IsScore (x ∷ xs) zero a h e = ground arith
get_elem?-IsScore (x ∷ xs) (suc i) a h e = get_elem?-IsScore xs i a h.1 e

-- What the cache columns of a Nano with these approved scores hold.
abbrev pub average_of : List ℕ → ℕ
average_of scores = if length scores == 0 then 0 else quantize_rating (sum scores) (length scores)

-- The metrics of a list of approved scores.
abbrev pub metrics : List ℕ → ℕ → NanoRatingAggregation
metrics scores m = record {
  average_rating = average_of scores;
  median_rating = m;
  rating_count = length scores;
  distribution = distribution_of scores;
}

aggregate-metrics : (scores : List ℕ) → (m : ℕ) × (aggregate scores ≡ some (metrics scores m))
unfolding aggregate
aggregate-metrics [] = (0, refl)
aggregate-metrics (x ∷ xs) =
    let (m, e) = median_rating_total (x ∷ xs) (omega arith) in (m, rw e (ground arith))

-- The metrics of any ratings are computed: no median query misses a row. The count, the average and
-- the distribution are those of the approved scores, with 0 for the average of no score.
pub aggregation_total :
    (nano : ℕ) (rs : List NanoRating)
    → (m : ℕ) × (calculate_nano_rating_aggregation nano rs
        ≡ some (metrics (approved_scores nano rs) m))
unfolding calculate_nano_rating_aggregation
aggregation_total nano rs = aggregate-metrics (approved_scores nano rs)

-- The average of scores from 1 to 5 lies between 1.00 and 5.00.
average_of_bounds :
    (scores : List ℕ)
    → All IsScore scores
    → 0 < length scores
    → (100 ≤ average_of scores) × (average_of scores ≤ 500)
average_of_bounds [] h pos = absurd (omega arith)
average_of_bounds (x ∷ xs) h pos =
    ground (arith, quantize_bounds (sum (x ∷ xs)) (length (x ∷ xs)) pos, sum_bounds (x ∷ xs) h)

-- What the median is, by the parity of the number of scores.
abbrev pub IsOddMedian : List ℕ → ℕ → ℕ → Type 0
IsOddMedian scores m a =
    (length scores % 2 ≡ 1)
    × (get_elem? (order_by scores) (length scores / 2) ≡ some a)
    × (m ≡ quantize_rating a 1)

abbrev pub IsEvenMedian : List ℕ → ℕ → ℕ → ℕ → Type 0
IsEvenMedian scores m a b =
    (length scores % 2 ≡ 0)
    × (get_elem? (order_by scores) (length scores / 2 - 1) ≡ some a)
    × (get_elem? (order_by scores) (length scores / 2 - 1 + 1) ≡ some b)
    × (m ≡ quantize_rating (a + b) 2)

pub median_rating_cases :
    (scores : List ℕ) (m : ℕ)
    → median_rating scores ≡ some m
    → ((a : ℕ) × IsOddMedian scores m a) ⊎ ((a : ℕ) × (b : ℕ) × IsEvenMedian scores m a b)
unfolding median_rating
median_rating_cases scores m e = elim (Bool-cases (length scores % 2 == 1)) [
  | inl odd ↦ elim (Option-cases (get_elem? (order_by scores) (length scores / 2))) [
    | inl missing ↦ absurd (ground arith)
    | inr (a, found) ↦ inl (a, ground arith)
  ]
  | inr even ↦ elim (Option-cases (get_elem? (order_by scores) (length scores / 2 - 1))) [
    | inl missing ↦ absurd (ground arith)
    | inr (a, found) ↦
        elim (Option-cases (get_elem? (order_by scores) (length scores / 2 - 1 + 1))) [
          | inl missing ↦ absurd (ground arith)
          | inr (b, next) ↦ inr (a, b, ground arith)
        ]
  ]
]

median_rating_bounds :
    (scores : List ℕ) (m : ℕ)
    → All IsScore scores
    → median_rating scores ≡ some m
    → (100 ≤ m) × (m ≤ 500)
median_rating_bounds scores m h e =
    let scored = All-order_by scores h in
    elim (median_rating_cases scores m e) [
      | inl (a, (_, found, eq)) ↦
          ground (arith, get_elem?-IsScore _ _ a scored found, quantize_bounds a 1)
      | inr (a, b, (_, found, next, eq)) ↦ ground (
        arith,
        get_elem?-IsScore _ _ a scored found,
        get_elem?-IsScore _ _ b scored next,
        quantize_bounds (a + b) 2,
      )
    ]

aggregate_inv :
    (scores : List ℕ) (a : NanoRatingAggregation)
    → 0 < a.rating_count
    → aggregate scores ≡ some a
    → (m : ℕ) × (median_rating scores ≡ some m) × (a ≡ metrics scores m)
unfolding aggregate
aggregate_inv [] a pos e = absurd (ground arith)
aggregate_inv (x ∷ xs) a pos e =
    let (m, found) = median_rating_total (x ∷ xs) (omega arith) in (m, found, ground arith)

-- The metrics of scores from 1 to 5, with at least one approved: the average and the median lie
-- between 1.00 and 5.00, which the column Numeric(3, 2) holds, and the counts of the five scores
-- add up to the number of ratings.
pub metrics_bounds :
    (nano : ℕ) (rs : List NanoRating) (a : NanoRatingAggregation)
    → All IsScore (approved_scores nano rs)
    → 0 < a.rating_count
    → calculate_nano_rating_aggregation nano rs ≡ some a
    → (100 ≤ a.average_rating)
      × (a.average_rating ≤ 500)
      × (100 ≤ a.median_rating)
      × (a.median_rating ≤ 500)
      × (sum a.distribution ≡ a.rating_count)
unfolding calculate_nano_rating_aggregation
metrics_bounds nano rs a h pos e =
    let scores = approved_scores nano rs in
    let (m, found, eq) = aggregate_inv scores a pos e in
    grind (
      arith,
      average_of_bounds scores h,
      median_rating_bounds scores m h found,
      distribution-total scores h,
    )
