-- ===== src/Nanos/Aggregation.antt =====
-- The rating metrics of one Nano: `_calculate_nano_rating_aggregation` with its queries. A
-- Decimal with two places is a number of hundredths.
use di_wei_wei_nano_market.Prelude.{
  ℕ, zero, suc, ◌+◌, ◌-◌, ◌*◌, ◌/◌, ◌%◌, Bool, Option, none, some, List, [], ◌∷◌, map, ◌==◌, ◌&&◌,
  leb, if◌then◌else◌, length, select,
}
use di_wei_wei_nano_market.Models.{NanoRating, is_approved}

-- `value.quantize(Decimal("0.01"), rounding=ROUND_HALF_UP)` at the fraction `num / den`.
unfoldable pub quantize_rating : ℕ → ℕ → ℕ
quantize_rating num den = (200 * num + den) / (2 * den)

-- `WHERE nano_id = … AND moderation_status = 'approved'`
abbrev pub counts_for : ℕ → NanoRating → Bool
counts_for nano r = (r.nano_id == nano) && is_approved r.moderation_status

abbrev pub approved_scores : ℕ → List NanoRating → List ℕ
approved_scores nano rs = map (λ r. r.score) (select (counts_for nano) rs)

abbrev pub sum : List ℕ → ℕ
sum [] = 0
sum (x ∷ xs) = x + sum xs

-- `ORDER BY score`
abbrev pub insert_sorted : ℕ → List ℕ → List ℕ
insert_sorted x [] = x ∷ []
insert_sorted x (y ∷ ys) = if leb x y then x ∷ y ∷ ys else y ∷ insert_sorted x ys

unfoldable pub order_by : List ℕ → List ℕ
order_by [] = []
order_by (x ∷ xs) = insert_sorted x (order_by xs)

abbrev pub get_elem? {ℓ} : {A : Type ℓ} → List A → ℕ → Option A
get_elem? [] i = none
get_elem? (x ∷ xs) zero = some x
get_elem? (x ∷ xs) (suc i) = get_elem? xs i

abbrev pub count : ℕ → List ℕ → ℕ
count a [] = 0
count a (x ∷ xs) = let rest = count a xs in if x == a then suc rest else rest

-- `none` where a row that the query promises is not there.
abbrev median_odd : Option ℕ → Option ℕ
median_odd none = none
median_odd (some a) = some (quantize_rating a 1)

abbrev median_even : Option ℕ → Option ℕ → Option ℕ
median_even none _ = none
median_even (some a) none = none
median_even (some a) (some b) = some (quantize_rating (a + b) 2)

unfoldable pub median_rating : List ℕ → Option ℕ
unfolding quantize_rating
median_rating scores =
    let n = length scores in
    let sorted = order_by scores in
    if n % 2 == 1
    then median_odd (get_elem? sorted (n / 2))
    else median_even (get_elem? sorted (n / 2 - 1)) (get_elem? sorted (n / 2 - 1 + 1))

pub record NanoRatingAggregation : Type 0 where
  pub average_rating : ℕ
  pub median_rating : ℕ
  pub rating_count : ℕ
  -- the counts of the scores 1 to 5
  pub distribution : List ℕ

abbrev pub distribution_of : List ℕ → List ℕ
distribution_of scores =
    count 1 scores ∷ count 2 scores ∷ count 3 scores ∷ count 4 scores ∷ count 5 scores ∷ []

abbrev pub empty_aggregation : NanoRatingAggregation
empty_aggregation = record {
  average_rating = 0;
  median_rating = 0;
  rating_count = 0;
  distribution = 0 ∷ 0 ∷ 0 ∷ 0 ∷ 0 ∷ [];
}

with_median : List ℕ → Option ℕ → Option NanoRatingAggregation
with_median scores none = none
with_median scores (some m) = some (record {
  average_rating = quantize_rating (sum scores) (length scores);
  median_rating = m;
  rating_count = length scores;
  distribution = distribution_of scores;
})

unfoldable pub aggregate : List ℕ → Option NanoRatingAggregation
unfolding with_median
aggregate scores =
    if length scores == 0 then some empty_aggregation else with_median scores (median_rating scores)

unfoldable pub calculate_nano_rating_aggregation :
    ℕ → List NanoRating → Option NanoRatingAggregation
calculate_nano_rating_aggregation nano rs = aggregate (approved_scores nano rs)
