-- ===== src/Tests/Metrics.antt =====
-- Rating metrics and whole runs on the small market.
use di_wei_wei_nano_market.Prelude.{
  ℕ, ◌*◌, ◌≡◌, ◌≤◌, refl, none, some, List, [], ◌∷◌, arith, length,
}
use di_wei_wei_nano_market.Models.{NanoRating, FeedbackModerationStatus, TokenData}
use di_wei_wei_nano_market.Session.{Env}
use di_wei_wei_nano_market.Moderation.Content.{approve}
use di_wei_wei_nano_market.Nanos.Aggregation.{
  NanoRatingAggregation, quantize_rating, order_by, sum, median_rating, aggregate,
  calculate_nano_rating_aggregation,
}
use di_wei_wei_nano_market.Nanos.Metrics.{metrics_bounds}
use di_wei_wei_nano_market.Nanos.Median.{low, high, median_rating_splits}
use di_wei_wei_nano_market.Tests.Intruder.{keep}
use di_wei_wei_nano_market.Tests.Parcel.{zip_of, number_text, shelf, prompt, parcel, unsteady}
use di_wei_wei_nano_market.System.Invariant.{IsConsistent}
use di_wei_wei_nano_market.System.Run.{Call, run, run-IsConsistent}
use di_wei_wei_nano_market.Tests.Data.{env, moderator, reader, market, rating, review_of}

abbrev scored : ℕ → ℕ → NanoRating
scored i s = record rating {
  id = i;
  user_id = i;
  score = s;
  moderation_status = FeedbackModerationStatus.approved;
}

-- 5, 4 and 4 stars, and one rating that does not count
abbrev ratings : List NanoRating
ratings = scored 40 5 ∷ rating ∷ scored 41 4 ∷ scored 42 4 ∷ []

abbrev expected : NanoRatingAggregation
expected = record {
  average_rating = 433;
  median_rating = 400;
  rating_count = 3;
  distribution = 0 ∷ 0 ∷ 0 ∷ 2 ∷ 1 ∷ [];
}

aggregates : calculate_nano_rating_aggregation 11 ratings ≡ some expected
unfolding calculate_nano_rating_aggregation aggregate median_rating order_by quantize_rating
aggregates = refl

metrics_bounds_example :
    (100 ≤ expected.average_rating)
    × (expected.average_rating ≤ 500)
    × (100 ≤ expected.median_rating)
    × (expected.median_rating ≤ 500)
    × (sum expected.distribution ≡ expected.rating_count)
metrics_bounds_example = metrics_bounds 11 ratings expected (ground arith) (omega arith) aggregates

abbrev scores : List ℕ
scores = 5 ∷ 2 ∷ 4 ∷ 3 ∷ []

middle : median_rating scores ≡ some 350
unfolding median_rating order_by quantize_rating
middle = refl

median_rating_splits_example :
    (length scores ≤ 2 * low 350 scores) × (length scores ≤ 2 * high 350 scores)
median_rating_splits_example = median_rating_splits scores 350 (omega arith) middle

market-IsConsistent : IsConsistent market
market-IsConsistent = record {
  owned = record { at = λ i e. ground arith };
  cached = record { at = λ i n e. ground arith };
  stamped = record { at = λ i n e p. ground arith };
}

-- A reader uploads a Nano, whose id is new. The reader's rating is approved, rescored and approved again, and the Nano is taken down.
abbrev story : List (Env × TokenData × Call)
story =
    (env, reader, Call.upload keep zip_of number_text shelf prompt parcel unsteady)
    ∷ (env, moderator, Call.review 31 (review_of approve))
    ∷ (env, reader, Call.update_rating 11 2)
    ∷ (env, moderator, Call.review 31 (review_of approve))
    ∷ (env, moderator, Call.takedown 11 (record { reason = 67 ∷ []; note = none }))
    ∷ []

run-IsConsistent_example : IsConsistent (run story market)
run-IsConsistent_example = run-IsConsistent story market market-IsConsistent
