-- ===== src/Nanos/RatingCache.antt =====
-- The denormalised columns `average_rating` and `rating_count` of a Nano always tell what its
-- approved ratings say.
use di_wei_wei_nano_market.Prelude.{
  ℕ, ◌≡◌, ◌≢◌, refl, ap, sym, ◌∙◌, false, any, Bool, true, none, some, List, [], ◌∷◌, ◌⊎◌, inl, inr,
  arith, ◌==◌, length, find, modify, Bool-cases, Option-cases,
}
use di_wei_wei_nano_market.Models.{
  Nano, NanoRating, TokenData, Db, nano_at, rating_by, find-modify_nano,
}
use di_wei_wei_nano_market.Session.{Env, ok, request, Result-cases}
use di_wei_wei_nano_market.Nanos.Aggregation.{NanoRatingAggregation, approved_scores}
use di_wei_wei_nano_market.Nanos.Metrics.{average_of, metrics, aggregation_total}
use di_wei_wei_nano_market.Nanos.Ratings.{
  new_rating, rescore, rating_of, moderate_rating_row, set_rating_cache, create_nano_rating,
  update_nano_rating, moderate_nano_rating, FeedbackModerationRequest,
}

pub record IsCacheSynced (nanos : List Nano) (ratings : List NanoRating) : Type 0 where
  pub at :
      (i : ℕ) (n : Nano)
      → find (nano_at i) nanos ≡ some n
      → (n.rating_count ≡ length (approved_scores i ratings))
        × (n.average_rating ≡ average_of (approved_scores i ratings))

-- Scores of other Nanos do not move when a row of Nano `i` changes.
pub approved_scores-modify_other :
    (i j : ℕ) (p : NanoRating → Bool) (f : NanoRating → NanoRating) (rs : List NanoRating)
    → ((r : NanoRating) → p r ≡ true → r.nano_id ≡ i)
    → ((r : NanoRating) → (f r).nano_id ≡ r.nano_id)
    → j ≢ i
    → approved_scores j (modify p f rs) ≡ approved_scores j rs
approved_scores-modify_other i j p f [] h k ne = refl
approved_scores-modify_other i j p f (r ∷ rs) h k ne =
    ground (arith, h r, k r, approved_scores-modify_other i j p f rs h k ne)

-- What a handler that writes ratings of Nano `i` and then syncs its cache leaves behind.
abbrev pub synced : ℕ → List Nano → List NanoRating → ℕ → List Nano
synced i nanos ratings m =
    modify (nano_at i) (set_rating_cache (metrics (approved_scores i ratings) m)) nanos

pub sync-IsCacheSynced :
    (i m : ℕ) (nanos : List Nano) (rs rs' : List NanoRating)
    → ((j : ℕ) → j ≢ i → approved_scores j rs' ≡ approved_scores j rs)
    → IsCacheSynced nanos rs
    → IsCacheSynced (synced i nanos rs' m) rs'
sync-IsCacheSynced i m nanos rs rs' same h = record { at = go }
  where
    a : NanoRatingAggregation
    a = metrics (approved_scores i rs') m

    go :
        (j : ℕ) (n : Nano)
        → find (nano_at j) (synced i nanos rs' m) ≡ some n
        → (n.rating_count ≡ length (approved_scores j rs'))
          × (n.average_rating ≡ average_of (approved_scores j rs'))
    go j n e = elim (Bool-cases (i == j)) [
      | inl self ↦ elim (Option-cases (find (nano_at j) nanos)) [
        | inl missing ↦
            absurd (ground (arith, find-modify_nano i j (set_rating_cache a) nanos (λ _. refl)))
        | inr (n', found) ↦
            ground (arith, find-modify_nano i j (set_rating_cache a) nanos (λ _. refl))
      ]
      | inr other ↦ ground (
        arith,
        find-modify_nano i j (set_rating_cache a) nanos (λ _. refl),
        same j (ground arith),
        h.at j n,
      )
    ]

abbrev pub rated : ℕ → List NanoRating → Bool
rated i rs = any (λ r. r.nano_id == i) rs

-- A write of ratings adds none for a Nano that there is not.
abbrev pub IsForNanos : List Nano → List NanoRating → List NanoRating → Type 0
IsForNanos nanos rs rs' =
    (j : ℕ) → find (nano_at j) nanos ≡ none → rated j rs ≡ false → rated j rs' ≡ false

pub rated-modify :
    (j : ℕ) (p : NanoRating → Bool) (f : NanoRating → NanoRating) (rs : List NanoRating)
    → ((r : NanoRating) → (f r).nano_id ≡ r.nano_id)
    → rated j (modify p f rs) ≡ rated j rs
rated-modify j p f [] same = refl
rated-modify j p f (r ∷ rs) same = ground (arith, same r, rated-modify j p f rs same)

pub approved_scores-unrated :
    (i : ℕ) (rs : List NanoRating) → rated i rs ≡ false → approved_scores i rs ≡ []
approved_scores-unrated i [] h = refl
approved_scores-unrated i (r ∷ rs) h = ground (arith, approved_scores-unrated i rs)

-- A request that leaves Nanos and ratings alone, or writes ratings of Nano `i` and syncs.
unfoldable pub Resynced : ℕ → List NanoRating → Db → Db → Type 0
Resynced i rs' db db' =
    ((db'.nanos ≡ db.nanos) × (db'.ratings ≡ db.ratings))
    ⊎ ((m : ℕ) × (db'.ratings ≡ rs')
        × (db'.nanos ≡ synced i db.nanos rs' m)
        × IsForNanos db.nanos db.ratings rs')

pub Resynced-IsCacheSynced :
    (i : ℕ) (rs' : List NanoRating) (db db' : Db)
    → ((j : ℕ) → j ≢ i → approved_scores j rs' ≡ approved_scores j db.ratings)
    → Resynced i rs' db db'
    → IsCacheSynced db.nanos db.ratings
    → IsCacheSynced db'.nanos db'.ratings
unfolding Resynced
Resynced-IsCacheSynced i rs' db db' same (inl (n, r)) h = rw (n, r) h
Resynced-IsCacheSynced i rs' db db' same (inr (m, r, n, there)) h =
    rw (n, r) (sync-IsCacheSynced i m db.nanos db.ratings rs' same h)

-- A rating is accepted for a Nano that there is.
created_found :
    (env : Env) (i score : ℕ) (user : TokenData) (db : Db) (a : NanoRatingAggregation)
    → (request (create_nano_rating env i score user) db).0 ≡ ok a
    → find (nano_at i) db.nanos ≢ none
unfolding create_nano_rating
created_found env i score user db a accepted missing = ground arith

pub create-Resynced :
    (env : Env) (i score : ℕ) (user : TokenData) (db : Db)
    → Resynced i
        (new_rating env i user.user_id score ∷ db.ratings)
        db
        (request (create_nano_rating env i score user) db).1
unfolding create_nano_rating Resynced
create-Resynced env i score user db =
    let rs' = new_rating env i user.user_id score ∷ db.ratings in
    let (m, e) = aggregation_total i rs' in
    elim (Result-cases (request (create_nano_rating env i score user) db).0) [
      | inl (a, accepted) ↦ inr (
        m,
        ground arith,
        ground arith,
        λ j missing unrated.
            let other : j ≢ i = λ same.
              created_found env i score user db a accepted
                (ap (λ k. find (nano_at k) db.nanos) (sym same) ∙ missing) in
            ground arith,
      )
      | inr (x, refused) ↦ inl (ground arith)
    ]

pub update-Resynced :
    (env : Env) (i score : ℕ) (user : TokenData) (db : Db)
    → Resynced i
        (modify (rating_by i user.user_id) (rescore score) db.ratings)
        db
        (request (update_nano_rating env i score user) db).1
unfolding update_nano_rating Resynced
update-Resynced env i score user db =
    let rs' = modify (rating_by i user.user_id) (rescore score) db.ratings in
    let (m, e) = aggregation_total i rs' in
    elim (Result-cases (request (update_nano_rating env i score user) db).0) [
      | inl (a, accepted) ↦ inr (
        m,
        ground arith,
        ground arith,
        λ j missing unrated.
            rated-modify j (rating_by i user.user_id) (rescore score) db.ratings (λ r. refl)
            ∙ unrated,
      )
      | inr (x, refused) ↦ inl (ground arith)
    ]

pub moderate-Resynced :
    (env : Env) (i k : ℕ) (q : FeedbackModerationRequest) (user : TokenData) (db : Db)
    → Resynced i
        (modify (rating_of k i) (moderate_rating_row env q user) db.ratings)
        db
        (request (moderate_nano_rating env i k q user) db).1
unfolding moderate_nano_rating Resynced
moderate-Resynced env i k q user db =
    let rs' = modify (rating_of k i) (moderate_rating_row env q user) db.ratings in
    let (m, e) = aggregation_total i rs' in
    elim (Result-cases (request (moderate_nano_rating env i k q user) db).0) [
      | inl (a, accepted) ↦ inr (
        m,
        ground arith,
        ground arith,
        λ j missing unrated.
            rated-modify j (rating_of k i) (moderate_rating_row env q user) db.ratings (λ r. refl)
            ∙ unrated,
      )
      | inr (x, refused) ↦ inl (ground arith)
    ]

pub approved_scores-new :
    (env : Env) (i user score j : ℕ) (rs : List NanoRating)
    → approved_scores j (new_rating env i user score ∷ rs) ≡ approved_scores j rs
approved_scores-new env i user score j rs = ground arith
