-- ===== src/System/Review.antt =====
-- What a moderator's decision does to the Nanos and the ratings.
use mathlib.Core.Path.{fun_ext}
use di_wei_wei_nano_market.Prelude.{
  ℕ, ◌≡◌, ◌≢◌, refl, Bool, none, some, List, [], ◌∷◌, ◌⊎◌, inl, inr, arith, ◌==◌, find, modify,
  length, Option-cases, Bool-cases, find-sat, modify-missing, ap, sym, ◌∙◌,
}
use di_wei_wei_nano_market.Models.{
  Db, TokenData, Nano, NanoRating, nano_at, ModerationCase, ModerationContentType,
  FeedbackModerationStatus,
}
use di_wei_wei_nano_market.Session.{Env, ok, Result-cases}
use di_wei_wei_nano_market.Nanos.Aggregation.{approved_scores}
use di_wei_wei_nano_market.Nanos.Metrics.{metrics}
use di_wei_wei_nano_market.Nanos.Ratings.{set_rating_cache}
use di_wei_wei_nano_market.Nanos.RatingCache.{Resynced, IsForNanos, rated-modify}
use di_wei_wei_nano_market.Moderation.Content.{
  Decision, approve, reject, defer, escalate, valid, ModerationReviewRequest, publish, unpublish,
  recomputed, rating_at, mark_rating, apply_decision_to_content,
}
use di_wei_wei_nano_market.Moderation.Review.{review_moderation_case, case_at, decide_case}
use di_wei_wei_nano_market.Moderation.Decisions.{Reviewed, review-cases, review_unchanged}
use di_wei_wei_nano_market.System.Changes.{
  publish-IsStatusChange, unpublish-IsStatusChange, publish-IsLifeChange, unpublish-IsLifeChange,
}
use di_wei_wei_nano_market.System.Frames.{Reshaped, same, changed, Served, reshaped, resynced}

-- The moderation service's own computation of a Nano's cached count and average, by counts and sums,
-- gives the Nano the same columns as the metrics of the nano service do, with any median.
pub recomputed-eq-set_rating_cache :
    (i m : ℕ) (db : Db) (n : Nano)
    → recomputed i db n ≡ set_rating_cache (metrics (approved_scores i db.ratings) m) n
recomputed-eq-set_rating_cache i m db n =
    elim (Bool-cases (length (approved_scores i db.ratings) == 0)) [
      | inl empty ↦ ground arith
      | inr filled ↦ ground arith
    ]

-- Scores of other Nanos do not move when the row that is found changes.
approved_scores-modify_found :
    (j : ℕ) (p : NanoRating → Bool) (f : NanoRating → NanoRating) (rs : List NanoRating)
    (r : NanoRating)
    → find p rs ≡ some r
    → ((x : NanoRating) → (f x).nano_id ≡ x.nano_id)
    → j ≢ r.nano_id
    → approved_scores j (modify p f rs) ≡ approved_scores j rs
approved_scores-modify_found j p f [] r e k ne = refl
approved_scores-modify_found j p f (x ∷ rs) r e k ne =
    ground (arith, k x, approved_scores-modify_found j p f rs r)

module _ (env : Env) (k : ℕ) (q : ModerationReviewRequest) (user : TokenData) (db : Db)
    (c c' : ModerationCase) (found : find (case_at k) db.cases ≡ some c)
    (accepted : (Reviewed env k q user db).0 ≡ ok c') where
  nano_reviewed :
      (d : Decision)
      → q.decision ≡ valid d
      → c.content_type ≡ ModerationContentType.nano
      → Reshaped user.user_id db (Reviewed env k q user db).1
  unfolding review_moderation_case apply_decision_to_content
  nano_reviewed approve e t = elim (Option-cases (find (nano_at c.content_id) db.nanos)) [
    | inl gone ↦ same (ground arith) (ground arith)
    | inr (n, there) ↦
        changed n.id (publish env) (publish-IsStatusChange env) (publish-IsLifeChange env)
          (ground arith) (ground arith)
  ]
  nano_reviewed reject e t = elim (Option-cases (find (nano_at c.content_id) db.nanos)) [
    | inl gone ↦ same (ground arith) (ground arith)
    | inr (n, there) ↦
        changed n.id unpublish unpublish-IsStatusChange unpublish-IsLifeChange (ground arith)
          (ground arith)
  ]
  nano_reviewed _ e t = elim (Option-cases (find (nano_at c.content_id) db.nanos)) [
    | inl gone ↦ same (ground arith) (ground arith)
    | inr (n, there) ↦ same (ground arith) (ground arith)
  ]

  -- Where a decision on a rating writes nothing.
  rating_kept :
      (d : Decision)
      → q.decision ≡ valid d
      → c.content_type ≡ ModerationContentType.nano_rating
      → ((d ≡ defer) ⊎ (d ≡ escalate)) ⊎ (find (rating_at c.content_id) db.ratings ≡ none)
      → Reshaped user.user_id db (Reviewed env k q user db).1
  unfolding review_moderation_case apply_decision_to_content
  rating_kept d e t (inl (inl x)) = same (ground arith) (ground arith)
  rating_kept d e t (inl (inr x)) = same (ground arith) (ground arith)
  rating_kept d e t (inr x) = same (ground arith) (ground arith)

  other_kept :
      (d : Decision)
      → q.decision ≡ valid d
      → (c.content_type ≡ ModerationContentType.nano_comment)
        ⊎ (c.content_type ≡ ModerationContentType.flag)
      → Reshaped user.user_id db (Reviewed env k q user db).1
  unfolding review_moderation_case apply_decision_to_content
  other_kept d e (inl t) = same (ground arith) (ground arith)
  other_kept d e (inr t) = same (ground arith) (ground arith)

  -- The ratings and the cache that a decision writes: `s` is the status that it gives.
  rating_written :
      (d : Decision) (s : FeedbackModerationStatus) (r : NanoRating)
      → q.decision ≡ valid d
      → c.content_type ≡ ModerationContentType.nano_rating
      → ((d ≡ approve) × (s ≡ FeedbackModerationStatus.approved))
        ⊎ ((d ≡ reject) × (s ≡ FeedbackModerationStatus.hidden))
      → find (rating_at c.content_id) db.ratings ≡ some r
      → let rs' = modify (rating_at r.id) (mark_rating env s user q.reason) db.ratings in
        let pending = record db {
          cases = modify (case_at k) (decide_case env d q user) db.cases;
          ratings = rs';
        } in
        ((Reviewed env k q user db).1.ratings ≡ rs')
        × ((find (nano_at r.nano_id) db.nanos ≡ none)
              × ((Reviewed env k q user db).1.nanos ≡ db.nanos)
            ⊎ ((Reviewed env k q user db).1.nanos
                ≡ modify (nano_at r.nano_id) (recomputed r.nano_id pending) db.nanos))
  unfolding review_moderation_case apply_decision_to_content
  rating_written d s r e t (inl which) there =
      elim (Option-cases (find (nano_at r.nano_id) db.nanos)) [
        | inl gone ↦ (ground arith, inl (gone, ground arith))
        | inr (n, at) ↦ (ground arith, inr (ground arith))
      ]
  rating_written d s r e t (inr which) there =
      elim (Option-cases (find (nano_at r.nano_id) db.nanos)) [
        | inl gone ↦ (ground arith, inl (gone, ground arith))
        | inr (n, at) ↦ (ground arith, inr (ground arith))
      ]

  rating-Resynced :
      (d : Decision) (s : FeedbackModerationStatus) (r : NanoRating)
      → q.decision ≡ valid d
      → c.content_type ≡ ModerationContentType.nano_rating
      → ((d ≡ approve) × (s ≡ FeedbackModerationStatus.approved))
        ⊎ ((d ≡ reject) × (s ≡ FeedbackModerationStatus.hidden))
      → find (rating_at c.content_id) db.ratings ≡ some r
      → Resynced r.nano_id
          (modify (rating_at r.id) (mark_rating env s user q.reason) db.ratings)
          db
          (Reviewed env k q user db).1
  unfolding Resynced
  rating-Resynced d s r e t which there =
      let rs' = modify (rating_at r.id) (mark_rating env s user q.reason) db.ratings in
      let pending : Db = record db {
        cases = modify (case_at k) (decide_case env d q user) db.cases;
        ratings = rs';
      } in
      let (ratings, nanos) = rating_written d s r e t which there in
      let owned : IsForNanos db.nanos db.ratings rs' = λ j missing unrated.
        rated-modify j (rating_at r.id) (mark_rating env s user q.reason) db.ratings (λ _. refl)
        ∙ unrated in
      elim nanos [
        | inl (gone, kept) ↦
            inr (0, ratings, kept ∙ sym (modify-missing (nano_at r.nano_id) _ db.nanos gone), owned)
        | inr written ↦ inr (
          0,
          ratings,
          written
              ∙ ap (λ f. modify (nano_at r.nano_id) f db.nanos)
                  (fun_ext (recomputed-eq-set_rating_cache r.nano_id 0 pending)),
          owned,
        )
      ]

  rating-Served :
      (d : Decision) (s : FeedbackModerationStatus) (r : NanoRating)
      → q.decision ≡ valid d
      → c.content_type ≡ ModerationContentType.nano_rating
      → ((d ≡ approve) × (s ≡ FeedbackModerationStatus.approved))
        ⊎ ((d ≡ reject) × (s ≡ FeedbackModerationStatus.hidden))
      → find (rating_at c.content_id) db.ratings ≡ some r
      → Served user.user_id db (Reviewed env k q user db).1
  rating-Served d s r e t which there =
      let own : find (rating_at r.id) db.ratings ≡ some r =
        ground (arith, find-sat (rating_at c.content_id) db.ratings there) in
      resynced r.nano_id _
        (λ j ne.
          approved_scores-modify_found j (rating_at r.id) (mark_rating env s user q.reason)
            db.ratings r own (λ _. refl) ne)
        (rating-Resynced d s r e t which there)

  rating_reviewed :
      (d d' : Decision)
      → d ≡ d'
      → q.decision ≡ valid d
      → c.content_type ≡ ModerationContentType.nano_rating
      → (r : NanoRating) → find (rating_at c.content_id) db.ratings ≡ some r
      → Served user.user_id db (Reviewed env k q user db).1
  rating_reviewed d approve p e t r there =
      rating-Served d FeedbackModerationStatus.approved r e t (inl (p, refl)) there
  rating_reviewed d reject p e t r there =
      rating-Served d FeedbackModerationStatus.hidden r e t (inr (p, refl)) there
  rating_reviewed d defer p e t r there = reshaped (rating_kept d e t (inl (inl p)))
  rating_reviewed d escalate p e t r there = reshaped (rating_kept d e t (inl (inr p)))

  reviewed_at :
      (t : ModerationContentType) (d : Decision)
      → c.content_type ≡ t
      → q.decision ≡ valid d
      → Served user.user_id db (Reviewed env k q user db).1
  reviewed_at ModerationContentType.nano d t e = reshaped (nano_reviewed d e t)
  reviewed_at ModerationContentType.nano_rating d t e =
      elim (Option-cases (find (rating_at c.content_id) db.ratings)) [
        | inl gone ↦ reshaped (rating_kept d e t (inr gone))
        | inr (r, there) ↦ rating_reviewed d d refl e t r there
      ]
  reviewed_at ModerationContentType.nano_comment d t e = reshaped (other_kept d e (inl t))
  reviewed_at ModerationContentType.flag d t e = reshaped (other_kept d e (inr t))

pub review-Served :
    (env : Env) (k : ℕ) (q : ModerationReviewRequest) (user : TokenData) (db : Db)
    → Served user.user_id db (Reviewed env k q user db).1
review-Served env k q user db = elim (Result-cases (Reviewed env k q user db).0) [
  | inl (c', accepted) ↦
      let (d, c, e, found, eq, cases) = review-cases env k q user db c' accepted in
      reviewed_at env k q user db c c' found accepted c.content_type d refl e
  | inr (e, refused) ↦
      let kept = review_unchanged env k q user db e refused in
      reshaped (same (ap (λ x. x.nanos) kept) (ap (λ x. x.ratings) kept))
]
