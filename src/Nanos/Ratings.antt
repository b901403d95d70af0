-- ===== src/Nanos/Ratings.antt =====
-- Star ratings: create, update, moderate and read, with the denormalised cache on the Nano.
use di_wei_wei_nano_market.Prelude.{
  ℕ, Bool, true, false, Option, none, some, ◌∷◌, ◌||◌, ◌&&◌, not, ◌==◌, leb, find, modify, any,
}
use di_wei_wei_nano_market.Models.{
  Nano, NanoRating, TokenData, FeedbackModerationStatus, ModerationContentType, AuditAction, Text,
  ResourceType, feedback_moderated, nano_at, rating_by, is_published,
}
use di_wei_wei_nano_market.Session.{
  Env, Action, http_exception, not_published, duplicate, not_found, integrity_error,
  sqlalchemy_error, ◌>>=◌, ◌>>◌, pure, raise, gets, modify_db, raise_if, or_raise, commit, rollback,
  catch_integrity, log_action, invalidate_search_cache,
}
use di_wei_wei_nano_market.Moderation.Cases.{upsert_moderation_case}
use di_wei_wei_nano_market.Nanos.Access.{get_nano_or_404}
use di_wei_wei_nano_market.Nanos.Aggregation.{
  NanoRatingAggregation, calculate_nano_rating_aggregation,
}

unfoldable pub validate_published_for_rating : Nano → Action (Unit {0})
validate_published_for_rating nano =
    raise_if (not (is_published nano.status)) (http_exception 400 not_published)

abbrev pub set_rating_cache : NanoRatingAggregation → Nano → Nano
set_rating_cache a n = record n { average_rating = a.average_rating; rating_count = a.rating_count }

unfoldable pub sync_nano_rating_cache : ℕ → Action NanoRatingAggregation
sync_nano_rating_cache nano_id = do
  found ← gets (λ db. calculate_nano_rating_aggregation nano_id db.ratings)
  aggregation ← or_raise found sqlalchemy_error
  modify_db
      (λ db. record db { nanos = modify (nano_at nano_id) (set_rating_cache aggregation) db.nanos })
  pure aggregation

-- The constraints of `nano_ratings`: the primary key, one rating for a Nano and user, and the range
-- of the score.
abbrev pub rating_conflicts : NanoRating → NanoRating → Bool
rating_conflicts r x = (x.id == r.id) || rating_by r.nano_id r.user_id x

abbrev pub score_in_range : ℕ → Bool
score_in_range score = leb 1 score && leb score 5

abbrev pub insert_rating : NanoRating → Action (Unit {0})
insert_rating r = do
  raise_if (← gets (λ db. any (rating_conflicts r) db.ratings)) integrity_error
  raise_if (not (score_in_range r.score)) integrity_error
  modify_db (λ db. record db { ratings = r ∷ db.ratings })

abbrev pub new_rating : Env → ℕ → ℕ → ℕ → NanoRating
new_rating env nano user score = record {
  id = env.new_id;
  nano_id = nano;
  user_id = user;
  score = score;
  moderation_status = FeedbackModerationStatus.pending;
  moderated_at = none;
  moderated_by_user_id = none;
  moderation_reason = none;
}

-- The row is there.
abbrev pub is_some {ℓ} : {A : Type ℓ} → Option A → Bool
is_some none = false
is_some (some _) = true

unfoldable pub create_nano_rating : Env → ℕ → ℕ → TokenData → Action NanoRatingAggregation
unfolding get_nano_or_404 validate_published_for_rating sync_nano_rating_cache
create_nano_rating env nano_id score user = do
  nano ← get_nano_or_404 nano_id
  validate_published_for_rating nano
  existing ← gets (λ db. find (rating_by nano_id user.user_id) db.ratings)
  raise_if (is_some existing) (http_exception 409 duplicate)
  aggregation ←
      catch_integrity
        (do
          insert_rating (new_rating env nano_id user.user_id score)
          aggregation ← sync_nano_rating_cache nano_id
          upsert_moderation_case env ModerationContentType.nano_rating env.new_id none
          commit
          pure aggregation)
        (do rollback; raise (http_exception 409 duplicate))
  invalidate_search_cache
  pure aggregation

-- A new score goes back into review.
abbrev pub rescore : ℕ → NanoRating → NanoRating
rescore score r = record r {
  score = score;
  moderation_status = FeedbackModerationStatus.pending;
  moderated_at = none;
  moderated_by_user_id = none;
  moderation_reason = none;
}

unfoldable pub update_nano_rating : Env → ℕ → ℕ → TokenData → Action NanoRatingAggregation
unfolding get_nano_or_404 validate_published_for_rating sync_nano_rating_cache
update_nano_rating env nano_id score user = do
  nano ← get_nano_or_404 nano_id
  validate_published_for_rating nano
  found ← gets (λ db. find (rating_by nano_id user.user_id) db.ratings)
  rating ← or_raise found (http_exception 404 not_found)
  raise_if (not (score_in_range score)) integrity_error
  modify_db (λ db. record db {
    ratings = modify (rating_by nano_id user.user_id) (rescore score) db.ratings;
  })
  aggregation ← sync_nano_rating_cache nano_id
  upsert_moderation_case env ModerationContentType.nano_rating rating.id none
  commit
  invalidate_search_cache
  pure aggregation

-- `FeedbackModerationRequest` (app/modules/nanos/schemas.py): its validator lets two values through.
pub data TargetStatus : Type 0 where
  approved hidden : TargetStatus

pub record FeedbackModerationRequest : Type 0 where
  pub status : TargetStatus
  pub reason : Option Text

abbrev pub to_status : TargetStatus → FeedbackModerationStatus
to_status TargetStatus.approved = FeedbackModerationStatus.approved
to_status TargetStatus.hidden = FeedbackModerationStatus.hidden

-- `_apply_feedback_moderation` at a rating
abbrev pub moderate_rating_row :
    Env → FeedbackModerationRequest → TokenData → NanoRating → NanoRating
moderate_rating_row env moderation moderator r = record r {
  moderation_status = to_status moderation.status;
  moderated_at = some env.now;
  moderated_by_user_id = some moderator.user_id;
  moderation_reason = moderation.reason;
}

-- `WHERE id = … AND nano_id = …`
abbrev pub rating_of : ℕ → ℕ → NanoRating → Bool
rating_of i nano r = (r.id == i) && (r.nano_id == nano)

unfoldable pub moderate_nano_rating :
    Env → ℕ → ℕ → FeedbackModerationRequest → TokenData → Action (Unit {0})
unfolding get_nano_or_404 validate_published_for_rating sync_nano_rating_cache
moderate_nano_rating env nano_id rating_id moderation user = do
  nano ← get_nano_or_404 nano_id
  validate_published_for_rating nano
  found ← gets (λ db. find (rating_of rating_id nano_id) db.ratings)
  rating ← or_raise found (http_exception 404 not_found)
  modify_db (λ db. record db {
    ratings =
        modify (rating_of rating_id nano_id) (moderate_rating_row env moderation user) db.ratings;
  })
  aggregation ← sync_nano_rating_cache nano_id
  log_action env (record {
    user_id = user.user_id;
    action = AuditAction.data_modified;
    resource_type = ResourceType.nano_rating;
    resource_id = rating.id;
    event_data =
        feedback_moderated rating.moderation_status (to_status moderation.status) moderation.reason
          nano_id (some aggregation.rating_count);
  })
  commit
