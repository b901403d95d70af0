-- ===== src/Moderation/Content.antt =====
-- What a moderation decision does to the content: `_apply_decision_to_content` and its four
-- branches, and the service's own `_sync_nano_rating_cache`.
use di_wei_wei_nano_market.Prelude.{
  ℕ, Bool, true, false, Option, none, some, ◌==◌, if◌then◌else◌, length, find, modify,
}
use di_wei_wei_nano_market.Models.{
  Nano, NanoRating, NanoComment, NanoFlag, ModerationCase, ModerationContentType, Text, TokenData,
  FeedbackModerationStatus, FlagStatus, Db, nano_at, published, draft,
}
use di_wei_wei_nano_market.Session.{Env, Action, ◌>>=◌, ◌>>◌, pure, gets, modify_db}
use di_wei_wei_nano_market.Publishing.{validate_metadata_completeness, or_now}
use di_wei_wei_nano_market.Nanos.Aggregation.{approved_scores, quantize_rating, sum}

-- The values in `VALID_DECISIONS`.
pub data Decision : Type 0 where
  approve reject defer escalate : Decision

-- A `decision` string of a request: one of the four, or any other.
pub data DecisionText : Type 0 where
  valid : Decision → DecisionText
  other : Text → DecisionText

pub record ModerationReviewRequest : Type 0 where
  pub decision : DecisionText
  pub reason : Option Text
  pub deferred_until : Option ℕ

abbrev pub publish : Env → Nano → Nano
publish env n = record n { status = published; published_at = or_now n.published_at env.now }

abbrev pub unpublish : Nano → Nano
unpublish n = record n { status = draft }

-- `_apply_nano_decision` at the Nano that was found; the result tells whether visibility changed.
decide_nano : Env → Decision → Nano → Action Bool
decide_nano env approve nano = do
  validate_metadata_completeness nano
  modify_db (λ db. record db { nanos = modify (nano_at nano.id) (publish env) db.nanos })
  pure true
decide_nano env reject nano = do
  modify_db (λ db. record db { nanos = modify (nano_at nano.id) unpublish db.nanos })
  pure true
decide_nano env defer nano = pure false
decide_nano env escalate nano = pure false

decide_found_nano : Env → Decision → Option Nano → Action Bool
unfolding decide_nano
decide_found_nano env d none = pure false
decide_found_nano env d (some nano) = decide_nano env d nano

unfoldable pub apply_nano_decision : Env → ModerationCase → Decision → Action Bool
unfolding decide_found_nano
apply_nano_decision env case d = do
  found ← gets (λ db. find (nano_at case.content_id) db.nanos)
  decide_found_nano env d found

-- `_sync_nano_rating_cache` of this service.
abbrev pub recomputed : ℕ → Db → Nano → Nano
recomputed i db n =
    let scores = approved_scores i db.ratings in
    if length scores == 0 then record n { average_rating = 0; rating_count = 0 } else record n {
      average_rating = quantize_rating (sum scores) (length scores);
      rating_count = length scores;
    }

abbrev sync_found : ℕ → Option Nano → Action (Unit {0})
sync_found i none = pure tt
sync_found i (some nano) =
    modify_db (λ db. record db { nanos = modify (nano_at i) (recomputed i db) db.nanos })

unfoldable pub sync_nano_rating_cache : ℕ → Action (Unit {0})
sync_nano_rating_cache i = do found ← gets (λ db. find (nano_at i) db.nanos); sync_found i found

abbrev pub rating_at : ℕ → NanoRating → Bool
rating_at i r = r.id == i

abbrev pub mark_rating :
    Env → FeedbackModerationStatus → TokenData → Option Text → NanoRating → NanoRating
mark_rating env s user reason r = record r {
  moderation_status = s;
  moderated_at = some env.now;
  moderated_by_user_id = some user.user_id;
  moderation_reason = reason;
}

write_rating :
    Env → FeedbackModerationStatus → TokenData → Option Text → NanoRating → Action (Unit {0})
unfolding sync_nano_rating_cache
write_rating env s user reason rating = do
  modify_db (λ db. record db {
    ratings = modify (rating_at rating.id) (mark_rating env s user reason) db.ratings;
  })
  sync_nano_rating_cache rating.nano_id

decide_rating : Env → Decision → TokenData → Option Text → Option NanoRating → Action (Unit {0})
unfolding write_rating
decide_rating env d user reason none = pure tt
decide_rating env approve user reason (some r) =
    write_rating env FeedbackModerationStatus.approved user reason r
decide_rating env reject user reason (some r) =
    write_rating env FeedbackModerationStatus.hidden user reason r
decide_rating env defer user reason (some r) = pure tt
decide_rating env escalate user reason (some r) = pure tt

unfoldable pub apply_rating_decision :
    Env → ModerationCase → TokenData → Decision → Option Text → Action (Unit {0})
unfolding decide_rating
apply_rating_decision env case user d reason = do
  found ← gets (λ db. find (rating_at case.content_id) db.ratings)
  decide_rating env d user reason found

abbrev pub comment_at : ℕ → NanoComment → Bool
comment_at i c = c.id == i

abbrev pub mark_comment :
    Env → FeedbackModerationStatus → TokenData → Option Text → NanoComment → NanoComment
mark_comment env s user reason c = record c {
  moderation_status = s;
  moderated_at = some env.now;
  moderated_by_user_id = some user.user_id;
  moderation_reason = reason;
}

-- The update changes no row where the comment is gone, which is the early return.
unfoldable pub apply_comment_decision :
    Env → ModerationCase → TokenData → Decision → Option Text → Action (Unit {0})
apply_comment_decision env case user approve reason = modify_db (λ db. record db {
  comments =
      modify (comment_at case.content_id)
        (mark_comment env FeedbackModerationStatus.approved user reason) db.comments;
})
apply_comment_decision env case user reject reason = modify_db (λ db. record db {
  comments =
      modify (comment_at case.content_id)
        (mark_comment env FeedbackModerationStatus.hidden user reason) db.comments;
})
apply_comment_decision env case user defer reason = pure tt
apply_comment_decision env case user escalate reason = pure tt

abbrev pub flag_status_of : Decision → FlagStatus
flag_status_of approve = FlagStatus.resolved
flag_status_of reject = FlagStatus.closed
flag_status_of defer = FlagStatus.reviewed
flag_status_of escalate = FlagStatus.reviewed

abbrev pub flag_at : ℕ → NanoFlag → Bool
flag_at i f = f.id == i

abbrev pub mark_flag : Env → Decision → TokenData → NanoFlag → NanoFlag
mark_flag env d user f = record f {
  status = flag_status_of d;
  reviewed_at = some env.now;
  moderator_id = some user.user_id;
}

unfoldable pub apply_flag_decision : Env → ModerationCase → TokenData → Decision → Action (Unit {0})
apply_flag_decision env case user d =
    modify_db
      (λ db. record db { flags = modify (flag_at case.content_id) (mark_flag env d user) db.flags })

apply_by_type :
    Env → ModerationContentType → ModerationCase → TokenData → Decision → Option Text → Action Bool
unfolding apply_nano_decision apply_rating_decision apply_comment_decision apply_flag_decision
apply_by_type env ModerationContentType.nano case user d reason = apply_nano_decision env case d
apply_by_type env ModerationContentType.nano_rating case user d reason =
    apply_rating_decision env case user d reason >> pure false
apply_by_type env ModerationContentType.nano_comment case user d reason =
    apply_comment_decision env case user d reason >> pure false
apply_by_type env ModerationContentType.flag case user d reason =
    apply_flag_decision env case user d >> pure false

unfoldable pub apply_decision_to_content :
    Env → ModerationCase → TokenData → Decision → Option Text → Action Bool
unfolding apply_by_type
apply_decision_to_content env case user d reason =
    apply_by_type env case.content_type case user d reason
