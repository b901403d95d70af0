-- ===== src/Nanos/Comments.antt =====
-- Comments: create, update by owner or moderator, and moderate.
use di_wei_wei_nano_market.Prelude.{
  ℕ, Bool, not, none, some, ◌∷◌, ◌||◌, ◌&&◌, ◌==◌, leb, find, modify, any, length,
}
use di_wei_wei_nano_market.Models.{
  Nano, NanoComment, TokenData, FeedbackModerationStatus, ModerationContentType, AuditAction, Text,
  ResourceType, feedback_moderated, comment_by, is_published, is_moderator_or_admin,
}
use di_wei_wei_nano_market.Session.{
  Env, Action, http_exception, not_published, duplicate, not_found, forbidden, integrity_error,
  ◌>>=◌, ◌>>◌, pure, raise, gets, modify_db, raise_if, or_raise, commit, rollback, catch_integrity,
  log_action,
}
use di_wei_wei_nano_market.Moderation.Cases.{upsert_moderation_case}
use di_wei_wei_nano_market.Nanos.Access.{get_nano_or_404}
use di_wei_wei_nano_market.Nanos.Ratings.{is_some, FeedbackModerationRequest, to_status}
use di_wei_wei_nano_market.Nanos.Sanitize.{
  sanitize_comment_content, validate_sanitized_comment_content, max_comment_length,
}

unfoldable pub validate_published_for_comments : Nano → Action (Unit {0})
validate_published_for_comments nano =
    raise_if (not (is_published nano.status)) (http_exception 400 not_published)

-- The constraints of `nano_comments`.
abbrev pub comment_conflicts : NanoComment → NanoComment → Bool
comment_conflicts c x = (x.id == c.id) || comment_by c.nano_id c.user_id x

abbrev pub content_in_range : Text → Bool
content_in_range t = leb 1 (length t) && leb (length t) max_comment_length

abbrev pub insert_comment : NanoComment → Action (Unit {0})
insert_comment c = do
  raise_if (← gets (λ db. any (comment_conflicts c) db.comments)) integrity_error
  raise_if (not (content_in_range c.content)) integrity_error
  modify_db (λ db. record db { comments = c ∷ db.comments })

abbrev pub new_comment : Env → ℕ → ℕ → Text → NanoComment
new_comment env nano user content = record {
  id = env.new_id;
  nano_id = nano;
  user_id = user;
  content = content;
  moderation_status = FeedbackModerationStatus.pending;
  moderated_at = none;
  moderated_by_user_id = none;
  moderation_reason = none;
}

unfoldable pub create_nano_comment : Env → ℕ → Text → TokenData → Action NanoComment
unfolding get_nano_or_404 validate_published_for_comments
create_nano_comment env nano_id content user = do
  nano ← get_nano_or_404 nano_id
  validate_published_for_comments nano
  existing ← gets (λ db. find (comment_by nano_id user.user_id) db.comments)
  raise_if (is_some existing) (http_exception 409 duplicate)
  let sanitized = sanitize_comment_content content
  validate_sanitized_comment_content sanitized
  let comment = new_comment env nano_id user.user_id sanitized
  catch_integrity
      (do
        insert_comment comment
        upsert_moderation_case env ModerationContentType.nano_comment env.new_id none
        commit
        pure comment)
      (do rollback; raise (http_exception 409 duplicate))

-- `WHERE id = … AND nano_id = …`
abbrev pub comment_of : ℕ → ℕ → NanoComment → Bool
comment_of i nano c = (c.id == i) && (c.nano_id == nano)

-- `_can_manage_comment`
abbrev pub can_manage_comment : NanoComment → TokenData → Bool
can_manage_comment c user = (c.user_id == user.user_id) || is_moderator_or_admin user.role

-- New content goes back into review.
abbrev pub rewrite : Text → NanoComment → NanoComment
rewrite content c = record c {
  content = content;
  moderation_status = FeedbackModerationStatus.pending;
  moderated_at = none;
  moderated_by_user_id = none;
  moderation_reason = none;
}

unfoldable pub update_nano_comment : Env → ℕ → ℕ → Text → TokenData → Action NanoComment
unfolding get_nano_or_404 validate_published_for_comments
update_nano_comment env nano_id comment_id content user = do
  nano ← get_nano_or_404 nano_id
  validate_published_for_comments nano
  found ← gets (λ db. find (comment_of comment_id nano_id) db.comments)
  comment ← or_raise found (http_exception 404 not_found)
  raise_if (not (can_manage_comment comment user)) (http_exception 403 forbidden)
  let sanitized = sanitize_comment_content content
  validate_sanitized_comment_content sanitized
  raise_if (not (content_in_range sanitized)) integrity_error
  modify_db (λ db. record db {
    comments = modify (comment_of comment_id nano_id) (rewrite sanitized) db.comments;
  })
  upsert_moderation_case env ModerationContentType.nano_comment comment.id none
  commit
  pure (rewrite sanitized comment)

-- `_apply_feedback_moderation` at a comment
abbrev pub moderate_comment_row :
    Env → FeedbackModerationRequest → TokenData → NanoComment → NanoComment
moderate_comment_row env moderation moderator c = record c {
  moderation_status = to_status moderation.status;
  moderated_at = some env.now;
  moderated_by_user_id = some moderator.user_id;
  moderation_reason = moderation.reason;
}

unfoldable pub moderate_nano_comment :
    Env → ℕ → ℕ → FeedbackModerationRequest → TokenData → Action (Unit {0})
unfolding get_nano_or_404 validate_published_for_comments
moderate_nano_comment env nano_id comment_id moderation user = do
  nano ← get_nano_or_404 nano_id
  validate_published_for_comments nano
  found ← gets (λ db. find (comment_of comment_id nano_id) db.comments)
  comment ← or_raise found (http_exception 404 not_found)
  modify_db (λ db. record db {
    comments =
        modify (comment_of comment_id nano_id) (moderate_comment_row env moderation user)
          db.comments;
  })
  log_action env (record {
    user_id = user.user_id;
    action = AuditAction.data_modified;
    resource_type = ResourceType.nano_comment;
    resource_id = comment.id;
    event_data =
        feedback_moderated comment.moderation_status (to_status moderation.status) moderation.reason
          nano_id none;
  })
  commit
