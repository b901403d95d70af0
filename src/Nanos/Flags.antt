-- ===== src/Nanos/Flags.antt =====
-- Flags on a Nano: `create_nano_flag` and `get_my_nano_flag`.
use di_wei_wei_nano_market.Prelude.{
  ℕ, Bool, true, not, leb, length, none, some, Option, ◌∷◌, ◌||◌, ◌==◌, find, any,
}
use di_wei_wei_nano_market.Models.{
  NanoFlag, TokenData, FlagReason, FlagStatus, ModerationContentType, AuditAction, Text,
  ResourceType, flag_opened, flag_by, is_published,
}
use di_wei_wei_nano_market.Session.{
  Env, Action, http_exception, not_published, own_content, duplicate, not_found, integrity_error,
  sqlalchemy_error, ◌>>=◌, ◌>>◌, pure, raise, gets, modify_db, raise_if, or_raise, commit, rollback,
  catch_integrity, try_log_action,
}
use di_wei_wei_nano_market.Moderation.Cases.{upsert_moderation_case}
use di_wei_wei_nano_market.Nanos.Access.{get_nano_or_404}
use di_wei_wei_nano_market.Nanos.Sanitize.{
  sanitize_comment_content, validate_sanitized_comment_content,
}

pub record NanoFlagCreateRequest : Type 0 where
  pub reason : FlagReason
  pub comment : Option Text

-- The constraints of `nano_flags`.
abbrev pub flag_conflicts : NanoFlag → NanoFlag → Bool
flag_conflicts f x = (x.id == f.id) || flag_by f.nano_id f.flagging_user_id x

-- The column of the comment has 500 characters; PostgreSQL refuses a longer one.
abbrev pub flag_comment_fits : Option Text → Bool
flag_comment_fits none = true
flag_comment_fits (some t) = leb (length t) 500

abbrev pub insert_flag : NanoFlag → Action (Unit {0})
insert_flag f = do
  raise_if (not (flag_comment_fits f.comment)) sqlalchemy_error
  raise_if (← gets (λ db. any (flag_conflicts f) db.flags)) integrity_error
  modify_db (λ db. record db { flags = f ∷ db.flags })

abbrev pub sanitized_comment : Option Text → Option Text
sanitized_comment none = none
sanitized_comment (some t) = some (sanitize_comment_content t)

abbrev validate_optional : Option Text → Action (Unit {0})
validate_optional none = pure tt
validate_optional (some t) = validate_sanitized_comment_content t

abbrev pub new_flag : Env → ℕ → TokenData → NanoFlagCreateRequest → NanoFlag
new_flag env nano user q = record {
  id = env.new_id;
  nano_id = nano;
  flagging_user_id = user.user_id;
  reason = q.reason;
  comment = sanitized_comment q.comment;
  status = FlagStatus.pending;
  reviewed_at = none;
  moderator_id = none;
}

unfoldable pub create_nano_flag : Env → ℕ → NanoFlagCreateRequest → TokenData → Action NanoFlag
unfolding get_nano_or_404
create_nano_flag env nano_id q user = do
  nano ← get_nano_or_404 nano_id
  raise_if (not (is_published nano.status)) (http_exception 400 not_published)
  raise_if (nano.creator_id == user.user_id) (http_exception 403 own_content)
  validate_optional (sanitized_comment q.comment)
  let flag = new_flag env nano_id user q
  catch_integrity
      (do
        insert_flag flag
        upsert_moderation_case env ModerationContentType.flag env.new_id (some user.user_id)
        try_log_action env (record {
          user_id = user.user_id;
          action = AuditAction.flag_created;
          resource_type = ResourceType.nano_flag;
          resource_id = env.new_id;
          event_data = flag_opened nano_id q.reason;
        })
        commit
        pure flag)
      (do rollback; raise (http_exception 409 duplicate))

unfoldable pub get_my_nano_flag : ℕ → TokenData → Action NanoFlag
unfolding get_nano_or_404
get_my_nano_flag nano_id user = do
  nano ← get_nano_or_404 nano_id
  found ← gets (λ db. find (flag_by nano_id user.user_id) db.flags)
  or_raise found (http_exception 404 not_found)
