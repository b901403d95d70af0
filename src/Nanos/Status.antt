-- ===== src/Nanos/Status.antt =====
-- The publishing workflow: `update_nano_status` with `_validate_status_transition`,
-- `admin_takedown_nano` and `delete_nano`.
use di_wei_wei_nano_market.Prelude.{
  ℕ, ◌-◌, Bool, true, false, not, Option, none, some, ◌==◌, ◌&&◌, ◌||◌, ltb, if◌then◌else◌, modify,
}
use di_wei_wei_nano_market.Models.{
  Nano, NanoStatus, draft, pending_review, published, archived, deleted, TokenData, Text, AuditLog,
  AuditAction, ResourceType, ModerationContentType, status_changed, taken_down, nano_at,
  is_published, is_draft, is_pending_review, is_archived, same_status, is_moderator_or_admin,
}
use di_wei_wei_nano_market.Session.{
  Env, Action, http_exception, forbidden, invalid_transition, missing_published_at,
  unpublish_window_over, not_deletable, ◌>>=◌, ◌>>◌, pure, raise, modify_db, raise_if, commit,
  log_action, invalidate_search_cache,
}
use di_wei_wei_nano_market.Publishing.{validate_metadata_completeness, or_now}
use di_wei_wei_nano_market.Moderation.Cases.{upsert_moderation_case}
use di_wei_wei_nano_market.Nanos.Access.{get_nano_or_404}

-- `allowed_transitions`
abbrev pub is_allowed : NanoStatus → NanoStatus → Bool
is_allowed draft draft = false
is_allowed draft _ = true
is_allowed pending_review draft = true
is_allowed pending_review published = true
is_allowed pending_review archived = true
is_allowed pending_review _ = false
is_allowed published archived = true
is_allowed published draft = true
is_allowed published _ = false
is_allowed archived deleted = true
is_allowed archived _ = false
is_allowed deleted _ = false

-- 24 hours in microseconds
abbrev pub unpublish_window : ℕ
unpublish_window = 86400000000

abbrev within_window : Env → Option ℕ → Action (Unit {0})
within_window env none = raise (http_exception 400 missing_published_at)
within_window env (some at) =
    raise_if (ltb unpublish_window (env.now - at)) (http_exception 400 unpublish_window_over)

-- The special rule: published → draft.
abbrev check_window : Env → Nano → NanoStatus → NanoStatus → Action (Unit {0})
check_window env nano published draft = within_window env nano.published_at
check_window env nano _ _ = pure tt

unfoldable pub validate_status_transition : Env → Nano → NanoStatus → NanoStatus → Action (Unit {0})
validate_status_transition env nano old new = do
  raise_if (not (is_allowed old new)) (http_exception 400 invalid_transition)
  check_window env nano old new

pub record StatusUpdateRequest : Type 0 where
  pub status : NanoStatus
  pub reason : Option Text

-- The status and the timestamps after a transition.
abbrev pub move_to : Env → NanoStatus → Nano → Nano
move_to env new n = record n {
  status = new;
  published_at = if is_published new then or_now n.published_at env.now else n.published_at;
  archived_at = if is_archived new then or_now n.archived_at env.now else n.archived_at;
}

abbrev pub status_entry : ℕ → NanoStatus → NanoStatus → Option Text → TokenData → AuditLog
status_entry nano_id old new reason user = record {
  user_id = user.user_id;
  action = AuditAction.data_modified;
  resource_type = ResourceType.nano;
  resource_id = nano_id;
  event_data = status_changed old new reason;
}

abbrev check_completeness : NanoStatus → Nano → Action (Unit {0})
check_completeness published nano = validate_metadata_completeness nano
check_completeness _ nano = pure tt

-- A moderation case is opened when the Nano enters the review queue.
abbrev enter_review : Env → NanoStatus → Nano → Action (Unit {0})
enter_review env pending_review nano =
    upsert_moderation_case env ModerationContentType.nano nano.id none
enter_review env _ nano = pure tt

unfoldable pub transition :
    Env → ℕ → Nano → StatusUpdateRequest → TokenData → Action (Nano × NanoStatus × NanoStatus)
unfolding validate_status_transition
transition env nano_id nano q user = do
  validate_status_transition env nano nano.status q.status
  check_completeness q.status nano
  modify_db (λ db. record db { nanos = modify (nano_at nano_id) (move_to env q.status) db.nanos })
  enter_review env q.status nano
  commit
  log_action env (status_entry nano_id nano.status q.status q.reason user)
  commit
  invalidate_search_cache
  pure (move_to env q.status nano, nano.status, q.status)

-- The checks of the roles, in the order of the code.
unfoldable pub authorize_update : Nano → NanoStatus → TokenData → Action (Unit {0})
authorize_update nano new user = do
  let is_creator = nano.creator_id == user.user_id
  let is_moderator = is_moderator_or_admin user.role
  raise_if (not is_creator && not is_moderator) (http_exception 403 forbidden)
  raise_if (not is_creator && (is_moderator && not (is_pending_review nano.status)))
      (http_exception 403 forbidden)
  raise_if (not is_creator && (is_moderator && not (is_published new || is_draft new)))
      (http_exception 403 forbidden)
  raise_if (is_creator && (not is_moderator && is_published new)) (http_exception 403 forbidden)

change_status :
    Bool
    → Env
    → ℕ
    → Nano
    → StatusUpdateRequest
    → TokenData
    → Action (Nano × NanoStatus × NanoStatus)
unfolding transition
change_status true env nano_id nano q user = pure (nano, nano.status, q.status)
change_status false env nano_id nano q user = transition env nano_id nano q user

unfoldable pub update_nano_status :
    Env → ℕ → StatusUpdateRequest → TokenData → Action (Nano × NanoStatus × NanoStatus)
unfolding get_nano_or_404 authorize_update change_status
update_nano_status env nano_id q user = do
  nano ← get_nano_or_404 nano_id
  authorize_update nano q.status user
  change_status (same_status nano.status q.status) env nano_id nano q user

pub record AdminTakedownRequest : Type 0 where
  pub reason : Text
  pub note : Option Text

pub record AdminTakedownResponse : Type 0 where
  pub nano_id : ℕ
  pub old_status : NanoStatus
  pub new_status : NanoStatus
  pub already_removed : Bool
  pub taken_down_at : ℕ

abbrev pub or_default : Option ℕ → ℕ → ℕ
or_default none d = d
or_default (some t) d = t

-- The Nano after a takedown.
abbrev pub take_down : Env → Nano → Nano
take_down env n = record n {
  status = if is_published n.status then archived else n.status;
  archived_at = or_now n.archived_at env.now;
}

-- The moment that is reported: now, or when an earlier removal happened.
abbrev pub taken_down_at_of : Env → Nano → ℕ
taken_down_at_of env n = if is_published n.status then env.now else or_default n.archived_at env.now

unfoldable pub admin_takedown_nano :
    Env → ℕ → AdminTakedownRequest → TokenData → Action AdminTakedownResponse
unfolding get_nano_or_404
admin_takedown_nano env nano_id q user = do
  nano ← get_nano_or_404 nano_id
  let after = take_down env nano
  modify_db (λ db. record db { nanos = modify (nano_at nano_id) (take_down env) db.nanos })
  log_action env (record {
    user_id = user.user_id;
    action = AuditAction.data_modified;
    resource_type = ResourceType.nano;
    resource_id = nano_id;
    event_data = taken_down q.reason q.note (taken_down_at_of env nano) nano.status after.status;
  })
  commit
  invalidate_search_cache
  pure (record {
    nano_id = nano.id;
    old_status = nano.status;
    new_status = after.status;
    already_removed = not (is_published nano.status);
    taken_down_at = taken_down_at_of env nano;
  })

abbrev pub is_deletable : NanoStatus → Bool
is_deletable s = is_draft s || is_archived s

abbrev pub mark_deleted : Nano → Nano
mark_deleted n = record n { status = deleted }

unfoldable pub delete_nano : Env → ℕ → ℕ → Action (Unit {0})
unfolding get_nano_or_404
delete_nano env nano_id creator_id = do
  nano ← get_nano_or_404 nano_id
  raise_if (not (nano.creator_id == creator_id)) (http_exception 403 forbidden)
  raise_if (not (is_deletable nano.status)) (http_exception 400 not_deletable)
  modify_db (λ db. record db { nanos = modify (nano_at nano_id) mark_deleted db.nanos })
  commit
  invalidate_search_cache
  log_action env (record {
    user_id = creator_id;
    action = AuditAction.data_deleted;
    resource_type = ResourceType.nano;
    resource_id = nano_id;
    event_data = status_changed nano.status deleted none;
  })
  commit
