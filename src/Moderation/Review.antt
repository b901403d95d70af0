-- ===== src/Moderation/Review.antt =====
-- `review_moderation_case`: a moderator decides on a case and on its content in one transaction.
use di_wei_wei_nano_market.Prelude.{ℕ, Bool, true, false, Option, none, some, ◌==◌, find, modify}
use di_wei_wei_nano_market.Models.{
  ModerationCase, ModerationCaseStatus, ModerationContentType, AuditAction, ResourceType, Text,
  TokenData, AuditLog, case_decided,
}
use di_wei_wei_nano_market.Session.{
  Env, Action, http_exception, not_found, invalid_decision, ◌>>=◌, ◌>>◌, pure, raise, gets,
  or_raise, modify_db, commit, try_log_action, invalidate_search_cache,
}
use di_wei_wei_nano_market.Moderation.Content.{
  Decision, approve, reject, defer, escalate, DecisionText, valid, other, ModerationReviewRequest,
  apply_decision_to_content,
}

-- `_DECISION_TO_CASE_STATUS`
abbrev pub case_status_of : Decision → ModerationCaseStatus
case_status_of approve = ModerationCaseStatus.approved
case_status_of reject = ModerationCaseStatus.rejected
case_status_of defer = ModerationCaseStatus.deferred
case_status_of escalate = ModerationCaseStatus.escalated

-- `_DECISION_TO_AUDIT_ACTION`
abbrev pub audit_action_of : Decision → AuditAction
audit_action_of approve = AuditAction.moderation_approved
audit_action_of reject = AuditAction.moderation_rejected
audit_action_of defer = AuditAction.moderation_deferred
audit_action_of escalate = AuditAction.moderation_escalated

abbrev pub escalation_note_of : Decision → Option Text → Option Text
escalation_note_of escalate reason = reason
escalation_note_of _ reason = none

abbrev pub deferred_until_of : Decision → Option ℕ → Option ℕ
deferred_until_of defer until = until
deferred_until_of _ until = none

abbrev pub resource_type_of : ModerationContentType → ResourceType
resource_type_of ModerationContentType.nano = ResourceType.nano
resource_type_of ModerationContentType.nano_rating = ResourceType.nano_rating
resource_type_of ModerationContentType.nano_comment = ResourceType.nano_comment
resource_type_of ModerationContentType.flag = ResourceType.flag

abbrev pub case_at : ℕ → ModerationCase → Bool
case_at i c = c.id == i

-- The case fields after a decision.
abbrev pub decide_case :
    Env → Decision → ModerationReviewRequest → TokenData → ModerationCase → ModerationCase
decide_case env d q user c = record c {
  status = case_status_of d;
  reason = q.reason;
  decided_by_user_id = some user.user_id;
  decided_at = some env.now;
  escalation_note = escalation_note_of d q.reason;
  deferred_until = deferred_until_of d q.deferred_until;
}

abbrev pub decision_entry :
    Env → ℕ → Decision → ModerationReviewRequest → TokenData → ModerationCase → AuditLog
decision_entry env case_id d q user c = record {
  user_id = user.user_id;
  action = audit_action_of d;
  resource_type = resource_type_of c.content_type;
  resource_id = c.content_id;
  event_data = case_decided case_id (case_status_of d) q.reason q.deferred_until;
}

abbrev invalidate_if : Bool → Action (Unit {0})
invalidate_if true = invalidate_search_cache
invalidate_if false = pure tt

decide : Env → ℕ → Decision → ModerationReviewRequest → TokenData → Action ModerationCase
decide env case_id d q user = do
  found ← gets (λ db. find (case_at case_id) db.cases)
  case ← or_raise found (http_exception 404 not_found)
  modify_db
      (λ db. record db { cases = modify (case_at case_id) (decide_case env d q user) db.cases })
  nano_visibility_changed ← apply_decision_to_content env case user d q.reason
  try_log_action env (decision_entry env case_id d q user case)
  commit
  invalidate_if nano_visibility_changed
  pure (decide_case env d q user case)

review_as : Env → ℕ → DecisionText → ModerationReviewRequest → TokenData → Action ModerationCase
unfolding decide
review_as env case_id (valid d) q user = decide env case_id d q user
review_as env case_id (other t) q user = raise (http_exception 422 invalid_decision)

unfoldable pub review_moderation_case :
    Env → ℕ → ModerationReviewRequest → TokenData → Action ModerationCase
unfolding review_as
review_moderation_case env case_id q user = review_as env case_id q.decision q user
