-- ===== src/Models/Enums.antt =====
-- The enums of app/models/__init__.py with the equality tests that the services make.
use di_wei_wei_nano_market.Prelude.{Bool, true, false}

pub data UserRole : Type 0 where
  admin creator consumer moderator : UserRole

pub data UserStatus : Type 0 where
  active inactive suspended deleted : UserStatus

pub data ConsentType : Type 0 where
  terms_of_service privacy_policy marketing data_processing : ConsentType

pub data NanoStatus : Type 0 where
  draft pending_review published archived deleted : NanoStatus

pub data NanoFormat : Type 0 where
  video text quiz interactive mixed : NanoFormat

pub data CompetencyLevel : Type 0 where
  basic intermediate advanced : CompetencyLevel

pub data LicenseType : Type 0 where
  cc_by cc_by_sa cc0 proprietary : LicenseType

pub data FeedbackModerationStatus : Type 0 where
  pending approved hidden : FeedbackModerationStatus

pub data ModerationCaseStatus : Type 0 where
  pending approved rejected deferred escalated : ModerationCaseStatus

pub data ModerationContentType : Type 0 where
  nano nano_rating nano_comment flag : ModerationContentType

pub data FlagReason : Type 0 where
  spam copyright offensive misinformation other : FlagReason

pub data FlagStatus : Type 0 where
  pending reviewed resolved closed : FlagStatus

-- The members of `AuditAction` that the modelled services write.
pub data AuditAction : Type 0 where
  data_modified data_deleted flag_created : AuditAction
  moderation_approved moderation_rejected moderation_deferred moderation_escalated : AuditAction

-- `nano.status == NanoStatus.PUBLISHED`
abbrev pub is_published : NanoStatus → Bool
is_published published = true
is_published _ = false

abbrev pub is_draft : NanoStatus → Bool
is_draft draft = true
is_draft _ = false

abbrev pub is_pending_review : NanoStatus → Bool
is_pending_review pending_review = true
is_pending_review _ = false

abbrev pub is_archived : NanoStatus → Bool
is_archived archived = true
is_archived _ = false

abbrev pub is_deleted : NanoStatus → Bool
is_deleted deleted = true
is_deleted _ = false

-- `old_status == new_status`
abbrev pub same_status : NanoStatus → NanoStatus → Bool
same_status draft t = is_draft t
same_status pending_review t = is_pending_review t
same_status published t = is_published t
same_status archived t = is_archived t
same_status deleted t = is_deleted t

-- `model.moderation_status == FeedbackModerationStatus.APPROVED`
abbrev pub is_approved : FeedbackModerationStatus → Bool
is_approved FeedbackModerationStatus.approved = true
is_approved _ = false

abbrev pub is_pending : FeedbackModerationStatus → Bool
is_pending FeedbackModerationStatus.pending = true
is_pending _ = false

abbrev pub same_case_status : ModerationCaseStatus → ModerationCaseStatus → Bool
same_case_status ModerationCaseStatus.pending ModerationCaseStatus.pending = true
same_case_status ModerationCaseStatus.approved ModerationCaseStatus.approved = true
same_case_status ModerationCaseStatus.rejected ModerationCaseStatus.rejected = true
same_case_status ModerationCaseStatus.deferred ModerationCaseStatus.deferred = true
same_case_status ModerationCaseStatus.escalated ModerationCaseStatus.escalated = true
same_case_status _ _ = false

abbrev pub same_content_type : ModerationContentType → ModerationContentType → Bool
same_content_type ModerationContentType.nano ModerationContentType.nano = true
same_content_type ModerationContentType.nano_rating ModerationContentType.nano_rating = true
same_content_type ModerationContentType.nano_comment ModerationContentType.nano_comment = true
same_content_type ModerationContentType.flag ModerationContentType.flag = true
same_content_type _ _ = false

-- `role in {UserRole.ADMIN.value, UserRole.MODERATOR.value}`
abbrev pub is_moderator_or_admin : UserRole → Bool
is_moderator_or_admin admin = true
is_moderator_or_admin moderator = true
is_moderator_or_admin _ = false
