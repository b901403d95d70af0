-- ===== src/Models/Tables.antt =====
-- The rows of the tables of app/models/__init__.py. UUIDs are numbers, texts are lists of code
-- points, instants are microseconds, an average rating is in hundredths (Numeric(3, 2)). The
-- columns that only the database writes (updated_at, uploaded_at) are left out.
use di_wei_wei_nano_market.Prelude.{ℕ, Bool, Option, List}
use di_wei_wei_nano_market.Models.Enums.{
  NanoStatus, NanoFormat, CompetencyLevel, LicenseType, FeedbackModerationStatus,
  ModerationCaseStatus, ModerationContentType, FlagReason, FlagStatus, AuditAction, UserRole,
  UserStatus, ConsentType,
}

abbrev pub Text : Type 0
Text = List ℕ

pub record Nano : Type 0 where
  pub id : ℕ
  pub creator_id : ℕ
  pub title : Text
  pub description : Option Text
  pub duration_minutes : Option ℕ
  pub competency_level : CompetencyLevel
  pub language : Text
  pub format : NanoFormat
  pub status : NanoStatus
  pub version : Text
  pub thumbnail_url : Option Text
  pub file_storage_path : Option Text
  pub license : LicenseType
  pub published_at : Option ℕ
  pub archived_at : Option ℕ
  pub download_count : ℕ
  pub average_rating : ℕ
  pub rating_count : ℕ

pub record NanoRating : Type 0 where
  pub id : ℕ
  pub nano_id : ℕ
  pub user_id : ℕ
  pub score : ℕ
  pub moderation_status : FeedbackModerationStatus
  pub moderated_at : Option ℕ
  pub moderated_by_user_id : Option ℕ
  pub moderation_reason : Option Text

pub record NanoComment : Type 0 where
  pub id : ℕ
  pub nano_id : ℕ
  pub user_id : ℕ
  pub content : Text
  pub moderation_status : FeedbackModerationStatus
  pub moderated_at : Option ℕ
  pub moderated_by_user_id : Option ℕ
  pub moderation_reason : Option Text

pub record NanoFlag : Type 0 where
  pub id : ℕ
  pub nano_id : ℕ
  pub flagging_user_id : ℕ
  pub reason : FlagReason
  pub comment : Option Text
  pub status : FlagStatus
  pub reviewed_at : Option ℕ
  pub moderator_id : Option ℕ

pub record ModerationCase : Type 0 where
  pub id : ℕ
  pub content_type : ModerationContentType
  pub content_id : ℕ
  pub reporter_id : Option ℕ
  pub status : ModerationCaseStatus
  pub reason : Option Text
  pub decided_by_user_id : Option ℕ
  pub decided_at : Option ℕ
  pub deferred_until : Option ℕ
  pub escalation_note : Option Text
  pub created_at : ℕ

pub record NanoCategoryAssignment : Type 0 where
  pub nano_id : ℕ
  pub category_id : ℕ
  pub rank : ℕ

pub record ChatSession : Type 0 where
  pub id : ℕ
  pub nano_id : ℕ
  pub creator_id : ℕ
  pub participant_user_id : ℕ
  pub created_at : ℕ
  pub updated_at : ℕ
  pub last_message_at : Option ℕ

pub record ChatMessage : Type 0 where
  pub id : ℕ
  pub session_id : ℕ
  pub sender_id : ℕ
  pub content : Text
  pub created_at : ℕ

pub record User : Type 0 where
  pub id : ℕ
  pub email : Text
  pub username : Text
  pub password_hash : Text
  pub first_name : Option Text
  pub last_name : Option Text
  pub bio : Option Text
  pub company : Option Text
  pub job_title : Option Text
  pub phone : Option Text
  pub profile_avatar : Option Text
  pub preferred_language : Text
  pub status : UserStatus
  pub role : UserRole
  pub email_verified : Bool
  pub verified_at : Option ℕ
  pub login_attempts : ℕ
  pub locked_until : Option ℕ
  pub last_login : Option ℕ
  pub accepted_terms : Option ℕ
  pub accepted_privacy : Option ℕ
  pub deletion_requested_at : Option ℕ
  pub deletion_scheduled_at : Option ℕ
  pub deletion_reason : Option Text

pub record ConsentAudit : Type 0 where
  pub user_id : ℕ
  pub consent_type : ConsentType
  pub accepted : Bool
  pub timestamp : ℕ

-- The `metadata` of an audit entry, one constructor for each shape that a service writes.
pub data EventData : Type 0 where
  status_changed : NanoStatus → NanoStatus → Option Text → EventData
  taken_down : Text → Option Text → ℕ → NanoStatus → NanoStatus → EventData
  feedback_moderated :
      FeedbackModerationStatus → FeedbackModerationStatus → Option Text → ℕ → Option ℕ → EventData
  case_decided : ℕ → ModerationCaseStatus → Option Text → Option ℕ → EventData
  flag_opened : ℕ → FlagReason → EventData

pub data ResourceType : Type 0 where
  nano nano_rating nano_comment flag nano_flag : ResourceType

pub record AuditLog : Type 0 where
  pub user_id : ℕ
  pub action : AuditAction
  pub resource_type : ResourceType
  pub resource_id : ℕ
  pub event_data : EventData

-- app/modules/auth/tokens.py; the role is read as a `UserRole`, and the other claims are not used
-- by the services.
pub record TokenData : Type 0 where
  pub user_id : ℕ
  pub role : UserRole
