-- ===== src/Tests/Data.antt =====
-- Users, requests and databases for the tests.
use di_wei_wei_nano_market.Prelude.{ℕ, ◌+◌, true, none, some, [], ◌∷◌}
use di_wei_wei_nano_market.Models.{
  Db, Nano, NanoRating, NanoComment, NanoFlag, ModerationCase, ModerationCaseStatus,
  ModerationContentType, NanoFormat, NanoStatus, CompetencyLevel, LicenseType, UserRole,
  FeedbackModerationStatus, FlagReason, FlagStatus, TokenData, Text, draft, deleted, published,
}
use di_wei_wei_nano_market.Session.{Env}
use di_wei_wei_nano_market.Moderation.Content.{Decision, ModerationReviewRequest, valid}

abbrev pub env : Env
env = record {
  now = 5000;
  new_id = 100;
  new_case_id = 200;
  bulk_ids = λ i. i + 300;
  audit_ok = true;
}

abbrev pub author : TokenData
author = record { user_id = 1; role = UserRole.creator }

abbrev pub moderator : TokenData
moderator = record { user_id = 2; role = UserRole.moderator }

abbrev pub reader : TokenData
reader = record { user_id = 3; role = UserRole.consumer }

-- "Hi"
abbrev pub hello : Text
hello = 72 ∷ 105 ∷ []

abbrev pub nano_with : ℕ → NanoStatus → Nano
nano_with i s = record {
  id = i;
  creator_id = 1;
  title = hello;
  description = some hello;
  duration_minutes = some 15;
  competency_level = CompetencyLevel.basic;
  language = hello;
  format = NanoFormat.text;
  status = s;
  version = hello;
  thumbnail_url = none;
  file_storage_path = none;
  license = LicenseType.cc_by;
  published_at = some 1000;
  archived_at = none;
  download_count = 0;
  average_rating = 0;
  rating_count = 0;
}

abbrev pub case_with : ℕ → ModerationContentType → ℕ → ModerationCase
case_with i t content = record {
  id = i;
  content_type = t;
  content_id = content;
  reporter_id = none;
  status = ModerationCaseStatus.pending;
  reason = none;
  decided_by_user_id = none;
  decided_at = none;
  deferred_until = none;
  escalation_note = none;
  created_at = 0;
}

-- The rating that the reader left on Nano 11; its score does not count yet.
abbrev pub rating : NanoRating
rating = record {
  id = 20;
  nano_id = 11;
  user_id = 3;
  score = 4;
  moderation_status = FeedbackModerationStatus.pending;
  moderated_at = none;
  moderated_by_user_id = none;
  moderation_reason = none;
}

abbrev pub comment : NanoComment
comment = record {
  id = 21;
  nano_id = 11;
  user_id = 3;
  content = hello;
  moderation_status = FeedbackModerationStatus.hidden;
  moderated_at = some 2000;
  moderated_by_user_id = some 2;
  moderation_reason = some hello;
}

abbrev pub flag : NanoFlag
flag = record {
  id = 22;
  nano_id = 11;
  flagging_user_id = 3;
  reason = FlagReason.spam;
  comment = none;
  status = FlagStatus.pending;
  reviewed_at = none;
  moderator_id = none;
}

-- A draft (10), a published Nano (11) and a deleted one (12) with a case that is still pending.
abbrev pub market : Db
market = record {
  nanos = nano_with 10 draft ∷ nano_with 11 published ∷ nano_with 12 deleted ∷ [];
  ratings = rating ∷ [];
  comments = comment ∷ [];
  flags = flag ∷ [];
  cases =
      case_with 30 ModerationContentType.nano 12
      ∷ case_with 31 ModerationContentType.nano_rating 20
      ∷ [];
  categories = [];
  assignments = [];
  audit_logs = [];
  chat_sessions = [];
  chat_messages = [];
  users = [];
  consent_audits = [];
  search_invalidations = 0;
}

abbrev pub review_of : Decision → ModerationReviewRequest
review_of d = record { decision = valid d; reason = some hello; deferred_until = none }
