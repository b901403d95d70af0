-- ===== src/Models/Database.antt =====
-- The database: one list of rows for each table that the modelled services touch, and how often
-- they had the search cache invalidated.
use di_wei_wei_nano_market.Prelude.{ℕ, Bool, List, ◌==◌, ◌&&◌}
use di_wei_wei_nano_market.Models.Enums.{ModerationContentType, same_content_type}
use di_wei_wei_nano_market.Models.Tables.{
  Nano, NanoRating, NanoComment, NanoFlag, ModerationCase, NanoCategoryAssignment, AuditLog,
  ChatSession, ChatMessage, User, ConsentAudit,
}

pub record Db : Type 0 where
  pub nanos : List Nano
  pub ratings : List NanoRating
  pub comments : List NanoComment
  pub flags : List NanoFlag
  pub cases : List ModerationCase
  pub categories : List ℕ
  pub assignments : List NanoCategoryAssignment
  pub audit_logs : List AuditLog
  pub chat_sessions : List ChatSession
  pub chat_messages : List ChatMessage
  pub users : List User
  pub consent_audits : List ConsentAudit
  pub search_invalidations : ℕ

-- The `WHERE` clauses by key.
abbrev pub nano_at : ℕ → Nano → Bool
nano_at i n = n.id == i

abbrev pub rating_by : ℕ → ℕ → NanoRating → Bool
rating_by nano user r = (r.nano_id == nano) && (r.user_id == user)

abbrev pub comment_by : ℕ → ℕ → NanoComment → Bool
comment_by nano user c = (c.nano_id == nano) && (c.user_id == user)

abbrev pub flag_by : ℕ → ℕ → NanoFlag → Bool
flag_by nano user f = (f.nano_id == nano) && (f.flagging_user_id == user)

abbrev pub case_of : ModerationContentType → ℕ → ModerationCase → Bool
case_of t i c = same_content_type c.content_type t && (c.content_id == i)
