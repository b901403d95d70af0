-- ===== src/Chat/Posting.antt =====
-- `create_message` (app/modules/chat/router.py): the rate limit, the content filter, and the message.
-- `key` is the limiter's key of a user and a chat, `filter` what the filter
-- makes of a content.
use di_wei_wei_nano_market.Prelude.{ℕ, ◌+◌}
use di_wei_wei_nano_market.Models.{Db, ChatMessage, TokenData, Text}
use di_wei_wei_nano_market.Session.{
  Env, Result, err, http_exception, rate_limited, message_blocked, request,
}
use di_wei_wei_nano_market.RateLimit.{Limiter, Verdict, admitted, rejected, index_error, check}
use di_wei_wei_nano_market.Chat.Messages.{send_message}
use di_wei_wei_nano_market.Chat.ContentFilter.{FilterResult, allowed, blocked, value_error}

-- `settings.RATE_LIMIT_CHAT_MESSAGE_…`
abbrev pub chat_message_limit : ℕ
chat_message_limit = 10 + 3

abbrev pub chat_message_window_seconds : ℕ
chat_message_window_seconds = 60

-- A request, with the reading of the limiter's monotonic clock.
pub record Post : Type 0 where
  pub env : Env
  pub tick : ℕ
  pub session_id : ℕ
  pub content : Text
  pub user : TokenData

module _ (key : ℕ → ℕ → ℕ) (filter : Text → FilterResult) where
  abbrev pub key_of : Post → ℕ
  key_of p = key p.user.user_id p.session_id

  -- `_enforce_chat_content_filter`, and `send_message`. A `ValueError` of the filter is a 500.
  abbrev pub filtered : Post → FilterResult → Db → Result ChatMessage × Db
  filtered p (blocked reason) db = (err (http_exception 400 message_blocked), db)
  filtered p value_error db = (err (http_exception 500 message_blocked), db)
  filtered p allowed db = request (send_message p.env p.session_id p.content p.user) db

  -- `_enforce_chat_message_rate_limit` first. An `IndexError` would be a 500.
  abbrev pub limited : Post → Verdict → Db → Result ChatMessage × Db
  limited p admitted db = filtered p (filter p.content) db
  limited p (rejected _) db = (err (http_exception 429 rate_limited), db)
  limited p index_error db = (err (http_exception 500 rate_limited), db)

  unfoldable pub create_message : Post → Limiter → Db → (Result ChatMessage × Db) × Limiter
  create_message p l db =
      let (verdict, l') = check l (key_of p) p.tick in (limited p verdict db, l')
