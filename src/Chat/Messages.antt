-- ===== src/Chat/Messages.antt =====
-- Chat messages: `send_message` and `list_messages` (app/modules/chat/service.py).
use di_wei_wei_nano_market.Prelude.{
  ℕ, Bool, true, not, Option, none, some, List, ◌∷◌, ◌==◌, ◌&&◌, ◌||◌, leb, ltb, find, select,
  modify, any, length,
}
use di_wei_wei_nano_market.Prelude.Pages.{sort_by}
use di_wei_wei_nano_market.Models.{Db, ChatSession, ChatMessage, TokenData, Text}
use di_wei_wei_nano_market.Session.{
  Env, Action, http_exception, integrity_error, not_found, not_participant, message_refused, ◌>>=◌,
  ◌>>◌, pure, raise, gets, modify_db, raise_if, or_raise, commit, rollback, catch_integrity,
}
use di_wei_wei_nano_market.Listing.{Listing, listing}
use di_wei_wei_nano_market.Chat.Sessions.{takes_part, is_given}

abbrev pub chat_at : ℕ → ChatSession → Bool
chat_at i s = s.id == i

-- `_get_session_or_403`
unfoldable pub get_session_or_403 : ℕ → ℕ → Action ChatSession
get_session_or_403 session_id user_id = do
  found ← gets (λ db. find (chat_at session_id) db.chat_sessions)
  session ← or_raise found (http_exception 404 not_found)
  raise_if (not (takes_part user_id session)) (http_exception 403 not_participant)
  pure session

-- The constraints of `chat_messages`.
abbrev pub message_in_range : Text → Bool
message_in_range t = leb 1 (length t) && leb (length t) 1000

abbrev pub message_at : ℕ → ChatMessage → Bool
message_at i m = m.id == i

abbrev pub insert_message : ChatMessage → Action (Unit {0})
insert_message m = do
  raise_if (← gets (λ db. any (message_at m.id) db.chat_messages)) integrity_error
  raise_if (not (message_in_range m.content)) integrity_error
  modify_db (λ db. record db { chat_messages = m ∷ db.chat_messages })

abbrev pub new_message : Env → ℕ → ℕ → Text → ChatMessage
new_message env session_id sender_id content = record {
  id = env.new_id;
  session_id = session_id;
  sender_id = sender_id;
  content = content;
  created_at = env.now;
}

-- `last_message_at`, and `updated_at` by its `onupdate`
abbrev pub touch_chat : Env → ChatSession → ChatSession
touch_chat env s = record s { last_message_at = some env.now; updated_at = env.now }

unfoldable pub send_message : Env → ℕ → Text → TokenData → Action ChatMessage
unfolding get_session_or_403
send_message env session_id content user = do
  session ← get_session_or_403 session_id user.user_id
  let message = new_message env session.id user.user_id content
  catch_integrity (do insert_message message; commit)
      (do rollback; raise (http_exception 409 message_refused))
  modify_db (λ db. record db {
    chat_sessions = modify (chat_at session_id) (touch_chat env) db.chat_sessions;
  })
  commit
  pure message

abbrev pub is_newer : Option ℕ → ChatMessage → Bool
is_newer none m = true
is_newer (some since) m = ltb since m.created_at

abbrev pub in_chat : ℕ → Option ℕ → ChatMessage → Bool
in_chat session_id since m = (m.session_id == session_id) && is_newer since m

-- `ChatMessage.created_at.asc(), ChatMessage.id.asc()`
abbrev pub earlier : ChatMessage → ChatMessage → Bool
earlier a b = ltb a.created_at b.created_at || ((a.created_at == b.created_at) && leb a.id b.id)

unfoldable pub messages_of : ℕ → Option ℕ → Db → List ChatMessage
messages_of session_id since db =
    sort_by earlier (select (in_chat session_id since) db.chat_messages)

unfoldable pub list_messages :
    ℕ → TokenData → Option ℕ → ℕ → ℕ → Action (Listing ChatMessage × Bool)
unfolding get_session_or_403
list_messages session_id user since page limit = do
  session ← get_session_or_403 session_id user.user_id
  gets (λ db. (listing (λ m. m) (messages_of session_id since db) page limit, is_given since))
