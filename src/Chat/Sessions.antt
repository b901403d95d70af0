-- ===== src/Chat/Sessions.antt =====
-- Chat sessions: `create_or_get_chat_session` and `list_chat_sessions` (app/modules/chat/service.py).
use di_wei_wei_nano_market.Prelude.{
  ℕ, Bool, true, false, Option, none, some, List, [], ◌∷◌, ◌==◌, ◌&&◌, ◌||◌, leb, ltb,
  if◌then◌else◌, find, select, any,
}
use di_wei_wei_nano_market.Prelude.Pages.{sort_by}
use di_wei_wei_nano_market.Listing.{Listing, listing}
use di_wei_wei_nano_market.Models.{Db, Nano, ChatSession, TokenData, nano_at, is_published}
use di_wei_wei_nano_market.Session.{
  Env, Action, http_exception, integrity_error, sqlalchemy_error, not_found, self_chat, ◌>>=◌, ◌>>◌,
  pure, gets, modify_db, raise_if, or_raise, commit, rollback, catch_integrity,
}

pub record ChatSessionData : Type 0 where
  pub session_id : ℕ
  pub nano_id : ℕ
  pub creator_id : ℕ
  pub participant_user_id : ℕ
  pub counterpart_user_id : ℕ
  pub created_at : ℕ
  pub updated_at : ℕ
  pub last_message_at : Option ℕ

unfoldable pub to_session_data : ChatSession → ℕ → ChatSessionData
to_session_data s user_id = record {
  session_id = s.id;
  nano_id = s.nano_id;
  creator_id = s.creator_id;
  participant_user_id = s.participant_user_id;
  counterpart_user_id = if s.creator_id == user_id then s.participant_user_id else s.creator_id;
  created_at = s.created_at;
  updated_at = s.updated_at;
  last_message_at = s.last_message_at;
}

abbrev pub published_nano : ℕ → Nano → Bool
published_nano i n = nano_at i n && is_published n.status

abbrev pub chat_by : ℕ → ℕ → ℕ → ChatSession → Bool
chat_by nano creator participant s =
    (s.nano_id == nano) && ((s.creator_id == creator) && (s.participant_user_id == participant))

abbrev pub chat_of_creator : ℕ → ℕ → ChatSession → Bool
chat_of_creator nano creator s = (s.nano_id == nano) && (s.creator_id == creator)

-- `order_by(ChatSession.updated_at.desc())`
abbrev pub later_update : ChatSession → ChatSession → Bool
later_update a b = leb b.updated_at a.updated_at

-- `.limit(1)` and `scalar_one_or_none()`
abbrev pub first_row : List ChatSession → Option ChatSession
first_row [] = none
first_row (s ∷ _) = some s

-- `session_query`: the creator's latest chat on the Nano, or the participant's own one.
unfoldable pub session_query : Nano → TokenData → Db → Option ChatSession
session_query nano user db =
    if nano.creator_id == user.user_id
    then first_row
        (sort_by later_update (select (chat_of_creator nano.id user.user_id) db.chat_sessions))
    else find (chat_by nano.id nano.creator_id user.user_id) db.chat_sessions

-- The constraints of `chat_sessions`.
abbrev pub chat_conflicts : ChatSession → ChatSession → Bool
chat_conflicts s x = (x.id == s.id) || chat_by s.nano_id s.creator_id s.participant_user_id x

abbrev pub insert_chat : ChatSession → Action (Unit {0})
insert_chat s = do
  raise_if (← gets (λ db. any (chat_conflicts s) db.chat_sessions)) integrity_error
  raise_if (s.creator_id == s.participant_user_id) integrity_error
  modify_db (λ db. record db { chat_sessions = s ∷ db.chat_sessions })

abbrev pub new_chat : Env → Nano → ℕ → ChatSession
new_chat env nano user_id = record {
  id = env.new_id;
  nano_id = nano.id;
  creator_id = nano.creator_id;
  participant_user_id = user_id;
  created_at = env.now;
  updated_at = env.now;
  last_message_at = none;
}

-- The answer: the session, and whether it was there before.
abbrev pub ChatAnswer : Type 0
ChatAnswer = ChatSessionData × Bool

open_chat : Env → Nano → TokenData → Option ChatSession → Action ChatAnswer
unfolding session_query
open_chat env nano user (some s) = pure (to_session_data s user.user_id, true)
open_chat env nano user none = do
  raise_if (nano.creator_id == user.user_id) (http_exception 403 self_chat)
  let s = new_chat env nano user.user_id
  catch_integrity (do insert_chat s; commit; pure (to_session_data s user.user_id, false))
      (do
        rollback
        race ← gets (session_query nano user)
        s ← or_raise race sqlalchemy_error
        pure (to_session_data s user.user_id, true))

unfoldable pub create_or_get_chat_session : Env → ℕ → TokenData → Action ChatAnswer
unfolding open_chat
create_or_get_chat_session env nano_id user = do
  found ← gets (λ db. find (published_nano nano_id) db.nanos)
  nano ← or_raise found (http_exception 404 not_found)
  existing ← gets (session_query nano user)
  open_chat env nano user existing

abbrev pub takes_part : ℕ → ChatSession → Bool
takes_part user_id s = (s.creator_id == user_id) || (s.participant_user_id == user_id)

abbrev pub of_nano : Option ℕ → ChatSession → Bool
of_nano none s = true
of_nano (some i) s = s.nano_id == i

-- `ChatSession.updated_at.desc(), ChatSession.created_at.desc()`
abbrev pub latest_first : ChatSession → ChatSession → Bool
latest_first a b =
    ltb b.updated_at a.updated_at
    || ((a.updated_at == b.updated_at) && leb b.created_at a.created_at)

-- `nano_filter_applied`
abbrev pub is_given : Option ℕ → Bool
is_given none = false
is_given (some _) = true

unfoldable pub sessions_of : ℕ → Option ℕ → Db → List ChatSession
sessions_of user_id nano db =
    sort_by latest_first (select (λ s. takes_part user_id s && of_nano nano s) db.chat_sessions)

unfoldable pub list_chat_sessions :
    TokenData → Option ℕ → ℕ → ℕ → Action (Listing ChatSessionData × Bool)
list_chat_sessions user nano page limit = gets (λ db. (
  listing (λ s. to_session_data s user.user_id) (sessions_of user.user_id nano db) page limit,
  is_given nano,
))
