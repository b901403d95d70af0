-- ===== src/Tests/Talk.antt =====
-- A chat between an author and a reader.
use mathlib.Core.List.{Mem, Perm}
use di_wei_wei_nano_market.Prelude.{ℕ, ◌≡◌, refl, true, false, none, some, [], ◌∷◌, arith, select}
use di_wei_wei_nano_market.Prelude.Pages.{IsOrdered}
use di_wei_wei_nano_market.Models.{Db, ChatSession, ChatMessage}
use di_wei_wei_nano_market.Session.{ok, err, http_exception, not_participant}
use di_wei_wei_nano_market.Listing.{Listing, read_pages}
use di_wei_wei_nano_market.Chat.Sessions.{
  create_or_get_chat_session, session_query, to_session_data, ChatSessionData,
}
use di_wei_wei_nano_market.Chat.Messages.{send_message, new_message, in_chat, earlier}
use di_wei_wei_nano_market.Chat.Privacy.{Polled, page_read, poll_complete, Sent, outsider_refused}
use di_wei_wei_nano_market.Chat.Delivery.{Opened, send_poll}
use di_wei_wei_nano_market.Tests.Data.{env, author, reader, moderator, market, hello}

abbrev chat : ChatSession
chat = record {
  id = 40;
  nano_id = 11;
  creator_id = 1;
  participant_user_id = 3;
  created_at = 3000;
  updated_at = 3000;
  last_message_at = none;
}

abbrev message_with : ℕ → ℕ → ChatMessage
message_with i time = record {
  id = i;
  session_id = 40;
  sender_id = 1;
  content = hello;
  created_at = time;
}

abbrev pub talk : Db
talk = record market {
  chat_sessions = chat ∷ [];
  chat_messages = message_with 51 3200 ∷ message_with 50 3100 ∷ [];
}

poll_complete_example :
    (l : Listing ChatMessage) × ((Polled 40 reader none 1 1 talk).0 ≡ ok (l, false))
    × Perm
        (read_pages (page_read 40 reader none 1 talk) l.total_pages)
        (select (in_chat 40 none) talk.chat_messages)
    × IsOrdered earlier (read_pages (page_read 40 reader none 1 talk) l.total_pages)
poll_complete_example = poll_complete 40 reader none 1 1 talk chat refl refl (ground arith)

outsider_refused_example :
    (Polled 40 moderator none 1 20 talk ≡ (err (http_exception 403 not_participant), talk))
    × (Sent env 40 hello moderator talk ≡ (err (http_exception 403 not_participant), talk))
outsider_refused_example = outsider_refused env 40 hello moderator none 1 20 talk chat refl refl

abbrev sent : ChatMessage
sent = new_message env 40 1 hello

sent_ok : (Sent env 40 hello author talk).0 ≡ ok sent
unfolding send_message
sent_ok = refl

send_poll_example :
    let db' = (Sent env 40 hello author talk).1 in
    (true ≡ true)
    × (sent.sender_id ≡ 1)
    × (sent.content ≡ hello)
    × ((l : Listing ChatMessage) × ((Polled 40 reader (some 3200) 1 10 db').0 ≡ ok (l, true))
        × Mem sent (read_pages (page_read 40 reader (some 3200) 10 db') l.total_pages))
send_poll_example =
    send_poll env 40 hello author reader talk sent 3200 1 10 chat sent_ok refl refl (ground arith)
      (ground arith)

abbrev first_chat : ChatSessionData
first_chat = record {
  session_id = 100;
  nano_id = 11;
  creator_id = 1;
  participant_user_id = 3;
  counterpart_user_id = 1;
  created_at = 5000;
  updated_at = 5000;
  last_message_at = none;
}

first_opened : (Opened env 11 reader market).0 ≡ ok (first_chat, false)
unfolding create_or_get_chat_session session_query to_session_data
first_opened = refl
