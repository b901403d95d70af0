-- ===== src/Chat/Privacy.antt =====
-- Who reads a chat, and that its listing is complete.
use mathlib.Core.List.{Perm, map-id}
use di_wei_wei_nano_market.Prelude.{
  ℕ, ◌≡◌, ◌<◌, Bool, true, false, Option, some, List, [], find, select, arith,
}
use di_wei_wei_nano_market.Prelude.Pages.{page_of, sort_by-perm, IsOrdered, sort_by-IsOrdered}
use di_wei_wei_nano_market.Models.{Db, ChatSession, ChatMessage, TokenData, Text}
use di_wei_wei_nano_market.Session.{Env, Result, ok, err, http_exception, not_participant, request}
use di_wei_wei_nano_market.Listing.{Listing, listing, read_pages, read_pages_all}
use di_wei_wei_nano_market.Chat.Sessions.{takes_part, is_given}
use di_wei_wei_nano_market.Chat.Messages.{
  chat_at, list_messages, messages_of, in_chat, earlier, send_message,
}

abbrev pub Polled : ℕ → TokenData → Option ℕ → ℕ → ℕ → Db → Result (Listing ChatMessage × Bool) × Db
Polled i user since page limit db = request (list_messages i user since page limit) db

abbrev pub items_of : Result (Listing ChatMessage × Bool) → List ChatMessage
items_of (ok (l, _)) = l.items
items_of (err e) = []

abbrev pub page_read : ℕ → TokenData → Option ℕ → ℕ → Db → ℕ → List ChatMessage
page_read i user since limit db page = items_of (Polled i user since page limit db).0

earlier_total : (a b : ChatMessage) → earlier a b ≡ false → earlier b a ≡ true
earlier_total a b h = ground arith

earlier_transitive :
    (a b c : ChatMessage) → earlier a b ≡ true → earlier b c ≡ true → earlier a c ≡ true
earlier_transitive a b c h k = ground arith

-- A poll by a participant.
poll_answer :
    (i : ℕ) (user : TokenData) (since : Option ℕ) (page limit : ℕ) (db : Db) (s : ChatSession)
    → find (chat_at i) db.chat_sessions ≡ some s
    → takes_part user.user_id s ≡ true
    → (Polled i user since page limit db).0
      ≡ ok (listing (λ m. m) (messages_of i since db) page limit, is_given since)
unfolding list_messages
poll_answer i user since page limit db s found member = ground arith

poll_items :
    (i : ℕ) (user : TokenData) (since : Option ℕ) (page limit : ℕ) (db : Db) (s : ChatSession)
    → find (chat_at i) db.chat_sessions ≡ some s
    → takes_part user.user_id s ≡ true
    → items_of (Polled i user since page limit db).0 ≡ page_of page limit (messages_of i since db)
unfolding listing
poll_items i user since page limit db s found member =
    rw (poll_answer i user since page limit db s found member) (map-id _)

-- A participant who polls a chat with a positive page size, and reads as many pages as any of the
-- answers tells, has read exactly the messages of the chat after `since`, each once, in the order of
-- their times and ids.
pub poll_complete :
    (i : ℕ) (user : TokenData) (since : Option ℕ) (page limit : ℕ) (db : Db) (s : ChatSession)
    → find (chat_at i) db.chat_sessions ≡ some s
    → takes_part user.user_id s ≡ true
    → 0 < limit
    → (l : Listing ChatMessage) × ((Polled i user since page limit db).0 ≡ ok (l, is_given since))
      × Perm
          (read_pages (page_read i user since limit db) l.total_pages)
          (select (in_chat i since) db.chat_messages)
      × IsOrdered earlier (read_pages (page_read i user since limit db) l.total_pages)
unfolding listing messages_of
poll_complete i user since page limit db s found member pos =
    let rows = messages_of i since db in
    let l : Listing ChatMessage = listing (λ m. m) rows page limit in
    let all_read : read_pages (page_read i user since limit db) l.total_pages ≡ rows =
      read_pages_all (page_read i user since limit db) limit rows pos
        (λ k. poll_items i user since k limit db s found member) in
    (
      l,
      poll_answer i user since page limit db s found member,
      rw all_read (sort_by-perm earlier (select (in_chat i since) db.chat_messages)),
      rw all_read (
          sort_by-IsOrdered earlier earlier_total earlier_transitive
            (select (in_chat i since) db.chat_messages)),
    )

abbrev pub Sent : Env → ℕ → Text → TokenData → Db → Result ChatMessage × Db
Sent env i t user db = request (send_message env i t user) db

-- Whoever is not one of the two participants of a chat can neither read it nor write to it: both
-- requests are refused with 403, and the database stays as it was.
pub outsider_refused :
    (env : Env) (i : ℕ) (t : Text) (user : TokenData) (since : Option ℕ) (page limit : ℕ) (db : Db)
    (s : ChatSession)
    → find (chat_at i) db.chat_sessions ≡ some s
    → takes_part user.user_id s ≡ false
    → (Polled i user since page limit db ≡ (err (http_exception 403 not_participant), db))
      × (Sent env i t user db ≡ (err (http_exception 403 not_participant), db))
unfolding list_messages send_message
outsider_refused env i t user since page limit db s found outside = (ground arith, ground arith)
