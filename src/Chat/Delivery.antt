-- ===== src/Chat/Delivery.antt =====
-- What is sent arrives, and opening a chat again finds the same one.
use mathlib.Core.List.{Mem, mem-cons_self}
use mathlib.Core.List.Perm
use di_wei_wei_nano_market.Prelude.{
  ℕ, ◌≡◌, ◌<◌, inl, inr, Bool, true, some, ◌∷◌, ◌==◌, find, select, arith, Option-cases, Bool-cases,
  find-modify_self, find-sat,
}
use di_wei_wei_nano_market.Models.{Db, ChatSession, ChatMessage, TokenData, Text}
use di_wei_wei_nano_market.Session.{Env, Result, ok, request}
use di_wei_wei_nano_market.Listing.{Listing, read_pages}
use di_wei_wei_nano_market.Chat.Sessions.{
  ChatSessionData, ChatAnswer, takes_part, create_or_get_chat_session, published_nano,
  session_query,
}
use di_wei_wei_nano_market.Chat.Messages.{chat_at, in_chat, send_message, new_message, touch_chat}
use di_wei_wei_nano_market.Chat.Privacy.{Polled, page_read, poll_complete, Sent}

-- What a message that is accepted leaves behind.
sent_effect :
    (env : Env) (i : ℕ) (t : Text) (user : TokenData) (db : Db) (m : ChatMessage)
    → (Sent env i t user db).0 ≡ ok m
    → (s : ChatSession) × (find (chat_at i) db.chat_sessions ≡ some s)
      × (takes_part user.user_id s ≡ true)
      × (m ≡ new_message env i user.user_id t)
      × (find (chat_at i) (Sent env i t user db).1.chat_sessions ≡ some (touch_chat env s))
      × ((Sent env i t user db).1.chat_messages ≡ m ∷ db.chat_messages)
unfolding send_message
sent_effect env i t user db m h = elim (Option-cases (find (chat_at i) db.chat_sessions)) [
  | inl missing ↦ absurd (ground arith)
  | inr (s, found) ↦
      let kept = find-modify_self (chat_at i) (touch_chat env) db.chat_sessions (λ _ p. p) in
      let own = find-sat (chat_at i) db.chat_sessions found in
      (s, found, ground arith, ground arith, ground arith, ground arith)
]

-- A message that is accepted was sent by a participant under its own name. Both participants, when
-- they poll afterwards for what is newer than some earlier time, with a positive page size, find it
-- among the pages that they read.
pub send_poll :
    (env : Env) (i : ℕ) (t : Text) (user reader : TokenData) (db : Db) (m : ChatMessage)
    (since page limit : ℕ) (s : ChatSession)
    → (Sent env i t user db).0 ≡ ok m
    → find (chat_at i) db.chat_sessions ≡ some s
    → takes_part reader.user_id s ≡ true
    → since < env.now
    → 0 < limit
    → let db' = (Sent env i t user db).1 in
      (takes_part user.user_id s ≡ true)
      × (m.sender_id ≡ user.user_id)
      × (m.content ≡ t)
      × ((l : Listing ChatMessage) × ((Polled i reader (some since) page limit db').0
            ≡ ok (l, true))
          × Mem m (read_pages (page_read i reader (some since) limit db') l.total_pages))
send_poll env i t user reader db m since page limit s h found member late pos =
    let (s', there, own, same, touched, stored) = sent_effect env i t user db m h in
    let db' : Db = (Sent env i t user db).1 in
    let member' : takes_part reader.user_id (touch_chat env s') ≡ true = ground arith in
    let (l, answer, perm, ordered) =
      poll_complete i reader (some since) page limit db' (touch_chat env s') touched member' pos in
    let chosen : select (in_chat i (some since)) db'.chat_messages
        ≡ m ∷ select (in_chat i (some since)) db.chat_messages =
      ground arith in
    (
      ground arith,
      ground arith,
      ground arith,
      (l, answer, (Perm.mem_iff perm).1 (rw chosen mem-cons_self)),
    )

abbrev pub Opened : Env → ℕ → TokenData → Db → Result ChatAnswer × Db
Opened env i user db = request (create_or_get_chat_session env i user) db

-- A user who was given a chat on a Nano gets the same one again, marked as reused, however much
-- later, as long as nothing else has happened, and the database does not change.
pub open_chat_again :
    (env env' : Env) (i : ℕ) (user : TokenData) (db : Db) (d : ChatSessionData) (reused : Bool)
    → (Opened env i user db).0 ≡ ok (d, reused)
    → Opened env' i user (Opened env i user db).1 ≡ (ok (d, true), (Opened env i user db).1)
unfolding create_or_get_chat_session session_query
open_chat_again env env' i user db d reused h =
    elim (Option-cases (find (published_nano i) db.nanos)) [
      | inl missing ↦ absurd (ground arith)
      | inr (n, found) ↦ elim (Option-cases (session_query n user db)) [
        | inl new ↦ elim (Bool-cases (n.creator_id == user.user_id)) [
          | inl own ↦ absurd (ground arith)
          | inr other ↦ ground arith
        ]
        | inr (s, old) ↦ ground arith
      ]
    ]
