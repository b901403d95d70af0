-- ===== src/Chat/Flood.antt =====
-- How many messages a user gets into a chat.
use di_wei_wei_nano_market.Prelude.{
  ℕ, ◌*◌, ◌≤◌, ◌≡◌, refl, sym, Bool, true, false, some, List, [], ◌∷◌, ◌==◌, ◌&&◌, map,
  if◌then◌else◌, arith,
}
use di_wei_wei_nano_market.Models.{Db, ChatMessage, Text}
use di_wei_wei_nano_market.Session.{Result, ok, err}
use di_wei_wei_nano_market.RateLimit.{
  Limiter, Verdict, admitted, rejected, index_error, check, create,
}
use di_wei_wei_nano_market.RateLimit.Window.{
  is_admitted, admitted_times, in_window, IsChronological, window_bound,
}
use di_wei_wei_nano_market.Chat.ContentFilter.{FilterResult}
use di_wei_wei_nano_market.Chat.Posting.{
  Post, key_of, create_message, limited, chat_message_limit, chat_message_window_seconds,
}

pick-le :
    (w t x : ℕ) (a b : Bool) (xs ys : List ℕ)
    → (a ≡ true → b ≡ true)
    → in_window w t xs ≤ in_window w t ys
    → in_window w t (if a then x ∷ xs else xs) ≤ in_window w t (if b then x ∷ ys else ys)
pick-le w t x false b xs ys h le = ground arith
pick-le w t x true b xs ys h le = ground (arith, h refl)

module _ (key : ℕ → ℕ → ℕ) (filter : Text → FilterResult) where
  abbrev pub Posted : Post → Limiter → Db → (Result ChatMessage × Db) × Limiter
  Posted p l db = create_message key filter p l db

  abbrev pub is_ok : Result ChatMessage → Bool
  is_ok (ok m) = true
  is_ok (err e) = false

  -- The times at which messages of a user to a chat were stored, in a sequence of requests.
  unfoldable pub stored_times : ℕ → ℕ → Limiter → Db → List Post → List ℕ
  stored_times user chat l db [] = []
  stored_times user chat l db (p ∷ ps) =
      let rest = stored_times user chat (Posted p l db).1 (Posted p l db).0.1 ps in
      if is_ok (Posted p l db).0.0 && ((p.user.user_id == user) && (p.session_id == chat))
      then p.tick ∷ rest
      else rest

  abbrev pub request_of : Post → ℕ × ℕ
  request_of p = (key_of key filter p, p.tick)

  limited_admitted :
      (p : Post) (v : Verdict) (db : Db)
      → is_ok (limited key filter p v db).0 ≡ true
      → is_admitted v ≡ true
  limited_admitted p admitted db h = refl
  limited_admitted p (rejected n) db h = absurd (ground arith)
  limited_admitted p index_error db h = absurd (ground arith)

  -- A message that is stored was admitted by the limiter.
  stored_admitted :
      (p : Post) (l : Limiter) (db : Db)
      → is_ok (Posted p l db).0.0 ≡ true
      → is_admitted (check l (key_of key filter p) p.tick).0 ≡ true
  unfolding create_message
  stored_admitted p l db h = limited_admitted p (check l (key_of key filter p) p.tick).0 db h

  posted-limiter :
      (p : Post) (l : Limiter) (db : Db)
      → (Posted p l db).1 ≡ (check l (key_of key filter p) p.tick).1
  unfolding create_message
  posted-limiter p l db = refl

  of_key :
      (p : Post) (user chat : ℕ) (stored : Bool) (v : Verdict)
      → (stored ≡ true → is_admitted v ≡ true)
      → (stored && ((p.user.user_id == user) && (p.session_id == chat))) ≡ true
      → (is_admitted v && (key_of key filter p == key user chat)) ≡ true
  of_key p user chat stored v h both =
      let a : stored ≡ true = ground arith in
      let e : p.user.user_id ≡ user = ground arith in
      let f : p.session_id ≡ chat = ground arith in
      let same : key_of key filter p ≡ key user chat = rw (e, f) refl in ground (arith, h a, same)

  stored-le :
      (user chat w t : ℕ) (l : Limiter) (db : Db) (ps : List Post)
      → in_window w t (stored_times user chat l db ps)
        ≤ in_window w t (admitted_times (key user chat) l (map request_of ps))
  unfolding stored_times admitted_times
  stored-le user chat w t l db [] = omega arith
  stored-le user chat w t l db (p ∷ ps) =
      pick-le w t p.tick _ _ _ _
        (of_key p user chat (is_ok (Posted p l db).0.0) (check l (key_of key filter p) p.tick).0
          (stored_admitted p l db))
        (rw (sym (posted-limiter p l db))
          (stored-le user chat w t (Posted p l db).1 (Posted p l db).0.1 ps))

  -- Requests come in the order of their times, to a limiter that starts with the server. In any 60
  -- seconds of its clock, at most 13 messages of a user to a chat are stored, whatever else is sent.
  pub flood_bound :
      (user chat t since : ℕ) (l : Limiter) (db : Db) (ps : List Post)
      → create chat_message_limit chat_message_window_seconds ≡ some l
      → IsChronological since (map request_of ps)
      → in_window (chat_message_window_seconds * 1000000) t (stored_times user chat l db ps)
        ≤ chat_message_limit
  flood_bound user chat t since l db ps made order = omega (
    arith,
    stored-le user chat (chat_message_window_seconds * 1000000) t l db ps,
    window_bound chat_message_limit chat_message_window_seconds (key user chat) t since l
        (map request_of ps) made order,
  )
