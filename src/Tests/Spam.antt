-- ===== src/Tests/Spam.antt =====
-- Messages that come fast, and messages that are blocked.
use di_wei_wei_nano_market.Prelude.{
  if◌then◌else◌, ℕ, ◌*◌, ◌≤◌, ◌≡◌, refl, Bool, Option, none, some, List, [], ◌∷◌, ◌&&◌, leb, arith,
}
use di_wei_wei_nano_market.Prelude.Text.{starts_with, codes, strip, is_space}
use di_wei_wei_nano_market.Models.{Text}
use di_wei_wei_nano_market.RateLimit.{Limiter, create, check, expire}
use di_wei_wei_nano_market.RateLimit.Window.{in_window}
use di_wei_wei_nano_market.Chat.Messages.{send_message}
use di_wei_wei_nano_market.Chat.ContentFilter.{
  FilterResult, blocked, value_error, phishing_domain_detected, repeated_url_pattern, evaluate,
  normalize_hostname, extract_domain, find_phishing_domain, is_phishing, has_repeated_url_spam,
  repeated_from, is_shortener_abuse, is_all_caps_spam,
}
use di_wei_wei_nano_market.Chat.Posting.{Post, create_message}
use di_wei_wei_nano_market.Chat.Flood.{stored_times, flood_bound}
use di_wei_wei_nano_market.Tests.Data.{env, author}
use di_wei_wei_nano_market.Tests.Talk.{talk}
use di_wei_wei_nano_market.Tests.Intruder.{keep}

-- The host is what follows `http://`.
abbrev host_of : Text → Option (Option Text)
host_of (_ ∷ _ ∷ _ ∷ _ ∷ _ ∷ _ ∷ _ ∷ host) =
    if starts_with (codes "[") host then none else some (some host)
host_of _ = some none

abbrev ascii : Text → Option Text
ascii t = some t

abbrev is_letter : ℕ → Bool
is_letter c = leb 65 c && leb c 122

abbrev is_capital : ℕ → Bool
is_capital c = leb 65 c && leb c 90

abbrev filtered_text : Text → FilterResult
filtered_text t = evaluate host_of ascii keep is_letter is_capital t

refused : filtered_text (codes "see http://a.spam.ru.") ≡ blocked phishing_domain_detected
unfolding evaluate strip is_space extract_domain normalize_hostname find_phishing_domain is_phishing
refused = refl

malformed : filtered_text (codes "http://[abc") ≡ value_error
unfolding evaluate strip is_space extract_domain
malformed = refl

repeated :
    filtered_text (codes "http://a.b HTTP://a.b http://a.b http://a.b")
    ≡ blocked repeated_url_pattern
unfolding evaluate strip is_space extract_domain normalize_hostname find_phishing_domain is_phishing
    has_repeated_url_spam repeated_from
repeated = refl

abbrev chat_limiter : Limiter
chat_limiter = record {
  max_requests = 13;
  window_seconds = 60;
  hits = λ _. none;
  violations = λ _. none;
}

chat_limiter_made : create 13 60 ≡ some chat_limiter
unfolding create
chat_limiter_made = refl

abbrev pair_key : ℕ → ℕ → ℕ
pair_key user chat = user

abbrev post_at : ℕ → Text → Post
post_at tick content = record {
  env = env;
  tick = tick;
  session_id = 40;
  content = content;
  user = author;
}

abbrev posts : List Post
posts = post_at 1000000 (codes "see http://a.spam.ru") ∷ post_at 2000000 (codes "hello") ∷ []

one_stored : stored_times pair_key filtered_text 1 40 chat_limiter talk posts ≡ 2000000 ∷ []
unfolding stored_times create_message check expire send_message evaluate strip is_space
    extract_domain normalize_hostname find_phishing_domain is_phishing has_repeated_url_spam
    repeated_from is_shortener_abuse is_all_caps_spam
one_stored = refl

flood_bound_example :
    in_window
      (60 * 1000000)
      3000000
      (stored_times pair_key filtered_text 1 40 chat_limiter talk posts)
    ≤ 13
flood_bound_example =
    flood_bound pair_key filtered_text 1 40 3000000 0 chat_limiter talk posts chat_limiter_made
      (ground arith, (ground arith, tt))
