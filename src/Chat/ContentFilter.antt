-- ===== src/Chat/ContentFilter.antt =====
-- `SpamContentFilter` (app/modules/chat/content_filter.py) with its default thresholds. `hostname` is
-- `urlparse(url).hostname` (`none` for a `ValueError`), `idna` the codec of that name (`none` for a `UnicodeError`), and `lower`,
-- `is_alpha` and `is_upper` are the methods of `str`.
use di_wei_wei_nano_market.Prelude.{
  ℕ, suc, ◌+◌, ◌*◌, Bool, true, false, not, Option, none, some, List, [], ◌∷◌, ◌==◌, ◌&&◌, ◌||◌,
  leb, ltb, any, length, select, if◌then◌else◌,
}
use di_wei_wei_nano_market.Prelude.Text.{codes, is_space, strip, is_empty, ends_with}
use mathlib.Core.List.{reverse}
use di_wei_wei_nano_market.Models.{Text}
use di_wei_wei_nano_market.Auth.Login.{same_text}

pub data Reason : Type 0 where
  phishing_domain_detected repeated_url_pattern shortener_abuse all_caps_spam : Reason

-- `ContentFilterResult`, or the `ValueError` that a malformed address raises.
pub data FilterResult : Type 0 where
  allowed : FilterResult
  blocked : Reason → FilterResult
  value_error : FilterResult

abbrev pub phishing_domains : List Text
phishing_domains = codes "spam.ru" ∷ codes "malware.net" ∷ codes "phishing.example" ∷ []

abbrev pub shortener_domains : List Text
shortener_domains =
    codes "bit.ly" ∷ codes "tinyurl.com" ∷ codes "shorte.st" ∷ codes "t.co" ∷ codes "goo.gl" ∷ []

abbrev pub repeated_same_url_threshold : ℕ
repeated_same_url_threshold = 3

abbrev pub shortener_abuse_threshold : ℕ
shortener_abuse_threshold = 5

abbrev pub caps_min_length : ℕ
caps_min_length = 50

-- A letter of the pattern in either case; to `re.IGNORECASE`, U+017F is an `s` too.
abbrev pub fold_s : ℕ → ℕ
fold_s c = if c == 383 then 115 else c

abbrev pub fold_case : ℕ → ℕ
fold_case c = if leb 65 c && leb c 90 then c + 32 else fold_s c

-- `https?://[^\s]` at the start of a text
abbrev pub text_after : Text → Text → Bool
text_after [] [] = false
text_after [] (c ∷ t) = not (is_space c)
text_after (p ∷ ps) [] = false
text_after (p ∷ ps) (c ∷ t) = (fold_case c == p) && text_after ps t

abbrev pub is_url : Text → Bool
is_url t = text_after (codes "http://") t || text_after (codes "https://") t

-- `[^\s]+`, as long as possible
abbrev pub word : Text → Text
word [] = []
word (c ∷ t) = let rest = word t in if is_space c then [] else c ∷ rest

-- `_URL_PATTERN.findall`, where the flag tells that a match is still being read.
abbrev pub find_urls : Bool → Text → List Text
find_urls inside [] = []
find_urls true (c ∷ t) =
    let within = find_urls true t in
    let after = find_urls false t in if is_space c then after else within
find_urls false (c ∷ t) =
    let within = find_urls true t in
    let after = find_urls false t in if is_url (c ∷ t) then word (c ∷ t) ∷ within else after

-- `text.strip(".")`
abbrev pub lstrip_dots : Text → Text
lstrip_dots [] = []
lstrip_dots (c ∷ t) = let rest = lstrip_dots t in if c == 46 then rest else c ∷ t

abbrev pub strip_dots : Text → Text
strip_dots t = reverse (lstrip_dots (reverse (lstrip_dots t)))

-- `domain == blocked or domain.endswith(f".{blocked}")`
abbrev pub is_under : Text → Text → Bool
is_under domain host = same_text domain host || ends_with (46 ∷ host) domain

unfoldable pub is_phishing : Text → Bool
is_phishing domain = not (is_empty domain) && any (is_under domain) phishing_domains

unfoldable pub find_phishing_domain : List Text → Option Text
find_phishing_domain [] = none
find_phishing_domain (d ∷ ds) =
    let rest = find_phishing_domain ds in if is_phishing d then some d else rest

abbrev pub is_found : Option Text → Bool
is_found none = false
is_found (some _) = true

-- The dictionary `counts` after `counts[domain] = counts.get(domain, 0) + 1`
abbrev pub count_one : Text → (Text → ℕ) → Text → ℕ
count_one domain counts d = if same_text domain d then suc (counts d) else counts d

unfoldable pub repeated_from : (Text → ℕ) → List Text → Bool
repeated_from counts [] = false
repeated_from counts (d ∷ ds) =
    let skipped = repeated_from counts ds in
    let counted = repeated_from (count_one d counts) ds in
    if is_empty d
    then skipped
    else if ltb repeated_same_url_threshold (count_one d counts d)
    then true
    else counted

unfoldable pub has_repeated_url_spam : List Text → Bool
has_repeated_url_spam domains = repeated_from (λ _. 0) domains

abbrev pub is_shortener : Text → Bool
is_shortener domain = any (same_text domain) shortener_domains

abbrev pub hits_from : ℕ → List Text → ℕ
hits_from hits [] = hits
hits_from hits (d ∷ ds) = hits_from (if is_shortener d then suc hits else hits) ds

unfoldable pub is_shortener_abuse : List Text → Bool
is_shortener_abuse domains = ltb shortener_abuse_threshold (hits_from 0 domains)

module _ (hostname : Text → Option (Option Text)) (idna : Text → Option Text) (lower : Text → Text)
    (is_alpha is_upper : ℕ → Bool) where
  abbrev pub encoded : Text → Option Text → Text
  encoded t none = t
  encoded t (some ascii) = ascii

  unfoldable pub normalize_hostname : Option Text → Text
  normalize_hostname none = []
  normalize_hostname (some host) =
      let normalized = lower (strip_dots (strip host)) in
      if is_empty normalized then [] else encoded normalized (idna normalized)

  abbrev pub normalize_parsed : Option (Option Text) → Option Text
  normalize_parsed none = none
  normalize_parsed (some host) = some (normalize_hostname host)

  unfoldable pub extract_domain : Text → Option Text
  extract_domain url = normalize_parsed (hostname url)

  abbrev pub collect : Option Text → Option (List Text) → Option (List Text)
  collect none ds = none
  collect (some d) none = none
  collect (some d) (some ds) = some (d ∷ ds)

  -- The domains of the addresses, unless one of them raises.
  abbrev pub extract_domains : List Text → Option (List Text)
  extract_domains [] = some []
  extract_domains (url ∷ urls) = collect (extract_domain url) (extract_domains urls)

  -- The ratio of capitals is a double, which for at most a thousand letters is over 0.7 where the
  -- quotient is.
  unfoldable pub is_all_caps_spam : Text → Bool
  is_all_caps_spam content =
      let letters = select is_alpha content in
      leb caps_min_length (length content)
      && (ltb 0 (length letters)
          && ltb (7 * length letters) (10 * length (select is_upper letters)))

  abbrev pub domains_of : Text → Option (List Text)
  domains_of normalized = extract_domains (find_urls false normalized)

  -- The checks in their order, once the domains are there.
  abbrev pub check_domains : Text → Option (List Text) → FilterResult
  check_domains normalized none = value_error
  check_domains normalized (some domains) =
      if is_found (find_phishing_domain domains)
      then blocked phishing_domain_detected
      else if has_repeated_url_spam domains
      then blocked repeated_url_pattern
      else if is_shortener_abuse domains
      then blocked shortener_abuse
      else if is_all_caps_spam normalized
      then blocked all_caps_spam
      else allowed

  unfoldable pub evaluate : Text → FilterResult
  evaluate content =
      let normalized = strip content in
      if is_empty normalized then allowed else check_domains normalized (domains_of normalized)
