-- ===== src/Chat/Blocked.antt =====
-- Which messages the content filter blocks.
use di_wei_wei_nano_market.Prelude.{
  ◌*◌, ◌||◌, ◌<◌, ℕ, ◌+◌, ◌≤◌, ◌≡◌, refl, ◌⊎◌, Bool, true, false, Option, some, List, [], ◌∷◌, any,
  length, select,
}
use di_wei_wei_nano_market.Prelude.Text.{codes, ends_with, is_empty}
use di_wei_wei_nano_market.Models.{Text}
use di_wei_wei_nano_market.Auth.Login.{same_text}
use di_wei_wei_nano_market.Chat.ContentFilter.{is_shortener, domains_of}

-- How often a domain occurs.
abbrev pub occurrences : Text → List Text → ℕ
occurrences d ds = length (select (same_text d) ds)

abbrev IsRare : (Text → ℕ) → List Text → Type 0
IsRare counts ds = (d : Text) → (is_empty d ≡ true) ⊎ (counts d + occurrences d ds ≤ 3)

-- A domain of the list of phishing domains, or below one.
abbrev pub leads_to_phishing : Text → Bool
leads_to_phishing d =
    any (λ host. same_text d host || ends_with (46 ∷ host) d)
      (codes "spam.ru" ∷ codes "malware.net" ∷ codes "phishing.example" ∷ [])

abbrev pub shortens : Text → Bool
shortens d =
    any (same_text d) (
      codes "bit.ly" ∷ codes "tinyurl.com" ∷ codes "shorte.st" ∷ codes "t.co" ∷ codes "goo.gl" ∷ [])

is_shortener_lem : (d : Text) → is_shortener d ≡ shortens d
is_shortener_lem d = refl

module _ (hostname : Text → Option (Option Text)) (idna : Text → Option Text) (lower : Text → Text)
    (is_alpha is_upper : ℕ → Bool) where
  -- A message of which every address can be parsed, without links to phishing domains, without repeated
  -- links, with few short links, and not shouted.
  abbrev pub IsClean : Text → List Text → Type 0
  IsClean t domains =
      (domains_of hostname idna lower is_alpha is_upper t ≡ some domains)
      × (any leads_to_phishing domains ≡ false)
      × ((d : Text) → (is_empty d ≡ true) ⊎ (occurrences d domains ≤ 3))
      × (length (select shortens domains) ≤ 5)
      × ((length t < 50)
          ⊎ (10 * length (select is_upper (select is_alpha t)) ≤ 7 * length (select is_alpha t)))
