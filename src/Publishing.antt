-- ===== src/Publishing.antt =====
-- What a Nano needs before it is published: `_validate_metadata_completeness` of the nano service
-- and `_validate_nano_publishable` of the moderation service, which have one text.
use di_wei_wei_nano_market.Prelude.{
  ℕ, Bool, true, false, not, Option, none, some, List, [], ◌∷◌, ◌++◌, ◌==◌, ◌||◌,
}
use di_wei_wei_nano_market.Prelude.Text.{strip, is_empty}
use di_wei_wei_nano_market.Models.{Nano, Text}
use di_wei_wei_nano_market.Session.{Action, http_exception, missing_metadata, raise_if}

pub data Field : Type 0 where
  title description duration_minutes language : Field

abbrev is_blank : Text → Bool
is_blank t = is_empty t || is_empty (strip t)

abbrev lacks_description : Option Text → Bool
lacks_description none = true
lacks_description (some t) = is_blank t

abbrev lacks_duration : Option ℕ → Bool
lacks_duration none = true
lacks_duration (some d) = d == 0

abbrev listed : Bool → Field → List Field
listed true f = f ∷ []
listed false f = []

unfoldable pub missing_fields : Nano → List Field
missing_fields nano =
    listed (is_blank nano.title) Field.title
    ++ (listed (lacks_description nano.description) Field.description
        ++ (listed (lacks_duration nano.duration_minutes) Field.duration_minutes
            ++ listed (is_empty nano.language) Field.language))

abbrev pub is_complete : List Field → Bool
is_complete [] = true
is_complete (_ ∷ _) = false

abbrev pub validate_metadata_completeness : Nano → Action (Unit {0})
validate_metadata_completeness nano =
    raise_if (not (is_complete (missing_fields nano))) (http_exception 400 missing_metadata)

-- `nano.published_at = now` where it is not set
abbrev pub or_now : Option ℕ → ℕ → Option ℕ
or_now none now = some now
or_now (some t) now = some t
