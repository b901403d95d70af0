-- ===== src/Auth/Validators.antt =====
-- app/modules/auth/validators.py, with the settings' defaults. `lower` is `str.lower`.
use di_wei_wei_nano_market.Prelude.{
  ℕ, ◌+◌, ◌*◌, Bool, true, false, not, List, [], ◌∷◌, ◌++◌, ◌==◌, ◌&&◌, ◌||◌, leb, any, length,
  if◌then◌else◌,
}
use di_wei_wei_nano_market.Prelude.Text.{codes, contains, is_empty}
use Prim.Native.Nat.{min}
use di_wei_wei_nano_market.Models.{Text}

-- `[A-Z]`, `[a-z]`, `[0-9]` and `SPECIAL_CHARS_PATTERN`
abbrev pub is_upper : ℕ → Bool
is_upper c = leb 65 c && leb c 90

abbrev pub is_lower : ℕ → Bool
is_lower c = leb 97 c && leb c 122

abbrev pub is_digit : ℕ → Bool
is_digit c = leb 48 c && leb c 57

abbrev pub is_special : ℕ → Bool
is_special c = any (λ d. d == c) (codes "!@#$%^&*(),.?\":{}|<>")

-- `settings.MIN_PASSWORD_LENGTH`
abbrev pub min_password_length : ℕ
min_password_length = 8

unfoldable pub validate_password_strength : Text → Bool
validate_password_strength password =
    leb min_password_length (length password)
    && (any is_upper password && (any is_digit password && any is_special password))

pub data Strength : Type 0 where
  weak fair good strong very_strong : Strength

pub data Suggestion : Type 0 where
  not_empty longer add_lower add_upper add_digit add_special no_common_word no_repeat : Suggestion

pub record PasswordStrength : Type 0 where
  pub score : ℕ
  pub strength : Strength
  pub suggestions : List Suggestion
  pub meets_policy : Bool

-- Points for a criterion, and a suggestion where it is missed.
abbrev pub points : Bool → ℕ → ℕ
points met n = if met then n else 0

abbrev pub advice : Bool → Suggestion → List Suggestion
advice met s = if met then [] else s ∷ []

abbrev pub length_score : ℕ → ℕ
length_score n = if leb 16 n then 40 else if leb 12 n then 30 else if leb 8 n then 20 else n * 2

-- `(.)\1{2,}`, where the dot is any character but a line feed
abbrev pub has_repeating : Text → Bool
has_repeating (a ∷ (b ∷ (c ∷ t))) =
    ((a == b) && ((b == c) && not (a == 10))) || has_repeating (b ∷ (c ∷ t))
has_repeating _ = false

abbrev pub common_patterns : List Text
common_patterns =
    codes "123"
    ∷ codes "abc"
    ∷ codes "qwerty"
    ∷ codes "password"
    ∷ codes "admin"
    ∷ codes "user"
    ∷ codes "pass"
    ∷ []

abbrev pub strength_of : ℕ → Strength
strength_of score =
    if leb 80 score
    then very_strong
    else if leb 60 score
    then strong
    else if leb 40 score
    then good
    else if leb 20 score
    then fair
    else weak

abbrev pub has_common : (Text → Text) → Text → Bool
has_common lower password = any (λ p. contains p (lower password)) common_patterns

abbrev pub raw_score : (Text → Text) → Text → ℕ
raw_score lower password =
    length_score (length password)
    + points (any is_lower password) 10
    + points (any is_upper password) 10
    + points (any is_digit password) 10
    + points (any is_special password) 10
    + points (not (has_common lower password)) 10
    + points (not (has_repeating password)) 10

abbrev pub suggestions_for : (Text → Text) → Text → List Suggestion
suggestions_for lower password =
    advice (leb 8 (length password)) longer
    ++ (advice (any is_lower password) add_lower
        ++ (advice (any is_upper password) add_upper
            ++ (advice (any is_digit password) add_digit
                ++ (advice (any is_special password) add_special
                    ++ (advice (not (has_common lower password)) no_common_word
                        ++ advice (not (has_repeating password)) no_repeat)))))

unfoldable pub calculate_password_strength : (Text → Text) → Text → PasswordStrength
calculate_password_strength lower [] = record {
  score = 0;
  strength = weak;
  suggestions = not_empty ∷ [];
  meets_policy = false;
}
calculate_password_strength lower (c ∷ cs) = record {
  score = min (raw_score lower (c ∷ cs)) 100;
  strength = strength_of (raw_score lower (c ∷ cs));
  suggestions = suggestions_for lower (c ∷ cs);
  meets_policy = validate_password_strength (c ∷ cs);
}

abbrev pub is_word_char : ℕ → Bool
is_word_char c = is_lower c || (is_upper c || (is_digit c || (c == 95)))

-- `[a-zA-Z0-9_]*$`, where `$` also matches before a final line feed
abbrev pub word_end : Text → Bool
word_end [] = true
word_end (c ∷ t) = let rest = word_end t in (is_word_char c && rest) || ((c == 10) && is_empty t)

abbrev pub matches_word : Text → Bool
matches_word [] = false
matches_word (c ∷ t) = is_word_char c && word_end t

unfoldable pub validate_username : Text → Bool
validate_username username =
    leb 3 (length username) && (leb (length username) 20 && matches_word username)

unfoldable pub validate_email : Text → Bool
validate_email email = any (λ c. c == 64) email && leb (length email) 255
