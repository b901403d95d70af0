-- ===== src/Nanos/Sanitize.antt =====
-- `_sanitize_comment_content` and `_validate_sanitized_comment_content`.
use di_wei_wei_nano_market.Prelude.{
  ℕ, ◌≡◌, refl, Bool, false, [], ◌∷◌, ◌++◌, ◌||◌, ◌&&◌, ◌==◌, arith, ltb, if◌then◌else◌, length,
  any,
}
use di_wei_wei_nano_market.Prelude.Text.{strip}
use di_wei_wei_nano_market.Models.{Text}
use di_wei_wei_nano_market.Session.{Action, http_exception, too_long, raise_if}

-- `.replace("\r\n", "\n")`
abbrev pub replace_crlf : Text → Text
replace_crlf [] = []
replace_crlf (c ∷ []) = c ∷ []
replace_crlf (c ∷ d ∷ t) =
    let skip = replace_crlf t in
    let step = replace_crlf (d ∷ t) in if (c == 13) && (d == 10) then 10 ∷ skip else c ∷ step

-- `.replace("\r", "\n")`
abbrev pub replace_cr : Text → Text
replace_cr [] = []
replace_cr (c ∷ t) = (if c == 13 then 10 else c) ∷ replace_cr t

-- `html.escape(text, quote=False)`: `&`, `<` and `>` become `&amp;`, `&lt;` and `&gt;`.
abbrev pub escape_char : ℕ → Text
escape_char c =
    if c == b'&'
    then b'&' ∷ b'a' ∷ b'm' ∷ b'p' ∷ b';' ∷ []
    else if c == b'<'
    then b'&' ∷ b'l' ∷ b't' ∷ b';' ∷ []
    else if c == b'>'
    then b'&' ∷ b'g' ∷ b't' ∷ b';' ∷ []
    else c ∷ []

unfoldable pub escape : Text → Text
escape [] = []
escape (c ∷ t) = escape_char c ++ escape t

unfoldable pub sanitize_comment_content : Text → Text
sanitize_comment_content content = escape (replace_cr (replace_crlf (strip content)))

abbrev pub max_comment_length : ℕ
max_comment_length = 1000

abbrev pub validate_sanitized_comment_content : Text → Action (Unit {0})
validate_sanitized_comment_content content =
    raise_if (ltb max_comment_length (length content)) (http_exception 422 too_long)

-- A character that HTML markup or a line break in another style would need.
abbrev pub is_unsafe : ℕ → Bool
is_unsafe c = (c == b'<') || ((c == b'>') || (c == 13))

any-append : (p : ℕ → Bool) (xs ys : Text) → any p (xs ++ ys) ≡ (any p xs || any p ys)
any-append p [] ys = refl
any-append p (x ∷ xs) ys = ground (arith, any-append p xs ys)

escape_char-safe : (c : ℕ) → (c == 13) ≡ false → any is_unsafe (escape_char c) ≡ false
escape_char-safe c h = ground arith

no_cr : (t : Text) → any (λ c. c == 13) (replace_cr t) ≡ false
no_cr [] = refl
no_cr (c ∷ t) = ground (arith, no_cr t)

escape-safe : (t : Text) → any (λ c. c == 13) t ≡ false → any is_unsafe (escape t) ≡ false
unfolding escape
escape-safe [] h = refl
escape-safe (c ∷ t) h =
    ground
      (arith, any-append is_unsafe (escape_char c) (escape t), escape_char-safe c, escape-safe t)

-- Whatever the input, the stored text has no `<`, no `>` and no carriage return.
pub sanitized_safe : (t : Text) → any is_unsafe (sanitize_comment_content t) ≡ false
unfolding sanitize_comment_content
sanitized_safe t =
    escape-safe (replace_cr (replace_crlf (strip t))) (no_cr (replace_crlf (strip t)))
