-- ===== src/Auth/Jwt.antt =====
-- Tokens (app/modules/auth/tokens.py). PyJWT is a parameter: `encode` signs a payload, `decode` reads
-- a token whose signature is right; `jwt.decode` also refuses a token that has expired or comes from
-- the future. The ids of
-- tokens (`jti`) are opaque numbers. No service reads the email claim.
use di_wei_wei_nano_market.Prelude.{
  ℕ, ◌+◌, ◌*◌, ◌/◌, ◌≡◌, Bool, true, false, Option, none, some, leb, ltb, ◌||◌, if◌then◌else◌,
}
use di_wei_wei_nano_market.Models.{UserRole, consumer, Text}

pub data TokenType : Type 0 where
  access refresh email_verification : TokenType

abbrev pub same_type : TokenType → TokenType → Bool
same_type access access = true
same_type refresh refresh = true
same_type email_verification email_verification = true
same_type _ _ = false

-- `iat` and `exp` are in seconds. A claim that is missing is `none`.
pub record Payload : Type 0 where
  pub sub : Option ℕ
  pub user_id : Option ℕ
  pub email : Option Text
  pub role : Option UserRole
  pub iat : Option ℕ
  pub exp : Option ℕ
  pub jti : Option ℕ
  pub token_type : TokenType

pub record Jwt : Type 0 where
  pub encode : Payload → Text
  pub decode : Text → Option Payload

-- What the library documents: a token is decoded to what was encoded.
pub record IsJwt (jwt : Jwt) : Type 0 where
  pub decode-encode : (p : Payload) → jwt.decode (jwt.encode p) ≡ some p

-- `TokenData`, with the expiry in seconds.
pub record Claims : Type 0 where
  pub user_id : ℕ
  pub role : UserRole
  pub exp : ℕ

-- `settings.ACCESS_TOKEN_EXPIRE_MINUTES`, `REFRESH_TOKEN_EXPIRE_DAYS` and
-- `EMAIL_VERIFICATION_TOKEN_EXPIRE_HOURS`, in seconds
abbrev pub access_lifetime : ℕ
access_lifetime = 900

abbrev pub refresh_lifetime : ℕ
refresh_lifetime = 604800

abbrev pub verification_lifetime : ℕ
verification_lifetime = 86400

-- The end of a lifetime that starts at an instant, in seconds.
abbrev pub expiry : ℕ → ℕ → ℕ
expiry now lifetime = (now + lifetime * 1000000) / 1000000

abbrev pub user_payload : ℕ → ℕ → ℕ → Text → UserRole → TokenType → ℕ → Payload
user_payload now jti user_id email role token_type lifetime = record {
  sub = some user_id;
  user_id = some user_id;
  email = some email;
  role = some role;
  iat = some (now / 1000000);
  exp = some (expiry now lifetime);
  jti = some jti;
  token_type = token_type;
}

abbrev pub first_of : {A : Type 0} → Option A → Option A → Option A
first_of (some a) b = some a
first_of none b = b

abbrev pub or_consumer : Option UserRole → UserRole
or_consumer none = consumer
or_consumer (some r) = r

-- The claims, where none of those is missing that must be there.
abbrev pub claims : Option ℕ → Option Text → Option UserRole → Option ℕ → Option Claims
claims (some user_id) (some email) role (some exp) =
    some (record { user_id = user_id; role = or_consumer role; exp = exp })
claims _ _ _ _ = none

-- `jwt.decode` raises `ExpiredSignatureError`.
abbrev pub is_expired : ℕ → Option ℕ → Bool
is_expired now none = false
is_expired now (some exp) = leb (exp * 1000000) now

-- It raises `ImmatureSignatureError`.
abbrev pub is_immature : ℕ → Option ℕ → Bool
is_immature now none = false
is_immature now (some iat) = ltb now (iat * 1000000)

abbrev pub verify_payload : ℕ → TokenType → Option Payload → Option Claims
verify_payload now token_type none = none
verify_payload now token_type (some p) =
    if is_expired now p.exp || is_immature now p.iat
    then none
    else if same_type p.token_type token_type
    then claims (first_of p.sub p.user_id) p.email p.role p.exp
    else none

module _ (jwt : Jwt) where
  unfoldable pub create_access_token : ℕ → ℕ → ℕ → Text → UserRole → Text
  create_access_token now jti user_id email role =
      jwt.encode (user_payload now jti user_id email role access access_lifetime)

  unfoldable pub create_refresh_token : ℕ → ℕ → ℕ → Text → UserRole → Text
  create_refresh_token now jti user_id email role =
      jwt.encode (user_payload now jti user_id email role refresh refresh_lifetime)

  unfoldable pub create_email_verification_token : ℕ → ℕ → Text → Text
  create_email_verification_token now user_id email = jwt.encode (record {
    sub = none;
    user_id = some user_id;
    email = some email;
    role = none;
    iat = none;
    exp = some (expiry now verification_lifetime);
    jti = none;
    token_type = email_verification;
  })

  unfoldable pub verify_token : ℕ → Text → TokenType → Option Claims
  verify_token now token token_type = verify_payload now token_type (jwt.decode token)
