-- ===== src/Tests/Tokens.antt =====
-- A store of keys and a signature that keep the laws, and a user who refreshes, logs out and comes
-- back during an outage.
use di_wei_wei_nano_market.Prelude.{
  ℕ, ◌+◌, ◌*◌, ◌<◌, ◌≡◌, ◌≢◌, refl, Bool, true, false, Option, none, some, [], ◌∷◌, ◌==◌,
  if◌then◌else◌, arith,
}
use di_wei_wei_nano_market.Models.{Db, UserRole, Text}
use di_wei_wei_nano_market.Session.{ok, err, auth_error, authentication}
use di_wei_wei_nano_market.Auth.Login.{same_text_refl}
use di_wei_wei_nano_market.Auth.TokenStore.{
  Key, same_key, refresh_token, blacklist, Moment, Client, IsRedis, Fallback, put, drop_expired,
  value_of, Store, get_refresh_token, is_token_blacklisted,
}
use di_wei_wei_nano_market.Auth.Jwt.{
  TokenType, access, refresh, email_verification, Payload, Jwt, IsJwt, Claims, create_refresh_token,
  create_access_token, verify_token, user_payload, refresh_lifetime,
}
use di_wei_wei_nano_market.Auth.Refresh.{TokenResponse, issue_at_login, refresh_access_token}
use di_wei_wei_nano_market.Auth.Rotation.{Refreshed, refresh_once}
use di_wei_wei_nano_market.Auth.Renewal.{session_renewed}
use di_wei_wei_nano_market.Auth.Outage.{refresh_replayed}
use di_wei_wei_nano_market.Auth.Logout.{LoggedOut, logout_revokes}
use di_wei_wei_nano_market.Tests.Data.{market}
use di_wei_wei_nano_market.Tests.Intruder.{user}

abbrev is_there : Option Text → Bool
is_there none = false
is_there (some _) = true

-- A store of keys with their expiry.
abbrev pub keys : Client Fallback
keys = record {
  setex = λ r now k ttl v. put k (some (v, now + ttl * 1000000)) r;
  get = λ r now k. value_of (drop_expired now (r k));
  delete = λ r now k. put k none r;
  exists = λ r now k. is_there (value_of (drop_expired now (r k)));
}

same_key_refl : (k : Key) → same_key k k ≡ true
same_key_refl (refresh_token i) = ground arith
same_key_refl (blacklist t) = same_text_refl t

keys-set :
    (r : Fallback) (now later : ℕ) (k : Key) (ttl : ℕ) (v : Text)
    → later < now + ttl * 1000000
    → keys.get (keys.setex r now k ttl v) later k ≡ some v
keys-set r now later k ttl v soon = ground (arith, same_key_refl k)

keys-other :
    (r : Fallback) (now later : ℕ) (k j : Key) (ttl : ℕ) (v : Text)
    → same_key k j ≡ false
    → keys.get (keys.setex r now k ttl v) later j ≡ keys.get r later j
keys-other r now later k j ttl v other = rw other refl

keys-others_exist :
    (r : Fallback) (now later : ℕ) (k j : Key) (ttl : ℕ) (v : Text)
    → same_key k j ≡ false
    → keys.exists (keys.setex r now k ttl v) later j ≡ keys.exists r later j
keys-others_exist r now later k j ttl v other = rw other refl

keys-deleted :
    (r : Fallback) (now later : ℕ) (k : Key) → keys.get (keys.delete r now k) later k ≡ none
keys-deleted r now later k = rw (same_key_refl k) refl

keys-IsRedis : IsRedis keys
keys-IsRedis = record {
  get-setex = keys-set;
  get-setex_other = keys-other;
  exists-setex_other = keys-others_exist;
  get-delete = keys-deleted;
}

-- A token that is signed by being the payload, field by field.
abbrev flag : {A : Type 0} → Option A → ℕ
flag none = 0
flag (some _) = 1

abbrev number : Option ℕ → ℕ
number none = 0
number (some n) = n

abbrev text : Option Text → Text
text none = []
text (some t) = t

abbrev optional : {A : Type 0} → ℕ → A → Option A
optional f a = if f == 0 then none else some a

abbrev role_code : Option UserRole → ℕ
role_code none = 0
role_code (some UserRole.consumer) = 1
role_code (some UserRole.creator) = 2
role_code (some UserRole.moderator) = 3
role_code (some UserRole.admin) = 4

abbrev role_of : ℕ → Option UserRole
role_of n =
    if n == 1
    then some UserRole.consumer
    else if n == 2
    then some UserRole.creator
    else if n == 3
    then some UserRole.moderator
    else if n == 4
    then some UserRole.admin
    else none

abbrev type_code : TokenType → ℕ
type_code access = 0
type_code refresh = 1
type_code email_verification = 2

abbrev type_of : ℕ → TokenType
type_of n = if n == 0 then access else if n == 1 then refresh else email_verification

abbrev sign : Payload → Text
sign p =
    flag p.sub
    ∷ number p.sub
    ∷ flag p.user_id
    ∷ number p.user_id
    ∷ role_code p.role
    ∷ flag p.iat
    ∷ number p.iat
    ∷ flag p.exp
    ∷ number p.exp
    ∷ flag p.jti
    ∷ number p.jti
    ∷ type_code p.token_type
    ∷ flag p.email
    ∷ text p.email

abbrev read : Text → Option Payload
read (fs ∷ s ∷ fu ∷ u ∷ r ∷ fi ∷ i ∷ fx ∷ x ∷ fj ∷ j ∷ t ∷ fe ∷ e) = some (record {
  sub = optional fs s;
  user_id = optional fu u;
  email = optional fe e;
  role = role_of r;
  iat = optional fi i;
  exp = optional fx x;
  jti = optional fj j;
  token_type = type_of t;
})
read _ = none

abbrev pub signed : Jwt
signed = record { encode = sign; decode = read }

optional-number : (o : Option ℕ) → optional (flag o) (number o) ≡ o
optional-number none = refl
optional-number (some n) = refl

optional-text : (o : Option Text) → optional (flag o) (text o) ≡ o
optional-text none = refl
optional-text (some t) = refl

role-code : (o : Option UserRole) → role_of (role_code o) ≡ o
role-code none = refl
role-code (some UserRole.consumer) = refl
role-code (some UserRole.creator) = refl
role-code (some UserRole.moderator) = refl
role-code (some UserRole.admin) = refl

type-code : (t : TokenType) → type_of (type_code t) ≡ t
type-code access = refl
type-code refresh = refl
type-code email_verification = refl

read-sign : (p : Payload) → read (sign p) ≡ some p
read-sign p =
    rw
      (
        optional-number p.sub,
        optional-number p.user_id,
        role-code p.role,
        optional-number p.iat,
        optional-number p.exp,
        optional-number p.jti,
        type-code p.token_type,
        optional-text p.email,
      )
      refl

pub signed-IsJwt : IsJwt signed
signed-IsJwt = record { decode-encode = read-sign }

-- The token of the user since the instant 0, with the id 70.
abbrev first_token : Text
first_token = signed.encode (user_payload 0 70 3 user.email user.role refresh refresh_lifetime)

abbrev members : Db
members = record market { users = user ∷ [] }

-- Redis has the token; the process has nothing.
abbrev session : Store Fallback
session = record {
  redis = λ k. if same_key (refresh_token 3) k then some (first_token, 604800000000) else none;
  fallback = λ k. none;
}

abbrev up : ℕ → Moment
up now = record { now = now; redis_up = true }

abbrev down : ℕ → Moment
down now = record { now = now; redis_up = false }

abbrev pair : ℕ → ℕ → ℕ → TokenResponse
pair now a b = record {
  access_token = create_access_token signed now a 3 user.email user.role;
  refresh_token = create_refresh_token signed now b 3 user.email user.role;
}

refreshes :
    (Refreshed keys signed (up 5000000) 71 72 first_token members session).0
    ≡ ok (pair 5000000 71 72)
unfolding refresh_access_token is_token_blacklisted verify_token get_refresh_token
refreshes = refl

other_id : (p : Payload) → signed.decode first_token ≡ some p → p.jti ≢ some 72
other_id p h e = ground arith

refresh_once_example :
    (Refreshed keys signed
      (up 6000000)
      73
      74
      first_token
      members
      (Refreshed keys signed (up 5000000) 71 72 first_token members session).1).0
    ≡ err (auth_error authentication)
refresh_once_example =
    refresh_once keys signed keys-IsRedis signed-IsJwt (up 5000000) (up 6000000) 71 72 73 74
      first_token members members session (pair 5000000 71 72) refreshes other_id refl
      (ground arith)

abbrev nothing : Store Fallback
nothing = record { redis = λ k. none; fallback = λ k. none }

abbrev login_store : Store Fallback
login_store = (issue_at_login keys signed (up 1000000) 75 76 user nothing).1

abbrev login_token : Text
login_token = (issue_at_login keys signed (up 1000000) 75 76 user nothing).0.refresh_token

session_renewed_example :
    let (r, s₁) = issue_at_login keys signed (up 1000000) 75 76 user nothing in
    let (o, s₂) = Refreshed keys signed (up 5000000) 71 72 r.refresh_token members s₁ in
    (o ≡ ok (pair 5000000 71 72))
    × ((Refreshed keys signed (up 9000000) 73 74 (pair 5000000 71 72).refresh_token members s₂).0
        ≡ ok (pair 9000000 73 74))
session_renewed_example =
    session_renewed keys signed keys-IsRedis signed-IsJwt (up 1000000) (up 5000000) (up 9000000) 75
      76 71 72 73 74 user user user members members nothing refl refl (ground arith) (ground arith)
      (ground arith) (ground arith) (ground arith) (refl, refl) (refl, refl) refl refl

-- The process has the token too, from an outage when it was made.
abbrev doubled : Store Fallback
doubled = record session {
  fallback = λ k. if same_key (refresh_token 3) k then some (first_token, 604800000000) else none;
}

abbrev claimed : Claims
claimed = record { user_id = 3; role = UserRole.consumer; exp = 604800 }

refreshes_doubled :
    (Refreshed keys signed (up 5000000) 71 72 first_token members doubled).0
    ≡ ok (pair 5000000 71 72)
unfolding refresh_access_token is_token_blacklisted verify_token get_refresh_token
refreshes_doubled = refl

claims_token :
    (now : ℕ) → now < 604800000000 → verify_token signed now first_token refresh ≡ some claimed
unfolding verify_token
claims_token now h = ground arith

refresh_replayed_example :
    (r : TokenResponse) × ((Refreshed keys signed
        (down 9000000)
        73
        74
        first_token
        members
        (Refreshed keys signed (up 5000000) 71 72 first_token members doubled).1).0
      ≡ ok r)
refresh_replayed_example =
    refresh_replayed keys signed (up 5000000) (down 9000000) 71 72 73 74 first_token 604800000000
      members doubled (pair 5000000 71 72) claimed user refreshes_doubled refl refl (ground arith)
      refl (claims_token 9000000 (ground arith)) refl refl (ground arith)

logout_revokes_example :
    (Refreshed keys signed
      (down 9000000)
      73
      74
      first_token
      members
      (LoggedOut keys signed (up 5000000) 3 first_token first_token session)).0
    ≡ err (auth_error authentication)
logout_revokes_example =
    logout_revokes keys signed keys-IsRedis (up 5000000) (down 9000000) 73 74 first_token
      first_token members session claimed (claims_token 5000000 (ground arith)) (ground arith)
      (ground arith)
