-- ===== src/Auth/Accounts.antt =====
-- `register_user`, `verify_email_with_token` and `change_user_password`
-- (app/modules/auth/service.py). `lower` is `str.lower`; `hash_password` and `verify_password`
-- (password.py, on bcrypt) are parameters, the first one with the salt that it draws.
use di_wei_wei_nano_market.Prelude.{
  ℕ, Bool, true, false, not, Option, none, some, ◌∷◌, ◌||◌, any, find, modify,
}
use di_wei_wei_nano_market.Models.{User, UserStatus, UserRole, ConsentAudit, ConsentType, Text}
use di_wei_wei_nano_market.Session.{
  Env, Action, auth_error, integrity_error, authentication, user_exists, password_change, ◌>>=◌,
  ◌>>◌, pure, gets, modify_db, raise_if, or_raise, commit,
}
use di_wei_wei_nano_market.Auth.Validators.{
  validate_email, validate_username, validate_password_strength,
}
use di_wei_wei_nano_market.Auth.Login.{same_text, has_email}
use di_wei_wei_nano_market.Auth.Deletion.{user_at}
use di_wei_wei_nano_market.Auth.Jwt.{Jwt, email_verification, verify_token}

pub record UserRegister : Type 0 where
  pub email : Text
  pub username : Text
  pub first_name : Option Text
  pub last_name : Option Text
  pub bio : Option Text
  pub preferred_language : Text
  pub password : Text
  pub accept_terms : Bool
  pub accept_privacy : Bool

abbrev pub has_username : Text → User → Bool
has_username username u = same_text u.username username

-- The primary key and the two unique columns of `users`.
abbrev pub user_conflicts : User → User → Bool
user_conflicts u v = user_at u.id v || (has_email u.email v || has_username u.username v)

abbrev pub insert_user : User → Action (Unit {0})
insert_user u = do
  raise_if (← gets (λ db. any (user_conflicts u) db.users)) integrity_error
  modify_db (λ db. record db { users = u ∷ db.users })

abbrev pub consent : Env → ConsentType → ConsentAudit
consent env t = record {
  user_id = env.new_id;
  consent_type = t;
  accepted = true;
  timestamp = env.now;
}

abbrev pub new_user : Env → Text → Text → UserRegister → User
new_user env email password_hash q = record {
  id = env.new_id;
  email = email;
  username = q.username;
  password_hash = password_hash;
  first_name = q.first_name;
  last_name = q.last_name;
  bio = q.bio;
  company = none;
  job_title = none;
  phone = none;
  profile_avatar = none;
  preferred_language = q.preferred_language;
  status = UserStatus.active;
  role = UserRole.creator;
  email_verified = false;
  verified_at = none;
  login_attempts = 0;
  locked_until = none;
  last_login = none;
  accepted_terms = some env.now;
  accepted_privacy = some env.now;
  deletion_requested_at = none;
  deletion_scheduled_at = none;
  deletion_reason = none;
}

module _ (lower : Text → Text) (hash_password : ℕ → Text → Text) where
  unfoldable pub register_user : Env → ℕ → UserRegister → Action User
  register_user env salt q = do
    raise_if (not q.accept_terms) (auth_error authentication)
    raise_if (not q.accept_privacy) (auth_error authentication)
    raise_if (not (validate_email q.email)) (auth_error authentication)
    raise_if (not (validate_username q.username)) (auth_error authentication)
    raise_if (not (validate_password_strength q.password)) (auth_error authentication)
    raise_if (← gets (λ db. any (has_email (lower q.email)) db.users)) (auth_error user_exists)
    raise_if (← gets (λ db. any (has_username q.username) db.users)) (auth_error user_exists)
    let user = new_user env (lower q.email) (hash_password salt q.password) q
    insert_user user
    modify_db (λ db. record db {
      consent_audits =
          consent env ConsentType.privacy_policy
          ∷ consent env ConsentType.terms_of_service
          ∷ db.consent_audits;
    })
    commit
    pure user

abbrev pub verify_user : Env → User → User
verify_user env u = record u { email_verified = true; verified_at = some env.now }

unfoldable pub verify_email_with_token : Jwt → Env → Text → Action User
verify_email_with_token jwt env token = do
  c ← or_raise (verify_token jwt env.now token email_verification) (auth_error authentication)
  found ← gets (λ db. find (user_at c.user_id) db.users)
  user ← or_raise found (auth_error authentication)
  modify_db (λ db. record db { users = modify (user_at c.user_id) (verify_user env) db.users })
  commit
  pure (verify_user env user)

module _ (hash_password : ℕ → Text → Text) (verify_password : Text → Text → Bool) where
  abbrev pub set_password : ℕ → Text → User → User
  set_password salt password u = record u { password_hash = hash_password salt password }

  unfoldable pub change_user_password : ℕ → ℕ → Text → Text → Action (Unit {0})
  change_user_password salt user_id current new = do
    found ← gets (λ db. find (user_at user_id) db.users)
    user ← or_raise found (auth_error authentication)
    raise_if (not (verify_password current user.password_hash)) (auth_error password_change)
    raise_if (not (validate_password_strength new)) (auth_error authentication)
    modify_db
        (λ db. record db { users = modify (user_at user_id) (set_password salt new) db.users })

  -- The endpoint (app/modules/auth/router.py), without its audit entry and without the status of its
  -- answer to an error.
  unfoldable pub change_my_password : ℕ → ℕ → Text → Text → Action (Unit {0})
  change_my_password salt user_id current new = do
    change_user_password salt user_id current new
    commit
