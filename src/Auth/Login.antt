-- ===== src/Auth/Login.antt =====
-- Logging in: `authenticate_user` and `record_failed_login` (app/modules/auth/service.py), and the
-- `login` endpoint (app/modules/auth/router.py). The tokens that a login issues, its audit entries
-- and the rate limit before it are left out.
use di_wei_wei_nano_market.Prelude.{
  ℕ, suc, ◌+◌, Bool, true, false, not, Option, none, some, [], ◌∷◌, ◌==◌, ◌&&◌, leb, ltb,
  if◌then◌else◌, find, modify, ◌≡◌, ◌≢◌, refl, sym, arith, inl, inr, Bool-cases,
}
use di_wei_wei_nano_market.Models.{User, UserStatus, Text}
use di_wei_wei_nano_market.Session.{
  Env, Action, Result, ok, err, Error, http_exception, auth_error, auth_detail, invalid_credentials,
  account_locked, not_verified, authentication, ◌>>=◌, ◌>>◌, pure, raise, gets, modify_db, raise_if,
  or_raise, commit,
}

abbrev pub same_text : Text → Text → Bool
same_text [] [] = true
same_text (c ∷ cs) (d ∷ ds) = (c == d) && same_text cs ds
same_text _ _ = false

pub same_text_refl : (t : Text) → same_text t t ≡ true
same_text_refl [] = refl
same_text_refl (c ∷ t) = ground (arith, same_text_refl t)

pub same_text-equal : (s t : Text) → same_text s t ≡ true → s ≡ t
same_text-equal [] [] h = refl
same_text-equal [] (d ∷ t) h = absurd (ground arith)
same_text-equal (c ∷ s) [] h = absurd (ground arith)
same_text-equal (c ∷ s) (d ∷ t) h =
    let rest = same_text-equal s t (ground arith) in ground (arith, rest)

pub other_text : (s t : Text) → s ≢ t → same_text t s ≡ false
other_text s t other = elim (Bool-cases (same_text t s)) [
  | inl same ↦ absurd (other (sym (same_text-equal t s same)))
  | inr differs ↦ differs
]

abbrev pub has_email : Text → User → Bool
has_email email u = same_text u.email email

-- `user.locked_until` is set and in the future.
abbrev pub is_locked : ℕ → Option ℕ → Bool
is_locked now none = false
is_locked now (some locked_until) = ltb now locked_until

abbrev pub in_grace_period : ℕ → Option ℕ → Option ℕ → Bool
in_grace_period now (some requested_at) (some scheduled_at) = ltb now scheduled_at
in_grace_period now _ _ = false

abbrev pub is_pending_deletion : ℕ → User → Bool
is_pending_deletion now u = in_grace_period now u.deletion_requested_at u.deletion_scheduled_at

abbrev pub is_active_status : UserStatus → Bool
is_active_status UserStatus.active = true
is_active_status _ = false

abbrev pub log_in : Env → User → User
log_in env u = record u { login_attempts = 0; locked_until = none; last_login = some env.now }

-- `settings.MAX_LOGIN_ATTEMPTS`, and `settings.ACCOUNT_LOCKOUT_DURATION_MINUTES` in microseconds
abbrev pub max_login_attempts : ℕ
max_login_attempts = 3

abbrev pub lockout_duration : ℕ
lockout_duration = 3600000000

abbrev pub fail_login : Env → User → User
fail_login env u = record u {
  login_attempts = suc u.login_attempts;
  locked_until =
      if leb max_login_attempts (suc u.login_attempts)
      then some (env.now + lockout_duration)
      else u.locked_until;
}

module _ (lower : Text → Text) (verify_password : Text → Text → Bool) where
  unfoldable pub authenticate_user : Env → Text → Text → Action User
  authenticate_user env email password = do
    found ← gets (λ db. find (has_email (lower email)) db.users)
    user ← or_raise found (auth_error invalid_credentials)
    raise_if (is_locked env.now user.locked_until) (auth_error account_locked)
    raise_if (not (verify_password password user.password_hash)) (auth_error invalid_credentials)
    raise_if (not user.email_verified) (auth_error not_verified)
    raise_if (not (is_active_status user.status) && not (is_pending_deletion env.now user))
        (auth_error authentication)
    modify_db (λ db. record db { users = modify (has_email (lower email)) (log_in env) db.users })
    commit
    pure (log_in env user)

  record_attempt : Env → Text → Option User → Action (Unit {0})
  record_attempt env email none = pure tt
  record_attempt env email (some user) = do
    modify_db
        (λ db. record db { users = modify (has_email (lower email)) (fail_login env) db.users })
    commit

  unfoldable pub record_failed_login : Env → Text → Action (Unit {0})
  unfolding record_attempt
  record_failed_login env email = do
    found ← gets (λ db. find (has_email (lower email)) db.users)
    record_attempt env email found

  -- The `except` clauses of the endpoint.
  handle_login_error : Env → Text → Error → Action User
  unfolding record_failed_login
  handle_login_error env email (auth_error account_locked) =
      raise (http_exception 403 (auth_detail account_locked))
  handle_login_error env email (auth_error not_verified) = do
    record_failed_login env email
    raise (http_exception 403 (auth_detail not_verified))
  handle_login_error env email (auth_error invalid_credentials) = do
    record_failed_login env email
    raise (http_exception 401 (auth_detail invalid_credentials))
  handle_login_error env email (auth_error problem) =
      raise (http_exception 403 (auth_detail problem))
  handle_login_error env email e = raise e

  finish_login : Env → Text → Result User → Action User
  unfolding handle_login_error
  finish_login env email (ok user) = pure user
  finish_login env email (err e) = handle_login_error env email e

  unfoldable pub login : Env → Text → Text → Action User
  unfolding authenticate_user finish_login
  login env email password s =
      let (r, s') = authenticate_user env email password s in finish_login env email r s'
