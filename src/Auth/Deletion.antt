-- ===== src/Auth/Deletion.antt =====
-- The deletion of an account with its grace period: `request_account_deletion` and
-- `cancel_account_deletion` (app/modules/auth/gdpr.py).
use di_wei_wei_nano_market.Prelude.{
  ℕ, ◌+◌, Bool, true, false, Option, none, some, ◌==◌, leb, find, modify,
}
use di_wei_wei_nano_market.Models.{User, UserStatus, Text}
use di_wei_wei_nano_market.Session.{
  Env, Action, auth_error, gdpr, already_scheduled, ◌>>=◌, ◌>>◌, pure, gets, modify_db, raise_if,
  or_raise, commit,
}

abbrev pub user_at : ℕ → User → Bool
user_at i u = u.id == i

-- `grace_period_days = 30`, in microseconds
abbrev pub grace_period : ℕ
grace_period = 2592000000000

abbrev pub schedule_deletion : Env → Option Text → User → User
schedule_deletion env reason u = record u {
  deletion_requested_at = some env.now;
  deletion_scheduled_at = some (env.now + grace_period);
  deletion_reason = reason;
  status = UserStatus.inactive;
}

abbrev pub keep_account : User → User
keep_account u = record u {
  deletion_requested_at = none;
  deletion_scheduled_at = none;
  deletion_reason = none;
  status = UserStatus.active;
}

abbrev pub is_set : Option ℕ → Bool
is_set none = false
is_set (some _) = true

-- The answer: the time of the deletion.
unfoldable pub request_account_deletion : Env → ℕ → Option Text → Action ℕ
request_account_deletion env user_id reason = do
  found ← gets (λ db. find (user_at user_id) db.users)
  user ← or_raise found (auth_error gdpr)
  raise_if (is_set user.deletion_requested_at) (auth_error already_scheduled)
  modify_db
      (λ db. record db { users = modify (user_at user_id) (schedule_deletion env reason) db.users })
  commit
  pure (env.now + grace_period)

unfoldable pub cancel_account_deletion : Env → ℕ → Action (Unit {0})
cancel_account_deletion env user_id = do
  found ← gets (λ db. find (user_at user_id) db.users)
  user ← or_raise found (auth_error gdpr)
  requested_at ← or_raise user.deletion_requested_at (auth_error gdpr)
  scheduled_at ← or_raise user.deletion_scheduled_at (auth_error gdpr)
  raise_if (leb scheduled_at env.now) (auth_error gdpr)
  modify_db (λ db. record db { users = modify (user_at user_id) keep_account db.users })
  commit
