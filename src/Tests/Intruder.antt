-- ===== src/Tests/Intruder.antt =====
-- A user with a verified address, and somebody who guesses the password.
use di_wei_wei_nano_market.Prelude.{
  ◌-◌, ◌+◌, ◌≤◌, ◌<◌, ◌≡◌, ◌||◌, refl, Bool, true, false, none, some, List, [], ◌∷◌, arith, find,
  modify, max,
}
use di_wei_wei_nano_market.Models.{Db, User, UserStatus, UserRole, Text}
use di_wei_wei_nano_market.Session.{Env, ok, err, auth_error, gdpr, already_scheduled}
use di_wei_wei_nano_market.Auth.Login.{
  has_email, is_locked, is_active_status, is_pending_deletion, log_in, login, same_text,
  max_login_attempts,
}
use di_wei_wei_nano_market.Auth.Guesses.{LoggedIn, guesses, login_sound, guesses_bounded}
use di_wei_wei_nano_market.Auth.Deletion.{
  user_at, grace_period, keep_account, request_account_deletion,
}
use di_wei_wei_nano_market.Auth.Grace.{Requested, Cancelled, deletion_grace}
use di_wei_wei_nano_market.Tests.Data.{env, market, hello}

-- Every password stands for itself, and case does not matter.
abbrev pub plain : Text → Text → Bool
plain password hash = same_text password hash

abbrev pub keep : Text → Text
keep t = t

abbrev wrong : Text
wrong = 73 ∷ []

abbrev pub user : User
user = record {
  id = 3;
  email = hello;
  username = hello;
  password_hash = hello;
  first_name = none;
  last_name = none;
  bio = none;
  company = none;
  job_title = none;
  phone = none;
  profile_avatar = none;
  preferred_language = hello;
  status = UserStatus.active;
  role = UserRole.consumer;
  email_verified = true;
  verified_at = some 10;
  login_attempts = 1;
  locked_until = none;
  last_login = none;
  accepted_terms = some 1;
  accepted_privacy = some 1;
  deletion_requested_at = none;
  deletion_scheduled_at = none;
  deletion_reason = none;
}

abbrev accounts : Db
accounts = record market { users = user ∷ [] }

logged_in : (LoggedIn keep plain env hello hello accounts).0 ≡ ok (log_in env user)
unfolding login
logged_in = refl

login_sound_example :
    (found : User) × (find (has_email hello) accounts.users ≡ some found)
    × (plain hello found.password_hash ≡ true)
    × (found.email_verified ≡ true)
    × (is_locked 5000 found.locked_until ≡ false)
    × ((is_active_status found.status || is_pending_deletion 5000 found) ≡ true)
    × (log_in env user ≡ log_in env found)
    × ((LoggedIn keep plain env hello hello accounts).1
        ≡ record accounts { users = modify (has_email hello) (log_in env) accounts.users })
login_sound_example = login_sound keep plain env hello hello accounts (log_in env user) logged_in

abbrev attempts : List (Env × Text)
attempts =
    (env, wrong) ∷ (record env { now = 6000 }, wrong) ∷ (record env { now = 7000 }, wrong) ∷ []

three_attempts : guesses keep plain hello attempts accounts ≡ 2
unfolding guesses login
three_attempts = refl

guesses_bounded_example :
    guesses keep plain hello attempts accounts ≤ max 1 (max_login_attempts - 1)
guesses_bounded_example = guesses_bounded keep plain 5000 hello attempts accounts user refl refl (
  (ground arith, ground arith, refl),
  ((ground arith, ground arith, refl), ((ground arith, ground arith, refl), tt)),
)

-- A suspended user who asks for the deletion of the account, and thinks better of it.
abbrev suspended : User
suspended = record user { status = UserStatus.suspended }

abbrev later : Env
later = record env { now = 6000 }

abbrev leaving : Db
leaving = record market { users = suspended ∷ [] }

asks_to_leave : (Requested env 3 none leaving).0 ≡ ok 2592000005000
unfolding request_account_deletion
asks_to_leave = refl

deletion_grace_example :
    let db' = (Requested env 3 none leaving).1 in
    (u : User) × (find (user_at 3) leaving.users ≡ some u)
    × (u.deletion_requested_at ≡ none)
    × (2592000005000 ≡ 5000 + grace_period)
    × (Requested later 3 none db' ≡ (err (auth_error already_scheduled), db'))
    × (6000 < 2592000005000
        → ((Cancelled later 3 db').0 ≡ ok tt)
          × (find (user_at 3) (Cancelled later 3 db').1.users ≡ some (keep_account u)))
    × (2592000005000 ≤ 6000 → Cancelled later 3 db' ≡ (err (auth_error gdpr), db'))
deletion_grace_example = deletion_grace env later 3 none none leaving 2592000005000 asks_to_leave
