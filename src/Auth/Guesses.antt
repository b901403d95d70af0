-- ===== src/Auth/Guesses.antt =====
-- Who gets in, and how many passwords an attacker can try.
use di_wei_wei_nano_market.Prelude.{
  ℕ, suc, ◌+◌, ◌-◌, ◌≤◌, ◌<◌, ◌≡◌, refl, inl, inr, Bool, true, false, Option, none, some, List, [],
  ◌∷◌, leb, ◌||◌, if◌then◌else◌, find, modify, max, All, arith, Option-cases, Bool-cases,
  find-modify_self,
}
use di_wei_wei_nano_market.Models.{Db, User, Text}
use di_wei_wei_nano_market.Session.{
  Env, Result, ok, err, http_exception, auth_detail, account_locked, invalid_credentials, request,
}
use di_wei_wei_nano_market.Auth.Login.{
  has_email, is_locked, is_active_status, is_pending_deletion, log_in, fail_login,
  max_login_attempts, lockout_duration, login,
}

-- Whether the answer is that the account is locked, so that the password was not looked at.
abbrev pub is_locked_out : Result User → Bool
is_locked_out (err (http_exception code (auth_detail account_locked))) = true
is_locked_out _ = false

module _ (lower : Text → Text) (verify_password : Text → Text → Bool) where
  abbrev pub LoggedIn : Env → Text → Text → Db → Result User × Db
  LoggedIn env email password db = request (login lower verify_password env email password) db

  -- A login succeeds only for the user with that email address, with a password that verifies, if
  -- the address is verified, no lock is in force, and the account is active or waits for its
  -- deletion. It resets the count of failures, and writes the row of that user only.
  pub login_sound :
      (env : Env) (email password : Text) (db : Db) (u : User)
      → (LoggedIn env email password db).0 ≡ ok u
      → (user : User) × (find (has_email (lower email)) db.users ≡ some user)
        × (verify_password password user.password_hash ≡ true)
        × (user.email_verified ≡ true)
        × (is_locked env.now user.locked_until ≡ false)
        × ((is_active_status user.status || is_pending_deletion env.now user) ≡ true)
        × (u ≡ log_in env user)
        × ((LoggedIn env email password db).1
            ≡ record db { users = modify (has_email (lower email)) (log_in env) db.users })
  unfolding login
  login_sound env email password db u h =
      elim (Option-cases (find (has_email (lower email)) db.users)) [
        | inl missing ↦ absurd (ground arith)
        | inr (user, found) ↦ (
          user,
          found,
          ground arith,
          ground arith,
          ground arith,
          ground arith,
          ground arith,
          ground arith,
        )
      ]

  locked_login :
      (env : Env) (email password : Text) (db : Db) (user : User)
      → find (has_email (lower email)) db.users ≡ some user
      → is_locked env.now user.locked_until ≡ true
      → LoggedIn env email password db ≡ (err (http_exception 403 (auth_detail account_locked)), db)
  unfolding login
  locked_login env email password db user found locked = ground arith

  wrong_password :
      (env : Env) (email password : Text) (db : Db) (user : User)
      → find (has_email (lower email)) db.users ≡ some user
      → is_locked env.now user.locked_until ≡ false
      → verify_password password user.password_hash ≡ false
      → LoggedIn env email password db ≡ (
        err (http_exception 401 (auth_detail invalid_credentials)),
        record db { users = modify (has_email (lower email)) (fail_login env) db.users },
      )
  unfolding login
  wrong_password env email password db user found unlocked wrong = ground arith

  -- How many attempts on one account are answered otherwise than that it is locked, one after the
  -- other.
  unfoldable pub guesses : Text → List (Env × Text) → Db → ℕ
  guesses email [] db = 0
  guesses email ((env, password) ∷ attempts) db =
      let (r, db') = LoggedIn env email password db in
      let rest = guesses email attempts db' in if is_locked_out r then rest else suc rest

  -- An attempt within an hour of `start`, with a password that does not verify.
  abbrev pub IsWrong : ℕ → Text → Env × Text → Type 0
  IsWrong start hash (env, password) =
      (start ≤ env.now)
      × (env.now < start + lockout_duration)
      × (verify_password password hash ≡ false)

  locked_guesses :
      (start until : ℕ) (email : Text) (attempts : List (Env × Text)) (db : Db) (user : User)
      → find (has_email (lower email)) db.users ≡ some user
      → user.locked_until ≡ some until
      → start + lockout_duration ≤ until
      → All (IsWrong start user.password_hash) attempts
      → guesses email attempts db ≡ 0
  unfolding guesses
  locked_guesses start until email [] db user found lock late h = refl
  locked_guesses start until email ((env, password) ∷ attempts) db user found lock late (h, hs) =
      ground (
        arith,
        locked_login env email password db user found (ground (arith, h)),
        locked_guesses start until email attempts db user found lock late hs,
      )

  still_free :
      (start now : ℕ) (lock : Option ℕ)
      → start ≤ now
      → is_locked start lock ≡ false
      → is_locked now lock ≡ false
  still_free start now none h free = refl
  still_free start now (some until) h free = ground arith

  found_failed :
      (env : Env) (email : Text) (db : Db) (user : User)
      → find (has_email email) db.users ≡ some user
      → find (has_email email) (modify (has_email email) (fail_login env) db.users)
        ≡ some (fail_login env user)
  found_failed env email db user found =
      ground (arith, find-modify_self (has_email email) (fail_login env) db.users (λ _ p. p))

  -- An account is found, and no lock is in force when the attack starts. Of the attempts with
  -- wrong passwords within an hour of the start, in whatever number, at most as many are compared
  -- with the password as the account has attempts left, or one if it has none left.
  pub guesses_bounded :
      (start : ℕ) (email : Text) (attempts : List (Env × Text)) (db : Db) (user : User)
      → find (has_email (lower email)) db.users ≡ some user
      → is_locked start user.locked_until ≡ false
      → All (IsWrong start user.password_hash) attempts
      → guesses email attempts db ≤ max 1 (max_login_attempts - user.login_attempts)
  unfolding guesses
  guesses_bounded start email [] db user found free h = omega arith
  guesses_bounded start email ((env, password) ∷ attempts) db user found free (h, hs) =
      let db' : Db = record db {
        users = modify (has_email (lower email)) (fail_login env) db.users;
      } in
      let there = found_failed env (lower email) db user found in
      let wrong =
        wrong_password env email password db user found
          (still_free start env.now user.locked_until h.0 free) h.2 in
      elim (Bool-cases (leb max_login_attempts (suc user.login_attempts))) [
        | inl last ↦ ground (
          arith,
          wrong,
          locked_guesses start (env.now + lockout_duration) email attempts db' (fail_login env user)
              there (ground arith) (omega (arith, h.0)) hs,
        )
        | inr more ↦ ground (
          arith,
          wrong,
          guesses_bounded start email attempts db' (fail_login env user) there (ground arith) hs,
        )
      ]
