-- ===== src/Auth/Grace.antt =====
-- What a user who asked for the deletion of the account can still do.
use di_wei_wei_nano_market.Prelude.{
  ℕ, ◌+◌, ◌≤◌, ◌<◌, ◌≡◌, Option, none, some, inl, inr, find, arith, Option-cases, find-modify_self,
}
use di_wei_wei_nano_market.Models.{Db, User, Text}
use di_wei_wei_nano_market.Session.{
  Env, Result, ok, err, auth_error, gdpr, already_scheduled, request,
}
use di_wei_wei_nano_market.Auth.Deletion.{
  user_at, grace_period, schedule_deletion, keep_account, request_account_deletion,
  cancel_account_deletion,
}

abbrev pub Requested : Env → ℕ → Option Text → Db → Result ℕ × Db
Requested env i reason db = request (request_account_deletion env i reason) db

abbrev pub Cancelled : Env → ℕ → Db → Result (Unit {0}) × Db
Cancelled env i db = request (cancel_account_deletion env i) db

scheduled :
    (env : Env) (i : ℕ) (reason : Option Text) (db : Db) (d : ℕ)
    → (Requested env i reason db).0 ≡ ok d
    → (u : User) × (find (user_at i) db.users ≡ some u)
      × (u.deletion_requested_at ≡ none)
      × (d ≡ env.now + grace_period)
      × (find (user_at i) (Requested env i reason db).1.users
          ≡ some (schedule_deletion env reason u))
unfolding request_account_deletion
scheduled env i reason db d h = elim (Option-cases (find (user_at i) db.users)) [
  | inl missing ↦ absurd (ground arith)
  | inr (u, found) ↦
      let kept = find-modify_self (user_at i) (schedule_deletion env reason) db.users (λ _ p. p) in
      (u, found, ground arith, ground arith, ground arith)
]

cancelled :
    (env env' : Env) (i : ℕ) (reason : Option Text) (db' : Db) (u : User)
    → find (user_at i) db'.users ≡ some (schedule_deletion env reason u)
    → env'.now < env.now + grace_period
    → ((Cancelled env' i db').0 ≡ ok tt)
      × (find (user_at i) (Cancelled env' i db').1.users ≡ some (keep_account u))
unfolding cancel_account_deletion
cancelled env env' i reason db' u found soon =
    let kept = find-modify_self (user_at i) keep_account db'.users (λ _ p. p) in
    (ground arith, ground arith)

too_late :
    (env env' : Env) (i : ℕ) (reason : Option Text) (db' : Db) (u : User)
    → find (user_at i) db'.users ≡ some (schedule_deletion env reason u)
    → env.now + grace_period ≤ env'.now
    → Cancelled env' i db' ≡ (err (auth_error gdpr), db')
unfolding cancel_account_deletion
too_late env env' i reason db' u found late = ground arith

second_request :
    (env env' : Env) (i : ℕ) (reason reason' : Option Text) (db' : Db) (u : User)
    → find (user_at i) db'.users ≡ some (schedule_deletion env reason u)
    → Requested env' i reason' db' ≡ (err (auth_error already_scheduled), db')
unfolding request_account_deletion
second_request env env' i reason reason' db' u found = ground arith

-- A request for the deletion of an account that succeeds schedules it 30 days ahead, and a second
-- request is refused. Until then a cancellation succeeds, and the account is as before, but for its
-- status, which is active whatever it was before the request, and a cleared reason; from then on a
-- cancellation is refused. What is refused changes nothing.
pub deletion_grace :
    (env env' : Env) (i : ℕ) (reason reason' : Option Text) (db : Db) (d : ℕ)
    → (Requested env i reason db).0 ≡ ok d
    → let db' = (Requested env i reason db).1 in
      (u : User) × (find (user_at i) db.users ≡ some u)
      × (u.deletion_requested_at ≡ none)
      × (d ≡ env.now + grace_period)
      × (Requested env' i reason' db' ≡ (err (auth_error already_scheduled), db'))
      × (env'.now < d
          → ((Cancelled env' i db').0 ≡ ok tt)
            × (find (user_at i) (Cancelled env' i db').1.users ≡ some (keep_account u)))
      × (d ≤ env'.now → Cancelled env' i db' ≡ (err (auth_error gdpr), db'))
deletion_grace env env' i reason reason' db d h =
    let (u, found, fresh, date, stored) = scheduled env i reason db d h in
    let db' : Db = (Requested env i reason db).1 in
    (
      u,
      found,
      fresh,
      date,
      second_request env env' i reason reason' db' u stored,
      (λ soon. cancelled env env' i reason db' u stored (omega (arith, date, soon))),
      (λ late. too_late env env' i reason db' u stored (omega (arith, date, late))),
    )
