-- ===== src/Auth/Refresh.antt =====
-- The tokens of a login, `refresh_access_token` and `logout_user` (app/modules/auth/service.py). They read the database and
-- write the token store.
use di_wei_wei_nano_market.Prelude.{
  ℕ, ◌-◌, ◌*◌, ◌/◌, Bool, false, Option, none, some, ◌||◌, ltb, if◌then◌else◌, find,
}
use di_wei_wei_nano_market.Models.{Db, User, Text}
use di_wei_wei_nano_market.Session.{Result, ok, err, auth_error, authentication}
use di_wei_wei_nano_market.Auth.Login.{same_text, is_active_status, is_pending_deletion}
use di_wei_wei_nano_market.Auth.Deletion.{user_at}
use di_wei_wei_nano_market.Auth.TokenStore.{
  Client, Moment, Store, store_refresh_token, get_refresh_token, delete_refresh_token,
  blacklist_token, is_token_blacklisted,
}
use di_wei_wei_nano_market.Auth.Jwt.{
  Jwt, Claims, access, refresh, refresh_lifetime, create_access_token, create_refresh_token,
  verify_token,
}

-- `TokenResponse`
pub record TokenResponse : Type 0 where
  pub access_token : Text
  pub refresh_token : Text

abbrev pub same_token : Text → Option Text → Bool
same_token token none = false
same_token token (some stored) = same_text stored token

abbrev pub may_log_in : ℕ → User → Bool
may_log_in now u = is_active_status u.status || is_pending_deletion now u

abbrev pub active_user : ℕ → Option User → Option User
active_user now none = none
active_user now (some u) = if may_log_in now u then some u else none

-- The whole seconds until a token expires, 0 if it has expired.
abbrev pub remaining_ttl : ℕ → ℕ → ℕ
remaining_ttl now exp = (exp * 1000000 - now) / 1000000

module _ {R : Type 0} (client : Client R) (jwt : Jwt) (m : Moment) where
  unfoldable pub revoke : Text → ℕ → Store R → Store R
  revoke token exp s =
      if ltb 0 (remaining_ttl m.now exp)
      then blacklist_token client m token (remaining_ttl m.now exp) s
      else s

  -- The pair of tokens that `authenticate_user` returns to a user who has logged in.
  unfoldable pub issue_at_login : ℕ → ℕ → User → Store R → TokenResponse × Store R
  issue_at_login access_id refresh_id u s =
      let new = create_refresh_token jwt m.now refresh_id u.id u.email u.role in
      (
        record {
          access_token = create_access_token jwt m.now access_id u.id u.email u.role;
          refresh_token = new;
        },
        store_refresh_token client m u.id new refresh_lifetime s,
      )

  refuse : Store R → Result TokenResponse × Store R
  refuse s = (err (auth_error authentication), s)

  -- The rotation: a new pair of tokens, the ids of which are drawn from `uuid4`.
  issue : ℕ → ℕ → Text → Claims → User → Store R → Result TokenResponse × Store R
  unfolding revoke
  issue access_id refresh_id token c u s =
      let new = create_refresh_token jwt m.now refresh_id u.id u.email u.role in
      (
        ok (record {
          access_token = create_access_token jwt m.now access_id u.id u.email u.role;
          refresh_token = new;
        }),
        store_refresh_token client m u.id new refresh_lifetime (revoke token c.exp s),
      )

  issue_if : ℕ → ℕ → Text → Claims → Option User → Store R → Result TokenResponse × Store R
  unfolding issue refuse
  issue_if access_id refresh_id token c none s = refuse s
  issue_if access_id refresh_id token c (some u) s = issue access_id refresh_id token c u s

  -- With the claims of the token, if it is valid.
  refresh_with : ℕ → ℕ → Text → Db → Option Claims → Store R → Result TokenResponse × Store R
  unfolding issue_if
  refresh_with access_id refresh_id token db none s = refuse s
  refresh_with access_id refresh_id token db (some c) s =
      let (stored, s') = get_refresh_token client m c.user_id s in
      if same_token token stored
      then issue_if access_id refresh_id token c
          (active_user m.now (find (user_at c.user_id) db.users)) s'
      else refuse s'

  unfoldable pub refresh_access_token : ℕ → ℕ → Text → Db → Store R → Result TokenResponse × Store R
  unfolding refresh_with
  refresh_access_token access_id refresh_id token db s =
      let (revoked, s') = is_token_blacklisted client m token s in
      if revoked
      then refuse s'
      else refresh_with access_id refresh_id token db (verify_token jwt m.now token refresh) s'

  abbrev pub revoke_claimed : Text → Option Claims → Store R → Store R
  revoke_claimed token none s = s
  revoke_claimed token (some c) s = revoke token c.exp s

  unfoldable pub logout_user : ℕ → Text → Text → Store R → Store R
  logout_user user_id access_token refresh_token s =
      let s₁ = revoke_claimed access_token (verify_token jwt m.now access_token access) s in
      let s₂ = revoke_claimed refresh_token (verify_token jwt m.now refresh_token refresh) s₁ in
      delete_refresh_token client m user_id s₂
