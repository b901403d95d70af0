-- ===== src/Auth/Logout.antt =====
-- A logout revokes the refresh token.
use di_wei_wei_nano_market.Prelude.{
  ℕ, ◌+◌, ◌*◌, ◌≤◌, ◌<◌, ◌≡◌, ap, ◌∙◌, true, false, none, some, arith, Bool-cases, inl, inr,
}
use di_wei_wei_nano_market.Prelude.Text.{codes}
use di_wei_wei_nano_market.Models.{Db, Text}
use di_wei_wei_nano_market.Session.{err, auth_error, authentication}
use di_wei_wei_nano_market.Auth.Login.{same_text_refl}
use di_wei_wei_nano_market.Auth.TokenStore.{
  Client, IsRedis, Moment, Store, get_refresh_token, is_token_blacklisted, blacklist_token,
  delete_refresh_token, refresh_token, blacklist, prune,
}
use di_wei_wei_nano_market.Auth.Jwt.{Jwt, Claims, refresh, verify_token}
use di_wei_wei_nano_market.Auth.Refresh.{remaining_ttl, revoke, logout_user}
use di_wei_wei_nano_market.Auth.Rotation.{
  Refreshed, verify-same_user, passed-redis, passed-fallback, get_down, stale_refused,
}
use di_wei_wei_nano_market.Auth.Outage.{look-unknown}

module _ {R : Type 0} (client : Client R) (jwt : Jwt) where
  abbrev pub LoggedOut : Moment → ℕ → Text → Text → Store R → Store R
  LoggedOut m i access_token t s = logout_user client jwt m i access_token t s

  forgotten :
      (m : Moment) (i : ℕ) (x t : Text) (s : Store R)
      → (LoggedOut m i x t s).fallback (refresh_token i) ≡ none
  unfolding logout_user delete_refresh_token
  forgotten m i x t s = ground arith

  deleted :
      IsRedis client
      → (m : Moment) (i : ℕ) (x t : Text) (later : ℕ) (s : Store R) → m.redis_up ≡ true
      → client.get (LoggedOut m i x t s).redis later (refresh_token i) ≡ none
  unfolding logout_user delete_refresh_token
  deleted law m i x t later s up = rw up (law.get-delete _ m.now later (refresh_token i))

  listed :
      (m : Moment) (i : ℕ) (x t : Text) (s : Store R) (c : Claims)
      → m.redis_up ≡ false
      → verify_token jwt m.now t refresh ≡ some c
      → 0 < remaining_ttl m.now c.exp
      → (LoggedOut m i x t s).fallback (blacklist t)
        ≡ some (codes "1", m.now + remaining_ttl m.now c.exp * 1000000)
  unfolding logout_user delete_refresh_token revoke blacklist_token
  listed m i x t s c down valid left = ground (arith, same_text_refl t)

  listed_refused :
      (m : Moment) (t v : Text) (e : ℕ) (s : Store R)
      → m.redis_up ≡ true
      → s.fallback (blacklist t) ≡ some (v, e)
      → m.now + 1000000 ≤ e
      → (is_token_blacklisted client m t s).0 ≡ true
  unfolding is_token_blacklisted
  listed_refused m t v e s up held live = ground (arith, same_text_refl t)

  get_nowhere :
      (m : Moment) (i : ℕ) (s : Store R)
      → m.redis_up ≡ true
      → client.get s.redis m.now (refresh_token i) ≡ none
      → s.fallback (refresh_token i) ≡ none
      → (get_refresh_token client m i s).0 ≡ none
  unfolding get_refresh_token
  get_nowhere m i s up gone unknown = ground arith

  -- A user logs out with a valid refresh token. Up to two seconds before the token expires, a refresh
  -- with it that follows as the next use of the token store is refused, whether Redis answers or not
  -- at either time.
  pub logout_revokes :
      IsRedis client
      → (m m' : Moment) (a b : ℕ) (x t : Text) (db : Db) (s : Store R) (c : Claims)
      → verify_token jwt m.now t refresh ≡ some c
      → m'.now + 2000000 ≤ c.exp * 1000000
      → m.now ≤ m'.now
      → (Refreshed client jwt m' a b t db (LoggedOut m c.user_id x t s)).0
        ≡ err (auth_error authentication)
  logout_revokes law m m' a b x t db s c valid soon later =
      let s' = LoggedOut m c.user_id x t s in
      let unknown = forgotten m c.user_id x t s in
      stale_refused client jwt m' a b t db s' λ c' valid' passed.
        rw (verify-same_user client jwt m.now m'.now t c c' valid valid')
          (elim (Bool-cases m'.redis_up) [
            | inr down ↦
                let kept =
                  ap (λ f. prune m'.now f (refresh_token c.user_id))
                    (passed-fallback client jwt m' t s' down) in
                ground (
                  arith,
                  get_down client jwt m' c.user_id (is_token_blacklisted client m' t s').1 down,
                )
            | inl up ↦ elim (Bool-cases m.redis_up) [
              | inl was_up ↦ ground (
                arith,
                get_nowhere m' c.user_id (is_token_blacklisted client m' t s').1 up
                    (ap (λ r. client.get r m'.now (refresh_token c.user_id))
                        (passed-redis client jwt m' t s' up passed)
                      ∙ deleted law m c.user_id x t m'.now s was_up)
                    (look-unknown client jwt m' t (refresh_token c.user_id) s' up unknown),
              )
              | inr was_down ↦
                  let held = listed m c.user_id x t s c was_down valid (omega arith) in
                  absurd
                    (ground (arith, listed_refused m' t (codes "1") _ s' up held (omega arith)))
            ]
          ])
