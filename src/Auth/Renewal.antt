-- ===== src/Auth/Renewal.antt =====
-- A session that is renewed.
use di_wei_wei_nano_market.Prelude.{
  ◌≢◌, false, ℕ, ◌+◌, ◌*◌, ◌≤◌, ◌<◌, ◌≡◌, ap, sym, ◌∙◌, inl, inr, some, arith, find, Bool-cases,
}
use di_wei_wei_nano_market.Models.{Db, User, Text}
use di_wei_wei_nano_market.Session.{ok}
use di_wei_wei_nano_market.Auth.Login.{same_text_refl}
use di_wei_wei_nano_market.Auth.Deletion.{user_at}
use di_wei_wei_nano_market.Auth.TokenStore.{
  Client, IsRedis, Moment, Store, store_refresh_token, get_refresh_token, is_token_blacklisted,
  refresh_token, prune,
}
use di_wei_wei_nano_market.Auth.Jwt.{
  Jwt, IsJwt, Claims, refresh, refresh_lifetime, expiry, user_payload, create_access_token,
  create_refresh_token, verify_token,
}
use di_wei_wei_nano_market.Auth.Refresh.{
  revoke, TokenResponse, active_user, issue_at_login, refresh_access_token,
}
use di_wei_wei_nano_market.Auth.Rotation.{
  Refreshed, passed-redis, passed-fallback, get_up, get_down,
}
use di_wei_wei_nano_market.Auth.Unlisted.{
  IsUnlisted, unlisted_passes, store_keeps, look_keeps, get_keeps, revoke_keeps,
}

module _ {R : Type 0} (client : Client R) (jwt : Jwt) where
  -- The pair of tokens of a user.
  abbrev pub pair_of : Moment → ℕ → ℕ → User → TokenResponse
  pair_of m a b u = record {
    access_token = create_access_token jwt m.now a u.id u.email u.role;
    refresh_token = create_refresh_token jwt m.now b u.id u.email u.role;
  }

  -- A token of a user that is stored is found, until a second before it expires.
  stored_value :
      IsRedis client
      → (m m' : Moment) (i : ℕ) (t new : Text) (s : Store R) → m'.redis_up ≡ m.redis_up
      → m'.now + 1000000 ≤ m.now + refresh_lifetime * 1000000
      → let s' = store_refresh_token client m i new refresh_lifetime s in
        (is_token_blacklisted client m' t s').0 ≡ false
        → (get_refresh_token client m' i (is_token_blacklisted client m' t s').1).0 ≡ some new
  unfolding store_refresh_token
  stored_value law m m' i t new s same soon h = elim (Bool-cases m.redis_up) [
    | inl up ↦
        let s' = store_refresh_token client m i new refresh_lifetime s in
        let known =
          law.get-setex s.redis m.now m'.now (refresh_token i) refresh_lifetime new (omega arith) in
        let here : client.get s'.redis m'.now (refresh_token i) ≡ some new =
          ground (arith, known) in
        get_up client jwt m' i new (is_token_blacklisted client m' t s').1 (ground arith) (
          ap (λ r. client.get r m'.now (refresh_token i))
            (passed-redis client jwt m' t s' (ground arith) h)
          ∙ here)
    | inr down ↦
        let s' = store_refresh_token client m i new refresh_lifetime s in
        let kept = passed-fallback client jwt m' t s' (ground arith) in
        let got = get_down client jwt m' i (is_token_blacklisted client m' t s').1 (ground arith) in
        let here = ap (λ f. prune m'.now f (refresh_token i)) kept in ground (arith, got, here)
  ]

  token_claims :
      IsJwt jwt
      → (m m' : Moment) (b : ℕ) (u : User) → m.now ≤ m'.now
      → m'.now < expiry m.now refresh_lifetime * 1000000
      → verify_token jwt m'.now (create_refresh_token jwt m.now b u.id u.email u.role) refresh
        ≡ some (record { user_id = u.id; role = u.role; exp = expiry m.now refresh_lifetime })
  unfolding verify_token create_refresh_token
  token_claims signed m m' b u later soon = rw (signed.decode-encode _) (ground arith)

  -- The token that is stored for an active user is accepted.
  stored_accepted :
      (m : Moment) (a b : ℕ) (t : Text) (db : Db) (s : Store R) (c : Claims) (v : User)
      → (is_token_blacklisted client m t s).0 ≡ false
      → verify_token jwt m.now t refresh ≡ some c
      → (get_refresh_token client m c.user_id (is_token_blacklisted client m t s).1).0 ≡ some t
      → active_user m.now (find (user_at c.user_id) db.users) ≡ some v
      → (Refreshed client jwt m a b t db s).0 ≡ ok (pair_of m a b v)
  unfolding refresh_access_token
  stored_accepted m a b t db s c v passed valid stored active = ground (arith, same_text_refl t)

  issued_accepted :
      IsRedis client
      → IsJwt jwt
      → (m m' : Moment) (b a' b' : ℕ) (u v : User) (db : Db) (s : Store R)
      → m'.redis_up ≡ m.redis_up
      → m.now ≤ m'.now
      → m'.now + 1000000 ≤ expiry m.now refresh_lifetime * 1000000
      → let t = create_refresh_token jwt m.now b u.id u.email u.role in
        let s' = store_refresh_token client m u.id t refresh_lifetime s in
        (is_token_blacklisted client m' t s').0 ≡ false
        → active_user m'.now (find (user_at u.id) db.users) ≡ some v
        → (Refreshed client jwt m' a' b' t db s').0 ≡ ok (pair_of m' a' b' v)
  issued_accepted law signed m m' b a' b' u v db s same later soon passed active =
      let t = create_refresh_token jwt m.now b u.id u.email u.role in
      let s' = store_refresh_token client m u.id t refresh_lifetime s in
      stored_accepted m' a' b' t db s' _ v passed (token_claims signed m m' b u later (omega arith))
        (stored_value law m m' u.id t t s same (omega arith) passed) active

  -- What a refresh of the token that is stored for an active user leaves.
  stored_rotation :
      (m : Moment) (a b : ℕ) (t : Text) (db : Db) (s : Store R) (c : Claims) (v : User)
      → (is_token_blacklisted client m t s).0 ≡ false
      → verify_token jwt m.now t refresh ≡ some c
      → (get_refresh_token client m c.user_id (is_token_blacklisted client m t s).1).0 ≡ some t
      → active_user m.now (find (user_at c.user_id) db.users) ≡ some v
      → (Refreshed client jwt m a b t db s).1
        ≡ store_refresh_token client m v.id (pair_of m a b v).refresh_token refresh_lifetime (
            revoke client jwt m t c.exp
              (get_refresh_token client m c.user_id (is_token_blacklisted client m t s).1).1)
  unfolding refresh_access_token
  stored_rotation m a b t db s c v passed valid stored active = ground (arith, same_text_refl t)

  -- Tokens with different ids differ.
  tokens_differ :
      IsJwt jwt
      → (m m' : Moment) (b b' : ℕ) (u v : User) → b ≢ b'
      → create_refresh_token jwt m.now b u.id u.email u.role
        ≢ create_refresh_token jwt m'.now b' v.id v.email v.role
  unfolding create_refresh_token
  tokens_differ signed m m' b b' u v fresh e =
      let p = user_payload m.now b u.id u.email u.role refresh refresh_lifetime in
      let p' = user_payload m'.now b' v.id v.email v.role refresh refresh_lifetime in
      let same = sym (signed.decode-encode p) ∙ ap jwt.decode e ∙ signed.decode-encode p' in
      fresh (ground (arith, same))

  -- Redis answers, or does not, at all three times alike. A user logs in, and comes back twice with
  -- the newest refresh token, each time at least a second before it expires, while the account is
  -- active. The two tokens have different ids, and before the login the token store did not have
  -- either on its blacklist. Both refreshes succeed, each with a new pair of tokens for the account
  -- as it is then.
  pub session_renewed :
      IsRedis client
      → IsJwt jwt
      → (m m' m'' : Moment) (a b a' b' a'' b'' : ℕ) (u v w : User) (db' db'' : Db) (s : Store R)
      → m'.redis_up ≡ m.redis_up
      → m''.redis_up ≡ m'.redis_up
      → m.now ≤ m'.now
      → m'.now ≤ m''.now
      → m'.now + 1000000 ≤ expiry m.now refresh_lifetime * 1000000
      → m''.now + 1000000 ≤ expiry m'.now refresh_lifetime * 1000000
      → b ≢ b'
      → let (r, s₁) = issue_at_login client jwt m a b u s in
        let (o, s₂) = Refreshed client jwt m' a' b' r.refresh_token db' s₁ in
        let t' = (pair_of m' a' b' v).refresh_token in
        IsUnlisted client jwt s m'.now r.refresh_token
        → IsUnlisted client jwt s m''.now t'
        → active_user m'.now (find (user_at u.id) db'.users) ≡ some v
        → active_user m''.now (find (user_at v.id) db''.users) ≡ some w
        → (o ≡ ok (pair_of m' a' b' v))
          × ((Refreshed client jwt m'' a'' b'' t' db'' s₂).0 ≡ ok (pair_of m'' a'' b'' w))
  unfolding issue_at_login
  session_renewed law signed m m' m'' a b a' b' a'' b'' u v w db' db'' s same same' later later'
        soon soon' fresh clear clear' active active' =
      let t = create_refresh_token jwt m.now b u.id u.email u.role in
      let t' = (pair_of m' a' b' v).refresh_token in
      let s₁ = store_refresh_token client m u.id t refresh_lifetime s in
      let passed =
        unlisted_passes client jwt m' t s₁
          (store_keeps client jwt law m u.id refresh_lifetime m'.now t t s clear) in
      let known = token_claims signed m m' b u later (omega arith) in
      let stored = stored_value law m m' u.id t t s same (omega arith) passed in
      let left = stored_rotation m' a' b' t db' s₁ _ v passed known stored active in
      let looked = (is_token_blacklisted client m' t s₁).1 in
      let got = (get_refresh_token client m' u.id looked).1 in
      let s' = revoke client jwt m' t (expiry m.now refresh_lifetime) got in
      let clear₁ = store_keeps client jwt law m u.id refresh_lifetime m''.now t' t s clear' in
      let clear₂ = look_keeps client jwt m' t t' m''.now s₁ passed clear₁ in
      let clear₃ = get_keeps client jwt law m' u.id m''.now t' looked clear₂ in
      let differ = tokens_differ signed m m' b b' u v fresh in
      let clear₄ =
        revoke_keeps client jwt law m' t t' (expiry m.now refresh_lifetime) m''.now got differ
          clear₃ in
      let passed' =
        unlisted_passes client jwt m'' t'
          (store_refresh_token client m' v.id t' refresh_lifetime s')
          (store_keeps client jwt law m' v.id refresh_lifetime m''.now t' t' s' clear₄) in
      (
        stored_accepted m' a' b' t db' s₁ _ v passed known stored active,
        rw left (
            issued_accepted law signed m' m'' b' a'' b'' v w db'' s' same' later' soon' passed'
              active'),
      )
