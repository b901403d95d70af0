-- ===== src/Auth/Rotation.antt =====
-- A refresh token is good for one refresh.
use di_wei_wei_nano_market.Prelude.{
  ℕ, ◌+◌, ◌*◌, ◌<◌, ◌≡◌, ◌≢◌, refl, ap, sym, ◌∙◌, inl, inr, true, false, some, arith, find,
  find-sat, Option-cases, Bool-cases,
}
use di_wei_wei_nano_market.Models.{Db, User, Text}
use di_wei_wei_nano_market.Session.{Result, ok, err, auth_error, authentication}
use di_wei_wei_nano_market.Auth.Login.{other_text}
use di_wei_wei_nano_market.Auth.Deletion.{user_at}
use di_wei_wei_nano_market.Auth.TokenStore.{
  Client, IsRedis, Moment, Store, store_refresh_token, get_refresh_token, is_token_blacklisted,
  refresh_token, blacklist, prune, with_ttl, value_of,
}
use di_wei_wei_nano_market.Auth.Jwt.{
  Jwt, IsJwt, Payload, Claims, refresh, refresh_lifetime, create_refresh_token, verify_token,
  user_payload,
}
use di_wei_wei_nano_market.Auth.Refresh.{
  TokenResponse, same_token, active_user, revoke, refresh_access_token,
}

module _ {R : Type 0} (client : Client R) (jwt : Jwt) where
  abbrev pub Refreshed : Moment → ℕ → ℕ → Text → Db → Store R → Result TokenResponse × Store R
  Refreshed m access_id refresh_id token db s =
      refresh_access_token client jwt m access_id refresh_id token db s

  -- What a refresh that succeeds found, and what it leaves in the store.
  pub refreshed :
      (m : Moment) (a b : ℕ) (t : Text) (db : Db) (s : Store R) (r : TokenResponse)
      → (Refreshed m a b t db s).0 ≡ ok r
      → (c : Claims) × (u : User) × (s' : Store R) × (verify_token jwt m.now t refresh ≡ some c)
        × (active_user m.now (find (user_at c.user_id) db.users) ≡ some u)
        × (same_token t
              (get_refresh_token client m c.user_id (is_token_blacklisted client m t s).1).0
            ≡ true)
        × (r.refresh_token ≡ create_refresh_token jwt m.now b u.id u.email u.role)
        × ((Refreshed m a b t db s).1
            ≡ store_refresh_token client m u.id r.refresh_token refresh_lifetime s')
  unfolding refresh_access_token
  refreshed m a b t db s r h = elim (Option-cases (verify_token jwt m.now t refresh)) [
    | inl invalid ↦ absurd (ground arith)
    | inr (c, valid) ↦ elim (Option-cases (active_user m.now (find (user_at c.user_id) db.users))) [
      | inl inactive ↦ absurd (ground arith)
      | inr (u, active) ↦ (
        c,
        u,
        revoke client jwt m t c.exp
            (get_refresh_token client m c.user_id (is_token_blacklisted client m t s).1).1,
        valid,
        active,
        ground arith,
        ground arith,
        ground arith,
      )
    ]
  ]

  pub verify-same_claims :
      (now later : ℕ) (t : Text) (c c' : Claims)
      → verify_token jwt now t refresh ≡ some c
      → verify_token jwt later t refresh ≡ some c'
      → c' ≡ c
  unfolding verify_token
  verify-same_claims now later t c c' h h' = elim (Option-cases (jwt.decode t)) [
    | inl forged ↦ absurd (ground arith)
    | inr (p, signed) ↦ ground arith
  ]

  pub verify-same_user :
      (now later : ℕ) (t : Text) (c c' : Claims)
      → verify_token jwt now t refresh ≡ some c
      → verify_token jwt later t refresh ≡ some c'
      → c'.user_id ≡ c.user_id
  verify-same_user now later t c c' h h' =
      ap (λ x. x.user_id) (verify-same_claims now later t c c' h h')

  active-id :
      (now i : ℕ) (db : Db) (u : User)
      → active_user now (find (user_at i) db.users) ≡ some u
      → u.id ≡ i
  active-id now i db u h = elim (Option-cases (find (user_at i) db.users)) [
    | inl missing ↦ absurd (ground arith)
    | inr (v, found) ↦ ground (arith, find-sat (user_at i) db.users found)
  ]

  -- A look at the blacklist that lets a token pass leaves Redis alone.
  pub passed-redis :
      (m : Moment) (t : Text) (s : Store R)
      → m.redis_up ≡ true
      → (is_token_blacklisted client m t s).0 ≡ false
      → (is_token_blacklisted client m t s).1.redis ≡ s.redis
  unfolding is_token_blacklisted
  passed-redis m t s up h =
      elim (Option-cases (with_ttl m.now (prune m.now s.fallback (blacklist t)))) [
        | inl none_ ↦ ground arith
        | inr ((v, ttl), some_) ↦ ground arith
      ]

  pub passed-fallback :
      (m : Moment) (t : Text) (s : Store R)
      → m.redis_up ≡ false
      → (is_token_blacklisted client m t s).1.fallback ≡ prune m.now s.fallback
  unfolding is_token_blacklisted
  passed-fallback m t s down = ground arith

  pub get_up :
      (m : Moment) (i : ℕ) (v : Text) (s : Store R)
      → m.redis_up ≡ true
      → client.get s.redis m.now (refresh_token i) ≡ some v
      → (get_refresh_token client m i s).0 ≡ some v
  unfolding get_refresh_token
  get_up m i v s up h = ground arith

  pub get_down :
      (m : Moment) (i : ℕ) (s : Store R)
      → m.redis_up ≡ false
      → (get_refresh_token client m i s).0
        ≡ value_of (with_ttl m.now (prune m.now s.fallback (refresh_token i)))
  unfolding get_refresh_token
  get_down m i s down = ground arith

  -- The token that is stored for a user is the one that stands for the user afterwards, also after a
  -- look at the blacklist that lets another token pass.
  stored_token :
      IsRedis client
      → (m m' : Moment) (i : ℕ) (t new : Text) (s : Store R) → m'.redis_up ≡ m.redis_up
      → m'.now < m.now + refresh_lifetime * 1000000
      → t ≢ new
      → let s' = store_refresh_token client m i new refresh_lifetime s in
        (is_token_blacklisted client m' t s').0 ≡ false
        → same_token t (get_refresh_token client m' i (is_token_blacklisted client m' t s').1).0
          ≡ false
  unfolding store_refresh_token get_refresh_token is_token_blacklisted
  stored_token law m m' i t new s same soon other h = elim (Bool-cases m.redis_up) [
    | inl up ↦
        let s' = store_refresh_token client m i new refresh_lifetime s in
        let known =
          law.get-setex s.redis m.now m'.now (refresh_token i) refresh_lifetime new soon in
        let here : client.get s'.redis m'.now (refresh_token i) ≡ some new =
          ground (arith, known) in
        let got = get_up m' i new (is_token_blacklisted client m' t s').1 (ground arith) (
          ap (λ r. client.get r m'.now (refresh_token i)) (passed-redis m' t s' (ground arith) h)
          ∙ here) in
        ground (arith, got, other_text t new other)
    | inr down ↦
        let s' = store_refresh_token client m i new refresh_lifetime s in
        let kept = passed-fallback m' t s' (ground arith) in
        let got = get_down m' i (is_token_blacklisted client m' t s').1 (ground arith) in
        let here = ap (λ f. prune m'.now f (refresh_token i)) kept in
        ground (arith, got, here, other_text t new other)
  ]

  -- A token that is not the one stored for its user is refused.
  pub stale_refused :
      (m : Moment) (a b : ℕ) (t : Text) (db : Db) (s : Store R)
      → ((c : Claims)
          → verify_token jwt m.now t refresh ≡ some c
          → (is_token_blacklisted client m t s).0 ≡ false
          → same_token t
              (get_refresh_token client m c.user_id (is_token_blacklisted client m t s).1).0
            ≡ false)
      → (Refreshed m a b t db s).0 ≡ err (auth_error authentication)
  unfolding refresh_access_token
  stale_refused m a b t db s stale = elim (Bool-cases (is_token_blacklisted client m t s).0) [
    | inl revoked ↦ ground arith
    | inr passed ↦ elim (Option-cases (verify_token jwt m.now t refresh)) [
      | inl invalid ↦ ground arith
      | inr (c, valid) ↦ ground (arith, stale c valid passed)
    ]
  ]

  pub fresh_token :
      IsJwt jwt
      → (now b i : ℕ) (t : Text) (u : User)
      → ((p : Payload) → jwt.decode t ≡ some p → p.jti ≢ some b)
      → t ≢ create_refresh_token jwt now b i u.email u.role
  unfolding create_refresh_token
  fresh_token signed now b i t u fresh same =
      fresh (user_payload now b i u.email u.role refresh refresh_lifetime)
        (ap jwt.decode same ∙ signed.decode-encode _) refl

  -- Redis answers, or does not, at both times alike, and the new token has an id that the old one
  -- does not have. A refresh token that was accepted is refused when it comes again, as the next use
  -- of the token store, while the token that replaced it lives, whatever happened to the accounts.
  pub refresh_once :
      IsRedis client
      → IsJwt jwt
      → (m m' : Moment) (a b a' b' : ℕ) (t : Text) (db db' : Db) (s : Store R) (r : TokenResponse)
      → (Refreshed m a b t db s).0 ≡ ok r
      → ((p : Payload) → jwt.decode t ≡ some p → p.jti ≢ some b)
      → m'.redis_up ≡ m.redis_up
      → m'.now < m.now + refresh_lifetime * 1000000
      → (Refreshed m' a' b' t db' (Refreshed m a b t db s).1).0 ≡ err (auth_error authentication)
  refresh_once law signed m m' a b a' b' t db db' s r h fresh same soon =
      let (c, u, s', valid, active, stored, new, left) = refreshed m a b t db s r h in
      let id = active-id m.now c.user_id db u active in
      let other : t ≢ r.refresh_token = λ e. fresh_token signed m.now b u.id t u fresh (e ∙ new) in
      rw left (
        stale_refused m' a' b' t db'
          (store_refresh_token client m u.id r.refresh_token refresh_lifetime s')
          λ c' valid' passed.
            rw (verify-same_user m.now m'.now t c c' valid valid' ∙ sym id)
              (stored_token law m m' u.id t r.refresh_token s' same soon other passed))
