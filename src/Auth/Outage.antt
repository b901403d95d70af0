-- ===== src/Auth/Outage.antt =====
-- What an outage of Redis does to the rotation of refresh tokens.
use di_wei_wei_nano_market.Prelude.{
  ℕ, ◌+◌, ◌≤◌, ◌≡◌, ap, sym, ◌∙◌, true, false, none, some, arith, find, Option-cases, inl, inr,
}
use di_wei_wei_nano_market.Models.{Db, User, Text}
use di_wei_wei_nano_market.Session.{ok}
use di_wei_wei_nano_market.Auth.Login.{same_text_refl}
use di_wei_wei_nano_market.Auth.Deletion.{user_at}
use di_wei_wei_nano_market.Auth.TokenStore.{
  Client, Moment, Store, Key, store_refresh_token, get_refresh_token, is_token_blacklisted,
  refresh_token, blacklist, blacklist_token,
}
use di_wei_wei_nano_market.Auth.Jwt.{
  Jwt, Claims, refresh, verify_token, create_access_token, create_refresh_token,
}
use di_wei_wei_nano_market.Auth.Refresh.{TokenResponse, active_user, revoke, refresh_access_token}
use di_wei_wei_nano_market.Auth.Rotation.{refreshed, verify-same_claims, Refreshed}

module _ {R : Type 0} (client : Client R) (jwt : Jwt) where
  -- While Redis answers, a key that the process does not have stays unknown to it.
  pub look-unknown :
      (m : Moment) (t : Text) (k : Key) (s : Store R)
      → m.redis_up ≡ true
      → s.fallback k ≡ none
      → (is_token_blacklisted client m t s).1.fallback k ≡ none
  unfolding is_token_blacklisted
  look-unknown m t k s up h = ground arith

  get-unknown :
      (m : Moment) (i : ℕ) (k : Key) (s : Store R)
      → m.redis_up ≡ true
      → s.fallback k ≡ none
      → (get_refresh_token client m i s).1.fallback k ≡ none
  unfolding get_refresh_token
  get-unknown m i k s up h = ground arith

  -- And an entry with a second left stays.
  look-held :
      (m : Moment) (t : Text) (i : ℕ) (v : Text) (e : ℕ) (s : Store R)
      → m.redis_up ≡ true
      → s.fallback (refresh_token i) ≡ some (v, e)
      → m.now + 1000000 ≤ e
      → (is_token_blacklisted client m t s).1.fallback (refresh_token i) ≡ some (v, e)
  unfolding is_token_blacklisted
  look-held m t i v e s up h live = ground arith

  get-held :
      (m : Moment) (i : ℕ) (v : Text) (e : ℕ) (s : Store R)
      → m.redis_up ≡ true
      → s.fallback (refresh_token i) ≡ some (v, e)
      → m.now + 1000000 ≤ e
      → (get_refresh_token client m i s).1.fallback (refresh_token i) ≡ some (v, e)
  unfolding get_refresh_token
  get-held m i v e s up h live = ground arith

  -- While Redis answers, a rotation writes to Redis only.
  rotation_redis :
      (m : Moment) (a b : ℕ) (t : Text) (db : Db) (s : Store R) (r : TokenResponse) (c : Claims)
      → m.redis_up ≡ true
      → (Refreshed client jwt m a b t db s).0 ≡ ok r
      → verify_token jwt m.now t refresh ≡ some c
      → (Refreshed client jwt m a b t db s).1.fallback
        ≡ (get_refresh_token client m c.user_id (is_token_blacklisted client m t s).1).1.fallback
  unfolding refresh_access_token revoke blacklist_token store_refresh_token
  rotation_redis m a b t db s r c up h valid =
      elim (Option-cases (active_user m.now (find (user_at c.user_id) db.users))) [
        | inl inactive ↦ absurd (ground arith)
        | inr (u, active) ↦ ground arith
      ]

  -- Without Redis, a live token of the process that is not on its blacklist is accepted.
  accepted_down :
      (m : Moment) (a b : ℕ) (t : Text) (e : ℕ) (db : Db) (s : Store R) (c : Claims) (u : User)
      → m.redis_up ≡ false
      → s.fallback (blacklist t) ≡ none
      → verify_token jwt m.now t refresh ≡ some c
      → active_user m.now (find (user_at c.user_id) db.users) ≡ some u
      → s.fallback (refresh_token c.user_id) ≡ some (t, e)
      → m.now + 1000000 ≤ e
      → (r : TokenResponse) × ((Refreshed client jwt m a b t db s).0 ≡ ok r)
  unfolding refresh_access_token is_token_blacklisted get_refresh_token
  accepted_down m a b t e db s c u down clear valid active held live = (
    record {
      access_token = create_access_token jwt m.now a u.id u.email u.role;
      refresh_token = create_refresh_token jwt m.now b u.id u.email u.role;
    },
    ground (arith, same_text_refl t),
  )

  -- A token that was stored in the process while Redis did not answer is accepted again: once Redis
  -- answers, a refresh replaces it there only, and when Redis does not answer once more, the process
  -- still has it.
  pub refresh_replayed :
      (m m' : Moment) (a b a' b' : ℕ) (t : Text) (expires_at : ℕ) (db : Db) (s : Store R)
      (r : TokenResponse) (c : Claims) (u : User)
      → (Refreshed client jwt m a b t db s).0 ≡ ok r
      → m.redis_up ≡ true
      → m'.redis_up ≡ false
      → m.now ≤ m'.now
      → s.fallback (blacklist t) ≡ none
      → verify_token jwt m'.now t refresh ≡ some c
      → active_user m'.now (find (user_at c.user_id) db.users) ≡ some u
      → s.fallback (refresh_token c.user_id) ≡ some (t, expires_at)
      → m'.now + 1000000 ≤ expires_at
      → (r' : TokenResponse) × ((Refreshed client jwt m' a' b' t db
            (Refreshed client jwt m a b t db s).1).0
          ≡ ok r')
  refresh_replayed m m' a b a' b' t expires_at db s r c u h up down later clear valid active held
        live =
      let (c₀, u₀, s₀, valid₀, act₀, st₀, new₀, left₀) = refreshed client jwt m a b t db s r h in
      let same : c ≡ c₀ = verify-same_claims client jwt m.now m'.now t c₀ c valid₀ valid in
      let left = rotation_redis m a b t db s r c up h (valid₀ ∙ ap (λ x. some x) (sym same)) in
      let i = c.user_id in
      let s₁ = (is_token_blacklisted client m t s).1 in
      let clear₁ = look-unknown m t (blacklist t) s up clear in
      let held₁ = look-held m t i t expires_at s up held (omega arith) in
      let clear₂ = get-unknown m i (blacklist t) s₁ up clear₁ in
      let held₂ = get-held m i t expires_at s₁ up held₁ (omega arith) in
      accepted_down m' a' b' t expires_at db (Refreshed client jwt m a b t db s).1 c u down
        (ap (λ f. f (blacklist t)) left ∙ clear₂) valid active
        (ap (λ f. f (refresh_token i)) left ∙ held₂) live
