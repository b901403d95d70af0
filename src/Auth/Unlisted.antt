-- ===== src/Auth/Unlisted.antt =====
-- A token that the token store (app/redis_client.py) does not have on its blacklist stays off it while
-- the store serves others.
use di_wei_wei_nano_market.Prelude.{
  ◌≢◌, refl, false, none, Option-cases, ℕ, ◌≡◌, ap, sym, ◌∙◌, inl, inr, arith, Bool-cases,
}
use di_wei_wei_nano_market.Prelude.Text.{codes}
use di_wei_wei_nano_market.Models.{Text}
use di_wei_wei_nano_market.Auth.Login.{other_text, same_text}
use di_wei_wei_nano_market.Auth.TokenStore.{
  blacklist, blacklist_token, with_ttl, Client, IsRedis, Moment, Store, store_refresh_token,
  get_refresh_token, is_token_blacklisted, refresh_token, prune,
}
use di_wei_wei_nano_market.Auth.Jwt.{Jwt}
use di_wei_wei_nano_market.Auth.Refresh.{revoke, remaining_ttl}
use di_wei_wei_nano_market.Auth.Rotation.{passed-redis}

module _ {R : Type 0} (client : Client R) (jwt : Jwt) where
  -- Neither the process nor Redis, at a later time, has the token on its blacklist.
  abbrev pub IsUnlisted : Store R → ℕ → Text → Type 0
  IsUnlisted s later t =
      (s.fallback (blacklist t) ≡ none) × (client.exists s.redis later (blacklist t) ≡ false)

  pub unlisted_passes :
      (m : Moment) (t : Text) (s : Store R)
      → IsUnlisted s m.now t
      → (is_token_blacklisted client m t s).0 ≡ false
  unfolding is_token_blacklisted
  unlisted_passes m t s (unknown, absent) = elim (Bool-cases m.redis_up) [
    | inl up ↦ ground arith
    | inr down ↦ ground arith
  ]

  pub store_keeps :
      IsRedis client
      → (m : Moment) (i ttl later : ℕ) (t new : Text) (s : Store R) → IsUnlisted s later t
      → IsUnlisted (store_refresh_token client m i new ttl s) later t
  unfolding store_refresh_token
  store_keeps law m i ttl later t new s (unknown, absent) =
      let other =
        law.exists-setex_other s.redis m.now later (refresh_token i) (blacklist t) ttl new refl in
      (ground arith, ground (arith, other))

  look_fallback :
      (m : Moment) (t t' : Text) (s : Store R)
      → s.fallback (blacklist t') ≡ none
      → (is_token_blacklisted client m t s).1.fallback (blacklist t') ≡ none
  unfolding is_token_blacklisted
  look_fallback m t t' s unknown = ground arith

  look_down :
      (m : Moment) (t : Text) (s : Store R)
      → m.redis_up ≡ false
      → (is_token_blacklisted client m t s).1.redis ≡ s.redis
  unfolding is_token_blacklisted
  look_down m t s down = ground arith

  pub look_keeps :
      (m : Moment) (t t' : Text) (later : ℕ) (s : Store R)
      → (is_token_blacklisted client m t s).0 ≡ false
      → IsUnlisted s later t'
      → IsUnlisted (is_token_blacklisted client m t s).1 later t'
  look_keeps m t t' later s passed (unknown, absent) = elim (Bool-cases m.redis_up) [
    | inl up ↦
        let left = passed-redis client jwt m t s up passed in
        (
          look_fallback m t t' s unknown,
          ap (λ r. client.exists r later (blacklist t')) left ∙ absent,
        )
    | inr down ↦ (
      look_fallback m t t' s unknown,
      ap (λ r. client.exists r later (blacklist t')) (look_down m t s down) ∙ absent,
    )
  ]

  pub get_keeps :
      IsRedis client
      → (m : Moment) (i later : ℕ) (t : Text) (s : Store R) → IsUnlisted s later t
      → IsUnlisted (get_refresh_token client m i s).1 later t
  unfolding get_refresh_token
  get_keeps law m i later t s (unknown, absent) = elim (Bool-cases m.redis_up) [
    | inl up ↦ elim (Option-cases (client.get s.redis m.now (refresh_token i))) [
      | inl missing ↦
          elim (Option-cases (with_ttl m.now (prune m.now s.fallback (refresh_token i)))) [
            | inl gone ↦ (ground arith, ground arith)
            | inr ((v, ttl), held) ↦
                let other =
                  law.exists-setex_other s.redis m.now later (refresh_token i) (blacklist t) ttl v
                    refl in
                (ground arith, ground (arith, other))
          ]
      | inr (v, there) ↦ (ground arith, ground arith)
    ]
    | inr down ↦ (ground arith, ground arith)
  ]

  pub revoke_keeps :
      IsRedis client
      → (m : Moment) (t t' : Text) (exp later : ℕ) (s : Store R) → t ≢ t'
      → IsUnlisted s later t'
      → IsUnlisted (revoke client jwt m t exp s) later t'
  unfolding revoke blacklist_token
  revoke_keeps law m t t' exp later s different (unknown, absent) =
      let differs : same_text t t' ≡ false = other_text t' t (λ e. different (sym e)) in
      elim (Bool-cases m.redis_up) [
        | inl up ↦
            let other =
              law.exists-setex_other s.redis m.now later (blacklist t) (blacklist t')
                (remaining_ttl m.now exp) (codes "1") differs in
            (ground arith, ground (arith, other))
        | inr down ↦ (ground arith, ground arith)
      ]
