-- ===== src/Auth/TokenStore.antt =====
-- The token store (app/redis_client.py): Redis, and the dictionary of the process that stands in for
-- it while Redis cannot be reached. Redis is a parameter: `R` is its state, and a command takes the
-- time at which it runs. An expiry is an instant in microseconds. Stored tokens are not empty.
use di_wei_wei_nano_market.Prelude.{
  ℕ, ◌+◌, ◌-◌, ◌*◌, ◌/◌, ◌<◌, ◌≡◌, Bool, true, false, Option, none, some, ◌==◌, leb, if◌then◌else◌,
}
use di_wei_wei_nano_market.Prelude.Text.{codes}
use di_wei_wei_nano_market.Models.{Text}
use di_wei_wei_nano_market.Auth.Login.{same_text}

-- `refresh_token:{user_id}` and `blacklist:{token}`
pub data Key : Type 0 where
  refresh_token : ℕ → Key
  blacklist : Text → Key

abbrev pub same_key : Key → Key → Bool
same_key (refresh_token i) (refresh_token j) = i == j
same_key (blacklist s) (blacklist t) = same_text s t
same_key _ _ = false

-- A reading of the clock, and whether Redis answers at that time. The answer is the same for all
-- commands of one request.
pub record Moment : Type 0 where
  pub now : ℕ
  pub redis_up : Bool

-- The commands that the code uses, where Redis answers. Times to live are in seconds.
pub record Client (R : Type 0) : Type 0 where
  pub setex : R → ℕ → Key → ℕ → Text → R
  pub get : R → ℕ → Key → Option Text
  pub delete : R → ℕ → Key → R
  pub exists : R → ℕ → Key → Bool

-- What Redis documents: a key that is set has its value until its time to live is over, a deleted
-- key has none until it is set again, and commands on one key leave the others alone.
pub record IsRedis {R : Type 0} (client : Client R) : Type 0 where
  pub get-setex :
      (r : R) (now later : ℕ) (k : Key) (ttl : ℕ) (v : Text)
      → later < now + ttl * 1000000
      → client.get (client.setex r now k ttl v) later k ≡ some v
  pub get-setex_other :
      (r : R) (now later : ℕ) (k j : Key) (ttl : ℕ) (v : Text)
      → same_key k j ≡ false
      → client.get (client.setex r now k ttl v) later j ≡ client.get r later j
  pub exists-setex_other :
      (r : R) (now later : ℕ) (k j : Key) (ttl : ℕ) (v : Text)
      → same_key k j ≡ false
      → client.exists (client.setex r now k ttl v) later j ≡ client.exists r later j
  pub get-delete :
      (r : R) (now later : ℕ) (k : Key) → client.get (client.delete r now k) later k ≡ none

-- `_fallback_store`: values with their expiry.
abbrev pub Fallback : Type 0
Fallback = Key → Option (Text × ℕ)

abbrev pub put : Key → Option (Text × ℕ) → Fallback → Fallback
put k entry f j = if same_key k j then entry else f j

abbrev pub drop_expired : ℕ → Option (Text × ℕ) → Option (Text × ℕ)
drop_expired now none = none
drop_expired now (some (v, expires_at)) = if leb expires_at now then none else some (v, expires_at)

-- `_fallback_prune_expired`
abbrev pub prune : ℕ → Fallback → Fallback
prune now f k = drop_expired now (f k)

-- `_fallback_set`
abbrev pub fallback_set : ℕ → Key → Text → ℕ → Fallback → Fallback
fallback_set now k v ttl f =
    put k (if ttl == 0 then none else some (v, now + ttl * 1000000)) (prune now f)

abbrev pub value_of : Option (Text × ℕ) → Option Text
value_of none = none
value_of (some (v, _)) = some v

-- The entry of a live key with the whole seconds that it has left, at least one.
abbrev pub with_ttl : ℕ → Option (Text × ℕ) → Option (Text × ℕ)
with_ttl now none = none
with_ttl now (some (v, expires_at)) =
    let ttl = (expires_at - now) / 1000000 in if ttl == 0 then none else some (v, ttl)

-- The store that `_fallback_get_with_ttl` leaves: a key with less than a second left is dropped.
abbrev pub drop_if_none : Key → Option (Text × ℕ) → Fallback → Fallback
drop_if_none k none f = put k none f
drop_if_none k (some _) f = f

abbrev pub fallback_get_with_ttl : ℕ → Key → Fallback → Option (Text × ℕ) × Fallback
fallback_get_with_ttl now k f =
    let entry = with_ttl now (prune now f k) in (entry, drop_if_none k entry (prune now f))

pub record Store (R : Type 0) : Type 0 where
  pub redis : R
  pub fallback : Fallback

module _ {R : Type 0} (client : Client R) (m : Moment) where
  -- `client.setex(…)`, or `_fallback_set(…)` where Redis does not answer
  abbrev pub set_or_fall_back : Key → Text → ℕ → Store R → Store R
  set_or_fall_back k v ttl s =
      if m.redis_up
      then record s { redis = client.setex s.redis m.now k ttl v }
      else record s { fallback = fallback_set m.now k v ttl s.fallback }

  -- `_best_effort_resync_to_redis`
  abbrev pub resync : Key → Option (Text × ℕ) → R → R
  resync k none r = r
  resync k (some (v, ttl)) r = client.setex r m.now k ttl v

  -- The fallback's entry of a key that Redis does not have, copied to Redis.
  abbrev pub recover : Key → Store R → Option Text × Store R
  recover k s =
      let (entry, f) = fallback_get_with_ttl m.now k s.fallback in
      (value_of entry, record { redis = resync k entry s.redis; fallback = f })

  unfoldable pub store_refresh_token : ℕ → Text → ℕ → Store R → Store R
  store_refresh_token user_id token ttl = set_or_fall_back (refresh_token user_id) token ttl

  abbrev pub token_or_recover : Key → Option Text → Store R → Option Text × Store R
  token_or_recover k (some token) s = (some token, s)
  token_or_recover k none s = recover k s

  unfoldable pub get_refresh_token : ℕ → Store R → Option Text × Store R
  get_refresh_token user_id s =
      let k = refresh_token user_id in
      let (entry, f) = fallback_get_with_ttl m.now k s.fallback in
      if m.redis_up
      then token_or_recover k (client.get s.redis m.now k) s
      else (value_of entry, record s { fallback = f })

  unfoldable pub delete_refresh_token : ℕ → Store R → Store R
  delete_refresh_token user_id s = record {
    redis = if m.redis_up then client.delete s.redis m.now (refresh_token user_id) else s.redis;
    fallback = put (refresh_token user_id) none s.fallback;
  }

  unfoldable pub blacklist_token : Text → ℕ → Store R → Store R
  blacklist_token token ttl = set_or_fall_back (blacklist token) (codes "1") ttl

  abbrev pub has_value : Option Text → Bool
  has_value none = false
  has_value (some _) = true

  unfoldable pub is_token_blacklisted : Text → Store R → Bool × Store R
  is_token_blacklisted token s =
      let k = blacklist token in
      let (found, s') = recover k s in
      if m.redis_up
      then (if client.exists s.redis m.now k then (true, s) else (has_value found, s'))
      else (
        has_value (value_of (prune m.now s.fallback k)),
        record s { fallback = prune m.now s.fallback },
      )
