-- ===== src/Auth/Strength.antt =====
-- How password policy and password score agree.
use Prim.Native.Nat.{min}
use di_wei_wei_nano_market.Prelude.{
  ℕ, ◌≤◌, ◌≡◌, ◌≢◌, ◌⊎◌, inl, inr, Bool-cases, Bool, true, false, [], ◌∷◌, not, leb, length, any,
  arith, ap, sym, refl,
}
use di_wei_wei_nano_market.Models.{Text}
use di_wei_wei_nano_market.Auth.Validators.{
  calculate_password_strength, validate_password_strength, raw_score, strength_of, weak, fair,
  points, length_score, is_lower, is_upper, is_digit, is_special, has_common, has_repeating,
}

points-le : (b : Bool) (n : ℕ) → points b n ≤ n
points-le b n = ground arith

length_score-le : (n : ℕ) → length_score n ≤ 40
length_score-le n = ground arith

length_score-ge : (n : ℕ) → leb 8 n ≡ true → 20 ≤ length_score n
length_score-ge n h = ground arith

raw_score-le : (lower : Text → Text) (t : Text) → raw_score lower t ≤ 100
raw_score-le lower t = omega (
  arith,
  length_score-le (length t),
  points-le (any is_lower t) 10,
  points-le (any is_upper t) 10,
  points-le (any is_digit t) 10,
  points-le (any is_special t) 10,
  points-le (not (has_common lower t)) 10,
  points-le (not (has_repeating t)) 10,
)

-- The policy gives points for the length and for three kinds of characters.
raw_score-ge :
    (lower : Text → Text) (t : Text) → validate_password_strength t ≡ true → 50 ≤ raw_score lower t
unfolding validate_password_strength
raw_score-ge lower t h =
    let long : leb 8 (length t) ≡ true = ground arith in
    let upper : any is_upper t ≡ true = ground arith in
    let digit : any is_digit t ≡ true = ground arith in
    let special : any is_special t ≡ true = ground arith in
    rw (upper, digit, special) (omega (arith, length_score-ge (length t) long))

not_low : (n : ℕ) → 50 ≤ n → (strength_of n ≢ weak) × (strength_of n ≢ fair)
not_low n h = (ground arith, ground arith)

abbrev Scored : (Text → Text) → Text → Type 0
Scored lower password =
    let r = calculate_password_strength lower password in
    (r.score ≤ 100)
    × (r.strength ≡ strength_of r.score)
    × (r.meets_policy ≡ validate_password_strength password)
    × ((r.meets_policy ≡ false) ⊎ ((50 ≤ r.score) × (r.strength ≢ weak) × (r.strength ≢ fair)))

-- The score of a password is at most 100 and gives its label, and it tells whether the password meets
-- the policy. A password that meets the policy scores 50 at least: it is labelled neither weak nor fair.
pub password_rated : (lower : Text → Text) (password : Text) → Scored lower password
unfolding calculate_password_strength validate_password_strength
password_rated lower [] = ground arith
password_rated lower (c ∷ cs) =
    let top = raw_score-le lower (c ∷ cs) in
    let same : min (raw_score lower (c ∷ cs)) 100 ≡ raw_score lower (c ∷ cs) = omega arith in
    (
      omega arith,
      ap strength_of (sym same),
      refl,
      elim (Bool-cases (validate_password_strength (c ∷ cs))) [
        | inr against ↦ inl against
        | inl policy ↦
            let enough = raw_score-ge lower (c ∷ cs) policy in
            let (not_weak, not_fair) = not_low (raw_score lower (c ∷ cs)) enough in
            inr (omega arith, not_weak, not_fair)
      ],
    )
