-- ===== src/Prelude/Rows.antt =====
-- A database table as a list of rows: what the queries of the program use of SQL.
use mathlib.Core.Path.{◌≡◌, refl}
use mathlib.Core.Bool.{Bool, true, false, ◌||◌}
use mathlib.Core.Option
use mathlib.Core.Option.{Option, none, some}
use mathlib.Core.List.{List, [], ◌∷◌}
use native.Mathlib.Omega.{arith}
use di_wei_wei_nano_market.Prelude.Tests.{if◌then◌else◌}
use di_wei_wei_nano_market.Prelude.Lists.{any}

module _ {ℓ} {A : Type ℓ} where
  -- `SELECT … WHERE p` followed by `scalar_one_or_none()`
  abbrev pub find : (A → Bool) → List A → Option A
  find p [] = none
  find p (x ∷ xs) = if p x then some x else find p xs

  -- `SELECT … WHERE p`
  abbrev pub select : (A → Bool) → List A → List A
  select p [] = []
  select p (x ∷ xs) = let rest = select p xs in if p x then x ∷ rest else rest

  -- The flush of a change to the object that `find p` returns.
  abbrev pub modify : (A → Bool) → (A → A) → List A → List A
  modify p f [] = []
  modify p f (x ∷ xs) = if p x then f x ∷ xs else x ∷ modify p f xs

  pub find-sat : (p : A → Bool) (xs : List A) {x : A} → find p xs ≡ some x → p x ≡ true
  find-sat p [] e = cc
  find-sat p (y ∷ xs) {x = x} e = ground (arith, find-sat p xs {x = x})

  pub any-find : (p : A → Bool) (xs : List A) → find p xs ≡ none → any p xs ≡ false
  any-find p [] e = refl
  any-find p (y ∷ xs) e = ground (arith, any-find p xs)

  -- A lookup by `q` after a change at `p` that neither test notices.
  pub find-modify_other :
      (p q : A → Bool) (f : A → A) (xs : List A)
      → ((x : A) → p x ≡ true → q x ≡ false)
      → ((x : A) → p x ≡ true → q (f x) ≡ false)
      → find q (modify p f xs) ≡ find q xs
  find-modify_other p q f [] h k = refl
  find-modify_other p q f (x ∷ xs) h k = ground (arith, h x, k x, find-modify_other p q f xs h k)

  pub find-modify_self :
      (p : A → Bool) (f : A → A) (xs : List A)
      → ((x : A) → p x ≡ true → p (f x) ≡ true)
      → find p (modify p f xs) ≡ Option.map f (find p xs)
  find-modify_self p f [] k = refl
  find-modify_self p f (x ∷ xs) k = ground (arith, k x, find-modify_self p f xs k)

  -- A test that a change keeps finds as many rows as before.
  pub any-modify :
      (p q : A → Bool) (f : A → A) (xs : List A)
      → ((x : A) → q (f x) ≡ q x)
      → any q (modify p f xs) ≡ any q xs
  any-modify p q f [] h = refl
  any-modify p q f (x ∷ xs) h = ground (arith, h x, any-modify p q f xs h)

  pub any-or : (p q : A → Bool) (xs : List A) → any (λ x. p x || q x) xs ≡ (any p xs || any q xs)
  any-or p q [] = refl
  any-or p q (x ∷ xs) = ground (arith, any-or p q xs)

  pub any-found : (p : A → Bool) (xs : List A) {x : A} → find p xs ≡ some x → any p xs ≡ true
  any-found p [] e = cc
  any-found p (y ∷ xs) {x = x} e = ground (arith, any-found p xs {x = x})

  pub modify-missing :
      (p : A → Bool) (f : A → A) (xs : List A) → find p xs ≡ none → modify p f xs ≡ xs
  modify-missing p f [] e = refl
  modify-missing p f (x ∷ xs) e = ground (arith, modify-missing p f xs)
