-- ===== src/Prelude/Pages.antt =====
-- `ORDER BY`, `OFFSET` and `LIMIT`: sorted listings that are read page by page.
use Prim.Native.Nat.{ℕ, zero, suc, ◌+◌, ◌-◌, ◌*◌, ◌/◌, ◌≤◌, ◌<◌}
use mathlib.Core.Path.{◌≡◌, refl, sym, ap, ◌∙◌}
use mathlib.Core.Logic.{inl, inr}
use mathlib.Core.Bool.{Bool, true, false}
use mathlib.Core.List.{List, [], ◌∷◌, ◌++◌, Perm}
use mathlib.Core.List.Perm
use native.Mathlib.Omega.{arith}
use di_wei_wei_nano_market.Prelude.Tests.{if◌then◌else◌, Bool-cases}
use di_wei_wei_nano_market.Prelude.Lists.{length, All, take, drop}

module _ {ℓ} {A : Type ℓ} where
  -- `ORDER BY`, where `before x y` tells that `x` may stand before `y`
  abbrev pub insert_by : (A → A → Bool) → A → List A → List A
  insert_by before x [] = x ∷ []
  insert_by before x (y ∷ ys) =
      let rest = insert_by before x ys in if before x y then x ∷ y ∷ ys else y ∷ rest

  unfoldable pub sort_by : (A → A → Bool) → List A → List A
  sort_by before [] = []
  sort_by before (x ∷ xs) = insert_by before x (sort_by before xs)

  -- `.offset((page - 1) * limit).limit(limit)`
  unfoldable pub page_of : ℕ → ℕ → List A → List A
  page_of page limit xs = take limit (drop ((page - 1) * limit) xs)

  -- The first `n` pages, one after the other.
  unfoldable pub first_pages : ℕ → ℕ → List A → List A
  first_pages zero limit xs = []
  first_pages (suc n) limit xs = first_pages n limit xs ++ page_of (suc n) limit xs

  insert_by-perm :
      (before : A → A → Bool) (x : A) (ys : List A) → Perm (insert_by before x ys) (x ∷ ys)
  insert_by-perm before x [] = Perm.refl _
  insert_by-perm before x (y ∷ ys) = elim (Bool-cases (before x y)) [
    | inl first ↦ rw first (Perm.refl _)
    | inr later ↦
        rw later (Perm.trans (Perm.cons y (insert_by-perm before x ys)) (Perm.swap x y ys))
  ]

  -- Sorting loses no row and adds none.
  pub sort_by-perm : (before : A → A → Bool) (xs : List A) → Perm (sort_by before xs) xs
  unfolding sort_by
  sort_by-perm before [] = Perm.refl _
  sort_by-perm before (x ∷ xs) =
      Perm.trans (insert_by-perm before x (sort_by before xs))
        (Perm.cons x (sort_by-perm before xs))

  take-nil : (k : ℕ) → take {A = A} k [] ≡ []
  take-nil zero = refl
  take-nil (suc k) = refl

  take-drop : (k l : ℕ) (xs : List A) → take k xs ++ take l (drop k xs) ≡ take (k + l) xs
  take-drop zero l xs = let e : 0 + l ≡ l = omega arith in rw e
  take-drop (suc k) l [] = take-nil l ∙ sym (take-nil (suc k + l))
  take-drop (suc k) l (x ∷ xs) =
      let e : suc k + l ≡ suc (k + l) = omega arith in rw (e, take-drop k l xs)

  take_of_length-le : (k : ℕ) (xs : List A) → length xs ≤ k → take k xs ≡ xs
  take_of_length-le zero [] h = refl
  take_of_length-le zero (x ∷ xs) h = absurd (omega arith)
  take_of_length-le (suc k) [] h = refl
  take_of_length-le (suc k) (x ∷ xs) h = ap (λ ys. x ∷ ys) (take_of_length-le k xs (omega arith))

  first_pages-take : (n limit : ℕ) (xs : List A) → first_pages n limit xs ≡ take (n * limit) xs
  unfolding first_pages page_of
  first_pages-take zero limit xs = let e : 0 * limit ≡ 0 = grind arith in rw e
  first_pages-take (suc n) limit xs =
      let offset : (suc n - 1) * limit ≡ n * limit = grind arith in
      let next : suc n * limit ≡ n * limit + limit = grind arith in
      rw (first_pages-take n limit xs, offset, next) (take-drop (n * limit) limit xs)

  -- `(total + limit - 1) // limit` pages hold the whole listing, each row once and in order.
  pub first_pages_all :
      (limit : ℕ) (xs : List A)
      → 0 < limit
      → first_pages ((length xs + limit - 1) / limit) limit xs ≡ xs
  first_pages_all limit xs pos =
      let enough : length xs ≤ (length xs + limit - 1) / limit * limit = grind arith in
      first_pages-take _ limit xs ∙ take_of_length-le _ xs enough

  -- Every row stands before all that follow it.
  abbrev pub IsOrdered : (A → A → Bool) → List A → Type 0
  IsOrdered before [] = Unit
  IsOrdered before (x ∷ xs) = All (λ y. before x y ≡ true) xs × IsOrdered before xs

  All-insert_by :
      (before : A → A → Bool) (P : A → Type 0) (x : A) (ys : List A)
      → P x
      → All P ys
      → All P (insert_by before x ys)
  All-insert_by before P x [] p h = (p, tt)
  All-insert_by before P x (y ∷ ys) p h = elim (Bool-cases (before x y)) [
    | inl first ↦ rw first (p, h)
    | inr later ↦ rw later (h.0, All-insert_by before P x ys p h.1)
  ]

  All-weaken : (P Q : A → Type 0) (ys : List A) → ((y : A) → P y → Q y) → All P ys → All Q ys
  All-weaken P Q [] k h = tt
  All-weaken P Q (y ∷ ys) k h = (k y h.0, All-weaken P Q ys k h.1)

  module _ (before : A → A → Bool) (total : (x y : A) → before x y ≡ false → before y x ≡ true)
      (transitive : (x y z : A) → before x y ≡ true → before y z ≡ true → before x z ≡ true) where
    insert_by-IsOrdered :
        (x : A) (ys : List A) → IsOrdered before ys → IsOrdered before (insert_by before x ys)
    insert_by-IsOrdered x [] h = (tt, tt)
    insert_by-IsOrdered x (y ∷ ys) h = elim (Bool-cases (before x y)) [
      | inl first ↦ rw first (
        (
          first,
          All-weaken (λ z. before y z ≡ true) (λ z. before x z ≡ true) ys
              (λ z. transitive x y z first) h.0,
        ),
        h,
      )
      | inr later ↦ rw later (
        All-insert_by before (λ z. before y z ≡ true) x ys (total x y later) h.0,
        insert_by-IsOrdered x ys h.1,
      )
    ]

    pub sort_by-IsOrdered : (xs : List A) → IsOrdered before (sort_by before xs)
    unfolding sort_by
    sort_by-IsOrdered [] = tt
    sort_by-IsOrdered (x ∷ xs) = insert_by-IsOrdered x (sort_by before xs) (sort_by-IsOrdered xs)
