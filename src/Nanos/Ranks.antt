-- ===== src/Nanos/Ranks.antt =====
-- The ids that an update of the metadata names, each once and ranked.
use di_wei_wei_nano_market.Prelude.{
  ℕ, suc, ◌≡◌, ◌≢◌, inl, inr, refl, ap, true, false, not, ◌&&◌, List, [], ◌∷◌, ◌++◌, ◌==◌, select,
  is_in, arith, Bool-cases,
}
use di_wei_wei_nano_market.Models.{NanoCategoryAssignment}
use di_wei_wei_nano_market.Nanos.Metadata.{unique_ids, ranked, is_assigned, assign_categories}

-- No category twice.
abbrev pub HasNoTwins : List ℕ → Type 0
HasNoTwins [] = Unit
HasNoTwins (i ∷ is) = (is_in i is ≡ false) × HasNoTwins is

-- `unique_ids` keeps every id that was not seen before.
pub unique_ids-is_in :
    (j : ℕ) (seen is : List ℕ) → is_in j (unique_ids seen is) ≡ (is_in j is && not (is_in j seen))
unfolding unique_ids
unique_ids-is_in j seen [] = refl
unique_ids-is_in j seen (i ∷ is) = elim (Bool-cases (is_in i seen)) [
  | inl old ↦ elim (Bool-cases (i == j)) [
    | inl here ↦ ground (arith, unique_ids-is_in j seen is, ap (λ k. is_in k seen) (==→≡ i j here))
    | inr other ↦ ground (arith, unique_ids-is_in j seen is)
  ]
  | inr new ↦ elim (Bool-cases (i == j)) [
    | inl here ↦
        ground (arith, unique_ids-is_in j (i ∷ seen) is, ap (λ k. is_in k seen) (==→≡ i j here))
    | inr other ↦ ground (arith, unique_ids-is_in j (i ∷ seen) is)
  ]
]
  where
    ==→≡ : (a b : ℕ) → (a == b) ≡ true → a ≡ b
    ==→≡ a b e = ground arith

pub unique_ids-HasNoTwins : (seen is : List ℕ) → HasNoTwins (unique_ids seen is)
unfolding unique_ids
unique_ids-HasNoTwins seen [] = tt
unique_ids-HasNoTwins seen (i ∷ is) = elim (Bool-cases (is_in i seen)) [
  | inl old ↦ rw old (unique_ids-HasNoTwins seen is)
  | inr new ↦
      rw new (ground (arith, unique_ids-is_in i (i ∷ seen) is), unique_ids-HasNoTwins (i ∷ seen) is)
]

assigned-append :
    (nano : ℕ) (xs ys : List NanoCategoryAssignment)
    → select (is_assigned nano) (xs ++ ys)
      ≡ select (is_assigned nano) xs ++ select (is_assigned nano) ys
assigned-append nano [] ys = refl
assigned-append nano (a ∷ xs) ys = ground (arith, assigned-append nano xs ys)

assigned-ranked :
    (nano rank : ℕ) (ids : List ℕ)
    → select (is_assigned nano) (ranked nano rank ids) ≡ ranked nano rank ids
assigned-ranked nano rank [] = refl
assigned-ranked nano rank (i ∷ is) = ground (arith, assigned-ranked nano (suc rank) is)

assigned-others :
    (nano : ℕ) (xs : List NanoCategoryAssignment)
    → select (is_assigned nano) (select (λ a. not (is_assigned nano a)) xs) ≡ []
assigned-others nano [] = refl
assigned-others nano (a ∷ xs) = ground (arith, assigned-others nano xs)

append-nil : (xs : List NanoCategoryAssignment) → xs ++ [] ≡ xs
append-nil [] = refl
append-nil (a ∷ xs) = ap (λ l. a ∷ l) (append-nil xs)

pub assign-own :
    (nano : ℕ) (ids : List ℕ) (rows : List NanoCategoryAssignment)
    → select (is_assigned nano) (assign_categories nano ids rows) ≡ ranked nano 0 ids
assign-own nano ids rows =
    rw
      (
        assigned-append nano (ranked nano 0 ids) (select (λ a. not (is_assigned nano a)) rows),
        assigned-ranked nano 0 ids,
        assigned-others nano rows,
      )
      (append-nil (ranked nano 0 ids))

other-ranked :
    (nano other rank : ℕ) (ids : List ℕ)
    → other ≢ nano
    → select (is_assigned other) (ranked nano rank ids) ≡ []
other-ranked nano other rank [] ne = refl
other-ranked nano other rank (i ∷ is) ne = ground (arith, other-ranked nano other (suc rank) is ne)

other-kept :
    (nano other : ℕ) (rows : List NanoCategoryAssignment)
    → other ≢ nano
    → select (is_assigned other) (select (λ a. not (is_assigned nano a)) rows)
      ≡ select (is_assigned other) rows
other-kept nano other [] ne = refl
other-kept nano other (a ∷ xs) ne = ground (arith, other-kept nano other xs ne)

pub assign-other :
    (nano other : ℕ) (ids : List ℕ) (rows : List NanoCategoryAssignment)
    → other ≢ nano
    → select (is_assigned other) (assign_categories nano ids rows) ≡ select (is_assigned other) rows
assign-other nano other ids rows ne =
    rw
      (
        assigned-append other (ranked nano 0 ids) (select (λ a. not (is_assigned nano a)) rows),
        other-ranked nano other 0 ids ne,
      )
      (other-kept nano other rows ne)
