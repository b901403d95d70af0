-- ===== src/Moderation/Coverage.antt =====
-- What the bulk insertion of missing cases does to the rows of the table.
use di_wei_wei_nano_market.Prelude.{
  ℕ, suc, ◌≡◌, inl, inr, sym, Bool, true, false, not, none, some, List, [], ◌∷◌, ◌==◌, select, find,
  any, is_in, length, All, arith, Bool-cases, any-found, any-or,
}
use di_wei_wei_nano_market.Models.{
  ModerationCase, ModerationContentType, same_content_type, case_of,
}
use di_wei_wei_nano_market.Session.{Env}
use di_wei_wei_nano_market.Moderation.Cases.{new_case, case_conflicts}
use di_wei_wei_nano_market.Moderation.Upsert.{IsUnique, same_content_type-eq}
use di_wei_wei_nano_market.Moderation.Backfill.{existing_ids, missing_ids, insert_all}

module _ (t : ModerationContentType) where
  -- `insert_all` at one row.
  insert_step :
      (env : Env) (k i : ℕ) (is : List ℕ) (cases cases' : List ModerationCase)
      → insert_all env k t (i ∷ is) cases ≡ some cases'
      → let c = new_case env (env.bulk_ids k) t i none in
        (any (case_conflicts c) cases ≡ false)
        × (insert_all env (suc k) t is (c ∷ cases) ≡ some cases')
  unfolding insert_all
  insert_step env k i is cases cases' e =
      elim (Bool-cases (any (case_conflicts (new_case env (env.bulk_ids k) t i none)) cases)) [
        | inl taken ↦ absurd (ground arith)
        | inr free ↦ (free, ground arith)
      ]

  -- No row is lost.
  pub insert_all-keeps :
      (env : Env) (k : ℕ) (is : List ℕ) (cases cases' : List ModerationCase)
      (p : ModerationCase → Bool)
      → insert_all env k t is cases ≡ some cases'
      → any p cases ≡ true
      → any p cases' ≡ true
  unfolding insert_all
  insert_all-keeps env k [] cases cases' p e h = ground arith
  insert_all-keeps env k (i ∷ is) cases cases' p e h =
      let (free, rest) = insert_step env k i is cases cases' e in
      insert_all-keeps env (suc k) is _ cases' p rest (ground arith)

  same_type : same_content_type t t ≡ true
  same_type = ground arith

  pub insert_none :
      (env : Env) (k : ℕ) (is : List ℕ) (cases cases' : List ModerationCase)
      → length is ≡ 0
      → insert_all env k t is cases ≡ some cases'
      → cases' ≡ cases
  unfolding insert_all
  insert_none env k [] cases cases' z e = ground arith
  insert_none env k (i ∷ is) cases cases' z e = absurd (omega arith)

  no_twin :
      (env : Env) (k i j : ℕ) (cases : List ModerationCase) (u : ModerationContentType)
      → any (case_conflicts (new_case env (env.bulk_ids k) t i none)) cases ≡ false
      → t ≡ u
      → i ≡ j
      → any (case_of u j) cases ≡ false
  no_twin env k i j cases u free e d =
      rw (sym e, sym d) (ground (arith, any-or (λ c. c.id == env.bulk_ids k) (case_of t i) cases))

  -- A case that is there stays the one that is found for its content.
  pub insert_all-find :
      (env : Env) (k : ℕ) (is : List ℕ) (cases cases' : List ModerationCase)
      (u : ModerationContentType) (j : ℕ) (c : ModerationCase)
      → insert_all env k t is cases ≡ some cases'
      → find (case_of u j) cases ≡ some c
      → find (case_of u j) cases' ≡ some c
  unfolding insert_all
  insert_all-find env k [] cases cases' u j c e found = ground arith
  insert_all-find env k (i ∷ is) cases cases' u j c e found =
      let (free, rest) = insert_step env k i is cases cases' e in
      let hit = any-found (case_of u j) cases found in
      insert_all-find env (suc k) is _ cases' u j c rest
        (ground (arith, hit, same_content_type-eq t u, no_twin env k i j cases u free))

  insert_all-has :
      (env : Env) (k : ℕ) (is : List ℕ) (cases cases' : List ModerationCase)
      → insert_all env k t is cases ≡ some cases'
      → All (λ i. any (case_of t i) cases' ≡ true) is
  insert_all-has env k [] cases cases' e = tt
  insert_all-has env k (i ∷ is) cases cases' e =
      let (free, rest) = insert_step env k i is cases cases' e in
      (
        insert_all-keeps env (suc k) is _ cases' (case_of t i) rest (ground (arith, same_type)),
        insert_all-has env (suc k) is _ cases' rest,
      )

  pub insert_all-IsUnique :
      (env : Env) (k : ℕ) (is : List ℕ) (cases cases' : List ModerationCase)
      → insert_all env k t is cases ≡ some cases'
      → IsUnique cases
      → IsUnique cases'
  unfolding insert_all
  insert_all-IsUnique env k [] cases cases' e h = ground arith
  insert_all-IsUnique env k (i ∷ is) cases cases' e h =
      let (free, rest) = insert_step env k i is cases cases' e in
      insert_all-IsUnique env (suc k) is _ cases' rest (free, h)

  existing-any :
      (i : ℕ) (ids : List ℕ) (cases : List ModerationCase)
      → is_in i (existing_ids t ids cases) ≡ true
      → any (case_of t i) cases ≡ true
  existing-any i ids [] e = cc
  existing-any i ids (c ∷ cases) e = ground (arith, existing-any i ids cases)

  covered :
      (present : List ℕ) (cases : List ModerationCase) (is : List ℕ)
      → ((i : ℕ) → is_in i present ≡ true → any (case_of t i) cases ≡ true)
      → All (λ i. any (case_of t i) cases ≡ true) (select (λ i. not (is_in i present)) is)
      → All (λ i. any (case_of t i) cases ≡ true) is
  covered present cases [] k h = tt
  covered present cases (i ∷ is) k h = elim (Bool-cases (is_in i present)) [
    | inl there ↦ (k i there, covered present cases is k (rw there at h))
    | inr new ↦
        let h' : (any (case_of t i) cases ≡ true)
            × All (λ i. any (case_of t i) cases ≡ true) (select (λ i. not (is_in i present)) is) =
          rw new at h in
        (h'.0, covered present cases is k h'.1)
  ]

  -- After the insertion of the missing cases, each of the ids has a case.
  pub insert_missing-covers :
      (env : Env) (k : ℕ) (ids : List ℕ) (cases cases' : List ModerationCase)
      → insert_all env k t (missing_ids t ids cases) cases ≡ some cases'
      → All (λ i. any (case_of t i) cases' ≡ true) ids
  insert_missing-covers env k ids cases cases' e =
      covered (existing_ids t ids cases) cases' ids
        (λ i there.
          insert_all-keeps env k _ cases cases' (case_of t i) e (existing-any i ids cases there))
        (insert_all-has env k _ cases cases' e)
