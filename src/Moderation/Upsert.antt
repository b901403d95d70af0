-- ===== src/Moderation/Upsert.antt =====
-- What `upsert_moderation_case` guarantees: one open case for the content, and no other case moved.
use di_wei_wei_nano_market.Prelude.{
  ℕ, ◌≡◌, ◌≢◌, refl, true, false, Option, none, some, List, [], ◌∷◌, ◌⊎◌, inl, inr, arith, ◌∙◌,
  ◌==◌, ◌&&◌, find, modify, any, Option-cases, Bool-cases, find-modify_self, find-modify_other,
  any-modify, any-or, any-find,
}
use di_wei_wei_nano_market.Models.{
  ModerationCase, ModerationCaseStatus, ModerationContentType, same_content_type, case_of,
}
use di_wei_wei_nano_market.Session.{Env}
use di_wei_wei_nano_market.Moderation.Cases.{
  case_conflicts, new_case, or_else, reset_case, upsert_rows,
}

-- A case that awaits a decision, with nothing left of an earlier one.
pub record IsOpen (c : ModerationCase) : Type 0 where
  pub pending : c.status ≡ ModerationCaseStatus.pending
  pub no_reason : c.reason ≡ none
  pub undecided_by : c.decided_by_user_id ≡ none
  pub undecided_at : c.decided_at ≡ none
  pub not_deferred : c.deferred_until ≡ none
  pub not_escalated : c.escalation_note ≡ none

-- Two rows never share an id or a content: the constraints of the table.
abbrev pub IsUnique : List ModerationCase → Type 0
IsUnique [] = Unit
IsUnique (c ∷ cs) = (any (case_conflicts c) cs ≡ false) × IsUnique cs

abbrev pub reporter_of : Option ModerationCase → Option ℕ
reporter_of none = none
reporter_of (some c) = c.reporter_id

same_content_type_refl : (t : ModerationContentType) → same_content_type t t ≡ true
same_content_type_refl t = ground arith

pub same_content_type-eq : (t u : ModerationContentType) → same_content_type t u ≡ true → t ≡ u
same_content_type-eq t u h = ground arith

other_key :
    (s t u : ModerationContentType) (k content i : ℕ)
    → (u ≡ t → i ≢ content)
    → (same_content_type s t && (k == content)) ≡ true
    → (same_content_type s u && (k == i)) ≡ false
other_key s t u k content i ne p = elim (Bool-cases (same_content_type s u && (k == i))) [
  | inl both ↦
      absurd
        (ne (ground (arith, same_content_type-eq s t, same_content_type-eq s u)) (ground arith))
  | inr no_match ↦ no_match
]

module _ (env : Env) (t : ModerationContentType) (content : ℕ) (reporter : Option ℕ) where
  find-reset :
      (cases : List ModerationCase) (c : ModerationCase)
      → find (case_of t content) cases ≡ some c
      → find (case_of t content) (modify (case_of t content) (reset_case reporter) cases)
        ≡ some (reset_case reporter c)
  find-reset cases c e =
      rw (find-modify_self (case_of t content) (reset_case reporter) cases (λ x h. h), e)

  -- After a successful upsert the content has an open case: its own earlier one, if it had one. A
  -- reporter that is given replaces the earlier one.
  pub upsert_rows-IsOpen :
      (cases cases' : List ModerationCase)
      → upsert_rows env t content reporter cases ≡ some cases'
      → (c : ModerationCase) × (find (case_of t content) cases' ≡ some c)
        × IsOpen c
        × (c.reporter_id ≡ or_else reporter (reporter_of (find (case_of t content) cases)))
  unfolding upsert_rows
  upsert_rows-IsOpen cases cases' e = elim (Option-cases (find (case_of t content) cases)) [
    | inl fresh ↦ (
      new_case env env.new_case_id t content reporter,
      ground (arith, same_content_type_refl t),
      ground arith,
      ground arith,
    )
    | inr (c, found) ↦ (
      reset_case reporter c,
      ground (arith, find-reset cases c found),
      ground arith,
      ground arith,
    )
  ]

  -- A successful upsert leaves the case of every other content as it was.
  upsert_rows-other :
      (cases cases' : List ModerationCase) (u : ModerationContentType) (i : ℕ)
      → (u ≡ t → i ≢ content)
      → upsert_rows env t content reporter cases ≡ some cases'
      → find (case_of u i) cases' ≡ find (case_of u i) cases
  unfolding upsert_rows
  upsert_rows-other cases cases' u i ne e = elim (Option-cases (find (case_of t content) cases)) [
    | inl fresh ↦ grind (arith, same_content_type-eq)
    | inr (c, found) ↦ ground (
      arith,
      find-modify_other (case_of t content) (case_of u i) (reset_case reporter) cases
          (λ x p. other_key x.content_type t u x.content_id content i ne p)
          (λ x p. other_key x.content_type t u x.content_id content i ne p),
    )
  ]

  modify-IsUnique :
      (cases : List ModerationCase)
      → IsUnique cases
      → IsUnique (modify (case_of t content) (reset_case reporter) cases)
  modify-IsUnique [] h = tt
  modify-IsUnique (c ∷ cs) h = elim (Bool-cases (case_of t content c)) [
    | inl here ↦ rw here (h.0, h.1)
    | inr later ↦ rw later (
      any-modify (case_of t content) (case_conflicts c) (reset_case reporter) cs (λ x. refl) ∙ h.0,
      modify-IsUnique cs h.1,
    )
  ]

  -- A successful upsert keeps the constraints of the table: no two cases share an id or a content.
  upsert_rows-IsUnique :
      (cases cases' : List ModerationCase)
      → IsUnique cases
      → upsert_rows env t content reporter cases ≡ some cases'
      → IsUnique cases'
  unfolding upsert_rows
  upsert_rows-IsUnique cases cases' h e = elim (Option-cases (find (case_of t content) cases)) [
    | inl fresh ↦ ground arith
    | inr (c, found) ↦ ground (arith, modify-IsUnique cases h)
  ]

  -- A successful upsert leaves the case of every other content as it was, and keeps the constraints
  -- of the table, under which no two cases share an id or a content.
  pub upsert_rows_keeps :
      (cases cases' : List ModerationCase)
      → upsert_rows env t content reporter cases ≡ some cases'
      → ((u : ModerationContentType) (i : ℕ)
          → (u ≡ t → i ≢ content)
          → find (case_of u i) cases' ≡ find (case_of u i) cases)
        × (IsUnique cases → IsUnique cases')
  upsert_rows_keeps cases cases' e = (
    (λ u i ne. upsert_rows-other cases cases' u i ne e),
    (λ h. upsert_rows-IsUnique cases cases' h e),
  )

  -- With a case for the content, or a new id that no case has, the upsert cannot fail.
  pub upsert_rows_total :
      (cases : List ModerationCase)
      → (find (case_of t content) cases ≢ none) ⊎ (any (λ c. c.id == env.new_case_id) cases ≡ false)
      → (cases' : List ModerationCase) × (upsert_rows env t content reporter cases ≡ some cases')
  unfolding upsert_rows
  upsert_rows_total cases h = elim (Option-cases (find (case_of t content) cases)) [
    | inl fresh ↦ (
      new_case env env.new_case_id t content reporter ∷ cases,
      ground (
        arith,
        any-or (λ c. c.id == env.new_case_id) (case_of t content) cases,
        any-find (case_of t content) cases fresh,
      ),
    )
    | inr (c, found) ↦ (modify (case_of t content) (reset_case reporter) cases, rw found)
  ]
