-- ===== src/Moderation/Complete.antt =====
-- The moderation queue is complete: all content that awaits moderation has a case.
use di_wei_wei_nano_market.Prelude.{
  ℕ, ◌≡◌, inl, inr, refl, ap, ◌∙◌, Bool, true, Option, some, List, [], ◌∷◌, ltb, select, find, any,
  All, arith, Bool-cases,
}
use mathlib.Core.List.{Perm, map-id}
use di_wei_wei_nano_market.Prelude.Pages.{sort_by-perm, page_of}
use di_wei_wei_nano_market.Listing.{Listing, listing}
use di_wei_wei_nano_market.Models.{
  Db, ModerationCase, ModerationCaseStatus, ModerationContentType, case_of,
}
use di_wei_wei_nano_market.Session.{Env, Session, Result, ok, request, Result-cases}
use di_wei_wei_nano_market.Moderation.Upsert.{IsUnique}
use di_wei_wei_nano_market.Moderation.Backfill.{
  is_wanted, pending_nano_ids, pending_rating_ids, pending_comment_ids,
  backfill_missing_pending_cases,
}
use di_wei_wei_nano_market.Moderation.Filled.{
  Filled-covers, Filled-find, Filled-keeps, Filled-IsUnique, backfilled,
}
use di_wei_wei_nano_market.Moderation.Queue.{is_active, queue_of, queued, get_moderation_queue}

abbrev pub Queued :
    Env
    → Option ModerationContentType
    → Option ModerationCaseStatus
    → ℕ
    → ℕ
    → Db
    → Result (Listing ModerationCase) × Db
Queued env t s page limit db = request (get_moderation_queue env t s page limit) db

-- Each content of the given ids has a case.
abbrev pub HasCases : ModerationContentType → List ℕ → List ModerationCase → Type 0
HasCases t ids cases = All (λ i. any (case_of t i) cases ≡ true) ids

HasCases-any :
    (t : ModerationContentType) (ids : List ℕ) (cases cases' : List ModerationCase)
    → ((p : ModerationCase → Bool) → any p cases ≡ true → any p cases' ≡ true)
    → HasCases t ids cases
    → HasCases t ids cases'
HasCases-any t [] cases cases' k h = tt
HasCases-any t (i ∷ is) cases cases' k h =
    (k (case_of t i) h.0, HasCases-any t is cases cases' k h.1)

module _ (env : Env) (t : Option ModerationContentType) (s : Option ModerationCaseStatus)
    (page limit : ℕ) (db : Db) (l : Listing ModerationCase) (active : is_active s ≡ true)
    (answered : (Queued env t s page limit db).0 ≡ ok l) where
  abbrev opened : Session
  opened = record { committed = db; pending = db }

  -- The backfill succeeded, and what it wrote is committed.
  queue_ran :
      (n : ℕ) × ((backfill_missing_pending_cases env t opened).0 ≡ ok n)
      × ((cases : List ModerationCase)
          → (backfill_missing_pending_cases env t opened).1
            ≡ record { committed = db; pending = record db { cases = cases } }
          → (n ≡ 0 → cases ≡ db.cases)
          → ((Queued env t s page limit db).1 ≡ record db { cases = cases })
            × (l ≡ listing (λ c. c) (queue_of t s (record db { cases = cases })) page limit))
  unfolding get_moderation_queue
  queue_ran = elim (Result-cases (backfill_missing_pending_cases env t opened).0) [
    | inr (e, failed) ↦ absurd (ground arith)
    | inl (n, done) ↦ (
      n,
      done,
      λ cases written none_. elim (Bool-cases (ltb 0 n)) [
        | inl some_ ↦ ground arith
        | inr nothing ↦ ground (arith, none_ (ground arith))
      ],
    )
  ]

-- A request for the queue of pending cases, or of all, that succeeds leaves a case for each Nano under
-- review, pending rating and pending comment that its content type covers. It changes nothing but
-- the table of cases, where every case stays and no two share an id or a content if none did before.
-- What it answers is a page of all the cases with that type and status.
pub queue_complete :
    (env : Env) (t : Option ModerationContentType) (s : Option ModerationCaseStatus)
    (page limit : ℕ) (db : Db) (l : Listing ModerationCase)
    → is_active s ≡ true
    → (Queued env t s page limit db).0 ≡ ok l
    → let db' = (Queued env t s page limit db).1 in
      (is_wanted t ModerationContentType.nano ≡ true
        → HasCases ModerationContentType.nano (pending_nano_ids db) db'.cases)
      × (is_wanted t ModerationContentType.nano_rating ≡ true
          → HasCases ModerationContentType.nano_rating (pending_rating_ids db) db'.cases)
      × (is_wanted t ModerationContentType.nano_comment ≡ true
          → HasCases ModerationContentType.nano_comment (pending_comment_ids db) db'.cases)
      × ((u : ModerationContentType) (i : ℕ) (c : ModerationCase)
          → find (case_of u i) db.cases ≡ some c
          → find (case_of u i) db'.cases ≡ some c)
      × (IsUnique db.cases → IsUnique db'.cases)
      × (db' ≡ record db { cases = db'.cases })
      × (l.items ≡ page_of page limit (queue_of t s db'))
      × Perm (queue_of t s db') (select (queued t s) db'.cases)
unfolding listing queue_of
queue_complete env t s page limit db l active answered =
    let (n, done, run) = queue_ran env t s page limit db l active answered in
    let (k, k', c₁, c₂, c₃, f₁, f₂, f₃, written, none_) =
      backfilled env t (record { committed = db; pending = db }) n done in
    let (stored, listed) = run c₃ written none_ in
    let w = is_wanted t in
    let keep₃ = λ (p : ModerationCase → Bool).
      Filled-keeps (w ModerationContentType.nano_comment) env k' ModerationContentType.nano_comment
        (pending_comment_ids db) c₂ c₃ p f₃ in
    let keep₂ = λ (p : ModerationCase → Bool).
      Filled-keeps (w ModerationContentType.nano_rating) env k ModerationContentType.nano_rating
        (pending_rating_ids db) c₁ c₂ p f₂ in
    rw stored (
      λ on.
          HasCases-any ModerationContentType.nano (pending_nano_ids db) c₁ c₃
            (λ p h. keep₃ p (keep₂ p h)) (Filled-covers _ env 0 _ _ db.cases c₁ f₁ on),
      λ on.
          HasCases-any ModerationContentType.nano_rating (pending_rating_ids db) c₂ c₃ keep₃
            (Filled-covers _ env k _ _ c₁ c₂ f₂ on),
      λ on. Filled-covers _ env k' _ _ c₂ c₃ f₃ on,
      λ u i c found. Filled-find _ env k' _ _ c₂ c₃ u i c f₃ (
          Filled-find _ env k _ _ c₁ c₂ u i c f₂
            (Filled-find _ env 0 _ _ db.cases c₁ u i c f₁ found)),
      λ h.
          Filled-IsUnique _ env k' _ _ c₂ c₃ f₃
            (Filled-IsUnique _ env k _ _ c₁ c₂ f₂ (Filled-IsUnique _ env 0 _ _ db.cases c₁ f₁ h)),
      refl,
      ap (λ x. x.items) listed ∙ map-id _,
      sort_by-perm _ _,
    )
