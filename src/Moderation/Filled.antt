-- ===== src/Moderation/Filled.antt =====
-- The backfill as a whole: which rows each of its three parts adds.
use di_wei_wei_nano_market.Prelude.{
  ℕ, ◌+◌, ◌≡◌, inl, inr, refl, ap, sym, ◌∙◌, Bool, true, false, Option, some, List, find, any, All,
  arith, Option-cases,
}
use di_wei_wei_nano_market.Models.{Db, ModerationCase, ModerationContentType, case_of}
use di_wei_wei_nano_market.Session.{Env, Action, Session, ok, pure, gets, ◌>>=◌, bind_ok}
use di_wei_wei_nano_market.Moderation.Upsert.{IsUnique}
use di_wei_wei_nano_market.Moderation.Backfill.{
  missing_ids, insert_all, insert_missing_cases, if_wanted, is_wanted, pending_nano_ids,
  pending_rating_ids, pending_comment_ids, backfill_missing_pending_cases,
}
use di_wei_wei_nano_market.Moderation.Coverage.{
  insert_all-keeps, insert_none, insert_all-find, insert_all-IsUnique, insert_missing-covers,
}

-- What a guarded insertion of the backfill does to the rows.
abbrev pub Filled :
    Bool
    → Env
    → ℕ
    → ModerationContentType
    → List ℕ
    → List ModerationCase
    → List ModerationCase
    → Type 0
Filled true env k t ids cases cases' =
    insert_all env k t (missing_ids t ids cases) cases ≡ some cases'
Filled false env k t ids cases cases' = cases' ≡ cases

abbrev pub part : Bool → Env → ℕ → ModerationContentType → (Db → List ℕ) → Action ℕ
part b env k t f = if_wanted b (gets f >>= λ ids. insert_missing_cases env k t ids)

guarded :
    (b : Bool) (env : Env) (k : ℕ) (t : ModerationContentType) (f : Db → List ℕ) (s : Session)
    (n : ℕ)
    → (part b env k t f s).0 ≡ ok n
    → (cases' : List ModerationCase) × Filled b env k t (f s.pending) s.pending.cases cases'
      × ((part b env k t f s).1 ≡ record s { pending = record s.pending { cases = cases' } })
      × (n ≡ 0 → cases' ≡ s.pending.cases)
unfolding insert_missing_cases insert_all
guarded true env k t f s n h =
    elim (Option-cases
      (insert_all env k t (missing_ids t (f s.pending) s.pending.cases) s.pending.cases)) [
        | inl refused ↦ absurd (ground arith)
        | inr (cs, written) ↦ (
          cs,
          written,
          ground arith,
          λ nothing.
              insert_none t env k (missing_ids t (f s.pending) s.pending.cases) s.pending.cases cs
                (ground arith) written,
        )
      ]
guarded false env k t f s n h = (s.pending.cases, refl, ground arith, λ _. refl)

pub Filled-covers :
    (b : Bool) (env : Env) (k : ℕ) (t : ModerationContentType) (ids : List ℕ)
    (cases cases' : List ModerationCase)
    → Filled b env k t ids cases cases'
    → b ≡ true
    → All (λ i. any (case_of t i) cases' ≡ true) ids
Filled-covers true env k t ids cases cases' f e = insert_missing-covers t env k ids cases cases' f
Filled-covers false env k t ids cases cases' f e = cc

pub Filled-find :
    (b : Bool) (env : Env) (k : ℕ) (t : ModerationContentType) (ids : List ℕ)
    (cases cases' : List ModerationCase) (u : ModerationContentType) (j : ℕ) (c : ModerationCase)
    → Filled b env k t ids cases cases'
    → find (case_of u j) cases ≡ some c
    → find (case_of u j) cases' ≡ some c
Filled-find true env k t ids cases cases' u j c f e =
    insert_all-find t env k _ cases cases' u j c f e
Filled-find false env k t ids cases cases' u j c f e = rw f e

pub Filled-keeps :
    (b : Bool) (env : Env) (k : ℕ) (t : ModerationContentType) (ids : List ℕ)
    (cases cases' : List ModerationCase) (p : ModerationCase → Bool)
    → Filled b env k t ids cases cases'
    → any p cases ≡ true
    → any p cases' ≡ true
Filled-keeps true env k t ids cases cases' p f e = insert_all-keeps t env k _ cases cases' p f e
Filled-keeps false env k t ids cases cases' p f e = rw f e

pub Filled-IsUnique :
    (b : Bool) (env : Env) (k : ℕ) (t : ModerationContentType) (ids : List ℕ)
    (cases cases' : List ModerationCase)
    → Filled b env k t ids cases cases'
    → IsUnique cases
    → IsUnique cases'
Filled-IsUnique true env k t ids cases cases' f h = insert_all-IsUnique t env k _ cases cases' f h
Filled-IsUnique false env k t ids cases cases' f h = rw f h

abbrev pub after_comments : ℕ → ℕ → ℕ → Action ℕ
after_comments nanos ratings comments = pure (nanos + ratings + comments)

abbrev pub after_ratings : Env → Option ModerationContentType → ℕ → ℕ → Action ℕ
after_ratings env t nanos ratings =
    part (is_wanted t ModerationContentType.nano_comment) env (nanos + ratings)
      ModerationContentType.nano_comment pending_comment_ids
    >>= after_comments nanos ratings

abbrev pub after_nanos : Env → Option ModerationContentType → ℕ → Action ℕ
after_nanos env t nanos =
    part (is_wanted t ModerationContentType.nano_rating) env nanos ModerationContentType.nano_rating
      pending_rating_ids
    >>= after_ratings env t nanos

-- The rows after each of the three parts of the backfill.
pub backfilled :
    (env : Env) (content_type : Option ModerationContentType) (s : Session) (n : ℕ)
    → (backfill_missing_pending_cases env content_type s).0 ≡ ok n
    → let w = is_wanted content_type in
      (k k' : ℕ) × (c₁ c₂ c₃ : List ModerationCase) × Filled
        (w ModerationContentType.nano)
        env
        0
        ModerationContentType.nano
        (pending_nano_ids s.pending)
        s.pending.cases
        c₁
      × Filled
          (w ModerationContentType.nano_rating)
          env
          k
          ModerationContentType.nano_rating
          (pending_rating_ids s.pending)
          c₁
          c₂
      × Filled
          (w ModerationContentType.nano_comment)
          env
          k'
          ModerationContentType.nano_comment
          (pending_comment_ids s.pending)
          c₂
          c₃
      × ((backfill_missing_pending_cases env content_type s).1
          ≡ record s { pending = record s.pending { cases = c₃ } })
      × (n ≡ 0 → c₃ ≡ s.pending.cases)
unfolding backfill_missing_pending_cases
backfilled env content_type s n h =
    let w = is_wanted content_type in
    let p₁ =
      part (w ModerationContentType.nano) env 0 ModerationContentType.nano pending_nano_ids in
    let (n₁, e₁, b₁) = bind_ok p₁ (after_nanos env content_type) s n h in
    let (c₁, f₁, s₁, z₁) =
      guarded (w ModerationContentType.nano) env 0 ModerationContentType.nano pending_nano_ids s n₁
        e₁ in
    let t₁ : Session = record s { pending = record s.pending { cases = c₁ } } in
    let p₂ =
      part (w ModerationContentType.nano_rating) env n₁ ModerationContentType.nano_rating
        pending_rating_ids in
    let r₁ : backfill_missing_pending_cases env content_type s
        ≡ after_nanos env content_type n₁ t₁ =
      b₁ ∙ ap (after_nanos env content_type n₁) s₁ in
    let (n₂, e₂, b₂) =
      bind_ok p₂ (after_ratings env content_type n₁) t₁ n (ap (λ r. r.0) (sym r₁) ∙ h) in
    let (c₂, f₂, s₂, z₂) =
      guarded (w ModerationContentType.nano_rating) env n₁ ModerationContentType.nano_rating
        pending_rating_ids t₁ n₂ e₂ in
    let t₂ : Session = record s { pending = record s.pending { cases = c₂ } } in
    let p₃ =
      part (w ModerationContentType.nano_comment) env (n₁ + n₂) ModerationContentType.nano_comment
        pending_comment_ids in
    let r₂ : backfill_missing_pending_cases env content_type s
        ≡ after_ratings env content_type n₁ n₂ t₂ =
      r₁ ∙ b₂ ∙ ap (after_ratings env content_type n₁ n₂) s₂ in
    let (n₃, e₃, b₃) = bind_ok p₃ (after_comments n₁ n₂) t₂ n (ap (λ r. r.0) (sym r₂) ∙ h) in
    let (c₃, f₃, s₃, z₃) =
      guarded (w ModerationContentType.nano_comment) env (n₁ + n₂)
        ModerationContentType.nano_comment pending_comment_ids t₂ n₃ e₃ in
    let r₃ : backfill_missing_pending_cases env content_type s
        ≡ after_comments n₁ n₂ n₃ (record s { pending = record s.pending { cases = c₃ } }) =
      r₂ ∙ b₃ ∙ ap (after_comments n₁ n₂ n₃) s₃ in
    (n₁, n₁ + n₂, c₁, c₂, c₃, f₁, f₂, f₃, ap (λ r. r.1) r₃, ground (arith, r₃))
