-- ===== src/Moderation/Unmoved.antt =====
-- A request for the moderation queue writes cases only.
use di_wei_wei_nano_market.Prelude.{
  ℕ, ◌≡◌, refl, Bool, true, false, Option, List, ltb, arith, Bool-cases, inl, inr,
}
use di_wei_wei_nano_market.Models.{Db, ModerationCase, ModerationCaseStatus, ModerationContentType}
use di_wei_wei_nano_market.Session.{Env, Action, Session, request, Result-cases, ◌>>=◌}
use di_wei_wei_nano_market.Moderation.Backfill.{
  pending_nano_ids, pending_rating_ids, pending_comment_ids, insert_missing_cases,
  backfill_missing_pending_cases,
}
use di_wei_wei_nano_market.Moderation.Filled.{
  backfilled, part, after_nanos, after_ratings, after_comments,
}
use di_wei_wei_nano_market.Moderation.Queue.{is_active, backfill_if, get_moderation_queue}

-- An action that commits nothing, whether it succeeds or fails.
abbrev KeepsCommitted : {A : Type 0} → Action A → Type 0
KeepsCommitted m = (s : Session) → (m s).1.committed ≡ s.committed

bind-KeepsCommitted :
    {A B : Type 0} (m : Action A) (f : A → Action B)
    → KeepsCommitted m
    → ((a : A) → KeepsCommitted (f a))
    → KeepsCommitted (m >>= f)
bind-KeepsCommitted m f h k s = elim (Result-cases (m s).0) [
  | inl (a, done) ↦ ground (arith, h s, k a (m s).1)
  | inr (e, failed) ↦ ground (arith, h s)
]

part-KeepsCommitted :
    (b : Bool) (env : Env) (k : ℕ) (t : ModerationContentType) (f : Db → List ℕ)
    → KeepsCommitted (part b env k t f)
unfolding insert_missing_cases
part-KeepsCommitted true env k t f s = ground arith
part-KeepsCommitted false env k t f s = ground arith

backfill-KeepsCommitted :
    (env : Env) (t : Option ModerationContentType)
    → KeepsCommitted (backfill_missing_pending_cases env t)
unfolding backfill_missing_pending_cases
backfill-KeepsCommitted env t =
    bind-KeepsCommitted _ (after_nanos env t) (part-KeepsCommitted _ env 0 _ pending_nano_ids)
      λ nanos.
        bind-KeepsCommitted _ (after_ratings env t nanos)
          (part-KeepsCommitted _ env nanos _ pending_rating_ids)
          λ ratings.
            bind-KeepsCommitted _ (after_comments nanos ratings)
              (part-KeepsCommitted _ env _ _ pending_comment_ids) λ comments s. refl

abbrev opened : Db → Session
opened db = record { committed = db; pending = db }

-- Whether it succeeds or fails, the database differs in the table of cases at most.
pub queue_kept :
    (env : Env) (t : Option ModerationContentType) (s : Option ModerationCaseStatus)
    (page limit : ℕ) (db : Db)
    → (cases : List ModerationCase) × ((request (get_moderation_queue env t s page limit) db).1
        ≡ record db { cases = cases })
unfolding get_moderation_queue backfill_if
queue_kept env t s page limit db = elim (Bool-cases (is_active s)) [
  | inr off ↦ (db.cases, ground arith)
  | inl on ↦ elim (Result-cases (backfill_missing_pending_cases env t (opened db)).0) [
    | inr (e, failed) ↦ (db.cases, ground (arith, backfill-KeepsCommitted env t (opened db)))
    | inl (n, done) ↦
        let (k, k', c₁, c₂, c₃, f₁, f₂, f₃, written, none_) = backfilled env t (opened db) n done in
        elim (Bool-cases (ltb 0 n)) [
          | inl some_ ↦ (c₃, ground arith)
          | inr nothing ↦ (db.cases, ground arith)
        ]
  ]
]
