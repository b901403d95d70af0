-- ===== src/Moderation/Decisions.antt =====
-- What a decision on a moderation case does: to the case, to its content, and what it leaves alone.
use di_wei_wei_nano_market.Prelude.{
  ℕ, ◌≡◌, refl, true, false, some, inl, inr, arith, find, modify, Option-cases,
}
use di_wei_wei_nano_market.Models.{
  ModerationCase, ModerationContentType, Db, TokenData, Nano, nano_at,
}
use di_wei_wei_nano_market.Session.{Env, Error, Result, ok, err, request}
use di_wei_wei_nano_market.Publishing.{missing_fields, is_complete}
use di_wei_wei_nano_market.Moderation.Content.{
  Decision, approve, DecisionText, valid, other, ModerationReviewRequest, apply_decision_to_content,
}
use di_wei_wei_nano_market.Moderation.Review.{case_at, decide_case, review_moderation_case}

-- A review that fails, for whatever reason, leaves the database as it was.
pub review_unchanged :
    (env : Env) (k : ℕ) (q : ModerationReviewRequest) (user : TokenData) (db : Db) (e : Error)
    → (request (review_moderation_case env k q user) db).0 ≡ err e
    → (request (review_moderation_case env k q user) db).1 ≡ db
unfolding review_moderation_case apply_decision_to_content
review_unchanged env k q user db e h = ground arith

abbrev pub Reviewed :
    Env → ℕ → ModerationReviewRequest → TokenData → Db → Result ModerationCase × Db
Reviewed env k q user db = request (review_moderation_case env k q user) db

pub review-cases :
    (env : Env) (k : ℕ) (q : ModerationReviewRequest) (user : TokenData) (db : Db)
    (c' : ModerationCase)
    → (Reviewed env k q user db).0 ≡ ok c'
    → (d : Decision) × (c : ModerationCase) × (q.decision ≡ valid d)
      × (find (case_at k) db.cases ≡ some c)
      × (c' ≡ decide_case env d q user c)
      × ((Reviewed env k q user db).1.cases
          ≡ modify (case_at k) (decide_case env d q user) db.cases)
unfolding review_moderation_case apply_decision_to_content
review-cases env k q user db c' h = elim (Option-cases (find (case_at k) db.cases)) [
  | inl missing ↦ absurd (ground arith)
  | inr (c, found) ↦ go q.decision refl c found
]
  where
    go :
        (t : DecisionText)
        → q.decision ≡ t
        → (c : ModerationCase) → find (case_at k) db.cases ≡ some c
        → (d : Decision) × (c : ModerationCase) × (q.decision ≡ valid d)
          × (find (case_at k) db.cases ≡ some c)
          × (c' ≡ decide_case env d q user c)
          × ((Reviewed env k q user db).1.cases
              ≡ modify (case_at k) (decide_case env d q user) db.cases)
    go (valid d) e c found = (d, c, e, found, ground arith, ground arith)
    go (other x) e c found = absurd (ground arith)

-- A review with one of the four decisions, for a case that exists, succeeds and answers with the
-- decided case, provided that a Nano that an approval would publish has complete metadata.
pub review_accepts :
    (env : Env) (k : ℕ) (q : ModerationReviewRequest) (user : TokenData) (db : Db) (d : Decision)
    (c : ModerationCase)
    → q.decision ≡ valid d
    → find (case_at k) db.cases ≡ some c
    → (d ≡ approve
        → c.content_type ≡ ModerationContentType.nano
        → (n : Nano) → find (nano_at c.content_id) db.nanos ≡ some n
        → is_complete (missing_fields n) ≡ true)
    → (Reviewed env k q user db).0 ≡ ok (decide_case env d q user c)
unfolding review_moderation_case apply_decision_to_content
review_accepts env k q user db d c dec found complete =
    elim (Option-cases (find (nano_at c.content_id) db.nanos)) [
      | inl gone ↦ ground arith
      | inr (n, there) ↦ ground (
        arith,
        λ (a : d ≡ approve) (b : c.content_type ≡ ModerationContentType.nano). complete a b n there,
      )
    ]

-- Whether the database takes the audit entry changes neither the answer of a review nor anything in
-- the database but the audit log.
pub audit_independent :
    (env : Env) (k : ℕ) (q : ModerationReviewRequest) (user : TokenData) (db : Db)
    → let lost = Reviewed (record env { audit_ok = false }) k q user db in
      let kept = Reviewed (record env { audit_ok = true }) k q user db in
      (lost.0 ≡ kept.0) × (lost.1 ≡ record kept.1 { audit_logs = db.audit_logs })
unfolding review_moderation_case apply_decision_to_content
audit_independent env k q user db = ground arith
