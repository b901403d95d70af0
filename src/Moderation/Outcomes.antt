-- ===== src/Moderation/Outcomes.antt =====
-- What a decision does to the content under review, by its type.
use mathlib.Core.Option
use di_wei_wei_nano_market.Prelude.{
  ℕ, ◌≡◌, ◌≢◌, refl, true, Option, some, List, inl, inr, arith, find, modify, Option-cases,
  find-modify_self, find-modify_other, find-sat, ap, ◌∙◌,
}
use di_wei_wei_nano_market.Models.{
  ModerationCase, ModerationContentType, Db, TokenData, Nano, NanoRating, NanoComment,
  FeedbackModerationStatus, Text, nano_at, find-modify_nano,
}
use di_wei_wei_nano_market.Session.{Env, ok}
use di_wei_wei_nano_market.Publishing.{missing_fields, is_complete}
use di_wei_wei_nano_market.Moderation.Content.{
  Decision, approve, reject, defer, escalate, valid, ModerationReviewRequest,
  apply_decision_to_content, publish, unpublish, mark_rating, mark_comment, mark_flag, rating_at,
  comment_at, flag_at,
}
use di_wei_wei_nano_market.Moderation.Review.{case_at, decide_case, review_moderation_case}
use di_wei_wei_nano_market.Moderation.Decisions.{Reviewed, review-cases, review_accepts}

abbrev pub nano_outcome : Env → Decision → Nano → Nano
nano_outcome env approve n = publish env n
nano_outcome env reject n = unpublish n
nano_outcome env defer n = n
nano_outcome env escalate n = n

abbrev pub rating_outcome : Env → Decision → TokenData → Option Text → NanoRating → NanoRating
rating_outcome env approve user reason r =
    mark_rating env FeedbackModerationStatus.approved user reason r
rating_outcome env reject user reason r =
    mark_rating env FeedbackModerationStatus.hidden user reason r
rating_outcome env defer user reason r = r
rating_outcome env escalate user reason r = r

abbrev pub comment_outcome : Env → Decision → TokenData → Option Text → NanoComment → NanoComment
comment_outcome env approve user reason c =
    mark_comment env FeedbackModerationStatus.approved user reason c
comment_outcome env reject user reason c =
    mark_comment env FeedbackModerationStatus.hidden user reason c
comment_outcome env defer user reason c = c
comment_outcome env escalate user reason c = c

abbrev pub IsDecided :
    Env → Decision → TokenData → Option Text → ModerationContentType → ℕ → Db → Db → Type 0
IsDecided env d user reason ModerationContentType.nano i db db' =
    find (nano_at i) db'.nanos ≡ Option.map (nano_outcome env d) (find (nano_at i) db.nanos)
IsDecided env d user reason ModerationContentType.nano_rating i db db' =
    find (rating_at i) db'.ratings
    ≡ Option.map (rating_outcome env d user reason) (find (rating_at i) db.ratings)
IsDecided env d user reason ModerationContentType.nano_comment i db db' =
    find (comment_at i) db'.comments
    ≡ Option.map (comment_outcome env d user reason) (find (comment_at i) db.comments)
IsDecided env d user reason ModerationContentType.flag i db db' =
    find (flag_at i) db'.flags ≡ Option.map (mark_flag env d user) (find (flag_at i) db.flags)

module _ (env : Env) (k : ℕ) (q : ModerationReviewRequest) (user : TokenData) (db : Db)
    (d : Decision) (c c' : ModerationCase) (dec : q.decision ≡ valid d)
    (found : find (case_at k) db.cases ≡ some c)
    (accepted : (Reviewed env k q user db).0 ≡ ok c') where
  nano-IsDecided :
      c.content_type ≡ ModerationContentType.nano
      → IsDecided env d user q.reason ModerationContentType.nano c.content_id db
          (Reviewed env k q user db).1
  unfolding review_moderation_case apply_decision_to_content
  nano-IsDecided t = elim (Option-cases (find (nano_at c.content_id) db.nanos)) [
    | inl gone ↦ ground arith
    | inr (n, there) ↦ ground (
      arith,
      find-sat (nano_at c.content_id) db.nanos there,
      find-modify_nano c.content_id c.content_id (publish env) db.nanos (λ _. refl),
      find-modify_nano c.content_id c.content_id unpublish db.nanos (λ _. refl),
    )
  ]

  rating-IsDecided :
      c.content_type ≡ ModerationContentType.nano_rating
      → IsDecided env d user q.reason ModerationContentType.nano_rating c.content_id db
          (Reviewed env k q user db).1
  unfolding review_moderation_case apply_decision_to_content
  rating-IsDecided t = elim (Option-cases (find (rating_at c.content_id) db.ratings)) [
    | inl gone ↦ ground arith
    | inr (r, there) ↦ ground (
      arith,
      find-sat (rating_at c.content_id) db.ratings there,
      find-modify_self (rating_at c.content_id)
          (mark_rating env FeedbackModerationStatus.approved user q.reason) db.ratings (λ _ h. h),
      find-modify_self (rating_at c.content_id)
          (mark_rating env FeedbackModerationStatus.hidden user q.reason) db.ratings (λ _ h. h),
    )
  ]

  comment-IsDecided :
      c.content_type ≡ ModerationContentType.nano_comment
      → IsDecided env d user q.reason ModerationContentType.nano_comment c.content_id db
          (Reviewed env k q user db).1
  unfolding review_moderation_case apply_decision_to_content
  comment-IsDecided t = ground (
    arith,
    find-modify_self (comment_at c.content_id)
        (mark_comment env FeedbackModerationStatus.approved user q.reason) db.comments (λ _ h. h),
    find-modify_self (comment_at c.content_id)
        (mark_comment env FeedbackModerationStatus.hidden user q.reason) db.comments (λ _ h. h),
  )

  flag-IsDecided :
      c.content_type ≡ ModerationContentType.flag
      → IsDecided env d user q.reason ModerationContentType.flag c.content_id db
          (Reviewed env k q user db).1
  unfolding review_moderation_case apply_decision_to_content
  flag-IsDecided t =
      ground
        (arith, find-modify_self (flag_at c.content_id) (mark_flag env d user) db.flags (λ _ h. h))

  content-IsDecided :
      (t : ModerationContentType)
      → c.content_type ≡ t
      → IsDecided env d user q.reason t c.content_id db (Reviewed env k q user db).1
  content-IsDecided ModerationContentType.nano t = nano-IsDecided t
  content-IsDecided ModerationContentType.nano_rating t = rating-IsDecided t
  content-IsDecided ModerationContentType.nano_comment t = comment-IsDecided t
  content-IsDecided ModerationContentType.flag t = flag-IsDecided t

other_case :
    (f : ModerationCase → ModerationCase) (j k : ℕ) (cs : List ModerationCase)
    → ((c : ModerationCase) → (f c).id ≡ c.id)
    → j ≢ k
    → find (case_at j) (modify (case_at k) f cs) ≡ find (case_at j) cs
other_case f j k cs keep ne =
    find-modify_other (case_at k) (case_at j) f cs (λ x p. ground arith)
      (λ x p. ground (arith, keep x))

-- A review that succeeds had one of the four decisions and a case with the given id. That case then
-- carries the decision, every other case is as before, and the content, where it still exists, has
-- the status that the decision calls for at its type.
pub review_decides :
    (env : Env) (k : ℕ) (q : ModerationReviewRequest) (user : TokenData) (db : Db)
    (c' : ModerationCase)
    → (Reviewed env k q user db).0 ≡ ok c'
    → let db' = (Reviewed env k q user db).1 in
      (d : Decision) × (c : ModerationCase) × (q.decision ≡ valid d)
      × (find (case_at k) db.cases ≡ some c)
      × (c' ≡ decide_case env d q user c)
      × (find (case_at k) db'.cases ≡ some c')
      × ((j : ℕ) → j ≢ k → find (case_at j) db'.cases ≡ find (case_at j) db.cases)
      × IsDecided env d user q.reason c.content_type c.content_id db db'
review_decides env k q user db c' h =
    let (d, c, dec, found, eq, cases) = review-cases env k q user db c' h in
    (
      d,
      c,
      dec,
      found,
      eq,
      ground (arith, find-modify_self (case_at k) (decide_case env d q user) db.cases (λ _ p. p)),
      λ j ne. rw cases (other_case (decide_case env d q user) j k db.cases (λ _. refl) ne),
      content-IsDecided env k q user db d c c' dec found h c.content_type refl,
    )

-- An approval of a case for a complete Nano publishes the Nano whatever its status is at that time,
-- so also a Nano that was deleted or archived after it was submitted.
pub approve_publishes_any :
    (env : Env) (k : ℕ) (q : ModerationReviewRequest) (user : TokenData) (db : Db)
    (c : ModerationCase) (n : Nano)
    → q.decision ≡ valid approve
    → find (case_at k) db.cases ≡ some c
    → c.content_type ≡ ModerationContentType.nano
    → find (nano_at c.content_id) db.nanos ≡ some n
    → is_complete (missing_fields n) ≡ true
    → find (nano_at c.content_id) (Reviewed env k q user db).1.nanos ≡ some (publish env n)
approve_publishes_any env k q user db c n dec found t there complete =
    let accepted = review_accepts env k q user db approve c dec found (λ _ _ m e. ground arith) in
    nano-IsDecided env k q user db approve c (decide_case env approve q user c) dec found accepted t
    ∙ ap (Option.map (publish env)) there
