-- ===== src/Tests/Moderated.antt =====
-- Decisions on moderation cases, on the small market.
use di_wei_wei_nano_market.Prelude.{ℕ, ◌≡◌, ◌≢◌, refl, some, List, [], ◌∷◌, arith, find}
use di_wei_wei_nano_market.Models.{Db, ModerationCase, ModerationContentType, deleted, nano_at}
use di_wei_wei_nano_market.Session.{ok, err, http_exception, missing_metadata}
use di_wei_wei_nano_market.Prelude.Text.{strip, is_space}
use di_wei_wei_nano_market.Publishing.{missing_fields}
use di_wei_wei_nano_market.Moderation.Cases.{upsert_rows, reset_case}
use di_wei_wei_nano_market.Moderation.Content.{
  Decision, approve, valid, publish, apply_decision_to_content,
}
use di_wei_wei_nano_market.Moderation.Review.{case_at, decide_case, review_moderation_case}
use di_wei_wei_nano_market.Moderation.Decisions.{Reviewed, review_unchanged, review_accepts}
use di_wei_wei_nano_market.Moderation.Outcomes.{IsDecided, review_decides, approve_publishes_any}
use di_wei_wei_nano_market.Tests.Data.{
  env, moderator, market, nano_with, case_with, review_of, hello,
}

abbrev nano_case : ModerationCase
nano_case = case_with 30 ModerationContentType.nano 12

abbrev rating_case : ModerationCase
rating_case = case_with 31 ModerationContentType.nano_rating 20

abbrev approved_case : ModerationCase
approved_case = decide_case env approve (review_of approve) moderator rating_case

-- The same market with a Nano 12 that has no title.
abbrev untitled : Db
untitled = record market { nanos = record (nano_with 12 deleted) { title = [] } ∷ [] }

approves : (Reviewed env 31 (review_of approve) moderator market).0 ≡ ok approved_case
unfolding review_moderation_case apply_decision_to_content
approves = refl

refuses :
    (Reviewed env 30 (review_of approve) moderator untitled).0
    ≡ err (http_exception 400 missing_metadata)
unfolding review_moderation_case apply_decision_to_content missing_fields
refuses = refl

review_decides_example :
    let db' = (Reviewed env 31 (review_of approve) moderator market).1 in
    (d : Decision) × (c : ModerationCase) × (valid approve ≡ valid d)
    × (find (case_at 31) market.cases ≡ some c)
    × (approved_case ≡ decide_case env d (review_of approve) moderator c)
    × (find (case_at 31) db'.cases ≡ some approved_case)
    × ((j : ℕ) → j ≢ 31 → find (case_at j) db'.cases ≡ find (case_at j) market.cases)
    × IsDecided env d moderator (some hello) c.content_type c.content_id market db'
review_decides_example =
    review_decides env 31 (review_of approve) moderator market approved_case approves

review_accepts_example : (Reviewed env 31 (review_of approve) moderator market).0 ≡ ok approved_case
review_accepts_example =
    review_accepts env 31 (review_of approve) moderator market approve rating_case refl refl
      (λ _ other. ground arith)

review_unchanged_example : (Reviewed env 30 (review_of approve) moderator untitled).1 ≡ untitled
review_unchanged_example =
    review_unchanged env 30 (review_of approve) moderator untitled
      (http_exception 400 missing_metadata) refuses

approve_publishes_any_example :
    find (nano_at 12) (Reviewed env 30 (review_of approve) moderator market).1.nanos
    ≡ some (publish env (nano_with 12 deleted))
unfolding missing_fields strip is_space
approve_publishes_any_example =
    approve_publishes_any env 30 (review_of approve) moderator market nano_case
      (nano_with 12 deleted) refl refl refl refl refl

abbrev reopened : List ModerationCase
reopened = approved_case ∷ nano_case ∷ []

abbrev reopened_after : List ModerationCase
reopened_after = reset_case (some 3) approved_case ∷ nano_case ∷ []

reopens :
    upsert_rows env ModerationContentType.nano_rating 20 (some 3) reopened ≡ some reopened_after
unfolding upsert_rows
reopens = refl
