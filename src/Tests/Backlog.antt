-- ===== src/Tests/Backlog.antt =====
-- A market with a Nano under review, a pending rating and a pending comment, and one case.
use mathlib.Core.List.{Perm}
use di_wei_wei_nano_market.Prelude.{ℕ, ◌≡◌, refl, true, none, some, [], ◌∷◌, find, select}
use di_wei_wei_nano_market.Prelude.Pages.{page_of}
use di_wei_wei_nano_market.Listing.{Listing, listing}
use di_wei_wei_nano_market.Models.{
  Db, ModerationCase, ModerationContentType, FeedbackModerationStatus, pending_review, case_of,
}
use di_wei_wei_nano_market.Session.{ok}
use di_wei_wei_nano_market.Moderation.Upsert.{IsUnique}
use di_wei_wei_nano_market.Moderation.Backfill.{
  backfill_missing_pending_cases, insert_missing_cases, insert_all,
}
use di_wei_wei_nano_market.Moderation.Queue.{queue_of, queued, get_moderation_queue}
use di_wei_wei_nano_market.Moderation.Complete.{Queued, HasCases, queue_complete}
use di_wei_wei_nano_market.Tests.Data.{env, market, nano_with, rating, comment, case_with}

abbrev backlog : Db
backlog = record market {
  nanos = nano_with 13 pending_review ∷ nano_with 14 pending_review ∷ [];
  ratings = rating ∷ [];
  comments = record comment { moderation_status = FeedbackModerationStatus.pending } ∷ [];
  cases = case_with 30 ModerationContentType.nano 13 ∷ [];
}

abbrev answer : Listing ModerationCase
answer = listing (λ c. c) (queue_of none none (Queued env none none 1 20 backlog).1) 1 20

queue_answer : (Queued env none none 1 20 backlog).0 ≡ ok answer
unfolding get_moderation_queue backfill_missing_pending_cases insert_missing_cases insert_all
queue_answer = refl

queue_complete_example :
    let db' = (Queued env none none 1 20 backlog).1 in
    (true ≡ true → HasCases ModerationContentType.nano (13 ∷ 14 ∷ []) db'.cases)
    × (true ≡ true → HasCases ModerationContentType.nano_rating (20 ∷ []) db'.cases)
    × (true ≡ true → HasCases ModerationContentType.nano_comment (21 ∷ []) db'.cases)
    × ((u : ModerationContentType) (i : ℕ) (c : ModerationCase)
        → find (case_of u i) backlog.cases ≡ some c
        → find (case_of u i) db'.cases ≡ some c)
    × (IsUnique backlog.cases → IsUnique db'.cases)
    × (db' ≡ record backlog { cases = db'.cases })
    × (answer.items ≡ page_of 1 20 (queue_of none none db'))
    × Perm (queue_of none none db') (select (queued none none) db'.cases)
queue_complete_example = queue_complete env none none 1 20 backlog answer refl queue_answer
