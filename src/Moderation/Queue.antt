-- ===== src/Moderation/Queue.antt =====
-- `get_moderation_queue`: the backfill of missing cases, and a page of the cases that are asked for.
use di_wei_wei_nano_market.Prelude.{
  ℕ, Bool, true, false, Option, none, some, List, ◌==◌, ◌&&◌, ◌||◌, ltb, leb, select,
}
use di_wei_wei_nano_market.Prelude.Pages.{sort_by}
use di_wei_wei_nano_market.Listing.{Listing, listing}
use di_wei_wei_nano_market.Models.{
  Db, ModerationCase, ModerationCaseStatus, ModerationContentType, same_case_status,
}
use di_wei_wei_nano_market.Session.{Env, Action, ◌>>=◌, ◌>>◌, pure, gets, commit}
use di_wei_wei_nano_market.Moderation.Backfill.{is_wanted, backfill_missing_pending_cases}

-- `order_by(ModerationCase.created_at, ModerationCase.id)`
abbrev pub created_first : ModerationCase → ModerationCase → Bool
created_first a b =
    ltb a.created_at b.created_at || ((a.created_at == b.created_at) && leb a.id b.id)

abbrev pub has_status : Option ModerationCaseStatus → ModerationCase → Bool
has_status none c = true
has_status (some s) c = same_case_status c.status s

abbrev pub has_type : Option ModerationContentType → ModerationCase → Bool
has_type t c = is_wanted t c.content_type

abbrev pub queued :
    Option ModerationContentType → Option ModerationCaseStatus → ModerationCase → Bool
queued t s c = has_status s c && has_type t c

unfoldable pub queue_of :
    Option ModerationContentType → Option ModerationCaseStatus → Db → List ModerationCase
queue_of t s db = sort_by created_first (select (queued t s) db.cases)

-- `status_filter in {None, ModerationCaseStatus.PENDING}`
abbrev pub is_active : Option ModerationCaseStatus → Bool
is_active none = true
is_active (some ModerationCaseStatus.pending) = true
is_active (some _) = false

abbrev pub commit_if : Bool → Action (Unit {0})
commit_if true = commit
commit_if false = pure tt

unfoldable pub backfill_if : Bool → Env → Option ModerationContentType → Action (Unit {0})
backfill_if true env content_type = do
  inserted ← backfill_missing_pending_cases env content_type
  commit_if (ltb 0 inserted)
backfill_if false env content_type = pure tt

unfoldable pub get_moderation_queue :
    Env
    → Option ModerationContentType
    → Option ModerationCaseStatus
    → ℕ
    → ℕ
    → Action (Listing ModerationCase)
unfolding backfill_if
get_moderation_queue env content_type status_filter page limit = do
  backfill_if (is_active status_filter) env content_type
  gets (λ db. listing (λ c. c) (queue_of content_type status_filter db) page limit)
