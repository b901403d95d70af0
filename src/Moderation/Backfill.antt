-- ===== src/Moderation/Backfill.antt =====
-- `_backfill_missing_pending_cases` and `_insert_missing_cases_for_content_type`.
use di_wei_wei_nano_market.Prelude.{
  ℕ, suc, ◌+◌, Bool, true, false, not, Option, none, some, List, [], ◌∷◌, map, ◌&&◌, select, is_in,
  length,
}
use di_wei_wei_nano_market.Models.{
  Db, ModerationCase, ModerationContentType, same_content_type, is_pending_review, is_pending,
}
use di_wei_wei_nano_market.Session.{Env, Action, ◌>>=◌, ◌>>◌, pure, gets}
use di_wei_wei_nano_market.Moderation.Cases.{new_case, insert_case, write_cases}

-- The content ids of the cases of a type, among the given ones.
abbrev pub existing_ids : ModerationContentType → List ℕ → List ModerationCase → List ℕ
existing_ids t ids cases =
    map (λ c. c.content_id)
      (select (λ c. same_content_type c.content_type t && is_in c.content_id ids) cases)

abbrev pub missing_ids : ModerationContentType → List ℕ → List ModerationCase → List ℕ
missing_ids t ids cases = select (λ i. not (is_in i (existing_ids t ids cases))) ids

abbrev insert_next :
    (List ModerationCase → Option (List ModerationCase))
    → Option (List ModerationCase)
    → Option (List ModerationCase)
insert_next f none = none
insert_next f (some cases) = f cases

-- `db.add_all` and the flush; `k` numbers the rows that the request adds in bulk.
unfoldable pub insert_all :
    Env → ℕ → ModerationContentType → List ℕ → List ModerationCase → Option (List ModerationCase)
insert_all env k t [] cases = some cases
insert_all env k t (i ∷ is) cases =
    insert_next (insert_all env (suc k) t is)
      (insert_case (new_case env (env.bulk_ids k) t i none) cases)

unfoldable pub insert_missing_cases : Env → ℕ → ModerationContentType → List ℕ → Action ℕ
insert_missing_cases env k t ids = do
  missing ← gets (λ db. missing_ids t ids db.cases)
  rows ← gets (λ db. insert_all env k t missing db.cases)
  write_cases rows
  pure (length missing)

abbrev pub pending_nano_ids : Db → List ℕ
pending_nano_ids db = map (λ n. n.id) (select (λ n. is_pending_review n.status) db.nanos)

abbrev pub pending_rating_ids : Db → List ℕ
pending_rating_ids db = map (λ r. r.id) (select (λ r. is_pending r.moderation_status) db.ratings)

abbrev pub pending_comment_ids : Db → List ℕ
pending_comment_ids db = map (λ c. c.id) (select (λ c. is_pending c.moderation_status) db.comments)

-- `content_type in {None, …}`
abbrev pub is_wanted : Option ModerationContentType → ModerationContentType → Bool
is_wanted none t = true
is_wanted (some u) t = same_content_type u t

abbrev pub if_wanted : Bool → Action ℕ → Action ℕ
if_wanted true m = m
if_wanted false m = pure 0

unfoldable pub backfill_missing_pending_cases : Env → Option ModerationContentType → Action ℕ
backfill_missing_pending_cases env content_type = do
  nanos ←
      if_wanted (is_wanted content_type ModerationContentType.nano)
        (do ids ← gets pending_nano_ids; insert_missing_cases env 0 ModerationContentType.nano ids)
  ratings ← if_wanted (is_wanted content_type ModerationContentType.nano_rating) (do
    ids ← gets pending_rating_ids
    insert_missing_cases env nanos ModerationContentType.nano_rating ids)
  comments ← if_wanted (is_wanted content_type ModerationContentType.nano_comment) (do
    ids ← gets pending_comment_ids
    insert_missing_cases env (nanos + ratings) ModerationContentType.nano_comment ids)
  pure (nanos + ratings + comments)
