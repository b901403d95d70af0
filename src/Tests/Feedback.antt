-- ===== src/Tests/Feedback.antt =====
-- Ratings, comments and flags on the small market.
use di_wei_wei_nano_market.Prelude.{
  ℕ, ◌≡◌, ◌≢◌, ◌≤◌, refl, none, some, true, false, List, [], ◌∷◌, find, any, length,
}
use di_wei_wei_nano_market.Models.{
  Nano, NanoComment, ModerationCase, ModerationContentType, FlagReason, nano_at, case_of,
  comment_by, is_published,
}
use di_wei_wei_nano_market.Session.{ok, request}
use di_wei_wei_nano_market.Moderation.Cases.{upsert_rows}
use di_wei_wei_nano_market.Moderation.Upsert.{IsOpen}
use di_wei_wei_nano_market.Nanos.Sanitize.{
  escape, is_unsafe, sanitize_comment_content, sanitized_safe,
}
use di_wei_wei_nano_market.Prelude.Text.{strip, is_space}
use di_wei_wei_nano_market.Nanos.Comments.{
  create_nano_comment, update_nano_comment, comment_of, can_manage_comment, new_comment, rewrite,
}
use di_wei_wei_nano_market.Nanos.Flags.{
  flag_comment_fits, NanoFlagCreateRequest, create_nano_flag, get_my_nano_flag, new_flag,
}
use di_wei_wei_nano_market.Nanos.Feedback.{
  Commented, Edited, Flagged, IsUnmoderated, create_comment_stores, update_comment_reopens,
  flag_round_trip,
}
use di_wei_wei_nano_market.Tests.Data.{env, author, moderator, reader, market, comment}

-- " <b\r " and what is stored for it, "&lt;b"
abbrev typed : List ℕ
typed = 32 ∷ 60 ∷ 98 ∷ 13 ∷ 32 ∷ []

abbrev stored : NanoComment
stored = new_comment env 11 1 (38 ∷ 108 ∷ 116 ∷ 59 ∷ 98 ∷ [])

comments : (Commented env 11 typed author market).0 ≡ ok stored
unfolding create_nano_comment sanitize_comment_content escape strip is_space upsert_rows
comments = refl

create_comment_stores_example :
    let db' = (Commented env 11 typed author market).1 in
    (n : Nano) × (m : ModerationCase) × (find (nano_at 11) market.nanos ≡ some n)
    × (is_published n.status ≡ true)
    × (find (comment_by 11 1) market.comments ≡ none)
    × (find (comment_by 11 1) db'.comments ≡ some stored)
    × (stored.content ≡ sanitize_comment_content typed)
    × (1 ≤ length stored.content)
    × (length stored.content ≤ 1000)
    × IsUnmoderated stored
    × (find (case_of ModerationContentType.nano_comment stored.id) db'.cases ≡ some m)
    × IsOpen m
create_comment_stores_example = create_comment_stores env 11 typed author market stored comments

abbrev edited : NanoComment
edited = rewrite (38 ∷ 108 ∷ 116 ∷ 59 ∷ 98 ∷ []) comment

edits : (Edited env 11 21 typed reader market).0 ≡ ok edited
unfolding update_nano_comment sanitize_comment_content escape strip is_space upsert_rows
edits = refl

update_comment_reopens_example :
    let db' = (Edited env 11 21 typed reader market).1 in
    (n : Nano) × (old : NanoComment) × (m : ModerationCase) × (find (nano_at 11) market.nanos
      ≡ some n)
    × (is_published n.status ≡ true)
    × (find (comment_of 21 11) market.comments ≡ some old)
    × (can_manage_comment old reader ≡ true)
    × (find (comment_of 21 11) db'.comments ≡ some edited)
    × (edited ≡ rewrite (sanitize_comment_content typed) old)
    × (length edited.content ≤ 1000)
    × (find (case_of ModerationContentType.nano_comment edited.id) db'.cases ≡ some m)
    × IsOpen m
update_comment_reopens_example = update_comment_reopens env 11 21 typed reader market edited edits

sanitized_safe_example : any is_unsafe (sanitize_comment_content typed) ≡ false
sanitized_safe_example = sanitized_safe typed

abbrev report : NanoFlagCreateRequest
report = record { reason = FlagReason.copyright; comment = none }

flags : (Flagged env 11 report moderator market).0 ≡ ok (new_flag env 11 moderator report)
unfolding create_nano_flag upsert_rows
flags = refl

flag_round_trip_example :
    let db' = (Flagged env 11 report moderator market).1 in
    (n : Nano) × (m : ModerationCase) × (find (nano_at 11) market.nanos ≡ some n)
    × (is_published n.status ≡ true)
    × (n.creator_id ≢ 2)
    × ((request (get_my_nano_flag 11 moderator) db').0 ≡ ok (new_flag env 11 moderator report))
    × (new_flag env 11 moderator report ≡ new_flag env 11 moderator report)
    × (flag_comment_fits (new_flag env 11 moderator report).comment ≡ true)
    × (find (case_of ModerationContentType.flag 100) db'.cases ≡ some m)
    × IsOpen m
    × (m.reporter_id ≡ some 2)
flag_round_trip_example =
    flag_round_trip env 11 report moderator market (new_flag env 11 moderator report) flags
