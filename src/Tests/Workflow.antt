-- ===== src/Tests/Workflow.antt =====
-- The publishing workflow on the small market.
use di_wei_wei_nano_market.Prelude.{
  ℕ, ◌≡◌, ◌≢◌, ◌⊎◌, refl, none, some, true, false, [], ◌∷◌, arith, find,
}
use di_wei_wei_nano_market.Models.{
  Db, NanoStatus, pending_review, draft, published, archived, Nano, ModerationCase,
  ModerationContentType, nano_at, case_of,
}
use di_wei_wei_nano_market.Session.{
  ok, err, http_exception, invalid_transition, forbidden, not_deletable,
}
use di_wei_wei_nano_market.Moderation.Cases.{upsert_rows}
use di_wei_wei_nano_market.Moderation.Upsert.{IsOpen}
use di_wei_wei_nano_market.Nanos.Status.{
  StatusUpdateRequest, update_nano_status, AdminTakedownRequest, AdminTakedownResponse,
  admin_takedown_nano, mark_deleted, is_deletable,
}
use di_wei_wei_nano_market.Nanos.Workflow.{Updated, MayMove, submit, IsReady, after_update}
use di_wei_wei_nano_market.Nanos.Transitions.{update_nano_status_sound, update_nano_status_atomic}
use di_wei_wei_nano_market.Nanos.Permitted.{update_nano_status_complete, submission_opens_case}
use di_wei_wei_nano_market.Nanos.Removal.{TakenDown, Deleted, delete_nano_exact}
use di_wei_wei_nano_market.Tests.Data.{env, author, moderator, market, nano_with}

abbrev to : NanoStatus → StatusUpdateRequest
to s = record { status = s; reason = none }

abbrev submitted : Nano × NanoStatus × NanoStatus
submitted = (after_update env pending_review (nano_with 10 draft), draft, pending_review)

submits : (Updated env 10 (to pending_review) author market).0 ≡ ok submitted
unfolding update_nano_status upsert_rows
submits = refl

deleted_stays :
    (Updated env 12 (to draft) author market).0 ≡ err (http_exception 400 invalid_transition)
unfolding update_nano_status
deleted_stays = refl

update_nano_status_sound_example :
    let db' = (Updated env 10 (to pending_review) author market).1 in
    (n : Nano) × (find (nano_at 10) market.nanos ≡ some n)
    × MayMove n author n.status pending_review
    × IsReady env n n.status pending_review
    × (submitted ≡ (after_update env pending_review n, n.status, pending_review))
    × (find (nano_at 10) db'.nanos ≡ some (after_update env pending_review n))
    × ((j : ℕ) → j ≢ 10 → find (nano_at j) db'.nanos ≡ find (nano_at j) market.nanos)
update_nano_status_sound_example =
    update_nano_status_sound env 10 (to pending_review) author market submitted submits

update_nano_status_complete_example :
    (Updated env 10 (to pending_review) author market).0 ≡ ok submitted
unfolding upsert_rows
update_nano_status_complete_example =
    update_nano_status_complete env 10 (to pending_review) author market (nano_with 10 draft) refl
      (submit refl) tt (_, refl) refl

update_nano_status_atomic_example : (Updated env 12 (to draft) author market).1 ≡ market
update_nano_status_atomic_example =
    update_nano_status_atomic env 12 (to draft) author market
      (http_exception 400 invalid_transition) deleted_stays (ground arith)

submission_opens_case_example :
    (c : ModerationCase) × (find
        (case_of ModerationContentType.nano 10)
        (Updated env 10 (to pending_review) author market).1.cases
      ≡ some c)
    × IsOpen c
submission_opens_case_example =
    submission_opens_case env 10 (to pending_review) author market (nano_with 10 draft) submitted
      refl refl (ground arith) submits

abbrev complaint : AdminTakedownRequest
complaint = record { reason = 67 ∷ []; note = none }

abbrev answer : AdminTakedownResponse
answer = record {
  nano_id = 11;
  old_status = published;
  new_status = archived;
  already_removed = false;
  taken_down_at = 5000;
}

takes_down : (TakenDown env 11 complaint moderator market).0 ≡ ok answer
unfolding admin_takedown_nano
takes_down = refl

abbrev once : Db
once = (TakenDown env 11 complaint moderator market).1

abbrev second_answer : AdminTakedownResponse
second_answer = record answer { old_status = archived; already_removed = true }

takes_down_again :
    (TakenDown (record env { now = 9000 }) 11 complaint moderator once).0 ≡ ok second_answer
unfolding admin_takedown_nano
takes_down_again = refl

delete_nano_exact_example :
    ((Deleted env 10 1 market).0 ≡ ok tt
      × ((nano_with 10 draft).creator_id ≡ author.user_id)
      × (is_deletable draft ≡ true)
      × (find (nano_at 10) (Deleted env 10 1 market).1.nanos
          ≡ some (mark_deleted (nano_with 10 draft)))
      × ((j : ℕ)
          → j ≢ 10
          → find (nano_at j) (Deleted env 10 1 market).1.nanos ≡ find (nano_at j) market.nanos))
    ⊎ ((Deleted env 10 1 market).0 ≡ err (http_exception 403 forbidden)
        × ((nano_with 10 draft).creator_id ≢ author.user_id)
        × ((Deleted env 10 1 market).1 ≡ market))
    ⊎ ((Deleted env 10 1 market).0 ≡ err (http_exception 400 not_deletable)
        × ((nano_with 10 draft).creator_id ≡ author.user_id)
        × (is_deletable draft ≡ false)
        × ((Deleted env 10 1 market).1 ≡ market))
delete_nano_exact_example = delete_nano_exact env 10 1 market (nano_with 10 draft) refl refl
