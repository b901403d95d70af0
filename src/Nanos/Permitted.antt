-- ===== src/Nanos/Permitted.antt =====
-- The converse: what the rules allow, `update_nano_status` does; and the review case that a
-- submission opens.
use di_wei_wei_nano_market.Prelude.{
  ℕ, ◌≡◌, ◌≢◌, refl, true, false, some, none, List, inl, inr, arith, find, Option-cases,
}
use di_wei_wei_nano_market.Models.{
  Db, TokenData, Nano, NanoStatus, draft, pending_review, published, archived, deleted, nano_at,
  case_of, same_status, find-modify_nano, ModerationCase, ModerationContentType,
}
use di_wei_wei_nano_market.Session.{Env, ok, err, sqlalchemy_error}
use di_wei_wei_nano_market.Moderation.Cases.{upsert_rows}
use di_wei_wei_nano_market.Moderation.Upsert.{IsOpen, upsert_rows-IsOpen}
use di_wei_wei_nano_market.Nanos.Status.{StatusUpdateRequest, move_to, update_nano_status}
use di_wei_wei_nano_market.Nanos.Workflow.{
  Updated, MayMove, submit, publish_own, shelve, discard, withdraw, turn_down, accept,
  shelve_submitted, retire, unpublish, purge, stay, IsReady, after_update,
}

-- Whether the upsert of the review case can write.
abbrev pub CanOpen : Env → Db → Nano → NanoStatus → Type 0
CanOpen env db n pending_review =
    (cases : List ModerationCase) × (upsert_rows env ModerationContentType.nano n.id none db.cases
      ≡ some cases)
CanOpen env db n _ = Unit

module _ (env : Env) (i : ℕ) (q : StatusUpdateRequest) (user : TokenData) (db : Db) (n : Nano)
    (found : find (nano_at i) db.nanos ≡ some n) where
  permitted :
      (s t : NanoStatus)
      → n.status ≡ s
      → q.status ≡ t
      → MayMove n user s t
      → IsReady env n s t
      → CanOpen env db n t
      → env.audit_ok ≡ true
      → (Updated env i q user db).0 ≡ ok (after_update env t n, s, t)
  unfolding update_nano_status
  permitted _ _ a b (submit c) ready (cs, w) audit = ground arith
  permitted _ _ a b (publish_own c m) ready can audit = ground arith
  permitted _ _ a b (shelve c) ready can audit = ground arith
  permitted _ _ a b (discard c) ready can audit = ground arith
  permitted _ _ a b (withdraw c) ready can audit = ground arith
  permitted _ _ a b (turn_down m) ready can audit = ground arith
  permitted _ _ a b (accept m) ready can audit = ground arith
  permitted _ _ a b (shelve_submitted c) ready can audit = ground arith
  permitted _ _ a b (retire c) ready can audit = ground arith
  permitted _ _ a b (unpublish c) (at, p, le) can audit = ground arith
  permitted _ _ a b (purge c) ready can audit = ground arith
  permitted _ _ a b (stay {s = draft} c m) ready can audit = ground arith
  permitted _ _ a b (stay {s = pending_review} c m) ready can audit = ground arith
  permitted _ _ a b (stay {s = published} c m) ready can audit = ground arith
  permitted _ _ a b (stay {s = archived} c m) ready can audit = ground arith
  permitted _ _ a b (stay {s = deleted} c m) ready can audit = ground arith

  opens :
      (s : NanoStatus) (r : Nano × NanoStatus × NanoStatus)
      → n.status ≡ s
      → q.status ≡ pending_review
      → same_status s pending_review ≡ false
      → (Updated env i q user db).0 ≡ ok r
      → upsert_rows env ModerationContentType.nano n.id none db.cases
        ≡ some (Updated env i q user db).1.cases
  unfolding update_nano_status
  opens draft r a b c h =
      elim (Option-cases (upsert_rows env ModerationContentType.nano n.id none db.cases)) [
        | inl refused ↦ absurd (ground arith)
        | inr (cs, w) ↦ ground arith
      ]
  opens pending_review r a b c h = cc
  opens _ r a b c h = absurd (ground arith)

  -- With a refused audit entry the request fails, and the new status is committed all the same.
  unaudited :
      (s t : NanoStatus)
      → n.status ≡ s
      → q.status ≡ t
      → same_status s t ≡ false
      → MayMove n user s t
      → IsReady env n s t
      → CanOpen env db n t
      → env.audit_ok ≡ false
      → ((Updated env i q user db).0 ≡ err sqlalchemy_error)
        × (find (nano_at i) (Updated env i q user db).1.nanos ≡ some (move_to env t n))
        × ((Updated env i q user db).1.audit_logs ≡ db.audit_logs)
  unfolding update_nano_status
  unaudited _ _ a b x (submit c) ready (cs, w) audit =
      ground (arith, find-modify_nano i i (move_to env pending_review) db.nanos (λ _. refl))
  unaudited _ _ a b x (publish_own c m) ready can audit =
      ground (arith, find-modify_nano i i (move_to env published) db.nanos (λ _. refl))
  unaudited _ _ a b x (shelve c) ready can audit =
      ground (arith, find-modify_nano i i (move_to env archived) db.nanos (λ _. refl))
  unaudited _ _ a b x (discard c) ready can audit =
      ground (arith, find-modify_nano i i (move_to env deleted) db.nanos (λ _. refl))
  unaudited _ _ a b x (withdraw c) ready can audit =
      ground (arith, find-modify_nano i i (move_to env draft) db.nanos (λ _. refl))
  unaudited _ _ a b x (turn_down m) ready can audit =
      ground (arith, find-modify_nano i i (move_to env draft) db.nanos (λ _. refl))
  unaudited _ _ a b x (accept m) ready can audit =
      ground (arith, find-modify_nano i i (move_to env published) db.nanos (λ _. refl))
  unaudited _ _ a b x (shelve_submitted c) ready can audit =
      ground (arith, find-modify_nano i i (move_to env archived) db.nanos (λ _. refl))
  unaudited _ _ a b x (retire c) ready can audit =
      ground (arith, find-modify_nano i i (move_to env archived) db.nanos (λ _. refl))
  unaudited _ _ a b x (unpublish c) (at, p, le) can audit =
      ground (arith, find-modify_nano i i (move_to env draft) db.nanos (λ _. refl))
  unaudited _ _ a b x (purge c) ready can audit =
      ground (arith, find-modify_nano i i (move_to env deleted) db.nanos (λ _. refl))
  unaudited _ _ a b x (stay {s = draft} c m) ready can audit = cc
  unaudited _ _ a b x (stay {s = pending_review} c m) ready can audit = cc
  unaudited _ _ a b x (stay {s = published} c m) ready can audit = cc
  unaudited _ _ a b x (stay {s = archived} c m) ready can audit = cc
  unaudited _ _ a b x (stay {s = deleted} c m) ready can audit = cc

-- Every move that the rules allow is made: with complete metadata where it publishes, within 24 hours
-- where it unpublishes, with room for the review case where it submits, and with an audit entry that
-- the database takes, the update succeeds and answers with the changed Nano and both statuses.
pub update_nano_status_complete :
    (env : Env) (i : ℕ) (q : StatusUpdateRequest) (user : TokenData) (db : Db) (n : Nano)
    → find (nano_at i) db.nanos ≡ some n
    → MayMove n user n.status q.status
    → IsReady env n n.status q.status
    → CanOpen env db n q.status
    → env.audit_ok ≡ true
    → (Updated env i q user db).0 ≡ ok (after_update env q.status n, n.status, q.status)
update_nano_status_complete env i q user db n found m ready can audit =
    permitted env i q user db n found n.status q.status refl refl m ready can audit

-- A Nano that a status update moves into review has an open moderation case, with nothing left of an
-- earlier decision.
pub submission_opens_case :
    (env : Env) (i : ℕ) (q : StatusUpdateRequest) (user : TokenData) (db : Db) (n : Nano)
    (r : Nano × NanoStatus × NanoStatus)
    → find (nano_at i) db.nanos ≡ some n
    → q.status ≡ pending_review
    → n.status ≢ pending_review
    → (Updated env i q user db).0 ≡ ok r
    → (c : ModerationCase) × (find
          (case_of ModerationContentType.nano n.id)
          (Updated env i q user db).1.cases
        ≡ some c)
      × IsOpen c
submission_opens_case env i q user db n r found t new accepted =
    let written = opens env i q user db n found n.status r refl t (ground arith) accepted in
    let (c, at, fresh, reporter) =
      upsert_rows-IsOpen env ModerationContentType.nano n.id none db.cases _ written in
    (c, at, fresh)

-- An allowed change of status whose audit entry the database refuses is committed without an entry,
-- while the request fails.
pub unaudited_change_persists :
    (env : Env) (i : ℕ) (q : StatusUpdateRequest) (user : TokenData) (db : Db) (n : Nano)
    → find (nano_at i) db.nanos ≡ some n
    → same_status n.status q.status ≡ false
    → MayMove n user n.status q.status
    → IsReady env n n.status q.status
    → CanOpen env db n q.status
    → env.audit_ok ≡ false
    → ((Updated env i q user db).0 ≡ err sqlalchemy_error)
      × (find (nano_at i) (Updated env i q user db).1.nanos ≡ some (move_to env q.status n))
      × ((Updated env i q user db).1.audit_logs ≡ db.audit_logs)
unaudited_change_persists env i q user db n found changed m ready can audit =
    unaudited env i q user db n found n.status q.status refl refl changed m ready can audit
