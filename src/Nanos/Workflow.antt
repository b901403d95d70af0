-- ===== src/Nanos/Workflow.antt =====
-- The publishing workflow: who may move a Nano where, and what a move leaves behind.
use di_wei_wei_nano_market.Prelude.{
  ℕ, ◌≡◌, ◌≤◌, ◌-◌, refl, true, false, not, some, ◌⊎◌, inl, inr, arith, ◌&&◌, if◌then◌else◌, find,
  modify, Option-cases, Bool-cases,
}
use di_wei_wei_nano_market.Models.{
  Db, TokenData, Nano, NanoStatus, draft, pending_review, published, archived, deleted, nano_at,
  is_moderator_or_admin, is_published, same_status,
}
use di_wei_wei_nano_market.Session.{Env, Result, ok, err, sqlalchemy_error, request}
use di_wei_wei_nano_market.Publishing.{missing_fields, is_complete}
use di_wei_wei_nano_market.Nanos.Status.{
  StatusUpdateRequest, unpublish_window, move_to, update_nano_status,
}

abbrev pub Updated :
    Env → ℕ → StatusUpdateRequest → TokenData → Db → Result (Nano × NanoStatus × NanoStatus) × Db
Updated env i q user db = request (update_nano_status env i q user) db

-- The roles and the rules by which a status update may move a Nano, written as in the documentation
-- of the state machine.
pub data MayMove (n : Nano) (user : TokenData) : NanoStatus → NanoStatus → Type 0 where
  submit : n.creator_id ≡ user.user_id → MayMove n user draft pending_review
  publish_own :
      n.creator_id ≡ user.user_id
      → is_moderator_or_admin user.role ≡ true
      → MayMove n user draft published
  shelve : n.creator_id ≡ user.user_id → MayMove n user draft archived
  discard : n.creator_id ≡ user.user_id → MayMove n user draft deleted
  withdraw : n.creator_id ≡ user.user_id → MayMove n user pending_review draft
  turn_down : is_moderator_or_admin user.role ≡ true → MayMove n user pending_review draft
  accept : is_moderator_or_admin user.role ≡ true → MayMove n user pending_review published
  shelve_submitted : n.creator_id ≡ user.user_id → MayMove n user pending_review archived
  retire : n.creator_id ≡ user.user_id → MayMove n user published archived
  unpublish : n.creator_id ≡ user.user_id → MayMove n user published draft
  purge : n.creator_id ≡ user.user_id → MayMove n user archived deleted
  -- nothing moves; without a moderator's role the creator may not even ask for `published`
  stay :
      {s : NanoStatus}
      → n.creator_id ≡ user.user_id
      → (is_published s && not (is_moderator_or_admin user.role)) ≡ false
      → MayMove n user s s

-- The check of roles and transitions alone.
pub update-MayMove :
    (env : Env) (i : ℕ) (q : StatusUpdateRequest) (user : TokenData) (db : Db) (n : Nano)
    (r : Nano × NanoStatus × NanoStatus)
    → find (nano_at i) db.nanos ≡ some n
    → (Updated env i q user db).0 ≡ ok r
    → MayMove n user n.status q.status
unfolding update_nano_status
update-MayMove env i q user db n r found h = go n.status q.status refl refl
  where
    go : (s t : NanoStatus) → n.status ≡ s → q.status ≡ t → MayMove n user s t
    go draft draft a b = stay (ground arith) (ground arith)
    go draft pending_review a b = submit (ground arith)
    go draft published a b = publish_own (ground arith) (ground arith)
    go draft archived a b = shelve (ground arith)
    go draft deleted a b = discard (ground arith)
    go pending_review draft a b = elim (Bool-cases (is_moderator_or_admin user.role)) [
      | inl m ↦ turn_down m
      | inr m ↦ withdraw (ground arith)
    ]
    go pending_review pending_review a b = stay (ground arith) (ground arith)
    go pending_review published a b = accept (ground arith)
    go pending_review archived a b = shelve_submitted (ground arith)
    go pending_review deleted a b = absurd (ground arith)
    go published draft a b = unpublish (ground arith)
    go published pending_review a b = absurd (ground arith)
    go published published a b = stay (ground arith) (ground arith)
    go published archived a b = retire (ground arith)
    go published deleted a b = absurd (ground arith)
    go archived archived a b = stay (ground arith) (ground arith)
    go archived deleted a b = purge (ground arith)
    go archived _ a b = absurd (ground arith)
    go deleted deleted a b = stay (ground arith) (ground arith)
    go deleted _ a b = absurd (ground arith)

-- What a transition needs beyond the roles: complete metadata to publish, and at most 24 hours since
-- the publication to go back to draft.
abbrev pub IsReady : Env → Nano → NanoStatus → NanoStatus → Type 0
IsReady env n published draft =
    (at : ℕ) × (n.published_at ≡ some at) × (env.now - at ≤ unpublish_window)
IsReady env n published published = Unit
IsReady env n _ published = is_complete (missing_fields n) ≡ true
IsReady env n _ _ = Unit

pub update-IsReady :
    (env : Env) (i : ℕ) (q : StatusUpdateRequest) (user : TokenData) (db : Db) (n : Nano)
    (r : Nano × NanoStatus × NanoStatus)
    → find (nano_at i) db.nanos ≡ some n
    → (Updated env i q user db).0 ≡ ok r
    → IsReady env n n.status q.status
unfolding update_nano_status
update-IsReady env i q user db n r found h = go n.status q.status refl refl
  where
    go : (s t : NanoStatus) → n.status ≡ s → q.status ≡ t → IsReady env n s t
    go draft published a b = ground arith
    go pending_review published a b = ground arith
    go published draft a b = elim (Option-cases n.published_at) [
      | inl unset ↦ absurd (ground arith)
      | inr (at, e) ↦ (at, e, ground arith)
    ]
    go published published a b = tt
    go published _ a b = tt
    go archived published a b = ground arith
    go deleted published a b = ground arith
    go _ _ a b = tt

-- The Nano after an accepted request.
abbrev pub after_update : Env → NanoStatus → Nano → Nano
after_update env t n = if same_status n.status t then n else move_to env t n

module _ (env : Env) (i : ℕ) (q : StatusUpdateRequest) (user : TokenData) (db : Db) (n : Nano)
    (found : find (nano_at i) db.nanos ≡ some n) where
  abbrev pub Answer : Type 0
  Answer = Nano × NanoStatus × NanoStatus

  -- At each pair of statuses: a success writes the Nano; an error leaves the database, but for a
  -- refused audit entry, which leaves the Nano written. No rating moves.
  unfoldable pub Written : NanoStatus → Result Answer → Db → Type 0
  Written t (ok r) db' =
      (r ≡ (after_update env t n, n.status, t))
      × (db'.nanos ≡ (
          if same_status n.status t then db.nanos else modify (nano_at i) (move_to env t) db.nanos))
      × (db'.ratings ≡ db.ratings)
  Written t (err e) db' =
      (db' ≡ db)
      ⊎ ((e ≡ sqlalchemy_error)
          × (db'.nanos ≡ modify (nano_at i) (move_to env t) db.nanos)
          × (db'.ratings ≡ db.ratings))

  update-Written :
      (s t : NanoStatus)
      → n.status ≡ s
      → q.status ≡ t
      → Written t (Updated env i q user db).0 (Updated env i q user db).1
  unfolding update_nano_status Written
  update-Written draft draft a b = ground arith
  update-Written draft pending_review a b = ground arith
  update-Written draft published a b = ground arith
  update-Written draft archived a b = ground arith
  update-Written draft deleted a b = ground arith
  update-Written pending_review draft a b = ground arith
  update-Written pending_review pending_review a b = ground arith
  update-Written pending_review published a b = ground arith
  update-Written pending_review archived a b = ground arith
  update-Written pending_review deleted a b = ground arith
  update-Written published draft a b = ground arith
  update-Written published pending_review a b = ground arith
  update-Written published published a b = ground arith
  update-Written published archived a b = ground arith
  update-Written published deleted a b = ground arith
  update-Written archived draft a b = ground arith
  update-Written archived pending_review a b = ground arith
  update-Written archived published a b = ground arith
  update-Written archived archived a b = ground arith
  update-Written archived deleted a b = ground arith
  update-Written deleted draft a b = ground arith
  update-Written deleted pending_review a b = ground arith
  update-Written deleted published a b = ground arith
  update-Written deleted archived a b = ground arith
  update-Written deleted deleted a b = ground arith

  pub written : Written q.status (Updated env i q user db).0 (Updated env i q user db).1
  written = update-Written n.status q.status refl refl
