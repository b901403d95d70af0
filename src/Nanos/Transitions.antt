-- ===== src/Nanos/Transitions.antt =====
-- `update_nano_status` as a whole: it succeeds exactly for the moves that the rules allow.
use di_wei_wei_nano_market.Prelude.{
  ℕ, ◌≡◌, ◌≢◌, refl, some, none, ◌⊎◌, inl, inr, arith, if◌then◌else◌, find, modify, Option-cases,
  Bool-cases,
}
use di_wei_wei_nano_market.Models.{
  Db, TokenData, Nano, NanoStatus, nano_at, find-modify_nano, same_status,
}
use di_wei_wei_nano_market.Session.{Env, Error, ok, err, sqlalchemy_error}
use di_wei_wei_nano_market.Nanos.Status.{StatusUpdateRequest, move_to, update_nano_status}
use di_wei_wei_nano_market.Nanos.Workflow.{
  Updated, MayMove, IsReady, after_update, update-MayMove, update-IsReady, Written, written,
}

pub update_missing :
    (env : Env) (i : ℕ) (q : StatusUpdateRequest) (user : TokenData) (db : Db)
    → find (nano_at i) db.nanos ≡ none
    → ((Updated env i q user db).1 ≡ db)
      × ((r : Nano × NanoStatus × NanoStatus) → (Updated env i q user db).0 ≢ ok r)
unfolding update_nano_status
update_missing env i q user db missing = (ground arith, λ r h. ground arith)

module _ (env : Env) (i : ℕ) (q : StatusUpdateRequest) (user : TokenData) (db : Db) (n : Nano)
    (found : find (nano_at i) db.nanos ≡ some n) (r : Nano × NanoStatus × NanoStatus)
    (accepted : (Updated env i q user db).0 ≡ ok r) where
  written_ok :
      (r ≡ (after_update env q.status n, n.status, q.status))
      × ((Updated env i q user db).1.nanos ≡ (
          if same_status n.status q.status
          then db.nanos
          else modify (nano_at i) (move_to env q.status) db.nanos))
      × ((Updated env i q user db).1.ratings ≡ db.ratings)
  unfolding Written
  written_ok = rw accepted at (written env i q user db n found)

  lookup_after :
      find (nano_at i) (Updated env i q user db).1.nanos ≡ some (after_update env q.status n)
  lookup_after = elim (Bool-cases (same_status n.status q.status)) [
    | inl same ↦ ground (arith, written_ok.1)
    | inr moved ↦
        ground
          (arith, written_ok.1, find-modify_nano i i (move_to env q.status) db.nanos (λ _. refl))
  ]

  lookup_other :
      (j : ℕ)
      → j ≢ i
      → find (nano_at j) (Updated env i q user db).1.nanos ≡ find (nano_at j) db.nanos
  lookup_other j ne = elim (Bool-cases (same_status n.status q.status)) [
    | inl same ↦ ground (arith, written_ok.1)
    | inr moved ↦
        ground
          (arith, written_ok.1, find-modify_nano i j (move_to env q.status) db.nanos (λ _. refl))
  ]

-- A status update that succeeds found the Nano, made a move that the caller's role allows, met what
-- the move needs (complete metadata to publish, at most 24 hours since publication to unpublish),
-- left the Nano with the new status and timestamps, and touched no other Nano.
pub update_nano_status_sound :
    (env : Env) (i : ℕ) (q : StatusUpdateRequest) (user : TokenData) (db : Db)
    (r : Nano × NanoStatus × NanoStatus)
    → (Updated env i q user db).0 ≡ ok r
    → let db' = (Updated env i q user db).1 in
      (n : Nano) × (find (nano_at i) db.nanos ≡ some n)
      × MayMove n user n.status q.status
      × IsReady env n n.status q.status
      × (r ≡ (after_update env q.status n, n.status, q.status))
      × (find (nano_at i) db'.nanos ≡ some (after_update env q.status n))
      × ((j : ℕ) → j ≢ i → find (nano_at j) db'.nanos ≡ find (nano_at j) db.nanos)
update_nano_status_sound env i q user db r accepted =
    elim (Option-cases (find (nano_at i) db.nanos)) [
      | inl missing ↦ absurd ((update_missing env i q user db missing).1 r accepted)
      | inr (n, found) ↦ (
        n,
        found,
        update-MayMove env i q user db n r found accepted,
        update-IsReady env i q user db n r found accepted,
        (written_ok env i q user db n found r accepted).0,
        lookup_after env i q user db n found r accepted,
        lookup_other env i q user db n found r accepted,
      )
    ]

-- A status update that fails for any reason but a refused audit entry leaves the database as it was.
pub update_nano_status_atomic :
    (env : Env) (i : ℕ) (q : StatusUpdateRequest) (user : TokenData) (db : Db) (e : Error)
    → (Updated env i q user db).0 ≡ err e
    → e ≢ sqlalchemy_error
    → (Updated env i q user db).1 ≡ db
unfolding Written
update_nano_status_atomic env i q user db e failed ne =
    elim (Option-cases (find (nano_at i) db.nanos)) [
      | inl missing ↦ (update_missing env i q user db missing).0
      | inr (n, found) ↦
          let kept : ((Updated env i q user db).1 ≡ db)
              ⊎ ((e ≡ sqlalchemy_error)
                  × ((Updated env i q user db).1.nanos
                      ≡ modify (nano_at i) (move_to env q.status) db.nanos)
                  × ((Updated env i q user db).1.ratings ≡ db.ratings)) =
            rw failed at (written env i q user db n found) in
          elim kept [ inl same ↦ same | inr (audit, _, _) ↦ absurd (ne audit) ]
    ]
