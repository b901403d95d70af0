-- ===== src/Nanos/Removal.antt =====
-- Taking a Nano out of public view: the admin takedown and the creator's deletion.
use di_wei_wei_nano_market.Prelude.{
  ℕ, ◌≡◌, ◌≢◌, refl, true, false, not, some, ◌⊎◌, inl, inr, arith, ◌==◌, find, Option-cases,
  Bool-cases,
}
use di_wei_wei_nano_market.Models.{Db, TokenData, Nano, nano_at, find-modify_nano, is_published}
use di_wei_wei_nano_market.Session.{
  Env, Result, ok, err, http_exception, forbidden, not_deletable, request,
}
use di_wei_wei_nano_market.Nanos.Status.{
  AdminTakedownRequest, AdminTakedownResponse, admin_takedown_nano, take_down, delete_nano,
  is_deletable, mark_deleted,
}

abbrev pub TakenDown :
    Env → ℕ → AdminTakedownRequest → TokenData → Db → Result AdminTakedownResponse × Db
TakenDown env i q user db = request (admin_takedown_nano env i q user) db

-- A takedown that succeeds reports the status that the Nano had and has, leaves it out of public
-- view as `take_down` says, tells whether it was out of view before, and touches no other Nano.
pub takedown_removes :
    (env : Env) (i : ℕ) (q : AdminTakedownRequest) (user : TokenData) (db : Db)
    (r : AdminTakedownResponse)
    → (TakenDown env i q user db).0 ≡ ok r
    → (n : Nano) × (find (nano_at i) db.nanos ≡ some n)
      × (find (nano_at i) (TakenDown env i q user db).1.nanos ≡ some (take_down env n))
      × (is_published (take_down env n).status ≡ false)
      × (r.old_status ≡ n.status)
      × (r.new_status ≡ (take_down env n).status)
      × (r.already_removed ≡ not (is_published n.status))
      × ((j : ℕ)
          → j ≢ i
          → find (nano_at j) (TakenDown env i q user db).1.nanos ≡ find (nano_at j) db.nanos)
unfolding admin_takedown_nano
takedown_removes env i q user db r h = elim (Option-cases (find (nano_at i) db.nanos)) [
  | inl missing ↦ absurd (ground arith)
  | inr (n, found) ↦ (
    n,
    found,
    ground (arith, find-modify_nano i i (take_down env) db.nanos (λ _. refl)),
    ground arith,
    ground arith,
    ground arith,
    ground arith,
    λ j ne. ground (arith, find-modify_nano i j (take_down env) db.nanos (λ _. refl)),
  )
]

-- A takedown that succeeds after another one of the same Nano, whoever made the two and at whatever
-- times, says that the Nano is already removed and leaves it as the first one left it.
pub takedown_again :
    (env env' : Env) (i : ℕ) (q q' : AdminTakedownRequest) (user user' : TokenData) (db : Db)
    (r r' : AdminTakedownResponse)
    → (TakenDown env i q user db).0 ≡ ok r
    → (TakenDown env' i q' user' (TakenDown env i q user db).1).0 ≡ ok r'
    → (r'.already_removed ≡ true)
      × (r'.old_status ≡ r.new_status)
      × (r'.new_status ≡ r.new_status)
      × (find (nano_at i) (TakenDown env' i q' user' (TakenDown env i q user db).1).1.nanos
          ≡ find (nano_at i) (TakenDown env i q user db).1.nanos)
takedown_again env env' i q q' user user' db r r' h h' =
    let (n, found, after, hidden, old, new, already, others) =
      takedown_removes env i q user db r h in
    let (n', found', after', hidden', old', new', already', others') =
      takedown_removes env' i q' user' (TakenDown env i q user db).1 r' h' in
    (ground arith, ground arith, ground arith, ground arith)

abbrev pub Deleted : Env → ℕ → ℕ → Db → Result (Unit {0}) × Db
Deleted env i creator db = request (delete_nano env i creator) db

-- Where the database takes the audit entry, a deletion of an existing Nano goes through exactly for
-- the creator of a draft or archived Nano: that Nano gets the status `deleted`, and no other Nano
-- changes. Anybody else gets 403, the creator of any other Nano 400, and the database stays as it was.
pub delete_nano_exact :
    (env : Env) (i creator : ℕ) (db : Db) (n : Nano)
    → find (nano_at i) db.nanos ≡ some n
    → env.audit_ok ≡ true
    → ((Deleted env i creator db).0 ≡ ok tt
        × (n.creator_id ≡ creator)
        × (is_deletable n.status ≡ true)
        × (find (nano_at i) (Deleted env i creator db).1.nanos ≡ some (mark_deleted n))
        × ((j : ℕ)
            → j ≢ i
            → find (nano_at j) (Deleted env i creator db).1.nanos ≡ find (nano_at j) db.nanos))
      ⊎ ((Deleted env i creator db).0 ≡ err (http_exception 403 forbidden)
          × (n.creator_id ≢ creator)
          × ((Deleted env i creator db).1 ≡ db))
      ⊎ ((Deleted env i creator db).0 ≡ err (http_exception 400 not_deletable)
          × (n.creator_id ≡ creator)
          × (is_deletable n.status ≡ false)
          × ((Deleted env i creator db).1 ≡ db))
unfolding delete_nano
delete_nano_exact env i creator db n found audit = elim (Bool-cases (n.creator_id == creator)) [
  | inr stranger ↦ inr (inl (ground arith, ground arith, ground arith))
  | inl own ↦ elim (Bool-cases (is_deletable n.status)) [
    | inr fixed ↦ inr (inr (ground arith, ground arith, ground arith, ground arith))
    | inl free ↦ inl (
      ground arith,
      ground arith,
      ground arith,
      ground (arith, find-modify_nano i i mark_deleted db.nanos (λ _. refl)),
      λ j ne. ground (arith, find-modify_nano i j mark_deleted db.nanos (λ _. refl)),
    )
  ]
]
