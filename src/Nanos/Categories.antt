-- ===== src/Nanos/Categories.antt =====
-- What an update of the metadata stores.
use di_wei_wei_nano_market.Prelude.{
  ℕ, ◌≡◌, ◌≢◌, inl, inr, refl, false, not, Option, none, some, List, [], select, find, modify, any,
  is_in, arith, Option-cases,
}
use di_wei_wei_nano_market.Models.{Db, Nano, draft, nano_at, find-modify_nano}
use di_wei_wei_nano_market.Session.{Env, Error, Result, ok, err, request}
use di_wei_wei_nano_market.Nanos.Metadata.{
  MetadataUpdateRequest, UpdatedField, update_nano_metadata, updated_fields, edit, unique_ids,
  ranked, is_assigned, assign_categories,
}
use di_wei_wei_nano_market.Nanos.Ranks.{
  HasNoTwins, unique_ids-is_in, unique_ids-HasNoTwins, assign-own, assign-other,
}

abbrev pub Edited :
    Env → ℕ → MetadataUpdateRequest → ℕ → Db → Result (Nano × List UpdatedField) × Db
Edited env i q user db = request (update_nano_metadata env i q user) db

-- What the request says about categories, and the assignments before and after.
pub data Categorised (i : ℕ) (db db' : Db) : Option (Option (List ℕ)) → Type 0 where
  kept : db'.assignments ≡ db.assignments → Categorised i db db' none
  replaced :
      {ids : List ℕ} (unique : List ℕ)
      → select (is_assigned i) db'.assignments ≡ ranked i 0 unique
      → HasNoTwins unique
      → ((j : ℕ) → is_in j unique ≡ is_in j ids)
      → any (λ j. not (is_in j db.categories)) unique ≡ false
      → ((o : ℕ)
          → o ≢ i
          → select (is_assigned o) db'.assignments ≡ select (is_assigned o) db.assignments)
      → Categorised i db db' (some (some ids))

categorised :
    (env : Env) (i : ℕ) (q : MetadataUpdateRequest) (user : ℕ) (db : Db)
    (r : Nano × List UpdatedField) (c : Option (Option (List ℕ)))
    → q.category_ids ≡ c
    → (Edited env i q user db).0 ≡ ok r
    → Categorised i db (Edited env i q user db).1 c
unfolding update_nano_metadata
categorised env i q user db r none e h = kept (ground arith)
categorised env i q user db r (some none) e h = absurd (ground arith)
categorised env i q user db r (some (some ids)) e h =
    let rows : (Edited env i q user db).1.assignments
        ≡ assign_categories i (unique_ids [] ids) db.assignments =
      ground arith in
    replaced (unique_ids [] ids) (rw rows (assign-own i (unique_ids [] ids) db.assignments))
      (unique_ids-HasNoTwins [] ids) (λ j. ground (arith, unique_ids-is_in j [] ids)) (ground arith)
      (λ o ne. rw rows (assign-other i o (unique_ids [] ids) db.assignments ne))

pub edited_nanos :
    (env : Env) (i : ℕ) (q : MetadataUpdateRequest) (user : ℕ) (db : Db)
    (r : Nano × List UpdatedField) (c : Option (Option (List ℕ)))
    → q.category_ids ≡ c
    → (Edited env i q user db).0 ≡ ok r
    → ((Edited env i q user db).1.nanos ≡ modify (nano_at i) (edit q) db.nanos)
      × ((Edited env i q user db).1.ratings ≡ db.ratings)
unfolding update_nano_metadata
edited_nanos env i q user db r none e h = ground arith
edited_nanos env i q user db r (some none) e h = absurd (ground arith)
edited_nanos env i q user db r (some (some ids)) e h = ground arith

answered :
    (env : Env) (i : ℕ) (q : MetadataUpdateRequest) (user : ℕ) (db : Db)
    (r : Nano × List UpdatedField) (n : Nano) (c : Option (Option (List ℕ)))
    → q.category_ids ≡ c
    → find (nano_at i) db.nanos ≡ some n
    → (Edited env i q user db).0 ≡ ok r
    → r ≡ (edit q n, updated_fields q)
unfolding update_nano_metadata
answered env i q user db r n none e found h = ground arith
answered env i q user db r n (some none) e found h = absurd (ground arith)
answered env i q user db r n (some (some ids)) e found h = ground arith

-- An update of the metadata that succeeds was made by the creator, on a draft. The Nano is stored
-- and answered with the fields of the request replaced, its status, dates and ratings untouched, and
-- no other Nano changes. The categories stay where the request does not name them; where it does,
-- they are the known categories that it names, each once and ranked from 0, and the assignments of
-- other Nanos stay.
pub metadata_stored :
    (env : Env) (i : ℕ) (q : MetadataUpdateRequest) (user : ℕ) (db : Db)
    (r : Nano × List UpdatedField)
    → (Edited env i q user db).0 ≡ ok r
    → let db' = (Edited env i q user db).1 in
      (n : Nano) × (find (nano_at i) db.nanos ≡ some n)
      × (n.creator_id ≡ user)
      × (n.status ≡ draft)
      × (r ≡ (edit q n, updated_fields q))
      × (find (nano_at i) db'.nanos ≡ some (edit q n))
      × ((j : ℕ) → j ≢ i → find (nano_at j) db'.nanos ≡ find (nano_at j) db.nanos)
      × Categorised i db db' q.category_ids
unfolding update_nano_metadata
metadata_stored env i q user db r h = elim (Option-cases (find (nano_at i) db.nanos)) [
  | inl missing ↦ absurd (ground arith)
  | inr (n, found) ↦
      let nanos = edited_nanos env i q user db r q.category_ids refl h in
      (
        n,
        found,
        ground arith,
        ground arith,
        answered env i q user db r n q.category_ids refl found h,
        ground (arith, find-modify_nano i i (edit q) db.nanos (λ _. refl)),
        (λ j ne. ground (arith, find-modify_nano i j (edit q) db.nanos (λ _. refl))),
        categorised env i q user db r q.category_ids refl h,
      )
]

pub metadata_refused :
    (env : Env) (i : ℕ) (q : MetadataUpdateRequest) (user : ℕ) (db : Db) (e : Error)
    → (Edited env i q user db).0 ≡ err e
    → (Edited env i q user db).1 ≡ db
unfolding update_nano_metadata
metadata_refused env i q user db e h = go q.category_ids refl
  where
    go : (c : Option (Option (List ℕ))) → q.category_ids ≡ c → (Edited env i q user db).1 ≡ db
    go none x = ground arith
    go (some none) x = ground arith
    go (some (some ids)) x = ground arith
