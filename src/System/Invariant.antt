-- ===== src/System/Invariant.antt =====
-- What holds of the database after any sequence of requests.
use di_wei_wei_nano_market.Prelude.{
  ℕ, ◌≡◌, ◌≢◌, refl, none, some, false, any, List, [], ◌∷◌, ◌⊎◌, inl, inr, arith, ◌==◌, find,
  modify, Option-cases, Bool-cases,
}
use di_wei_wei_nano_market.Models.{
  Db, Nano, NanoRating, draft, published, nano_at, find-modify_nano,
}
use di_wei_wei_nano_market.Nanos.Aggregation.{approved_scores}
use di_wei_wei_nano_market.Nanos.Metrics.{metrics}
use di_wei_wei_nano_market.Nanos.RatingCache.{
  rated, approved_scores-unrated, IsCacheSynced, Resynced, Resynced-IsCacheSynced,
}
use di_wei_wei_nano_market.Nanos.Ratings.{set_rating_cache}
use di_wei_wei_nano_market.System.Frames.{
  Reshaped, same, changed, edited, added, Served, reshaped, resynced,
}
use di_wei_wei_nano_market.System.Changes.{IsStatusChange, edit-IsStatusChange}
use di_wei_wei_nano_market.Nanos.Metadata.{edit}

-- A published Nano has a time of publication.
pub record IsDated (nanos : List Nano) : Type 0 where
  pub at :
      (i : ℕ) (n : Nano)
      → find (nano_at i) nanos ≡ some n
      → n.status ≡ published
      → n.published_at ≢ none

-- Ratings are of Nanos that there are.
pub record IsOwned (nanos : List Nano) (ratings : List NanoRating) : Type 0 where
  pub at : (i : ℕ) → find (nano_at i) nanos ≡ none → rated i ratings ≡ false

pub record IsConsistent (db : Db) : Type 0 where
  pub owned : IsOwned db.nanos db.ratings
  pub cached : IsCacheSynced db.nanos db.ratings
  pub stamped : IsDated db.nanos

-- A Nano found after a change was found before it, and changed or not.
found_before :
    (i j : ℕ) (f : Nano → Nano) (ns : List Nano) (n : Nano)
    → ((m : Nano) → (f m).id ≡ m.id)
    → find (nano_at j) (modify (nano_at i) f ns) ≡ some n
    → (m : Nano) × (find (nano_at j) ns ≡ some m) × ((n ≡ m) ⊎ (n ≡ f m))
found_before i j f ns n h e = elim (Option-cases (find (nano_at j) ns)) [
  | inl missing ↦ absurd (ground (arith, find-modify_nano i j f ns h))
  | inr (m, found) ↦ elim (Bool-cases (i == j)) [
    | inl self ↦ (m, found, inr (ground (arith, find-modify_nano i j f ns h)))
    | inr other ↦ (m, found, inl (ground (arith, find-modify_nano i j f ns h)))
  ]
]

changed-IsCacheSynced :
    (i : ℕ) (f : Nano → Nano) (ns : List Nano) (rs : List NanoRating)
    → IsStatusChange f
    → IsCacheSynced ns rs
    → IsCacheSynced (modify (nano_at i) f ns) rs
changed-IsCacheSynced i f ns rs c h = record {
  at = λ j n e.
      let (m, found, which) = found_before i j f ns n c.same_id e in
      elim which [
        | inl kept ↦ ground (arith, h.at j m)
        | inr moved ↦ ground (arith, h.at j m, c.same_count m, c.same_average m)
      ];
}

changed-IsOwned :
    (i : ℕ) (f : Nano → Nano) (ns : List Nano) (rs : List NanoRating)
    → ((n : Nano) → (f n).id ≡ n.id)
    → IsOwned ns rs
    → IsOwned (modify (nano_at i) f ns) rs
changed-IsOwned i f ns rs same_id h = record {
  at = λ j missing. elim (Option-cases (find (nano_at j) ns)) [
    | inl gone ↦ h.at j gone
    | inr (n, found) ↦ absurd (ground (arith, find-modify_nano i j f ns same_id))
  ];
}

changed-IsDated :
    (i : ℕ) (f : Nano → Nano) (ns : List Nano)
    → ((n : Nano) → (f n).id ≡ n.id)
    → ((n : Nano)
        → (n.status ≡ published → n.published_at ≢ none)
        → (f n).status ≡ published
        → (f n).published_at ≢ none)
    → IsDated ns
    → IsDated (modify (nano_at i) f ns)
changed-IsDated i f ns same_id dated h = record {
  at = λ j n e.
      let (m, found, which) = found_before i j f ns n same_id e in
      elim which [
        | inl kept ↦ rw kept (h.at j m found)
        | inr moved ↦ rw moved (dated m (h.at j m found))
      ];
}

changed-IsConsistent :
    (i : ℕ) (f : Nano → Nano) (db db' : Db)
    → IsStatusChange f
    → db'.nanos ≡ modify (nano_at i) f db.nanos
    → db'.ratings ≡ db.ratings
    → IsConsistent db
    → IsConsistent db'
changed-IsConsistent i f db db' c nanos ratings h = record {
  owned = rw (nanos, ratings) (changed-IsOwned i f db.nanos db.ratings c.same_id h.owned);
  cached = rw (nanos, ratings) (changed-IsCacheSynced i f db.nanos db.ratings c h.cached);
  stamped = rw nanos (changed-IsDated i f db.nanos c.same_id c.dated h.stamped);
}

-- A Nano under a new id.
found_added :
    (j : ℕ) (n k : Nano) (ns : List Nano)
    → find (nano_at j) (n ∷ ns) ≡ some k
    → ((n.id ≡ j) × (k ≡ n)) ⊎ (find (nano_at j) ns ≡ some k)
found_added j n k ns e = elim (Bool-cases (nano_at j n)) [
  | inl self ↦ inl (ground arith, ground arith)
  | inr other ↦ inr (ground arith)
]

missing_added :
    (j : ℕ) (n : Nano) (ns : List Nano)
    → find (nano_at j) (n ∷ ns) ≡ none
    → find (nano_at j) ns ≡ none
missing_added j n ns e = ground arith

unused_missing : (i : ℕ) (ns : List Nano) → any (nano_at i) ns ≡ false → find (nano_at i) ns ≡ none
unused_missing i [] h = refl
unused_missing i (n ∷ ns) h = ground (arith, unused_missing i ns)

added-IsConsistent :
    (n : Nano) (db db' : Db)
    → any (nano_at n.id) db.nanos ≡ false
    → n.status ≡ draft
    → n.rating_count ≡ 0
    → n.average_rating ≡ 0
    → db'.nanos ≡ n ∷ db.nanos
    → db'.ratings ≡ db.ratings
    → IsConsistent db
    → IsConsistent db'
added-IsConsistent n db db' new is_draft count average nanos ratings h =
    let none_yet =
      approved_scores-unrated n.id db.ratings
        (h.owned.at n.id (unused_missing n.id db.nanos new)) in
    record {
      owned =
          rw (nanos, ratings)
            (record { at = λ j missing. h.owned.at j (missing_added j n db.nanos missing) });
      cached =
          rw (nanos, ratings)
            (record {
              at = λ j k e. elim (found_added j n k db.nanos e) [
                | inl (self, one) ↦ ground (arith, none_yet, count, average)
                | inr before ↦ h.cached.at j k before
              ];
            });
      stamped = rw nanos (record {
        at = λ j k e live. elim (found_added j n k db.nanos e) [
          | inl (self, one) ↦ absurd (ground arith)
          | inr before ↦ h.stamped.at j k before live
        ];
      });
    }

Reshaped-IsConsistent :
    {user : ℕ} {db db' : Db} → Reshaped user db db' → IsConsistent db → IsConsistent db'
Reshaped-IsConsistent (same nanos ratings) h = record {
  owned = rw (nanos, ratings) h.owned;
  cached = rw (nanos, ratings) h.cached;
  stamped = rw nanos h.stamped;
}
Reshaped-IsConsistent {db = db} {db' = db'} (changed i f c life nanos ratings) h =
    changed-IsConsistent i f db db' c nanos ratings h
Reshaped-IsConsistent {db = db} {db' = db'} (edited i q n found is_draft own nanos ratings) h =
    changed-IsConsistent i (edit q) db db' (edit-IsStatusChange q) nanos ratings h
Reshaped-IsConsistent {db = db} {db' = db'} (added n new is_draft count average nanos ratings) h =
    added-IsConsistent n db db' new is_draft count average nanos ratings h

Resynced-IsOwned :
    (i : ℕ) (rs' : List NanoRating) (db db' : Db)
    → Resynced i rs' db db'
    → IsOwned db.nanos db.ratings
    → IsOwned db'.nanos db'.ratings
unfolding Resynced
Resynced-IsOwned i rs' db db' (inl (nanos, ratings)) h = rw (nanos, ratings) h
Resynced-IsOwned i rs' db db' (inr (m, ratings, nanos, owned)) h =
    let f = set_rating_cache (metrics (approved_scores i rs') m) in
    rw (nanos, ratings)
      (record {
        at = λ j missing. elim (Option-cases (find (nano_at j) db.nanos)) [
          | inl gone ↦ owned j gone (h.at j gone)
          | inr (n, found) ↦ absurd (ground (arith, find-modify_nano i j f db.nanos (λ _. refl)))
        ];
      })

-- A request that writes ratings of Nano `i` and syncs its cache.
Resynced-IsConsistent :
    (i : ℕ) (rs' : List NanoRating) (db db' : Db)
    → ((j : ℕ) → j ≢ i → approved_scores j rs' ≡ approved_scores j db.ratings)
    → Resynced i rs' db db'
    → IsConsistent db
    → IsConsistent db'
unfolding Resynced
Resynced-IsConsistent i rs' db db' others r h = record {
  owned = Resynced-IsOwned i rs' db db' r h.owned;
  cached = Resynced-IsCacheSynced i rs' db db' others r h.cached;
  stamped = elim r [
    | inl (nanos, _) ↦ rw nanos h.stamped
    | inr (m, _, nanos, _) ↦ rw nanos (
        changed-IsDated i (set_rating_cache (metrics (approved_scores i rs') m)) db.nanos
          (λ _. refl) (λ _ d. d) h.stamped)
  ];
}

pub Served-IsConsistent :
    {user : ℕ} {db db' : Db} → Served user db db' → IsConsistent db → IsConsistent db'
Served-IsConsistent (reshaped r) h = Reshaped-IsConsistent r h
Served-IsConsistent {db = db} {db' = db'} (resynced i rs others r) h =
    Resynced-IsConsistent i rs db db' others r h
