-- ===== src/System/Life.antt =====
-- The life of a Nano over any sequence of requests, as what each request may do to it.
use di_wei_wei_nano_market.Prelude.{
  ℕ, List, [], ◌∷◌, ◌≡◌, ◌≢◌, refl, true, false, any, none, some, inl, inr, arith, ◌==◌, find,
  modify, Bool-cases, if◌then◌else◌,
}
use di_wei_wei_nano_market.Models.{Db, TokenData, Nano, draft, nano_at, find-modify_nano}
use di_wei_wei_nano_market.Session.{Env}
use di_wei_wei_nano_market.Nanos.Metadata.{MetadataUpdateRequest, edit}
use di_wei_wei_nano_market.Nanos.Aggregation.{approved_scores}
use di_wei_wei_nano_market.Nanos.Metrics.{metrics}
use di_wei_wei_nano_market.Nanos.Ratings.{set_rating_cache}
use di_wei_wei_nano_market.Nanos.RatingCache.{Resynced}
use di_wei_wei_nano_market.System.Changes.{content_of}
use di_wei_wei_nano_market.System.Frames.{
  Reshaped, same, changed, edited, added, Served, reshaped, resynced,
}
use di_wei_wei_nano_market.System.Run.{Call, serve, run, serve-Served}

-- What a request of a user may do to a Nano: keep its content and each date that is set, or edit the
-- metadata of a draft of that user.
pub data Evolves (user : ℕ) (n m : Nano) : Type 0 where
  lived :
      content_of m ≡ content_of n
      → (n.published_at ≢ none → m.published_at ≡ n.published_at)
      → (n.archived_at ≢ none → m.archived_at ≡ n.archived_at)
      → Evolves user n m
  rewritten :
      (q : MetadataUpdateRequest)
      → n.status ≡ draft
      → n.creator_id ≡ user
      → m ≡ edit q n
      → Evolves user n m

-- A life is one such step for each request.
pub data Life : List (Env × TokenData × Call) → Nano → Nano → Type 1 where
  ended : {n : Nano} → Life [] n n
  lives :
      {env : Env} {user : TokenData} {call : Call} {calls : List (Env × TokenData × Call)}
      {n m k : Nano}
      → Evolves user.user_id n m
      → Life calls m k
      → Life ((env, user, call) ∷ calls) n k

-- What becomes of a Nano when the Nano at a key is changed.
found_after :
    (i j : ℕ) (f : Nano → Nano) (ns : List Nano) (n : Nano)
    → ((m : Nano) → (f m).id ≡ m.id)
    → find (nano_at j) ns ≡ some n
    → find (nano_at j) (modify (nano_at i) f ns) ≡ some (if i == j then f n else n)
found_after i j f ns n h found = ground (arith, find-modify_nano i j f ns h)

stays : (user : ℕ) (n : Nano) → Evolves user n n
stays user n = lived refl (λ _. refl) (λ _. refl)

found-any :
    (j : ℕ) (n : Nano) (ns : List Nano) → find (nano_at j) ns ≡ some n → any (nano_at j) ns ≡ true
found-any j n [] found = absurd (ground arith)
found-any j n (m ∷ ns) found = ground (arith, found-any j n ns)

-- A new row has an id that no Nano has.
found_below :
    (j : ℕ) (k n : Nano) (ns : List Nano)
    → any (nano_at k.id) ns ≡ false
    → find (nano_at j) ns ≡ some n
    → find (nano_at j) (k ∷ ns) ≡ some n
found_below j k n ns new found = elim (Bool-cases (nano_at j k)) [
  | inl self ↦ absurd (ground (arith, found-any j n ns found))
  | inr other ↦ ground arith
]

Reshaped-Evolves :
    {user : ℕ} {db db' : Db} (j : ℕ) (n : Nano)
    → Reshaped user db db'
    → find (nano_at j) db.nanos ≡ some n
    → (m : Nano) × (find (nano_at j) db'.nanos ≡ some m) × Evolves user n m
Reshaped-Evolves j n (same nanos ratings) found = (n, rw nanos found, stays _ n)
Reshaped-Evolves {db = db} j n (changed i f c life nanos ratings) found =
    elim (Bool-cases (i == j)) [
      | inl self ↦ (
        f n,
        ground (arith, found_after i j f db.nanos n c.same_id found),
        lived (life.same_content n) (life.keeps_published n) (life.keeps_archived n),
      )
      | inr other ↦ (n, ground (arith, found_after i j f db.nanos n c.same_id found), stays _ n)
    ]
Reshaped-Evolves {db = db} j n (edited i q n' at is_draft own nanos ratings) found =
    elim (Bool-cases (i == j)) [
      | inl self ↦ (
        edit q n,
        ground (arith, found_after i j (edit q) db.nanos n (λ _. refl) found),
        rewritten q (ground arith) (ground arith) refl,
      )
      | inr other ↦
          (n, ground (arith, found_after i j (edit q) db.nanos n (λ _. refl) found), stays _ n)
    ]
Reshaped-Evolves {db = db} j n (added k new is_draft count average nanos ratings) found =
    (n, rw nanos (found_below j k n db.nanos new found), stays _ n)

Served-Evolves :
    {user : ℕ} {db db' : Db} (j : ℕ) (n : Nano)
    → Served user db db'
    → find (nano_at j) db.nanos ≡ some n
    → (m : Nano) × (find (nano_at j) db'.nanos ≡ some m) × Evolves user n m
unfolding Resynced content_of
Served-Evolves j n (reshaped r) found = Reshaped-Evolves j n r found
Served-Evolves j n (resynced i rs others (inl (nanos, _))) found = (n, rw nanos found, stays _ n)
Served-Evolves {db = db} j n (resynced i rs others (inr (m, _, nanos, _))) found =
    let f = set_rating_cache (metrics (approved_scores i rs) m) in
    elim (Bool-cases (i == j)) [
      | inl self ↦ (
        f n,
        ground (arith, found_after i j f db.nanos n (λ _. refl) found),
        lived refl (λ _. refl) (λ _. refl),
      )
      | inr other ↦ (n, ground (arith, found_after i j f db.nanos n (λ _. refl) found), stays _ n)
    ]

-- Over any sequence of the requests of `Call` by any users, successful or failed, a Nano is never
-- lost. It lives on by steps, one for each request, of which each keeps its content and each of its
-- dates that is set, or is an edit of its metadata by its creator while it is a draft.
pub run_refines :
    (calls : List (Env × TokenData × Call)) (db : Db) (i : ℕ) (n : Nano)
    → find (nano_at i) db.nanos ≡ some n
    → (m : Nano) × (find (nano_at i) (run calls db).nanos ≡ some m) × Life calls n m
unfolding run
run_refines [] db i n found = (n, found, ended)
run_refines ((env, user, call) ∷ calls) db i n found =
    let (m, found', evolves) = Served-Evolves i n (serve-Served env user call db) found in
    let (k, last, life) = run_refines calls (serve env user call db) i m found' in
    (k, last, lives evolves life)
