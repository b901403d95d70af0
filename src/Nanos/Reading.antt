-- ===== src/Nanos/Reading.antt =====
-- What readers of a Nano are told, and what they can do with it.
use di_wei_wei_nano_market.Prelude.{
  ℕ, ◌≡◌, ◌⊎◌, Bool, true, ◌||◌, ◌==◌, Bool-cases, if◌then◌else◌, inl, inr, false, Option, none,
  some, arith, find, Option-cases,
}
use di_wei_wei_nano_market.Models.{
  Db, Nano, TokenData, nano_at, is_published, is_moderator_or_admin,
}
use di_wei_wei_nano_market.Auth.Deletion.{user_at}
use di_wei_wei_nano_market.Session.{
  Env, Result, ok, err, http_exception, forbidden, unauthenticated, request,
}
use di_wei_wei_nano_market.Upload.Storage.{Presign, get_file_url}
use di_wei_wei_nano_market.Nanos.Status.{AdminTakedownRequest, AdminTakedownResponse, take_down}
use di_wei_wei_nano_market.Nanos.Removal.{TakenDown, takedown_removes}
use di_wei_wei_nano_market.Nanos.Download.{
  unrestricted, restricted, path_answer, Downloaded, get_nano_download_info, storage_path,
  can_access_restricted_nano, takedown_hides,
}
use di_wei_wei_nano_market.Nanos.Views.{
  detail_of, get_nano_categories, NanoDetail, NanoMetadataResponse, get_nano_detail,
  get_nano_metadata,
}

abbrev pub Detailed : ℕ → Option TokenData → Db → Result NanoDetail × Db
Detailed i user db = request (get_nano_detail i user) db

abbrev pub Described : ℕ → Option TokenData → Db → Result NanoMetadataResponse × Db
Described i user db = request (get_nano_metadata i user) db

-- The creator, moderators and admins read any Nano, everybody else a published one.
abbrev pub may_read : Nano → TokenData → Bool
may_read n user =
    is_published n.status || ((n.creator_id == user.user_id) || is_moderator_or_admin user.role)

-- The metadata answer that repeats what the details tell.
abbrev pub described_by : NanoDetail → NanoMetadataResponse
described_by d = record {
  nano_id = d.nano_id;
  creator_id = d.creator_id;
  title = d.title;
  metadata = d.metadata;
}

read_download :
    (presign : Presign) (i : ℕ) (user : TokenData) (db : Db) (n : Nano)
    → find (nano_at i) db.nanos ≡ some n
    → may_read n user ≡ true
    → Downloaded presign i user db ≡ (
      path_answer presign n.id user
          (if is_published n.status then unrestricted else restricted)
          (storage_path n.file_storage_path),
      db,
    )
unfolding get_nano_download_info
read_download presign i user db n found allowed =
    elim (Option-cases (storage_path n.file_storage_path)) [
      | inl nowhere ↦ ground arith
      | inr (p, at) ↦ elim (Option-cases (get_file_url presign p)) [
        | inl down ↦ ground arith
        | inr (url, here) ↦ ground arith
      ]
    ]

-- A reader without a token.
anonymous_views :
    (i : ℕ) (db : Db) (n : Nano)
    → find (nano_at i) db.nanos ≡ some n
    → ((is_published n.status ≡ true)
        × ((d : NanoDetail) × (Detailed i none db ≡ (ok d, db))
            × (Described i none db ≡ (ok (described_by d), db))
            × (d.can_download ≡ false)
            × (d.download_path ≡ none)))
      ⊎ ((is_published n.status ≡ false)
          × (Detailed i none db ≡ (err (http_exception 401 unauthenticated), db))
          × (Described i none db ≡ (err (http_exception 401 unauthenticated), db)))
unfolding get_nano_detail get_nano_metadata
anonymous_views i db n found = elim (Bool-cases (is_published n.status)) [
  | inl public ↦ inl (
    public,
    (
      detail_of n none (get_nano_categories i db) (find (user_at n.creator_id) db.users),
      ground arith,
      ground arith,
      ground arith,
      ground arith,
    ),
  )
  | inr hidden ↦ inr (hidden, ground arith, ground arith)
]

signed_in_views :
    (presign : Presign) (i : ℕ) (user : TokenData) (db : Db) (n : Nano)
    → find (nano_at i) db.nanos ≡ some n
    → ((may_read n user ≡ true)
        × ((d : NanoDetail) × (Detailed i (some user) db ≡ (ok d, db))
            × (Described i (some user) db ≡ (ok (described_by d), db))
            × (d.can_download ≡ true)
            × (d.download_path ≡ n.file_storage_path)
            × (Downloaded presign i user db ≡ (
              path_answer presign d.nano_id user d.visibility (storage_path d.download_path),
              db,
            ))))
      ⊎ ((may_read n user ≡ false)
          × (Detailed i (some user) db ≡ (err (http_exception 403 forbidden), db))
          × (Described i (some user) db ≡ (err (http_exception 403 forbidden), db))
          × (Downloaded presign i user db ≡ (err (http_exception 403 forbidden), db)))
unfolding get_nano_detail get_nano_metadata get_nano_download_info
signed_in_views presign i user db n found = elim (Bool-cases (may_read n user)) [
  | inl allowed ↦ inl (
    allowed,
    (
      detail_of n (some user) (get_nano_categories i db) (find (user_at n.creator_id) db.users),
      ground arith,
      ground arith,
      ground arith,
      ground arith,
      rw allowed (read_download presign i user db n found allowed),
    ),
  )
  | inr denied ↦ inr (denied, ground arith, ground arith, ground arith)
]

-- Details, metadata and download agree. A reader without a token is shown the details and the metadata
-- of a Nano that is published, the same ones and without a path, and is refused both with 401 otherwise.
-- A caller who may read the Nano, because it is published or the caller created it or may moderate, is
-- shown the details and the same metadata, and a download is answered by the path of the details, with
-- their visibility: the address that the storage gives, 503 where it gives none, or 404 without a path.
-- Any other caller is refused all three with 403.
pub views_agree :
    (presign : Presign) (i : ℕ) (user : TokenData) (db : Db) (n : Nano)
    → find (nano_at i) db.nanos ≡ some n
    → (((is_published n.status ≡ true)
          × ((d : NanoDetail) × (Detailed i none db ≡ (ok d, db))
              × (Described i none db ≡ (ok (described_by d), db))
              × (d.can_download ≡ false)
              × (d.download_path ≡ none)))
        ⊎ ((is_published n.status ≡ false)
            × (Detailed i none db ≡ (err (http_exception 401 unauthenticated), db))
            × (Described i none db ≡ (err (http_exception 401 unauthenticated), db))))
      × (((may_read n user ≡ true)
            × ((d : NanoDetail) × (Detailed i (some user) db ≡ (ok d, db))
                × (Described i (some user) db ≡ (ok (described_by d), db))
                × (d.can_download ≡ true)
                × (d.download_path ≡ n.file_storage_path)
                × (Downloaded presign i user db ≡ (
                  path_answer presign d.nano_id user d.visibility (storage_path d.download_path),
                  db,
                ))))
          ⊎ ((may_read n user ≡ false)
              × (Detailed i (some user) db ≡ (err (http_exception 403 forbidden), db))
              × (Described i (some user) db ≡ (err (http_exception 403 forbidden), db))
              × (Downloaded presign i user db ≡ (err (http_exception 403 forbidden), db))))
views_agree presign i user db n found =
    (anonymous_views i db n found, signed_in_views presign i user db n found)

-- A Nano that is not published is refused to readers without a token, and to those with one who
-- neither created it nor may moderate.
hidden_views :
    (i : ℕ) (user : TokenData) (db : Db) (n : Nano)
    → find (nano_at i) db.nanos ≡ some n
    → is_published n.status ≡ false
    → can_access_restricted_nano n user ≡ false
    → ((Detailed i none db).0 ≡ err (http_exception 401 unauthenticated))
      × ((Described i none db).0 ≡ err (http_exception 401 unauthenticated))
      × ((Detailed i (some user) db).0 ≡ err (http_exception 403 forbidden))
      × ((Described i (some user) db).0 ≡ err (http_exception 403 forbidden))
unfolding get_nano_detail get_nano_metadata
hidden_views i user db n found hidden stranger =
    (ground arith, ground arith, ground arith, ground arith)

-- After a takedown that succeeds, whatever the Nano's status was, its details and its metadata are
-- refused with 401 to readers without a token. To anybody who neither created the Nano nor may
-- moderate, the details, the metadata and the download are refused with 403.
pub takedown_hides_views :
    (presign : Presign) (env : Env) (i : ℕ) (q : AdminTakedownRequest) (operator user : TokenData)
    (db : Db) (r : AdminTakedownResponse) (n : Nano)
    → (TakenDown env i q operator db).0 ≡ ok r
    → find (nano_at i) db.nanos ≡ some n
    → can_access_restricted_nano n user ≡ false
    → let db' = (TakenDown env i q operator db).1 in
      ((Detailed i none db').0 ≡ err (http_exception 401 unauthenticated))
      × ((Described i none db').0 ≡ err (http_exception 401 unauthenticated))
      × ((Detailed i (some user) db').0 ≡ err (http_exception 403 forbidden))
      × ((Described i (some user) db').0 ≡ err (http_exception 403 forbidden))
      × ((Downloaded presign i user db').0 ≡ err (http_exception 403 forbidden))
takedown_hides_views presign env i q operator user db r n h found stranger =
    let (m, before, after, hidden, old, new, already, others) =
      takedown_removes env i q operator db r h in
    let same : m ≡ n = ground arith in
    let outside : can_access_restricted_nano (take_down env m) user ≡ false = rw same stranger in
    let (a, b, c, d) =
      hidden_views i user (TakenDown env i q operator db).1 (take_down env m) after hidden
        outside in
    (a, b, c, d, takedown_hides presign env i q operator user db r n h found stranger)
