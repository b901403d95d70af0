-- ===== src/Nanos/Download.antt =====
-- Who may download a Nano: `get_nano_download_info` with `_can_access_restricted_nano`. The method of
-- the storage client that presigns addresses is a parameter.
use di_wei_wei_nano_market.Prelude.{
  ℕ, ◌≡◌, ◌↔◌, inl, inr, Bool, true, false, not, Option, none, some, ◌||◌, ◌&&◌, ◌==◌, arith,
  if◌then◌else◌, find, Option-cases,
}
use di_wei_wei_nano_market.Prelude.Text.{is_empty}
use di_wei_wei_nano_market.Models.{
  Nano, Db, TokenData, Text, nano_at, is_published, is_moderator_or_admin,
}
use di_wei_wei_nano_market.Session.{
  Action, Env, Result, ok, err, http_exception, forbidden, no_download_path, storage_down, ◌>>=◌,
  ◌>>◌, pure, raise_if, or_raise, request,
}
use di_wei_wei_nano_market.Nanos.Access.{get_nano_or_404}
use di_wei_wei_nano_market.Upload.Storage.{Presign, get_file_url}
use di_wei_wei_nano_market.Nanos.Status.{AdminTakedownRequest, AdminTakedownResponse}
use di_wei_wei_nano_market.Nanos.Removal.{TakenDown, takedown_removes}

abbrev pub can_access_restricted_nano : Nano → TokenData → Bool
can_access_restricted_nano nano user =
    (nano.creator_id == user.user_id) || is_moderator_or_admin user.role

pub data Visibility : Type 0 where
  unrestricted restricted : Visibility

pub record DownloadInfo : Type 0 where
  pub nano_id : ℕ
  pub download_url : Text
  pub visibility : Visibility
  pub request_user_id : ℕ

-- The path, where there is one that is not empty.
abbrev pub storage_path : Option Text → Option Text
storage_path none = none
storage_path (some p) = if is_empty p then none else some p

module _ (presign : Presign) where
  unfoldable pub get_nano_download_info : ℕ → TokenData → Action DownloadInfo
  unfolding get_nano_or_404
  get_nano_download_info nano_id user = do
    nano ← get_nano_or_404 nano_id
    raise_if (not (is_published nano.status) && not (can_access_restricted_nano nano user))
        (http_exception 403 forbidden)
    path ← or_raise (storage_path nano.file_storage_path) (http_exception 404 no_download_path)
    download_url ← or_raise (get_file_url presign path) (http_exception 503 storage_down)
    pure (record {
      nano_id = nano.id;
      download_url = download_url;
      visibility = if is_published nano.status then unrestricted else restricted;
      request_user_id = user.user_id;
    })

  abbrev pub Downloaded : ℕ → TokenData → Db → Result DownloadInfo × Db
  Downloaded i user db = request (get_nano_download_info i user) db

  -- What a permitted download is answered, by its path and its visibility.
  abbrev pub address_answer : ℕ → TokenData → Visibility → Option Text → Result DownloadInfo
  address_answer i user visibility none = err (http_exception 503 storage_down)
  address_answer i user visibility (some url) = ok (record {
    nano_id = i;
    download_url = url;
    visibility = visibility;
    request_user_id = user.user_id;
  })

  abbrev pub path_answer : ℕ → TokenData → Visibility → Option Text → Result DownloadInfo
  path_answer i user visibility none = err (http_exception 404 no_download_path)
  path_answer i user visibility (some p) = address_answer i user visibility (get_file_url presign p)

  -- A download that succeeds is of a Nano that is published, or that the caller created or may
  -- moderate; its address is the one that the storage gives for the Nano's path, and the answer calls
  -- a Nano that is not published restricted. Nothing in the database changes.
  pub download_guarded :
      (i : ℕ) (user : TokenData) (db : Db) (info : DownloadInfo)
      → (Downloaded i user db).0 ≡ ok info
      → (n : Nano) × (p : Text) × (find (nano_at i) db.nanos ≡ some n)
        × ((is_published n.status || can_access_restricted_nano n user) ≡ true)
        × (n.file_storage_path ≡ some p)
        × (get_file_url presign p ≡ some info.download_url)
        × ((info.visibility ≡ restricted) ↔ (is_published n.status ≡ false))
        × ((Downloaded i user db).1 ≡ db)
  unfolding get_nano_download_info
  download_guarded i user db info h = elim (Option-cases (find (nano_at i) db.nanos)) [
    | inl missing ↦ absurd (ground arith)
    | inr (n, found) ↦ elim (Option-cases n.file_storage_path) [
      | inl nowhere ↦ absurd (ground arith)
      | inr (p, at) ↦ (n, p, found, ground arith, at, ground arith, ground arith, ground arith)
    ]
  ]

  -- After a takedown that succeeds, whatever the Nano's status was, a download by anybody who neither
  -- created the Nano nor may moderate is refused with 403.
  pub takedown_hides :
      (env : Env) (i : ℕ) (q : AdminTakedownRequest) (operator user : TokenData) (db : Db)
      (r : AdminTakedownResponse) (n : Nano)
      → (TakenDown env i q operator db).0 ≡ ok r
      → find (nano_at i) db.nanos ≡ some n
      → can_access_restricted_nano n user ≡ false
      → (Downloaded i user (TakenDown env i q operator db).1).0 ≡ err (http_exception 403 forbidden)
  unfolding get_nano_download_info
  takedown_hides env i q operator user db r n h found stranger =
      let (m, before, after, hidden, old, new, already, others) =
        takedown_removes env i q operator db r h in
      ground arith
