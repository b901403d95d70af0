-- ===== src/Upload/Draft.antt =====
-- The upload endpoint: `upload_nano` (app/modules/upload/router.py) with `create_draft_nano`
-- (app/modules/upload/service.py). Beside the object store it takes `str`, the text of an id. The
-- upload runs in a thread: where it takes too long, the request goes on and the thread still ends.
-- The columns' lengths are those of PostgreSQL; that the creator is a row of `users` is left out.
use di_wei_wei_nano_market.Prelude.{
  ℕ, Bool, true, not, Option, none, some, List, ◌∷◌, leb, any, length, take, if◌then◌else◌,
}
use di_wei_wei_nano_market.Prelude.Text.{codes, is_empty}
use di_wei_wei_nano_market.Models.{
  Db, Nano, NanoStatus, NanoFormat, CompetencyLevel, LicenseType, Text, nano_at,
}
use di_wei_wei_nano_market.Session.{
  Env, Action, Result, ok, err, Error, http_exception, integrity_error, sqlalchemy_error,
  not_created, ◌>>=◌, ◌>>◌, pure, gets, modify_db, raise_if, commit, request,
}
use di_wei_wei_nano_market.Upload.Validation.{UploadFile, Archive, split_dot, validate_upload}
use di_wei_wei_nano_market.Upload.Storage.{
  Minio, Stored, stored, storage_error, not_tried, upload_file,
}

-- The 201 response, or the JSON response of a `StorageError`: 503 where it is retryable, else 500.
pub data UploadAnswer : Type 0 where
  created : Nano → UploadAnswer
  upload_failed : Bool → UploadAnswer

-- Whether `asyncio.wait_for` gives up on reading the file, and on the thread that uploads it.
pub record Delays : Type 0 where
  pub read_late : Bool
  pub upload_late : Bool

-- `file.filename or default`
abbrev pub or_name : Text → Option Text → Text
or_name default none = default
or_name default (some t) = if is_empty t then default else t

-- `filename.rsplit(".", 1)[0] if "." in filename else filename`
abbrev pub before_dot : Text → Option (Text × Text) → Text
before_dot filename none = filename
before_dot filename (some (before, _)) = before

abbrev pub draft_title : Option Text → UploadFile → Text
draft_title (some title) file = take 200 title
draft_title none file =
    let filename = or_name (codes "untitled") file.filename in
    take 200 (before_dot filename (split_dot filename))

-- The new row with the columns' defaults.
abbrev pub draft_nano : Env → ℕ → Text → Option Text → Nano
draft_nano env creator_id title key = record {
  id = env.new_id;
  creator_id = creator_id;
  title = title;
  description = none;
  duration_minutes = none;
  competency_level = CompetencyLevel.basic;
  language = codes "de";
  format = NanoFormat.mixed;
  status = NanoStatus.draft;
  version = codes "1.0.0";
  thumbnail_url = none;
  file_storage_path = key;
  license = LicenseType.proprietary;
  published_at = none;
  archived_at = none;
  download_count = 0;
  average_rating = 0;
  rating_count = 0;
}

abbrev pub path_fits : Option Text → Bool
path_fits none = true
path_fits (some path) = leb (length path) 500

abbrev pub insert_nano : Nano → Action (Unit {0})
insert_nano n = do
  raise_if (← gets (λ db. any (nano_at n.id) db.nanos)) integrity_error
  raise_if (not (path_fits n.file_storage_path)) sqlalchemy_error
  modify_db (λ db. record db { nanos = n ∷ db.nanos })

-- `except Exception`
abbrev pub or_not_created : {A : Type 0} → Result A → Result A
or_not_created (ok a) = ok a
or_not_created (err e) = err (http_exception 500 not_created)

abbrev pub create_row : Nano → Action UploadAnswer
create_row n = do insert_nano n; commit; pure (created n)

-- What follows the storage: the row, or the answer to a `StorageError`. The storage gives no key
-- where it makes no attempt.
unfoldable pub after_storage : Env → ℕ → Text → Stored → Action UploadAnswer
after_storage env creator_id title (stored key) s =
    let (r, s') = create_row (draft_nano env creator_id title (some key)) s in
    (or_not_created r, s')
after_storage env creator_id title not_tried s =
    let (r, s') = create_row (draft_nano env creator_id title none) s in (or_not_created r, s')
after_storage env creator_id title (storage_error retryable) s = (ok (upload_failed retryable), s)

module _ (lower : Text → Text) (open_zip : List ℕ → Archive) (str : ℕ → Text) {B : Type 0}
    (minio : Minio B) where
  unfoldable pub store_content : Env → Delays → UploadFile → B → Stored × B
  store_content env delays file b =
      let (r, b') =
        upload_file lower minio str env.new_id file.content
          (or_name (codes "untitled.zip") file.filename) b in
      if delays.read_late
      then (storage_error true, b)
      else if delays.upload_late
      then (storage_error true, b')
      else (r, b')

  -- What the endpoint does after the validation.
  abbrev pub upload_checked :
      Env → Delays → ℕ → UploadFile → Option Error → Db → B → (Result UploadAnswer × Db) × B
  upload_checked env delays user_id file (some e) db b = ((err e, db), b)
  upload_checked env delays user_id file none db b =
      let (r, b') = store_content env delays file b in
      (request (after_storage env user_id (draft_title none file) r) db, b')

  unfoldable pub upload_nano :
      Env → Delays → ℕ → UploadFile → Db → B → (Result UploadAnswer × Db) × B
  upload_nano env delays user_id file db b =
      upload_checked env delays user_id file (validate_upload lower open_zip file) db b
