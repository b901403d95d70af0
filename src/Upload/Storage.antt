-- ===== src/Upload/Storage.antt =====
-- The object store (app/modules/upload/storage.py). MinIO is a parameter: `B` is its state, and a
-- command that raises gives the message of its exception. `lower` is `str.lower`. The waits between
-- the attempts are left out.
use di_wei_wei_nano_market.Prelude.{
  ℕ, zero, suc, Bool, true, false, Option, none, some, List, [], ◌∷◌, ◌++◌, ◌==◌, any, length,
  if◌then◌else◌,
}
use di_wei_wei_nano_market.Prelude.Text.{codes, contains}
use di_wei_wei_nano_market.Models.{Text}

pub data Stat : Type 0 where
  size : ℕ → Stat
  raised : Text → Stat

pub record Minio (B : Type 0) : Type 0 where
  pub put_object : B → Text → List ℕ → Option Text × B
  pub stat_object : B → Text → Stat

-- `settings.UPLOAD_MAX_RETRIES`
abbrev pub max_retries : ℕ
max_retries = 3

-- An upload gives its storage key, or a `StorageError` that is retryable or not, or nothing, where no
-- attempt was made.
pub data Stored : Type 0 where
  stored : Text → Stored
  storage_error : Bool → Stored
  not_tried : Stored

-- One attempt: the upload that is verified, or the message of the exception.
pub data Attempt : Type 0 where
  verified : Attempt
  failed : Text → Attempt

abbrev pub transient_indicators : List Text
transient_indicators =
    codes "timeout"
    ∷ codes "timed out"
    ∷ codes "connection"
    ∷ codes "temporarily unavailable"
    ∷ codes "service unavailable"
    ∷ codes "reset"
    ∷ codes "dns"
    ∷ codes "503"
    ∷ codes "429"
    ∷ []

-- `_generate_object_key`, where `str` gives the text of an id.
abbrev pub generate_object_key : (ℕ → Text) → ℕ → Text → Text
generate_object_key str nano_id filename =
    codes "nanos/" ++ (str nano_id ++ (codes "/content/" ++ filename))

module _ (lower : Text → Text) where
  unfoldable pub is_transient_error : Text → Bool
  is_transient_error message = any (λ i. contains i (lower message)) transient_indicators

  module _ {B : Type 0} (minio : Minio B) (key : Text) (content : List ℕ) where
    abbrev pub verify : Stat → Attempt
    verify (size n) =
        if n == length content
        then verified
        else failed (codes "Upload verification failed: size mismatch")
    verify (raised message) = failed message

    abbrev pub after_put : Option Text → B → Attempt × B
    after_put none b = (verify (minio.stat_object b key), b)
    after_put (some message) b = (failed message, b)

    unfoldable pub attempt : B → Attempt × B
    attempt b = let (raised_, b') = minio.put_object b key content in after_put raised_ b'

    -- The `except` clause of the loop, with the number of attempts that are left after this one, and
    -- what they give.
    abbrev pub after_attempt : ℕ → Attempt × B → Stored × B → Stored × B
    after_attempt left (verified, b) rest = (stored key, b)
    after_attempt left (failed message, b) rest =
        if is_transient_error message
        then (if left == 0 then (storage_error true, b) else rest)
        else (storage_error false, b)

    unfoldable pub try_upload : ℕ → B → Stored × B
    try_upload zero b = (not_tried, b)
    try_upload (suc left) b =
        let rest = try_upload left (attempt b).1 in after_attempt left (attempt b) rest

  unfoldable pub upload_file :
      {B : Type 0} → Minio B → (ℕ → Text) → ℕ → List ℕ → Text → B → Stored × B
  upload_file minio str nano_id file_content filename b =
      try_upload minio (generate_object_key str nano_id filename) file_content max_retries b

-- `client.get_presigned_download_url`, as the client has it: `none` where it has no such method, and
-- else the address for an object and a number of days, or an exception.
abbrev pub Presign : Type 0
Presign = Option (Text → ℕ → Option Text)

-- The address, or a `StorageError` whatever goes wrong.
unfoldable pub get_file_url : Presign → Text → Option Text
get_file_url none object_key = none
get_file_url (some presign) object_key = presign object_key 7
