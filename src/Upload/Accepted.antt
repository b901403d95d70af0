-- ===== src/Upload/Accepted.antt =====
-- What an upload leaves in the database and in the object store.
use di_wei_wei_nano_market.Prelude.{
  ℕ, ◌≤◌, ◌≡◌, ◌≢◌, refl, ap, ◌∙◌, sym, ◌⊎◌, inl, inr, Bool, true, false, none, some, List, ◌∷◌,
  any, select, length, take, length-take, arith, Bool-cases, Option-cases,
}
use di_wei_wei_nano_market.Prelude.Text.{codes}
use di_wei_wei_nano_market.Models.{Db, Nano, NanoStatus, Text, nano_at}
use di_wei_wei_nano_market.Session.{Env, Result, ok, request}
use di_wei_wei_nano_market.Upload.Validation.{
  UploadFile, Archive, split_dot, archive, is_file, is_supported, max_upload_size, validate_upload,
}
use di_wei_wei_nano_market.Upload.Storage.{Minio, size, Stored, stored, storage_error, not_tried}
use di_wei_wei_nano_market.Upload.Draft.{
  UploadAnswer, created, Delays, or_name, draft_title, draft_nano, before_dot, path_fits,
  after_storage, upload_nano,
}
use di_wei_wei_nano_market.Upload.Held.{
  object_key, StoredFile, stored_file, stored_tried, validated,
}

module _ (lower : Text → Text) (open_zip : List ℕ → Archive) (str : ℕ → Text) {B : Type 0}
    (minio : Minio B) where
  abbrev pub Uploaded : Env → Delays → ℕ → UploadFile → Db → B → (Result UploadAnswer × Db) × B
  Uploaded env delays user_id file db b =
      upload_nano lower open_zip str minio env delays user_id file db b

  upload_passed :
      (env : Env) (delays : Delays) (i : ℕ) (file : UploadFile) (db : Db) (b : B) (n : Nano)
      → (Uploaded env delays i file db b).0.0 ≡ ok (created n)
      → (validate_upload lower open_zip file ≡ none)
        × (let (r, b') = StoredFile lower open_zip str minio env delays file b in
            ((request (after_storage env i (draft_title none file) r) db).0 ≡ ok (created n))
            × (Uploaded env delays i file db b
                ≡ (request (after_storage env i (draft_title none file) r) db, b')))
  unfolding upload_nano
  upload_passed env delays i file db b n h =
      elim (Option-cases (validate_upload lower open_zip file)) [
        | inl fine ↦ (fine, (ground arith, ground arith))
        | inr (e, wrong) ↦ absurd (ground arith)
      ]

  row_created :
      (env : Env) (i : ℕ) (title key : Text) (db : Db) (n : Nano)
      → (request (after_storage env i title (stored key)) db).0 ≡ ok (created n)
      → (n ≡ draft_nano env i title (some key))
        × (any (nano_at n.id) db.nanos ≡ false)
        × ((request (after_storage env i title (stored key)) db).1
            ≡ record db { nanos = n ∷ db.nanos })
  unfolding after_storage
  row_created env i title key db n h = (ground arith, ground arith, ground arith)

  error_created :
      (env : Env) (i : ℕ) (title : Text) (retryable : Bool) (db : Db) (n : Nano)
      → (request (after_storage env i title (storage_error retryable)) db).0 ≢ ok (created n)
  unfolding after_storage
  error_created env i title retryable db n h = ground arith

  Stored-cases :
      (r : Stored × B)
      → ((key : Text) × (b' : B) × (r ≡ (stored key, b')))
        ⊎ (((retryable : Bool) × (b' : B) × (r ≡ (storage_error retryable, b')))
            ⊎ ((b' : B) × (r ≡ (not_tried, b'))))
  Stored-cases (stored key, b') = inl (key, b', refl)
  Stored-cases (storage_error retryable, b') = inr (inl (retryable, b', refl))
  Stored-cases (not_tried, b') = inr (inr (b', refl))

  title_bound : (t : Text) → length (take 200 (before_dot t (split_dot t))) ≤ 200
  title_bound t = omega (arith, length-take 200 (before_dot t (split_dot t)))

  title-le : (file : UploadFile) → length (draft_title none file) ≤ 200
  title-le file = title_bound (or_name (codes "untitled") file.filename)

  -- An upload that creates a Nano was of a file of at most 100 megabytes, an archive without a corrupt
  -- entry and with a file of a supported kind in it. The object store tells the size of the file for
  -- the Nano's path, which names the Nano's id and the file. The Nano is a new draft of the uploader with a title of at most 200 characters,
  -- and nothing else in the database changes.
  pub upload_accepted :
      (env : Env) (delays : Delays) (i : ℕ) (file : UploadFile) (db : Db) (b : B) (n : Nano)
      → (Uploaded env delays i file db b).0.0 ≡ ok (created n)
      → (length file.content ≤ max_upload_size)
        × ((names : List Text) × (open_zip file.content ≡ archive false names)
            × (any (is_supported lower open_zip) (select is_file names) ≡ true))
        × (n.file_storage_path ≡ some (object_key lower open_zip str minio env file))
        × (minio.stat_object
              (Uploaded env delays i file db b).1
              (object_key lower open_zip str minio env file)
            ≡ size (length file.content))
        × (n.status ≡ NanoStatus.draft)
        × (n.creator_id ≡ i)
        × (length n.title ≤ 200)
        × (any (nano_at n.id) db.nanos ≡ false)
        × ((Uploaded env delays i file db b).0.1 ≡ record db { nanos = n ∷ db.nanos })
  upload_accepted env delays i file db b n h =
      let (fine, (answer, all_)) = upload_passed env delays i file db b n h in
      let (small, content) = validated lower open_zip str minio file fine in
      elim (Stored-cases (StoredFile lower open_zip str minio env delays file b)) [
        | inr (inr (b', untried)) ↦
            absurd (stored_tried lower open_zip str minio env delays file b b' untried)
        | inr (inl (retryable, b', failure)) ↦ absurd (
            error_created env i (draft_title none file) retryable db n (
              ap (λ r. (request (after_storage env i (draft_title none file) r.0) db).0)
                (sym failure)
              ∙ answer))
        | inl (key, b', kept) ↦
            let (same, there) =
              stored_file lower open_zip str minio env delays file b b' key kept in
            let (row, new, rows) = row_created env i (draft_title none file) key db n (
              ap (λ r. (request (after_storage env i (draft_title none file) r.0) db).0) (sym kept)
              ∙ answer) in
            (
              small,
              content,
              ap (λ m. m.file_storage_path) row ∙ ap (λ k. some k) same,
              rw (all_, kept) there,
              ap (λ m. m.status) row,
              ap (λ m. m.creator_id) row,
              rw row (title-le file),
              new,
              rw (all_, kept) rows,
            )
      ]

  row_refused :
      (env : Env) (i : ℕ) (title : Text) (r : Stored) (db : Db)
      → ((n : Nano) → (request (after_storage env i title r) db).0 ≢ ok (created n))
      → (request (after_storage env i title r) db).1 ≡ db
  unfolding after_storage
  row_refused env i title (storage_error retryable) db h = refl
  row_refused env i title (stored key) db h =
      elim (Bool-cases (any (nano_at env.new_id) db.nanos)) [
        | inl taken ↦ ground arith
        | inr new ↦ elim (Bool-cases (path_fits (some key))) [
          | inl fits ↦ absurd (h (draft_nano env i title (some key)) (ground arith))
          | inr long ↦ ground arith
        ]
      ]
  row_refused env i title not_tried db h = elim (Bool-cases (any (nano_at env.new_id) db.nanos)) [
    | inl taken ↦ ground arith
    | inr new ↦ absurd (h (draft_nano env i title none) (ground arith))
  ]

  -- An upload that creates no Nano, because a check, the object store or the database refuses it,
  -- leaves the database as it was.
  pub upload_refused :
      (env : Env) (delays : Delays) (i : ℕ) (file : UploadFile) (db : Db) (b : B)
      → ((n : Nano) → (Uploaded env delays i file db b).0.0 ≢ ok (created n))
      → (Uploaded env delays i file db b).0.1 ≡ db
  unfolding upload_nano
  upload_refused env delays i file db b h =
      elim (Option-cases (validate_upload lower open_zip file)) [
        | inr (e, wrong) ↦ rw wrong refl
        | inl fine ↦ rw fine (
            row_refused env i (draft_title none file)
              (StoredFile lower open_zip str minio env delays file b).0 db
              (λ n. λ e. h n (rw fine e)))
      ]
