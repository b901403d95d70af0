-- ===== src/Upload/Held.antt =====
-- What the object store holds after an upload, and what the checks let through.
use di_wei_wei_nano_market.Prelude.{
  ℕ, ◌≤◌, ◌≡◌, ◌≢◌, refl, ◌⊎◌, inl, inr, Bool, true, false, none, List, [], ◌∷◌, any, select,
  length, arith, Option-cases,
}
use di_wei_wei_nano_market.Prelude.Text.{codes}
use di_wei_wei_nano_market.Models.{Text}
use di_wei_wei_nano_market.Session.{Env}
use di_wei_wei_nano_market.Upload.Validation.{
  UploadFile, Archive, archive, not_a_zip, unreadable, is_file, is_supported, check_archive, is_nil,
  max_upload_size, validate_upload, validate_zip_structure,
}
use di_wei_wei_nano_market.Upload.Chunks.{size_check}
use di_wei_wei_nano_market.Upload.Storage.{
  Minio, Stat, size, raised, Stored, stored, not_tried, verified, attempt, upload_file, max_retries,
  generate_object_key,
}
use di_wei_wei_nano_market.Upload.Retries.{Tried, Ends, in_time, refused, given_up, upload_retries}
use di_wei_wei_nano_market.Upload.Draft.{Delays, or_name, store_content}

Stat-cases : (s : Stat) → ((n : ℕ) × (s ≡ size n)) ⊎ ((m : Text) × (s ≡ raised m))
Stat-cases (size n) = inl (n, refl)
Stat-cases (raised m) = inr (m, refl)

some_selected :
    {A : Type 0} (p : A → Bool) (xs : List A) → is_nil (select p xs) ≡ false → any p xs ≡ true
some_selected p [] h = absurd (ground arith)
some_selected p (x ∷ xs) h = ground (arith, some_selected p xs)

module _ (lower : Text → Text) {B : Type 0} (minio : Minio B) (key : Text) (content : List ℕ) where
  verified-size :
      (b b' : B)
      → Tried lower minio key content b ≡ (verified, b')
      → minio.stat_object b' key ≡ size (length content)
  unfolding attempt
  verified-size b b' h = elim (Option-cases (minio.put_object b key content).0) [
    | inr (m, raised_) ↦ absurd (ground arith)
    | inl done ↦ elim (Stat-cases (minio.stat_object (minio.put_object b key content).1 key)) [
      | inl (n, here) ↦ ground arith
      | inr (m, gone) ↦ absurd (ground arith)
    ]
  ]

  -- An upload ends with a key only where the object has the size of the content.
  held_object :
      (n k : ℕ) (b b' : B) (r : Stored × B) (found : Text)
      → Ends lower minio key content n k b r
      → r ≡ (stored found, b')
      → (found ≡ key) × (minio.stat_object b' key ≡ size (length content))
  held_object n k b b' _ found (in_time c lt h) e = ground (arith, verified-size b c h)
  held_object n k b b' _ found (refused c m lt h permanent) e = absurd (ground arith)
  held_object n k b b' _ found (given_up h) e = absurd (ground arith)

  at_least_once :
      (n k : ℕ) (b b' : B) (r : Stored × B)
      → Ends lower minio key content n k b r
      → r ≢ (not_tried, b')
  at_least_once n k b b' _ (in_time c lt h) e = ground arith
  at_least_once n k b b' _ (refused c m lt h permanent) e = ground arith
  at_least_once n k b b' _ (given_up h) e = ground arith

module _ (lower : Text → Text) (open_zip : List ℕ → Archive) (str : ℕ → Text) {B : Type 0}
    (minio : Minio B) where
  -- The key under which a file is stored.
  abbrev pub object_key : Env → UploadFile → Text
  object_key env file =
      generate_object_key str env.new_id (or_name (codes "untitled.zip") file.filename)

  abbrev pub StoredFile : Env → Delays → UploadFile → B → Stored × B
  StoredFile env delays file b = store_content lower open_zip str minio env delays file b

  pub stored_file :
      (env : Env) (delays : Delays) (file : UploadFile) (b b' : B) (found : Text)
      → StoredFile env delays file b ≡ (stored found, b')
      → (found ≡ object_key env file)
        × (minio.stat_object b' (object_key env file) ≡ size (length file.content))
  unfolding store_content upload_file
  stored_file env delays file b b' found h =
      let (k, c, outage, end) =
        upload_retries lower minio (object_key env file) file.content max_retries b (omega arith) in
      held_object lower minio (object_key env file) file.content max_retries k c b' _ found end
        (ground arith)

  pub stored_tried :
      (env : Env) (delays : Delays) (file : UploadFile) (b b' : B)
      → StoredFile env delays file b ≢ (not_tried, b')
  unfolding store_content upload_file
  stored_tried env delays file b b' h =
      let (k, c, outage, end) =
        upload_retries lower minio (object_key env file) file.content max_retries b (omega arith) in
      at_least_once lower minio (object_key env file) file.content max_retries k c b' _ end
        (ground arith)

  checked_archive :
      (a : Archive)
      → check_archive lower open_zip a ≡ none
      → (names : List Text) × (a ≡ archive false names)
        × (any (is_supported lower open_zip) (select is_file names) ≡ true)
  checked_archive not_a_zip h = absurd (ground arith)
  checked_archive unreadable h = absurd (ground arith)
  checked_archive (archive true names) h = absurd (ground arith)
  checked_archive (archive false names) h = (
    names,
    refl,
    some_selected (is_supported lower open_zip) (select is_file names) (ground arith),
  )

  pub validated :
      (file : UploadFile)
      → validate_upload lower open_zip file ≡ none
      → (length file.content ≤ max_upload_size)
        × ((names : List Text) × (open_zip file.content ≡ archive false names)
            × (any (is_supported lower open_zip) (select is_file names) ≡ true))
  unfolding validate_upload validate_zip_structure
  validated file h =
      (ground (arith, size_check file), checked_archive (open_zip file.content) (ground arith))
