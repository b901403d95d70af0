-- ===== src/Upload/Private.antt =====
-- Who can download a Nano that was just uploaded.
use di_wei_wei_nano_market.Prelude.{
  Option-cases, inl, inr, arith, ℕ, ◌≡◌, ap, false, some, List, ◌∷◌, arith,
}
use di_wei_wei_nano_market.Models.{Db, Nano, NanoStatus, TokenData, Text}
use di_wei_wei_nano_market.Session.{Env, ok, err, http_exception, forbidden}
use di_wei_wei_nano_market.Nanos.Download.{
  address_answer, Downloaded, get_nano_download_info, restricted, can_access_restricted_nano,
}
use di_wei_wei_nano_market.Upload.Validation.{UploadFile, Archive}
use di_wei_wei_nano_market.Upload.Storage.{Presign, get_file_url, Minio}
use di_wei_wei_nano_market.Upload.Draft.{Delays, created}
use di_wei_wei_nano_market.Upload.Held.{object_key}
use di_wei_wei_nano_market.Upload.Accepted.{Uploaded, upload_accepted}

module _ (lower : Text → Text) (open_zip : List ℕ → Archive) (str : ℕ → Text) {B : Type 0}
    (minio : Minio B) (presign : Presign) where
  draft_download :
      (user : TokenData) (db : Db) (n : Nano) (ns : List Nano) (c : ℕ) (key : Text)
      → db.nanos ≡ n ∷ ns
      → n.status ≡ NanoStatus.draft
      → n.creator_id ≡ user.user_id
      → n.file_storage_path ≡ some (c ∷ key)
      → Downloaded presign n.id user db
        ≡ (address_answer presign n.id user restricted (get_file_url presign (c ∷ key)), db)
  unfolding get_nano_download_info
  draft_download user db n ns c key rows new own path =
      elim (Option-cases (get_file_url presign (c ∷ key))) [
        | inl down ↦ ground arith
        | inr (url, here) ↦ ground arith
      ]

  draft_hidden :
      (user : TokenData) (db : Db) (n : Nano) (ns : List Nano)
      → db.nanos ≡ n ∷ ns
      → n.status ≡ NanoStatus.draft
      → can_access_restricted_nano n user ≡ false
      → Downloaded presign n.id user db ≡ (err (http_exception 403 forbidden), db)
  unfolding get_nano_download_info
  draft_hidden user db n ns rows new stranger = ground arith

  -- After an upload that creates a Nano, a download by the uploader is answered with the address that
  -- the storage gives for the path of the Nano, or with 503 where the storage gives none. A download by
  -- somebody who neither uploaded the Nano nor may moderate is refused with 403.
  pub upload_private :
      (env : Env) (delays : Delays) (file : UploadFile) (db : Db) (b : B) (n : Nano)
      (user stranger : TokenData)
      → (Uploaded lower open_zip str minio env delays user.user_id file db b).0.0 ≡ ok (created n)
      → can_access_restricted_nano n stranger ≡ false
      → let db' = (Uploaded lower open_zip str minio env delays user.user_id file db b).0.1 in
        let url = get_file_url presign (object_key lower open_zip str minio env file) in
        (Downloaded presign n.id user db' ≡ (address_answer presign n.id user restricted url, db'))
        × (Downloaded presign n.id stranger db' ≡ (err (http_exception 403 forbidden), db'))
  upload_private env delays file db b n user stranger h outside =
      let (small, content, path, there, new, own, short, fresh, rows) =
        upload_accepted lower open_zip str minio env delays user.user_id file db b n h in
      let rows' = ap (λ d. d.nanos) rows in
      (
        draft_download user _ n db.nanos 110 _ rows' new own path,
        draft_hidden stranger _ n db.nanos rows' new outside,
      )
