-- ===== src/Tests/Parcel.antt =====
-- An upload while the object store is unsteady.
use di_wei_wei_nano_market.Prelude.{
  ℕ, zero, suc, ◌≤◌, ◌≡◌, ◌≢◌, refl, true, false, Option, none, some, List, [], ◌∷◌, any, select,
  length, arith, if◌then◌else◌,
}
use di_wei_wei_nano_market.Prelude.Text.{codes}
use di_wei_wei_nano_market.Models.{Nano, NanoStatus, Text, nano_at}
use di_wei_wei_nano_market.Session.{ok, err, http_exception, forbidden}
use di_wei_wei_nano_market.Nanos.Download.{address_answer, Downloaded, restricted}
use di_wei_wei_nano_market.Auth.Login.{same_text}
use di_wei_wei_nano_market.Upload.Validation.{
  UploadFile, Archive, archive, is_file, is_supported, max_upload_size, suffix, validate_upload,
  validate_file_type, validate_file_size, validate_zip_structure, read_chunks,
}
use di_wei_wei_nano_market.Upload.Chunks.{size_check}
use di_wei_wei_nano_market.Upload.Storage.{
  Presign, get_file_url, Minio, Stat, size, raised, try_upload, attempt, is_transient_error,
  upload_file,
}
use di_wei_wei_nano_market.Upload.Retries.{Outage, Ends, upload_retries}
use di_wei_wei_nano_market.Upload.Draft.{
  Delays, created, upload_failed, draft_nano, upload_nano, store_content, after_storage,
}
use di_wei_wei_nano_market.Upload.Held.{object_key}
use di_wei_wei_nano_market.Upload.Accepted.{Uploaded, upload_accepted}
use di_wei_wei_nano_market.Upload.Private.{upload_private}
use di_wei_wei_nano_market.Tests.Data.{env, market, author, reader}
use di_wei_wei_nano_market.Tests.Intruder.{keep}

-- The sizes of the objects by their keys, and how many commands will still fail.
pub record Shelf : Type 0 where
  pub failing : ℕ
  pub sizes : Text → Option ℕ

abbrev put_on : ℕ → Shelf → Text → List ℕ → Option Text × Shelf
put_on zero b key content =
    (none, record b { sizes = λ k. if same_text k key then some (length content) else b.sizes k })
put_on (suc n) b key content = (some (codes "connection reset"), record b { failing = n })

abbrev stat_of : Option ℕ → Stat
stat_of none = raised (codes "missing")
stat_of (some n) = size n

abbrev pub shelf : Minio Shelf
shelf = record {
  put_object = λ b key content. put_on b.failing b key content;
  stat_object = λ b key. stat_of (b.sizes key);
}

abbrev pub unsteady : Shelf
unsteady = record { failing = 2; sizes = λ k. none }

abbrev broken : Shelf
broken = record { failing = 3; sizes = λ k. none }

abbrev folder : List Text
folder = codes "unit/" ∷ codes "unit/text.v2.pdf" ∷ []

abbrev pub zip_of : List ℕ → Archive
zip_of content = archive false folder

abbrev pub number_text : ℕ → Text
number_text i = codes "64"

abbrev pub parcel : UploadFile
parcel = record {
  content_type = some (codes "application/zip");
  filename = some (codes "unit.zip");
  content = codes "PK..";
}

abbrev pub prompt : Delays
prompt = record { read_late = false; upload_late = false }

abbrev row : Nano
row = draft_nano env 1 (codes "unit") (some (codes "nanos/64/content/unit.zip"))

uploads :
    (Uploaded keep zip_of number_text shelf env prompt 1 parcel market unsteady).0.0
    ≡ ok (created row)
unfolding upload_nano validate_upload validate_file_type validate_file_size validate_zip_structure
    read_chunks suffix store_content upload_file try_upload attempt is_transient_error after_storage
uploads = refl

fails :
    (Uploaded keep zip_of number_text shelf env prompt 1 parcel market broken).0.0
    ≡ ok (upload_failed true)
unfolding upload_nano validate_upload validate_file_type validate_file_size validate_zip_structure
    read_chunks suffix store_content upload_file try_upload attempt is_transient_error after_storage
fails = refl

upload_accepted_example :
    (4 ≤ max_upload_size)
    × ((names : List Text) × (zip_of parcel.content ≡ archive false names)
        × (any (is_supported keep zip_of) (select is_file names) ≡ true))
    × (row.file_storage_path ≡ some (object_key keep zip_of number_text shelf env parcel))
    × (shelf.stat_object
          (Uploaded keep zip_of number_text shelf env prompt 1 parcel market unsteady).1
          (object_key keep zip_of number_text shelf env parcel)
        ≡ size 4)
    × (row.status ≡ NanoStatus.draft)
    × (row.creator_id ≡ 1)
    × (length row.title ≤ 200)
    × (any (nano_at row.id) market.nanos ≡ false)
    × ((Uploaded keep zip_of number_text shelf env prompt 1 parcel market unsteady).0.1
        ≡ record market { nanos = row ∷ market.nanos })
upload_accepted_example =
    upload_accepted keep zip_of number_text shelf env prompt 1 parcel market unsteady row uploads

not_uploaded :
    (n : Nano)
    → (Uploaded keep zip_of number_text shelf env prompt 1 parcel market broken).0.0
      ≢ ok (created n)
not_uploaded n h = ground (arith, fails)

abbrev parcel_key : Text
parcel_key = codes "nanos/64/content/unit.zip"

upload_retries_example :
    (k : ℕ) × (b : Shelf) × Outage keep shelf parcel_key parcel.content k unsteady b
    × Ends keep shelf parcel_key parcel.content 3 k b
        (try_upload keep shelf parcel_key parcel.content 3 unsteady)
upload_retries_example =
    upload_retries keep shelf parcel_key parcel.content 3 unsteady (ground arith)

abbrev address : Presign
address = some (λ path days. some path)

upload_private_example :
    let db' = (Uploaded keep zip_of number_text shelf env prompt 1 parcel market unsteady).0.1 in
    let url = get_file_url address parcel_key in
    (Downloaded address row.id author db'
      ≡ (address_answer address row.id author restricted url, db'))
    × (Downloaded address row.id reader db' ≡ (err (http_exception 403 forbidden), db'))
upload_private_example =
    upload_private keep zip_of number_text shelf address env prompt parcel market unsteady row
      author reader uploads refl

size_check_example : validate_file_size parcel ≡ none
size_check_example = size_check parcel
