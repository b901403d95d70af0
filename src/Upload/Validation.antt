-- ===== src/Upload/Validation.antt =====
-- The checks of an uploaded file (app/modules/upload/validation.py). `lower` is `str.lower`;
-- `open_zip` is `zipfile.ZipFile` with `testzip` and `namelist`. Each check gives the exception that
-- it raises, if any. A file is its bytes.
use di_wei_wei_nano_market.Prelude.{
  ℕ, zero, suc, ◌+◌, Bool, true, false, not, Option, none, some, List, [], ◌∷◌, ◌++◌, ◌==◌, ◌&&◌,
  leb, ltb, any, length, take, drop, select, if◌then◌else◌,
}
use di_wei_wei_nano_market.Prelude.Text.{codes, ends_with, is_empty}
use di_wei_wei_nano_market.Models.{Text}
use di_wei_wei_nano_market.Session.{
  Error, http_exception, wrong_type, wrong_extension, file_too_large, bad_zip, corrupt_zip,
  empty_zip, only_directories, unsupported_content, unreadable_zip,
}
use di_wei_wei_nano_market.Auth.Login.{same_text}

pub record UploadFile : Type 0 where
  pub content_type : Option Text
  pub filename : Option Text
  pub content : List ℕ

-- What opening and testing the archive gives: `BadZipFile`, another exception, or the names of its
-- entries and whether `testzip` found a corrupt one.
pub data Archive : Type 0 where
  not_a_zip unreadable : Archive
  archive : Bool → List Text → Archive

-- `MAX_UPLOAD_SIZE` and `chunk_size`, in bytes
abbrev pub max_upload_size : ℕ
max_upload_size = 104857600

abbrev pub chunk_size : ℕ
chunk_size = 1048576

abbrev pub one_of : List Text → Text → Bool
one_of ts t = any (same_text t) ts

abbrev pub allowed_mime_types : List Text
allowed_mime_types =
    codes "application/zip" ∷ codes "application/x-zip-compressed" ∷ codes "application/x-zip" ∷ []

abbrev pub supported_content_extensions : List Text
supported_content_extensions =
    codes ".pdf" ∷ codes ".jpg" ∷ codes ".png" ∷ codes ".mp4" ∷ codes ".webm" ∷ []

-- A field that is missing or empty passes.
abbrev pub given_and : (Text → Bool) → Option Text → Bool
given_and p none = false
given_and p (some t) = not (is_empty t) && p t

abbrev pub error_if : Bool → Error → Option Error
error_if c e = if c then some e else none

-- The first check that raises.
abbrev pub first_error : Option Error → Option Error → Option Error
first_error (some e) _ = some e
first_error none e = e

abbrev pub is_nil : {A : Type 0} → List A → Bool
is_nil [] = true
is_nil (_ ∷ _) = false

-- The loop over the chunks, with the bytes that were counted: whether all of the file was read, or
-- the limit passed. It is `none` where the fuel, which bounds the number of chunks, ran out.
unfoldable pub read_chunks : ℕ → ℕ → ℕ → ℕ → List ℕ → Option Bool
read_chunks chunk limit zero total content = none
read_chunks chunk limit (suc fuel) total content =
    let read = take chunk content in
    let rest = read_chunks chunk limit fuel (total + length read) (drop chunk content) in
    if is_empty read
    then some true
    else if ltb limit (total + length read)
    then some false
    else rest

abbrev pub size_error : Option Bool → Option Error
size_error (some true) = none
size_error _ = some (http_exception 413 file_too_large)

unfoldable pub validate_file_size : UploadFile → Option Error
validate_file_size file =
    size_error (read_chunks chunk_size max_upload_size (suc (length file.content)) 0 file.content)

-- `PurePosixPath(name).name`: the last component that is neither empty nor a dot, where `part` is the
-- component that is being read and `last` the one before it.
abbrev pub is_component : Text → Bool
is_component t = not (is_empty t) && not (same_text t (codes "."))

abbrev pub later_part : Text → Text → Text
later_part part last = if is_component part then part else last

unfoldable pub path_name : Text → Text → Text → Text
path_name part last [] = later_part part last
path_name part last (c ∷ t) =
    let next = path_name [] (later_part part last) t in
    let same = path_name (part ++ c ∷ []) last t in if c == 47 then next else same

-- The text before the last dot, and the text from it on.
unfoldable pub split_dot : Text → Option (Text × Text)
split_dot [] = none
split_dot (c ∷ t) = elim (split_dot t) [
  | none ↦ if c == 46 then some ([], c ∷ t) else none
  | some (before, from) ↦ some (c ∷ before, from)
]

-- A suffix needs a stem before it and a character after its dot.
abbrev pub suffix_of : Option (Text × Text) → Text
suffix_of none = []
suffix_of (some (before, from)) = if not (is_empty before) && leb 2 (length from) then from else []

unfoldable pub suffix : Text → Text
unfolding path_name split_dot
suffix name = suffix_of (split_dot (path_name [] [] name))

abbrev pub is_file : Text → Bool
is_file name = not (ends_with (codes "/") name)

module _ (lower : Text → Text) (open_zip : List ℕ → Archive) where
  unfoldable pub validate_file_type : UploadFile → Option Error
  validate_file_type file =
      first_error
        (error_if (given_and (λ t. not (one_of allowed_mime_types t)) file.content_type)
          (http_exception 400 wrong_type))
        (error_if (given_and (λ t. not (ends_with (codes ".zip") (lower t))) file.filename)
          (http_exception 400 wrong_extension))

  abbrev pub is_supported : Text → Bool
  is_supported name = one_of supported_content_extensions (lower (suffix name))

  abbrev pub check_archive : Archive → Option Error
  check_archive not_a_zip = some (http_exception 400 bad_zip)
  check_archive unreadable = some (http_exception 400 unreadable_zip)
  check_archive (archive corrupt file_list) =
      let actual_files = select is_file file_list in
      first_error (error_if corrupt (http_exception 400 corrupt_zip)) (
        first_error (error_if (is_nil file_list) (http_exception 400 empty_zip)) (
          first_error (error_if (is_nil actual_files) (http_exception 400 only_directories)) (
            error_if (is_nil (select is_supported actual_files))
              (http_exception 400 unsupported_content))))

  unfoldable pub validate_zip_structure : UploadFile → Option Error
  validate_zip_structure file = check_archive (open_zip file.content)

  unfoldable pub validate_upload : UploadFile → Option Error
  validate_upload file =
      first_error (validate_file_type file)
        (first_error (validate_file_size file) (validate_zip_structure file))
