-- ===== src/Nanos/Views.antt =====
-- Reading a Nano: `get_nano_metadata` and `get_nano_detail` with `_get_nano_categories`. The names of
-- the categories, which are left out of the model, are left out of the answers, as are the dates of
-- upload and update and the time of the answer.
use di_wei_wei_nano_market.Prelude.{
  ℕ, Bool, false, not, Option, none, some, List, ◌==◌, ◌&&◌, ◌||◌, leb, if◌then◌else◌, find, select,
  is_in,
}
use di_wei_wei_nano_market.Prelude.Pages.{sort_by}
use di_wei_wei_nano_market.Models.{
  Db, Nano, NanoFormat, NanoStatus, CompetencyLevel, LicenseType, NanoCategoryAssignment, TokenData,
  User, Text, is_published,
}
use di_wei_wei_nano_market.Session.{
  Action, http_exception, forbidden, unauthenticated, ◌>>=◌, ◌>>◌, pure, gets, raise_if,
}
use di_wei_wei_nano_market.Auth.Deletion.{user_at}
use di_wei_wei_nano_market.Nanos.Access.{get_nano_or_404}
use di_wei_wei_nano_market.Nanos.Download.{
  Visibility, unrestricted, restricted, can_access_restricted_nano,
}

-- The guard that both endpoints have: without a caller, with one who may not, and else.
unfoldable pub check_visible : Nano → Option TokenData → Action (Unit {0})
check_visible n none = raise_if (not (is_published n.status)) (http_exception 401 unauthenticated)
check_visible n (some user) =
    raise_if (not (is_published n.status) && not (can_access_restricted_nano n user))
      (http_exception 403 forbidden)

-- The assignments of a Nano to categories that exist, ordered by their rank.
abbrev pub by_rank : NanoCategoryAssignment → NanoCategoryAssignment → Bool
by_rank a b = leb a.rank b.rank

abbrev pub category_of : ℕ → List ℕ → NanoCategoryAssignment → Bool
category_of nano_id categories a = (a.nano_id == nano_id) && is_in a.category_id categories

unfoldable pub get_nano_categories : ℕ → Db → List NanoCategoryAssignment
get_nano_categories nano_id db =
    sort_by by_rank (select (category_of nano_id db.categories) db.assignments)

pub record NanoMetadata : Type 0 where
  pub description : Option Text
  pub duration_minutes : Option ℕ
  pub competency_level : CompetencyLevel
  pub language : Text
  pub format : NanoFormat
  pub status : NanoStatus
  pub version : Text
  pub categories : List NanoCategoryAssignment
  pub license : LicenseType
  pub thumbnail_url : Option Text
  pub published_at : Option ℕ

abbrev pub metadata_of : Nano → List NanoCategoryAssignment → NanoMetadata
metadata_of n categories = record {
  description = n.description;
  duration_minutes = n.duration_minutes;
  competency_level = n.competency_level;
  language = n.language;
  format = n.format;
  status = n.status;
  version = n.version;
  categories = categories;
  license = n.license;
  thumbnail_url = n.thumbnail_url;
  published_at = n.published_at;
}

pub record NanoMetadataResponse : Type 0 where
  pub nano_id : ℕ
  pub creator_id : ℕ
  pub title : Text
  pub metadata : NanoMetadata

unfoldable pub get_nano_metadata : ℕ → Option TokenData → Action NanoMetadataResponse
unfolding get_nano_or_404 check_visible
get_nano_metadata nano_id user = do
  nano ← get_nano_or_404 nano_id
  check_visible nano user
  categories ← gets (get_nano_categories nano_id)
  pure (record {
    nano_id = nano.id;
    creator_id = nano.creator_id;
    title = nano.title;
    metadata = metadata_of nano categories;
  })

pub record NanoDetail : Type 0 where
  pub nano_id : ℕ
  pub title : Text
  pub metadata : NanoMetadata
  pub creator_id : ℕ
  pub creator_username : Option Text
  pub average_rating : ℕ
  pub rating_count : ℕ
  pub download_count : ℕ
  pub can_download : Bool
  pub download_path : Option Text
  pub visibility : Visibility
  pub request_user_id : Option ℕ

abbrev pub username_of : Option User → Option Text
username_of none = none
username_of (some u) = some u.username

abbrev pub may_download : Nano → Option TokenData → Bool
may_download n none = false
may_download n (some user) = is_published n.status || can_access_restricted_nano n user

abbrev pub id_of : Option TokenData → Option ℕ
id_of none = none
id_of (some user) = some user.user_id

abbrev pub detail_of :
    Nano → Option TokenData → List NanoCategoryAssignment → Option User → NanoDetail
detail_of n user categories creator = record {
  nano_id = n.id;
  title = n.title;
  metadata = metadata_of n categories;
  creator_id = n.creator_id;
  creator_username = username_of creator;
  average_rating = n.average_rating;
  rating_count = n.rating_count;
  download_count = n.download_count;
  can_download = may_download n user;
  download_path = if may_download n user then n.file_storage_path else none;
  visibility = if is_published n.status then unrestricted else restricted;
  request_user_id = id_of user;
}

unfoldable pub get_nano_detail : ℕ → Option TokenData → Action NanoDetail
unfolding get_nano_or_404 check_visible
get_nano_detail nano_id user = do
  nano ← get_nano_or_404 nano_id
  creator ← gets (λ db. find (user_at nano.creator_id) db.users)
  check_visible nano user
  categories ← gets (get_nano_categories nano_id)
  pure (detail_of nano user categories creator)
