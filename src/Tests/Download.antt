-- ===== src/Tests/Download.antt =====
-- Downloads on the small market.
use di_wei_wei_nano_market.Prelude.{
  ◌≡◌, ◌↔◌, ◌||◌, ◌⊎◌, refl, none, some, true, false, [], ◌∷◌, find,
}
use di_wei_wei_nano_market.Models.{Db, Nano, Text, nano_at, published, archived, is_published}
use di_wei_wei_nano_market.Session.{ok, err, http_exception, forbidden, unauthenticated}
use di_wei_wei_nano_market.Upload.Storage.{Presign, get_file_url}
use di_wei_wei_nano_market.Nanos.Status.{
  AdminTakedownRequest, AdminTakedownResponse, admin_takedown_nano,
}
use di_wei_wei_nano_market.Nanos.Removal.{TakenDown}
use di_wei_wei_nano_market.Nanos.Download.{
  DownloadInfo, unrestricted, restricted, can_access_restricted_nano, get_nano_download_info,
  Downloaded, download_guarded, path_answer, storage_path,
}
use di_wei_wei_nano_market.Nanos.Views.{NanoDetail}
use di_wei_wei_nano_market.Nanos.Reading.{
  Detailed, Described, views_agree, described_by, may_read, takedown_hides_views,
}
use di_wei_wei_nano_market.Tests.Data.{env, moderator, reader, market, nano_with, hello}

abbrev storage : Presign
storage = some (λ path days. some (47 ∷ path))

abbrev stored : Nano
stored = record (nano_with 11 published) { file_storage_path = some hello }

abbrev shop : Db
shop = record market { nanos = stored ∷ [] }

abbrev info : DownloadInfo
info = record {
  nano_id = 11;
  download_url = 47 ∷ hello;
  visibility = unrestricted;
  request_user_id = 3;
}

downloads : (Downloaded storage 11 reader shop).0 ≡ ok info
unfolding get_nano_download_info get_file_url
downloads = refl

download_guarded_example :
    (n : Nano) × (p : Text) × (find (nano_at 11) shop.nanos ≡ some n)
    × ((is_published n.status || can_access_restricted_nano n reader) ≡ true)
    × (n.file_storage_path ≡ some p)
    × (get_file_url storage p ≡ some info.download_url)
    × ((info.visibility ≡ restricted) ↔ (is_published n.status ≡ false))
    × ((Downloaded storage 11 reader shop).1 ≡ shop)
download_guarded_example = download_guarded storage 11 reader shop info downloads

views_agree_example :
    (((is_published stored.status ≡ true)
        × ((d : NanoDetail) × (Detailed 11 none shop ≡ (ok d, shop))
            × (Described 11 none shop ≡ (ok (described_by d), shop))
            × (d.can_download ≡ false)
            × (d.download_path ≡ none)))
      ⊎ ((is_published stored.status ≡ false)
          × (Detailed 11 none shop ≡ (err (http_exception 401 unauthenticated), shop))
          × (Described 11 none shop ≡ (err (http_exception 401 unauthenticated), shop))))
    × (((may_read stored reader ≡ true)
          × ((d : NanoDetail) × (Detailed 11 (some reader) shop ≡ (ok d, shop))
              × (Described 11 (some reader) shop ≡ (ok (described_by d), shop))
              × (d.can_download ≡ true)
              × (d.download_path ≡ stored.file_storage_path)
              × (Downloaded storage 11 reader shop ≡ (
                path_answer storage d.nano_id reader d.visibility (storage_path d.download_path),
                shop,
              ))))
        ⊎ ((may_read stored reader ≡ false)
            × (Detailed 11 (some reader) shop ≡ (err (http_exception 403 forbidden), shop))
            × (Described 11 (some reader) shop ≡ (err (http_exception 403 forbidden), shop))
            × (Downloaded storage 11 reader shop ≡ (err (http_exception 403 forbidden), shop))))
views_agree_example = views_agree storage 11 reader shop stored refl

abbrev complaint : AdminTakedownRequest
complaint = record { reason = hello; note = none }

abbrev answer : AdminTakedownResponse
answer = record {
  nano_id = 11;
  old_status = published;
  new_status = archived;
  already_removed = false;
  taken_down_at = 5000;
}

takes_down : (TakenDown env 11 complaint moderator shop).0 ≡ ok answer
unfolding admin_takedown_nano
takes_down = refl

takedown_hides_views_example :
    let db' = (TakenDown env 11 complaint moderator shop).1 in
    ((Detailed 11 none db').0 ≡ err (http_exception 401 unauthenticated))
    × ((Described 11 none db').0 ≡ err (http_exception 401 unauthenticated))
    × ((Detailed 11 (some reader) db').0 ≡ err (http_exception 403 forbidden))
    × ((Described 11 (some reader) db').0 ≡ err (http_exception 403 forbidden))
    × ((Downloaded storage 11 reader db').0 ≡ err (http_exception 403 forbidden))
takedown_hides_views_example =
    takedown_hides_views storage env 11 complaint moderator reader shop answer stored takes_down
      refl refl
