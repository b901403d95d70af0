-- ===== src/Tests/Career.antt =====
-- An edit of a draft, and the life of that draft until it is deleted.
use di_wei_wei_nano_market.Prelude.{ℕ, ◌≡◌, ◌≢◌, refl, none, some, List, [], ◌∷◌, find}
use di_wei_wei_nano_market.Models.{Db, Nano, TokenData, draft, nano_at}
use di_wei_wei_nano_market.Session.{Env, ok}
use di_wei_wei_nano_market.Nanos.Metadata.{
  MetadataUpdateRequest, UpdatedField, description, categories, edit, update_nano_metadata,
  unique_ids,
}
use di_wei_wei_nano_market.Nanos.Categories.{Edited, Categorised, metadata_stored}
use di_wei_wei_nano_market.System.Run.{Call, update_metadata, create_rating, delete, run}
use di_wei_wei_nano_market.System.Life.{Life, run_refines}
use di_wei_wei_nano_market.Tests.Data.{env, author, reader, market, nano_with}

-- It drops the description, and names category 61 twice.
abbrev request : MetadataUpdateRequest
request = record {
  title = none;
  description = some none;
  duration_minutes = none;
  competency_level = none;
  language = none;
  format = none;
  category_ids = some (some (61 ∷ 60 ∷ 61 ∷ []));
  license = none;
}

abbrev shelves : Db
shelves = record market { categories = 60 ∷ 61 ∷ [] }

abbrev reply : Nano → Nano × List UpdatedField
reply n = (edit request n, description ∷ categories ∷ [])

request_accepted : (Edited env 10 request 1 shelves).0 ≡ ok (reply (nano_with 10 draft))
unfolding update_nano_metadata unique_ids
request_accepted = refl

metadata_stored_example :
    let db' = (Edited env 10 request 1 shelves).1 in
    (n : Nano) × (find (nano_at 10) shelves.nanos ≡ some n)
    × (n.creator_id ≡ 1)
    × (n.status ≡ draft)
    × (reply (nano_with 10 draft) ≡ reply n)
    × (find (nano_at 10) db'.nanos ≡ some (edit request n))
    × ((j : ℕ) → j ≢ 10 → find (nano_at j) db'.nanos ≡ find (nano_at j) shelves.nanos)
    × Categorised 10 shelves db' (some (some (61 ∷ 60 ∷ 61 ∷ [])))
metadata_stored_example = metadata_stored env 10 request 1 shelves _ request_accepted

abbrev career : List (Env × TokenData × Call)
career =
    (env, author, update_metadata 10 request)
    ∷ (env, reader, create_rating 10 5)
    ∷ (env, author, delete 10)
    ∷ []

run_refines_example :
    (m : Nano) × (find (nano_at 10) (run career shelves).nanos ≡ some m)
    × Life career (nano_with 10 draft) m
run_refines_example = run_refines career shelves 10 (nano_with 10 draft) refl
