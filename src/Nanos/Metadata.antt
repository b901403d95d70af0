-- ===== src/Nanos/Metadata.antt =====
-- `update_nano_metadata`: partial updates of a draft, and its ranked categories. A field of the request
-- is `none` where it is not in `model_fields_set`, and `some none` where it is an explicit null.
use di_wei_wei_nano_market.Prelude.{
  ℕ, suc, Bool, true, false, not, Option, none, some, List, [], ◌∷◌, ◌++◌, ◌==◌, if◌then◌else◌,
  select, modify, any, is_in,
}
use di_wei_wei_nano_market.Models.{
  Nano, NanoFormat, CompetencyLevel, LicenseType, NanoCategoryAssignment, Text, nano_at, is_draft,
}
use di_wei_wei_nano_market.Session.{
  Env, Action, http_exception, forbidden, not_draft, null_field, unknown_category, ◌>>=◌, ◌>>◌,
  pure, raise, gets, modify_db, raise_if, commit, invalidate_search_cache,
}
use di_wei_wei_nano_market.Nanos.Access.{get_nano_or_404}

pub record MetadataUpdateRequest : Type 0 where
  pub title : Option (Option Text)
  pub description : Option (Option Text)
  pub duration_minutes : Option (Option ℕ)
  pub competency_level : Option (Option CompetencyLevel)
  pub language : Option (Option Text)
  pub format : Option (Option NanoFormat)
  pub category_ids : Option (Option (List ℕ))
  pub license : Option (Option LicenseType)

pub data UpdatedField : Type 0 where
  title description duration_minutes language competency_level format license categories :
      UpdatedField

-- `"…" in fields_set`, with the name that is appended to `updated_fields`
abbrev pub updated {ℓ} : {A : Type ℓ} → Option A → UpdatedField → List UpdatedField
updated none name = []
updated (some _) name = name ∷ []

-- An explicit null for a field that must have a value.
abbrev pub is_null : {A : Type 0} → Option (Option A) → Bool
is_null (some none) = true
is_null _ = false

-- The field after the update.
abbrev pub replace : {A : Type 0} → Option (Option A) → A → A
replace (some (some a)) old = a
replace _ old = old

abbrev pub replace_nullable : {A : Type 0} → Option (Option A) → Option A → Option A
replace_nullable none old = old
replace_nullable (some new) old = new

abbrev pub edit : MetadataUpdateRequest → Nano → Nano
edit q n = record n {
  title = replace q.title n.title;
  description = replace_nullable q.description n.description;
  duration_minutes = replace_nullable q.duration_minutes n.duration_minutes;
  language = replace q.language n.language;
  competency_level = replace q.competency_level n.competency_level;
  format = replace q.format n.format;
  license = replace q.license n.license;
}

-- The loop over `metadata.category_ids` with its set `seen`.
unfoldable pub unique_ids : List ℕ → List ℕ → List ℕ
unique_ids seen [] = []
unique_ids seen (i ∷ is) =
    let skip = unique_ids seen is in
    let add = unique_ids (i ∷ seen) is in if is_in i seen then skip else i ∷ add

-- The assignments to the categories, ranked by their place from `rank` on.
abbrev pub ranked : ℕ → ℕ → List ℕ → List NanoCategoryAssignment
ranked nano rank [] = []
ranked nano rank (i ∷ is) =
    record { nano_id = nano; category_id = i; rank = rank } ∷ ranked nano (suc rank) is

abbrev pub is_assigned : ℕ → NanoCategoryAssignment → Bool
is_assigned nano a = a.nano_id == nano

abbrev pub assign_categories :
    ℕ → List ℕ → List NanoCategoryAssignment → List NanoCategoryAssignment
assign_categories nano ids rows = ranked nano 0 ids ++ select (λ a. not (is_assigned nano a)) rows

abbrev pub write_categories : ℕ → List ℕ → Action (Unit {0})
write_categories nano ids = do
  raise_if (← gets (λ db. any (λ i. not (is_in i db.categories)) ids))
      (http_exception 400 unknown_category)
  modify_db (λ db. record db { assignments = assign_categories nano ids db.assignments })

update_categories : ℕ → Option (Option (List ℕ)) → Action (Unit {0})
update_categories nano none = pure tt
update_categories nano (some none) = raise (http_exception 400 null_field)
update_categories nano (some (some ids)) = write_categories nano (unique_ids [] ids)

abbrev pub updated_fields : MetadataUpdateRequest → List UpdatedField
updated_fields q =
    updated q.title UpdatedField.title
    ++ (updated q.description UpdatedField.description
        ++ (updated q.duration_minutes UpdatedField.duration_minutes
            ++ (updated q.language UpdatedField.language
                ++ (updated q.competency_level UpdatedField.competency_level
                    ++ (updated q.format UpdatedField.format
                        ++ (updated q.license UpdatedField.license
                            ++ updated q.category_ids UpdatedField.categories))))))

unfoldable pub update_nano_metadata :
    Env → ℕ → MetadataUpdateRequest → ℕ → Action (Nano × List UpdatedField)
unfolding get_nano_or_404 update_categories
update_nano_metadata env nano_id q user_id = do
  nano ← get_nano_or_404 nano_id
  raise_if (not (nano.creator_id == user_id)) (http_exception 403 forbidden)
  raise_if (not (is_draft nano.status)) (http_exception 400 not_draft)
  raise_if (is_null q.title) (http_exception 400 null_field)
  raise_if (is_null q.language) (http_exception 400 null_field)
  raise_if (is_null q.competency_level) (http_exception 400 null_field)
  raise_if (is_null q.format) (http_exception 400 null_field)
  raise_if (is_null q.license) (http_exception 400 null_field)
  modify_db (λ db. record db { nanos = modify (nano_at nano_id) (edit q) db.nanos })
  update_categories nano_id q.category_ids
  commit
  invalidate_search_cache
  pure (edit q nano, updated_fields q)
