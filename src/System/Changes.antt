-- ===== src/System/Changes.antt =====
-- The changes of a Nano that the requests make.
use di_wei_wei_nano_market.Prelude.{◌≡◌, ◌≢◌, refl, none, arith}
use di_wei_wei_nano_market.Models.{Nano, NanoStatus, draft, published}
use di_wei_wei_nano_market.Session.{Env}
use di_wei_wei_nano_market.Nanos.Status.{move_to, take_down, mark_deleted}
use di_wei_wei_nano_market.Nanos.Metadata.{MetadataUpdateRequest, edit}
use di_wei_wei_nano_market.Moderation.Content.{publish, unpublish}

-- A change of a Nano that leaves its key and its rating cache, and keeps a published Nano dated.
pub record IsStatusChange (f : Nano → Nano) : Type 0 where
  pub same_id : (n : Nano) → (f n).id ≡ n.id
  pub same_count : (n : Nano) → (f n).rating_count ≡ n.rating_count
  pub same_average : (n : Nano) → (f n).average_rating ≡ n.average_rating
  pub dated :
      (n : Nano)
      → (n.status ≡ published → n.published_at ≢ none)
      → (f n).status ≡ published
      → (f n).published_at ≢ none

-- What of a Nano only an edit of its metadata writes: all but the status, the dates and the ratings.
unfoldable pub content_of : Nano → Nano
content_of n = record n {
  status = draft;
  published_at = none;
  archived_at = none;
  average_rating = 0;
  rating_count = 0;
}

-- A change of a Nano that leaves its content, and each date that is set.
pub record IsLifeChange (f : Nano → Nano) : Type 0 where
  pub same_content : (n : Nano) → content_of (f n) ≡ content_of n
  pub keeps_published : (n : Nano) → n.published_at ≢ none → (f n).published_at ≡ n.published_at
  pub keeps_archived : (n : Nano) → n.archived_at ≢ none → (f n).archived_at ≡ n.archived_at

pub move_to-IsStatusChange : (env : Env) (t : NanoStatus) → IsStatusChange (move_to env t)
move_to-IsStatusChange env t = record {
  same_id = λ n. refl;
  same_count = λ n. refl;
  same_average = λ n. refl;
  dated = λ n h p e. ground (arith, λ (x : n.status ≡ published). h x);
}

pub take_down-IsStatusChange : (env : Env) → IsStatusChange (take_down env)
take_down-IsStatusChange env = record {
  same_id = λ n. refl;
  same_count = λ n. refl;
  same_average = λ n. refl;
  dated = λ n h p e. ground (arith, λ (x : n.status ≡ published). h x);
}

pub mark_deleted-IsStatusChange : IsStatusChange mark_deleted
mark_deleted-IsStatusChange = record {
  same_id = λ n. refl;
  same_count = λ n. refl;
  same_average = λ n. refl;
  dated = λ n h p e. cc;
}

pub move_to-IsLifeChange : (env : Env) (t : NanoStatus) → IsLifeChange (move_to env t)
unfolding content_of
move_to-IsLifeChange env t = record {
  same_content = λ n. refl;
  keeps_published = λ n h. ground arith;
  keeps_archived = λ n h. ground arith;
}

pub take_down-IsLifeChange : (env : Env) → IsLifeChange (take_down env)
unfolding content_of
take_down-IsLifeChange env = record {
  same_content = λ n. refl;
  keeps_published = λ n h. ground arith;
  keeps_archived = λ n h. ground arith;
}

pub mark_deleted-IsLifeChange : IsLifeChange mark_deleted
unfolding content_of
mark_deleted-IsLifeChange = record {
  same_content = λ n. refl;
  keeps_published = λ n h. ground arith;
  keeps_archived = λ n h. ground arith;
}

pub edit-IsStatusChange : (q : MetadataUpdateRequest) → IsStatusChange (edit q)
edit-IsStatusChange q = record {
  same_id = λ n. refl;
  same_count = λ n. refl;
  same_average = λ n. refl;
  dated = λ n h p. h p;
}

pub publish-IsStatusChange : (env : Env) → IsStatusChange (publish env)
publish-IsStatusChange env = record {
  same_id = λ n. refl;
  same_count = λ n. refl;
  same_average = λ n. refl;
  dated = λ n h p e. ground arith;
}

pub unpublish-IsStatusChange : IsStatusChange unpublish
unpublish-IsStatusChange = record {
  same_id = λ n. refl;
  same_count = λ n. refl;
  same_average = λ n. refl;
  dated = λ n h p e. cc;
}

pub publish-IsLifeChange : (env : Env) → IsLifeChange (publish env)
unfolding content_of
publish-IsLifeChange env = record {
  same_content = λ n. refl;
  keeps_published = λ n h. ground arith;
  keeps_archived = λ n h. ground arith;
}

pub unpublish-IsLifeChange : IsLifeChange unpublish
unfolding content_of
unpublish-IsLifeChange = record {
  same_content = λ n. refl;
  keeps_published = λ n h. ground arith;
  keeps_archived = λ n h. ground arith;
}
