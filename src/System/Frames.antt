-- ===== src/System/Frames.antt =====
-- What each request does to the Nanos and the ratings.
use di_wei_wei_nano_market.Prelude.{
  ℕ, List, ◌∷◌, ◌≡◌, ◌≢◌, refl, true, false, any, Option, ap, some, none, inl, inr, arith, find,
  modify, Option-cases, Bool-cases,
}
use di_wei_wei_nano_market.Models.{
  Db, TokenData, Nano, NanoStatus, draft, ModerationContentType, ModerationCaseStatus, nano_at,
  NanoRating, Text, same_status,
}
use di_wei_wei_nano_market.Session.{Env, Result, ok, err, request, Result-cases}
use di_wei_wei_nano_market.Nanos.Ratings.{FeedbackModerationRequest}
use di_wei_wei_nano_market.Nanos.Comments.{
  create_nano_comment, update_nano_comment, moderate_nano_comment,
}
use di_wei_wei_nano_market.Nanos.Flags.{NanoFlagCreateRequest, create_nano_flag}
use di_wei_wei_nano_market.Nanos.Status.{
  StatusUpdateRequest, AdminTakedownRequest, move_to, take_down, mark_deleted, admin_takedown_nano,
  delete_nano,
}
use di_wei_wei_nano_market.Nanos.Aggregation.{approved_scores}
use di_wei_wei_nano_market.Nanos.RatingCache.{Resynced}
use di_wei_wei_nano_market.Nanos.Workflow.{Updated, Written, written}
use di_wei_wei_nano_market.Nanos.Transitions.{update_missing}
use di_wei_wei_nano_market.Nanos.Metadata.{MetadataUpdateRequest, edit}
use di_wei_wei_nano_market.Nanos.Categories.{
  Edited, metadata_stored, edited_nanos, metadata_refused,
}
use di_wei_wei_nano_market.Moderation.Queue.{get_moderation_queue}
use di_wei_wei_nano_market.Moderation.Unmoved.{queue_kept}
use di_wei_wei_nano_market.Chat.Sessions.{create_or_get_chat_session, session_query}
use di_wei_wei_nano_market.Chat.Messages.{send_message}
use di_wei_wei_nano_market.Upload.Validation.{UploadFile, Archive, validate_upload}
use di_wei_wei_nano_market.Upload.Storage.{Minio, Stored, stored, storage_error, not_tried}
use di_wei_wei_nano_market.Upload.Draft.{
  Delays, draft_nano, draft_title, path_fits, after_storage, upload_nano, store_content,
}
use di_wei_wei_nano_market.Auth.Deletion.{request_account_deletion, cancel_account_deletion}
use di_wei_wei_nano_market.System.Changes.{
  IsStatusChange, IsLifeChange, move_to-IsStatusChange, take_down-IsStatusChange,
  mark_deleted-IsStatusChange, move_to-IsLifeChange, take_down-IsLifeChange,
  mark_deleted-IsLifeChange,
}

-- A request of a user that leaves the ratings, and changes the status of one Nano at most, edits one
-- draft of that user, or adds a draft without ratings.
pub data Reshaped (user : ℕ) (db db' : Db) : Type 0 where
  same : db'.nanos ≡ db.nanos → db'.ratings ≡ db.ratings → Reshaped user db db'
  changed :
      (i : ℕ) (f : Nano → Nano)
      → IsStatusChange f
      → IsLifeChange f
      → db'.nanos ≡ modify (nano_at i) f db.nanos
      → db'.ratings ≡ db.ratings
      → Reshaped user db db'
  edited :
      (i : ℕ) (q : MetadataUpdateRequest) (n : Nano)
      → find (nano_at i) db.nanos ≡ some n
      → n.status ≡ draft
      → n.creator_id ≡ user
      → db'.nanos ≡ modify (nano_at i) (edit q) db.nanos
      → db'.ratings ≡ db.ratings
      → Reshaped user db db'
  added :
      (n : Nano)
      → any (nano_at n.id) db.nanos ≡ false
      → n.status ≡ draft
      → n.rating_count ≡ 0
      → n.average_rating ≡ 0
      → db'.nanos ≡ n ∷ db.nanos
      → db'.ratings ≡ db.ratings
      → Reshaped user db db'

-- What any request that writes does: it leaves the ratings, or it writes ratings of one Nano and
-- brings that Nano's cache in line with them.
pub data Served (user : ℕ) (db db' : Db) : Type 0 where
  reshaped : Reshaped user db db' → Served user db db'
  resynced :
      (i : ℕ) (rs : List NanoRating)
      → ((j : ℕ) → j ≢ i → approved_scores j rs ≡ approved_scores j db.ratings)
      → Resynced i rs db db'
      → Served user db db'

Written-Reshaped :
    (env : Env) (i : ℕ) (q : StatusUpdateRequest) (user : TokenData) (db db' : Db) (n : Nano)
    (found : find (nano_at i) db.nanos ≡ some n) (r : Result (Nano × NanoStatus × NanoStatus))
    → Written env i q user db n found q.status r db'
    → Reshaped user.user_id db db'
unfolding Written
Written-Reshaped env i q user db db' n found (ok r) (_, nanos, ratings) =
    elim (Bool-cases (same_status n.status q.status)) [
      | inl no_op ↦ same (ground arith) ratings
      | inr moved ↦
          changed i (move_to env q.status) (move_to-IsStatusChange env q.status)
            (move_to-IsLifeChange env q.status) (ground arith) ratings
    ]
Written-Reshaped env i q user db db' n found (err e) (inl kept) = same (ground arith) (ground arith)
Written-Reshaped env i q user db db' n found (err e) (inr (_, nanos, ratings)) =
    changed i (move_to env q.status) (move_to-IsStatusChange env q.status)
      (move_to-IsLifeChange env q.status) nanos ratings

pub update-Reshaped :
    (env : Env) (i : ℕ) (q : StatusUpdateRequest) (user : TokenData) (db : Db)
    → Reshaped user.user_id db (Updated env i q user db).1
update-Reshaped env i q user db = elim (Option-cases (find (nano_at i) db.nanos)) [
  | inl missing ↦
      let kept = (update_missing env i q user db missing).0 in same (ground arith) (ground arith)
  | inr (n, found) ↦ Written-Reshaped env i q user db _ n found _ (written env i q user db n found)
]

pub takedown-Reshaped :
    (env : Env) (i : ℕ) (q : AdminTakedownRequest) (user : TokenData) (db : Db)
    → Reshaped user.user_id db (request (admin_takedown_nano env i q user) db).1
unfolding admin_takedown_nano
takedown-Reshaped env i q user db =
    elim (Result-cases (request (admin_takedown_nano env i q user) db).0) [
      | inl (r, accepted) ↦
          changed i (take_down env) (take_down-IsStatusChange env) (take_down-IsLifeChange env)
            (ground arith) (ground arith)
      | inr (e, refused) ↦ same (ground arith) (ground arith)
    ]

pub delete-Reshaped :
    (env : Env) (i creator : ℕ) (db : Db)
    → Reshaped creator db (request (delete_nano env i creator) db).1
unfolding delete_nano
delete-Reshaped env i creator db =
    elim (Result-cases (request (delete_nano (record env { audit_ok = true }) i creator) db).0) [
      | inl (r, accepted) ↦
          changed i mark_deleted mark_deleted-IsStatusChange mark_deleted-IsLifeChange
            (ground arith) (ground arith)
      | inr (e, refused) ↦ same (ground arith) (ground arith)
    ]

pub create_comment-Reshaped :
    (env : Env) (i : ℕ) (t : Text) (user : TokenData) (db : Db)
    → Reshaped user.user_id db (request (create_nano_comment env i t user) db).1
unfolding create_nano_comment
create_comment-Reshaped env i t user db = same (ground arith) (ground arith)

pub update_comment-Reshaped :
    (env : Env) (i k : ℕ) (t : Text) (user : TokenData) (db : Db)
    → Reshaped user.user_id db (request (update_nano_comment env i k t user) db).1
unfolding update_nano_comment
update_comment-Reshaped env i k t user db = same (ground arith) (ground arith)

pub moderate_comment-Reshaped :
    (env : Env) (i k : ℕ) (q : FeedbackModerationRequest) (user : TokenData) (db : Db)
    → Reshaped user.user_id db (request (moderate_nano_comment env i k q user) db).1
unfolding moderate_nano_comment
moderate_comment-Reshaped env i k q user db = same (ground arith) (ground arith)

pub flag-Reshaped :
    (env : Env) (i : ℕ) (q : NanoFlagCreateRequest) (user : TokenData) (db : Db)
    → Reshaped user.user_id db (request (create_nano_flag env i q user) db).1
unfolding create_nano_flag
flag-Reshaped env i q user db = same (ground arith) (ground arith)

pub metadata-Reshaped :
    (env : Env) (i : ℕ) (q : MetadataUpdateRequest) (user : ℕ) (db : Db)
    → Reshaped user db (Edited env i q user db).1
metadata-Reshaped env i q user db = elim (Result-cases (Edited env i q user db).0) [
  | inl (r, accepted) ↦
      let (n, found, own, is_draft, x₁, x₂, x₃, x₄) = metadata_stored env i q user db r accepted in
      let (nanos, ratings) = edited_nanos env i q user db r q.category_ids refl accepted in
      edited i q n found is_draft own nanos ratings
  | inr (e, refused) ↦
      let kept = metadata_refused env i q user db e refused in
      same (ap (λ d. d.nanos) kept) (ap (λ d. d.ratings) kept)
]

pub queue-Reshaped :
    (env : Env) (t : Option ModerationContentType) (s : Option ModerationCaseStatus)
    (page limit user : ℕ) (db : Db)
    → Reshaped user db (request (get_moderation_queue env t s page limit) db).1
queue-Reshaped env t s page limit user db =
    let (cases, kept) = queue_kept env t s page limit db in
    same (ap (λ d. d.nanos) kept) (ap (λ d. d.ratings) kept)

pub open_chat-Reshaped :
    (env : Env) (i : ℕ) (user : TokenData) (db : Db)
    → Reshaped user.user_id db (request (create_or_get_chat_session env i user) db).1
unfolding create_or_get_chat_session session_query
open_chat-Reshaped env i user db = same (ground arith) (ground arith)

pub send_message-Reshaped :
    (env : Env) (i : ℕ) (t : Text) (user : TokenData) (db : Db)
    → Reshaped user.user_id db (request (send_message env i t user) db).1
unfolding send_message
send_message-Reshaped env i t user db = same (ground arith) (ground arith)

pub request_deletion-Reshaped :
    (env : Env) (i : ℕ) (reason : Option Text) (db : Db)
    → Reshaped i db (request (request_account_deletion env i reason) db).1
unfolding request_account_deletion
request_deletion-Reshaped env i reason db = same (ground arith) (ground arith)

pub cancel_deletion-Reshaped :
    (env : Env) (i : ℕ) (db : Db) → Reshaped i db (request (cancel_account_deletion env i) db).1
unfolding cancel_account_deletion
cancel_deletion-Reshaped env i db = same (ground arith) (ground arith)

row-Reshaped :
    (env : Env) (i : ℕ) (title : Text) (r : Stored) (db : Db)
    → Reshaped i db (request (after_storage env i title r) db).1
unfolding after_storage
row-Reshaped env i title (storage_error retryable) db = same (ground arith) (ground arith)
row-Reshaped env i title not_tried db =
    let n = draft_nano env i title none in
    elim (Bool-cases (any (nano_at n.id) db.nanos)) [
      | inl taken ↦ same (ground arith) (ground arith)
      | inr new ↦ added n new refl refl refl (ground arith) (ground arith)
    ]
row-Reshaped env i title (stored key) db =
    let n = draft_nano env i title (some key) in
    elim (Bool-cases (any (nano_at n.id) db.nanos)) [
      | inl taken ↦ same (ground arith) (ground arith)
      | inr new ↦ elim (Bool-cases (path_fits (some key))) [
        | inl short ↦ added n new refl refl refl (ground arith) (ground arith)
        | inr long ↦ same (ground arith) (ground arith)
      ]
    ]

module _ (lower : Text → Text) (open_zip : List ℕ → Archive) (str : ℕ → Text) {B : Type 0}
    (minio : Minio B) where
  pub upload-Reshaped :
      (env : Env) (delays : Delays) (i : ℕ) (file : UploadFile) (db : Db) (b : B)
      → Reshaped i db (upload_nano lower open_zip str minio env delays i file db b).0.1
  unfolding upload_nano
  upload-Reshaped env delays i file db b =
      elim (Option-cases (validate_upload lower open_zip file)) [
        | inl fine ↦ rw fine (
            row-Reshaped env i (draft_title none file)
              (store_content lower open_zip str minio env delays file b).0 db)
        | inr (e, wrong) ↦ rw wrong (same refl refl)
      ]
