-- ===== src/System/Run.antt =====
-- Any sequence of the requests of `Call`, each with its own clock, ids and audit outcome.
use di_wei_wei_nano_market.Prelude.{ℕ, Bool, Option, refl, List, [], ◌∷◌, arith, modify}
use di_wei_wei_nano_market.Models.{
  Db, TokenData, Text, rating_by, ModerationContentType, ModerationCaseStatus,
}
use di_wei_wei_nano_market.Nanos.Metadata.{MetadataUpdateRequest, update_nano_metadata}
use di_wei_wei_nano_market.Moderation.Queue.{get_moderation_queue}
use di_wei_wei_nano_market.Session.{Env, request}
use di_wei_wei_nano_market.Moderation.Content.{ModerationReviewRequest}
use di_wei_wei_nano_market.Moderation.Review.{review_moderation_case}
use di_wei_wei_nano_market.Nanos.RatingCache.{
  create-Resynced, update-Resynced, moderate-Resynced, approved_scores-modify_other,
  approved_scores-new,
}
use di_wei_wei_nano_market.Nanos.Ratings.{
  FeedbackModerationRequest, create_nano_rating, update_nano_rating, moderate_nano_rating,
  new_rating, rescore, rating_of, moderate_rating_row,
}
use di_wei_wei_nano_market.Nanos.Comments.{
  create_nano_comment, update_nano_comment, moderate_nano_comment,
}
use di_wei_wei_nano_market.Nanos.Flags.{NanoFlagCreateRequest, create_nano_flag}
use di_wei_wei_nano_market.Nanos.Status.{
  StatusUpdateRequest, AdminTakedownRequest, update_nano_status, admin_takedown_nano, delete_nano,
}
use di_wei_wei_nano_market.Chat.Sessions.{create_or_get_chat_session}
use di_wei_wei_nano_market.Chat.Messages.{send_message}
use di_wei_wei_nano_market.Auth.Accounts.{
  UserRegister, register_user, verify_email_with_token, change_my_password,
}
use di_wei_wei_nano_market.Auth.Jwt.{Jwt}
use di_wei_wei_nano_market.Auth.Login.{login}
use di_wei_wei_nano_market.RateLimit.{Limiter}
use di_wei_wei_nano_market.Chat.ContentFilter.{FilterResult}
use di_wei_wei_nano_market.Chat.Posting
use di_wei_wei_nano_market.Chat.Posting.{Post}
use di_wei_wei_nano_market.System.Accounts.{
  register-Reshaped, verify-Reshaped, login-Reshaped, password-Reshaped, message-Reshaped,
}
use di_wei_wei_nano_market.Upload.Validation.{UploadFile, Archive}
use di_wei_wei_nano_market.Upload.Storage.{Minio}
use di_wei_wei_nano_market.Upload.Draft.{Delays, upload_nano}
use di_wei_wei_nano_market.Auth.Deletion.{request_account_deletion, cancel_account_deletion}
use di_wei_wei_nano_market.System.Frames.{
  Served, reshaped, resynced, update-Reshaped, takedown-Reshaped, delete-Reshaped,
  create_comment-Reshaped, update_comment-Reshaped, moderate_comment-Reshaped, flag-Reshaped,
  metadata-Reshaped, queue-Reshaped, open_chat-Reshaped, send_message-Reshaped,
  request_deletion-Reshaped, cancel_deletion-Reshaped, upload-Reshaped,
}
use di_wei_wei_nano_market.System.Invariant.{IsConsistent, Served-IsConsistent}
use di_wei_wei_nano_market.System.Review.{review-Served}

-- A request comes with what it finds outside of the database: an upload with the object store and the
-- library that opens archives, a registration with the hash and its salt, a message that is posted
-- with the rate limiter and the filter.
pub data Call : Type 1 where
  upload :
      {B : Type 0}
      → (Text → Text)
      → (List ℕ → Archive)
      → (ℕ → Text)
      → Minio B
      → Delays
      → UploadFile
      → B
      → Call
  register : (Text → Text) → (ℕ → Text → Text) → ℕ → UserRegister → Call
  verify_email : Jwt → Text → Call
  log_in : (Text → Text) → (Text → Text → Bool) → Text → Text → Call
  change_password : (ℕ → Text → Text) → (Text → Text → Bool) → ℕ → Text → Text → Call
  create_message : (ℕ → ℕ → ℕ) → (Text → FilterResult) → ℕ → ℕ → Text → Limiter → Call
  create_rating : ℕ → ℕ → Call
  update_rating : ℕ → ℕ → Call
  moderate_rating : ℕ → ℕ → FeedbackModerationRequest → Call
  create_comment : ℕ → Text → Call
  update_comment : ℕ → ℕ → Text → Call
  moderate_comment : ℕ → ℕ → FeedbackModerationRequest → Call
  create_flag : ℕ → NanoFlagCreateRequest → Call
  update_status : ℕ → StatusUpdateRequest → Call
  takedown : ℕ → AdminTakedownRequest → Call
  delete : ℕ → Call
  review : ℕ → ModerationReviewRequest → Call
  update_metadata : ℕ → MetadataUpdateRequest → Call
  queue : Option ModerationContentType → Option ModerationCaseStatus → ℕ → ℕ → Call
  open_chat : ℕ → Call
  post_message : ℕ → Text → Call
  request_deletion : Option Text → Call
  cancel_deletion : Call

-- One request by one user: what it leaves committed, whether it succeeds or fails.
abbrev pub post_of : Env → TokenData → ℕ → ℕ → Text → Post
post_of env user tick i t = record {
  env = env;
  tick = tick;
  session_id = i;
  content = t;
  user = user;
}

unfoldable pub serve : Env → TokenData → Call → Db → Db
serve env user (upload lower open_zip str minio delays file b) db =
    (upload_nano lower open_zip str minio env delays user.user_id file db b).0.1
serve env user (register lower hash salt q) db =
    (request (register_user lower hash env salt q) db).1
serve env user (verify_email jwt token) db = (request (verify_email_with_token jwt env token) db).1
serve env user (log_in lower verify email password) db =
    (request (login lower verify env email password) db).1
serve env user (change_password hash verify salt current new) db =
    (request (change_my_password hash verify salt user.user_id current new) db).1
serve env user (create_message key filter tick i t l) db =
    (Posting.create_message key filter (post_of env user tick i t) l db).0.1
serve env user (create_rating i score) db = (request (create_nano_rating env i score user) db).1
serve env user (update_rating i score) db = (request (update_nano_rating env i score user) db).1
serve env user (moderate_rating i k q) db = (request (moderate_nano_rating env i k q user) db).1
serve env user (create_comment i t) db = (request (create_nano_comment env i t user) db).1
serve env user (update_comment i k t) db = (request (update_nano_comment env i k t user) db).1
serve env user (moderate_comment i k q) db = (request (moderate_nano_comment env i k q user) db).1
serve env user (create_flag i q) db = (request (create_nano_flag env i q user) db).1
serve env user (update_status i q) db = (request (update_nano_status env i q user) db).1
serve env user (takedown i q) db = (request (admin_takedown_nano env i q user) db).1
serve env user (delete i) db = (request (delete_nano env i user.user_id) db).1
serve env user (review k q) db = (request (review_moderation_case env k q user) db).1
serve env user (update_metadata i q) db = (request (update_nano_metadata env i q user.user_id) db).1
serve env user (queue t s page limit) db = (request (get_moderation_queue env t s page limit) db).1
serve env user (open_chat i) db = (request (create_or_get_chat_session env i user) db).1
serve env user (post_message i t) db = (request (send_message env i t user) db).1
serve env user (request_deletion reason) db =
    (request (request_account_deletion env user.user_id reason) db).1
serve env user cancel_deletion db = (request (cancel_account_deletion env user.user_id) db).1

unfoldable pub run : List (Env × TokenData × Call) → Db → Db
run [] db = db
run ((env, user, call) ∷ calls) db = run calls (serve env user call db)

pub serve-Served :
    (env : Env) (user : TokenData) (call : Call) (db : Db)
    → Served user.user_id db (serve env user call db)
unfolding serve
serve-Served env user (upload lower open_zip str minio delays file b) db =
    reshaped (upload-Reshaped lower open_zip str minio env delays user.user_id file db b)
serve-Served env user (register lower hash salt q) db =
    reshaped (register-Reshaped lower hash env salt user.user_id q db)
serve-Served env user (verify_email jwt token) db =
    reshaped (verify-Reshaped jwt env user.user_id token db)
serve-Served env user (log_in lower verify email password) db =
    reshaped (login-Reshaped lower verify env user.user_id email password db)
serve-Served env user (change_password hash verify salt current new) db =
    reshaped (password-Reshaped hash verify salt user.user_id current new db)
serve-Served env user (create_message key filter tick i t l) db =
    reshaped (message-Reshaped key filter (post_of env user tick i t) l db)
serve-Served env user (create_rating i score) db =
    resynced i (new_rating env i user.user_id score ∷ db.ratings)
      (λ j _. approved_scores-new env i user.user_id score j db.ratings)
      (create-Resynced env i score user db)
serve-Served env user (update_rating i score) db =
    resynced i (modify (rating_by i user.user_id) (rescore score) db.ratings)
      (λ j ne.
        approved_scores-modify_other i j (rating_by i user.user_id) (rescore score) db.ratings
          (λ r e. ground arith) (λ r. refl) ne)
      (update-Resynced env i score user db)
serve-Served env user (moderate_rating i k q) db =
    resynced i (modify (rating_of k i) (moderate_rating_row env q user) db.ratings)
      (λ j ne.
        approved_scores-modify_other i j (rating_of k i) (moderate_rating_row env q user) db.ratings
          (λ r e. ground arith) (λ r. refl) ne)
      (moderate-Resynced env i k q user db)
serve-Served env user (create_comment i t) db = reshaped (create_comment-Reshaped env i t user db)
serve-Served env user (update_comment i k t) db =
    reshaped (update_comment-Reshaped env i k t user db)
serve-Served env user (moderate_comment i k q) db =
    reshaped (moderate_comment-Reshaped env i k q user db)
serve-Served env user (create_flag i q) db = reshaped (flag-Reshaped env i q user db)
serve-Served env user (update_status i q) db = reshaped (update-Reshaped env i q user db)
serve-Served env user (takedown i q) db = reshaped (takedown-Reshaped env i q user db)
serve-Served env user (delete i) db = reshaped (delete-Reshaped env i user.user_id db)
serve-Served env user (review k q) db = review-Served env k q user db
serve-Served env user (update_metadata i q) db =
    reshaped (metadata-Reshaped env i q user.user_id db)
serve-Served env user (queue t s page limit) db =
    reshaped (queue-Reshaped env t s page limit user.user_id db)
serve-Served env user (open_chat i) db = reshaped (open_chat-Reshaped env i user db)
serve-Served env user (post_message i t) db = reshaped (send_message-Reshaped env i t user db)
serve-Served env user (request_deletion reason) db =
    reshaped (request_deletion-Reshaped env user.user_id reason db)
serve-Served env user cancel_deletion db = reshaped (cancel_deletion-Reshaped env user.user_id db)

-- After any sequence of requests by any users, successful or failed, the cached rating count and
-- average of every Nano are those of its approved ratings, every published Nano has a time of
-- publication, and every rating is of a Nano that there is, if this held at the start. The requests
-- are those of `Call`: uploads, ratings, comments, flags, metadata, status updates, takedowns and
-- deletions of Nanos, the moderation review and queue, chats and their messages, registration, login,
-- verification of an address, change of a password, and the request and cancellation of a deletion.
pub run-IsConsistent :
    (calls : List (Env × TokenData × Call)) (db : Db)
    → IsConsistent db
    → IsConsistent (run calls db)
unfolding run
run-IsConsistent [] db h = h
run-IsConsistent ((env, user, call) ∷ calls) db h =
    run-IsConsistent calls (serve env user call db)
      (Served-IsConsistent (serve-Served env user call db) h)
