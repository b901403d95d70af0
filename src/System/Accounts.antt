-- ===== src/System/Accounts.antt =====
-- Requests of accounts leave the Nanos and the ratings alone, and so does a message that passes the
-- rate limit and the filter.
use di_wei_wei_nano_market.Prelude.{ℕ, Bool, refl, arith}
use di_wei_wei_nano_market.Models.{Db, Text}
use di_wei_wei_nano_market.Session.{Env, request}
use di_wei_wei_nano_market.RateLimit.{Limiter, check, Verdict, admitted, rejected, index_error}
use di_wei_wei_nano_market.Chat.ContentFilter.{FilterResult, allowed, blocked, value_error}
use di_wei_wei_nano_market.Chat.Posting.{Post, create_message, limited, filtered, key_of}
use di_wei_wei_nano_market.Auth.Jwt.{Jwt}
use di_wei_wei_nano_market.Auth.Login.{login, authenticate_user, record_failed_login}
use di_wei_wei_nano_market.Auth.Accounts.{
  UserRegister, register_user, verify_email_with_token, change_user_password, change_my_password,
}
use di_wei_wei_nano_market.System.Frames.{Reshaped, same, send_message-Reshaped}

pub register-Reshaped :
    (lower : Text → Text) (hash_password : ℕ → Text → Text) (env : Env) (salt i : ℕ)
    (q : UserRegister) (db : Db)
    → Reshaped i db (request (register_user lower hash_password env salt q) db).1
unfolding register_user
register-Reshaped lower hash_password env salt i q db = same (ground arith) (ground arith)

pub verify-Reshaped :
    (jwt : Jwt) (env : Env) (i : ℕ) (token : Text) (db : Db)
    → Reshaped i db (request (verify_email_with_token jwt env token) db).1
unfolding verify_email_with_token
verify-Reshaped jwt env i token db = same (ground arith) (ground arith)

pub password-Reshaped :
    (hash_password : ℕ → Text → Text) (verify_password : Text → Text → Bool) (salt i : ℕ)
    (current new : Text) (db : Db)
    → Reshaped i db
        (request (change_my_password hash_password verify_password salt i current new) db).1
unfolding change_user_password change_my_password
password-Reshaped hash_password verify_password salt i current new db =
    same (ground arith) (ground arith)

pub login-Reshaped :
    (lower : Text → Text) (verify_password : Text → Text → Bool) (env : Env) (i : ℕ)
    (email password : Text) (db : Db)
    → Reshaped i db (request (login lower verify_password env email password) db).1
unfolding login authenticate_user record_failed_login
login-Reshaped lower verify_password env i email password db = same (ground arith) (ground arith)

filtered-Reshaped :
    (key : ℕ → ℕ → ℕ) (filter : Text → FilterResult) (p : Post) (r : FilterResult) (db : Db)
    → Reshaped p.user.user_id db (filtered key filter p r db).1
filtered-Reshaped key filter p (blocked _) db = same refl refl
filtered-Reshaped key filter p value_error db = same refl refl
filtered-Reshaped key filter p allowed db =
    send_message-Reshaped p.env p.session_id p.content p.user db

limited-Reshaped :
    (key : ℕ → ℕ → ℕ) (filter : Text → FilterResult) (p : Post) (v : Verdict) (db : Db)
    → Reshaped p.user.user_id db (limited key filter p v db).1
limited-Reshaped key filter p admitted db = filtered-Reshaped key filter p (filter p.content) db
limited-Reshaped key filter p (rejected _) db = same refl refl
limited-Reshaped key filter p index_error db = same refl refl

pub message-Reshaped :
    (key : ℕ → ℕ → ℕ) (filter : Text → FilterResult) (p : Post) (l : Limiter) (db : Db)
    → Reshaped p.user.user_id db (create_message key filter p l db).0.1
unfolding create_message
message-Reshaped key filter p l db =
    limited-Reshaped key filter p (check l (key_of key filter p) p.tick).0 db
