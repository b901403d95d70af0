-- ===== src/Auth/SignUp.antt =====
-- From the registration to the first login.
use di_wei_wei_nano_market.Prelude.{ℕ, Bool}
use di_wei_wei_nano_market.Models.{Db, User, Text}
use di_wei_wei_nano_market.Session.{Env, Result, request}
use di_wei_wei_nano_market.Auth.Jwt.{Jwt}
use di_wei_wei_nano_market.Auth.Accounts.{UserRegister, register_user, verify_email_with_token}

module _ (lower : Text → Text) (hash_password : ℕ → Text → Text)
    (verify_password : Text → Text → Bool) (jwt : Jwt) where
  abbrev pub Registered : Env → ℕ → UserRegister → Db → Result User × Db
  Registered env salt q db = request (register_user lower hash_password env salt q) db

  abbrev pub Verified : Env → Text → Db → Result User × Db
  Verified env token db = request (verify_email_with_token jwt env token) db
