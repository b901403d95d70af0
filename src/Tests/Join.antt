-- ===== src/Tests/Join.antt =====
-- Somebody who registers, and the rating of a password.
use di_wei_wei_nano_market.Prelude.{ℕ, true, none}
use di_wei_wei_nano_market.Prelude.Text.{codes}
use di_wei_wei_nano_market.Models.{User, Text}
use di_wei_wei_nano_market.Session.{Env}
use di_wei_wei_nano_market.Auth.Accounts.{UserRegister, new_user}
use di_wei_wei_nano_market.Tests.Data.{env, hello}

abbrev salted : ℕ → Text → Text
salted salt password = password

abbrev form : UserRegister
form = record {
  email = codes "jo@d.de";
  username = codes "jo_d";
  first_name = none;
  last_name = none;
  bio = none;
  preferred_language = hello;
  password = codes "Wei!Wei7";
  accept_terms = true;
  accept_privacy = true;
}

abbrev joined : User
joined = new_user env form.email form.password form

abbrev at : ℕ → Env
at now = record env { now = now }
