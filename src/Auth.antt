-- ===== src/Auth.antt =====
-- Accounts (app/modules/auth) and the token store (app/redis_client.py). The case mapping `str.lower`,
-- the check of a password against its hash (bcrypt, by way of password.py), PyJWT and Redis are
-- parameters.
pub mod Validators
pub mod Strength
pub mod TokenStore
pub mod Jwt
pub mod Login
pub mod Guesses
pub mod Deletion
pub mod Grace
pub mod Accounts
pub mod SignUp
pub mod Refresh
pub mod Rotation
pub mod Unlisted
pub mod Renewal
pub mod Outage
pub mod Logout
