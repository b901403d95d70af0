-- ===== src/Lib.antt =====
-- Verification of the backend of the Nano market (app/): its publishing workflow, feedback,
-- moderation, uploads, chat, accounts and rate limiting.
--
-- The program. Creators publish short learning units, the Nanos. Two services carry the core:
-- app/modules/nanos/service.py (status changes, takedown, deletion, star ratings, comments, flags)
-- and app/modules/moderation/service.py (cases and decisions). They share the tables of
-- app/models/__init__.py: the nano service opens a moderation case for whatever needs a review
-- (`upsert_moderation_case`), and a decision of the moderation service writes back into the Nano,
-- rating, comment or flag under review. Both keep the cached average and count of the ratings on the
-- Nano. A Nano starts with an upload to the object store (app/modules/upload). Beside them stand the
-- direct chat of a creator with a reader (app/modules/chat), behind a rate limit and a content filter;
-- the accounts with registration, login, tokens and logout (app/modules/auth), which keep the refresh
-- tokens in Redis or, while it is away, in the process (app/redis_client.py); and the rate limiter that
-- the routers put in front of both (app/security/rate_limit.py).
--
-- The files.
--   Prelude: Boolean tests on the native numbers, lists, tables as lists of rows (find, modify,
--     select), and methods of Python's `str`.
--   Models: the enums, the tables as records, and the database as a record of lists (app/models).
--   Session: `AsyncSession` (app/database.py) as what is committed and what is pending; handlers as
--     actions on it with errors as values; `AuditLogger.log_action` (app/modules/audit/service.py).
--   Publishing: `_validate_metadata_completeness` and `_validate_nano_publishable`.
--   Moderation: Cases has `upsert_moderation_case`, Content the `_apply_*_decision` functions, Review
--     `review_moderation_case`, Backfill `_backfill_missing_pending_cases`, Queue
--     `get_moderation_queue`; Upsert, Decisions, Outcomes, Coverage, Filled, Complete and Unmoved
--     hold theorems.
--   Nanos: Access, Aggregation, Ratings, Sanitize, Comments, Flags, Status, Metadata, Download and
--     Views have the handlers of app/modules/nanos/service.py under their own names; Metrics, Median,
--     RatingCache, Workflow, Transitions, Permitted, Removal, Feedback, Ranks, Categories and Reading hold
--     theorems.
--   Listing: the pages of a listing and its `PaginationMeta`, as every service computes them.
--   Upload: Validation, Storage and Draft have the functions of app/modules/upload, with the endpoint;
--     Chunks, Retries, Held, Accepted and Private hold theorems.
--   Chat: Sessions and Messages have the functions of app/modules/chat/service.py, ContentFilter those of
--     content_filter.py, Posting the endpoint `create_message`; Privacy, Delivery, Blocked and Flood hold
--     theorems.
--   RateLimit: `SlidingWindowRateLimiter` of app/security/rate_limit.py; Window and Retry hold theorems.
--   Auth: Login has `authenticate_user`, `record_failed_login` and the `login` endpoint of
--     app/modules/auth, Deletion `request_account_deletion` and `cancel_account_deletion`, Accounts
--     registration, verification and change of password, Validators the functions of validators.py, Jwt
--     those of tokens.py, TokenStore those of app/redis_client.py, Refresh the tokens of a login, their
--     refresh and the logout; Guesses, Grace, SignUp, Strength, Rotation, Unlisted, Renewal, Outage and Logout hold
--     theorems.
--   System: Run serves any sequence of requests; Accounts, Changes, Frames, Invariant, Review and Life show what
--     each of them leaves alone or keeps, and what becomes of a Nano over all of them.
--   Tests: a small market, runs on it, and each theorem at a concrete input.
--
-- The model. UUIDs are numbers, texts lists of code points, instants and the 24-hour window
-- microseconds, ratings hundredths (Numeric(3, 2)). A query is a function on the rows of a table; the
-- average is exact before it is rounded, while the database's AVG is decimal. `Env` holds what a
-- request draws from outside: one reading of the clock, the ids of the rows that it adds (the code
-- draws them from uuid4, and a collision is an integrity error), the ids of rows that it adds in bulk
-- by their place, and whether the database takes the audit entry. The primary keys, unique and check
-- constraints of the tables are tested at the inserts and updates that flush. `request` starts a
-- handler with an empty transaction and drops what is pending at its end. List recursions are
-- structural; the loop over the chunks of an upload has fuel for one chunk more than the file has bytes,
-- which is enough, as its theorem shows.
--
-- Code from outside is a parameter: Redis and PyJWT with laws that they document (`IsRedis`, `IsJwt`),
-- MinIO, `zipfile`, bcrypt, the parsing of addresses, which may raise, and the methods of `str`
-- that need Unicode tables, without laws. The client's method that `get_file_url` calls may be
-- missing or may raise. PyJWT's own checks of exp and iat are modelled with `verify_token`. Redis
-- answers, or does not, through all of a request.
--
-- Not modelled. Requests run one after the other: races between two transactions, failing
-- connections, and some read-only endpoints (the lists of ratings, comments and Nanos) are left
-- out, as are uploaded_at, and updated_at but for the chats. The content that a response repeats is
-- left out where the handler's result tells it; so are the content details of the moderation queue.
-- Of app/modules/auth the profile, a new verification mail and the deletion that follows the grace
-- period are not modelled, nor are search, mail, and the routers but for login, upload, change of
-- the password and chat messages: a handler is given the caller's user id and role, which the token
-- check has read. A login, a registration and a change of the password leave out their audit
-- entries, and the tokens of a login are a step of their own. The search cache is a counter of
-- invalidations, which never fail. The lock of the rate limiter makes its checks sequential, and
-- its two time-ordered queues are lists. The waits between the attempts of an upload take no time.
pub mod Prelude
pub mod Models
pub mod Session
pub mod Publishing
pub mod Moderation
pub mod Nanos
pub mod RateLimit
pub mod Upload
pub mod Listing
pub mod Chat
pub mod Auth
pub mod System
pub mod Tests
