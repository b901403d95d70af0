-- ===== src/Session.antt =====
-- A request's database session: what is committed, what is pending, and how a handler ends.
use di_wei_wei_nano_market.Prelude.{
  ℕ, ◌+◌, ◌≡◌, refl, ◌⊎◌, inl, inr, Bool, Option, none, some, ◌∷◌, if◌then◌else◌, arith,
}
use di_wei_wei_nano_market.Models.{Db, AuditLog}

-- `AuthenticationError` and `GDPRError` with their subclasses.
pub data AuthProblem : Type 0 where
  authentication invalid_credentials user_exists account_locked not_verified : AuthProblem
  password_change gdpr already_scheduled : AuthProblem

-- What the handlers raise with `HTTPException`, by its `detail`.
pub data Detail : Type 0 where
  not_found forbidden not_published duplicate invalid_transition : Detail
  missing_published_at unpublish_window_over missing_metadata not_deletable : Detail
  too_long own_content invalid_decision no_download_path storage_down : Detail
  self_chat not_participant message_refused rate_limited message_blocked : Detail
  null_field not_draft unknown_category unauthenticated : Detail
  wrong_type wrong_extension file_too_large bad_zip corrupt_zip empty_zip : Detail
  only_directories unsupported_content unreadable_zip not_created : Detail
  auth_detail : AuthProblem → Detail

pub data Error : Type 0 where
  http_exception : ℕ → Detail → Error
  auth_error : AuthProblem → Error
  -- `sqlalchemy.exc.IntegrityError` and any other `SQLAlchemyError`, raised by a flush
  integrity_error : Error
  sqlalchemy_error : Error

pub data Result (A : Type 0) : Type 0 where
  ok : A → Result A
  err : Error → Result A

-- `AsyncSession`: a handler sees `pending`, which `commit` makes durable.
pub record Session : Type 0 where
  pub committed : Db
  pub pending : Db

-- What a request draws from outside: the clock, the ids that `uuid.uuid4` gives to new rows, and
-- whether the database takes an audit entry.
pub record Env : Type 0 where
  pub now : ℕ
  pub new_id : ℕ
  pub new_case_id : ℕ
  -- the ids of rows that are added in bulk, by their place
  pub bulk_ids : ℕ → ℕ
  pub audit_ok : Bool

abbrev pub Action : Type 0 → Type 0
Action A = Session → Result A × Session

infixl 5 ◌>>=◌ ◌>>◌
abbrev pub ◌>>=◌ : {A B : Type 0} → Action A → (A → Action B) → Action B
◌>>=◌ m f s = let (r, s') = m s in elim r [ ok a ↦ f a s' | err e ↦ (err e, s') ]

abbrev pub ◌>>◌ : {B : Type 0} → Action (Unit {0}) → Action B → Action B
m >> k = m >>= λ _. k

module _ {A : Type 0} where
  abbrev pub pure : A → Action A
  pure a s = (ok a, s)

  abbrev pub raise : Error → Action A
  raise e s = (err e, s)

  abbrev pub gets : (Db → A) → Action A
  gets f s = (ok (f s.pending), s)

  abbrev pub or_raise : Option A → Error → Action A
  or_raise none e = raise e
  or_raise (some a) e = pure a

  -- `try: … except IntegrityError: …`
  abbrev pub catch_integrity : Action A → Action A → Action A
  catch_integrity m handler s =
      let (r, s') = m s in
      elim r [
        | ok a ↦ (ok a, s')
        | err (http_exception code detail) ↦ (err (http_exception code detail), s')
        | err (auth_error problem) ↦ (err (auth_error problem), s')
        | err integrity_error ↦ handler s'
        | err sqlalchemy_error ↦ (err sqlalchemy_error, s')
      ]

  -- A request: what is pending at the end is lost when the session closes.
  abbrev pub request : Action A → Db → Result A × Db
  request m db = let (r, s) = m (record { committed = db; pending = db }) in (r, s.committed)

abbrev pub raise_if : Bool → Error → Action (Unit {0})
raise_if c e s = (if c then err e else ok tt, s)

abbrev pub modify_db : (Db → Db) → Action (Unit {0})
modify_db f s = (ok tt, record s { pending = f s.pending })

abbrev pub commit : Action (Unit {0})
commit s = (ok tt, record s { committed = s.pending })

abbrev pub rollback : Action (Unit {0})
rollback s = (ok tt, record s { pending = s.committed })

-- `AuditLogger.log_action` (app/modules/audit/service.py): an INSERT and a flush.
abbrev pub log_action : Env → AuditLog → Action (Unit {0})
log_action env entry s =
    if env.audit_ok
    then (
      ok tt,
      record s { pending = record s.pending { audit_logs = entry ∷ s.pending.audit_logs } },
    )
    else (err sqlalchemy_error, s)

-- `log_action` in a savepoint (`begin_nested`) under `except SQLAlchemyError`.
abbrev pub try_log_action : Env → AuditLog → Action (Unit {0})
try_log_action env entry s =
    if env.audit_ok
    then (
      ok tt,
      record s { pending = record s.pending { audit_logs = entry ∷ s.pending.audit_logs } },
    )
    else (ok tt, s)

-- `invalidate_search_cache` runs outside the session's transaction and never raises.
abbrev pub invalidate_search_cache : Action (Unit {0})
invalidate_search_cache s = (
  ok tt,
  record {
    committed = record s.committed { search_invalidations = s.committed.search_invalidations + 1 };
    pending = record s.pending { search_invalidations = s.pending.search_invalidations + 1 };
  },
)

pub Result-cases :
    {A : Type 0} (r : Result A) → ((a : A) × (r ≡ ok a)) ⊎ ((e : Error) × (r ≡ err e))
Result-cases (ok a) = inl (a, refl)
Result-cases (err e) = inr (e, refl)

-- An action that succeeds after another: the first one succeeded, and the second went on from there.
pub bind_ok :
    {A B : Type 0} (m : Action A) (f : A → Action B) (s : Session) (b : B)
    → ((m >>= f) s).0 ≡ ok b
    → (a : A) × ((m s).0 ≡ ok a) × ((m >>= f) s ≡ f a (m s).1)
bind_ok m f s b h = elim (Result-cases (m s).0) [
  | inl (a, e) ↦ (a, e, ground arith)
  | inr (x, e) ↦ absurd (ground arith)
]
