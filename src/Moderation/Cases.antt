-- ===== src/Moderation/Cases.antt =====
-- The life of a moderation case: `upsert_moderation_case`, and the backfill of missing cases.
use di_wei_wei_nano_market.Prelude.{
  ℕ, Option, none, some, List, ◌∷◌, Bool, ◌||◌, ◌==◌, if◌then◌else◌, find, modify, any,
}
use di_wei_wei_nano_market.Models.{
  ModerationCase, ModerationCaseStatus, ModerationContentType, case_of,
}
use di_wei_wei_nano_market.Session.{Env, Action, ok, err, integrity_error}

-- The unique constraints of `moderation_cases`: the primary key and the content.
abbrev pub case_conflicts : ModerationCase → ModerationCase → Bool
case_conflicts c x = (x.id == c.id) || case_of c.content_type c.content_id x

-- `ModerationCase(…)` with the columns that the constructor leaves to their defaults.
abbrev pub new_case : Env → ℕ → ModerationContentType → ℕ → Option ℕ → ModerationCase
new_case env i t content reporter = record {
  id = i;
  content_type = t;
  content_id = content;
  reporter_id = reporter;
  status = ModerationCaseStatus.pending;
  reason = none;
  decided_by_user_id = none;
  decided_at = none;
  deferred_until = none;
  escalation_note = none;
  created_at = env.now;
}

abbrev pub or_else : Option ℕ → Option ℕ → Option ℕ
or_else none y = y
or_else (some x) y = some x

-- Back to PENDING, with all decision metadata cleared.
abbrev pub reset_case : Option ℕ → ModerationCase → ModerationCase
reset_case reporter c = record c {
  status = ModerationCaseStatus.pending;
  reason = none;
  decided_by_user_id = none;
  decided_at = none;
  deferred_until = none;
  escalation_note = none;
  reporter_id = or_else reporter c.reporter_id;
}

-- The flush of the new row; `none` where a constraint refuses it.
abbrev pub insert_case : ModerationCase → List ModerationCase → Option (List ModerationCase)
insert_case c cases = if any (case_conflicts c) cases then none else some (c ∷ cases)

upsert_found :
    Env
    → ModerationContentType
    → ℕ
    → Option ℕ
    → List ModerationCase
    → Option ModerationCase
    → Option (List ModerationCase)
upsert_found env t content reporter cases none =
    insert_case (new_case env env.new_case_id t content reporter) cases
upsert_found env t content reporter cases (some c) =
    some (modify (case_of t content) (reset_case reporter) cases)

-- `upsert_moderation_case` on the rows of the table.
unfoldable pub upsert_rows :
    Env → ModerationContentType → ℕ → Option ℕ → List ModerationCase → Option (List ModerationCase)
unfolding upsert_found
upsert_rows env t content reporter cases =
    upsert_found env t content reporter cases (find (case_of t content) cases)

abbrev pub write_cases : Option (List ModerationCase) → Action (Unit {0})
write_cases none s = (err integrity_error, s)
write_cases (some cases) s = (ok tt, record s { pending = record s.pending { cases = cases } })

abbrev pub upsert_moderation_case : Env → ModerationContentType → ℕ → Option ℕ → Action (Unit {0})
upsert_moderation_case env t content reporter s =
    write_cases (upsert_rows env t content reporter s.pending.cases) s
