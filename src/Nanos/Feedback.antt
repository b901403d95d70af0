-- ===== src/Nanos/Feedback.antt =====
-- What is stored when users comment on a Nano or flag it.
use di_wei_wei_nano_market.Prelude.{
  ℕ, ◌≡◌, ◌≢◌, ◌≤◌, true, none, some, inl, inr, arith, ◌==◌, find, length, Option-cases,
  find-modify_self, any-or, any-found, ap, ◌∙◌,
}
use di_wei_wei_nano_market.Models.{
  Db, TokenData, Nano, NanoComment, NanoFlag, ModerationCase, ModerationContentType,
  FeedbackModerationStatus, Text, nano_at, case_of, comment_by, flag_by, is_published,
}
use di_wei_wei_nano_market.Session.{Env, Error, Result, ok, err, request, Result-cases}
use di_wei_wei_nano_market.Moderation.Cases.{upsert_rows}
use di_wei_wei_nano_market.Moderation.Upsert.{IsOpen, upsert_rows-IsOpen}
use di_wei_wei_nano_market.Nanos.Sanitize.{sanitize_comment_content}
use di_wei_wei_nano_market.Nanos.Comments.{
  create_nano_comment, update_nano_comment, comment_of, can_manage_comment, rewrite,
}
use di_wei_wei_nano_market.Nanos.Flags.{
  NanoFlagCreateRequest, create_nano_flag, get_my_nano_flag, new_flag, flag_comment_fits,
}

abbrev pub Commented : Env → ℕ → Text → TokenData → Db → Result NanoComment × Db
Commented env i t user db = request (create_nano_comment env i t user) db

abbrev pub Edited : Env → ℕ → ℕ → Text → TokenData → Db → Result NanoComment × Db
Edited env i k t user db = request (update_nano_comment env i k t user) db

abbrev pub Flagged : Env → ℕ → NanoFlagCreateRequest → TokenData → Db → Result NanoFlag × Db
Flagged env i q user db = request (create_nano_flag env i q user) db

-- A comment that awaits moderation, with nothing left of an earlier decision.
abbrev pub IsUnmoderated : NanoComment → Type 0
IsUnmoderated c =
    (c.moderation_status ≡ FeedbackModerationStatus.pending)
    × (c.moderated_at ≡ none)
    × (c.moderated_by_user_id ≡ none)
    × (c.moderation_reason ≡ none)

comment_case :
    (env : Env) (i : ℕ) (t : Text) (user : TokenData) (db : Db) (c : NanoComment)
    → (Commented env i t user db).0 ≡ ok c
    → upsert_rows env ModerationContentType.nano_comment env.new_id none db.cases
      ≡ some (Commented env i t user db).1.cases
unfolding create_nano_comment
comment_case env i t user db c h =
    elim (Option-cases
      (upsert_rows env ModerationContentType.nano_comment env.new_id none db.cases)) [
        | inl refused ↦ absurd (ground arith)
        | inr (cs, w) ↦ ground arith
      ]

comment_id :
    (env : Env) (i : ℕ) (t : Text) (user : TokenData) (db : Db) (c : NanoComment)
    → (Commented env i t user db).0 ≡ ok c
    → c.id ≡ env.new_id
unfolding create_nano_comment
comment_id env i t user db c h = ground arith

-- A new comment that is accepted stands on a published Nano where its user had none, is stored
-- sanitized, with 1 to 1000 characters, and awaits moderation with an open case.
pub create_comment_stores :
    (env : Env) (i : ℕ) (t : Text) (user : TokenData) (db : Db) (c : NanoComment)
    → (Commented env i t user db).0 ≡ ok c
    → let db' = (Commented env i t user db).1 in
      (n : Nano) × (m : ModerationCase) × (find (nano_at i) db.nanos ≡ some n)
      × (is_published n.status ≡ true)
      × (find (comment_by i user.user_id) db.comments ≡ none)
      × (find (comment_by i user.user_id) db'.comments ≡ some c)
      × (c.content ≡ sanitize_comment_content t)
      × (1 ≤ length c.content)
      × (length c.content ≤ 1000)
      × IsUnmoderated c
      × (find (case_of ModerationContentType.nano_comment c.id) db'.cases ≡ some m)
      × IsOpen m
unfolding create_nano_comment
create_comment_stores env i t user db c h =
    let (m, at, fresh, rep) =
      upsert_rows-IsOpen env ModerationContentType.nano_comment env.new_id none db.cases _
        (comment_case env i t user db c h) in
    elim (Option-cases (find (nano_at i) db.nanos)) [
      | inl missing ↦ absurd (ground arith)
      | inr (n, found) ↦ (
        n,
        m,
        found,
        ground arith,
        ground arith,
        ground arith,
        ground arith,
        ground arith,
        ground arith,
        (ground arith, ground arith, ground arith, ground arith),
        ap
              (λ x.
                find (case_of ModerationContentType.nano_comment x)
                  (Commented env i t user db).1.cases)
              (comment_id env i t user db c h)
            ∙ at,
        fresh,
      )
    ]

edit_case :
    (env : Env) (i k : ℕ) (t : Text) (user : TokenData) (db : Db) (c : NanoComment)
    → (Edited env i k t user db).0 ≡ ok c
    → upsert_rows env ModerationContentType.nano_comment c.id none db.cases
      ≡ some (Edited env i k t user db).1.cases
unfolding update_nano_comment
edit_case env i k t user db c h = elim (Option-cases (find (comment_of k i) db.comments)) [
  | inl missing ↦ absurd (ground arith)
  | inr (old, found) ↦
      elim (Option-cases
        (upsert_rows env ModerationContentType.nano_comment old.id none db.cases)) [
          | inl refused ↦ absurd (ground arith)
          | inr (cs, w) ↦ ground arith
        ]
]

edit_published :
    (env : Env) (i k : ℕ) (t : Text) (user : TokenData) (db : Db) (c : NanoComment)
    → (Edited env i k t user db).0 ≡ ok c
    → (n : Nano) × (find (nano_at i) db.nanos ≡ some n) × (is_published n.status ≡ true)
unfolding update_nano_comment
edit_published env i k t user db c h = elim (Option-cases (find (nano_at i) db.nanos)) [
  | inl missing ↦ absurd (ground arith)
  | inr (n, found) ↦ (n, found, ground arith)
]

-- An edit that is accepted was made by the author, a moderator or an admin, on a published Nano. The
-- new text is stored sanitized, whatever decision was taken on the old one is cleared, and the
-- comment's case is open again.
pub update_comment_reopens :
    (env : Env) (i k : ℕ) (t : Text) (user : TokenData) (db : Db) (c : NanoComment)
    → (Edited env i k t user db).0 ≡ ok c
    → let db' = (Edited env i k t user db).1 in
      (n : Nano) × (old : NanoComment) × (m : ModerationCase) × (find (nano_at i) db.nanos ≡ some n)
      × (is_published n.status ≡ true)
      × (find (comment_of k i) db.comments ≡ some old)
      × (can_manage_comment old user ≡ true)
      × (find (comment_of k i) db'.comments ≡ some c)
      × (c ≡ rewrite (sanitize_comment_content t) old)
      × (length c.content ≤ 1000)
      × (find (case_of ModerationContentType.nano_comment c.id) db'.cases ≡ some m)
      × IsOpen m
unfolding update_nano_comment
update_comment_reopens env i k t user db c h =
    let (m, at, fresh, rep) =
      upsert_rows-IsOpen env ModerationContentType.nano_comment c.id none db.cases _
        (edit_case env i k t user db c h) in
    let (n, there, public) = edit_published env i k t user db c h in
    elim (Option-cases (find (comment_of k i) db.comments)) [
      | inl missing ↦ absurd (ground arith)
      | inr (old, found) ↦
          let kept =
            find-modify_self (comment_of k i) (rewrite (sanitize_comment_content t)) db.comments
              (λ _ p. p) in
          (
            n,
            old,
            m,
            there,
            public,
            found,
            ground arith,
            ground arith,
            ground arith,
            ground arith,
            at,
            fresh,
          )
    ]

flag_case :
    (env : Env) (i : ℕ) (q : NanoFlagCreateRequest) (user : TokenData) (db : Db) (f : NanoFlag)
    → (Flagged env i q user db).0 ≡ ok f
    → upsert_rows env ModerationContentType.flag env.new_id (some user.user_id) db.cases
      ≡ some (Flagged env i q user db).1.cases
unfolding create_nano_flag
flag_case env i q user db f h =
    elim (Option-cases
      (upsert_rows env ModerationContentType.flag env.new_id (some user.user_id) db.cases)) [
        | inl refused ↦ absurd (ground arith)
        | inr (cs, w) ↦ ground arith
      ]

flag_is :
    (env : Env) (i : ℕ) (q : NanoFlagCreateRequest) (user : TokenData) (db : Db) (f : NanoFlag)
    → (Flagged env i q user db).0 ≡ ok f
    → f ≡ new_flag env i user q
unfolding create_nano_flag
flag_is env i q user db f h = ground arith

-- A flag that is accepted is on a published Nano of somebody else, and its comment has at most 500
-- characters. Asking for one's own flag then
-- returns it, and its case is open and names the user as the reporter.
pub flag_round_trip :
    (env : Env) (i : ℕ) (q : NanoFlagCreateRequest) (user : TokenData) (db : Db) (f : NanoFlag)
    → (Flagged env i q user db).0 ≡ ok f
    → let db' = (Flagged env i q user db).1 in
      (n : Nano) × (m : ModerationCase) × (find (nano_at i) db.nanos ≡ some n)
      × (is_published n.status ≡ true)
      × (n.creator_id ≢ user.user_id)
      × ((request (get_my_nano_flag i user) db').0 ≡ ok f)
      × (f ≡ new_flag env i user q)
      × (flag_comment_fits f.comment ≡ true)
      × (find (case_of ModerationContentType.flag env.new_id) db'.cases ≡ some m)
      × IsOpen m
      × (m.reporter_id ≡ some user.user_id)
unfolding create_nano_flag get_my_nano_flag
flag_round_trip env i q user db f h =
    let (m, at, fresh, rep) =
      upsert_rows-IsOpen env ModerationContentType.flag env.new_id (some user.user_id) db.cases _
        (flag_case env i q user db f h) in
    elim (Option-cases (find (nano_at i) db.nanos)) [
      | inl missing ↦ absurd (ground arith)
      | inr (n, found) ↦ (
        n,
        m,
        found,
        ground arith,
        ground arith,
        ground arith,
        flag_is env i q user db f h,
        ground arith,
        at,
        fresh,
        rep,
      )
    ]

-- A user who has flagged a Nano cannot flag it again: the request fails and changes nothing.
pub flag_once :
    (env : Env) (i : ℕ) (q : NanoFlagCreateRequest) (user : TokenData) (db : Db) (old : NanoFlag)
    → find (flag_by i user.user_id) db.flags ≡ some old
    → (e : Error) × ((Flagged env i q user db).0 ≡ err e) × ((Flagged env i q user db).1 ≡ db)
unfolding create_nano_flag
flag_once env i q user db old found =
    let conflict = any-or (λ x. x.id == env.new_id) (flag_by i user.user_id) db.flags in
    let taken = any-found (flag_by i user.user_id) db.flags found in
    elim (Result-cases (Flagged env i q user db).0) [
      | inl (f, accepted) ↦ absurd (ground arith)
      | inr (e, refused) ↦ (e, refused, ground arith)
    ]
