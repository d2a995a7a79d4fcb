-- ===== src/Intake/Postgres/NoIntents.antt =====
-- `PostgresStore.CreateUploadIntent` of internal/store/postgres.go, against the check on sizes of
-- migrations/001_initial.sql.
use doc_lens.Base.{String, ◌≡◌, sym, ◌∙◌, Option, none, some, ok, err, arith, bind_ok, pure_ok}
use doc_lens.Intake.Types.{UploadRecord}
use doc_lens.Intake.Database.{Database, Sql, check_violation, add_upload, select, has_key}
use doc_lens.Intake.Postgres.Intents.{create_upload_intent, intent_unless, intent_row}
use doc_lens.Intake.Postgres.Success.{statement_ok}
use doc_lens.Intake.Postgres.Parts.{check_owner_ok, find_upload_ok}

-- The row of an intent has the size 0, which the table forbids.
intent_row_refused :
    (u : UploadRecord) (d : Database) → add_upload (intent_row u) d ≡ err check_violation
unfolding add_upload intent_row
intent_row_refused u d = ground arith

intent_unless_ok :
    (q : Sql) (u v : UploadRecord) (o : Option UploadRecord) (d d' : Database)
    → intent_unless q u o d ≡ (ok v, d')
    → (o ≡ some v) × (d ≡ d')
unfolding intent_unless
intent_unless_ok q u v (some existing) d d' h = ground (arith, pure_ok existing v d d' h)
intent_unless_ok q u v none d d' h =
    let (x, t, inserted, k) = bind_ok _ _ d v d' h in
    let run = statement_ok q _ _ (add_upload (intent_row u)) d t x inserted in
    ground (arith, intent_row_refused u d)

-- `CreateUploadIntent` succeeds only by answering with an upload of the organization that has the
-- same (non-empty) key already: it never adds a row.
pub no_intent_is_created :
    (q : Sql) (org id : String) (u v : UploadRecord) (d d' : Database)
    → create_upload_intent q org id u d ≡ (ok v, d')
    → (d' ≡ d) × (select (has_key org u.idempotency_key) d.uploads ≡ some v)
unfolding create_upload_intent
no_intent_is_created q org id u v d d' h =
    let (x1, d1, checked, h1) = bind_ok _ _ d v d' h in
    let (o, d2, asked, h2) = bind_ok _ _ d1 v d' h1 in
    let e1 = check_owner_ok q _ org id d d1 checked in
    let (key, e2) = find_upload_ok q _ org _ d1 d2 o asked in
    let (known, e3) = intent_unless_ok q u v o d2 d' h2 in
    (sym (e1 ∙ e2 ∙ e3), ground (arith, e1, key, known))
