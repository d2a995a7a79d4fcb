-- ===== src/Intake/Database.antt =====
-- The tables of doclens-document-intake-service/migrations/001_initial.sql and the statements that
-- internal/store/postgres.go runs on them. A table is the list of its rows, oldest first; the status
-- words are data types, so that the checks on them always pass. A TIMESTAMPTZ column keeps a time in
-- microseconds (`micros`), and a JSONB column a text of its own for the same value.
pub mod Rows
pub mod Keys
pub mod Pointwise
pub mod Counts
use doc_lens.Base.{
  ℕ, zero, suc, ℤ, pos, String, Bool, true, false, ◌&&◌, ◌||◌, not, List, [], ◌∷◌, ◌++◌, map,
  Option, none, some, ◌==◌, string_eq, ltb_ℤ, any, if◌then◌else◌, Result, ok, err, Exec, pure,
  raise, micros,
}
use doc_lens.Intake.Types.{
  UploadRecord, Document, DocumentStatus, JobStatus, OutboxEvent, StoreError, failure, confirmed,
  proxied,
}

pub record JobRow : Type 0 where
  pub id : String
  pub document_id : String
  pub organization_id : String
  pub status : JobStatus
  pub created_at : ℕ
  pub updated_at : ℕ

pub data EventStatus : Type 0 where
  event_pending publishing published event_failed : EventStatus

pub record EventRow : Type 0 where
  pub event : OutboxEvent
  pub status : EventStatus
  pub attempt_count : ℕ
  pub next_attempt_at : ℕ
  pub last_error : String
  pub published_at : Option ℕ

-- The rows of `documents` have no uploads of their own.
pub record Database : Type 0 where
  pub documents : List Document
  pub jobs : List JobRow
  pub uploads : List UploadRecord
  pub events : List EventRow

-- The steps of a call that the server, the connection or the reading of a row may refuse.
pub data Statement : Type 0 where
  begin commit insert_document insert_job insert_upload insert_event : Statement
  select_document select_uploads scan_uploads iterate_uploads : Statement
  select_owner select_key select_upload : Statement
  update_upload update_document upsert_job : Statement
  claim scan_records iterate_records mark_published mark_failed : Statement

pub data Violation : Type 0 where
  unique_violation check_violation foreign_key_violation : Violation

-- What a call depends on besides the tables: the statements that fail and how, the texts of the
-- driver's errors (`pgx.ErrNoRows` among them), `json.Valid`, and the text that a JSONB column gives
-- back for a text that it is given.
pub record Sql : Type 0 where
  pub fault : Statement → Option String
  pub violation : Violation → String
  pub no_rows : String
  pub valid_json : String → Bool
  pub jsonb : String → String

abbrev pub unless_fault :
    {E A : Type 0} → Option String → (String → E) → Exec Database E A → Exec Database E A
unless_fault (some text) wrap m d = (err (wrap text), d)
unless_fault none wrap m d = m d

abbrev pub answer :
    {E A : Type 0} → Sql → (String → E) → Result Violation (A × Database) → Exec Database E A
answer q wrap (ok (a, d')) d = (ok a, d')
answer q wrap (err v) d = (err (wrap (q.violation v)), d)

-- A statement, with the prefix that its errors get.
unfoldable pub statement :
    {E A : Type 0}
    → Sql
    → Statement
    → (String → E)
    → (Database → Result Violation (A × Database))
    → Exec Database E A
statement q s wrap run d = unless_fault (q.fault s) wrap (answer q wrap (run d)) d

-- A statement that reads.
unfoldable pub query :
    {E A : Type 0} → Sql → Statement → (String → E) → (Database → A) → Exec Database E A
query q s wrap read = statement q s wrap (λ d. ok (read d, d))

-- The tables after a transaction with this result, from `d` to `d'`.
abbrev pub kept : {A : Type 0} → Result StoreError A → Database → Database → Database
kept (ok a) d d' = d'
kept (err e) d d' = d

-- `defer tx.Rollback(ctx)`: after an error nothing is changed. A transaction is one step, and a commit
-- that fails is one that was not made.
unfoldable pub transaction : {A : Type 0} → Exec Database StoreError A → Exec Database StoreError A
transaction body d = let (r, d') = body d in (r, kept r d d')

-- The first row that passes a test.
unfoldable pub select : {A : Type 0} → (A → Bool) → List A → Option A
select test [] = none
select test (row ∷ rows) = if test row then some row else select test rows

-- The rows that pass a test, in the table's order.
unfoldable pub select_all : {A : Type 0} → (A → Bool) → List A → List A
select_all test [] = []
select_all test (row ∷ rows) =
    let rest = select_all test rows in if test row then row ∷ rest else rest

-- `UPDATE … SET change WHERE test`
unfoldable pub update : {A : Type 0} → (A → Bool) → (A → A) → List A → List A
update test change [] = []
update test change (row ∷ rows) = (if test row then change row else row) ∷ update test change rows

-- A document as a row keeps it.
abbrev pub document_to_row : Document → Document
document_to_row doc = record doc {
  uploads = [];
  created_at = micros doc.created_at;
  updated_at = micros doc.updated_at;
}

-- `INSERT`, where `fails` says which constraint the new row breaks.
abbrev pub unless : {A : Type 0} → Option Violation → A → Result Violation A
unless none a = ok a
unless (some v) a = err v

abbrev pub first_of : Bool → Violation → Option Violation → Option Violation
first_of broken v rest = if broken then some v else rest

unfoldable pub add_document : Document → Database → Result Violation (Unit × Database)
add_document doc d =
    unless
      (first_of (ltb_ℤ doc.size_bytes (pos 0)) check_violation
        (first_of (any (λ row. row.id == doc.id) d.documents) unique_violation none))
      (tt, record d { documents = d.documents ++ document_to_row doc ∷ [] })

-- The row that a foreign key refers to.
unfoldable pub has_document : String → String → Database → Bool
has_document organization_id document_id d =
    any (λ row. row.organization_id == organization_id && row.id == document_id) d.documents

unfoldable pub add_job : JobRow → Database → Result Violation (Unit × Database)
unfolding has_document
add_job job d =
    unless
      (first_of (any (λ row. row.id == job.id) d.jobs) unique_violation (
        first_of (not (has_document job.organization_id job.document_id d)) foreign_key_violation
          none))
      (tt, record d { jobs = d.jobs ++ job ∷ [] })

-- `ON CONFLICT (id) DO UPDATE SET status = …, updated_at = …`
unfoldable pub put_job : JobRow → Database → Result Violation (Unit × Database)
put_job job d =
    if any (λ row. row.id == job.id) d.jobs
    then ok (
      tt,
      record d {
        jobs =
            update (λ row. row.id == job.id)
              (λ row. record row { status = job.status; updated_at = job.updated_at }) d.jobs;
      },
    )
    else add_job job d

-- The unique index over organization and non-empty idempotency key.
unfoldable pub has_key : String → String → UploadRecord → Bool
has_key organization_id key row =
    not (key == "") && row.organization_id == organization_id && row.idempotency_key == key

unfoldable pub add_upload : UploadRecord → Database → Result Violation (Unit × Database)
unfolding has_document has_key
add_upload upload d =
    unless
      (first_of (not (ltb_ℤ (pos 0) upload.size_bytes) || ltb_ℤ upload.expected_size (pos 0))
        check_violation
        (first_of (any (λ row. row.id == upload.id) d.uploads) unique_violation (
          first_of (any (has_key upload.organization_id upload.idempotency_key) d.uploads)
            unique_violation
            (first_of (not (has_document upload.organization_id upload.document_id d))
              foreign_key_violation none))))
      (tt, record d { uploads = d.uploads ++ upload ∷ [] })

-- A new row of the outbox, which may be published at once.
abbrev pub waiting_row : OutboxEvent → EventRow
waiting_row event = record {
  event = record event { created_at = micros event.created_at };
  status = event_pending;
  attempt_count = 0;
  next_attempt_at = micros event.created_at;
  last_error = "";
  published_at = none;
}

unfoldable pub has_event : String → Database → Bool
has_event id d = any (λ row. row.event.id == id) d.events

unfoldable pub add_event : OutboxEvent → Database → Result Violation (Unit × Database)
unfolding has_event
add_event event d =
    unless (first_of (has_event event.id d) unique_violation none)
      (tt, record d { events = d.events ++ waiting_row event ∷ [] })

-- `ON CONFLICT (id) DO NOTHING`
unfoldable pub put_event : OutboxEvent → Database → Result Violation (Unit × Database)
unfolding has_event
put_event event d =
    if has_event event.id d
    then ok (tt, d)
    else ok (tt, record d { events = d.events ++ waiting_row event ∷ [] })

-- `ORDER BY`, keeping the table's order among equals: `before a b` says that `a` may not follow `b`.
unfoldable pub place : {A : Type 0} → (A → A → Bool) → A → List A → List A
place before a [] = a ∷ []
place before a (b ∷ rows) =
    let rest = place before a rows in if before a b then a ∷ b ∷ rows else b ∷ rest

unfoldable pub order_by : {A : Type 0} → (A → A → Bool) → List A → List A
unfolding place
order_by before [] = []
order_by before (a ∷ rows) = place before a (order_by before rows)

unfoldable pub limit : {A : Type 0} → ℕ → List A → List A
limit n [] = []
limit n (a ∷ rows) = elim n [ zero ↦ [] | suc m ↦ a ∷ limit m rows ]

-- `doc.Uploads = append(doc.Uploads, upload)`
abbrev pub with_upload : Document → UploadRecord → Document
with_upload doc upload = record doc { uploads = doc.uploads ++ upload ∷ [] }
