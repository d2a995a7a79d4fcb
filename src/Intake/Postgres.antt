-- ===== src/Intake/Postgres.antt =====
-- `PostgresStore` of doclens-document-intake-service/internal/store/postgres.go: its document and
-- upload calls. Those on the outbox are in Intake/Outbox.
pub mod Uploads
pub mod Intents
pub mod Atomic
pub mod Moves
pub mod Rules
pub mod Integrity
pub mod Success
pub mod Parts
pub mod Outcome
pub mod Created
pub mod NoIntents
pub mod Events
pub mod Tenancy
pub mod Queued
pub mod Added
use Prim.Native.String.{◌++◌}
use doc_lens.Base.{
  ℕ, ℤ, pos, String, Bool, true, false, ◌&&◌, not, List, [], ◌∷◌, Option, none, some, ◌==◌,
  string_eq, int_eq, ltb, ltb_ℤ, if◌then◌else◌, ok, err, Exec, pure, raise, micros, check,
  require_some, ◌>>=◌, ◌>>◌,
}
use doc_lens.Intake.Types.{
  UploadRecord, Document, OutboxEvent, StoreError, failure, document_not_found,
  organization_mismatch, upload_not_found, upload_not_pending, upload_mismatch, confirmed, pending,
  proxied, presigned_direct, processing, queued, is_pending, is_confirmed, JobStatus, Store,
  UploadIntentStore,
}
use doc_lens.Intake.Database.{
  JobRow, Database, Statement, begin, commit, insert_document, insert_job, insert_upload,
  insert_event, select_document, select_uploads, scan_uploads, iterate_uploads, select_owner,
  select_key, select_upload, update_upload, update_document, upsert_job, Sql, Violation,
  check_violation, statement, query, transaction, select, select_all, update, unless, first_of,
  add_document, add_job, put_job, has_key, add_upload, add_event, put_event, order_by, with_upload,
}

-- `fmt.Errorf("prefix: %w", err)`
abbrev pub wrap : String → String → StoreError
wrap prefix text = failure (prefix ++ ": " ++ text)

-- A statement without an effect on the tables.
unfoldable pub control : Sql → Statement → String → Exec Database StoreError Unit
control q s prefix = query q s (wrap prefix) (λ d. tt)

-- `scanDocument`: the first row, without uploads.
unfoldable pub document_row : String → String → Database → Option Document
document_row organization_id id d =
    select (λ row. row.organization_id == organization_id && row.id == id) d.documents

abbrev pub job_id : String → String
job_id document_id = "job_" ++ document_id

-- The row of `processing_jobs` that the service writes for a document.
abbrev pub job_row : String → String → JobStatus → ℕ → ℕ → JobRow
job_row document_id organization_id status created_at updated_at = record {
  id = job_id document_id;
  document_id = document_id;
  organization_id = organization_id;
  status = status;
  created_at = micros created_at;
  updated_at = micros updated_at;
}

unfoldable pub create_document : Sql → Document → Exec Database StoreError Document
create_document q doc = do
  statement q insert_document (wrap "insert document") (add_document doc)
  statement q insert_job (wrap "insert processing job") (
      add_job (
        job_row doc.id doc.organization_id doc.processing_job_status doc.created_at doc.updated_at))
  pure doc

-- The columns that `INSERT INTO uploads` leaves out get the table's defaults.
unfoldable pub stored_upload : UploadRecord → UploadRecord
stored_upload upload = record upload {
  status = confirmed;
  upload_method = proxied;
  expected_size = pos 0;
  confirmed_at = none;
  created_at = micros upload.created_at;
}

unfoldable pub insert_upload_row : Sql → UploadRecord → Exec Database StoreError Unit
insert_upload_row q upload =
    statement q insert_upload (wrap "insert upload") (add_upload (stored_upload upload))

unfoldable pub insert_event_row : Sql → OutboxEvent → Exec Database StoreError Unit
insert_event_row q event = do
  check (q.valid_json event.payload) (failure "outbox payload is not valid json")
  statement q insert_event (wrap "insert event outbox record")
      (add_event (record event { payload = q.jsonb event.payload }))

-- The transaction's body.
unfoldable pub create_and_queue :
    Sql → Document → UploadRecord → OutboxEvent → Exec Database StoreError Document
create_and_queue q doc upload event = do
  control q begin "begin document transaction"
  create_document q doc
  insert_upload_row q upload
  insert_event_row q event
  control q commit "commit document transaction"
  pure (with_upload doc upload)

unfoldable pub create_document_and_queue :
    Sql → Document → UploadRecord → OutboxEvent → Exec Database StoreError Document
create_document_and_queue q doc upload event = transaction (create_and_queue q doc upload event)

-- The uploads of a document, oldest first.
unfoldable pub upload_rows : String → String → Database → List UploadRecord
upload_rows organization_id id d =
    order_by (λ a b. ltb a.created_at b.created_at)
      (select_all (λ row. row.organization_id == organization_id && row.document_id == id)
        d.uploads)

unfoldable pub get_document : Sql → String → String → Exec Database StoreError Document
get_document q organization_id id = do
  found ← query q select_document (wrap "select document") (document_row organization_id id)
  doc ← require_some found document_not_found
  uploads ← query q select_uploads (wrap "select uploads") (upload_rows organization_id id)
  control q scan_uploads "scan upload"
  control q iterate_uploads "iterate uploads"
  pure (record doc { uploads = uploads })

unfoldable pub get_document_status : Sql → String → String → Exec Database StoreError Document
get_document_status q organization_id document_id = get_document q organization_id document_id

-- `getDocumentTx`, whose errors get no prefix.
unfoldable pub get_document_tx : Sql → String → String → Exec Database StoreError Document
get_document_tx q organization_id id = do
  found ← query q select_document failure (document_row organization_id id)
  require_some found (failure q.no_rows)

-- `SELECT organization_id FROM documents WHERE id = $1`, and the comparison of the owner.
unfoldable pub check_owner : Sql → String → String → String → Exec Database StoreError Unit
check_owner q prefix organization_id document_id = do
  found ←
      query q select_owner (wrap prefix) (λ d. select (λ row. row.id == document_id) d.documents)
  doc ← require_some found document_not_found
  check (doc.organization_id == organization_id) organization_mismatch

-- The upload of the organization with the same (non-empty) idempotency key.
unfoldable pub find_upload :
    Sql → String → String → String → Exec Database StoreError (Option UploadRecord)
find_upload q prefix organization_id key =
    if key == ""
    then pure none
    else query q select_key (wrap prefix) (λ d. select (has_key organization_id key) d.uploads)
