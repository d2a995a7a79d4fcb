-- ===== src/Intake/Postgres/Uploads.antt =====
-- `PostgresStore` of doclens-document-intake-service/internal/store/postgres.go: uploads.
use doc_lens.Base.{
  ℕ, ℤ, String, ◌&&◌, Option, none, some, ◌==◌, string_eq, int_eq, ok, Exec, pure, micros, ◌>>=◌,
  ◌>>◌,
}
use doc_lens.Intake.Types.{UploadRecord, Document, OutboxEvent, StoreError, processing, queued}
use doc_lens.Intake.Database.{
  Database, begin, commit, update_document, upsert_job, Sql, statement, transaction, update,
  put_job, with_upload,
}
use doc_lens.Intake.Postgres.{
  wrap, control, job_row, insert_upload_row, insert_event_row, get_document_tx, check_owner,
  find_upload,
}

-- `UPDATE documents SET status = 'processing', processing_job_status = 'queued', …`
unfoldable pub queued_document : String → ℤ → ℕ → Document → Document
queued_document storage_ref size_bytes now doc = record doc {
  status = processing;
  processing_job_status = queued;
  storage_ref = storage_ref;
  size_bytes = size_bytes;
  updated_at = micros now;
}

unfoldable pub queue_document :
    Sql → String → ℕ → String → String → String → ℤ → Exec Database StoreError Unit
queue_document q prefix now organization_id document_id storage_ref size_bytes = do
  statement q update_document (wrap prefix) (λ d. ok (
    tt,
    record d {
      documents =
          update (λ row. row.organization_id == organization_id && row.id == document_id)
            (queued_document storage_ref size_bytes now) d.documents;
    },
  ))
  statement q upsert_job (wrap "update processing job")
      (put_job (job_row document_id organization_id queued now now))

unfoldable pub queue_event : Sql → Option OutboxEvent → Exec Database StoreError Unit
queue_event q none = pure tt
queue_event q (some event) = insert_event_row q event

-- What `uploadDocument` does when no upload has the key yet, and when one has.
unfoldable pub upload_new :
    Sql
    → ℕ
    → String
    → String
    → UploadRecord
    → Option OutboxEvent
    → Exec Database StoreError Document
upload_new q now organization_id document_id upload event = do
  insert_upload_row q upload
  queue_document q "update document status" now organization_id document_id upload.storage_ref
      upload.size_bytes
  queue_event q event
  doc ← get_document_tx q organization_id document_id
  control q commit "commit upload transaction"
  pure (record (with_upload doc upload) {
    status = processing;
    processing_job_status = queued;
    updated_at = now;
  })

unfoldable pub upload_unless :
    Sql
    → ℕ
    → String
    → String
    → UploadRecord
    → Option OutboxEvent
    → Option UploadRecord
    → Exec Database StoreError Document
upload_unless q now organization_id document_id upload event none =
    upload_new q now organization_id document_id upload event
upload_unless q now organization_id document_id upload event (some existing) = do
  doc ← get_document_tx q organization_id document_id
  pure (with_upload doc existing)

-- The transaction's body.
unfoldable pub upload_in :
    Sql
    → ℕ
    → String
    → String
    → UploadRecord
    → Option OutboxEvent
    → Exec Database StoreError Document
upload_in q now organization_id document_id upload event = do
  control q begin "begin upload transaction"
  check_owner q "lock document" organization_id document_id
  existing ← find_upload q "check idempotency key" organization_id upload.idempotency_key
  upload_unless q now organization_id document_id upload event existing

-- `uploadDocument`; the number is what `time.Now` returns.
unfoldable pub upload_with :
    Sql
    → ℕ
    → String
    → String
    → UploadRecord
    → Option OutboxEvent
    → Exec Database StoreError Document
upload_with q now organization_id document_id upload event =
    transaction (upload_in q now organization_id document_id upload event)

unfoldable pub upload_document :
    Sql → ℕ → String → String → UploadRecord → Exec Database StoreError Document
upload_document q now organization_id document_id upload =
    upload_with q now organization_id document_id upload none

unfoldable pub upload_document_and_queue :
    Sql → ℕ → String → String → UploadRecord → OutboxEvent → Exec Database StoreError Document
upload_document_and_queue q now organization_id document_id upload event =
    upload_with q now organization_id document_id upload (some event)
