-- ===== src/Intake/Postgres/Intents.antt =====
-- `PostgresStore` of internal/store/postgres.go: upload intents, their confirmation, and the store
-- as the service sees it.
use doc_lens.Base.{
  ℕ, ℤ, pos, String, Bool, ◌&&◌, not, Option, none, some, ◌==◌, string_eq, int_eq, ltb_ℤ,
  if◌then◌else◌, any, Result, Exec, pure, micros, check, require_some, ◌>>=◌, ◌>>◌,
}
use doc_lens.Intake.Types.{
  UploadRecord, OutboxEvent, StoreError, failure, upload_not_found, upload_not_pending,
  upload_mismatch, confirmed, pending, presigned_direct, is_pending, is_confirmed, Store,
}
use doc_lens.Intake.Database.{
  Database, begin, commit, insert_event, insert_upload, select_upload, update_upload, Sql,
  Violation, check_violation, statement, query, transaction, select, update, unless, first_of,
  add_upload, put_event,
}
use doc_lens.Intake.Postgres.{
  wrap, control, create_document, create_document_and_queue, get_document, get_document_status,
  check_owner, find_upload,
}
use doc_lens.Intake.Postgres.Uploads.{queue_document, upload_document, upload_document_and_queue}

-- What `CreateUploadIntent` returns.
unfoldable pub as_intent : UploadRecord → UploadRecord
as_intent upload = record upload { status = pending; upload_method = presigned_direct }

-- The row that it inserts.
unfoldable pub intent_row : UploadRecord → UploadRecord
intent_row upload = record (as_intent upload) {
  size_bytes = pos 0;
  confirmed_at = none;
  created_at = micros upload.created_at;
}

unfoldable pub intent_unless :
    Sql → UploadRecord → Option UploadRecord → Exec Database StoreError UploadRecord
intent_unless q upload (some existing) = pure existing
intent_unless q upload none = do
  statement q insert_upload (wrap "insert upload intent") (add_upload (intent_row upload))
  pure (as_intent upload)

unfoldable pub create_upload_intent :
    Sql → String → String → UploadRecord → Exec Database StoreError UploadRecord
create_upload_intent q organization_id document_id upload = do
  check_owner q "load document for upload intent" organization_id document_id
  existing ← find_upload q "check upload intent idempotency" organization_id upload.idempotency_key
  intent_unless q upload existing

-- The row that a confirmation addresses.
unfoldable pub is_upload : String → String → String → UploadRecord → Bool
is_upload organization_id document_id upload_id row =
    row.organization_id == organization_id && row.document_id == document_id && row.id == upload_id

unfoldable pub confirmed_upload : ℕ → ℤ → String → UploadRecord → UploadRecord
confirmed_upload now size_bytes checksum upload = record upload {
  status = confirmed;
  size_bytes = size_bytes;
  checksum = checksum;
  confirmed_at = some now;
}

-- The update breaks the check on sizes when it reaches a row and the size is not positive.
unfoldable pub set_confirmed :
    ℕ → String → String → String → ℤ → String → Database → Result Violation (Unit × Database)
set_confirmed now organization_id document_id upload_id size_bytes checksum d =
    unless
      (first_of
        (any (is_upload organization_id document_id upload_id) d.uploads
          && not (ltb_ℤ (pos 0) size_bytes))
        check_violation none)
      (
        tt,
        record d {
          uploads =
              update (is_upload organization_id document_id upload_id)
                (confirmed_upload (micros now) size_bytes checksum) d.uploads;
        },
      )

-- What a confirmation does with an upload that is not confirmed yet.
unfoldable pub confirm_pending :
    Sql
    → ℕ
    → String
    → String
    → String
    → ℤ
    → String
    → OutboxEvent
    → UploadRecord
    → Exec Database StoreError UploadRecord
confirm_pending q now organization_id document_id upload_id size_bytes checksum event upload = do
  check (is_pending upload.status) upload_not_pending
  check (not (ltb_ℤ (pos 0) upload.expected_size && not (upload.expected_size == size_bytes)))
      upload_mismatch
  check
      (not
        (not (upload.checksum == "") && not (checksum == "") && not (upload.checksum == checksum)))
      upload_mismatch
  statement q update_upload (wrap "confirm upload")
      (set_confirmed now organization_id document_id upload_id size_bytes checksum)
  queue_document q "update confirmed document" now organization_id document_id upload.storage_ref
      size_bytes
  check (q.valid_json event.payload) (failure "outbox payload is not valid json")
  statement q insert_event (wrap "queue confirmed upload event")
      (put_event (record event { created_at = now; payload = q.jsonb event.payload }))
  control q commit "commit upload confirmation"
  pure (confirmed_upload now size_bytes checksum upload)

unfoldable pub confirm_unless :
    Sql
    → ℕ
    → String
    → String
    → String
    → ℤ
    → String
    → OutboxEvent
    → UploadRecord
    → Exec Database StoreError UploadRecord
confirm_unless q now organization_id document_id upload_id size_bytes checksum event upload =
    if is_confirmed upload.status
    then pure upload
    else confirm_pending q now organization_id document_id upload_id size_bytes checksum event
        upload

-- The transaction's body.
unfoldable pub confirm_in :
    Sql
    → ℕ
    → String
    → String
    → String
    → ℤ
    → String
    → OutboxEvent
    → Exec Database StoreError UploadRecord
confirm_in q now organization_id document_id upload_id size_bytes checksum event = do
  control q begin "begin upload confirmation"
  found ←
      query q select_upload (wrap "load upload intent")
        (λ d. select (is_upload organization_id document_id upload_id) d.uploads)
  upload ← require_some found upload_not_found
  confirm_unless q now organization_id document_id upload_id size_bytes checksum event upload

unfoldable pub confirm_upload :
    Sql
    → ℕ
    → String
    → String
    → String
    → ℤ
    → String
    → OutboxEvent
    → Exec Database StoreError UploadRecord
confirm_upload q now organization_id document_id upload_id size_bytes checksum event =
    transaction (confirm_in q now organization_id document_id upload_id size_bytes checksum event)

-- The store as the service sees it. What the calls read of the server is the same in all of them.
abbrev pub postgres_store : Sql → Store Database
postgres_store q = record {
  create_document = create_document q;
  get_document = get_document q;
  upload_document = upload_document q;
  get_document_status = get_document_status q;
  upload_document_and_queue = some (upload_document_and_queue q);
  create_document_and_queue = some (λ now. create_document_and_queue q);
  intents = some (record {
    create_upload_intent = λ now. create_upload_intent q;
    confirm_upload = confirm_upload q;
  });
}
