-- ===== src/Intake/Postgres/Outcome.antt =====
-- `PostgresStore` of internal/store/postgres.go: the tables after an upload that succeeded.
use doc_lens.Base.{
  ℕ, String, ◌≡◌, ◌⊎◌, sym, ◌∙◌, true, ◌&&◌, [], ◌∷◌, ◌++◌, Option, some, none, arith, ok, ◌==◌,
  not, string_eq, micros, pos, inl, inr, bind_ok, pure_ok,
}
use doc_lens.Intake.Types.{
  confirmed, proxied, processing, queued, UploadRecord, Document, OutboxEvent,
}
use doc_lens.Intake.Database.{event_pending, Database, Sql, update, select, has_key}
use doc_lens.Intake.Postgres.{stored_upload, document_row}
use doc_lens.Intake.Postgres.Uploads.{
  queued_document, queue_event, upload_new, upload_unless, upload_in, upload_with,
  upload_document_and_queue,
}
use doc_lens.Intake.Postgres.Success.{transaction_ok, control_ok}
use doc_lens.Intake.Postgres.Parts.{
  has_queued_job, insert_upload_ok, insert_event_ok, queue_document_ok, get_tx_ok, check_owner_ok,
  find_upload_ok,
}

-- What a new upload and its event do to the tables: a confirmed and proxied upload, a row of the outbox
-- that waits, and the document of the organization in processing with a queued job.
pub record IsUploaded (q : Sql) (now : ℕ) (org id : String) (u : UploadRecord) (event : OutboxEvent)
    (d d' : Database) (doc : Document) : Type 0 where
  pub fresh :
      select
        (λ row.
          not (u.idempotency_key == "")
          && row.organization_id == org
          && row.idempotency_key == u.idempotency_key)
        d.uploads
      ≡ none
  pub uploads :
      d'.uploads
      ≡ d.uploads
        ++ record u {
          status = confirmed;
          upload_method = proxied;
          expected_size = pos 0;
          confirmed_at = none;
          created_at = micros u.created_at;
        }
          ∷ []
  pub events :
      d'.events
      ≡ d.events
        ++ record {
          event = record event {
            payload = q.jsonb event.payload;
            created_at = micros event.created_at;
          };
          status = event_pending;
          attempt_count = 0;
          next_attempt_at = micros event.created_at;
          last_error = "";
          published_at = none;
        }
          ∷ []
  pub documents :
      d'.documents
      ≡ update
          (λ row. row.organization_id == org && row.id == id)
          (λ row. record row {
            status = processing;
            processing_job_status = queued;
            storage_ref = u.storage_ref;
            size_bytes = u.size_bytes;
            updated_at = micros now;
          })
          d.documents
  pub job : has_queued_job id d' ≡ true
  pub answer :
      (row : Document) × (select (λ x. x.organization_id == org && x.id == id) d'.documents
        ≡ some row)
      × (doc ≡ record row {
        uploads = row.uploads ++ u ∷ [];
        status = processing;
        processing_job_status = queued;
        updated_at = now;
      })

upload_new-IsUploaded :
    (q : Sql) (now : ℕ) (org id : String) (u : UploadRecord) (event : OutboxEvent) (d d' : Database)
    (doc : Document)
    → select (has_key org u.idempotency_key) d.uploads ≡ none
    → upload_new q now org id u (some event) d ≡ (ok doc, d')
    → IsUploaded q now org id u event d d' doc
unfolding upload_new queue_event document_row has_queued_job stored_upload queued_document has_key
upload_new-IsUploaded q now org id u event d d' doc fresh h =
    let (x1, d1, inserted, h1) = bind_ok _ _ d doc d' h in
    let (x2, d2, updated, h2) = bind_ok _ _ d1 doc d' h1 in
    let (x3, d3, sent, h3) = bind_ok _ _ d2 doc d' h2 in
    let (row, d4, read, h4) = bind_ok _ _ d3 doc d' h3 in
    let (x5, d5, committed, h5) = bind_ok _ _ d4 doc d' h4 in
    let e1 = insert_upload_ok q u d d1 inserted in
    let (e2, job) = queue_document_ok q _ now org id _ _ d1 d2 updated in
    let e3 = insert_event_ok q event d2 d3 sent in
    let (found, e4) = get_tx_ok q org id d3 d4 row read in
    let e5 = control_ok q _ _ d4 d5 committed in
    let (e6, e7) = pure_ok _ doc d5 d' h5 in
    record {
      fresh = fresh;
      uploads = ground (arith, e1, e2, e3, e4, e5, e7);
      events = ground (arith, e1, e2, e3, e4, e5, e7);
      documents = ground (arith, e1, e2, e3, e4, e5, e7);
      job = ground (arith, job, e3, e4, e5, e7);
      answer = (row, ground (arith, found, e4, e5, e7), sym e6);
    }

-- What a key that an upload of the organization has already does: nothing but an answer.
pub record IsRepeated (org id : String) (u : UploadRecord) (d d' : Database) (doc : Document)
    : Type 0 where
  pub existing : UploadRecord
  pub known :
      select
        (λ row.
          not (u.idempotency_key == "")
          && row.organization_id == org
          && row.idempotency_key == u.idempotency_key)
        d.uploads
      ≡ some existing
  pub unchanged : d' ≡ d
  pub answer :
      (row : Document) × (select (λ x. x.organization_id == org && x.id == id) d.documents
        ≡ some row)
      × (doc ≡ record row { uploads = row.uploads ++ existing ∷ [] })

upload_unless_outcome :
    (q : Sql) (now : ℕ) (org id : String) (u : UploadRecord) (event : OutboxEvent)
    (o : Option UploadRecord) (d d' : Database) (doc : Document)
    → select (has_key org u.idempotency_key) d.uploads ≡ o
    → upload_unless q now org id u (some event) o d ≡ (ok doc, d')
    → IsUploaded q now org id u event d d' doc ⊎ IsRepeated org id u d d' doc
unfolding upload_unless has_key document_row
upload_unless_outcome q now org id u event none d d' doc e h =
    inl (upload_new-IsUploaded q now org id u event d d' doc e h)
upload_unless_outcome q now org id u event (some existing) d d' doc e h =
    let (row, t, read, k) = bind_ok _ _ d doc d' h in
    let (found, same) = get_tx_ok q org id d t row read in
    let (answered, same') = pure_ok _ doc t d' k in
    inr (record {
      existing = existing;
      known = e;
      unchanged = sym (same ∙ same');
      answer = (row, found, sym answered);
    })

-- `UploadDocumentAndQueue` that succeeds has, if no upload of the organization has the key, put in one
-- upload, confirmed and proxied, and one row of the outbox, pending and due from the event's time,
-- both at the end of their tables, set the document to processing with a queued job, and answered
-- with the document and the upload; else it has changed nothing and answered with the upload that
-- has the key. Stored times are cut to microseconds.
pub upload_and_queue_outcome :
    (q : Sql) (now : ℕ) (org id : String) (u : UploadRecord) (event : OutboxEvent) (d d' : Database)
    (doc : Document)
    → upload_document_and_queue q now org id u event d ≡ (ok doc, d')
    → IsUploaded q now org id u event d d' doc ⊎ IsRepeated org id u d d' doc
unfolding upload_document_and_queue upload_with upload_in
upload_and_queue_outcome q now org id u event d d' doc h =
    let (x1, d1, begun, h1) = bind_ok _ _ d doc d' (transaction_ok _ d d' doc h) in
    let (x2, d2, checked, h2) = bind_ok _ _ d1 doc d' h1 in
    let (o, d3, asked, h3) = bind_ok _ _ d2 doc d' h2 in
    let e1 = control_ok q _ _ d d1 begun in
    let e2 = check_owner_ok q _ org id d1 d2 checked in
    let (key, e3) = find_upload_ok q _ org _ d2 d3 o asked in
    let same : d3 ≡ d = sym (e1 ∙ e2 ∙ e3) in
    upload_unless_outcome q now org id u event o d d' doc (ground (arith, key, same, e3))
      (ground (arith, h3, same))
