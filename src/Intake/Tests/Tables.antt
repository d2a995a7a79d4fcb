-- ===== src/Intake/Tests/Tables.antt =====
-- The PostgreSQL store at concrete inputs.
use doc_lens.Base.{
  micros, err, arith, get_elem?, pos, ◌≡◌, ◌⊎◌, refl, true, [], ◌∷◌, Option, some, none, ok,
  string_eq, ◌>>=◌,
}
use doc_lens.Intake.Types.{
  UploadRecord, Document, StoreError, failure, document_not_found, organization_mismatch,
  upload_not_found, processing, queued, confirmed, proxied,
}
use doc_lens.Intake.Database.{
  EventRow, published, Database, Sql, commit, waiting_row, with_upload, select, has_key, has_event,
  update, statement, query, transaction, add_job, put_job, add_upload, add_event, has_document,
}
use doc_lens.Intake.Postgres.{
  create_document_and_queue, get_document, get_document_status, stored_upload, control, check_owner,
  find_upload, insert_upload_row, insert_event_row, get_document_tx, document_row,
}
use doc_lens.Intake.Postgres.Uploads.{
  upload_document, upload_document_and_queue, upload_with, upload_in, upload_unless, upload_new,
  queue_document, queued_document, queue_event,
}
use doc_lens.Intake.Postgres.Intents.{create_upload_intent, intent_unless, confirm_upload}
use doc_lens.Intake.Postgres.Atomic.{uploads_and_queues, step, failed_call_rolls_back}
use doc_lens.Intake.Postgres.Tenancy.{foreign_document_refused}
use doc_lens.Intake.Postgres.Outcome.{IsUploaded, IsRepeated, upload_and_queue_outcome}
use doc_lens.Intake.Postgres.Created.{with_created, create_then_get}
use doc_lens.Intake.Postgres.NoIntents.{no_intent_is_created}
use doc_lens.Intake.Postgres.Events.{event_id}
use doc_lens.Intake.Outbox.{run_outbox_publisher}
use doc_lens.Intake.Published.{uploaded_is_published}
use doc_lens.Intake.Tests.Rounds.{a_publisher, a_turn}
use doc_lens.Intake.Tests.{an_upload, a_document, an_event}

abbrev a_server : Sql
a_server = record {
  fault = λ s. none;
  violation = λ v. "constraint";
  no_rows = "no rows in result set";
  valid_json = λ payload. true;
  jsonb = λ payload. "{ }";
}

abbrev no_tables : Database
no_tables = record { documents = []; jobs = []; uploads = []; events = [] }

abbrev first : UploadRecord
first = an_upload "upl_1" "k1"

-- A document without uploads.
abbrev one_document : Database
one_document = record no_tables { documents = a_document ∷ [] }

-- The tables of another organization's document.
foreign_document_refused_example :
    (upload_document a_server 2500 "org_2" "doc_1" first one_document
      ≡ (err organization_mismatch, one_document))
    × (upload_document_and_queue a_server 2500 "org_2" "doc_1" first an_event one_document
        ≡ (err organization_mismatch, one_document))
    × (create_upload_intent a_server "org_2" "doc_1" first one_document
        ≡ (err organization_mismatch, one_document))
    × (get_document a_server "org_2" "doc_1" one_document ≡ (err document_not_found, one_document))
    × (get_document_status a_server "org_2" "doc_1" one_document
        ≡ (err document_not_found, one_document))
    × (confirm_upload a_server 2500 "org_2" "doc_1" "upl_1" (pos 3) "" an_event one_document
        ≡ (err upload_not_found, one_document))
foreign_document_refused_example =
    foreign_document_refused a_server (λ s. refl) "org_2" "doc_1" one_document refl refl 2500 first
      an_event "upl_1" "" (pos 3) (record { jobs = tt; uploads = tt; sizes = tt })

-- A server whose commits fail.
abbrev without_commit : Sql
without_commit = record a_server { fault = λ s. elim s [ commit ↦ some "down" | _ ↦ none ] }

abbrev refused_call : Option StoreError × Database
refused_call = (some (failure "commit upload transaction: down"), one_document)

failed_call_rolls_back_example : refused_call.1 ≡ one_document
unfolding step upload_document_and_queue upload_with upload_in control check_owner find_upload
    upload_unless upload_new insert_upload_row insert_event_row queue_document queued_document
    queue_event get_document_tx document_row select has_key has_event update statement query
    transaction put_job add_job add_upload add_event has_document stored_upload micros ◌>>=◌
failed_call_rolls_back_example =
    failed_call_rolls_back without_commit (uploads_and_queues 2500 "org_1" "doc_1" first an_event)
      one_document refused_call.1 (failure "commit upload transaction: down") refl refl

abbrev uploaded : Document
uploaded = record a_document {
  uploads = first ∷ [];
  status = processing;
  processing_job_status = queued;
  storage_ref = "r2://docs/a.pdf";
  size_bytes = pos 3;
  updated_at = 2500;
}

abbrev one_upload : Database
one_upload = record {
  documents = record uploaded { uploads = []; updated_at = 2000 } ∷ [];
  jobs =
      record {
        id = "job_doc_1";
        document_id = "doc_1";
        organization_id = "org_1";
        status = queued;
        created_at = 2000;
        updated_at = 2000;
      }
      ∷ [];
  uploads =
      record first {
        status = confirmed;
        upload_method = proxied;
        expected_size = pos 0;
        created_at = 0;
      }
      ∷ [];
  events = waiting_row (record an_event { payload = "{ }" }) ∷ [];
}

upload_and_queue_outcome_example :
    IsUploaded a_server 2500 "org_1" "doc_1" first an_event one_document one_upload uploaded
    ⊎ IsRepeated "org_1" "doc_1" first one_document one_upload uploaded
unfolding upload_document_and_queue upload_with upload_in control check_owner find_upload
    upload_unless upload_new insert_upload_row insert_event_row queue_document queued_document
    queue_event get_document_tx document_row select has_key has_event update statement query
    transaction put_job add_job add_upload add_event has_document stored_upload micros ◌>>=◌
upload_and_queue_outcome_example =
    upload_and_queue_outcome a_server 2500 "org_1" "doc_1" first an_event one_document one_upload
      uploaded refl

uploaded_is_published_example :
    (row : EventRow) × (get_elem?
        (run_outbox_publisher a_publisher a_turn 1 (one_upload, [])).0.events
        0
      ≡ some row)
    × (row.event ≡ record an_event { payload = "{ }"; created_at = micros 1 })
    × (row.status ≡ published)
unfolding upload_document_and_queue upload_with upload_in control check_owner find_upload
    upload_unless upload_new insert_upload_row insert_event_row queue_document queued_document
    queue_event get_document_tx document_row select has_key has_event update statement query
    transaction put_job add_job add_upload add_event has_document stored_upload micros ◌>>=◌
uploaded_is_published_example =
    uploaded_is_published a_publisher a_turn 5 1 (λ m w. refl) (λ i j s. refl) (λ i. omega arith)
      a_server 2500 "org_1" "doc_1" first an_event one_document one_upload uploaded [] refl refl
      refl tt tt tt (omega arith)

create_then_get_example :
    (create_document_and_queue a_server a_document first an_event no_tables ≡ (
      ok (with_upload a_document first),
      with_created a_server a_document first an_event no_tables,
    ))
    × (get_document a_server "org_1" "doc_1"
          (with_created a_server a_document first an_event no_tables)
        ≡ (
          ok (record a_document {
            uploads =
                record first {
                  status = confirmed;
                  upload_method = proxied;
                  expected_size = pos 0;
                  confirmed_at = none;
                  created_at = micros 1;
                }
                ∷ [];
            created_at = micros 0;
            updated_at = micros 0;
          }),
          with_created a_server a_document first an_event no_tables,
        ))
unfolding has_event has_key
create_then_get_example =
    create_then_get a_server a_document first an_event no_tables (λ s. refl)
      (record {
        document_size = refl;
        upload_size = refl;
        payload = refl;
        document_id = refl;
        job = refl;
        upload = refl;
        key = refl;
        event_id = refl;
      })
      refl refl (record { jobs = tt; uploads = tt; sizes = tt })

no_intent_is_created_example :
    (one_upload ≡ one_upload)
    × (select (has_key "org_1" "k1") one_upload.uploads
        ≡ some (record first {
          status = confirmed;
          upload_method = proxied;
          expected_size = pos 0;
          created_at = 0;
        }))
unfolding create_upload_intent intent_unless check_owner find_upload query statement select has_key
    ◌>>=◌
no_intent_is_created_example =
    no_intent_is_created a_server "org_1" "doc_1" (an_upload "upl_2" "k1") _ one_upload one_upload
      refl
