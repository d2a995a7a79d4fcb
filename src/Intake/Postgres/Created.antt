-- ===== src/Intake/Postgres/Created.antt =====
-- `PostgresStore` of internal/store/postgres.go: creating a document and reading it.
use doc_lens.Base.{
  micros, pos, String, ◌≡◌, refl, ap, true, false, ◌&&◌, List, [], ◌∷◌, ◌++◌, some, none, arith,
  Result, ok, any, All, ◌==◌, string_eq, eq_iff, eq_refl, ltb_ℤ, ltb, ◌>>=◌,
}
use doc_lens.Intake.Types.{UploadRecord, Document, OutboxEvent, StoreError, confirmed, proxied}
use doc_lens.Intake.Database.{
  begin, commit, insert_document, insert_job, insert_upload, insert_event, select_document,
  select_uploads, scan_uploads, iterate_uploads, Database, Sql, Statement, statement, query,
  transaction, order_by, has_key, has_document, has_event, add_document, add_job, add_upload,
  add_event, document_to_row, event_pending, with_upload,
}
use doc_lens.Intake.Database.Rows.{any-append, any_sub, select_last, select_all_last}
use doc_lens.Intake.Postgres.{
  wrap, control, insert_upload_row, stored_upload, insert_event_row, create_document,
  create_and_queue, create_document_and_queue, get_document, document_row, upload_rows, job_id,
}
use doc_lens.Intake.Postgres.Integrity.{IsIntact, HasDocument}

-- The ids and the idempotency key are not in use, and the rest passes the tables' checks.
pub record IsNew (q : Sql) (doc : Document) (u : UploadRecord) (event : OutboxEvent) (d : Database)
    : Type 0 where
  pub document_size : ltb_ℤ doc.size_bytes (pos 0) ≡ false
  pub upload_size : ltb_ℤ (pos 0) u.size_bytes ≡ true
  pub payload : q.valid_json event.payload ≡ true
  pub document_id : any (λ row. row.id == doc.id) d.documents ≡ false
  pub job : any (λ row. row.id == job_id doc.id) d.jobs ≡ false
  pub upload : any (λ row. row.id == u.id) d.uploads ≡ false
  pub key : any (has_key u.organization_id u.idempotency_key) d.uploads ≡ false
  pub event_id : has_event event.id d ≡ false

-- The tables after the creation: the document without uploads, its job, the upload, confirmed and
-- proxied, and the event, waiting, each at the end of its table, with times in microseconds.
unfoldable pub with_created : Sql → Document → UploadRecord → OutboxEvent → Database → Database
with_created q doc u event d = record {
  documents =
      d.documents
      ++ record doc {
        uploads = [];
        created_at = micros doc.created_at;
        updated_at = micros doc.updated_at;
      }
        ∷ [];
  jobs =
      d.jobs
      ++ record {
        id = job_id doc.id;
        document_id = doc.id;
        organization_id = doc.organization_id;
        status = doc.processing_job_status;
        created_at = micros doc.created_at;
        updated_at = micros doc.updated_at;
      }
        ∷ [];
  uploads =
      d.uploads
      ++ record u {
        status = confirmed;
        upload_method = proxied;
        expected_size = pos 0;
        confirmed_at = none;
        created_at = micros u.created_at;
      }
        ∷ [];
  events =
      d.events
      ++ record {
        event = record event {
          payload = q.jsonb event.payload;
          created_at = micros event.created_at;
        };
        status = event_pending;
        attempt_count = 0;
        next_attempt_at = micros event.created_at;
        last_error = "";
        published_at = none;
      }
        ∷ [];
}

statement_total :
    {A : Type 0} (q : Sql) (s : Statement) (wrap : String → StoreError)
    (run : Database → Result _ (A × Database)) (d d' : Database) (a : A)
    → q.fault s ≡ none
    → run d ≡ ok (a, d')
    → statement q s wrap run d ≡ (ok a, d')
unfolding statement
statement_total q s wrap run d d' a f e = rw (f, e)

query_total :
    {A : Type 0} (q : Sql) (s : Statement) (wrap : String → StoreError) (read : Database → A)
    (d : Database)
    → q.fault s ≡ none
    → query q s wrap read d ≡ (ok (read d), d)
unfolding query
query_total q s wrap read d f = statement_total q s wrap _ d d (read d) f refl

has_new :
    (doc : Document) (d : Database)
    → any
        (λ row. row.organization_id == doc.organization_id && row.id == doc.id)
        (d.documents ++ document_to_row doc ∷ [])
      ≡ true
has_new doc d = ground (
  arith,
  any-append (λ row. row.organization_id == doc.organization_id && row.id == doc.id) d.documents
      (document_to_row doc ∷ []),
  eq_refl doc.id,
  eq_refl doc.organization_id,
)

-- A document that is not there has no uploads.
no_uploads :
    (org id : String) (d : Database) (us : List UploadRecord)
    → has_document org id d ≡ false
    → All (λ u. HasDocument d u.organization_id u.document_id) us
    → any (λ row. row.organization_id == org && row.document_id == id) us ≡ false
no_uploads org id d [] h k = refl
no_uploads org id d (u ∷ us) h (k, ks) =
    ground
      (arith, no_uploads org id d us h ks, eq_iff u.organization_id org, eq_iff u.document_id id)

module _ (q : Sql) (doc : Document) (u : UploadRecord) (event : OutboxEvent) (d : Database)
    (works : (s : Statement) → q.fault s ≡ none) (fresh : IsNew q doc u event d)
    (of_document : u.document_id ≡ doc.id)
    (of_organization : u.organization_id ≡ doc.organization_id) where
  created :
      create_document_and_queue q doc u event d
      ≡ (ok (with_upload doc u), with_created q doc u event d)
  unfolding create_document_and_queue create_and_queue create_document control insert_upload_row
      insert_event_row query statement transaction with_created add_document add_job add_upload
      add_event ◌>>=◌ stored_upload
  created = ground (
    arith,
    works begin,
    works insert_document,
    works insert_job,
    works insert_upload,
    works insert_event,
    works commit,
    fresh,
    has_new doc d,
    of_document,
    of_organization,
  )

  absent : has_document doc.organization_id doc.id d ≡ false
  unfolding has_document
  absent = any_sub _ (λ row. row.id == doc.id) d.documents (λ a h. ground arith) fresh.document_id

  read_row :
      document_row doc.organization_id doc.id (with_created q doc u event d)
      ≡ some (document_to_row doc)
  unfolding document_row with_created has_document
  read_row =
      select_last _ d.documents (document_to_row doc) absent
        (ground (arith, eq_refl doc.organization_id, eq_refl doc.id))

  read_uploads :
      IsIntact d
      → upload_rows doc.organization_id doc.id (with_created q doc u event d) ≡ stored_upload u ∷ []
  unfolding upload_rows with_created stored_upload order_by
  read_uploads intact = ap (order_by (λ (a b : UploadRecord). ltb a.created_at b.created_at)) (
      select_all_last _ d.uploads (stored_upload u)
        (no_uploads doc.organization_id doc.id d d.uploads absent intact.uploads)
        (ground (arith, eq_iff u.organization_id doc.organization_id, eq_iff u.document_id doc.id)))

  -- On intact tables and with no statement failing, a document with its first upload and its event,
  -- all new, is created, and `GetDocument` then returns the document with that one upload, which
  -- is confirmed and proxied.
  pub create_then_get :
      IsIntact d
      → (create_document_and_queue q doc u event d
          ≡ (ok (with_upload doc u), with_created q doc u event d))
        × (get_document q doc.organization_id doc.id (with_created q doc u event d) ≡ (
          ok (record doc {
            uploads =
                record u {
                  status = confirmed;
                  upload_method = proxied;
                  expected_size = pos 0;
                  confirmed_at = none;
                  created_at = micros u.created_at;
                }
                ∷ [];
            created_at = micros doc.created_at;
            updated_at = micros doc.updated_at;
          }),
          with_created q doc u event d,
        ))
  unfolding get_document control query statement stored_upload ◌>>=◌
  create_then_get intact = (
    created,
    ground (
      arith,
      works select_document,
      works select_uploads,
      works scan_uploads,
      works iterate_uploads,
      read_row,
      read_uploads intact,
    ),
  )
