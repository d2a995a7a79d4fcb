-- ===== src/Intake/Postgres/Rules.antt =====
-- `PostgresStore` of internal/store/postgres.go: how its calls are built from writes to the tables, and
-- relations between the tables that every write respects.
use doc_lens.Base.{
  ℕ, ℤ, String, ◌≡◌, subst, Option, none, some, arith, Result, ok, err, Exec, Preorder, Moves,
  Moves-bind, Moves-require_some, Moves-pure, Moves-if, Moves-check, pure, ◌&&◌, ◌==◌, string_eq,
}
use doc_lens.Intake.Types.{UploadRecord, Document, OutboxEvent, StoreError}
use doc_lens.Intake.Database.{
  JobRow, Database, Sql, query, update, add_document, add_job, put_job, add_upload, add_event,
  put_event, select, has_key, select_key,
}
use doc_lens.Intake.Postgres.{
  wrap, create_document, insert_upload_row, insert_event_row, create_and_queue,
  create_document_and_queue, get_document, get_document_tx, check_owner, find_upload,
}
use doc_lens.Intake.Postgres.Uploads.{
  queued_document, queue_document, queue_event, upload_new, upload_unless, upload_in, upload_with,
  upload_document, upload_document_and_queue,
}
use doc_lens.Intake.Postgres.Intents.{
  set_confirmed, create_upload_intent, intent_unless, confirm_pending, confirm_unless, confirm_in,
  confirm_upload,
}
use doc_lens.Intake.Postgres.Atomic.{
  Call, creates, queues, gets, uploads, uploads_and_queues, intends, confirms, step, without_answer,
}
use doc_lens.Intake.Postgres.Moves.{
  Moves-test, Moves-statement, Moves-query, Moves-control, Moves-transaction,
}

-- The writes.
pub record Respected (R : Database → Database → Type 0) : Type 0 where
  pub by_add_document :
      (doc : Document) (d d' : Database) → add_document doc d ≡ ok (tt, d') → R d d'
  pub by_add_job : (job : JobRow) (d d' : Database) → add_job job d ≡ ok (tt, d') → R d d'
  pub by_put_job : (job : JobRow) (d d' : Database) → put_job job d ≡ ok (tt, d') → R d d'
  pub by_add_upload : (u : UploadRecord) (d d' : Database) → add_upload u d ≡ ok (tt, d') → R d d'
  pub by_add_event :
      (event : OutboxEvent) (d d' : Database) → add_event event d ≡ ok (tt, d') → R d d'
  pub by_put_event :
      (event : OutboxEvent) (d d' : Database) → put_event event d ≡ ok (tt, d') → R d d'
  pub by_queued_document :
      (storage_ref org id : String) (size : ℤ) (now : ℕ) (d : Database)
      → R d (record d {
        documents =
            update
              (λ row. row.organization_id == org && row.id == id)
              (queued_document storage_ref size now)
              d.documents;
      })
  pub by_set_confirmed :
      (now : ℕ) (org id upload_id : String) (size : ℤ) (checksum : String) (d d' : Database)
      → set_confirmed now org id upload_id size checksum d ≡ ok (tt, d')
      → R d d'

module _ {R : Database → Database → Type 0} ⦃p : Preorder R⦄ where
  module _ (w : Respected R) where
    Moves-create : (q : Sql) (doc : Document) (d : Database) → Moves R (create_document q doc) d
    unfolding create_document
    Moves-create q doc d =
        Moves-bind _ _ d (Moves-statement q _ _ _ d (λ a d'. w.by_add_document doc d d')) λ a e.
          Moves-bind _ _ _ (Moves-statement q _ _ _ _ (λ b d'. w.by_add_job _ _ d'))
            λ b f. Moves-pure doc _

    Moves-insert_upload :
        (q : Sql) (u : UploadRecord) (d : Database) → Moves R (insert_upload_row q u) d
    unfolding insert_upload_row
    Moves-insert_upload q u d = Moves-statement q _ _ _ d (λ a d'. w.by_add_upload _ d d')

    Moves-insert_event :
        (q : Sql) (event : OutboxEvent) (d : Database) → Moves R (insert_event_row q event) d
    unfolding insert_event_row
    Moves-insert_event q event d =
        Moves-check _ _ _ d λ e. Moves-statement q _ _ _ d (λ a d'. w.by_add_event _ d d')

    Moves-create_and_queue :
        (q : Sql) (doc : Document) (u : UploadRecord) (event : OutboxEvent) (d : Database)
        → Moves R (create_and_queue q doc u event) d
    unfolding create_and_queue
    Moves-create_and_queue q doc u event d = Moves-bind _ _ d (Moves-control q _ _ d) λ a e.
        Moves-bind _ _ _ (Moves-create q doc _) λ a e.
          Moves-bind _ _ _ (Moves-insert_upload q u _) λ a e.
            Moves-bind _ _ _ (Moves-insert_event q event _)
              λ a e. Moves-bind _ _ _ (Moves-control q _ _ _) λ a e. Moves-pure _ _

    Moves-queue_document :
        (q : Sql) (prefix : String) (now : ℕ) (org id ref : String) (size : ℤ) (d : Database)
        → Moves R (queue_document q prefix now org id ref size) d
    unfolding queue_document
    Moves-queue_document q prefix now org id ref size d =
        Moves-bind _ _ d
          (Moves-statement q _ _ _ d
            (λ a d' e. subst (R d) (ground arith) (w.by_queued_document ref org id size now d)))
          λ a e. Moves-statement q _ _ _ _ (λ b d'. w.by_put_job _ _ d')

    Moves-queue_event :
        (q : Sql) (event : Option OutboxEvent) (d : Database) → Moves R (queue_event q event) d
    unfolding queue_event
    Moves-queue_event q none d = Moves-pure tt d
    Moves-queue_event q (some event) d = Moves-insert_event q event d

    Moves-get_tx : (q : Sql) (org id : String) (d : Database) → Moves R (get_document_tx q org id) d
    unfolding get_document_tx
    Moves-get_tx q org id d =
        Moves-bind _ _ d (Moves-query q _ _ _ d) λ a e. Moves-require_some a _ _

    Moves-upload_unless :
        (q : Sql) (now : ℕ) (org id : String) (u : UploadRecord) (event : Option OutboxEvent)
        (existing : Option UploadRecord) (d : Database)
        → Moves R (upload_unless q now org id u event existing) d
    unfolding upload_unless upload_new
    Moves-upload_unless q now org id u event (some existing) d =
        Moves-bind _ _ d (Moves-get_tx q org id d) λ a e. Moves-pure _ _
    Moves-upload_unless q now org id u event none d =
        Moves-bind _ _ d (Moves-insert_upload q u d) λ a e.
          Moves-bind _ _ _ (Moves-queue_document q _ now org id _ _ _) λ a e.
            Moves-bind _ _ _ (Moves-queue_event q event _) λ a e.
              Moves-bind _ _ _ (Moves-get_tx q org id _)
                λ a e. Moves-bind _ _ _ (Moves-control q _ _ _) λ a e. Moves-pure _ _

    Moves-check_owner :
        (q : Sql) (prefix org id : String) (d : Database) → Moves R (check_owner q prefix org id) d
    unfolding check_owner
    Moves-check_owner q prefix org id d =
        Moves-bind _ _ d (Moves-query q _ _ _ d)
          λ a e. Moves-bind _ _ _ (Moves-require_some a _ _) λ doc e. Moves-test _ _ _

    Moves-find_upload :
        (q : Sql) (prefix org key : String) (d : Database)
        → Moves R (find_upload q prefix org key) d
    unfolding find_upload
    Moves-find_upload q prefix org key d =
        Moves-if (key == "") (pure none)
          (query q select_key (wrap prefix) (λ t. select (has_key org key) t.uploads)) d
          (λ e. Moves-pure none d) (λ e. Moves-query q _ _ _ d)

    Moves-upload_in :
        (q : Sql) (now : ℕ) (org id : String) (u : UploadRecord) (event : Option OutboxEvent)
        (d : Database)
        → Moves R (upload_in q now org id u event) d
    unfolding upload_in
    Moves-upload_in q now org id u event d = Moves-bind _ _ d (Moves-control q _ _ d) λ a e.
        Moves-bind _ _ _ (Moves-check_owner q _ org id _) λ a e.
          Moves-bind _ _ _ (Moves-find_upload q _ org _ _)
            λ existing e. Moves-upload_unless q now org id u event existing _

    Moves-intent_unless :
        (q : Sql) (u : UploadRecord) (existing : Option UploadRecord) (d : Database)
        → Moves R (intent_unless q u existing) d
    unfolding intent_unless
    Moves-intent_unless q u (some existing) d = Moves-pure existing d
    Moves-intent_unless q u none d =
        Moves-bind _ _ d (Moves-statement q _ _ _ d (λ a d'. w.by_add_upload _ d d'))
          λ a e. Moves-pure _ _

    Moves-create_upload_intent :
        (q : Sql) (org id : String) (u : UploadRecord) (d : Database)
        → Moves R (create_upload_intent q org id u) d
    unfolding create_upload_intent
    Moves-create_upload_intent q org id u d =
        Moves-bind _ _ d (Moves-check_owner q _ org id d) λ a e.
          Moves-bind _ _ _ (Moves-find_upload q _ org _ _)
            λ existing e. Moves-intent_unless q u existing _

    Moves-confirm_pending :
        (q : Sql) (now : ℕ) (org id upload_id : String) (size : ℤ) (checksum : String)
        (event : OutboxEvent) (u : UploadRecord) (d : Database)
        → Moves R (confirm_pending q now org id upload_id size checksum event u) d
    unfolding confirm_pending
    Moves-confirm_pending q now org id upload_id size checksum event u d = Moves-check _ _ _ d λ e.
        Moves-check _ _ _ d λ e. Moves-check _ _ _ d λ e.
          Moves-bind _ _ d
            (Moves-statement q _ _ _ d
              (λ a d'. w.by_set_confirmed now org id upload_id size checksum d d'))
            λ a e. Moves-bind _ _ _ (Moves-queue_document q _ now org id _ size _) λ a e.
              Moves-check _ _ _ _ λ e.
                Moves-bind _ _ _ (Moves-statement q _ _ _ _ (λ a d'. w.by_put_event _ _ d'))
                  λ a e. Moves-bind _ _ _ (Moves-control q _ _ _) λ a e. Moves-pure _ _

    Moves-confirm_in :
        (q : Sql) (now : ℕ) (org id upload_id : String) (size : ℤ) (checksum : String)
        (event : OutboxEvent) (d : Database)
        → Moves R (confirm_in q now org id upload_id size checksum event) d
    unfolding confirm_in confirm_unless
    Moves-confirm_in q now org id upload_id size checksum event d =
        Moves-bind _ _ d (Moves-control q _ _ d) λ a e.
          Moves-bind _ _ _ (Moves-query q _ _ _ _) λ found e.
            Moves-bind _ _ _ (Moves-require_some found _ _) λ u e.
              Moves-if _ _ _ _ (λ e. Moves-pure u _)
                (λ e. Moves-confirm_pending q now org id upload_id size checksum event u _)

    Moves-get : (q : Sql) (org id : String) (d : Database) → Moves R (get_document q org id) d
    unfolding get_document
    Moves-get q org id d = Moves-bind _ _ d (Moves-query q _ _ _ d) λ found e.
        Moves-bind _ _ _ (Moves-require_some found _ _) λ doc e.
          Moves-bind _ _ _ (Moves-query q _ _ _ _) λ us e.
            Moves-bind _ _ _ (Moves-control q _ _ _)
              λ a e. Moves-bind _ _ _ (Moves-control q _ _ _) λ a e. Moves-pure _ _

    after :
        {A : Type 0} (m : Exec Database StoreError A) (d : Database)
        → Moves R m d
        → R d (without_answer (m d)).1
    after {A = A} m d h = same (m d) h.at
      where
        same : (r : Result StoreError A × Database) → R d r.1 → R d (without_answer r).1
        same (ok a, d') h = h
        same (err e, d') h = h

    -- Each call.
    pub Respected-step : (q : Sql) (c : Call) (d : Database) → R d (step q c d).1
    unfolding step create_document_and_queue upload_document upload_document_and_queue upload_with
        confirm_upload
    Respected-step q (creates doc) d = after _ d (Moves-create q doc d)
    Respected-step q (queues doc u event) d =
        after _ d (Moves-transaction _ d (Moves-create_and_queue q doc u event d))
    Respected-step q (gets org id) d = after _ d (Moves-get q org id d)
    Respected-step q (uploads now org id u) d =
        after _ d (Moves-transaction _ d (Moves-upload_in q now org id u none d))
    Respected-step q (uploads_and_queues now org id u event) d =
        after _ d (Moves-transaction _ d (Moves-upload_in q now org id u (some event) d))
    Respected-step q (intends org id u) d = after _ d (Moves-create_upload_intent q org id u d)
    Respected-step q (confirms now org id upload_id size checksum event) d =
        after _ d
          (Moves-transaction _ d (Moves-confirm_in q now org id upload_id size checksum event d))
