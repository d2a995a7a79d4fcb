-- ===== src/Intake/Postgres/Parts.antt =====
-- The parts of an upload of internal/store/postgres.go: what each has done when it succeeded.
use doc_lens.Base.{
  ℕ, ℤ, String, ◌≡◌, refl, ◌∙◌, Bool, true, false, ◌&&◌, List, [], ◌∷◌, ◌++◌, Option, some, none,
  arith, ok, any, ◌==◌, string_eq, eq_refl, Bool-cases, inl, inr, bind_ok, pure_ok, check_ok,
  require_some_ok, pure, if◌then◌else◌,
}
use doc_lens.Intake.Types.{UploadRecord, Document, OutboxEvent, JobStatus, queued}
use doc_lens.Intake.Database.{
  JobRow, Database, Sql, query, update, select, has_key, put_job, add_job, add_upload, add_event,
  waiting_row, select_key,
}
use doc_lens.Intake.Database.Rows.{any-append}
use doc_lens.Intake.Postgres.{
  wrap, insert_upload_row, stored_upload, insert_event_row, get_document_tx, document_row,
  check_owner, find_upload, job_id, job_row,
}
use doc_lens.Intake.Postgres.Uploads.{queued_document, queue_document}
use doc_lens.Intake.Postgres.Success.{statement_ok, query_ok, unless_ok}

-- Whether the document has a queued job.
abbrev pub is_queued : JobStatus → Bool
is_queued queued = true
is_queued _ = false

unfoldable pub has_queued_job : String → Database → Bool
has_queued_job id d = any (λ job. job.id == job_id id && is_queued job.status) d.jobs

pub insert_upload_ok :
    (q : Sql) (u : UploadRecord) (d d' : Database)
    → insert_upload_row q u d ≡ (ok tt, d')
    → d' ≡ record d { uploads = d.uploads ++ stored_upload u ∷ [] }
unfolding insert_upload_row add_upload
insert_upload_ok q u d d' h =
    ground
      (arith, (unless_ok _ _ _ (statement_ok q _ _ (add_upload (stored_upload u)) d d' tt h)).1)

pub insert_event_ok :
    (q : Sql) (event : OutboxEvent) (d d' : Database)
    → insert_event_row q event d ≡ (ok tt, d')
    → d' ≡ record d {
      events = d.events ++ waiting_row (record event { payload = q.jsonb event.payload }) ∷ [];
    }
unfolding insert_event_row add_event
insert_event_ok q event d d' h =
    let (u, t, checked, k) = bind_ok _ _ d tt d' h in
    let (valid, same) = check_ok _ _ d t checked in
    let added = unless_ok _ _ _ (
      statement_ok q _ _ (add_event (record event { payload = q.jsonb event.payload })) t d' tt
        k) in
    rw same (ground (arith, added.1))

-- The job that `put_job` wrote is there, whether it was before or not.
updated_job :
    (job : JobRow) (xs : List JobRow)
    → is_queued job.status ≡ true
    → any (λ row. row.id == job.id) xs ≡ true
    → any
        (λ row. row.id == job.id && is_queued row.status)
        (update
          (λ row. row.id == job.id)
          (λ row. record row { status = job.status; updated_at = job.updated_at })
          xs)
      ≡ true
unfolding update
updated_job job [] s h = ground arith
updated_job job (x ∷ xs) s h = ground (arith, updated_job job xs s)

put_job_ok :
    (job : JobRow) (d d' : Database)
    → is_queued job.status ≡ true
    → put_job job d ≡ ok (tt, d')
    → (d' ≡ record d { jobs = d'.jobs })
      × (any (λ row. row.id == job.id && is_queued row.status) d'.jobs ≡ true)
unfolding put_job add_job
put_job_ok job d d' s h = elim (Bool-cases (any (λ row. row.id == job.id) d.jobs)) [
  | inl known ↦ ground (arith, updated_job job d.jobs s known)
  | inr fresh ↦ ground (
    arith,
    any-append (λ row. row.id == job.id && is_queued row.status) d.jobs (job ∷ []),
    eq_refl job.id,
  )
]

pub queue_document_ok :
    (q : Sql) (prefix : String) (now : ℕ) (org id ref : String) (size : ℤ) (d d' : Database)
    → queue_document q prefix now org id ref size d ≡ (ok tt, d')
    → (d' ≡ record d {
      documents =
          update
            (λ row. row.organization_id == org && row.id == id)
            (queued_document ref size now)
            d.documents;
      jobs = d'.jobs;
    })
      × (has_queued_job id d' ≡ true)
unfolding queue_document has_queued_job
queue_document_ok q prefix now org id ref size d d' h =
    let (a, t, changed, k) = bind_ok _ _ d tt d' h in
    let first = statement_ok q _ _ _ d t a changed in
    let (rest, job) =
      put_job_ok (job_row id org queued now now) t d' refl
        (statement_ok q _ _ (put_job _) t d' tt k) in
    (ground (arith, first, rest), job)

pub get_tx_ok :
    (q : Sql) (org id : String) (d d' : Database) (doc : Document)
    → get_document_tx q org id d ≡ (ok doc, d')
    → (document_row org id d ≡ some doc) × (d ≡ d')
unfolding get_document_tx
get_tx_ok q org id d d' doc h =
    let (found, t, read, k) = bind_ok _ _ d doc d' h in
    let (e, same) = query_ok q _ _ _ d t found read in
    let (f, same') = require_some_ok found _ doc t d' k in (e ∙ f, same ∙ same')

pub check_owner_ok :
    (q : Sql) (prefix org id : String) (d d' : Database)
    → check_owner q prefix org id d ≡ (ok tt, d')
    → d ≡ d'
unfolding check_owner
check_owner_ok q prefix org id d d' h =
    let (found, t, read, k) = bind_ok _ _ d tt d' h in
    let (doc, t', required, k') = bind_ok _ _ t tt d' k in
    let here = (query_ok q _ _ _ d t found read).1 in
    let there = (require_some_ok found _ doc t t' required).1 in
    here ∙ there ∙ (check_ok _ _ t' d' k').1

-- No upload has the empty key.
no_key :
    (org key : String) (xs : List UploadRecord)
    → (key == "") ≡ true
    → select (has_key org key) xs ≡ none
unfolding select has_key
no_key org key [] h = refl
no_key org key (x ∷ xs) h = ground (arith, no_key org key xs h)

pub find_upload_ok :
    (q : Sql) (prefix org key : String) (d d' : Database) (o : Option UploadRecord)
    → find_upload q prefix org key d ≡ (ok o, d')
    → (select (has_key org key) d.uploads ≡ o) × (d ≡ d')
unfolding find_upload
find_upload_ok q prefix org key d d' o h = either (key == "") refl h
  where
    either :
        (b : Bool)
        → (key == "") ≡ b
        → (if b
              then pure none
              else query q select_key (wrap prefix) (λ t. select (has_key org key) t.uploads))
            d
          ≡ (ok o, d')
        → (select (has_key org key) d.uploads ≡ o) × (d ≡ d')
    either true empty k =
        let (e, same) = pure_ok none o d d' k in (no_key org key d.uploads empty ∙ e, same)
    either false nonempty k = query_ok q _ _ _ d d' o k
