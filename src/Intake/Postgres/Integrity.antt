-- ===== src/Intake/Postgres/Integrity.antt =====
-- `PostgresStore` of internal/store/postgres.go and the references between its tables.
use doc_lens.Base.{
  micros, ℕ, ℤ, pos, String, ◌≡◌, refl, ap, subst, ◌∙◌, Bool, true, false, ◌&&◌, not, List, [], ◌∷◌,
  ◌++◌, none, arith, Result, ok, err, any, All, Preorder, ◌==◌, string_eq, ltb_ℤ, Bool-cases, inl,
  inr,
}
use doc_lens.Intake.Types.{UploadRecord, Document, OutboxEvent}
use doc_lens.Intake.Database.{
  JobRow, Database, Sql, Violation, first_of, update, has_document, has_event, add_document,
  add_job, put_job, add_upload, add_event, put_event, foreign_key_violation,
}
use doc_lens.Intake.Database.Rows.{
  any-append, any-update, All-append, All-imp, All-update, update_none,
}
use doc_lens.Intake.Postgres.Uploads.{queued_document}
use doc_lens.Intake.Postgres.Intents.{set_confirmed, confirmed_upload, is_upload}
use doc_lens.Intake.Postgres.Success.{unless_ok}
use doc_lens.Intake.Postgres.Atomic.{Call, step}
use doc_lens.Intake.Postgres.Rules.{Respected, Respected-step}

-- The organization's document that a job or an upload names is there.
abbrev pub HasDocument : Database → String → String → Type 0
HasDocument d organization_id document_id = has_document organization_id document_id d ≡ true

pub record IsIntact (d : Database) : Type 0 where
  pub jobs : All (λ job. HasDocument d job.organization_id job.document_id) d.jobs
  pub uploads : All (λ u. HasDocument d u.organization_id u.document_id) d.uploads
  pub sizes : All (λ u. ltb_ℤ (pos 0) u.size_bytes ≡ true) d.uploads

pub record Intact (d d' : Database) : Type 0 where
  pub keeps : IsIntact d → IsIntact d'

instance abbrev pub intact_preorder : Preorder Intact
intact_preorder = record {
  reflexive = λ d. record { keeps = λ h. h };
  transitive = λ d e f a b. record { keeps = λ h. b.keeps (a.keeps h) };
}

-- The documents that are there stay there.
grown :
    (org id : String) (d : Database) (doc : Document)
    → HasDocument d org id
    → HasDocument (record d { documents = d.documents ++ doc ∷ [] }) org id
unfolding has_document
grown org id d doc h =
    ground
      (arith, any-append (λ row. row.organization_id == org && row.id == id) d.documents (doc ∷ []))

queued :
    (ref o i org id : String) (size : ℤ) (now : ℕ) (d : Database)
    → HasDocument d o i
    → HasDocument
        (record d {
          documents =
              update
                (λ row. row.organization_id == org && row.id == id)
                (queued_document ref size now)
                d.documents;
        })
        o
        i
unfolding has_document queued_document
queued ref o i org id size now d h = any-update _ _ _ d.documents (λ a. refl) ∙ h

-- Tables whose documents are still there and whose other rows are the same.
same_rows :
    (d : Database) (docs : List Document)
    → ((o i : String) → HasDocument d o i → HasDocument (record d { documents = docs }) o i)
    → IsIntact d
    → IsIntact (record d { documents = docs })
same_rows d docs f h = record {
  jobs = All-imp _ _ d.jobs (λ job. f job.organization_id job.document_id) h.jobs;
  uploads = All-imp _ _ d.uploads (λ u. f u.organization_id u.document_id) h.uploads;
  sizes = h.sizes;
}

add_document-Intact :
    (doc : Document) (d d' : Database) → add_document doc d ≡ ok (tt, d') → IsIntact d → IsIntact d'
unfolding add_document
add_document-Intact doc d d' e h =
    subst IsIntact (ap (λ (x : Unit × Database). x.1) (unless_ok _ _ _ e).1)
      (same_rows d _ (λ o i. grown o i d _) h)

-- A row that passed the checks refers to a document.
referred :
    (broken : Bool) (v : Violation) (d : Database) (org id : String)
    → first_of broken v (first_of (not (has_document org id d)) foreign_key_violation none) ≡ none
    → HasDocument d org id
referred broken v d org id h = ground arith

add_job-Intact :
    (job : JobRow) (d d' : Database) → add_job job d ≡ ok (tt, d') → IsIntact d → IsIntact d'
unfolding add_job
add_job-Intact job d d' e h =
    let (fine, result) = unless_ok _ _ _ e in
    subst IsIntact (ap (λ (x : Unit × Database). x.1) result) (record {
      jobs = All-append _ d.jobs (job ∷ []) h.jobs (referred _ _ d _ _ fine, tt);
      uploads = h.uploads;
      sizes = h.sizes;
    })

put_job-Intact :
    (job : JobRow) (d d' : Database) → put_job job d ≡ ok (tt, d') → IsIntact d → IsIntact d'
unfolding put_job has_document
put_job-Intact job d d' e h = either (any (λ row. row.id == job.id) d.jobs) refl
  where
    tables : Result Violation (Unit × Database) → Database
    tables (ok (u, t)) = t
    tables (err v) = d

    either : (b : Bool) → any (λ row. row.id == job.id) d.jobs ≡ b → IsIntact d'
    either false fresh = add_job-Intact job d d' (rw fresh at e) h
    either true known = subst IsIntact (ap tables (rw known at e)) (record {
      jobs = All-update _ _ _ d.jobs (λ a k. k) h.jobs;
      uploads = h.uploads;
      sizes = h.sizes;
    })

add_upload-Intact :
    (u : UploadRecord) (d d' : Database) → add_upload u d ≡ ok (tt, d') → IsIntact d → IsIntact d'
unfolding add_upload
add_upload-Intact u d d' e h =
    let (fine, result) = unless_ok _ _ _ e in
    subst IsIntact (ap (λ (x : Unit × Database). x.1) result) (record {
      jobs = h.jobs;
      uploads = All-append _ d.uploads (u ∷ []) h.uploads (ground (arith, fine), tt);
      sizes = All-append _ d.uploads (u ∷ []) h.sizes (ground (arith, fine), tt);
    })

add_event-Intact :
    (event : OutboxEvent) (d d' : Database)
    → add_event event d ≡ ok (tt, d')
    → IsIntact d
    → IsIntact d'
unfolding add_event has_document
add_event-Intact event d d' e h =
    subst IsIntact (ap (λ (x : Unit × Database). x.1) (unless_ok _ _ _ e).1)
      (record { jobs = h.jobs; uploads = h.uploads; sizes = h.sizes })

set_confirmed-Intact :
    (now : ℕ) (org id upload_id : String) (size : ℤ) (checksum : String) (d d' : Database)
    → set_confirmed now org id upload_id size checksum d ≡ ok (tt, d')
    → IsIntact d
    → IsIntact d'
unfolding set_confirmed confirmed_upload is_upload has_document
set_confirmed-Intact now org id upload_id size checksum d d' e h =
    let (fine, result) = unless_ok _ _ _ e in
    subst IsIntact (ap (λ (x : Unit × Database). x.1) result) (record {
      jobs = h.jobs;
      uploads = All-update _ _ _ d.uploads (λ a k. k) h.uploads;
      sizes = elim (Bool-cases (any (is_upload org id upload_id) d.uploads)) [
        | inl found ↦ All-update _ _ _ d.uploads (λ a k. ground (arith, fine, found)) h.sizes
        | inr missing ↦
            rw (update_none _ (confirmed_upload (micros now) size checksum) d.uploads missing)
              h.sizes
      ];
    })

put_event-Intact :
    (event : OutboxEvent) (d d' : Database)
    → put_event event d ≡ ok (tt, d')
    → IsIntact d
    → IsIntact d'
unfolding put_event has_document
put_event-Intact event d d' e h = either (has_event event.id d) refl
  where
    tables : Result Violation (Unit × Database) → Database
    tables (ok (u, t)) = t
    tables (err v) = d

    either : (b : Bool) → has_event event.id d ≡ b → IsIntact d'
    either true known = subst IsIntact (ap tables (rw known at e)) h
    either false fresh =
        subst IsIntact (ap tables (rw fresh at e))
          (record { jobs = h.jobs; uploads = h.uploads; sizes = h.sizes })

Intact-Respected : Respected Intact
Intact-Respected = record {
  by_add_document = λ doc d d' e. record { keeps = add_document-Intact doc d d' e };
  by_add_job = λ job d d' e. record { keeps = add_job-Intact job d d' e };
  by_put_job = λ job d d' e. record { keeps = put_job-Intact job d d' e };
  by_add_upload = λ u d d' e. record { keeps = add_upload-Intact u d d' e };
  by_add_event = λ event d d' e. record { keeps = add_event-Intact event d d' e };
  by_put_event = λ event d d' e. record { keeps = put_event-Intact event d d' e };
  by_queued_document = λ ref org id size now d. record {
    keeps = same_rows d _ (λ o i. queued ref o i org id size now d);
  };
  by_set_confirmed = λ now org id upload_id size checksum d d' e. record {
    keeps = set_confirmed-Intact now org id upload_id size checksum d d' e;
  };
}

-- Any call, whether it succeeds or fails, keeps the tables intact: every job and every upload names
-- a document of its organization, and every upload has a positive size.
pub step-IsIntact : (q : Sql) (c : Call) (d : Database) → IsIntact d → IsIntact (step q c d).1
step-IsIntact q c d h = (Respected-step Intact-Respected q c d).keeps h
