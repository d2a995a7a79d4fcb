-- ===== src/Intake/Postgres/Tenancy.antt =====
-- `PostgresStore` of internal/store/postgres.go: calls on a document of another organization.
use doc_lens.Base.{
  ℕ, ℤ, String, ◌≡◌, refl, true, false, ◌&&◌, List, [], ◌∷◌, none, some, arith, err, any, All, ◌==◌,
  string_eq, eq_iff, Bool-cases, inl, inr, ◌>>=◌,
}
use doc_lens.Intake.Types.{
  UploadRecord, Document, OutboxEvent, document_not_found, organization_mismatch, upload_not_found,
}
use doc_lens.Intake.Database.{
  Database, Sql, Statement, begin, select_owner, select_document, select_upload, statement, query,
  transaction, select, has_document,
}
use doc_lens.Intake.Postgres.{control, check_owner, document_row, get_document, get_document_status}
use doc_lens.Intake.Postgres.Uploads.{
  upload_document, upload_document_and_queue, upload_with, upload_in,
}
use doc_lens.Intake.Postgres.Intents.{create_upload_intent, confirm_upload, confirm_in, is_upload}
use doc_lens.Intake.Postgres.Integrity.{IsIntact, HasDocument}

-- The owner of the document that is read by its id is another organization.
other_owner :
    (org id : String) (rows : List Document)
    → any (λ row. row.id == id) rows ≡ true
    → any (λ row. row.organization_id == org && row.id == id) rows ≡ false
    → (row : Document) × (select (λ row. row.id == id) rows ≡ some row)
      × ((row.organization_id == org) ≡ false)
unfolding select
other_owner org id [] h k = absurd (ground arith)
other_owner org id (row ∷ rows) h k = elim (Bool-cases (row.id == id)) [
  | inl here ↦ (row, ground (arith, here), ground (arith, here, k))
  | inr behind ↦
      let (r, found, other) =
        other_owner org id rows (ground (arith, behind, h)) (ground (arith, k)) in
      (r, ground (arith, behind, found), other)
]

no_row :
    (org id : String) (rows : List Document)
    → any (λ row. row.organization_id == org && row.id == id) rows ≡ false
    → select (λ row. row.organization_id == org && row.id == id) rows ≡ none
unfolding select
no_row org id [] h = refl
no_row org id (row ∷ rows) h = ground (arith, no_row org id rows (ground (arith, h)))

-- A document that the organization does not have has no upload of it.
no_upload :
    (org id upload_id : String) (d : Database) (us : List UploadRecord)
    → has_document org id d ≡ false
    → All (λ u. HasDocument d u.organization_id u.document_id) us
    → select (is_upload org id upload_id) us ≡ none
unfolding select is_upload
no_upload org id upload_id d [] h k = refl
no_upload org id upload_id d (u ∷ us) h (k, ks) = ground (
  arith,
  no_upload org id upload_id d us h ks,
  eq_iff u.organization_id org,
  eq_iff u.document_id id,
)

module _ (q : Sql) (works : (s : Statement) → q.fault s ≡ none) (org id : String) (d : Database)
    (there : any (λ row. row.id == id) d.documents ≡ true)
    (foreign : any (λ row. row.organization_id == org && row.id == id) d.documents ≡ false) where
  owner_refused : (prefix : String) → check_owner q prefix org id d ≡ (err organization_mismatch, d)
  unfolding check_owner query statement ◌>>=◌
  owner_refused prefix =
      let (row, found, other) = other_owner org id d.documents there foreign in
      ground (arith, works select_owner, found, other)

  -- On intact tables and with no statement failing, a document that is there and belongs to other
  -- organizations only can neither be read nor written for this one: uploads and intents answer that
  -- the organization is another, reading answers that there is no such document, and confirming
  -- that there is no such upload, and no table changes.
  pub foreign_document_refused :
      (now : ℕ) (u : UploadRecord) (event : OutboxEvent) (upload_id checksum : String) (size : ℤ)
      → IsIntact d
      → (upload_document q now org id u d ≡ (err organization_mismatch, d))
        × (upload_document_and_queue q now org id u event d ≡ (err organization_mismatch, d))
        × (create_upload_intent q org id u d ≡ (err organization_mismatch, d))
        × (get_document q org id d ≡ (err document_not_found, d))
        × (get_document_status q org id d ≡ (err document_not_found, d))
        × (confirm_upload q now org id upload_id size checksum event d ≡ (err upload_not_found, d))
  unfolding upload_document upload_document_and_queue upload_with upload_in create_upload_intent
      get_document get_document_status document_row confirm_upload confirm_in control query
      statement transaction has_document ◌>>=◌
  foreign_document_refused now u event upload_id checksum size intact =
      let none_there = no_row org id d.documents foreign in
      let none_sent = no_upload org id upload_id d d.uploads foreign intact.uploads in
      (
        ground (arith, works begin, owner_refused "lock document"),
        ground (arith, works begin, owner_refused "lock document"),
        ground (arith, owner_refused "load document for upload intent"),
        ground (arith, works select_document, none_there),
        ground (arith, works select_document, none_there),
        ground (arith, works begin, works select_upload, none_sent),
      )
