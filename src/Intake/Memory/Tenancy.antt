-- ===== src/Intake/Memory/Tenancy.antt =====
-- `MemoryStore` keeps organizations apart, and a call that fails changes nothing.
use doc_lens.Base.{
  ℕ, ℤ, String, ◌≡◌, ◌≢◌, ap, inl, inr, Option, none, some, false, arith, eq_iff, ◌==◌, string_eq,
  lookup, lookup-insert_self, trim_space, Result, ok, err, ◌>>=◌, Bool-cases,
}
use doc_lens.Intake.Types.{UploadRecord, Document, OutboxEvent, StoreError, organization_mismatch}
use doc_lens.Intake.Memory.{
  MemoryStore, find, save, create_document, get_document, upload_document,
  create_document_and_queue, create_upload_intent, store_confirmation, confirm_upload,
}
use doc_lens.Intake.Memory.History.{Call, creates, gets, uploads, queues, intends, confirms, step}

-- A document of another organization can be neither read, nor uploaded to, nor given an intent,
-- nor confirmed: each call fails as a mismatch and leaves the store as it is.
pub other_organization_refused :
    (now : ℕ) (org id upload_id : String) (u : UploadRecord) (size : ℤ) (checksum : String)
    (event : OutboxEvent) (m : MemoryStore) (doc : Document)
    → lookup id m.docs ≡ some doc
    → trim_space doc.organization_id ≢ trim_space org
    → (get_document org id m ≡ (err organization_mismatch, m))
      × (upload_document now org id u m ≡ (err organization_mismatch, m))
      × (create_upload_intent now org id u m ≡ (err organization_mismatch, m))
      × (confirm_upload now org id upload_id size checksum event m ≡ (err organization_mismatch, m))
unfolding get_document upload_document create_upload_intent confirm_upload find ◌>>=◌
other_organization_refused now org id upload_id u size checksum event m doc found other =
    (ground (arith, trimmed), ground (arith, trimmed), ground (arith, exact), ground (arith, exact))
  where
    trimmed : (trim_space doc.organization_id == trim_space org) ≡ false
    trimmed = ground (arith, eq_iff (trim_space doc.organization_id) (trim_space org))

    exact : (doc.organization_id == org) ≡ false
    exact = elim (Bool-cases (doc.organization_id == org)) [
      | inl e ↦ absurd (other (ap trim_space ((eq_iff doc.organization_id org).0 e)))
      | inr e ↦ e
    ]

abbrev error_of : {A : Type 0} → Result StoreError A × MemoryStore → Option StoreError
error_of (ok a, m) = none
error_of (err e, m) = some e

-- The error that a call returns, if it fails.
unfoldable pub failed : MemoryStore → Call → Option StoreError
failed m (creates doc) = error_of (create_document doc m)
failed m (gets org id) = error_of (get_document org id m)
failed m (uploads now org id u) = error_of (upload_document now org id u m)
failed m (queues now doc u event) = error_of (create_document_and_queue now doc u event m)
failed m (intends now org id u) = error_of (create_upload_intent now org id u m)
failed m (confirms now org id upload_id size checksum event) =
    error_of (confirm_upload now org id upload_id size checksum event m)

failed_create :
    (doc : Document) (m : MemoryStore) (e : StoreError)
    → error_of (create_document doc m) ≡ some e
    → (create_document doc m).1 ≡ m
unfolding create_document
failed_create doc m e h = ground arith

failed_upload :
    (now : ℕ) (org id : String) (u : UploadRecord) (m : MemoryStore) (e : StoreError)
    → error_of (upload_document now org id u m) ≡ some e
    → (upload_document now org id u m).1 ≡ m
unfolding upload_document find save ◌>>=◌
failed_upload now org id u m e h = ground arith

failed_intent :
    (now : ℕ) (org id : String) (u : UploadRecord) (m : MemoryStore) (e : StoreError)
    → error_of (create_upload_intent now org id u m) ≡ some e
    → (create_upload_intent now org id u m).1 ≡ m
unfolding create_upload_intent find save ◌>>=◌
failed_intent now org id u m e h = ground arith

failed_confirm :
    (now : ℕ) (org id upload_id : String) (size : ℤ) (checksum : String) (event : OutboxEvent)
    (m : MemoryStore) (e : StoreError)
    → error_of (confirm_upload now org id upload_id size checksum event m) ≡ some e
    → (confirm_upload now org id upload_id size checksum event m).1 ≡ m
unfolding confirm_upload store_confirmation find save ◌>>=◌
failed_confirm now org id upload_id size checksum event m e h = ground arith

-- A document that was just created takes its first upload, so only the creation can fail.
failed_queue :
    (now : ℕ) (doc : Document) (u : UploadRecord) (event : OutboxEvent) (m : MemoryStore)
    (e : StoreError)
    → error_of (create_document_and_queue now doc u event m) ≡ some e
    → (create_document_and_queue now doc u event m).1 ≡ m
unfolding create_document_and_queue create_document upload_document find save ◌>>=◌
failed_queue now doc u event m e h = ground (
  arith,
  lookup-insert_self doc.id doc m.docs,
  eq_iff (trim_space doc.organization_id) (trim_space doc.organization_id),
)

-- A call that returns an error has changed nothing.
pub failed_call_changes_nothing :
    (m : MemoryStore) (c : Call) (e : StoreError) → failed m c ≡ some e → step m c ≡ m
unfolding failed step
failed_call_changes_nothing m (creates doc) e h = failed_create doc m e h
failed_call_changes_nothing m (gets org id) e h = unfold get_document find ◌>>=◌ in ground arith
failed_call_changes_nothing m (uploads now org id u) e h = failed_upload now org id u m e h
failed_call_changes_nothing m (queues now doc u event) e h = failed_queue now doc u event m e h
failed_call_changes_nothing m (intends now org id u) e h = failed_intent now org id u m e h
failed_call_changes_nothing m (confirms now org id upload_id size checksum event) e h =
    failed_confirm now org id upload_id size checksum event m e h
