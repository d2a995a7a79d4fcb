-- ===== src/Intake/Memory.antt =====
-- `MemoryStore` of doclens-document-intake-service/internal/store/store.go. Its mutex makes each
-- operation one step.
mod Parts
pub mod Growth
pub mod History
pub mod Retries
pub mod Reconfirm
pub mod Tenancy
pub mod Keys
pub mod Distinct
use doc_lens.Base.{
  ℕ, ℤ, pos, String, Bool, true, false, ◌&&◌, ◌||◌, not, List, [], ◌∷◌, ◌++◌, Option, none, some,
  ◌==◌, string_eq, int_eq, ltb_ℤ, if◌then◌else◌, Assoc, lookup, insert, Result, ok, err, Exec,
  ◌>>=◌, ◌>>◌, pure, raise, check, trim_space,
}
use doc_lens.Intake.Types.{
  UploadRecord, Document, OutboxEvent, StoreError, document_not_found, organization_mismatch,
  upload_not_found, upload_not_pending, upload_mismatch, failure, pending, confirmed, proxied,
  presigned_direct, processing, queued, is_unset, is_pending, is_confirmed, is_no_method, Store,
  UploadIntentStore,
}

pub record MemoryStore : Type 0 where
  pub docs : Assoc Document

abbrev pub new_memory_store : MemoryStore
new_memory_store = record { docs = [] }

-- `m.docs[id]`
unfoldable pub find : String → Exec MemoryStore StoreError Document
find id m = elim (lookup id m.docs) [ none ↦ (err document_not_found, m) | some doc ↦ (ok doc, m) ]

-- `m.docs[doc.ID] = doc`, and the value to return.
unfoldable pub save : {A : Type 0} → A → String → Document → Exec MemoryStore StoreError A
save a id doc m = (ok a, record m { docs = insert id doc m.docs })

unfoldable pub create_document : Document → Exec MemoryStore StoreError Document
create_document doc m = elim (lookup doc.id m.docs) [
  | some _ ↦ (err (failure "document already exists"), m)
  | none ↦ (ok doc, record m { docs = insert doc.id doc m.docs })
]

unfoldable pub get_document : String → String → Exec MemoryStore StoreError Document
get_document organization_id id = do
  doc ← find id
  check (trim_space doc.organization_id == trim_space organization_id) organization_mismatch
  pure doc

-- The loop that looks for an upload with the same (non-empty) idempotency key.
unfoldable pub find_key : String → List UploadRecord → Option UploadRecord
find_key key [] = none
find_key key (existing ∷ uploads) =
    if not (key == "") && existing.idempotency_key == key
    then some existing
    else find_key key uploads

-- The defaults that `UploadDocument` puts in.
unfoldable pub with_defaults : UploadRecord → UploadRecord
with_defaults upload = record upload {
  status = if is_unset upload.status then confirmed else upload.status;
  upload_method = if is_no_method upload.upload_method then proxied else upload.upload_method;
}

unfoldable pub add_upload : ℕ → UploadRecord → Document → Document
add_upload now upload doc = record doc {
  uploads = doc.uploads ++ upload ∷ [];
  status = processing;
  processing_job_status = queued;
  updated_at = now;
  storage_ref = if upload.storage_ref == "" then doc.storage_ref else upload.storage_ref;
  size_bytes = if upload.storage_ref == "" then doc.size_bytes else upload.size_bytes;
}

unfoldable pub upload_document :
    ℕ → String → String → UploadRecord → Exec MemoryStore StoreError Document
upload_document now organization_id document_id upload = do
  doc ← find document_id
  check (trim_space doc.organization_id == trim_space organization_id) organization_mismatch
  let new_doc = add_upload now (with_defaults upload) doc
  elim (find_key upload.idempotency_key doc.uploads) [
    | some _ ↦ pure doc
    | none ↦ save new_doc document_id new_doc
  ]

unfoldable pub create_document_and_queue :
    ℕ → Document → UploadRecord → OutboxEvent → Exec MemoryStore StoreError Document
create_document_and_queue now doc upload event = do
  create_document doc
  upload_document now doc.organization_id doc.id upload

-- The record of an intent.
unfoldable pub as_intent : UploadRecord → UploadRecord
as_intent upload = record upload { status = pending; upload_method = presigned_direct }

unfoldable pub create_upload_intent :
    ℕ → String → String → UploadRecord → Exec MemoryStore StoreError UploadRecord
create_upload_intent now organization_id document_id upload = do
  doc ← find document_id
  check (doc.organization_id == organization_id) organization_mismatch
  elim (find_key upload.idempotency_key doc.uploads) [
    | some existing ↦ pure existing
    | none ↦
        save (as_intent upload) document_id
          (record doc { uploads = doc.uploads ++ as_intent upload ∷ []; updated_at = now })
  ]

-- What the loop of `ConfirmUpload` finds: a confirmed upload, or one that it confirms and the
-- uploads with that one replaced.
pub data Confirmation : Type 0 where
  already : UploadRecord → Confirmation
  newly : UploadRecord → List UploadRecord → Confirmation

unfoldable pub confirm_record : ℕ → ℤ → String → UploadRecord → UploadRecord
confirm_record now size checksum upload = record upload {
  status = confirmed;
  confirmed_at = some now;
  size_bytes = size;
  checksum = checksum;
}

-- The checks on the upload with the given id.
unfoldable pub confirm_found :
    ℕ → ℤ → String → UploadRecord → List UploadRecord → Result StoreError Confirmation
unfolding confirm_record
confirm_found now size checksum upload rest =
    if is_confirmed upload.status
    then ok (already upload)
    else if not (is_pending upload.status)
    then err upload_not_pending
    else if ltb_ℤ (pos 0) upload.expected_size && not (upload.expected_size == size)
    then err upload_mismatch
    else if not (upload.checksum == "") && not (checksum == "") && not (upload.checksum == checksum)
    then err upload_mismatch
    else ok (
        newly (confirm_record now size checksum upload)
          (confirm_record now size checksum upload ∷ rest))

-- The uploads before the one that is confirmed stay in front.
abbrev pub keep_front :
    UploadRecord → Result StoreError Confirmation → Result StoreError Confirmation
keep_front u (ok (newly v vs)) = ok (newly v (u ∷ vs))
keep_front u (ok (already v)) = ok (already v)
keep_front u (err e) = err e

unfoldable pub confirm_in :
    ℕ → String → ℤ → String → List UploadRecord → Result StoreError Confirmation
unfolding confirm_found
confirm_in now upload_id size checksum [] = err upload_not_found
confirm_in now upload_id size checksum (upload ∷ rest) =
    let later = confirm_in now upload_id size checksum rest in
    if upload.id == upload_id
    then confirm_found now size checksum upload rest
    else keep_front upload later

unfoldable pub store_confirmation :
    ℕ
    → String
    → Document
    → Result StoreError Confirmation
    → Exec MemoryStore StoreError UploadRecord
store_confirmation now document_id doc (err e) = raise e
store_confirmation now document_id doc (ok (already upload)) = pure upload
store_confirmation now document_id doc (ok (newly upload uploads)) =
    save upload document_id (record doc {
      uploads = uploads;
      status = processing;
      processing_job_status = queued;
      updated_at = now;
    })

unfoldable pub confirm_upload :
    ℕ
    → String
    → String
    → String
    → ℤ
    → String
    → OutboxEvent
    → Exec MemoryStore StoreError UploadRecord
confirm_upload now organization_id document_id upload_id size checksum event = do
  doc ← find document_id
  check (doc.organization_id == organization_id) organization_mismatch
  store_confirmation now document_id doc (confirm_in now upload_id size checksum doc.uploads)

-- `MemoryStore` implements every interface of the package.
abbrev pub memory_store : Store MemoryStore
memory_store = record {
  create_document = create_document;
  get_document = get_document;
  upload_document = upload_document;
  get_document_status = get_document;
  upload_document_and_queue = some (λ now org id upload event. upload_document now org id upload);
  create_document_and_queue = some create_document_and_queue;
  intents =
      some
        (record { create_upload_intent = create_upload_intent; confirm_upload = confirm_upload });
}
