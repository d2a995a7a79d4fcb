-- ===== src/Intake/Types.antt =====
-- The data of doclens-document-intake-service/internal/store/store.go, and its store interfaces.
-- Times are nanoseconds. The status words are data types; `unset` is the empty string.
use doc_lens.Base.{ℕ, ℤ, String, Bool, true, false, List, Option, Exec}

pub data UploadStatus : Type 0 where
  unset pending uploaded confirmed failed : UploadStatus

abbrev pub is_unset : UploadStatus → Bool
is_unset unset = true
is_unset _ = false

abbrev pub is_pending : UploadStatus → Bool
is_pending pending = true
is_pending _ = false

abbrev pub is_confirmed : UploadStatus → Bool
is_confirmed confirmed = true
is_confirmed _ = false

pub data UploadMethod : Type 0 where
  no_method presigned_direct proxied : UploadMethod

abbrev pub is_no_method : UploadMethod → Bool
is_no_method no_method = true
is_no_method _ = false

pub data DocumentStatus : Type 0 where
  created processing processed completed errored : DocumentStatus

pub data JobStatus : Type 0 where
  job_pending queued job_processing job_processed job_failed : JobStatus

pub record UploadRecord : Type 0 where
  pub id : String
  pub document_id : String
  pub organization_id : String
  pub filename : String
  pub content_type : String
  pub size_bytes : ℤ
  pub checksum : String
  pub storage_ref : String
  pub idempotency_key : String
  pub status : UploadStatus
  pub upload_method : UploadMethod
  pub expected_size : ℤ
  pub confirmed_at : Option ℕ
  pub created_at : ℕ

pub record Document : Type 0 where
  pub id : String
  pub organization_id : String
  pub kind : String
  pub filename : String
  pub content_type : String
  pub status : DocumentStatus
  pub processing_job_status : JobStatus
  pub storage_ref : String
  pub size_bytes : ℤ
  pub created_at : ℕ
  pub updated_at : ℕ
  pub uploads : List UploadRecord

pub record OutboxEvent : Type 0 where
  pub id : String
  pub event_type : String
  pub event_version : ℕ
  pub routing_key : String
  pub organization_id : String
  pub document_id : String
  pub payload : String
  pub created_at : ℕ

-- `ErrDocumentNotFound` and so on; `failure` is any other error, with its text.
pub data StoreError : Type 0 where
  document_not_found organization_mismatch upload_not_found upload_not_pending : StoreError
  upload_mismatch : StoreError
  failure : String → StoreError

-- `UploadIntentStore`. The number that an operation takes first is what its `time.Now` returns.
pub record UploadIntentStore (S : Type 0) : Type 0 where
  pub create_upload_intent : ℕ → String → String → UploadRecord → Exec S StoreError UploadRecord
  pub confirm_upload :
      ℕ → String → String → String → ℤ → String → OutboxEvent → Exec S StoreError UploadRecord

-- `Store`, with the type assertions to the optional interfaces as options.
pub record Store (S : Type 0) : Type 0 where
  pub create_document : Document → Exec S StoreError Document
  pub get_document : String → String → Exec S StoreError Document
  pub upload_document : ℕ → String → String → UploadRecord → Exec S StoreError Document
  pub get_document_status : String → String → Exec S StoreError Document
  pub upload_document_and_queue :
      Option (ℕ → String → String → UploadRecord → OutboxEvent → Exec S StoreError Document)
  pub create_document_and_queue :
      Option (ℕ → Document → UploadRecord → OutboxEvent → Exec S StoreError Document)
  pub intents : Option (UploadIntentStore S)

pub record ObjectHead : Type 0 where
  pub size_bytes : ℤ
  pub checksum : String

-- What `PresignPut` returns: the URL, the storage reference and the expiry.
pub record Presigned : Type 0 where
  pub url : String
  pub storage_ref : String
  pub expires_at : ℕ

-- `DirectUploadStorage`; the errors are texts.
pub record DirectUploadStorage (W : Type 0) : Type 0 where
  pub presign_put : String → String → String → String → String → ℕ → Exec W String Presigned
  pub head : String → Exec W String ObjectHead

-- `ObjectStorage`, with the type assertion to `DirectUploadStorage` as an option.
pub record ObjectStorage (W : Type 0) : Type 0 where
  pub put : String → String → String → String → List ℕ → Exec W String String
  pub direct : Option (DirectUploadStorage W)
