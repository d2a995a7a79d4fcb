-- ===== src/Intake/Messages.antt =====
-- The messages of documents.proto that the handlers take and return, as far as they read or fill
-- them. Bytes are numbers below 256, and times in answers are printed.
use doc_lens.Base.{ℕ, ℤ, String, List}
use doc_lens.Intake.Types.{DocumentStatus, JobStatus, UploadStatus, UploadMethod}

pub record CreateDocumentRequest : Type 0 where
  pub organization_id : String
  pub kind : String
  pub filename : String
  pub content_type : String
  pub content : List ℕ

pub record GetDocumentRequest : Type 0 where
  pub organization_id : String
  pub id : String

pub record UploadDocumentRequest : Type 0 where
  pub organization_id : String
  pub document_id : String
  pub filename : String
  pub content_type : String
  pub content : List ℕ
  pub idempotency_key : String

pub record CreateUploadIntentRequest : Type 0 where
  pub organization_id : String
  pub document_id : String
  pub filename : String
  pub content_type : String
  pub size_bytes : ℤ
  pub checksum : String
  pub idempotency_key : String

pub record CompleteUploadRequest : Type 0 where
  pub organization_id : String
  pub document_id : String
  pub upload_id : String
  pub size_bytes : ℤ
  pub checksum : String

pub record GetDocumentStatusRequest : Type 0 where
  pub organization_id : String
  pub document_id : String

-- `documentsv1.Upload` and `documentsv1.Document`
pub record ProtoUpload : Type 0 where
  pub id : String
  pub filename : String
  pub content_type : String
  pub size_bytes : ℤ
  pub checksum : String
  pub storage_ref : String
  pub created_at : String
  pub status : UploadStatus
  pub upload_method : UploadMethod

pub record ProtoDocument : Type 0 where
  pub id : String
  pub organization_id : String
  pub kind : String
  pub filename : String
  pub content_type : String
  pub status : DocumentStatus
  pub created_at : String
  pub uploads : List ProtoUpload

pub record UploadDocumentResponse : Type 0 where
  pub upload_id : String
  pub document_id : String
  pub storage_ref : String
  pub checksum : String

pub record CreateUploadIntentResponse : Type 0 where
  pub upload_id : String
  pub document_id : String
  pub upload_url : String
  pub storage_ref : String
  pub expires_at : String

pub record ProtoDocumentStatus : Type 0 where
  pub document_id : String
  pub status : DocumentStatus
  pub processing_job_status : JobStatus
  pub updated_at : String
