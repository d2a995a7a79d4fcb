-- ===== src/Intake/Tests.antt =====
-- Data that the tests of the document intake service share.
mod Stores
mod Pools
mod Access
mod Calls
mod Tables
mod Rounds
mod Files
mod Starts
use doc_lens.Base.{ℕ, ℤ, pos, String, [], ◌∷◌, none}
use doc_lens.Intake.Types.{
  UploadRecord, Document, OutboxEvent, unset, no_method, created, job_pending,
}

abbrev pub an_upload : String → String → UploadRecord
an_upload id key = record {
  id = id;
  document_id = "doc_1";
  organization_id = "org_1";
  filename = "a.pdf";
  content_type = "application/pdf";
  size_bytes = pos 3;
  checksum = "";
  storage_ref = "r2://docs/a.pdf";
  idempotency_key = key;
  status = unset;
  upload_method = no_method;
  expected_size = pos 3;
  confirmed_at = none;
  created_at = 1;
}

abbrev pub a_document : Document
a_document = record {
  id = "doc_1";
  organization_id = "org_1";
  kind = "invoice";
  filename = "a.pdf";
  content_type = "application/pdf";
  status = created;
  processing_job_status = job_pending;
  storage_ref = "";
  size_bytes = pos 0;
  created_at = 0;
  updated_at = 0;
  uploads = [];
}

abbrev pub an_event : OutboxEvent
an_event = record {
  id = "evt_1";
  event_type = "DocumentUploaded";
  event_version = 1;
  routing_key = "document.uploaded";
  organization_id = "org_1";
  document_id = "doc_1";
  payload = "{}";
  created_at = 1;
}
