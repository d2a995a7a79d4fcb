-- ===== src/Intake/Events.antt =====
-- doclens-document-intake-service/internal/events/events.go. `json.Marshal` is a parameter.
use doc_lens.Base.{ℕ, ℤ, String, List, [], ◌∷◌, Result, ok, err}
use doc_lens.Intake.Types.{Document, UploadRecord, OutboxEvent}

abbrev pub document_uploaded_routing_key : String
document_uploaded_routing_key = "document.uploaded"

pub record UploadedFile : Type 0 where
  pub id : String
  pub filename : String
  pub content_type : String
  pub size_bytes : ℤ
  pub checksum : String
  pub storage_ref : String

pub record DocumentUploaded : Type 0 where
  pub kind : String
  pub upload_ids : List String
  pub uploads : List UploadedFile

pub record Envelope : Type 0 where
  pub event_id : String
  pub event_type : String
  pub event_version : ℕ
  pub occurred_at : ℕ
  pub organization_id : String
  pub document_id : String
  pub payload : DocumentUploaded

unfoldable pub envelope_of : String → Document → UploadRecord → Envelope
envelope_of event_id doc upload = record {
  event_id = event_id;
  event_type = "DocumentUploaded";
  event_version = 1;
  occurred_at = upload.created_at;
  organization_id = doc.organization_id;
  document_id = doc.id;
  payload = record {
    kind = doc.kind;
    upload_ids = upload.id ∷ [];
    uploads =
        record {
          id = upload.id;
          filename = upload.filename;
          content_type = upload.content_type;
          size_bytes = upload.size_bytes;
          checksum = upload.checksum;
          storage_ref = upload.storage_ref;
        }
        ∷ [];
  };
}

-- `NewDocumentUploaded`; the error is what `json.Marshal` reports.
unfoldable pub new_document_uploaded :
    (Envelope → Result String String) → String → Document → UploadRecord → Result String OutboxEvent
new_document_uploaded marshal event_id doc upload =
    let envelope = envelope_of event_id doc upload in
    elim (marshal envelope) [
      | err e ↦ err e
      | ok payload ↦ ok (record {
        id = event_id;
        event_type = envelope.event_type;
        event_version = envelope.event_version;
        routing_key = document_uploaded_routing_key;
        organization_id = doc.organization_id;
        document_id = doc.id;
        payload = payload;
        created_at = envelope.occurred_at;
      })
    ]
