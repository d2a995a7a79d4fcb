-- ===== src/Intake/Service/Documents.antt =====
-- `CreateDocument`, `GetDocument`, `GetDocumentStatus` and `toProtoDocument` of
-- doclens-document-intake-service/internal/service/document.go
use doc_lens.Base.{
  ℕ, pos, String, not, List, [], ◌∷◌, map, Option, none, some, ◌==◌, string_eq, length,
  if◌then◌else◌, Exec, ◌>>=◌, ◌>>◌, pure, lift, check, require_some, trim_space, hex,
}
use Prim.Native.String.{◌++◌}
use doc_lens.Rpc.{Status, Context, error, invalid_argument, internal}
use doc_lens.Intake.Authz.{require, permission_create, permission_read}
use doc_lens.Intake.Types.{
  UploadRecord, Document, OutboxEvent, unset, no_method, created, processing, job_pending, queued,
}
use doc_lens.Intake.Events.{new_document_uploaded}
use doc_lens.Intake.Messages.{
  CreateDocumentRequest, GetDocumentRequest, GetDocumentStatusRequest, ProtoUpload, ProtoDocument,
  ProtoDocumentStatus,
}
use doc_lens.Intake.Service.{
  External, Inputs, Service, State, is_allowed_type, is_too_large, new_id, load_error,
  internal_error, map_error, on_store, on_world,
}

module _ (x : External) where
  unfoldable pub to_proto_upload : UploadRecord → ProtoUpload
  to_proto_upload u = record {
    id = u.id;
    filename = u.filename;
    content_type = u.content_type;
    size_bytes = u.size_bytes;
    checksum = u.checksum;
    storage_ref = u.storage_ref;
    created_at = x.format_time u.created_at;
    status = u.status;
    upload_method = u.upload_method;
  }

  unfoldable pub to_proto_document : Document → ProtoDocument
  to_proto_document doc = record {
    id = doc.id;
    organization_id = doc.organization_id;
    kind = doc.kind;
    filename = doc.filename;
    content_type = doc.content_type;
    status = doc.status;
    created_at = x.format_time doc.created_at;
    uploads = map to_proto_upload doc.uploads;
  }

  -- The declared content type, or the detected one.
  unfoldable pub content_type_of : String → List ℕ → String
  content_type_of declared content =
      if trim_space declared == "" then x.detect_content_type content else trim_space declared

  unfoldable pub new_document : Inputs → CreateDocumentRequest → Document
  new_document i req = record {
    id = new_id x "doc" (i.random 0) (i.now 0);
    organization_id = trim_space req.organization_id;
    kind = trim_space req.kind;
    filename = trim_space req.filename;
    content_type = trim_space req.content_type;
    status = created;
    processing_job_status = job_pending;
    storage_ref = "";
    size_bytes = pos 0;
    created_at = i.now 0;
    updated_at = i.now 0;
    uploads = [];
  }

  -- The document and its first upload, once the content has been put.
  unfoldable pub with_content : Inputs → String → List ℕ → String → Document → Document
  with_content i content_type content storage_ref doc = record doc {
    content_type = content_type;
    status = processing;
    processing_job_status = queued;
    storage_ref = storage_ref;
    size_bytes = pos (length content);
    updated_at = i.now 1;
  }

  unfoldable pub first_upload : Inputs → String → List ℕ → String → Document → UploadRecord
  first_upload i content_type content storage_ref doc = record {
    id = new_id x "upl" (i.random 1) (i.now 2);
    document_id = doc.id;
    organization_id = doc.organization_id;
    filename = doc.filename;
    content_type = content_type;
    size_bytes = pos (length content);
    checksum = hex (x.sha256 content);
    storage_ref = storage_ref;
    idempotency_key = "";
    status = unset;
    upload_method = no_method;
    expected_size = pos 0;
    confirmed_at = none;
    created_at = i.now 2;
  }

  module _ {S W : Type 0} (svc : Service S W) where
    -- Stores the document with its upload, durably with the event where the store can do that.
    unfoldable pub persist_created :
        Inputs → Document → UploadRecord → OutboxEvent → Exec (State S W) Status Document
    persist_created i doc upload event = elim svc.store.create_document_and_queue [
      | some create_and_queue ↦
          on_store (create_and_queue (i.now 4) doc upload event)
            (internal_error "persist document and event: ")
      | none ↦ do
        on_store (svc.store.create_document doc) (internal_error "persist document metadata: ")
        stored ←
            on_store (svc.store.upload_document (i.now 4) doc.organization_id doc.id upload)
              (internal_error "persist document upload: ")
        on_world (svc.publish_document_uploaded doc.organization_id doc.id upload)
            (λ e. error internal ("publish document uploaded event: " ++ e))
        pure stored
    ]

    -- The branch for a request with content; `doc` is the document without it.
    unfoldable pub create_with_content :
        Inputs → CreateDocumentRequest → Document → Exec (State S W) Status Document
    create_with_content i req doc = do
      let content_type = content_type_of req.content_type req.content
      check (not (is_too_large svc.max_upload_bytes (pos (length req.content)))) (
          error invalid_argument (
            "document exceeds max upload size of "
            ++ x.format_int svc.max_upload_bytes
            ++ " bytes"))
      check (is_allowed_type svc.allowed_types content_type)
          (error invalid_argument ("content type " ++ x.quote content_type ++ " is not allowed"))
      storage ← require_some svc.object_storage (error internal "object storage is not configured")
      storage_ref ←
          on_world (storage.put doc.organization_id doc.id doc.filename content_type req.content)
            (λ e. error internal ("store document content: " ++ e))
      let new_doc = with_content i content_type req.content storage_ref doc
      let upload = first_upload i content_type req.content storage_ref doc
      event ← lift (
          map_error (λ e. error internal ("build document uploaded event: " ++ e))
            (new_document_uploaded x.marshal (new_id x "evt" (i.random 2) (i.now 3)) new_doc
              upload))
      persist_created i new_doc upload event

    unfoldable pub create_document :
        Inputs → Context → Option CreateDocumentRequest → Exec (State S W) Status ProtoDocument
    create_document i ctx request = do
      req ← require_some request (error invalid_argument "request is required")
      lift (require ctx (trim_space req.organization_id) permission_create)
      check (not (trim_space req.organization_id == ""))
          (error invalid_argument "organization_id is required")
      check (not (trim_space req.kind == "")) (error invalid_argument "type is required")
      stored ← elim req.content [
        | [] ↦
            on_store (svc.store.create_document (new_document i req))
              (internal_error "persist document metadata: ")
        | _ ∷ _ ↦ create_with_content i req (new_document i req)
      ]
      pure (to_proto_document stored)

    unfoldable pub get_document :
        Context → Option GetDocumentRequest → Exec (State S W) Status ProtoDocument
    get_document ctx request = do
      req ← require_some request (error invalid_argument "request is required")
      lift (require ctx (trim_space req.organization_id) permission_read)
      check (not (trim_space req.organization_id == ""))
          (error invalid_argument "organization_id is required")
      check (not (trim_space req.id == "")) (error invalid_argument "id is required")
      doc ←
          on_store (svc.store.get_document (trim_space req.organization_id) req.id)
            (load_error "load document: ")
      pure (to_proto_document doc)

    unfoldable pub get_document_status :
        Context → Option GetDocumentStatusRequest → Exec (State S W) Status ProtoDocumentStatus
    get_document_status ctx request = do
      req ← require_some request (error invalid_argument "request is required")
      lift (require ctx (trim_space req.organization_id) permission_read)
      check (not (trim_space req.organization_id == ""))
          (error invalid_argument "organization_id is required")
      check (not (trim_space req.document_id == ""))
          (error invalid_argument "document_id is required")
      doc ←
          on_store
            (svc.store.get_document_status (trim_space req.organization_id)
              (trim_space req.document_id))
            (load_error "load document status: ")
      pure (record {
        document_id = doc.id;
        status = doc.status;
        processing_job_status = doc.processing_job_status;
        updated_at = x.format_time doc.updated_at;
      })
