-- ===== src/Intake/Service/Uploads.antt =====
-- `UploadDocument` of doclens-document-intake-service/internal/service/document.go
use doc_lens.Base.{
  ℕ, pos, String, Bool, true, false, not, List, [], ◌∷◌, Option, none, some, ◌==◌, string_eq,
  length, Exec, Result, ok, err, ◌>>=◌, ◌>>◌, pure, lift, check, require_some, trim_space, hex,
}
use Prim.Native.String.{◌++◌}
use doc_lens.Rpc.{Status, Context, error, invalid_argument, internal}
use doc_lens.Intake.Authz.{require, permission_upload}
use doc_lens.Intake.Types.{UploadRecord, Document, OutboxEvent, ObjectStorage, unset, no_method}
use doc_lens.Intake.Memory.{find_key}
use doc_lens.Intake.Pool
use doc_lens.Intake.Metrics.{add_streamed_bytes}
use doc_lens.Intake.Events.{new_document_uploaded}
use doc_lens.Intake.Messages.{UploadDocumentRequest, UploadDocumentResponse}
use doc_lens.Intake.Service.{
  External, Inputs, Service, State, is_allowed_type, is_too_large, new_id, load_error,
  internal_error, map_error, on_store, on_world, on_pool, on_metrics, with_slot,
}
use doc_lens.Intake.Service.Documents.{content_type_of}

unfoldable pub is_nonempty : List ℕ → Bool
is_nonempty [] = false
is_nonempty (_ ∷ _) = true

-- The answer for a stored upload.
abbrev pub answer_of : UploadRecord → UploadDocumentResponse
answer_of u = record {
  upload_id = u.id;
  document_id = u.document_id;
  storage_ref = u.storage_ref;
  checksum = u.checksum;
}

module _ (x : External) where
  unfoldable pub new_upload : Inputs → UploadDocumentRequest → String → UploadRecord
  new_upload i req storage_ref = record {
    id = new_id x "upl" (i.random 0) (i.now 2);
    document_id = trim_space req.document_id;
    organization_id = trim_space req.organization_id;
    filename = trim_space req.filename;
    content_type = content_type_of x req.content_type req.content;
    size_bytes = pos (length req.content);
    checksum = hex (x.sha256 req.content);
    storage_ref = storage_ref;
    idempotency_key = req.idempotency_key;
    status = unset;
    upload_method = no_method;
    expected_size = pos 0;
    confirmed_at = none;
    created_at = i.now 2;
  }

  module _ {S W : Type 0} (svc : Service S W) where
    -- What the pool and the metrics learn of the result of `Put`.
    unfoldable pub note_put : ℕ → ℕ → Result Status String → State S W → State S W
    note_put now size (err _) s = on_pool (Pool.failure now) s
    note_put now size (ok _) s = on_metrics (add_streamed_bytes (pos size)) (on_pool Pool.success s)

    unfoldable pub put_content :
        ObjectStorage W → Inputs → UploadDocumentRequest → Exec (State S W) Status String
    put_content storage i req s =
        let put =
          storage.put (trim_space req.organization_id) (trim_space req.document_id) req.filename
            (content_type_of x req.content_type req.content) req.content in
        let (r, s') = on_world put (λ e. error internal ("store document content: " ++ e)) s in
        (r, note_put (i.now 1) (length req.content) r s')

    -- Stores the upload, durably with the event where the store can do that.
    unfoldable pub persist_upload :
        Inputs → UploadRecord → OutboxEvent → Exec (State S W) Status Document
    persist_upload i upload event = elim svc.store.upload_document_and_queue [
      | some upload_and_queue ↦
          on_store
            (upload_and_queue (i.now 3) upload.organization_id upload.document_id upload event)
            (internal_error "persist upload and event: ")
      | none ↦ do
        updated ←
            on_store
              (svc.store.upload_document (i.now 3) upload.organization_id upload.document_id upload)
              (internal_error "persist upload and event: ")
        on_world (svc.publish_document_uploaded upload.organization_id updated.id upload)
            (λ e. error internal ("persist upload and event: " ++ e))
        pure updated
    ]

    -- A new upload for a document that has none with the request's idempotency key.
    unfoldable pub upload_new :
        ObjectStorage W
        → Inputs
        → UploadDocumentRequest
        → Document
        → Exec (State S W) Status UploadDocumentResponse
    upload_new storage i req doc = do
      storage_ref ← put_content storage i req
      let upload = new_upload i req storage_ref
      event ← lift (
          map_error (λ e. error internal ("build document uploaded event: " ++ e))
            (new_document_uploaded x.marshal (new_id x "evt" (i.random 1) (i.now 2)) doc upload))
      updated ← persist_upload i upload event
      pure (record {
        upload_id = upload.id;
        document_id = updated.id;
        storage_ref = storage_ref;
        checksum = upload.checksum;
      })

    -- The loop's end: an upload with the same key is the answer.
    unfoldable pub upload_found :
        ObjectStorage W
        → Inputs
        → UploadDocumentRequest
        → Document
        → Option UploadRecord
        → Exec (State S W) Status UploadDocumentResponse
    upload_found storage i req doc (some existing) = pure (answer_of existing)
    upload_found storage i req doc none = upload_new storage i req doc

    -- What runs inside the upload slot.
    unfoldable pub upload_in_slot :
        ObjectStorage W
        → Inputs
        → UploadDocumentRequest
        → Exec (State S W) Status UploadDocumentResponse
    upload_in_slot storage i req = do
      doc ←
          on_store
            (svc.store.get_document (trim_space req.organization_id) (trim_space req.document_id))
            (load_error "load document: ")
      upload_found storage i req doc (find_key req.idempotency_key doc.uploads)

    unfoldable pub upload_document :
        Inputs
        → Context
        → Option UploadDocumentRequest
        → Exec (State S W) Status UploadDocumentResponse
    upload_document i ctx request = do
      req ← require_some request (error invalid_argument "request is required")
      lift (require ctx (trim_space req.organization_id) permission_upload)
      check (not (trim_space req.organization_id == ""))
          (error invalid_argument "organization_id is required")
      check (not (trim_space req.document_id == ""))
          (error invalid_argument "document_id is required")
      check (not (trim_space req.filename == "")) (error invalid_argument "filename is required")
      check (is_nonempty req.content) (error invalid_argument "document content is required")
      check (not (is_too_large svc.max_upload_bytes (pos (length req.content)))) (
          error invalid_argument (
            "document exceeds max upload size of "
            ++ x.format_int svc.max_upload_bytes
            ++ " bytes"))
      check (is_allowed_type svc.allowed_types (content_type_of x req.content_type req.content)) (
          error invalid_argument (
            "content type "
            ++ x.quote (content_type_of x req.content_type req.content)
            ++ " is not allowed"))
      storage ← require_some svc.object_storage (error internal "object storage is not configured")
      with_slot (i.now 0) (trim_space req.organization_id) (upload_in_slot storage i req)
