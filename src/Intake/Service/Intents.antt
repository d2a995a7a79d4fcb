-- ===== src/Intake/Service/Intents.antt =====
-- `CreateUploadIntent`, `CompleteUpload`, `ConfirmUploadNotification` and `findUpload` of
-- doclens-document-intake-service/internal/service/document.go
use doc_lens.Base.{
  ℕ, ℤ, pos, ◌*◌, ◌-◌, String, ◌||◌, ◌&&◌, not, List, [], ◌∷◌, Option, none, some, ◌==◌, string_eq,
  int_eq, ltb_ℤ, if◌then◌else◌, Exec, ◌>>=◌, ◌>>◌, pure, lift, check, require_some, modify,
  trim_space, to_lower,
}
use Prim.Native.String.{◌++◌}
use doc_lens.Rpc.{
  Status, Context, error, invalid_argument, internal, unimplemented, not_found, failed_precondition,
}
use doc_lens.Intake.Authz.{require, permission_upload}
use doc_lens.Intake.Types.{
  UploadRecord, Document, StoreError, document_not_found, organization_mismatch, upload_not_found,
  upload_not_pending, upload_mismatch, failure, ObjectStorage, DirectUploadStorage, Presigned,
  ObjectHead, unset, no_method, is_pending, is_confirmed,
}
use doc_lens.Intake.Metrics.{presigned_url_issued_once, observe_confirmation}
use doc_lens.Intake.Events.{new_document_uploaded}
use doc_lens.Intake.Messages.{
  CreateUploadIntentRequest, CreateUploadIntentResponse, CompleteUploadRequest,
  UploadDocumentResponse,
}
use doc_lens.Intake.Service.{
  External, Inputs, Service, State, is_allowed_type, is_too_large, new_id, load_error, describe,
  map_error, on_store, on_world, on_metrics,
}
use doc_lens.Intake.Service.Uploads.{answer_of}

-- Fifteen minutes, in nanoseconds.
abbrev pub expires : ℕ
expires = 15 * 60 * 1_000_000_000

unfoldable pub find_upload : String → List UploadRecord → Option UploadRecord
find_upload upload_id [] = none
find_upload upload_id (upload ∷ uploads) =
    if upload.id == upload_id then some upload else find_upload upload_id uploads

-- `s.objectStorage.(store.DirectUploadStorage)`
unfoldable pub direct_storage :
    {W : Type 0} → Option (ObjectStorage W) → Option (DirectUploadStorage W)
direct_storage none = none
direct_storage (some storage) = storage.direct

-- The status for an error of `ConfirmUpload`.
unfoldable pub confirm_error : StoreError → Status
confirm_error document_not_found =
    error internal ("confirm upload: " ++ describe document_not_found)
confirm_error organization_mismatch =
    error internal ("confirm upload: " ++ describe organization_mismatch)
confirm_error upload_not_found = error not_found "upload intent not found"
confirm_error upload_not_pending =
    error internal ("confirm upload: " ++ describe upload_not_pending)
confirm_error upload_mismatch = error invalid_argument "upload does not match intent"
confirm_error (failure text) = error internal ("confirm upload: " ++ text)

-- The size and the checksum to confirm: what the request leaves out, the object and the intent give.
unfoldable pub declared_size : CompleteUploadRequest → ObjectHead → ℤ
declared_size req head = if req.size_bytes == pos 0 then head.size_bytes else req.size_bytes

unfoldable pub declared_checksum : CompleteUploadRequest → UploadRecord → String
declared_checksum req pending =
    if trim_space req.checksum == "" then pending.checksum else trim_space req.checksum

module _ (x : External) where
  unfoldable pub new_intent : Inputs → CreateUploadIntentRequest → Document → UploadRecord
  new_intent i req doc = record {
    id = new_id x "upl" (i.random 0) (i.now 0);
    document_id = doc.id;
    organization_id = trim_space req.organization_id;
    filename = trim_space req.filename;
    content_type = to_lower (trim_space req.content_type);
    size_bytes = pos 0;
    checksum = trim_space req.checksum;
    storage_ref = "";
    idempotency_key = trim_space req.idempotency_key;
    status = unset;
    upload_method = no_method;
    expected_size = req.size_bytes;
    confirmed_at = none;
    created_at = i.now 0;
  }

  module _ {S W : Type 0} (svc : Service S W) where
    unfoldable pub presign :
        DirectUploadStorage W
        → String
        → String
        → UploadRecord
        → String
        → Exec (State S W) Status Presigned
    presign storage organization_id document_id upload prefix =
        on_world
          (storage.presign_put organization_id document_id upload.id upload.filename
            upload.content_type expires)
          (λ e. error internal (prefix ++ e))

    unfoldable pub create_upload_intent :
        Inputs
        → Context
        → Option CreateUploadIntentRequest
        → Exec (State S W) Status CreateUploadIntentResponse
    create_upload_intent i ctx request = do
      req ← require_some request (error invalid_argument "request is required")
      let organization_id = trim_space req.organization_id
      lift (require ctx organization_id permission_upload)
      check
          (not (
            organization_id == ""
            || trim_space req.document_id == ""
            || trim_space req.filename == ""))
          (error invalid_argument "organization_id, document_id, and filename are required")
      check (ltb_ℤ (pos 0) req.size_bytes && not (is_too_large svc.max_upload_bytes req.size_bytes))
          (error invalid_argument "invalid upload size")
      let content_type = to_lower (trim_space req.content_type)
      check (is_allowed_type svc.allowed_types content_type)
          (error invalid_argument ("content type " ++ x.quote content_type ++ " is not allowed"))
      storage ←
          require_some (direct_storage svc.object_storage)
            (error unimplemented "direct upload is not supported by the configured object storage")
      doc ←
          on_store (svc.store.get_document organization_id (trim_space req.document_id))
            (load_error "load document: ")
      presigned ←
          presign storage organization_id doc.id (new_intent i req doc) "create upload URL: "
      let upload = record (new_intent i req doc) { storage_ref = presigned.storage_ref }
      intents ←
          require_some svc.store.intents (
            error unimplemented "upload intents are not supported by the configured metadata store")
      stored ←
          on_store (intents.create_upload_intent (i.now 1) organization_id doc.id upload)
            (load_error "persist upload intent: ")
      modify (on_metrics presigned_url_issued_once)
      shown ←
          (if stored.id == upload.id
            then pure presigned
            else presign storage organization_id doc.id stored "refresh upload URL: ")
      pure (record {
        upload_id = stored.id;
        document_id = doc.id;
        upload_url = shown.url;
        storage_ref = stored.storage_ref;
        expires_at = x.format_time shown.expires_at;
      })

    -- The confirmation of an upload that is not confirmed yet.
    unfoldable pub complete_pending :
        DirectUploadStorage W
        → Inputs
        → CompleteUploadRequest
        → String
        → Document
        → UploadRecord
        → Exec (State S W) Status UploadDocumentResponse
    complete_pending storage i req organization_id doc pending = do
      check (is_pending pending.status) (error failed_precondition "upload is not pending")
      head ←
          on_world (storage.head pending.storage_ref)
            (λ e. error failed_precondition ("uploaded object is not available: " ++ e))
      let size = declared_size req head
      let checksum = declared_checksum req pending
      check (head.size_bytes == size)
          (error invalid_argument "uploaded object size does not match declared size")
      check (checksum == "" || head.checksum == "" || checksum == head.checksum)
          (error invalid_argument "upload checksum does not match object")
      intents ← require_some svc.store.intents (
          error unimplemented
            "upload confirmation is not supported by the configured metadata store")
      event ← lift (
          map_error (λ e. error internal ("build document uploaded event: " ++ e))
            (new_document_uploaded x.marshal (new_id x "evt" (i.random 0) (i.now 1)) doc
              (record pending { size_bytes = size; checksum = checksum })))
      confirmed ←
          on_store
            (intents.confirm_upload (i.now 2) organization_id doc.id req.upload_id size checksum
              event)
            confirm_error
      modify (on_metrics (observe_confirmation (i.now 3 - i.now 0)))
      pure (answer_of confirmed)

    unfoldable pub complete_upload :
        Inputs
        → Context
        → Option CompleteUploadRequest
        → Exec (State S W) Status UploadDocumentResponse
    complete_upload i ctx request = do
      req ← require_some request (error invalid_argument "request is required")
      let organization_id = trim_space req.organization_id
      lift (require ctx organization_id permission_upload)
      check (not (trim_space req.document_id == "" || trim_space req.upload_id == ""))
          (error invalid_argument "document_id and upload_id are required")
      storage ←
          require_some (direct_storage svc.object_storage)
            (error unimplemented "direct upload is not supported by the configured object storage")
      doc ←
          on_store (svc.store.get_document organization_id req.document_id)
            (load_error "load document: ")
      pending ←
          require_some (find_upload req.upload_id doc.uploads)
            (error not_found "upload intent not found")
      if is_confirmed pending.status
          then pure (answer_of pending)
          else complete_pending storage i req organization_id doc pending

    -- The notification has the fields of the request that it becomes.
    unfoldable pub confirm_upload_notification :
        Inputs → CompleteUploadRequest → Exec (State S W) Status UploadDocumentResponse
    confirm_upload_notification i notification = do
      check
          (not (
            trim_space notification.organization_id == ""
            || trim_space notification.document_id == ""
            || trim_space notification.upload_id == ""))
          (error invalid_argument
            "notification organization, document, and upload IDs are required")
      let md =
          ("x-organization-id", notification.organization_id ∷ [])
          ∷ ("x-roles", "platform_admin" ∷ [])
          ∷ []
      complete_upload i (record { metadata = some md }) (some notification)
