-- ===== src/Intake/Tests/Calls.antt =====
-- The handlers of the document intake service at concrete inputs.
use doc_lens.Base.{
  differ, subst, sym, ℕ, suc, pos, ◌≡◌, ◌⊎◌, refl, [], ◌∷◌, none, some, lookup, ok, err, trim_space,
  is_space, ◌>>=◌,
}
use doc_lens.Rpc
use doc_lens.Rpc.{Context, Metadata, Status, error, unauthenticated}
use doc_lens.Intake.Types.{UploadRecord, Document, ObjectStorage, confirmed, proxied}
use doc_lens.Intake.Authz.{first}
use doc_lens.Intake.Authz.Access.{claimed}
use mathlib.Core.Option.{some-injective}
use doc_lens.Intake.Memory.{MemoryStore, memory_store, find, find_key, get_document}
use doc_lens.Intake.Messages.{
  CreateDocumentRequest, GetDocumentRequest, GetDocumentStatusRequest, UploadDocumentRequest,
  CreateUploadIntentRequest, CompleteUploadRequest,
}
use doc_lens.Intake.Metrics.{new_intake_metrics}
use doc_lens.Intake.Service.{External, Inputs, Service, State}
use doc_lens.Intake.Service.Documents
use doc_lens.Intake.Service.Uploads.{upload_document}
use doc_lens.Intake.Service.Intents.{create_upload_intent, complete_upload}
use doc_lens.Intake.Service.Access.{IsOutsider, IsRefused, outsider-IsRefused}
use doc_lens.Intake.Service.Slots.{in_flight_of, upload_gives_slot_back}
use doc_lens.Intake.Service.Results.{upload_retry}
use doc_lens.Intake.Tests.{an_upload, a_document}

abbrev a_library : External
a_library = record {
  detect_content_type = λ content. "text/plain";
  sha256 = λ content. content;
  marshal = λ envelope. ok "{}";
  format_time = λ t. "then";
  format_int = λ n. "1";
  quote = λ t. t;
}

abbrev some_inputs : Inputs
some_inputs = record { now = λ k. k; random = λ k. some (k ∷ []) }

-- The world counts the objects that are put.
abbrev a_storage : ObjectStorage ℕ
a_storage = record {
  put = λ org id filename content_type content n. (ok "r2://docs/a.pdf", suc n);
  direct = none;
}

abbrev a_service : Service MemoryStore ℕ
a_service = record {
  store = memory_store;
  object_storage = some a_storage;
  publish_document_uploaded = λ org id upload n. (ok tt, n);
  max_upload_bytes = pos 10;
  allowed_types = [];
}

abbrev stored_document : Document
stored_document = record a_document {
  uploads = record (an_upload "upl_1" "k1") { status = confirmed; upload_method = proxied } ∷ [];
}

abbrev a_state : State MemoryStore ℕ
a_state = record {
  stored = record { docs = ("doc_1", stored_document) ∷ [] };
  world = 0;
  pool = some (record {
    in_flight = 1;
    workers = 2;
    tenant_rate = 1;
    tenant_burst = 2;
    failure_threshold = 2;
    open_duration = 30;
    tenants = [];
    failures = 0;
    open_until = 0;
  });
  metrics = some new_intake_metrics;
  headers = [];
}

abbrev as_member : Context
as_member = record {
  metadata = some (("x-organization-id", "org_1" ∷ []) ∷ ("x-roles", "member" ∷ []) ∷ []);
}

abbrev nobody : Context
nobody = record { metadata = none }

abbrev an_upload_request : UploadDocumentRequest
an_upload_request = record {
  organization_id = "org_1";
  document_id = "doc_1";
  filename = "a.pdf";
  content_type = "application/pdf";
  content = 1 ∷ 2 ∷ 3 ∷ [];
  idempotency_key = "k1";
}

abbrev the_upload : UploadRecord
the_upload = record (an_upload "upl_1" "k1") { status = confirmed; upload_method = proxied }

upload_retry_example :
    ((upload_document a_library a_service some_inputs as_member
        (some an_upload_request)
        a_state).1.stored
      ≡ a_state.stored)
    × ((upload_document a_library a_service some_inputs as_member
          (some an_upload_request)
          a_state).1.world
        ≡ 0)
    × (((upload_document a_library a_service some_inputs as_member
            (some an_upload_request)
            a_state).0
          ≡ ok (record {
            upload_id = "upl_1";
            document_id = "doc_1";
            storage_ref = "r2://docs/a.pdf";
            checksum = "";
          }))
        ⊎ ((e : Status) × ((upload_document a_library a_service some_inputs as_member
                (some an_upload_request)
                a_state).0
              ≡ err e)))
unfolding get_document find find_key lookup trim_space is_space ◌>>=◌
upload_retry_example =
    upload_retry a_library a_service some_inputs as_member an_upload_request stored_document
      the_upload a_state refl refl

upload_gives_slot_back_example :
    in_flight_of
      (upload_document a_library a_service some_inputs as_member (some an_upload_request) a_state).1
    ≡ in_flight_of a_state
upload_gives_slot_back_example =
    upload_gives_slot_back a_library a_service some_inputs as_member (some an_upload_request)
      a_state

abbrev no_metadata : Status
no_metadata = error unauthenticated "authenticated gateway metadata is required"

abbrev a_get : GetDocumentRequest
a_get = record { organization_id = "org_1"; id = "doc_1" }

abbrev a_status_get : GetDocumentStatusRequest
a_status_get = record { organization_id = "org_1"; document_id = "doc_1" }

abbrev a_creation : CreateDocumentRequest
a_creation = record {
  organization_id = "org_1";
  kind = "invoice";
  filename = "a.pdf";
  content_type = "application/pdf";
  content = 1 ∷ [];
}

abbrev an_intent_request : CreateUploadIntentRequest
an_intent_request = record {
  organization_id = "org_1";
  document_id = "doc_1";
  filename = "a.pdf";
  content_type = "application/pdf";
  size_bytes = pos 3;
  checksum = "";
  idempotency_key = "k2";
}

abbrev a_completion : CompleteUploadRequest
a_completion = record {
  organization_id = "org_1";
  document_id = "doc_1";
  upload_id = "upl_1";
  size_bytes = pos 3;
  checksum = "";
}

-- A member of another organization.
abbrev a_stranger : Metadata
a_stranger = ("x-organization-id", "org_2" ∷ []) ∷ ("x-roles", "member" ∷ []) ∷ []

abbrev stranger_context : Context
stranger_context = record { metadata = some a_stranger }

stranger_outside : IsOutsider stranger_context "org_1"
unfolding Rpc.get lookup first trim_space is_space
stranger_outside (md, found, allowed) = differ "org_2" "org_1" refl (
    subst (λ (m : Metadata). claimed m ≡ trim_space "org_1") (sym (some-injective _ _ found))
      allowed.same_organization)

outsider-IsRefused_example :
    IsRefused stranger_context a_state (
      Documents.create_document a_library a_service some_inputs stranger_context
        (some a_creation)
        a_state)
    × IsRefused stranger_context a_state
        (Documents.get_document a_library a_service stranger_context (some a_get) a_state)
    × IsRefused stranger_context a_state (
        Documents.get_document_status a_library a_service stranger_context
          (some a_status_get)
          a_state)
    × IsRefused stranger_context a_state (
        upload_document a_library a_service some_inputs stranger_context
          (some an_upload_request)
          a_state)
    × IsRefused stranger_context a_state (
        create_upload_intent a_library a_service some_inputs stranger_context
          (some an_intent_request)
          a_state)
    × IsRefused stranger_context a_state (
        complete_upload a_library a_service some_inputs stranger_context
          (some a_completion)
          a_state)
outsider-IsRefused_example =
    outsider-IsRefused a_library a_service some_inputs stranger_context a_state a_creation a_get
      a_status_get an_upload_request an_intent_request a_completion
      (
        stranger_outside,
        (
          stranger_outside,
          (stranger_outside, (stranger_outside, (stranger_outside, (stranger_outside, tt)))),
        ),
      )
