-- ===== src/Gateway/Handlers.antt =====
-- doclens-api-gateway/internal/httpapi/handlers.go. A handler is a call whose error is the response
-- it stops with; `W` is the state of the services behind the gateway.
pub mod Scope
use doc_lens.Base.{
  ℕ, ℤ, String, Bool, true, false, ◌||◌, not, List, [], ◌∷◌, ◌++◌, Option, none, some, ◌==◌,
  string_eq, if◌then◌else◌, join, Result, ok, err, Exec, ◌>>=◌, ◌>>◌, pure, raise, lift, check,
  require_some,
}
use doc_lens.Rpc.{Metadata, Context}
use doc_lens.Tokens.{Claims}
use doc_lens.Intake.Messages.{
  CreateDocumentRequest, GetDocumentRequest, UploadDocumentRequest, GetDocumentStatusRequest,
  ProtoDocument, UploadDocumentResponse, ProtoDocumentStatus,
}
use doc_lens.Identity.Messages.{CreateUserRequest, LoginRequest, ProtoUser, LoginResponse}
use doc_lens.Gateway.Http.{
  Request, Verification, Body, fields, a_user, a_login, a_document, an_upload, a_status,
  a_verification, Response, http_error, json, Failure,
}
use doc_lens.Gateway.Errors.{write_upstream_error}

-- The bodies of the two document requests.
pub record CreateBody : Type 0 where
  pub organization_id : String
  pub kind : String
  pub filename : String
  pub content_type : String
  pub content_base64 : String

pub record UploadBody : Type 0 where
  pub filename : String
  pub content_type : String
  pub content_base64 : String
  pub idempotency_key : String

pub record StartVerificationRequest : Type 0 where
  pub organization_id : String
  pub document_id : String
  pub checks : List String

pub record GetVerificationRequest : Type 0 where
  pub organization_id : String
  pub id : String

-- `json.Decoder` with unknown fields refused, for each kind of body, and standard base64.
pub record Decoders : Type 0 where
  pub create_user : String → Option CreateUserRequest
  pub login : String → Option LoginRequest
  pub create_document : String → Option CreateBody
  pub upload_document : String → Option UploadBody
  pub start_verification : String → Option StartVerificationRequest
  pub base64 : String → Option (List ℕ)

-- The interfaces `IdentityClient`, `DocumentsClient` and `VerificationClient`, and the health checks
-- by name, in the order in which the loop meets them.
pub record Clients (W : Type 0) : Type 0 where
  pub create_user : CreateUserRequest → Exec W Failure ProtoUser
  pub login : LoginRequest → Exec W Failure LoginResponse
  pub create_document : Context → CreateDocumentRequest → Exec W Failure ProtoDocument
  pub get_document : Context → GetDocumentRequest → Exec W Failure ProtoDocument
  pub upload_document : Context → UploadDocumentRequest → Exec W Failure UploadDocumentResponse
  pub get_document_status : Context → GetDocumentStatusRequest → Exec W Failure ProtoDocumentStatus
  pub start_verification : StartVerificationRequest → Exec W Failure Verification
  pub get_verification : GetVerificationRequest → Exec W Failure Verification
  pub is_serving : List (String × (W → Bool × W))

-- `organizationID`: the claims' organization wins.
unfoldable pub organization_id : Request → String → String
organization_id r fallback = elim r.claims [
  | none ↦ fallback
  | some claims ↦ if claims.organization_id == "" then fallback else claims.organization_id
]

-- `withIdentityMetadata`
unfoldable pub identity_metadata : Request → String → Context
identity_metadata r organization_id = elim r.claims [
  | some claims ↦ record {
    metadata = some (
        ("x-organization-id", claims.organization_id ∷ [])
        ∷ ("x-user-id", claims.subject ∷ [])
        ∷ ("x-roles", join claims.roles "," ∷ [])
        ∷ []);
  }
  | none ↦ record {
    metadata =
        some (("x-organization-id", organization_id ∷ []) ∷ ("x-roles", "org_admin" ∷ []) ∷ []);
  }
]

-- `decodeJSON`
unfoldable pub decode_json : {W A : Type 0} → Option A → Exec W Response A
decode_json decoded = require_some decoded (http_error 400 "invalid json body")

-- A call of a service, whose error `writeUpstreamError` writes.
unfoldable pub upstream : {W A : Type 0} → Exec W Failure A → Exec W Response A
upstream m w =
    let (r, w') = m w in (elim r [ ok a ↦ ok a | err e ↦ err (write_upstream_error e) ], w')

unfoldable pub health : {W : Type 0} → Exec W Response Response
health = pure (json 200 (fields (("status", "ok") ∷ [])))

-- The loop of `ready`.
unfoldable pub ready_from : {W : Type 0} → List (String × (W → Bool × W)) → Exec W Response Response
ready_from [] w = (ok (json 200 (fields (("status", "ready") ∷ []))), w)
ready_from ((name, is_serving) ∷ checks) w =
    let (serving, w') = is_serving w in
    let rest = ready_from checks w' in
    if serving
    then rest
    else (err (json 503 (fields (("status", "unready") ∷ ("service", name) ∷ []))), w')

module _ (d : Decoders) {W : Type 0} (h : Clients W) where
  unfoldable pub create_user : Request → Exec W Response Response
  create_user r = do
    req ← decode_json (d.create_user r.body)
    check (not (req.email == "" || req.password == "" || req.organization_id == ""))
        (http_error 400 "organization_id, email, and password are required")
    user ← upstream (h.create_user req)
    pure (json 201 (a_user user))

  unfoldable pub login : Request → Exec W Response Response
  login r = do
    req ← decode_json (d.login r.body)
    check (not (req.email == "" || req.password == ""))
        (http_error 400 "email and password are required")
    answer ← upstream (h.login req)
    pure (json 200 (a_login answer))

  unfoldable pub create_document : Request → Exec W Response Response
  create_document r = do
    req ← decode_json (d.create_document r.body)
    let org = organization_id r req.organization_id
    check (not (org == "" || req.kind == "" || req.filename == "" || req.content_base64 == ""))
        (http_error 400 "organization_id, type, filename, and content_base64 are required")
    content ←
        require_some (d.base64 req.content_base64)
          (http_error 400 "content_base64 must be valid base64")
    doc ← upstream (
        h.create_document (identity_metadata r org) (record {
          organization_id = org;
          kind = req.kind;
          filename = req.filename;
          content_type = req.content_type;
          content = content;
        }))
    pure (json 201 (a_document doc))

  unfoldable pub get_document : Request → Exec W Response Response
  get_document r = do
    let org = organization_id r (r.query "organization_id")
    check (not (org == "")) (http_error 400 "organization_id is required")
    doc ← upstream (
        h.get_document (identity_metadata r org)
          (record { organization_id = org; id = r.path_value "id" }))
    pure (json 200 (a_document doc))

  unfoldable pub upload_document : Request → Exec W Response Response
  upload_document r = do
    req ← decode_json (d.upload_document r.body)
    let org = organization_id r (r.query "organization_id")
    check (not (org == "" || req.filename == "" || req.content_base64 == ""))
        (http_error 400 "organization_id, filename, and content_base64 are required")
    content ←
        require_some (d.base64 req.content_base64)
          (http_error 400 "content_base64 must be valid base64")
    upload ← upstream (
        h.upload_document (identity_metadata r org) (record {
          organization_id = org;
          document_id = r.path_value "id";
          filename = req.filename;
          content_type = req.content_type;
          content = content;
          idempotency_key = req.idempotency_key;
        }))
    pure (json 202 (an_upload upload))

  unfoldable pub get_document_status : Request → Exec W Response Response
  get_document_status r = do
    let org = organization_id r (r.query "organization_id")
    check (not (org == "")) (http_error 400 "organization_id is required")
    document_status ← upstream (
        h.get_document_status (identity_metadata r org)
          (record { organization_id = org; document_id = r.path_value "id" }))
    pure (json 200 (a_status document_status))

  unfoldable pub start_verification : Request → Exec W Response Response
  start_verification r = do
    decoded ← decode_json (d.start_verification r.body)
    let req = record decoded { organization_id = organization_id r decoded.organization_id }
    check (not (req.organization_id == "" || req.document_id == ""))
        (http_error 400 "organization_id and document_id are required")
    verification ← upstream (h.start_verification req)
    pure (json 202 (a_verification verification))

  unfoldable pub get_verification : Request → Exec W Response Response
  get_verification r = do
    let org = organization_id r (r.query "organization_id")
    check (not (org == "")) (http_error 400 "organization_id is required")
    verification ←
        upstream (h.get_verification (record { organization_id = org; id = r.path_value "id" }))
    pure (json 200 (a_verification verification))
