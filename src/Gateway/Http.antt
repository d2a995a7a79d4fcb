-- ===== src/Gateway/Http.antt =====
-- What the gateway reads of a request and writes of a response (net/http), and the JSON bodies of
-- its own.
use doc_lens.Base.{ℕ, ℤ, String, List, [], ◌∷◌, Option}
use doc_lens.Rpc.{Status}
use doc_lens.Tokens.{Claims}
use doc_lens.Intake.Messages.{ProtoDocument, UploadDocumentResponse, ProtoDocumentStatus}
use doc_lens.Identity.Messages.{ProtoUser, LoginResponse}

-- `header`, `query` and `path_value` give the empty string for a name that is absent. `claims` is
-- what the request's context holds.
pub record Request : Type 0 where
  pub method : String
  pub path : String
  pub header : String → String
  pub query : String → String
  pub path_value : String → String
  pub remote_addr : String
  pub body : String
  pub claims : Option Claims

-- `Verification` of verification.proto.
pub record Verification : Type 0 where
  pub id : String
  pub document_id : String
  pub organization_id : String
  pub risk_score : ℤ
  pub status : String
  pub created_at : String
  pub completed_at : String

-- The values that `WriteJSON` encodes.
pub data Body : Type 0 where
  fields : List (String × String) → Body
  a_user : ProtoUser → Body
  a_login : LoginResponse → Body
  a_document : ProtoDocument → Body
  an_upload : UploadDocumentResponse → Body
  a_status : ProtoDocumentStatus → Body
  a_verification : Verification → Body

pub record Response : Type 0 where
  pub status : ℕ
  pub body : Body

-- `observability.Error`
abbrev pub http_error : ℕ → String → Response
http_error status message = record { status = status; body = fields (("error", message) ∷ []) }

abbrev pub json : ℕ → Body → Response
json status body = record { status = status; body = body }

-- The errors of a call upstream: the context's two, one with a gRPC status, or any other.
pub data Failure : Type 0 where
  context_canceled context_deadline_exceeded other_error : Failure
  with_status : Status → Failure
