-- ===== src/Gateway/Errors.antt =====
-- doclens-api-gateway/internal/httpapi/errors.go
use doc_lens.Base.{ℕ}
use doc_lens.Rpc.{
  Code, invalid_argument, deadline_exceeded, not_found, already_exists, permission_denied,
  failed_precondition, unavailable, unauthenticated,
}
use doc_lens.Gateway.Http.{
  Response, http_error, Failure, context_canceled, context_deadline_exceeded, other_error,
  with_status,
}

-- The switch on the code.
unfoldable pub http_status : Code → ℕ
http_status invalid_argument = 400
http_status unauthenticated = 401
http_status permission_denied = 403
http_status not_found = 404
http_status already_exists = 409
http_status failed_precondition = 409
http_status unavailable = 503
http_status deadline_exceeded = 504
http_status _ = 502

unfoldable pub write_upstream_error : Failure → Response
write_upstream_error context_canceled = http_error 408 "request canceled"
write_upstream_error context_deadline_exceeded = http_error 504 "upstream timeout"
write_upstream_error other_error = http_error 502 "upstream error"
write_upstream_error (with_status st) = http_error (http_status st.code) st.message
