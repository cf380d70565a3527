-- ===== src/Transport/Status.antt =====
-- The status codes of internal/transport/grpc/errors.go and internal/transport/http/errors.go.
use strato.Prelude.{ℕ}
use strato.Domain.Error.{Error}
use strato.Middleware.{
  Code, not_found, already_exists, invalid_argument, unauthenticated, permission_denied,
  resource_exhausted, failed_precondition, canceled, deadline_exceeded, internal,
}

-- What a handler fails with: an error of the use cases, a page token that is none, or the end of its context.
pub data Failure : Type 0 where
  domain : Error → Failure
  invalid_cursor context_canceled context_deadline : Failure

code_of : Error → Code
code_of Error.not_found = not_found
code_of Error.already_exists = already_exists
code_of Error.invalid_argument = invalid_argument
code_of Error.unauthenticated = unauthenticated
code_of Error.token_reuse = unauthenticated
code_of Error.permission_denied = permission_denied
code_of Error.quota_exceeded = resource_exhausted
code_of Error.rate_limited = resource_exhausted
code_of Error.file_locked = failed_precondition
code_of Error.upload_incomplete = failed_precondition
code_of Error.upload_expired = failed_precondition
code_of Error.checksum_mismatch = failed_precondition
code_of Error.password_required = failed_precondition
code_of Error.infra = internal

-- `toStatus`.
unfoldable pub to_status : Failure → Code
unfolding code_of
to_status (domain e) = code_of e
to_status invalid_cursor = invalid_argument
to_status context_canceled = canceled
to_status context_deadline = deadline_exceeded

-- The code that `writeError` answers with.
unfoldable pub http_code : Error → ℕ
http_code Error.not_found = 404
http_code Error.invalid_argument = 400
http_code Error.already_exists = 409
http_code Error.unauthenticated = 401
http_code Error.permission_denied = 403
http_code Error.quota_exceeded = 507
http_code Error.password_required = 401
http_code Error.file_locked = 412
http_code Error.upload_incomplete = 412
http_code Error.upload_expired = 412
http_code Error.checksum_mismatch = 412
http_code _ = 500
