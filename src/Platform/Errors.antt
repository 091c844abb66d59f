-- ===== src/Platform/Errors.antt =====
-- src/platform/errors/error-codes.ts and domain-error.ts: the error codes, their registry of HTTP
-- statuses and client messages, and the error value that the services throw. A DomainError is kept
-- as its code and module; its details, cause and log text are left out.
pub mod Registry
use dhund_research_ai.Base.{ℕ, Bool, List, [], ◌∷◌, String, leb, any, str_eq}

pub data ErrorCode : Type 0 where
  malformed_request invalid_file_type invalid_filename magic_bytes_mismatch : ErrorCode
  url_scheme_not_allowed url_target_blocked idempotency_key_required unauthenticated : ErrorCode
  invalid_credentials mfa_required mfa_invalid mfa_recovery_invalid token_invalid : ErrorCode
  refresh_invalid refresh_reuse_detected session_revoked forbidden csrf_invalid : ErrorCode
  quota_exceeded feature_not_available concurrency_limit not_found invalid_state_transition :
      ErrorCode
  already_exists email_taken idempotency_key_reused upload_not_completed session_expired : ErrorCode
  document_not_ready import_session_not_cancellable file_too_large response_too_large : ErrorCode
  validation_error pagination_invalid ai_data_boundary_violation : ErrorCode
  extraction_value_type_mismatch library_item_target_invalid rate_limited internal_error : ErrorCode
  retrieval_unavailable upstream_unavailable service_unavailable storage_unavailable : ErrorCode
  ai_unavailable upstream_timeout : ErrorCode

-- The code as it is sent to clients.
unfoldable pub code_text : ErrorCode → String
code_text malformed_request = "malformed_request"
code_text invalid_file_type = "invalid_file_type"
code_text invalid_filename = "invalid_filename"
code_text magic_bytes_mismatch = "magic_bytes_mismatch"
code_text url_scheme_not_allowed = "url_scheme_not_allowed"
code_text url_target_blocked = "url_target_blocked"
code_text idempotency_key_required = "idempotency_key_required"
code_text unauthenticated = "unauthenticated"
code_text invalid_credentials = "invalid_credentials"
code_text mfa_required = "mfa_required"
code_text mfa_invalid = "mfa_invalid"
code_text mfa_recovery_invalid = "mfa_recovery_invalid"
code_text token_invalid = "token_invalid"
code_text refresh_invalid = "refresh_invalid"
code_text refresh_reuse_detected = "refresh_reuse_detected"
code_text session_revoked = "session_revoked"
code_text forbidden = "forbidden"
code_text csrf_invalid = "csrf_invalid"
code_text quota_exceeded = "quota_exceeded"
code_text feature_not_available = "feature_not_available"
code_text concurrency_limit = "concurrency_limit"
code_text not_found = "not_found"
code_text invalid_state_transition = "invalid_state_transition"
code_text already_exists = "already_exists"
code_text email_taken = "email_taken"
code_text idempotency_key_reused = "idempotency_key_reused"
code_text upload_not_completed = "upload_not_completed"
code_text session_expired = "session_expired"
code_text document_not_ready = "document_not_ready"
code_text import_session_not_cancellable = "import_session_not_cancellable"
code_text file_too_large = "file_too_large"
code_text response_too_large = "response_too_large"
code_text validation_error = "validation_error"
code_text pagination_invalid = "pagination_invalid"
code_text ai_data_boundary_violation = "ai_data_boundary_violation"
code_text extraction_value_type_mismatch = "extraction_value_type_mismatch"
code_text library_item_target_invalid = "library_item_target_invalid"
code_text rate_limited = "rate_limited"
code_text internal_error = "internal_error"
code_text retrieval_unavailable = "retrieval_unavailable"
code_text upstream_unavailable = "upstream_unavailable"
code_text service_unavailable = "service_unavailable"
code_text storage_unavailable = "storage_unavailable"
code_text ai_unavailable = "ai_unavailable"
code_text upstream_timeout = "upstream_timeout"

-- `ERROR_CODES`.
abbrev pub error_codes : List ErrorCode
error_codes =
    malformed_request ∷ invalid_file_type ∷ invalid_filename ∷ magic_bytes_mismatch
    ∷ url_scheme_not_allowed ∷ url_target_blocked ∷ idempotency_key_required ∷ unauthenticated
    ∷ invalid_credentials ∷ mfa_required ∷ mfa_invalid ∷ mfa_recovery_invalid ∷ token_invalid
    ∷ refresh_invalid ∷ refresh_reuse_detected ∷ session_revoked ∷ forbidden ∷ csrf_invalid
    ∷ quota_exceeded ∷ feature_not_available ∷ concurrency_limit ∷ not_found
    ∷ invalid_state_transition ∷ already_exists ∷ email_taken ∷ idempotency_key_reused
    ∷ upload_not_completed ∷ session_expired ∷ document_not_ready ∷ import_session_not_cancellable
    ∷ file_too_large ∷ response_too_large ∷ validation_error ∷ pagination_invalid
    ∷ ai_data_boundary_violation ∷ extraction_value_type_mismatch ∷ library_item_target_invalid
    ∷ rate_limited ∷ internal_error ∷ retrieval_unavailable ∷ upstream_unavailable
    ∷ service_unavailable ∷ storage_unavailable ∷ ai_unavailable ∷ upstream_timeout ∷ []

pub record ErrorCodeDefinition : Type 0 where
  pub status : ℕ
  pub message : String

abbrev entry : ℕ → String → ErrorCodeDefinition
entry status message = record { status = status; message = message }

unfoldable pub error_registry : ErrorCode → ErrorCodeDefinition
error_registry malformed_request = entry 400 "The request could not be parsed."
error_registry invalid_file_type = entry 400 "This file type is not allowed."
error_registry invalid_filename = entry 400 "The filename is not valid."
error_registry magic_bytes_mismatch = entry 400 "The file contents do not match the declared type."
error_registry url_scheme_not_allowed = entry 400 "This URL scheme is not allowed."
error_registry url_target_blocked = entry 400 "This URL is not allowed."
error_registry idempotency_key_required = entry 400 "An Idempotency-Key header is required."
error_registry unauthenticated = entry 401 "Authentication required."
error_registry invalid_credentials = entry 401 "Authentication required."
error_registry mfa_required = entry 401 "Multi-factor authentication required."
error_registry mfa_invalid = entry 401 "Authentication required."
error_registry mfa_recovery_invalid = entry 401 "Authentication required."
error_registry token_invalid = entry 401 "Authentication required."
error_registry refresh_invalid = entry 401 "Authentication required."
error_registry refresh_reuse_detected = entry 401 "Authentication required."
error_registry session_revoked = entry 401 "Authentication required."
error_registry forbidden = entry 403 "Insufficient permissions."
error_registry csrf_invalid = entry 403 "The request could not be validated."
error_registry quota_exceeded = entry 403 "A usage limit for this organization has been reached."
error_registry feature_not_available =
    entry 403 "This feature is not available on the current plan."
error_registry concurrency_limit =
    entry 403 "Your organization has reached its concurrent research-run limit. Try again shortly."
error_registry not_found = entry 404 "Resource not found."
error_registry invalid_state_transition = entry 409 "This action is not valid in the current state."
error_registry already_exists = entry 409 "The resource already exists."
error_registry email_taken = entry 409 "The resource already exists."
error_registry idempotency_key_reused =
    entry 409 "This idempotency key was reused with a different request."
error_registry upload_not_completed = entry 409 "The upload has not completed."
error_registry session_expired = entry 409 "The session has expired."
error_registry document_not_ready =
    entry 409 "This document is still processing and cannot be used yet."
error_registry import_session_not_cancellable =
    entry 409 "This import session can no longer be cancelled."
error_registry file_too_large = entry 413 "The file exceeds the allowed size."
error_registry response_too_large = entry 413 "The response exceeded the allowed size."
error_registry validation_error = entry 422 "Request contains invalid fields."
error_registry pagination_invalid = entry 422 "Pagination parameters are invalid."
error_registry ai_data_boundary_violation = entry 422 "Request violates the AI data boundary."
error_registry extraction_value_type_mismatch =
    entry 422 "The value does not match the declared column type."
error_registry library_item_target_invalid = entry 422 "The library item target is invalid."
error_registry rate_limited = entry 429 "Too many requests."
error_registry internal_error = entry 500 "Internal error."
error_registry retrieval_unavailable = entry 500 "Search is unavailable."
error_registry upstream_unavailable = entry 502 "This source is temporarily unavailable."
error_registry service_unavailable = entry 503 "Temporarily unavailable. Retry shortly."
error_registry storage_unavailable = entry 503 "Temporarily unavailable. Retry shortly."
error_registry ai_unavailable = entry 503 "Model processing failed. Retry shortly."
error_registry upstream_timeout = entry 504 "Temporarily unavailable. Retry shortly."

unfoldable pub http_status_for : ErrorCode → ℕ
unfolding error_registry
http_status_for code = (error_registry code).status

unfoldable pub client_message_for : ErrorCode → String
unfolding error_registry
client_message_for code = (error_registry code).message

-- `typeof value === 'string' && value in ERROR_REGISTRY`, for a string.
unfoldable pub is_error_code : String → Bool
unfolding code_text
is_error_code value = any (λ code. str_eq value (code_text code)) error_codes

abbrev pub is_server_error_status : ℕ → Bool
is_server_error_status status = leb 500 status

pub record DomainError : Type 0 where
  pub code : ErrorCode
  pub source : String

-- `notFound({ module })`.
abbrev pub not_found_in : String → DomainError
not_found_in source = record { code = not_found; source = source }
