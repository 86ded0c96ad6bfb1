-- ===== src/Ingest/Failures.antt =====
-- The responses to failures of an upload (describeIngestFailure and authExpiredIngestFailure of
-- src/server/ingest/service.ts). The words are left out.
use superscriber.Prelude.{Text, ℕ, Option, none}
use superscriber.Domain.Errors.{
  ErrorCode, ResponseCode, command_code, auth_expired, internal_error, Failure, ingest_error,
}

-- With the field that the error points at.
pub record FailureBody : Type 0 where
  pub code : ResponseCode
  pub field : Option Text

pub record FailureResponse : Type 0 where
  pub status : ℕ
  pub body : FailureBody

abbrev pub status_for_command_code : ErrorCode → ℕ
status_for_command_code ErrorCode.access_denied = 403
status_for_command_code ErrorCode.not_found = 404
status_for_command_code ErrorCode.validation_error = 400
status_for_command_code ErrorCode.state_changed = 409
status_for_command_code other = 500

unfoldable pub status_for_error_code : ResponseCode → ℕ
status_for_error_code auth_expired = 401
status_for_error_code internal_error = 500
status_for_error_code (command_code code) = status_for_command_code code

-- An error of another kind is not told apart.
unfoldable pub describe_ingest_failure : Failure → FailureResponse
unfolding status_for_error_code
describe_ingest_failure (ingest_error code field) = record {
  status = status_for_error_code (command_code code);
  body = record { code = command_code code; field = field };
}
describe_ingest_failure other = record {
  status = 500;
  body = record { code = internal_error; field = none };
}

unfoldable pub auth_expired_ingest_failure : FailureResponse
auth_expired_ingest_failure = record {
  status = 401;
  body = record { code = auth_expired; field = none };
}
