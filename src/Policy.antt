-- ===== src/Policy.antt =====
-- crates/policy-core/src/lib.rs: the pure policy logic, with its error type.
pub mod Path
pub mod RequestId
pub mod Credentials
pub mod SecurityHeaders
pub mod Claims
pub mod Cors
use wasi_http_middleware.Prelude.{Bytes}

-- `PolicyError`; the text of `InvalidConfiguration` is its message.
pub data PolicyError : Type 0 where
  invalid_generated_request_id : PolicyError
  invalid_configuration : Bytes → PolicyError
  invalid_header : PolicyError
  duplicate_authorization : PolicyError
  invalid_authorization : PolicyError
  invalid_policy_response : PolicyError
  invalid_path : PolicyError
