-- ===== src/AuthnRuntime.antt =====
-- The constants, errors and rejections of crates/authn-runtime/src/lib.rs.
pub mod Url
pub mod Config
pub mod Authenticate
pub mod InFlight
pub mod Body
use wasi_http_middleware.Prelude.{ℕ, ◌*◌, Bytes, codes, ◌++◌, Option, none, some}

abbrev pub default_timeout_ms : ℕ
default_timeout_ms = 2000

abbrev pub max_timeout_ms : ℕ
max_timeout_ms = 60000

abbrev pub default_max_in_flight : ℕ
default_max_in_flight = 64

abbrev pub max_max_in_flight : ℕ
max_max_in_flight = 1024

abbrev pub max_broker_url_len : ℕ
max_broker_url_len = 2048

pub data AuthnConfigError : Type 0 where
  missing_broker_url invalid_broker_url invalid_timeout invalid_mode missing_service_id :
      AuthnConfigError
  missing_audiences invalid_deployment_identity invalid_max_in_flight invalid_boolean :
      AuthnConfigError
  duplicate_environment : AuthnConfigError

pub data AuthnMode : Type 0 where
  required optional : AuthnMode

pub data AuthnRejection : Type 0 where
  invalid_request missing_credentials invalid_credentials unavailable : AuthnRejection

-- `AuthnRejection::status`
unfoldable pub rejection_status : AuthnRejection → ℕ
rejection_status invalid_request = 400
rejection_status missing_credentials = 401
rejection_status invalid_credentials = 401
rejection_status unavailable = 503

-- `AuthnRejection::bearer_challenge`
unfoldable pub bearer_challenge : AuthnRejection → Bytes → Option Bytes
bearer_challenge missing_credentials realm = some (codes "Bearer realm=\"" ++ realm ++ codes "\"")
bearer_challenge invalid_credentials realm =
    some (codes "Bearer realm=\"" ++ realm ++ codes "\", error=\"invalid_token\"")
bearer_challenge invalid_request realm =
    some (codes "Bearer realm=\"" ++ realm ++ codes "\", error=\"invalid_request\"")
bearer_challenge unavailable realm = none
