-- ===== src/Authn/Authenticate.antt =====
-- `Authenticator::authenticate_request` of crates/authn/src/lib.rs. The broker's transport is a function
-- from a request and a credential to what its future yields; the clock is read once, as `now`.
pub mod Laws
use wasi_http_middleware.Prelude.{
  ℕ, Bytes, Option, none, some, Result, ok, err, ◌>>=◌, ok_or, map_err,
}
use wasi_http_middleware.HttpCrate.{HttpCrate}
use wasi_http_middleware.Metadata.Context.{AuthContextV1, anonymous_context}
use wasi_http_middleware.Policy.{PolicyError}
use wasi_http_middleware.Policy.Credentials.{authorization_value}
use wasi_http_middleware.Policy.Claims.{AuthnRequestV1, AuthDecision, allow, into_context}
use wasi_http_middleware.Authn.{
  AuthenticationMode, required, optional, AuthenticationConfig, BrokerTransportError,
  AuthnRejection, invalid_request, missing_credentials, invalid_credentials, VerifiedAuthContext,
  validate_lifetime, Request, canonical_request_id, sanitize_headers, finish,
}

abbrev pub Transport : Type 0
Transport = AuthnRequestV1 → Bytes → Result BrokerTransportError AuthDecision

-- A request without a credential.
unfoldable pub anonymous_access :
    AuthenticationMode → AuthenticationConfig → Result AuthnRejection AuthContextV1
unfolding anonymous_context
anonymous_access required config = err missing_credentials
anonymous_access optional config =
    map_err (anonymous_context config.service_id config.audiences) AuthnRejection.unavailable

-- The `match` on the decision.
unfoldable pub bind_decision :
    AuthenticationConfig → AuthDecision → Result AuthnRejection AuthContextV1
unfolding into_context
bind_decision config (allow claims) =
    map_err (into_context claims config.service_id config.audiences) AuthnRejection.unavailable
bind_decision config AuthDecision.unauthenticated = err invalid_credentials
bind_decision config AuthDecision.unavailable = err AuthnRejection.unavailable

unfoldable pub broker_request : AuthenticationConfig → Bytes → AuthnRequestV1
broker_request config request_id = record {
  version = 1;
  service_id = config.service_id;
  audiences = config.audiences;
  request_id = request_id;
}

module _ (transport : Transport) (now : ℕ) where
  -- A request with a credential, and the identifier that it carries.
  unfoldable pub broker_access :
      AuthenticationConfig → Option Bytes → Bytes → Result AuthnRejection AuthContextV1
  unfolding bind_decision broker_request validate_lifetime
  broker_access config found authorization = do
    request_id ← ok_or found invalid_request
    decision ←
        map_err (transport (broker_request config request_id) authorization)
          AuthnRejection.unavailable
    context ← bind_decision config decision
    _ ← validate_lifetime context now
    ok context

  unfoldable pub access :
      AuthenticationConfig → Option Bytes → Option Bytes → Result AuthnRejection AuthContextV1
  unfolding anonymous_access broker_access
  access config found none = anonymous_access config.mode config
  access config found (some authorization) = broker_access config found authorization

  unfoldable pub authenticate_request :
      (http : HttpCrate) {B : Type 0}
      → AuthenticationConfig
      → Request http B
      → Result AuthnRejection VerifiedAuthContext × Request http B
  unfolding authorization_value canonical_request_id sanitize_headers access finish
  authenticate_request http config request =
      let authorization = authorization_value http request.headers in
      let request_id = canonical_request_id http request.headers in
      finish http (sanitize_headers http request)
        (map_err authorization invalid_request >>= access config request_id)
