-- ===== src/Authn.antt =====
-- The types of crates/authn/src/lib.rs, and the functions that its two entry points share. A request is
-- its header map, the slot of its extensions that holds a `VerifiedAuthContext`, and the parts that
-- nothing here reads.
pub mod Authenticate
pub mod Ingress
pub mod Outcomes
use wasi_http_middleware.Prelude.{
  ℕ, Bool, true, false, not, List, [], ◌∷◌, ◌≡◌, Bytes, leb, Option, none, some, Result, ok, err,
  ◌>>=◌, map_err, if◌then◌else◌,
}
use wasi_http_middleware.HttpCrate.{HttpCrate}
use wasi_http_middleware.Metadata.{request_id_header}
use wasi_http_middleware.Metadata.Principal.{PrincipalV1}
use wasi_http_middleware.Metadata.Context.{AuthContextV1, anonymous_context}
use wasi_http_middleware.Metadata.Headers.{strip_reserved_auth_headers}
use wasi_http_middleware.Policy.Credentials.{authorization}
use wasi_http_middleware.Policy.RequestId.{is_valid_request_id}

pub data AuthenticationMode : Type 0 where
  required optional : AuthenticationMode

pub record AuthenticationConfig : Type 0 where
  pub service_id : Bytes
  pub audiences : List Bytes
  pub mode : AuthenticationMode

pub data AuthenticationConfigError : Type 0 where
  invalid_deployment_identity : AuthenticationConfigError

pub data BrokerTransportError : Type 0 where
  unavailable : BrokerTransportError

pub data AuthnRejection : Type 0 where
  invalid_request invalid_boundary missing_credentials invalid_credentials unavailable :
      AuthnRejection

-- `VerifiedAuthContext` of crates/metadata
pub record VerifiedAuthContext : Type 0 where
  pub context : AuthContextV1

-- `AuthenticationConfig::new`
unfoldable pub new_authentication_config :
    Bytes → List Bytes → AuthenticationMode → Result AuthenticationConfigError AuthenticationConfig
unfolding anonymous_context
new_authentication_config service_id audiences mode = do
  context ← map_err (anonymous_context service_id audiences) invalid_deployment_identity
  ok (record { service_id = context.service_id; audiences = context.audiences; mode = mode })

-- `expires_at <= now`, of a principal that has such a time
unfoldable pub is_expired : Option ℕ → ℕ → Bool
is_expired none now = false
is_expired (some expires_at) now = leb expires_at now

-- `context.principal().and_then(PrincipalV1::expires_at)`
unfoldable pub expiry : Option PrincipalV1 → Option ℕ
expiry none = none
expiry (some principal) = principal.expires_at

unfoldable pub validate_lifetime : AuthContextV1 → ℕ → Result AuthnRejection (Unit {0})
unfolding is_expired expiry
validate_lifetime context now =
    if is_expired (expiry context.principal) now then err invalid_credentials else ok tt

module _ (http : HttpCrate) where
  open http use {HeaderValue, HeaderMap, get_all, to_str, remove}

  pub record Request (B : Type 0) : Type 0 where
    pub headers : HeaderMap
    pub verified : Option VerifiedAuthContext
    pub rest : B

  -- The one value that the header may have, as an identifier.
  unfoldable pub identifier : List HeaderValue → Option Bytes
  unfolding is_valid_request_id
  identifier (value ∷ []) = elim (to_str value) [
    | none ↦ none
    | some text ↦ if is_valid_request_id text then some text else none
  ]
  identifier _ = none

  unfoldable pub canonical_request_id : HeaderMap → Option Bytes
  unfolding identifier
  canonical_request_id headers = identifier (get_all headers request_id_header)

  unfoldable pub sanitize_headers : {B : Type 0} → Request B → Request B
  unfolding strip_reserved_auth_headers
  sanitize_headers request = record request {
    headers = strip_reserved_auth_headers http (remove request.headers authorization);
  }

  -- What `install_verified` does with the request, when a context was reached.
  unfoldable pub finish :
      {B : Type 0}
      → Request B
      → Result AuthnRejection AuthContextV1
      → Result AuthnRejection VerifiedAuthContext × Request B
  finish request (ok context) =
      let verified : VerifiedAuthContext = record { context = context } in
      (ok verified, record request { verified = some verified })
  finish request (err rejection) = (err rejection, request)
