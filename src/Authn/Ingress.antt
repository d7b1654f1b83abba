-- ===== src/Authn/Ingress.antt =====
-- `accept_trusted_ingress` of crates/authn/src/lib.rs.
pub mod Bound
pub mod Laws
use wasi_http_middleware.Prelude.{
  ℕ, Bool, not, ◌||◌, List, Bytes, any, Option, none, some, Result, ok, err, ◌>>=◌, map_err,
  if◌then◌else◌, ◌=b◌,
}
use wasi_http_middleware.HttpCrate.{HttpCrate}
use wasi_http_middleware.Metadata.{MetadataError}
use wasi_http_middleware.Metadata.Context.{AuthContextV1}
use wasi_http_middleware.Metadata.Codec.{Encodings}
use wasi_http_middleware.Metadata.Headers.{parse_auth_context}
use wasi_http_middleware.Policy.Credentials.{authorization}
use wasi_http_middleware.Authn.{
  AuthenticationConfig, AuthenticationConfigError, AuthnRejection, invalid_boundary,
  VerifiedAuthContext, optional, new_authentication_config, validate_lifetime, Request,
  sanitize_headers, finish,
}

-- `TrustedIngressConfig`
pub record TrustedIngressConfig : Type 0 where
  pub config : AuthenticationConfig

-- `TrustedIngressConfig::new`
unfoldable pub new_trusted_ingress_config :
    Bytes → List Bytes → Result AuthenticationConfigError TrustedIngressConfig
unfolding new_authentication_config
new_trusted_ingress_config service_id audiences = do
  config ← new_authentication_config service_id audiences optional
  ok (record { config = config })

-- Some expected audience is one of the context's.
unfoldable pub shares_audience : List Bytes → List Bytes → Bool
unfolding ◌=b◌
shares_audience expected actual = any (λ e. any (λ a. a =b e) actual) expected

unfoldable pub is_bound_to : AuthenticationConfig → AuthContextV1 → Bool
unfolding shares_audience ◌=b◌
is_bound_to config context = not (
    not (context.service_id =b config.service_id)
    || not (shares_audience config.audiences context.audiences))

-- The tests, on what was read from the request before its headers were removed.
unfoldable pub accept :
    AuthenticationConfig
    → ℕ
    → Bool
    → Result MetadataError AuthContextV1
    → Result AuthnRejection AuthContextV1
unfolding is_bound_to validate_lifetime
accept config now had_authorization parsed = if had_authorization then err invalid_boundary else (do
  context ← map_err parsed invalid_boundary
  if not (is_bound_to config context)
      then err invalid_boundary
      else (do _ ← map_err (validate_lifetime context now) invalid_boundary; ok context))

unfoldable pub accept_trusted_ingress :
    (http : HttpCrate)
    → Encodings
    → ℕ
    → {B : Type 0} → TrustedIngressConfig
    → Request http B
    → Result AuthnRejection VerifiedAuthContext × Request http B
unfolding parse_auth_context sanitize_headers accept finish
accept_trusted_ingress http codecs now ingress request =
    let had_authorization = http.contains_key request.headers authorization in
    let parsed = parse_auth_context http codecs request.headers in
    finish http (sanitize_headers http request) (accept ingress.config now had_authorization parsed)
