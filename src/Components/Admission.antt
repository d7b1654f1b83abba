-- ===== src/Components/Admission.antt =====
-- What stands behind a request that an authenticating component under components/ passes on.
use wasi_http_middleware.Prelude.{ℕ, Bool, true, List, ◌≡◌, ap, ◌∙◌, sym, Bytes, Option, Result, ok}
use wasi_http_middleware.HttpCrate.{HttpCrate}
use wasi_http_middleware.Metadata.Codec.{Encodings}
use wasi_http_middleware.Policy.RequestId.{is_valid_request_id}
use wasi_http_middleware.Policy.Claims.{AuthnRequestV1, AuthnSuccessV1}
use wasi_http_middleware.AuthnRuntime.Config.{Variable, AuthnConfig, from_environment}
use wasi_http_middleware.AuthnRuntime.Authenticate.{
  BrokerCallError, pass, authenticate_with_diagnostics,
}
use wasi_http_middleware.ComponentSupport.HeaderList.{header_values}
use wasi_http_middleware.ComponentSupport.Messages.{HostHttp, request_headers}
use wasi_http_middleware.ComponentSupport.Messages.Host.{IsHostHttp}
use wasi_http_middleware.ComponentSupport.Messages.Forward.{IsForwarded}
use wasi_http_middleware.Components.Trusted.{trusted_values}

-- The values under each name of the host's fields.
abbrev pub values_of : (host : HostHttp) → host.Request → Bytes → List Bytes
values_of host request name = host.fields.get (host.request_parts request).headers name

-- An edit that is described on a copy of the fields is described on the fields.
pub trusted_of_copy :
    {host : HostHttp} (laws : IsHostHttp host) (request after : host.Request)
    (context request_id : Bytes) (values : Bytes → List Bytes)
    → ((name : Bytes)
        → values name
          ≡ trusted_values context request_id (header_values (request_headers host request)) name)
    → IsForwarded host request after values
    → IsForwarded host request after (trusted_values context request_id (values_of host request))
unfolding request_headers
trusted_of_copy {host} laws request after context request_id values same f =
    let s = (host.request_parts request).headers in
    record {
      parts = f.parts;
      held = λ name.
          f.held name
          ∙ same name
          ∙ ap (λ vs. trusted_values context request_id (λ _. vs) name)
              (sym (laws.get-copy_all s name));
    }

module _ (host : HostHttp) (http : HttpCrate) (codecs : Encodings)
    (ip_is_loopback : Bytes → Option Bool) (from_slice : Bytes → Option AuthnSuccessV1)
    (exchange : AuthnRequestV1 → Bytes → Result BrokerCallError (ℕ × Bytes)) (in_flight : ℕ)
    (environment : List Variable) where
  -- The environment holds a valid configuration, the identifier is valid, the authentication of the headers
  -- passes with a context, and what goes on is the request with just this context and identifier as its
  -- trusted headers, and with no credential.
  pub record IsAdmitted (headers : http.HeaderMap) (request after : host.Request)
      (request_id : Bytes) : Type 0 where
    pub config : AuthnConfig http codecs ip_is_loopback
    pub configured : from_environment http codecs ip_is_loopback environment ≡ ok config
    pub identified : is_valid_request_id request_id ≡ true
    pub context : http.HeaderValue
    pub passed :
        (authenticate_with_diagnostics http codecs ip_is_loopback from_slice exchange config
          request_id headers in_flight).0
        ≡ pass context
    pub forwarded :
        IsForwarded host request after
          (trusted_values (http.as_bytes context) request_id (values_of host request))
