-- ===== src/Examples/Runtime.antt =====
-- Runs of the configuration of crates/authn-runtime/src/lib.rs.
use wasi_http_middleware.Prelude.{
  ℕ, ◌⊎◌, Result, err, Bool, true, false, ◌&&◌, ◌||◌, List, [], ◌∷◌, ◌≡◌, refl, Bytes, codes,
  Option, none, some, ◌=b◌,
}
use wasi_http_middleware.Text.{contains_byte, starts_with}
use wasi_http_middleware.Metadata.{validated_deployment}
use wasi_http_middleware.AuthnRuntime.{AuthnMode}
use wasi_http_middleware.AuthnRuntime.Url.{
  Scheme, BrokerUrl, parse_broker_url, parse_broker_url-IsSafe, is_spin_internal_host,
  is_loopback_host,
}
use wasi_http_middleware.AuthnRuntime.Config.{Variable, AuthnConfig, from_environment}
use wasi_http_middleware.AuthnRuntime.Config.Valid.{
  IsValidAuthnConfig, from_environment-IsValidAuthnConfig,
}
use wasi_http_middleware.Policy.Claims.{AuthnSuccessV1, AuthnRequestV1}
use wasi_http_middleware.Policy.Credentials.{authorization}
use wasi_http_middleware.AuthnRuntime.Authenticate.{
  BrokerCallError, deadline, IsAuthenticated, authenticate_with_diagnostics-pass,
  authenticate_with_diagnostics,
}
use wasi_http_middleware.Examples.Http.{http, http_laws, Field}
use wasi_http_middleware.Examples.Codecs.{codecs, codec_laws}
use wasi_http_middleware.Examples.Auth.{encoded}

abbrev pub no_address : Bytes → Option Bool
no_address text = none

abbrev url : BrokerUrl http no_address
url = record { scheme = Scheme.https; authority = codes "app.example"; path_with_query = codes "/" }

parse_broker_url-IsSafe_example :
    (contains_byte b'@' url.authority ≡ false)
    × (url.scheme ≡ Scheme.http
        → (uri : Bytes × Bytes) × (http.parse_uri (codes "https://app.example") ≡ some uri)
          × ((is_spin_internal_host http no_address uri
                || (false && is_loopback_host http no_address uri))
              ≡ true))
unfolding parse_broker_url starts_with ◌=b◌
parse_broker_url-IsSafe_example =
    parse_broker_url-IsSafe http no_address (codes "https://app.example") false url refl

abbrev environment : List Variable
environment =
    (codes "WASI_MIDDLEWARE_AUTHN_BROKER_URL", codes "https://app.example")
    ∷ (codes "WASI_MIDDLEWARE_AUTHN_TIMEOUT_MS", codes "500")
    ∷ (codes "WASI_MIDDLEWARE_SERVICE_ID", codes "s")
    ∷ (codes "WASI_MIDDLEWARE_AUTHN_AUDIENCES", codes " a")
    ∷ []

abbrev config : AuthnConfig http codecs no_address
config = record {
  url = url;
  timeout_ns = 500000000;
  mode = AuthnMode.required;
  service_id = codes "s";
  audiences = codes "a" ∷ [];
  anonymous_header = encoded;
  max_in_flight = 64;
}

from_environment-IsValidAuthnConfig_example : IsValidAuthnConfig http codecs no_address config
unfolding from_environment starts_with codecs validated_deployment
from_environment-IsValidAuthnConfig_example =
    from_environment-IsValidAuthnConfig http_laws codec_laws no_address environment config refl

abbrev pub no_success : Bytes → Option AuthnSuccessV1
no_success body = none

abbrev pub no_exchange : AuthnRequestV1 → Bytes → Result BrokerCallError (ℕ × Bytes)
no_exchange request credential = err deadline

abbrev optional_config : AuthnConfig http codecs no_address
optional_config = record config { mode = AuthnMode.optional }

abbrev headers : List Field
headers = (codes "accept", codes "a") ∷ []

authenticate_with_diagnostics-pass_example :
    ((http.get_all headers authorization ≡ [])
      × (optional_config.mode ≡ AuthnMode.optional)
      × (encoded ≡ optional_config.anonymous_header))
    ⊎ IsAuthenticated http codecs no_address no_success no_exchange optional_config
        (codes "id")
        headers
        3
        encoded
unfolding authenticate_with_diagnostics ◌=b◌
authenticate_with_diagnostics-pass_example =
    authenticate_with_diagnostics-pass http codecs no_address no_success no_exchange optional_config
      (codes "id") headers 3 encoded refl
