-- ===== src/Components/SecureDefaults/Authenticated.antt =====
-- What components/secure-defaults passes on, behind its CORS policy.
use wasi_http_middleware.Prelude.{
  ℕ, Bool, true, List, ◌≡◌, refl, ap, ◌∙◌, Bytes, Option, Result, ok, err,
}
use wasi_http_middleware.HttpCrate.{HttpCrate}
use wasi_http_middleware.Metadata.Codec.{Encodings}
use wasi_http_middleware.Policy.RequestId.{is_valid_request_id}
use wasi_http_middleware.Policy.Claims.{AuthnRequestV1, AuthnSuccessV1}
use wasi_http_middleware.AuthnRuntime.{AuthnConfigError}
use wasi_http_middleware.AuthnRuntime.Config.{Variable, AuthnConfig, from_environment}
use wasi_http_middleware.AuthnRuntime.Authenticate.{BrokerCallError, authenticate_with_diagnostics}
use wasi_http_middleware.ComponentSupport.Messages.{HostHttp, request_headers, edit_request_headers}
use wasi_http_middleware.ComponentSupport.Messages.Host.{IsHostHttp}
use wasi_http_middleware.ComponentSupport.Messages.Forward.{
  IsForwarded, edited, edit_request_headers-IsForwarded,
}
use wasi_http_middleware.Components.SecureDefaults.{untrusted_names, forward}
use wasi_http_middleware.Components.SecureDefaults.Handle.{trusted_replacements, admit_configured}
use wasi_http_middleware.Components.Trusted.{trusted_values, edited-untrusted_names}
use wasi_http_middleware.Components.Admission.{IsAdmitted, values_of, trusted_of_copy}
use wasi_http_middleware.Components.SecureDefaults.Parts.{answer_outcome-eq-forward}

module _ {host : HostHttp} (laws : IsHostHttp host) (http : HttpCrate) (codecs : Encodings)
    (ip_is_loopback : Bytes → Option Bool) (from_slice : Bytes → Option AuthnSuccessV1)
    (exchange : AuthnRequestV1 → Bytes → Result BrokerCallError (ℕ × Bytes)) (in_flight : ℕ)
    (environment : List Variable) where
  open host use {Request, ErrorCode}

  abbrev Admitted : http.HeaderMap → Request → Request → Bytes → Type 0
  Admitted headers request after request_id =
      IsAdmitted host http codecs ip_is_loopback from_slice exchange in_flight environment headers
        request after request_id

  -- The edit is described on the fields that the host holds.
  edited-trusted :
      (request after : Request) (context request_id : Bytes)
      → edit_request_headers host request
          (untrusted_names (request_headers host request))
          (trusted_replacements context request_id)
        ≡ ok after
      → IsForwarded host request after (trusted_values context request_id (values_of host request))
  unfolding request_headers
  edited-trusted request after context request_id h =
      let s = (host.request_parts request).headers in
      let fields = request_headers host request in
      let names = untrusted_names fields in
      let replacements = trusted_replacements context request_id in
      trusted_of_copy laws request after context request_id _
        (λ name.
          ap (λ vs. edited names replacements (λ _. vs) name) (laws.get-copy_all s name)
          ∙ edited-untrusted_names fields context request_id name)
        (edit_request_headers-IsForwarded laws request after names replacements h)

  pub admit_configured-IsAdmitted :
      (request after : Request) (headers cors_headers cors : http.HeaderMap) (request_id id : Bytes)
      → is_valid_request_id request_id ≡ true
      → admit_configured http host codecs ip_is_loopback from_slice exchange in_flight request
          (request_headers host request)
          headers
          cors_headers
          request_id
          (from_environment http codecs ip_is_loopback environment)
        ≡ forward after cors id
      → (cors_headers ≡ cors) × Admitted headers request after id
  unfolding admit_configured
  admit_configured-IsAdmitted request after headers cors_headers cors request_id id valid h =
      go (from_environment http codecs ip_is_loopback environment) refl h
    where
      go :
          (r : Result AuthnConfigError (AuthnConfig http codecs ip_is_loopback))
          → from_environment http codecs ip_is_loopback environment ≡ r
          → admit_configured http host codecs ip_is_loopback from_slice exchange in_flight request
              (request_headers host request)
              headers
              cors_headers
              request_id
              r
            ≡ forward after cors id
          → (cors_headers ≡ cors) × Admitted headers request after id
      go (err e) loaded k = absurd (cc)
      go (ok config) loaded k =
          let answer =
            authenticate_with_diagnostics http codecs ip_is_loopback from_slice exchange config
              request_id headers in_flight in
          let (context, passed, made, same, id_same) =
            answer_outcome-eq-forward request (request_headers host request) config.service_id
              cors_headers request_id answer.0 k in
          (
            same,
            rw (← id_same) (record {
              config = config;
              configured = loaded;
              identified = valid;
              context = context;
              passed = passed;
              forwarded = edited-trusted request after (http.as_bytes context) request_id made;
            }),
          )
