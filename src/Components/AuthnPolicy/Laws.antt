-- ===== src/Components/AuthnPolicy/Laws.antt =====
-- Which requests components/authn-policy passes on.
use wasi_http_middleware.Prelude.{
  ℕ, Bool, true, List, ◌≡◌, refl, ap, Bytes, Option, Result, ok, err, map_err-eq-ok,
}
use wasi_http_middleware.HttpCrate.{HttpCrate}
use wasi_http_middleware.Metadata.Codec.{Encodings}
use wasi_http_middleware.Policy.RequestId.{is_valid_request_id, canonicalize, canonicalize-IsValid}
use wasi_http_middleware.Policy.Claims.{AuthnRequestV1, AuthnSuccessV1}
use wasi_http_middleware.AuthnRuntime.{AuthnConfigError}
use wasi_http_middleware.AuthnRuntime.Config.{Variable, AuthnConfig, from_environment}
use wasi_http_middleware.AuthnRuntime.Authenticate.{
  BrokerCallError, AuthnOutcome, pass, reject, authenticate_with_diagnostics,
}
use wasi_http_middleware.ComponentSupport.HeaderList.{Header}
use wasi_http_middleware.ComponentSupport.HeaderMap.{to_header_map}
use wasi_http_middleware.ComponentSupport.RequestId.{generated_request_id}
use wasi_http_middleware.ComponentSupport.Messages.{
  HostHttp, request_headers, replace_request_headers,
}
use wasi_http_middleware.ComponentSupport.Messages.Host.{IsHostHttp}
use wasi_http_middleware.ComponentSupport.Messages.Forward.{replace_request_headers-IsForwarded}
use wasi_http_middleware.Components.AuthnPolicy.{
  trusted_fields, forward, forward_or, answer_outcome, canonical_request_id, admit_configured,
  admit_identified, admit_headers, admit,
}
use wasi_http_middleware.Components.Trusted.{header_values-trusted_fields}
use wasi_http_middleware.Components.Admission.{IsAdmitted, trusted_of_copy}

canonical_request_id-IsValid :
    (host : HostHttp) (http : HttpCrate) (prefix : List ℕ) (headers : http.HeaderMap) (sequence : ℕ)
    {request_id : Bytes}
    → (canonical_request_id host http prefix headers sequence).0 ≡ ok request_id
    → is_valid_request_id request_id ≡ true
unfolding canonical_request_id
canonical_request_id-IsValid host http prefix headers sequence {request_id} h =
    let made = canonicalize http headers (generated_request_id prefix) sequence in
    let same = map_err-eq-ok made.0 host.internal_error h in
    (canonicalize-IsValid http headers (generated_request_id prefix) sequence made.1 request_id
      (ap (λ r. (r, made.1)) same)).0

module _ {host : HostHttp} where
  open host use {Request, ErrorCode}

  forward_or-eq-forward :
      (r : Result ErrorCode Request) {after : Request}
      → forward_or host r ≡ forward after
      → r ≡ ok after
  unfolding forward_or
  forward_or-eq-forward (ok request) h = cc
  forward_or-eq-forward (err e) h = cc

  module _ {http : HttpCrate} where
    module _ {codecs : Encodings} {ip_is_loopback : Bytes → Option Bool} where
      answer_outcome-eq-forward :
          (request : Request) (fields : List Header) (realm request_id : Bytes)
          (outcome : AuthnOutcome http codecs ip_is_loopback) {after : Request}
          → answer_outcome host http codecs ip_is_loopback request fields realm request_id outcome
            ≡ forward after
          → (context : http.HeaderValue) × (outcome ≡ pass context)
            × (replace_request_headers host request
                  (trusted_fields fields (http.as_bytes context) request_id)
                ≡ ok after)
      unfolding answer_outcome
      answer_outcome-eq-forward request fields realm request_id (pass context) h =
          (context, refl, forward_or-eq-forward _ h)
      answer_outcome-eq-forward request fields realm request_id (reject rejection) h = cc

module _ {host : HostHttp} (laws : IsHostHttp host) (http : HttpCrate) (codecs : Encodings)
    (ip_is_loopback : Bytes → Option Bool) (from_slice : Bytes → Option AuthnSuccessV1)
    (exchange : AuthnRequestV1 → Bytes → Result BrokerCallError (ℕ × Bytes)) (in_flight : ℕ)
    (environment : List Variable) where
  open host use {Request, ErrorCode}

  admit_identified-IsAdmitted :
      (request after : Request) (headers : http.HeaderMap) (identified : Result ErrorCode Bytes)
      → ((request_id : Bytes) → identified ≡ ok request_id → is_valid_request_id request_id ≡ true)
      → admit_identified host http codecs ip_is_loopback from_slice exchange in_flight environment
          request
          (request_headers host request)
          headers
          identified
        ≡ forward after
      → (request_id : Bytes) × (identified ≡ ok request_id)
        × IsAdmitted host http codecs ip_is_loopback from_slice exchange in_flight environment
            headers request after request_id
  unfolding admit_identified admit_configured
  admit_identified-IsAdmitted request after headers (err e) valid h = cc
  admit_identified-IsAdmitted request after headers (ok request_id) valid h =
      go (from_environment http codecs ip_is_loopback environment) refl h
    where
      go :
          (r : Result AuthnConfigError (AuthnConfig http codecs ip_is_loopback))
          → from_environment http codecs ip_is_loopback environment ≡ r
          → admit_configured host http codecs ip_is_loopback from_slice exchange in_flight request
              (request_headers host request)
              headers
              request_id
              r
            ≡ forward after
          → (id : Bytes) × (◌≡◌ {A = Result ErrorCode Bytes} (ok request_id) (ok id))
            × IsAdmitted host http codecs ip_is_loopback from_slice exchange in_flight environment
                headers request after id
      go (err e) loaded k = cc
      go (ok config) loaded k =
          let answer =
            authenticate_with_diagnostics http codecs ip_is_loopback from_slice exchange config
              request_id headers in_flight in
          let (context, passed, replaced) =
            answer_outcome-eq-forward request (request_headers host request) config.service_id
              request_id answer.0 k in
          let bytes = http.as_bytes context in
          let fields = trusted_fields (request_headers host request) bytes request_id in
          (
            request_id,
            refl,
            record {
              config = config;
              configured = loaded;
              identified = valid request_id refl;
              context = context;
              passed = passed;
              forwarded =
                  trusted_of_copy laws request after bytes request_id _
                    (header_values-trusted_fields (request_headers host request) bytes request_id)
                    (replace_request_headers-IsForwarded laws request after fields replaced);
            },
          )

  -- A request is passed on only when its fields convert to a header map, the environment holds a valid
  -- configuration, and the authentication of these headers passes with a context. What goes on has just
  -- this context and one valid identifier as its trusted headers and no credential, and is otherwise the
  -- request that came.
  pub admit-IsAdmitted :
      (prefix : List ℕ) (request after : Request) (sequence : ℕ)
      → (admit host http codecs ip_is_loopback from_slice exchange in_flight environment prefix
          request sequence).0
        ≡ forward after
      → (headers : http.HeaderMap) × (to_header_map http (request_headers host request)
          ≡ ok headers)
        × ((request_id : Bytes) × IsAdmitted host http codecs ip_is_loopback from_slice exchange
              in_flight environment headers request after request_id)
  unfolding admit admit_headers
  admit-IsAdmitted prefix request after sequence h =
      go (to_header_map http (request_headers host request)) refl h
    where
      go :
          (r : Result (Unit {0}) http.HeaderMap)
          → to_header_map http (request_headers host request) ≡ r
          → (admit_headers host http codecs ip_is_loopback from_slice exchange in_flight environment
              prefix request
              (request_headers host request)
              sequence
              r).0
            ≡ forward after
          → (headers : http.HeaderMap) × (to_header_map http (request_headers host request)
              ≡ ok headers)
            × ((request_id : Bytes) × IsAdmitted host http codecs ip_is_loopback from_slice exchange
                  in_flight environment headers request after request_id)
      go (err e) converted k = cc
      go (ok headers) converted k =
          let (request_id, _, admitted) =
            admit_identified-IsAdmitted request after headers
              (canonical_request_id host http prefix headers sequence).0
              (λ id. canonical_request_id-IsValid host http prefix headers sequence) k in
          (headers, converted, (request_id, admitted))
