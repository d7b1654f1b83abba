-- ===== src/Components/SecureDefaults/Laws.antt =====
-- Which requests components/secure-defaults passes on.
use wasi_http_middleware.Prelude.{
  ℕ, Bool, true, List, ◌≡◌, inl, inr, refl, Bytes, Option, none, Result, ok, err, Option-cases,
}
use wasi_http_middleware.HttpCrate.{HttpCrate}
use wasi_http_middleware.Metadata.Codec.{Encodings}
use wasi_http_middleware.Policy.{PolicyError}
use wasi_http_middleware.Policy.RequestId.{is_valid_request_id}
use wasi_http_middleware.Policy.Claims.{AuthnRequestV1, AuthnSuccessV1}
use wasi_http_middleware.Policy.Cors.Config.{CorsConfig}
use wasi_http_middleware.Policy.Cors.Evaluate.{CorsDecision, evaluate}
use wasi_http_middleware.AuthnRuntime.Config.{Variable}
use wasi_http_middleware.AuthnRuntime.Authenticate.{BrokerCallError}
use wasi_http_middleware.ComponentSupport.Messages.{HostHttp, request_headers}
use wasi_http_middleware.ComponentSupport.Messages.Host.{IsHostHttp}
use wasi_http_middleware.Components.{to_http_method}
use wasi_http_middleware.Components.Cors.{ConfigError, load_config}
use wasi_http_middleware.Components.SecureDefaults.{policy_headers, forward, canonical_request_id}
use wasi_http_middleware.Components.SecureDefaults.Handle.{
  admit_decision, admit_method, admit_cors, admit_identified, admit_headers, admit,
}
use wasi_http_middleware.Components.Admission.{IsAdmitted}
use wasi_http_middleware.Components.SecureDefaults.Parts.{canonical_request_id-IsValid}
use wasi_http_middleware.Components.SecureDefaults.Authenticated.{admit_configured-IsAdmitted}

-- How a request came through the CORS policy.
pub record IsCrossed (http : HttpCrate) (host : HostHttp) (environment : List Variable)
    (request : host.Request) (headers cors_headers : http.HeaderMap) : Type 0 where
  pub cors : CorsConfig
  pub loaded : load_config http environment ≡ ok cors
  pub method : Bytes
  pub known : to_http_method http (host.request_parts request).method ≡ ok method
  pub decision : CorsDecision http
  pub evaluated : evaluate http cors method headers ≡ ok decision
  pub undecided : decision.status ≡ none
  pub granted : decision.response_headers ≡ cors_headers

module _ {host : HostHttp} (laws : IsHostHttp host) (http : HttpCrate) (codecs : Encodings)
    (ip_is_loopback : Bytes → Option Bool) (from_slice : Bytes → Option AuthnSuccessV1)
    (exchange : AuthnRequestV1 → Bytes → Result BrokerCallError (ℕ × Bytes)) (in_flight : ℕ)
    (environment : List Variable) where
  open host use {Request, ErrorCode}

  abbrev Admitted : http.HeaderMap → Request → Request → Bytes → Type 0
  Admitted headers request after request_id =
      IsAdmitted host http codecs ip_is_loopback from_slice exchange in_flight environment headers
        request after request_id

  -- What is behind the choice of the identifier.
  abbrev Passed : http.HeaderMap → Request → Request → http.HeaderMap → Bytes → Type 0
  Passed headers request after cors id =
      IsCrossed http host environment request headers cors × Admitted headers request after id

  admit_decision-Passed :
      (request after : Request) (headers cors_out : http.HeaderMap) (request_id id method : Bytes)
      (cors : CorsConfig)
      → is_valid_request_id request_id ≡ true
      → load_config http environment ≡ ok cors
      → to_http_method http (host.request_parts request).method ≡ ok method
      → admit_decision http host codecs ip_is_loopback from_slice exchange in_flight environment
          request
          (request_headers host request)
          headers
          request_id
          (evaluate http cors method headers)
        ≡ forward after cors_out id
      → Passed headers request after cors_out id
  unfolding admit_decision
  admit_decision-Passed request after headers cors_out request_id id method cors valid loaded known
        h =
      go (evaluate http cors method headers) refl h
    where
      go :
          (r : Result PolicyError (CorsDecision http))
          → evaluate http cors method headers ≡ r
          → admit_decision http host codecs ip_is_loopback from_slice exchange in_flight environment
              request
              (request_headers host request)
              headers
              request_id
              r
            ≡ forward after cors_out id
          → Passed headers request after cors_out id
      go (err e) found k = absurd (cc)
      go (ok decision) found k = elim (Option-cases decision.status) [
        | inl none_e ↦
            let reached = rw (none_e, admit_decision) at k in
            let (same, admitted) =
              admit_configured-IsAdmitted laws http codecs ip_is_loopback from_slice exchange
                in_flight environment request after headers decision.response_headers cors_out
                request_id id valid reached in
            (
              record {
                cors = cors;
                loaded = loaded;
                method = method;
                known = known;
                decision = decision;
                evaluated = found;
                undecided = none_e;
                granted = same;
              },
              admitted,
            )
        | inr (status, some_e) ↦ absurd (cc (rw (some_e, admit_decision) at k))
      ]

  admit_cors-Passed :
      (request after : Request) (headers cors_out : http.HeaderMap) (request_id id : Bytes)
      → is_valid_request_id request_id ≡ true
      → admit_cors http host codecs ip_is_loopback from_slice exchange in_flight environment request
          (request_headers host request)
          headers
          request_id
          (load_config http environment)
        ≡ forward after cors_out id
      → Passed headers request after cors_out id
  unfolding admit_cors admit_method
  admit_cors-Passed request after headers cors_out request_id id valid h =
      go (load_config http environment) refl h
    where
      at_method :
          (cors : CorsConfig) (m : Result (Unit {0}) Bytes)
          → load_config http environment ≡ ok cors
          → to_http_method http (host.request_parts request).method ≡ m
          → admit_method http host codecs ip_is_loopback from_slice exchange in_flight environment
              request
              (request_headers host request)
              headers
              request_id
              cors
              m
            ≡ forward after cors_out id
          → Passed headers request after cors_out id
      at_method cors (err e) loaded known k = absurd (cc)
      at_method cors (ok method) loaded known k =
          admit_decision-Passed request after headers cors_out request_id id method cors valid
            loaded known k

      go :
          (r : Result ConfigError CorsConfig)
          → load_config http environment ≡ r
          → admit_cors http host codecs ip_is_loopback from_slice exchange in_flight environment
              request
              (request_headers host request)
              headers
              request_id
              r
            ≡ forward after cors_out id
          → Passed headers request after cors_out id
      go (err e) loaded k = absurd (cc)
      go (ok cors) loaded k =
          at_method cors (to_http_method http (host.request_parts request).method) loaded refl k

  -- A request is passed on only when its policy headers convert, the CORS policy of the environment decides
  -- nothing of its own, and the authentication of these headers passes with a context. What goes on has
  -- just this context and one valid identifier as its trusted headers and no credential, and is otherwise
  -- the request that came.
  pub admit_secure-IsAdmitted :
      (prefix : List ℕ) (request after : Request) (sequence : ℕ) (cors : http.HeaderMap)
      (request_id : Bytes)
      → (admit http host codecs ip_is_loopback from_slice exchange in_flight environment prefix
          request sequence).0
        ≡ forward after cors request_id
      → (headers : http.HeaderMap) × (policy_headers http (request_headers host request)
          ≡ ok headers)
        × IsCrossed http host environment request headers cors
        × IsAdmitted host http codecs ip_is_loopback from_slice exchange in_flight environment
            headers request after request_id
  unfolding admit admit_headers admit_identified
  admit_secure-IsAdmitted prefix request after sequence cors request_id h =
      go (policy_headers http (request_headers host request)) refl h
    where
      named :
          (headers : http.HeaderMap) (r : Result ErrorCode Bytes)
          → ((id : Bytes) → r ≡ ok id → is_valid_request_id id ≡ true)
          → admit_identified http host codecs ip_is_loopback from_slice exchange in_flight
              environment request
              (request_headers host request)
              headers
              r
            ≡ forward after cors request_id
          → Passed headers request after cors request_id
      named headers (err e) valid k = absurd (cc)
      named headers (ok id) valid k =
          admit_cors-Passed request after headers cors id request_id (valid id refl) k

      go :
          (r : Result (Unit {0}) http.HeaderMap)
          → policy_headers http (request_headers host request) ≡ r
          → (admit_headers http host codecs ip_is_loopback from_slice exchange in_flight environment
              prefix request
              (request_headers host request)
              sequence
              r).0
            ≡ forward after cors request_id
          → (headers : http.HeaderMap) × (policy_headers http (request_headers host request)
              ≡ ok headers)
            × IsCrossed http host environment request headers cors
            × IsAdmitted host http codecs ip_is_loopback from_slice exchange in_flight environment
                headers request after request_id
      go (err e) converted k = absurd (cc)
      go (ok headers) converted k =
          let fields = request_headers host request in
          let (crossed, admitted) =
            named headers (canonical_request_id http host prefix fields sequence).0
              (λ id. canonical_request_id-IsValid http host prefix fields sequence) k in
          (headers, converted, crossed, admitted)
