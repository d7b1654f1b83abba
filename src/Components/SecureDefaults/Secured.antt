-- ===== src/Components/SecureDefaults/Secured.antt =====
-- Every branch of `handle` of components/secure-defaults ends in a secured response.
use wasi_http_middleware.Prelude.{
  ℕ, Bool, List, [], ◌++◌, ◌≡◌, inl, inr, refl, Bytes, Option, none, some, Result, ok, err,
  >>=-eq-ok, Option-cases,
}
use wasi_http_middleware.HttpCrate.{HttpCrate, IsHttpCrate}
use wasi_http_middleware.Metadata.Codec.{Encodings}
use wasi_http_middleware.Policy.{PolicyError}
use wasi_http_middleware.Policy.Claims.{AuthnRequestV1, AuthnSuccessV1}
use wasi_http_middleware.Policy.Cors.Config.{CorsConfig}
use wasi_http_middleware.Policy.Cors.Evaluate.{CorsDecision, evaluate}
use wasi_http_middleware.Policy.Cors.Names.{HasCorsNames, evaluate-HasCorsNames}
use wasi_http_middleware.AuthnRuntime.{AuthnConfigError, rejection_status}
use wasi_http_middleware.AuthnRuntime.Config.{Variable, AuthnConfig, from_environment}
use wasi_http_middleware.AuthnRuntime.Authenticate.{
  BrokerCallError, AuthnOutcome, pass, reject, authenticate_with_diagnostics,
}
use wasi_http_middleware.ComponentSupport.HeaderList.{Header}
use wasi_http_middleware.ComponentSupport.Messages.{HostHttp, request_headers, empty_response}
use wasi_http_middleware.ComponentSupport.Messages.Host.{IsHostHttp}
use wasi_http_middleware.Components.{Handler, to_http_method, retry_after}
use wasi_http_middleware.Components.AuthnPolicy.{challenge_fields, retry_fields}
use wasi_http_middleware.Components.Cors.{ConfigError, load_config}
use wasi_http_middleware.Components.SecureDefaults.{
  policy_headers, Admission, respond, forward, forward_or, controlled_response, rejection_response,
  canonical_request_id, complete,
}
use wasi_http_middleware.Components.SecureDefaults.Handle.{
  refuse, answer_outcome, admit_configured, admit_decision, admit_method, admit_cors,
  admit_identified, admit_headers, admit, handle,
}
use wasi_http_middleware.Components.SecureDefaults.Responses.{
  IsSecured, finalize_response-IsSecured,
}

module _ {http : HttpCrate} (laws : IsHttpCrate http) {host : HostHttp}
    (on_host : IsHostHttp host) where
  open host use {Request, Response, ErrorCode}

  -- A response that is ready is secured, and what is kept for a later one has names of the protocol only.
  abbrev Ends : Admission http host → Type 0
  Ends (respond result) = (after : Response) → result ≡ ok after → IsSecured host after
  Ends (forward request m request_id) = HasCorsNames laws m

  controlled_response-IsSecured :
      (status : ℕ) (headers : List Header) (m : http.HeaderMap) (request_id : Option Bytes)
      (after : Response)
      → HasCorsNames laws m
      → controlled_response http host status headers m request_id ≡ ok after
      → IsSecured host after
  unfolding controlled_response
  controlled_response-IsSecured status headers m request_id after held h =
      let (response, _, r) = >>=-eq-ok (empty_response host status headers) _ h in
      finalize_response-IsSecured laws on_host response after m request_id held r

  refuse-Ends :
      (status : ℕ) (headers : List Header) (m : http.HeaderMap) (request_id : Bytes)
      → HasCorsNames laws m
      → Ends (refuse http host status headers m request_id)
  refuse-Ends status headers m request_id held after h =
      controlled_response-IsSecured status headers m (some request_id) after held h

  forward_or-Ends :
      (m : http.HeaderMap) (request_id : Bytes) (r : Result ErrorCode Request)
      → HasCorsNames laws m
      → Ends (forward_or http host m request_id r)
  unfolding forward_or
  forward_or-Ends m request_id (ok request) held = held
  forward_or-Ends m request_id (err e) held = λ after h. absurd (cc)

  empty : HasCorsNames laws http.new_map
  empty k h = laws.get_all-new_map k

  module _ (codecs : Encodings) (ip_is_loopback : Bytes → Option Bool)
      (from_slice : Bytes → Option AuthnSuccessV1)
      (exchange : AuthnRequestV1 → Bytes → Result BrokerCallError (ℕ × Bytes)) (in_flight : ℕ)
      (environment : List Variable) (request : Request) (fields : List Header) where
    answer_outcome-Ends :
        (realm : Bytes) (m : http.HeaderMap) (request_id : Bytes)
        (outcome : AuthnOutcome http codecs ip_is_loopback)
        → HasCorsNames laws m
        → Ends (
            answer_outcome http host codecs ip_is_loopback request fields realm m request_id
              outcome)
    unfolding answer_outcome rejection_response
    answer_outcome-Ends realm m request_id (pass context) held = forward_or-Ends m request_id _ held
    answer_outcome-Ends realm m request_id (reject rejection) held = λ after h.
        controlled_response-IsSecured (rejection_status rejection)
          (challenge_fields rejection realm ++ retry_fields rejection) m (some request_id) after
          held h

    admit_configured-Ends :
        (headers m : http.HeaderMap) (request_id : Bytes)
        (r : Result AuthnConfigError (AuthnConfig http codecs ip_is_loopback))
        → HasCorsNames laws m
        → Ends (
            admit_configured http host codecs ip_is_loopback from_slice exchange in_flight request
              fields headers m request_id r)
    unfolding admit_configured
    admit_configured-Ends headers m request_id (err e) held =
        refuse-Ends 503 retry_after m request_id held
    admit_configured-Ends headers m request_id (ok config) held =
        answer_outcome-Ends config.service_id m request_id
          (authenticate_with_diagnostics http codecs ip_is_loopback from_slice exchange config
            request_id headers in_flight).0
          held

    admit_decision-Ends :
        (headers : http.HeaderMap) (request_id : Bytes) (r : Result PolicyError (CorsDecision http))
        → ((d : CorsDecision http) → r ≡ ok d → HasCorsNames laws d.response_headers)
        → Ends (
            admit_decision http host codecs ip_is_loopback from_slice exchange in_flight environment
              request fields headers request_id r)
    unfolding admit_decision
    admit_decision-Ends headers request_id (err e) held =
        refuse-Ends 400 [] http.new_map request_id empty
    admit_decision-Ends headers request_id (ok decision) held =
        elim (Option-cases decision.status) [
          | inl e ↦
              rw (e, admit_decision)
                (admit_configured-Ends headers decision.response_headers request_id
                  (from_environment http codecs ip_is_loopback environment) (held decision refl))
          | inr (status, e) ↦
              rw (e, admit_decision)
                (refuse-Ends status [] decision.response_headers request_id (held decision refl))
        ]

    admit_method-Ends :
        (headers : http.HeaderMap) (request_id : Bytes) (cors : CorsConfig)
        (r : Result (Unit {0}) Bytes)
        → Ends (
            admit_method http host codecs ip_is_loopback from_slice exchange in_flight environment
              request fields headers request_id cors r)
    unfolding admit_method
    admit_method-Ends headers request_id cors (err e) =
        refuse-Ends 400 [] http.new_map request_id empty
    admit_method-Ends headers request_id cors (ok method) =
        admit_decision-Ends headers request_id (evaluate http cors method headers)
          (λ d. evaluate-HasCorsNames laws cors method headers d)

    admit_cors-Ends :
        (headers : http.HeaderMap) (request_id : Bytes) (r : Result ConfigError CorsConfig)
        → Ends (
            admit_cors http host codecs ip_is_loopback from_slice exchange in_flight environment
              request fields headers request_id r)
    unfolding admit_cors
    admit_cors-Ends headers request_id (err e) =
        refuse-Ends 503 retry_after http.new_map request_id empty
    admit_cors-Ends headers request_id (ok cors) =
        admit_method-Ends headers request_id cors
          (to_http_method http (host.request_parts request).method)

    admit_identified-Ends :
        (headers : http.HeaderMap) (r : Result ErrorCode Bytes)
        → Ends (
            admit_identified http host codecs ip_is_loopback from_slice exchange in_flight
              environment request fields headers r)
    unfolding admit_identified
    admit_identified-Ends headers (err e) = λ after h. absurd (cc)
    admit_identified-Ends headers (ok request_id) =
        admit_cors-Ends headers request_id (load_config http environment)

    admit_headers-Ends :
        (prefix : List ℕ) (sequence : ℕ) (r : Result (Unit {0}) http.HeaderMap)
        → Ends
            (admit_headers http host codecs ip_is_loopback from_slice exchange in_flight environment
              prefix request fields sequence r).0
    unfolding admit_headers
    admit_headers-Ends prefix sequence (err e) =
        λ after h. controlled_response-IsSecured 400 [] http.new_map none after empty h
    admit_headers-Ends prefix sequence (ok headers) =
        admit_identified-Ends headers (canonical_request_id http host prefix fields sequence).0

  complete-IsSecured :
      (downstream : Handler host) (admission : Admission http host) (after : Response)
      → Ends admission
      → complete http host downstream admission ≡ ok after
      → IsSecured host after
  unfolding complete
  complete-IsSecured downstream (respond result) after ends h = ends after h
  complete-IsSecured downstream (forward request m request_id) after ends h =
      let (response, _, r) = >>=-eq-ok (downstream request) _ h in
      finalize_response-IsSecured laws on_host response after m (some request_id) ends r

  -- Every response that the handler returns, its own or one from downstream, has exactly the two security
  -- headers' values under their names, and no reserved header in any spelling.
  pub handle-IsSecured :
      (codecs : Encodings) (ip_is_loopback : Bytes → Option Bool)
      (from_slice : Bytes → Option AuthnSuccessV1)
      (exchange : AuthnRequestV1 → Bytes → Result BrokerCallError (ℕ × Bytes)) (in_flight : ℕ)
      (environment : List Variable) (prefix : List ℕ) (downstream : Handler host)
      (request : Request) (sequence : ℕ) (after : Response)
      → (handle http host codecs ip_is_loopback from_slice exchange in_flight environment prefix
          downstream request sequence).0
        ≡ ok after
      → IsSecured host after
  unfolding handle admit
  handle-IsSecured codecs ip_is_loopback from_slice exchange in_flight environment prefix downstream
        request sequence after h =
      let fields = request_headers host request in
      complete-IsSecured downstream _ after
        (admit_headers-Ends codecs ip_is_loopback from_slice exchange in_flight environment request
          fields prefix sequence (policy_headers http fields))
        h
