-- ===== src/Components/SecureDefaults/Handle.antt =====
-- The stages of `handle` of components/secure-defaults, from the last to the first: each is the part behind
-- one of its early returns.
use wasi_http_middleware.Prelude.{
  ℕ, Bool, List, [], ◌∷◌, Bytes, Option, none, some, Result, ok, err,
}
use wasi_http_middleware.HttpCrate.{HttpCrate}
use wasi_http_middleware.Metadata.{auth_context_header}
use wasi_http_middleware.Metadata.Codec.{Encodings}
use wasi_http_middleware.Policy.{PolicyError}
use wasi_http_middleware.Policy.Claims.{AuthnRequestV1, AuthnSuccessV1}
use wasi_http_middleware.Policy.Cors.Config.{CorsConfig}
use wasi_http_middleware.Policy.Cors.Evaluate.{CorsDecision, evaluate}
use wasi_http_middleware.AuthnRuntime.{AuthnConfigError}
use wasi_http_middleware.AuthnRuntime.Config.{Variable, AuthnConfig, from_environment}
use wasi_http_middleware.AuthnRuntime.Authenticate.{
  BrokerCallError, AuthnOutcome, pass, reject, authenticate_with_diagnostics,
}
use wasi_http_middleware.ComponentSupport.HeaderList.{Header}
use wasi_http_middleware.ComponentSupport.Messages.{HostHttp, request_headers, edit_request_headers}
use wasi_http_middleware.Components.{Handler, retry_after, to_http_method}
use wasi_http_middleware.Components.AuthnPolicy.{request_id_field}
use wasi_http_middleware.Components.Cors.{ConfigError, load_config}
use wasi_http_middleware.Components.SecureDefaults.{
  untrusted_names, policy_headers, Admission, respond, controlled_response, rejection_response,
  canonical_request_id, forward_or, complete,
}

-- `replacements` of a request that is passed on.
abbrev pub trusted_replacements : Bytes → Bytes → List Header
trusted_replacements context request_id =
    record { name = auth_context_header; value = context } ∷ request_id_field request_id ∷ []

module _ (http : HttpCrate) (host : HostHttp) where
  open http use {HeaderMap, new_map, as_bytes}
  open host use {Request, Response, ErrorCode}

  -- `controlled_response(status, headers, cors_headers, Some(&request_id))`
  abbrev pub refuse : ℕ → List Header → HeaderMap → Bytes → Admission http host
  refuse status headers cors_headers request_id =
      respond (controlled_response http host status headers cors_headers (some request_id))

  module _ (codecs : Encodings) (ip_is_loopback : Bytes → Option Bool) where
    unfoldable pub answer_outcome :
        Request
        → List Header
        → Bytes
        → HeaderMap
        → Bytes
        → AuthnOutcome http codecs ip_is_loopback
        → Admission http host
    unfolding untrusted_names edit_request_headers rejection_response forward_or
    answer_outcome request fields realm cors_headers request_id (pass context) =
        forward_or http host cors_headers request_id (
          edit_request_headers host request (untrusted_names fields)
            (trusted_replacements (as_bytes context) request_id))
    answer_outcome request fields realm cors_headers request_id (reject rejection) =
        respond (rejection_response http host rejection realm cors_headers request_id)

  module _ (codecs : Encodings) (ip_is_loopback : Bytes → Option Bool)
      (from_slice : Bytes → Option AuthnSuccessV1)
      (exchange : AuthnRequestV1 → Bytes → Result BrokerCallError (ℕ × Bytes)) (in_flight : ℕ) where
    unfoldable pub admit_configured :
        Request
        → List Header
        → HeaderMap
        → HeaderMap
        → Bytes
        → Result AuthnConfigError (AuthnConfig http codecs ip_is_loopback)
        → Admission http host
    unfolding controlled_response answer_outcome authenticate_with_diagnostics
    admit_configured request fields headers cors_headers request_id (err e) =
        refuse 503 retry_after cors_headers request_id
    admit_configured request fields headers cors_headers request_id (ok authn) =
        let (outcome, stage) =
          authenticate_with_diagnostics http codecs ip_is_loopback from_slice exchange authn
            request_id headers in_flight in
        answer_outcome codecs ip_is_loopback request fields authn.service_id cors_headers request_id
          outcome

    module _ (environment : List Variable) where
      unfoldable pub admit_decision :
          Request
          → List Header
          → HeaderMap
          → Bytes
          → Result PolicyError (CorsDecision http)
          → Admission http host
      unfolding controlled_response admit_configured from_environment
      admit_decision request fields headers request_id (err e) = refuse 400 [] new_map request_id
      admit_decision request fields headers request_id (ok decision) = elim (decision.status) [
        | some status ↦ refuse status [] decision.response_headers request_id
        | none ↦
            admit_configured request fields headers decision.response_headers request_id
              (from_environment http codecs ip_is_loopback environment)
      ]

      unfoldable pub admit_method :
          Request
          → List Header
          → HeaderMap
          → Bytes
          → CorsConfig
          → Result (Unit {0}) Bytes
          → Admission http host
      unfolding controlled_response admit_decision evaluate
      admit_method request fields headers request_id cors (err e) = refuse 400 [] new_map request_id
      admit_method request fields headers request_id cors (ok method) =
          admit_decision request fields headers request_id (evaluate http cors method headers)

      unfoldable pub admit_cors :
          Request
          → List Header
          → HeaderMap
          → Bytes
          → Result ConfigError CorsConfig
          → Admission http host
      unfolding controlled_response admit_method to_http_method
      admit_cors request fields headers request_id (err e) =
          refuse 503 retry_after new_map request_id
      admit_cors request fields headers request_id (ok cors) =
          admit_method request fields headers request_id cors
            (to_http_method http (host.request_parts request).method)

      unfoldable pub admit_identified :
          Request → List Header → HeaderMap → Result ErrorCode Bytes → Admission http host
      unfolding admit_cors load_config
      admit_identified request fields headers (err e) = respond (err e)
      admit_identified request fields headers (ok request_id) =
          admit_cors request fields headers request_id (load_config http environment)

      module _ (prefix : List ℕ) where
        unfoldable pub admit_headers :
            Request → List Header → ℕ → Result (Unit {0}) HeaderMap → Admission http host × ℕ
        unfolding controlled_response canonical_request_id admit_identified
        admit_headers request fields sequence (err e) =
            (respond (controlled_response http host 400 [] new_map none), sequence)
        admit_headers request fields sequence (ok headers) =
            let (request_id, sequence') = canonical_request_id http host prefix fields sequence in
            (admit_identified request fields headers request_id, sequence')

        -- The handler up to its call of the downstream handler, with the sequence of identifiers.
        unfoldable pub admit : Request → ℕ → Admission http host × ℕ
        unfolding admit_headers request_headers policy_headers
        admit request sequence =
            let fields = request_headers host request in
            admit_headers request fields sequence (policy_headers http fields)

        unfoldable pub handle : Handler host → Request → ℕ → Result ErrorCode Response × ℕ
        unfolding admit complete
        handle downstream request sequence =
            let (admission, sequence') = admit request sequence in
            (complete http host downstream admission, sequence')
