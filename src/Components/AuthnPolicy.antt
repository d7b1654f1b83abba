-- ===== src/Components/AuthnPolicy.antt =====
-- `handle` of components/authn-policy. The handler is cut at its call of the downstream handler: `admit`
-- comes before it, and either responds or has a request to forward. The clocks and the log of the
-- diagnostic stages are not modelled.
pub mod Laws
pub mod Responses
use wasi_http_middleware.Prelude.{
  ℕ, Bool, List, [], ◌∷◌, ◌++◌, Bytes, codes, Option, none, some, Result, ok, err, ◌>>=◌, map_err,
}
use wasi_http_middleware.HttpCrate.{HttpCrate}
use wasi_http_middleware.Metadata.{request_id_header, auth_context_header, reserved_auth_prefix}
use wasi_http_middleware.Metadata.Codec.{Encodings}
use wasi_http_middleware.Policy.{PolicyError}
use wasi_http_middleware.Policy.Credentials.{authorization}
use wasi_http_middleware.Policy.RequestId.{canonicalize}
use wasi_http_middleware.Policy.Claims.{AuthnRequestV1, AuthnSuccessV1}
use wasi_http_middleware.AuthnRuntime.{
  AuthnConfigError, AuthnRejection, unavailable, rejection_status, bearer_challenge,
}
use wasi_http_middleware.AuthnRuntime.Config.{Variable, AuthnConfig, from_environment}
use wasi_http_middleware.AuthnRuntime.Authenticate.{
  BrokerCallError, AuthnOutcome, pass, reject, authenticate_with_diagnostics,
}
use wasi_http_middleware.ComponentSupport.HeaderList.{
  Header, remove_header, remove_headers_with_prefix, set_header,
}
use wasi_http_middleware.ComponentSupport.HeaderMap.{to_header_map}
use wasi_http_middleware.ComponentSupport.RequestId.{generated_request_id}
use wasi_http_middleware.ComponentSupport.Messages.{
  HostHttp, request_headers, response_headers, replace_request_headers, replace_response_headers,
  empty_response,
}
use wasi_http_middleware.Components.{Handler, retry_after}

abbrev pub request_id_field : Bytes → Header
request_id_field request_id = record { name = request_id_header; value = request_id }

unfoldable pub challenge_fields : AuthnRejection → Bytes → List Header
unfolding bearer_challenge
challenge_fields rejection realm = elim (bearer_challenge rejection realm) [
  | none ↦ []
  | some challenge ↦ record { name = codes "www-authenticate"; value = challenge } ∷ []
]

-- `if rejection == AuthnRejection::Unavailable`
unfoldable pub retry_fields : AuthnRejection → List Header
retry_fields unavailable = retry_after
retry_fields _ = []

-- The fields of the request that is passed on.
unfoldable pub trusted_fields : List Header → Bytes → Bytes → List Header
unfolding remove_header remove_headers_with_prefix set_header
trusted_fields fields context request_id =
    set_header
      (set_header
        (remove_headers_with_prefix (remove_header fields authorization) reserved_auth_prefix)
        auth_context_header context)
      request_id_header request_id

module _ (host : HostHttp) where
  open host use {Request, Response, ErrorCode, internal_error}

  pub data Admission : Type 0 where
    respond : Result ErrorCode Response → Admission
    forward : Request → Admission

  unfoldable pub strip_response_auth_headers : Response → Result ErrorCode Response
  unfolding response_headers remove_headers_with_prefix replace_response_headers
  strip_response_auth_headers response =
      replace_response_headers host response
        (remove_headers_with_prefix (response_headers host response) reserved_auth_prefix)

  unfoldable pub configuration_failure_response : Bytes → Result ErrorCode Response
  unfolding empty_response
  configuration_failure_response request_id =
      empty_response host 503 (request_id_field request_id ∷ retry_after)

  unfoldable pub rejection_response : AuthnRejection → Bytes → Bytes → Result ErrorCode Response
  unfolding challenge_fields retry_fields rejection_status empty_response
  rejection_response rejection realm request_id =
      empty_response host (rejection_status rejection)
        (request_id_field request_id ∷ challenge_fields rejection realm ++ retry_fields rejection)

  -- `?` on the request that is passed on
  unfoldable pub forward_or : Result ErrorCode Request → Admission
  forward_or (ok request) = forward request
  forward_or (err e) = respond (err e)

  -- The downstream call and what follows it.
  unfoldable pub complete : Handler host → Admission → Result ErrorCode Response
  unfolding strip_response_auth_headers
  complete downstream (respond response) = response
  complete downstream (forward request) = do
    response ← downstream request
    strip_response_auth_headers response

  module _ (http : HttpCrate) where
    open http use {HeaderMap, as_bytes}

    -- `canonical_request_id`
    unfoldable pub canonical_request_id : List ℕ → HeaderMap → ℕ → Result ErrorCode Bytes × ℕ
    unfolding canonicalize generated_request_id
    canonical_request_id prefix headers sequence =
        let (request_id, sequence') =
          canonicalize http headers (generated_request_id prefix) sequence in
        (map_err request_id internal_error, sequence')

    module _ (codecs : Encodings) (ip_is_loopback : Bytes → Option Bool) where
      unfoldable pub answer_outcome :
          Request
          → List Header
          → Bytes
          → Bytes
          → AuthnOutcome http codecs ip_is_loopback
          → Admission
      unfolding trusted_fields replace_request_headers rejection_response forward_or
      answer_outcome request fields realm request_id (pass context) = forward_or (
          replace_request_headers host request
            (trusted_fields fields (as_bytes context) request_id))
      answer_outcome request fields realm request_id (reject rejection) =
          respond (rejection_response rejection realm request_id)

    module _ (codecs : Encodings) (ip_is_loopback : Bytes → Option Bool)
        (from_slice : Bytes → Option AuthnSuccessV1)
        (exchange : AuthnRequestV1 → Bytes → Result BrokerCallError (ℕ × Bytes))
        (in_flight : ℕ) where
      -- The part behind the look-up of the configuration.
      unfoldable pub admit_configured :
          Request
          → List Header
          → HeaderMap
          → Bytes
          → Result AuthnConfigError (AuthnConfig http codecs ip_is_loopback)
          → Admission
      unfolding configuration_failure_response answer_outcome authenticate_with_diagnostics
      admit_configured request fields headers request_id (err e) =
          respond (configuration_failure_response request_id)
      admit_configured request fields headers request_id (ok config) =
          let (outcome, stage) =
            authenticate_with_diagnostics http codecs ip_is_loopback from_slice exchange config
              request_id headers in_flight in
          answer_outcome codecs ip_is_loopback request fields config.service_id request_id outcome

      unfoldable pub admit_identified :
          List Variable → Request → List Header → HeaderMap → Result ErrorCode Bytes → Admission
      unfolding admit_configured from_environment
      admit_identified environment request fields headers (err e) = respond (err e)
      admit_identified environment request fields headers (ok request_id) =
          admit_configured request fields headers request_id
            (from_environment http codecs ip_is_loopback environment)

      module _ (environment : List Variable) (prefix : List ℕ) where
        unfoldable pub admit_headers :
            Request → List Header → ℕ → Result (Unit {0}) HeaderMap → Admission × ℕ
        unfolding empty_response canonical_request_id admit_identified
        admit_headers request fields sequence (err e) =
            (respond (empty_response host 400 []), sequence)
        admit_headers request fields sequence (ok headers) =
            let (request_id, sequence') = canonical_request_id prefix headers sequence in
            (admit_identified environment request fields headers request_id, sequence')

        -- The handler up to its call of the downstream handler, with the sequence of identifiers.
        unfoldable pub admit : Request → ℕ → Admission × ℕ
        unfolding admit_headers request_headers to_header_map
        admit request sequence =
            let fields = request_headers host request in
            admit_headers request fields sequence (to_header_map http fields)

        unfoldable pub handle : Handler host → Request → ℕ → Result ErrorCode Response × ℕ
        unfolding admit complete
        handle downstream request sequence =
            let (admission, sequence') = admit request sequence in
            (complete downstream admission, sequence')
