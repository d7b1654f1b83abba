-- ===== src/AuthnRuntime/Authenticate.antt =====
-- `authenticate_with_diagnostics` of crates/authn-runtime/src/lib.rs. The exchange with the broker is a
-- parameter: what it returns for a request and a credential is a status and a body, or an error.
use wasi_http_middleware.Prelude.{
  ℕ, Bool, true, [], ◌≡◌, ◌⊎◌, inl, inr, refl, sym, ap, ◌∙◌, Bytes, ltb, Option, none, some, Result,
  ok, err, ◌>>=◌, >>=-eq-ok, if◌then◌else◌, if_true, if_false, Bool-cases,
}
use wasi_http_middleware.HttpCrate.{HttpCrate}
use wasi_http_middleware.Metadata.{MetadataError}
use wasi_http_middleware.Metadata.Context.{AuthContextV1}
use wasi_http_middleware.Metadata.Codec.{Encodings, encode_auth_context}
use wasi_http_middleware.Policy.{PolicyError}
use wasi_http_middleware.Policy.Credentials.{
  authorization, authorization_value, authorization_value-none_iff,
}
use wasi_http_middleware.Policy.Claims.{
  AuthnRequestV1, AuthnSuccessV1, AuthenticatedClaimsV1, AuthDecision, allow, unauthenticated,
  unavailable, into_context, parse_authn_response,
}
use wasi_http_middleware.Policy.Claims.Laws.{IsTrusted, parse_authn_response-IsTrusted}
use wasi_http_middleware.AuthnRuntime.{AuthnMode, AuthnRejection}
use wasi_http_middleware.AuthnRuntime.Config.{AuthnConfig}

pub data AuthnDiagnosticStage : Type 0 where
  invalid_request missing_credentials admission broker_transport : AuthnDiagnosticStage
  broker_deadline broker_protocol context_encoding : AuthnDiagnosticStage

pub data BrokerCallError : Type 0 where
  serialization transport invalid_status response_body deadline : BrokerCallError

unfoldable pub error_stage : BrokerCallError → AuthnDiagnosticStage
error_stage transport = broker_transport
error_stage deadline = broker_deadline
error_stage serialization = broker_protocol
error_stage invalid_status = broker_protocol
error_stage response_body = broker_protocol

module _ (http : HttpCrate) (codecs : Encodings) (ip_is_loopback : Bytes → Option Bool) where
  open http use {HeaderValue, HeaderMap, get_all}

  pub data AuthnOutcome : Type 0 where
    pass : HeaderValue → AuthnOutcome
    reject : AuthnRejection → AuthnOutcome

  abbrev pub Config : Type 0
  Config = AuthnConfig http codecs ip_is_loopback

  abbrev pub Answer : Type 0
  Answer = AuthnOutcome × Option AuthnDiagnosticStage

  unfoldable pub broker_request_for : Bytes → Config → AuthnRequestV1
  broker_request_for request_id config = record {
    version = 1;
    service_id = config.service_id;
    audiences = config.audiences;
    request_id = request_id;
  }

  pub pass_encoded : Result MetadataError HeaderValue → Answer
  pass_encoded (ok context) = (pass context, none)
  pass_encoded (err e) = (reject AuthnRejection.unavailable, some context_encoding)

  -- The last `match`, on the broker's decision.
  pub answer_decision : Config → AuthDecision → Answer
  unfolding into_context pass_encoded encode_auth_context
  answer_decision config (allow claims) =
      pass_encoded
        (into_context claims config.service_id config.audiences >>= encode_auth_context http codecs)
  answer_decision config unauthenticated = (reject AuthnRejection.invalid_credentials, none)
  answer_decision config unavailable = (reject AuthnRejection.unavailable, some broker_protocol)

  -- The request without a credential.
  pub answer_missing : Config → AuthnMode → Answer
  answer_missing config AuthnMode.optional = (pass (config.anonymous_header), none)
  answer_missing config AuthnMode.required =
      (reject AuthnRejection.missing_credentials, some missing_credentials)

  module _ (from_slice : Bytes → Option AuthnSuccessV1)
      (exchange : AuthnRequestV1 → Bytes → Result BrokerCallError (ℕ × Bytes)) where
    -- `call_broker`, and the first `match` on its result.
    pub answer_exchange : Config → Result BrokerCallError (ℕ × Bytes) → Answer
    unfolding answer_decision parse_authn_response error_stage
    answer_exchange config (ok response) =
        answer_decision config (parse_authn_response from_slice response.0 response.1)
    answer_exchange config (err e) = (reject AuthnRejection.unavailable, some (error_stage e))

    -- The part behind the look-up of the credential, with the number of calls in flight.
    pub answer_credential : Config → Bytes → ℕ → Result PolicyError (Option Bytes) → Answer
    unfolding answer_exchange broker_request_for answer_missing
    answer_credential config request_id in_flight (err e) =
        (reject AuthnRejection.invalid_request, some invalid_request)
    answer_credential config request_id in_flight (ok none) = answer_missing config config.mode
    answer_credential config request_id in_flight (ok (some credential)) =
        if ltb in_flight config.max_in_flight
        then answer_exchange config (exchange (broker_request_for request_id config) credential)
        else (reject AuthnRejection.unavailable, some admission)

    unfoldable pub authenticate_with_diagnostics : Config → Bytes → HeaderMap → ℕ → Answer
    unfolding answer_credential authorization_value
    authenticate_with_diagnostics config request_id headers in_flight =
        answer_credential config request_id in_flight (authorization_value http headers)

    -- Why a header was passed on for a supplied credential.
    pub record IsAuthenticated (config : Config) (request_id : Bytes) (headers : HeaderMap)
        (in_flight : ℕ) (value : HeaderValue) : Type 0 where
      pub credential : Bytes
      pub supplied : authorization_value http headers ≡ ok (some credential)
      pub admitted : ltb in_flight config.max_in_flight ≡ true
      pub body : Bytes
      pub claims : AuthenticatedClaimsV1
      pub answered : exchange (broker_request_for request_id config) credential ≡ ok (200, body)
      pub trusted : IsTrusted from_slice 200 body claims
      pub context : AuthContextV1
      pub bound : into_context claims config.service_id config.audiences ≡ ok context
      pub encoded : encode_auth_context http codecs context ≡ ok value

    pass_encoded-pass :
        (r : Result MetadataError HeaderValue) (value : HeaderValue)
        → (pass_encoded r).0 ≡ pass value
        → r ≡ ok value
    unfolding pass_encoded
    pass_encoded-pass (ok v) value h = cc
    pass_encoded-pass (err e) value h = absurd (cc)

    answer_decision-pass :
        (config : Config) (decision : AuthDecision) (value : HeaderValue)
        → (answer_decision config decision).0 ≡ pass value
        → (claims : AuthenticatedClaimsV1) × (decision ≡ allow claims)
          × ((context : AuthContextV1) × (into_context claims config.service_id config.audiences
                ≡ ok context)
              × (encode_auth_context http codecs context ≡ ok value))
    unfolding answer_decision
    answer_decision-pass config (allow claims) value h = (
      claims,
      refl,
      >>=-eq-ok (into_context claims config.service_id config.audiences) _
          (pass_encoded-pass _ value h),
    )
    answer_decision-pass config unauthenticated value h = absurd (cc)
    answer_decision-pass config unavailable value h = absurd (cc)

    answer_exchange-pass :
        (config : Config) (result : Result BrokerCallError (ℕ × Bytes)) (value : HeaderValue)
        → (answer_exchange config result).0 ≡ pass value
        → (body : Bytes) × (claims : AuthenticatedClaimsV1) × (result ≡ ok (200, body))
          × IsTrusted from_slice 200 body claims
          × ((context : AuthContextV1) × (into_context claims config.service_id config.audiences
                ≡ ok context)
              × (encode_auth_context http codecs context ≡ ok value))
    unfolding answer_exchange
    answer_exchange-pass config (ok (status, body)) value h =
        let (claims, allowed, bound) =
          answer_decision-pass config (parse_authn_response from_slice status body) value h in
        let trusted = parse_authn_response-IsTrusted from_slice status body claims allowed in
        let same : status ≡ 200 = trusted.status_ok in
        (body, claims, ap (λ n. ok (n, body)) same, rw same at trusted, bound)
    answer_exchange-pass config (err e) value h = absurd (cc)

    -- A request is passed on in two cases only. It supplies no credential, the mode is optional, and the
    -- header is the configured anonymous one; or it supplies one credential, the limit of calls in
    -- flight is not reached, the broker answers with status 200 and a trusted body, and the header is
    -- the encoding of its claims bound to the configured service and audiences.
    pub authenticate_with_diagnostics-pass :
        (config : Config) (request_id : Bytes) (headers : HeaderMap) (in_flight : ℕ)
        (value : HeaderValue)
        → (authenticate_with_diagnostics config request_id headers in_flight).0 ≡ pass value
        → ((get_all headers authorization ≡ [])
            × (config.mode ≡ AuthnMode.optional)
            × (value ≡ config.anonymous_header))
          ⊎ IsAuthenticated config request_id headers in_flight value
    unfolding authenticate_with_diagnostics answer_credential answer_missing
    authenticate_with_diagnostics-pass config request_id headers in_flight value h =
        go (authorization_value http headers) refl h
      where
        missing :
            (mode : AuthnMode)
            → (answer_missing config mode).0 ≡ pass value
            → (mode ≡ AuthnMode.optional) × (value ≡ config.anonymous_header)
        missing AuthnMode.optional e = (refl, cc)
        missing AuthnMode.required e = absurd (cc)

        go :
            (r : Result PolicyError (Option Bytes))
            → authorization_value http headers ≡ r
            → (answer_credential config request_id in_flight r).0 ≡ pass value
            → ((get_all headers authorization ≡ [])
                × (config.mode ≡ AuthnMode.optional)
                × (value ≡ config.anonymous_header))
              ⊎ IsAuthenticated config request_id headers in_flight value
        go (err x) found e = absurd (cc)
        go (ok none) found e =
            let (mode, same) = missing config.mode e in
            inl ((authorization_value-none_iff http headers).0 found, mode, same)
        go (ok (some credential)) found e = elim (Bool-cases (ltb in_flight config.max_in_flight)) [
          | inl low ↦
              let reached : (answer_exchange config
                    (exchange (broker_request_for request_id config) credential)).0
                  ≡ pass value =
                ap (λ (a : Answer). a.0) (sym (if_true _ _ low)) ∙ e in
              let (body, claims, answered, trusted, (context, bound, encoded)) =
                answer_exchange-pass config
                  (exchange (broker_request_for request_id config) credential) value reached in
              inr (record {
                credential = credential;
                supplied = found;
                admitted = low;
                body = body;
                claims = claims;
                answered = answered;
                trusted = trusted;
                context = context;
                bound = bound;
                encoded = encoded;
              })
          | inr full ↦
              let refused : reject AuthnRejection.unavailable ≡ pass value =
                ap (λ (a : Answer). a.0) (sym (if_false _ _ full)) ∙ e in
              absurd (cc)
        ]
