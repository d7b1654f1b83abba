-- ===== src/Components/AuthnPolicy/Responses.antt =====
-- What every response of components/authn-policy carries.
use wasi_http_middleware.Prelude.{
  ℕ, Bool, true, false, List, [], ◌∷◌, ◌++◌, ◌≡◌, inl, inr, refl, sym, ap, ◌∙◌, arith, Bytes, codes,
  Option, Result, ok, err, >>=-eq-ok, if_true, ◌=b◌, if◌then◌else◌, ◌⊎◌, any,
}
use wasi_http_middleware.Text.{lower, to_ascii_lowercase, eq_ignore_ascii_case}
use wasi_http_middleware.HttpCrate.{HttpCrate}
use wasi_http_middleware.Metadata.{reserved_auth_prefix}
use wasi_http_middleware.Metadata.Codec.{Encodings}
use wasi_http_middleware.Policy.Claims.{AuthnRequestV1, AuthnSuccessV1}
use wasi_http_middleware.AuthnRuntime.{
  AuthnConfigError, AuthnRejection, invalid_request, missing_credentials, invalid_credentials,
  unavailable, rejection_status, bearer_challenge,
}
use wasi_http_middleware.AuthnRuntime.Config.{Variable, AuthnConfig, from_environment}
use wasi_http_middleware.AuthnRuntime.Authenticate.{
  BrokerCallError, AuthnOutcome, pass, reject, authenticate_with_diagnostics,
}
use wasi_http_middleware.ComponentSupport.HeaderList.{
  Header, is_named, has_prefix, get_prefix, contains_header_name, remove_headers_with_prefix,
}
use wasi_http_middleware.ComponentSupport.HeaderList.Laws.{header_values_of_absent}
use wasi_http_middleware.ComponentSupport.HeaderList.Prefix.{
  header_values-remove_headers_with_prefix,
}
use wasi_http_middleware.ComponentSupport.HeaderMap.{to_header_map}
use wasi_http_middleware.ComponentSupport.Messages.{
  HostHttp, request_headers, response_headers, empty_response,
}
use wasi_http_middleware.ComponentSupport.Messages.Host.{IsHostHttp}
use wasi_http_middleware.ComponentSupport.Messages.Forward.{
  IsReturned, replace_response_headers-IsReturned, empty_response-eq-ok,
}
use wasi_http_middleware.Components.{Handler, retry_after}
use wasi_http_middleware.Components.AuthnPolicy.{
  Admission, respond, forward, forward_or, complete, answer_outcome, admit_configured,
  admit_identified, admit_headers, admit, handle, canonical_request_id, request_id_field,
  challenge_fields, retry_fields, rejection_response, configuration_failure_response,
  strip_response_auth_headers,
}
use wasi_http_middleware.Components.SecureDefaults.Replacements.{unreserved}

-- A response without a reserved header, in any spelling.
abbrev pub HidesReserved : (host : HostHttp) → host.Response → Type 0
HidesReserved host response =
    (name : Bytes)
    → has_prefix reserved_auth_prefix name ≡ true
    → host.fields.get (host.response_parts response).headers name ≡ []

-- The values of a response without its reserved headers.
abbrev pub stripped_values : (host : HostHttp) → host.Response → Bytes → List Bytes
stripped_values host response name =
    if has_prefix reserved_auth_prefix name
    then []
    else host.fields.get (host.response_parts response).headers name

-- A list that names no reserved header has none in another spelling either.
contains-unreserved :
    (headers : List Header) (name : Bytes)
    → any (λ header. has_prefix reserved_auth_prefix header.name) headers ≡ false
    → has_prefix reserved_auth_prefix name ≡ true
    → contains_header_name headers name ≡ false
unfolding contains_header_name is_named
contains-unreserved [] name bare h = refl
contains-unreserved (header ∷ headers) name bare h =
    let other : has_prefix reserved_auth_prefix header.name ≡ false = ground (arith, bare) in
    rw (unreserved header.name name other h)
      (contains-unreserved headers name (ground (arith, bare)) h)

-- The fields of a refusal have no reserved name.
refusal_fields-unreserved :
    (rejection : AuthnRejection) (realm request_id : Bytes)
    → any
        (λ header. has_prefix reserved_auth_prefix header.name)
        (request_id_field request_id ∷ challenge_fields rejection realm ++ retry_fields rejection)
      ≡ false
unfolding has_prefix get_prefix eq_ignore_ascii_case to_ascii_lowercase lower ◌=b◌ challenge_fields
    retry_fields bearer_challenge
refusal_fields-unreserved invalid_request realm request_id = refl
refusal_fields-unreserved missing_credentials realm request_id = refl
refusal_fields-unreserved invalid_credentials realm request_id = refl
refusal_fields-unreserved unavailable realm request_id = refl

configuration_fields-unreserved :
    (request_id : Bytes)
    → any
        (λ header. has_prefix reserved_auth_prefix header.name)
        (request_id_field request_id ∷ retry_after)
      ≡ false
unfolding has_prefix get_prefix eq_ignore_ascii_case to_ascii_lowercase lower ◌=b◌
configuration_fields-unreserved request_id = refl

length-unreserved :
    (name : Bytes)
    → has_prefix reserved_auth_prefix name ≡ true
    → eq_ignore_ascii_case (codes "content-length") name ≡ false
unfolding has_prefix get_prefix eq_ignore_ascii_case to_ascii_lowercase lower ◌=b◌
length-unreserved name h = unreserved (codes "content-length") name refl h

module _ {host : HostHttp} (on_host : IsHostHttp host) where
  open host use {Request, Response, ErrorCode, response_parts}

  empty_response-HidesReserved :
      (status : ℕ) (headers : List Header) (made : Response)
      → any (λ header. has_prefix reserved_auth_prefix header.name) headers ≡ false
      → empty_response host status headers ≡ ok made
      → HidesReserved host made
  empty_response-HidesReserved status headers made bare h name reserved =
      let (_, _, _, held) = empty_response-eq-ok on_host status headers made h in
      let none_of =
        header_values_of_absent headers name (contains-unreserved headers name bare reserved) in
      held name ∙ rw (length-unreserved name reserved, none_of) (ground arith)

  strip_response_auth_headers-IsReturned :
      (response after : Response)
      → strip_response_auth_headers host response ≡ ok after
      → IsReturned host response after (stripped_values host response)
  unfolding strip_response_auth_headers response_headers
  strip_response_auth_headers-IsReturned response after h =
      let s = (response_parts response).headers in
      let fields = host.copy_all s in
      let r =
        replace_response_headers-IsReturned on_host response after
          (remove_headers_with_prefix fields reserved_auth_prefix) h in
      record {
        parts = r.parts;
        held = λ name.
            r.held name
            ∙ header_values-remove_headers_with_prefix fields reserved_auth_prefix name
            ∙ ap (λ vs. if has_prefix reserved_auth_prefix name then [] else vs)
                (sym (on_host.get-copy_all s name));
      }

  -- A response of the handler's own has no reserved header.
  abbrev Ends : Admission host → Type 0
  Ends (respond result) = (after : Response) → result ≡ ok after → HidesReserved host after
  Ends (forward request) = Unit {0}

  forward_or-Ends : (r : Result ErrorCode Request) → Ends (forward_or host r)
  unfolding forward_or
  forward_or-Ends (ok request) = tt
  forward_or-Ends (err e) = λ after h. absurd (cc)

  module _ (http : HttpCrate) (codecs : Encodings) (ip_is_loopback : Bytes → Option Bool)
      (request : Request) (fields : List Header) where
    answer_outcome-Ends :
        (realm request_id : Bytes) (outcome : AuthnOutcome http codecs ip_is_loopback)
        → Ends
            (answer_outcome host http codecs ip_is_loopback request fields realm request_id outcome)
    unfolding answer_outcome rejection_response
    answer_outcome-Ends realm request_id (pass context) = forward_or-Ends _
    answer_outcome-Ends realm request_id (reject rejection) = λ after h.
        empty_response-HidesReserved (rejection_status rejection)
          (request_id_field request_id ∷ challenge_fields rejection realm ++ retry_fields rejection)
          after (refusal_fields-unreserved rejection realm request_id) h

    module _ (from_slice : Bytes → Option AuthnSuccessV1)
        (exchange : AuthnRequestV1 → Bytes → Result BrokerCallError (ℕ × Bytes))
        (in_flight : ℕ) where
      admit_configured-Ends :
          (headers : http.HeaderMap) (request_id : Bytes)
          (r : Result AuthnConfigError (AuthnConfig http codecs ip_is_loopback))
          → Ends (
              admit_configured host http codecs ip_is_loopback from_slice exchange in_flight request
                fields headers request_id r)
      unfolding admit_configured configuration_failure_response
      admit_configured-Ends headers request_id (err e) = λ after h.
          empty_response-HidesReserved 503 (request_id_field request_id ∷ retry_after) after
            (configuration_fields-unreserved request_id) h
      admit_configured-Ends headers request_id (ok config) =
          answer_outcome-Ends config.service_id request_id
            (authenticate_with_diagnostics http codecs ip_is_loopback from_slice exchange config
              request_id headers in_flight).0

      module _ (environment : List Variable) where
        admit_identified-Ends :
            (headers : http.HeaderMap) (r : Result ErrorCode Bytes)
            → Ends (
                admit_identified host http codecs ip_is_loopback from_slice exchange in_flight
                  environment request fields headers r)
        unfolding admit_identified
        admit_identified-Ends headers (err e) = λ after h. absurd (cc)
        admit_identified-Ends headers (ok request_id) =
            admit_configured-Ends headers request_id
              (from_environment http codecs ip_is_loopback environment)

        admit_headers-Ends :
            (prefix : List ℕ) (sequence : ℕ) (r : Result (Unit {0}) http.HeaderMap)
            → Ends
                (admit_headers host http codecs ip_is_loopback from_slice exchange in_flight
                  environment prefix request fields sequence r).0
        unfolding admit_headers
        admit_headers-Ends prefix sequence (err e) =
            λ after h. empty_response-HidesReserved 400 [] after refl h
        admit_headers-Ends prefix sequence (ok headers) =
            admit_identified-Ends headers (canonical_request_id host http prefix headers sequence).0

  complete-HidesReserved :
      (downstream : Handler host) (admission : Admission host) (after : Response)
      → Ends admission
      → complete host downstream admission ≡ ok after
      → HidesReserved host after
        × ((admission ≡ respond (ok after))
            ⊎ ((sent : Request) × (response : Response) × (admission ≡ forward sent)
                × (downstream sent ≡ ok response)
                × IsReturned host response after (stripped_values host response)))
  unfolding complete
  complete-HidesReserved downstream (respond result) after ends h =
      (ends after h, inl (ap (λ r. respond r) h))
  complete-HidesReserved downstream (forward request) after ends h =
      let (response, answered, r) = >>=-eq-ok (downstream request) _ h in
      let returned = strip_response_auth_headers-IsReturned response after r in
      (
        λ name reserved. returned.held name ∙ if_true _ _ reserved,
        inr (request, response, refl, answered, returned),
      )

  -- No response that the handler returns has a reserved header, in any spelling. The response is the handler's
  -- own, or the one that the downstream handler gave to the request that was passed on, with all its other
  -- headers and its status, body and trailers.
  pub handle-HidesReserved :
      (http : HttpCrate) (codecs : Encodings) (ip_is_loopback : Bytes → Option Bool)
      (from_slice : Bytes → Option AuthnSuccessV1)
      (exchange : AuthnRequestV1 → Bytes → Result BrokerCallError (ℕ × Bytes)) (in_flight : ℕ)
      (environment : List Variable) (prefix : List ℕ) (downstream : Handler host)
      (request : Request) (sequence : ℕ) (after : Response)
      → (handle host http codecs ip_is_loopback from_slice exchange in_flight environment prefix
          downstream request sequence).0
        ≡ ok after
      → HidesReserved host after
        × (((admit host http codecs ip_is_loopback from_slice exchange in_flight environment prefix
                request sequence).0
              ≡ respond (ok after))
            ⊎ ((sent : Request) × (response : Response) × ((admit host http codecs ip_is_loopback
                    from_slice exchange in_flight environment prefix request sequence).0
                  ≡ forward sent)
                × (downstream sent ≡ ok response)
                × IsReturned host response after (stripped_values host response)))
  unfolding handle admit
  handle-HidesReserved http codecs ip_is_loopback from_slice exchange in_flight environment prefix
        downstream request sequence after h =
      let fields = request_headers host request in
      complete-HidesReserved downstream _ after
        (admit_headers-Ends http codecs ip_is_loopback request fields from_slice exchange in_flight
          environment prefix sequence (to_header_map http fields))
        h
