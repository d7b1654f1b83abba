-- ===== src/Components/SecureDefaults.antt =====
-- `handle` of components/secure-defaults, cut at its call of the downstream handler like the one of
-- components/authn-policy. `load_cors_config` is the same text as `load_config` of components/cors.
pub mod Handle
pub mod Parts
pub mod Authenticated
pub mod Laws
pub mod Replacements
pub mod Responses
pub mod Secured
use wasi_http_middleware.Prelude.{
  ℕ, Bool, true, false, ◌||◌, List, [], ◌∷◌, ◌++◌, map, filter, any, Bytes, codes, Option, none,
  some, ◌=b◌, Result, ok, err, ◌>>=◌, ok_or, map_err, if◌then◌else◌,
}
use wasi_http_middleware.Text.{eq_ignore_ascii_case}
use wasi_http_middleware.HttpCrate.{HttpCrate}
use wasi_http_middleware.Metadata.{request_id_header, auth_context_header, reserved_auth_prefix}
use wasi_http_middleware.Metadata.Codec.{Encodings}
use wasi_http_middleware.Policy.{PolicyError}
use wasi_http_middleware.Policy.Credentials.{authorization}
use wasi_http_middleware.Policy.RequestId.{is_valid_request_id}
use wasi_http_middleware.Policy.Claims.{AuthnRequestV1, AuthnSuccessV1}
use wasi_http_middleware.Policy.SecurityHeaders.{content_type_options, referrer_policy}
use wasi_http_middleware.Policy.Cors.Config.{CorsConfig}
use wasi_http_middleware.Policy.Cors.Evaluate.{
  vary, origin_header, request_method, CorsDecision, evaluate,
}
use wasi_http_middleware.Policy.Cors.Evaluate
use wasi_http_middleware.AuthnRuntime.{AuthnConfigError, AuthnRejection, rejection_status}
use wasi_http_middleware.AuthnRuntime.Config.{Variable, AuthnConfig, from_environment}
use wasi_http_middleware.AuthnRuntime.Authenticate.{
  BrokerCallError, AuthnOutcome, pass, reject, authenticate_with_diagnostics,
}
use wasi_http_middleware.ComponentSupport.HeaderList.{Header, is_named, has_prefix}
use wasi_http_middleware.ComponentSupport.HeaderMap.{fields_of}
use wasi_http_middleware.ComponentSupport.RequestId.{generated_request_id}
use wasi_http_middleware.ComponentSupport.Messages.{
  HostHttp, request_headers, edit_request_headers, edit_response_headers_from_original,
  empty_response,
}
use wasi_http_middleware.Components.{Handler, retry_after, to_http_method, supplied_request_id}
use wasi_http_middleware.Components.Vary.{merged_vary_origin}
use wasi_http_middleware.Components.AuthnPolicy.{challenge_fields, retry_fields, request_id_field}
use wasi_http_middleware.Components.Cors.{ConfigError, load_config}

-- The names with the reserved prefix, as they are spelled.
unfoldable pub reserved_names : List Header → List Bytes
unfolding has_prefix
reserved_names fields =
    map (λ (header : Header). header.name)
      (filter (λ (header : Header). has_prefix reserved_auth_prefix header.name) fields)

-- `delete_names` of a request that is passed on.
unfoldable pub untrusted_names : List Header → List Bytes
unfolding reserved_names is_named
untrusted_names fields =
    (if any (is_named authorization) fields then authorization ∷ [] else [])
    ++ reserved_names fields

-- The header of the policies that a field is kept for.
unfoldable pub selected_name : Bytes → Option Bytes
unfolding eq_ignore_ascii_case
selected_name name =
    if eq_ignore_ascii_case name authorization
    then some authorization
    else if eq_ignore_ascii_case name origin_header
    then some origin_header
    else if eq_ignore_ascii_case name request_method
    then some request_method
    else if eq_ignore_ascii_case name Evaluate.request_headers
    then some Evaluate.request_headers
    else none

unfoldable pub request_id_fields : Option Bytes → List Header
request_id_fields none = []
request_id_fields (some request_id) = request_id_field request_id ∷ []

module _ (http : HttpCrate) where
  open http use {
    HeaderValue, HeaderMap, new_map, append, value_from_bytes, set_sensitive, keys, contains_key,
    as_bytes,
  }

  -- The loop of `policy_headers`.
  unfoldable pub select_fields : HeaderMap → List Header → Result (Unit {0}) HeaderMap
  unfolding selected_name ◌=b◌
  select_fields output [] = ok output
  select_fields output (header ∷ headers) = elim (selected_name header.name) [
    | none ↦ select_fields output headers
    | some selected ↦ ok_or (value_from_bytes header.value) tt >>= λ value.
        select_fields
          (append output selected
            (if selected =b authorization then set_sensitive value true else value))
          headers
  ]

  unfoldable pub policy_headers : List Header → Result (Unit {0}) HeaderMap
  unfolding select_fields
  policy_headers fields = select_fields new_map fields

  -- The loop of `cors_replacements`, which leaves `vary` out.
  unfoldable pub replacements_of : HeaderMap → List Bytes → List Header
  unfolding ◌=b◌
  replacements_of source [] = []
  replacements_of source (name ∷ names) =
      (if name =b vary then [] else fields_of http source name) ++ replacements_of source names

  unfoldable pub cors_replacements : List Header → HeaderMap → List Header
  unfolding replacements_of merged_vary_origin
  cors_replacements original source =
      replacements_of source (keys source)
      ++ (if contains_key source vary
          then record { name = vary; value = merged_vary_origin original } ∷ []
          else [])

  -- `replacements` of a response.
  unfoldable pub final_fields : List Header → HeaderMap → Option Bytes → List Header
  unfolding cors_replacements request_id_fields
  final_fields original cors_headers request_id =
      record { name = content_type_options; value = codes "nosniff" }
        ∷ record { name = referrer_policy; value = codes "strict-origin-when-cross-origin" }
        ∷ request_id_fields request_id
      ++ cors_replacements original cors_headers

  module _ (host : HostHttp) where
    open host use {Request, Response, ErrorCode, internal_error, copy_all, response_parts}

    pub data Admission : Type 0 where
      respond : Result ErrorCode Response → Admission
      forward : Request → HeaderMap → Bytes → Admission

    unfoldable pub finalize_response :
        Response → HeaderMap → Option Bytes → Result ErrorCode Response
    unfolding reserved_names final_fields edit_response_headers_from_original
    finalize_response response cors_headers request_id =
        let original_headers = (response_parts response).headers in
        let original_fields = copy_all original_headers in
        edit_response_headers_from_original host response original_headers
          (reserved_names original_fields) (final_fields original_fields cors_headers request_id)

    unfoldable pub controlled_response :
        ℕ → List Header → HeaderMap → Option Bytes → Result ErrorCode Response
    unfolding empty_response finalize_response
    controlled_response status headers cors_headers request_id = do
      response ← empty_response host status headers
      finalize_response response cors_headers request_id

    unfoldable pub rejection_response :
        AuthnRejection → Bytes → HeaderMap → Bytes → Result ErrorCode Response
    unfolding challenge_fields retry_fields rejection_status controlled_response
    rejection_response rejection realm cors_headers request_id =
        controlled_response (rejection_status rejection)
          (challenge_fields rejection realm ++ retry_fields rejection) cors_headers
          (some request_id)

    unfoldable pub valid_or_generated : List ℕ → Option Bytes → ℕ → Result ErrorCode Bytes × ℕ
    unfolding generated_request_id is_valid_request_id
    valid_or_generated prefix (some value) sequence = (ok value, sequence)
    valid_or_generated prefix none sequence =
        let (generated, sequence') = generated_request_id prefix sequence in
        (if is_valid_request_id generated then ok generated else err internal_error, sequence')

    unfoldable pub canonical_request_id : List ℕ → List Header → ℕ → Result ErrorCode Bytes × ℕ
    unfolding supplied_request_id valid_or_generated
    canonical_request_id prefix headers sequence =
        valid_or_generated prefix (supplied_request_id headers) sequence

    -- `?` on the request that is passed on
    unfoldable pub forward_or : HeaderMap → Bytes → Result ErrorCode Request → Admission
    forward_or cors_headers request_id (ok request) = forward request cors_headers request_id
    forward_or cors_headers request_id (err e) = respond (err e)

    -- The downstream call and what follows it.
    unfoldable pub complete : Handler host → Admission → Result ErrorCode Response
    unfolding finalize_response
    complete downstream (respond response) = response
    complete downstream (forward request cors_headers request_id) = do
      response ← downstream request
      finalize_response response cors_headers (some request_id)
